-- ===== src/Network/All.antt =====
-- A property of every connection.
use perfnum.Prelude.{ℕ, zero, suc, ◌≡◌, subst, some, List, [], ◌∷◌, ◌++◌, get_elem?, set}
use perfnum.Network.{Conn, remove}

abbrev pub All : (Conn → Type 0) → List Conn → Type 0
All P [] = Unit
All P (c ∷ cs) = P c × All P cs

module _ (P : Conn → Type 0) where
  pub All-set : (cs : List Conn) (j : ℕ) (c' : Conn) → All P cs → P c' → All P (set cs j c')
  All-set [] j c' h p = tt
  All-set (c ∷ cs) zero c' h p = (p, h.1)
  All-set (c ∷ cs) (suc j) c' h p = (h.0, All-set cs j c' h.1 p)

  pub All-get : (cs : List Conn) (j : ℕ) (c : Conn) → All P cs → get_elem? cs j ≡ some c → P c
  All-get [] j c h e = cc
  All-get (d ∷ cs) zero c h e = let same : d ≡ c = cc in subst P same h.0
  All-get (d ∷ cs) (suc j) c h e = All-get cs j c h.1 e

  pub All-append : (cs : List Conn) (c : Conn) → All P cs → P c → All P (cs ++ c ∷ [])
  All-append [] c h p = (p, tt)
  All-append (d ∷ cs) c h p = (h.0, All-append cs c h.1 p)

  pub All-remove : (cs : List Conn) (j : ℕ) → All P cs → All P (remove cs j)
  All-remove [] j h = tt
  All-remove (d ∷ cs) zero h = h.1
  All-remove (d ∷ cs) (suc j) h = (h.0, All-remove cs j h.1)

pub All-mono :
    (P Q : Conn → Type 0) (cs : List Conn) → ((c : Conn) → P c → Q c) → All P cs → All Q cs
All-mono P Q [] f h = tt
All-mono P Q (c ∷ cs) f h = (f c h.0, All-mono P Q cs f h.1)
