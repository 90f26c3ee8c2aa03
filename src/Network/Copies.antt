-- ===== src/Network/Copies.antt =====
-- How long a list is, by how often it holds each number.
use perfnum.Prelude.{
  ℕ, zero, suc, ◌+◌, ◌≤◌, ◌≡◌, refl, ℤ, pos, negsuc, ◌==ℤ◌, ==ℤ_iff, Bool, true, false, ◌&&◌, List,
  [], ◌∷◌, length, take, if◌then◌else◌, arith,
}
use perfnum.Network.Conserve.{copies}

abbrev pub is_natural : ℤ → Bool
is_natural (pos n) = true
is_natural (negsuc n) = false

abbrev pub all_natural : List ℤ → Bool
all_natural [] = true
all_natural (n ∷ ns) = is_natural n && all_natural ns

-- The list without the first k in it.
abbrev without_one : ℕ → List ℤ → List ℤ
without_one k [] = []
without_one k (n ∷ ns) = if n ==ℤ pos k then ns else n ∷ without_one k ns

length-without_one :
    (k : ℕ) (ns : List ℤ) → 1 ≤ copies k ns → length ns ≡ suc (length (without_one k ns))
length-without_one k [] h = omega (arith, h)
length-without_one k (n ∷ ns) h = ground (arith, length-without_one k ns)

copies-without_one :
    (j k : ℕ) (ns : List ℤ)
    → 1 ≤ copies k ns
    → copies j (without_one k ns) + (if pos k ==ℤ pos j then 1 else 0) ≡ copies j ns
copies-without_one j k [] h = omega (arith, h)
copies-without_one j k (n ∷ ns) h = ground (arith, copies-without_one j k ns, ==ℤ_iff n (pos k))

-- A list that holds no number more often than another is no longer.
pub shorter :
    (ns ms : List ℤ)
    → all_natural ns ≡ true
    → ((k : ℕ) → copies k ns ≤ copies k ms)
    → length ns ≤ length ms
shorter [] ms h f = omega arith
shorter (negsuc n ∷ ns) ms h f = cc
shorter (pos n ∷ ns) ms h f =
    let here : 1 ≤ copies n ms = ground (arith, f n, ==ℤ_iff (pos n) (pos n)) in
    omega (
      arith,
      length-without_one n ms here,
      shorter ns (without_one n ms) h (λ k. omega (arith, f k, copies-without_one k n ms here)),
    )

pub length-take_all : (n : ℕ) (ns : List ℤ) → n ≤ length ns → length (take n ns) ≡ n
length-take_all zero ns h = refl
length-take_all (suc n) [] h = omega (arith, h)
length-take_all (suc n) (m ∷ ns) h = omega (arith, length-take_all n ns (omega arith))
