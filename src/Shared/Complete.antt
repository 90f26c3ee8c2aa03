-- ===== src/Shared/Complete.antt =====
-- The claimed numbers, step by step.
use native.Mathlib.Decide.{ℕ_discrete}
use perfnum.Prelude.{
  ℕ, suc, ◌≡◌, inl, inr, refl, sym, subst, Bool, true, false, some, List, ◌∷◌, if◌then◌else◌, arith,
}
use perfnum.Compute.Perfect.{is_perfect_number}
use perfnum.Compute.Claim
use perfnum.Compute.Claim.{scanning, returned, exhausted, result, posting, unposted, IsFresh}
use perfnum.Compute.Claim.Safety.{mine}
use perfnum.Compute.Lock
use perfnum.Compute.Lock.{outside, waiting, returns}
use perfnum.Shared.{
  State, not_stored, Step, claiming, other, calling, reporting, passing, going_on, Reach, start,
  later,
}
use perfnum.Shared.Account.{
  Where, Accounted, Matches, AllMatch, claiming-Where, claiming-history, reporting-Where,
  reporting-others, each,
}
use perfnum.Shared.Matches.{Reach-AllMatch}

-- A loss more leaves nothing unaccounted for.
losing :
    (p : Claim.Pc) (q : Lock.Pc) (k j : ℕ) (stored lost : List ℕ)
    → Where k p q stored lost
    → Where k p q stored (j ∷ lost)
losing p q k j stored lost (inl a) = inl a
losing p q k j stored lost (inr (inl a)) = inr (inl a)
losing p q k j stored lost (inr (inr (inl a))) = inr (inr (inl a))
losing p q k j stored lost (inr (inr (inr a))) = inr (inr (inr (ground arith)))

losing-if :
    (p : Claim.Pc) (q : Lock.Pc) (b : Bool) (k j : ℕ) (stored lost : List ℕ)
    → Where k p q stored lost
    → Where k p q stored (if b then j ∷ lost else lost)
losing-if p q true k j stored lost a = losing p q k j stored lost a
losing-if p q false k j stored lost a = a

-- The worker that goes on: its report was stored, or is lost now.
leaving :
    (k j : ℕ) (q : Lock.Pc) (stored lost : List ℕ)
    → returns q ≡ true
    → Where k (returned j) q stored lost
    → Where k (scanning 0) outside stored (if not_stored q then j ∷ lost else lost)
leaving k j q stored lost back (inl a) = cc
leaving k j q stored lost back (inr (inl a)) = cc
leaving k j q stored lost back (inr (inr (inl (a, b)))) = inr (inr (inr (ground arith)))
leaving k j q stored lost back (inr (inr (inr a))) = inr (inr (inr (ground arith)))

calling-Where :
    (p : Claim.Pc) (q : Lock.Pc) (k j : ℕ) (stored lost : List ℕ)
    → Where k p q stored lost
    → Where k p (waiting (suc j)) stored lost
calling-Where p q k j stored lost (inl a) = inl a
calling-Where p q k j stored lost (inr (inl a)) = inr (inl a)
calling-Where p q k j stored lost (inr (inr (inl (a, b)))) = inr (inr (inl (a, refl)))
calling-Where p q k j stored lost (inr (inr (inr a))) = inr (inr (inr a))

-- A number that is passed over is not the perfect one.
passing-Where :
    (q : Lock.Pc) (k j : ℕ) (stored lost : List ℕ)
    → is_perfect_number (suc k) ≡ some true
    → is_perfect_number (suc j) ≡ some false
    → Where k (returned j) q stored lost
    → Where k (scanning 0) q stored lost
passing-Where q k j stored lost yes_one no_one (inl a) = cc
passing-Where q k j stored lost yes_one no_one (inr (inl a)) = cc
passing-Where q k j stored lost yes_one no_one (inr (inr (inl (a, b)))) = cc
passing-Where q k j stored lost yes_one no_one (inr (inr (inr a))) = inr (inr (inr a))

module _ (k : ℕ) (perfect : is_perfect_number (suc k) ≡ some true) where
  Step-Accounted :
      {size : ℕ} {s t : State} → Step size s t → AllMatch s → Accounted k s → Accounted k t
  Step-Accounted {s = s} (claiming w {m = m} {p = p} out none_yet inside mv) f a =
      each (λ v q. mine v k m.history ≡ true → Where k q (s.table.pc v) s.table.mem.stored s.lost)
        s.claims.pc (Claim.update s.claims.pc w p) w (λ v ne. ground arith)
        (λ c.
          subst (λ q. Where k (Claim.update s.claims.pc w p w) q s.table.mem.stored s.lost)
            (sym out)
            (subst (λ q. Where k q outside s.table.mem.stored s.lost) (ground arith)
              (claiming-Where k s.table.mem.stored s.lost none_yet mv
                (λ c. subst (λ q. Where k (s.claims.pc w) q s.table.mem.stored s.lost) out (a w c))
                c)))
        (λ v ne c. a v (claiming-history v k ne mv c))
  Step-Accounted (other i byte h small) f a = a
  Step-Accounted {s = s} (calling w j e out really) f a =
      each
        (λ v q.
          mine v k s.claims.mem.history ≡ true
          → Where k (s.claims.pc v) q s.table.mem.stored s.lost)
        s.table.pc (Lock.update s.table.pc w (waiting (suc j))) w (λ v ne. ground arith)
        (λ c.
          subst (λ q. Where k (s.claims.pc w) q s.table.mem.stored s.lost) {x = waiting (suc j)}
            (ground arith)
            (calling-Where (s.claims.pc w) (s.table.pc w) k j s.table.mem.stored s.lost (a w c)))
        (λ v ne c. a v c)
  Step-Accounted {s = s} (reporting w {m = m} {q = q} at_p i mv) f a =
      each (λ v r. mine v k s.claims.mem.history ≡ true → Where k (s.claims.pc v) r m.stored s.lost)
        s.table.pc (Lock.update s.table.pc w q) w (λ v ne. ground arith)
        (λ c.
          subst (λ r. Where k (s.claims.pc w) r m.stored s.lost) (ground arith)
            (reporting-Where k s.lost i mv (subst (Matches (s.claims.pc w)) at_p (f w))
              (subst (λ r. Where k (s.claims.pc w) r s.table.mem.stored s.lost) at_p (a w c))))
        (λ v ne c. reporting-others k (s.claims.pc v) (s.table.pc v) s.lost mv (a v c))
  Step-Accounted {s = s} (passing w j e out not_perfect) f a =
      each
        (λ v p.
          mine v k s.claims.mem.history ≡ true → Where k p (s.table.pc v) s.table.mem.stored s.lost)
        s.claims.pc (Claim.update s.claims.pc w (scanning 0)) w (λ v ne. ground arith)
        (λ c.
          subst (λ p. Where k p (s.table.pc w) s.table.mem.stored s.lost) {x = scanning 0}
            (ground arith)
            (passing-Where (s.table.pc w) k j s.table.mem.stored s.lost perfect not_perfect
              (subst (λ p. Where k p (s.table.pc w) s.table.mem.stored s.lost) e (a w c))))
        (λ v ne c. a v c)
  Step-Accounted {s = s} (going_on w j e back) f a = λ v c. elim (ℕ_discrete w v) [
    | yes same ↦
        subst
          (λ u.
            Where k (Claim.update s.claims.pc w (scanning 0) u) (Lock.update s.table.pc w outside u)
              s.table.mem.stored (if not_stored (s.table.pc w) then j ∷ s.lost else s.lost))
          same
          (subst
            (λ q.
              Where k (Claim.update s.claims.pc w (scanning 0) w) q s.table.mem.stored
                (if not_stored (s.table.pc w) then j ∷ s.lost else s.lost))
            {x = outside} (ground arith)
            (subst
              (λ p.
                Where k p outside s.table.mem.stored
                  (if not_stored (s.table.pc w) then j ∷ s.lost else s.lost))
              {x = scanning 0} (ground arith)
              (leaving k j (s.table.pc w) s.table.mem.stored s.lost back (
                subst (λ p. Where k p (s.table.pc w) s.table.mem.stored s.lost) e
                  (a w (subst (λ u. mine u k s.claims.mem.history ≡ true) (sym same) c))))))
    | no differs ↦
        losing-if (Claim.update s.claims.pc w (scanning 0) v) (Lock.update s.table.pc w outside v)
          (not_stored (s.table.pc w)) k j s.table.mem.stored s.lost
          (subst
            (λ q. Where k (Claim.update s.claims.pc w (scanning 0) v) q s.table.mem.stored s.lost)
            (ground arith)
            (subst (λ p. Where k p (s.table.pc v) s.table.mem.stored s.lost) (ground arith)
              (a v c)))
  ]

  pub Reach-Accounted : {size : ℕ} {first : List ℕ} {s : State} → Reach size first s → Accounted k s
  Reach-Accounted (start m h) = λ w c. absurd (ground (arith, h.nothing))
  Reach-Accounted (later r st) = Step-Accounted st (Reach-AllMatch r) (Reach-Accounted r)
