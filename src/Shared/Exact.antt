-- ===== src/Shared/Exact.antt =====
-- Each claimed number is stored or lost at most once.
use native.Mathlib.Decide.{ℕ_discrete}
use perfnum.Prelude.{
  ℕ, suc, ◌+◌, ◌*◌, ◌<◌, ◌≡◌, ◌≢◌, inl, inr, refl, sym, ◌∙◌, ap, subst, true, List, ◌∷◌,
  if◌then◌else◌, arith,
}
use perfnum.Compute.Table.Slots.{copies}
use perfnum.Compute.Claim
use perfnum.Compute.Claim.{scanning, returned, posting, claim, post, again}
use perfnum.Compute.Claim.Safety.{claimed_once}
use perfnum.Compute.Lock
use perfnum.Compute.Lock.{outside, waiting, store, enter, leave, returns}
use perfnum.Shared.{
  State, not_stored, is_inside, Step, claiming, other, calling, reporting, passing, going_on, Reach,
  start, later,
}
use perfnum.Shared.Account.{losses, each}
use perfnum.Shared.Matches.{Reach-AllMatch, Reach-claims}
use perfnum.Shared.Once.{
  open_at, total, Once, opens_in, OnceIn, keeping, settling, opens-claims, opens_distinct,
  claiming-Once, reporting-total, leaving-total,
}

module _ {size : ℕ} {first : List ℕ} {s : State} (r : Reach size first s) (k : ℕ)
    (lt : k < 8 * size) where
  calling-Once :
      (w j : ℕ)
      → s.table.pc w ≡ outside
      → OnceIn k s
      → Once k
          (total k s)
          s.claims.mem.history
          (λ v. open_at k (s.claims.pc v) (Lock.update s.table.pc w (waiting (suc j)) v))
  calling-Once w j out o = keeping o refl (
      each (λ v q. open_at k (s.claims.pc v) q ≡ true → opens_in k s v ≡ true) s.table.pc
        (Lock.update s.table.pc w (waiting (suc j))) w (λ v ne. ground arith) (λ a. ground arith)
        (λ v ne a. a))

  passing-Once :
      (w : ℕ)
      → OnceIn k s
      → Once k
          (total k s)
          s.claims.mem.history
          (λ v. open_at k (Claim.update s.claims.pc w (scanning 0) v) (s.table.pc v))
  passing-Once w o = keeping o refl (
      each (λ v p. open_at k p (s.table.pc v) ≡ true → opens_in k s v ≡ true) s.claims.pc
        (Claim.update s.claims.pc w (scanning 0)) w (λ v ne. ground arith) (λ a. ground arith)
        (λ v ne a. a))

  reporting-Once :
      (w : ℕ) {m : Lock.Memory} {q : Lock.Pc}
      → is_inside (s.table.pc w) ≡ true
      → Lock.Move s.table.mem (s.table.pc w) m q
      → OnceIn k s
      → Once k
          (copies (suc k) m.stored + losses k s.lost)
          s.claims.mem.history
          (λ v. open_at k (s.claims.pc v) (Lock.update s.table.pc w q v))
  reporting-Once w {m} {q} i mv o =
      elim (reporting-total k (s.claims.pc w) i mv (Reach-AllMatch r w)) [
        | inl (same, opens) ↦ keeping o (omega (arith, same)) (
            each (λ v x. open_at k (s.claims.pc v) x ≡ true → opens_in k s v ≡ true) s.table.pc
              (Lock.update s.table.pc w q) w (λ v ne. ground arith)
              (λ a. opens (ap (open_at k (s.claims.pc w)) {x = q} (ground arith) ∙ a))
              (λ v ne a. a))
        | inr (more, opened, shut) ↦
            settling w o (omega (arith, more)) opened (opens-claims r k lt w opened)
              (λ v a. opens_distinct r k lt v w a opened)
              (each (λ v x. open_at k (s.claims.pc v) x ≡ true → (opens_in k s v ≡ true) × (v ≢ w))
                s.table.pc (Lock.update s.table.pc w q) w (λ v ne. ground arith)
                (λ a. absurd (
                  ground (
                    arith,
                    ap (open_at k (s.claims.pc w)) {x = Lock.update s.table.pc w q w} {y = q}
                        (ground arith),
                  )))
                (λ v ne a. (a, λ e. ne (sym e))))
      ]

  going_on-Once :
      (w j : ℕ)
      → s.claims.pc w ≡ returned j
      → returns (s.table.pc w) ≡ true
      → OnceIn k s
      → Once k
          (copies (suc k) s.table.mem.stored
            + losses k (if not_stored (s.table.pc w) then j ∷ s.lost else s.lost))
          s.claims.mem.history
          (λ v.
            open_at k
              (Claim.update s.claims.pc w (scanning 0) v)
              (Lock.update s.table.pc w outside v))
  going_on-Once w j e back o = elim (leaving-total k j (s.table.pc w) s.lost back) [
    | inl same ↦ keeping o (omega (arith, same)) (λ v a. (gone v a).0)
    | inr (more, opened) ↦
        let here : opens_in k s w ≡ true = ap (λ p. open_at k p (s.table.pc w)) e ∙ opened in
        settling w o (omega (arith, more)) here (opens-claims r k lt w here)
          (λ v a. opens_distinct r k lt v w a here) gone
  ]
    where
      gone :
          (v : ℕ)
          → open_at k
              (Claim.update s.claims.pc w (scanning 0) v)
              (Lock.update s.table.pc w outside v)
            ≡ true
          → (opens_in k s v ≡ true) × (v ≢ w)
      gone v a = elim (ℕ_discrete w v) [
        | yes same ↦ absurd (
            ground (
              arith,
              ap (λ p. open_at k p (Lock.update s.table.pc w outside v))
                  {x = Claim.update s.claims.pc w (scanning 0) v} {y = scanning 0} (ground arith),
            ))
        | no differs ↦ (
          ap (open_at k (s.claims.pc v)) {y = Lock.update s.table.pc w outside v} (ground arith)
              ∙ ap (λ p. open_at k p (Lock.update s.table.pc w outside v))
                  {y = Claim.update s.claims.pc w (scanning 0) v} (ground arith)
              ∙ a,
          λ e. differs (sym e),
        )
      ]

  Step-Once : {t : State} → Step size s t → OnceIn k s → OnceIn k t
  Step-Once (claiming w out none_yet inside mv) o =
      claiming-Once k (total k s) s.claims.pc s.table.pc mv out
        (claimed_once k (Reach-claims (later r (claiming w out none_yet inside mv))) lt).0 o
  Step-Once (other i byte h small) o = o
  Step-Once (calling w j e out perfect) o = calling-Once w j out o
  Step-Once (reporting w {m = m} {q = q} at_p i mv) o =
      reporting-Once w (ap is_inside at_p ∙ i)
        (subst (λ p. Lock.Move s.table.mem p m q) (sym at_p) mv) o
  Step-Once (passing w j e out other_number) o = passing-Once w o
  Step-Once (going_on w j e back) o = going_on-Once w j e back o

pub Reach-Once :
    {size : ℕ} {first : List ℕ} {s : State} (k : ℕ) → k < 8 * size → Reach size first s → OnceIn k s
Reach-Once k lt (start m h) = record {
  at_most = omega arith;
  unclaimed = λ c. refl;
  not_yet = λ w a. refl;
}
Reach-Once k lt (later r st) = Step-Once r k lt st (Reach-Once k lt r)
