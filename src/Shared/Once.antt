-- ===== src/Shared/Once.antt =====
-- How often a claimed number is stored or lost.
use native.Mathlib.Decide.{ℕ_discrete}
use perfnum.Prelude.{
  ℕ, suc, ◌+◌, ◌*◌, ◌≤◌, ◌<◌, ◌≡◌, ◌≢◌, ◌⊎◌, inl, inr, refl, sym, ◌∙◌, ap, subst, Bool, true, false,
  ◌&&◌, List, ◌∷◌, ◌==◌, if◌then◌else◌, Bool-cases, arith,
}
use perfnum.Compute.Table.Slots.{copies}
use perfnum.Compute.Claim
use perfnum.Compute.Claim.{scanning, returned, posting, claim, post, again}
use perfnum.Compute.Claim.Invariant.{claims}
use perfnum.Compute.Claim.Safety.{mine, claimed_once, mine-claims, two-claims, Owns, Reach-Owns}
use perfnum.Compute.Lock
use perfnum.Compute.Lock.{outside, waiting, store, enter, leave, returns}
use perfnum.Shared.{State, not_stored, is_inside, Reach}
use perfnum.Shared.Account.{unstored, losses, Matches, each}
use perfnum.Shared.Matches.{Reach-claims}

-- The worker has claimed place k, and its number is not yet stored or lost.
abbrev pub open_at : ℕ → Claim.Pc → Lock.Pc → Bool
open_at k (posting j) q = j == k
open_at k (returned j) q = (j == k) && unstored q
open_at k _ q = false

abbrev pub total : ℕ → State → ℕ
total k s = copies (suc k) s.table.mem.stored + losses k s.lost

pub record Once (k t : ℕ) (h : List (ℕ × ℕ)) (opens : ℕ → Bool) : Type 0 where
  pub at_most : t ≤ 1
  pub unclaimed : claims k h ≡ 0 → t ≡ 0
  pub not_yet : (w : ℕ) → opens w ≡ true → t ≡ 0

abbrev pub opens_in : ℕ → State → ℕ → Bool
opens_in k s w = open_at k (s.claims.pc w) (s.table.pc w)

abbrev pub OnceIn : ℕ → State → Type 0
OnceIn k s = Once k (total k s) s.claims.mem.history (opens_in k s)

-- Nothing is stored or lost, and no worker opens.
pub keeping :
    {k t t' : ℕ} {h : List (ℕ × ℕ)} {f g : ℕ → Bool}
    → Once k t h f
    → t' ≡ t
    → ((v : ℕ) → g v ≡ true → f v ≡ true)
    → Once k t' h g
keeping o e same = record {
  at_most = omega (arith, o.at_most, e);
  unclaimed = λ c. e ∙ o.unclaimed c;
  not_yet = λ v a. e ∙ o.not_yet v (same v a);
}

-- Worker w stores or loses its number; it was the only one that had it.
pub settling :
    {k t t' : ℕ} {h : List (ℕ × ℕ)} {f g : ℕ → Bool} (w : ℕ)
    → Once k t h f
    → t' ≡ suc t
    → f w ≡ true
    → 1 ≤ claims k h
    → ((v : ℕ) → f v ≡ true → v ≡ w)
    → ((v : ℕ) → g v ≡ true → (f v ≡ true) × (v ≢ w))
    → Once k t' h g
settling w o e a claimed only rest = record {
  at_most = omega (arith, o.not_yet w a, e);
  unclaimed = λ c. absurd (omega (arith, c, claimed));
  not_yet = λ v b. absurd ((rest v b).1 (only v (rest v b).0));
}

open-mine :
    (k w : ℕ) (p : Claim.Pc) (q : Lock.Pc) (h : List (ℕ × ℕ))
    → Owns w p h
    → open_at k p q ≡ true
    → mine w k h ≡ true
open-mine k w (posting j) q h o a = subst (λ x. mine w x h ≡ true) (ground arith) o
open-mine k w (returned j) q h o a = subst (λ x. mine w x h ≡ true) (ground arith) o
open-mine k w _ q h o a = cc

module _ {size : ℕ} {first : List ℕ} {s : State} (r : Reach size first s) (k : ℕ)
    (lt : k < 8 * size) where
  opens-mine : (w : ℕ) → opens_in k s w ≡ true → mine w k s.claims.mem.history ≡ true
  opens-mine w a =
      open-mine k w (s.claims.pc w) (s.table.pc w) s.claims.mem.history
        (Reach-Owns (Reach-claims r) w) a

  pub opens-claims : (w : ℕ) → opens_in k s w ≡ true → 1 ≤ claims k s.claims.mem.history
  opens-claims w a = mine-claims w k s.claims.mem.history (opens-mine w a)

  pub opens_distinct : (v w : ℕ) → opens_in k s v ≡ true → opens_in k s w ≡ true → v ≡ w
  opens_distinct v w a b = elim (ℕ_discrete v w) [
    | yes same ↦ same
    | no differs ↦ absurd (
        omega (
          arith,
          two-claims v w k s.claims.mem.history differs (opens-mine v a) (opens-mine w b),
          (claimed_once k (Reach-claims r) lt).0,
        ))
  ]

claiming-claims :
    {w : ℕ} {m m' : Claim.Memory} {p p' : Claim.Pc} (k : ℕ)
    → Claim.Move w m p m' p'
    → claims k m.history ≤ claims k m'.history
claiming-claims k (claim {k = j}) = ground arith
claiming-claims k mv = omega arith

claiming-opens :
    {w : ℕ} {m m' : Claim.Memory} {p p' : Claim.Pc} (k : ℕ)
    → Claim.Move w m p m' p'
    → open_at k p' outside ≡ true
    → (open_at k p outside ≡ true) ⊎ (claims k m.history < claims k m'.history)
claiming-opens k (claim {k = j}) a = inr (ground arith)
claiming-opens k post a = inl (ground arith)
claiming-opens k (again e ne) a = cc
claiming-opens k mv a = cc

pub claiming-Once :
    {w : ℕ} {m m' : Claim.Memory} {p' : Claim.Pc} (k t : ℕ) (p : ℕ → Claim.Pc) (q : ℕ → Lock.Pc)
    → Claim.Move w m (p w) m' p'
    → q w ≡ outside
    → claims k m'.history ≤ 1
    → Once k t m.history (λ v. open_at k (p v) (q v))
    → Once k t m'.history (λ v. open_at k (Claim.update p w p' v) (q v))
claiming-Once {w} {m} {m'} {p'} k t p q mv out once o = record {
  at_most = o.at_most;
  unclaimed = λ c. o.unclaimed (omega (arith, c, claiming-claims k mv));
  not_yet =
      each (λ v x. open_at k x (q v) ≡ true → t ≡ 0) p (Claim.update p w p') w
        (λ v ne. ground arith)
        (λ a.
          elim (claiming-opens k mv (
            ap (open_at k p') (sym out)
            ∙ ap (λ x. open_at k x (q w)) {x = p'} (ground arith)
            ∙ a)) [
              | inl before ↦ o.not_yet w (ap (open_at k (p w)) out ∙ before)
              | inr more ↦ o.unclaimed (omega (arith, more, once))
            ])
        (λ v ne a. o.not_yet v a);
}

-- A step in shmem_report: nothing is stored, or the number of place k is.
pub reporting-total :
    {m m' : Lock.Memory} {q q' : Lock.Pc} (k : ℕ) (p : Claim.Pc)
    → is_inside q ≡ true
    → Lock.Move m q m' q'
    → Matches p q
    → ((copies (suc k) m'.stored ≡ copies (suc k) m.stored)
        × (open_at k p q' ≡ true → open_at k p q ≡ true))
      ⊎ ((copies (suc k) m'.stored ≡ suc (copies (suc k) m.stored))
          × (open_at k p q ≡ true)
          × (open_at k p q' ≡ false))
reporting-total k p i (store {n = n}) f =
    let (j, at_j, same, perfect) = f n refl in
    elim (Bool-cases (j == k)) [
      | inl here ↦ inr (ground arith, ground arith, ground arith)
      | inr elsewhere ↦ inl (ground arith, λ a. ground arith)
    ]
reporting-total k p i (enter h) f = cc
reporting-total k p i (leave h) f = absurd (ground arith)
reporting-total k p i mv f = inl (refl, λ a. ground arith)

-- What the worker that goes on leaves.
pub leaving-total :
    (k j : ℕ) (q : Lock.Pc) (lost : List ℕ)
    → returns q ≡ true
    → (losses k (if not_stored q then j ∷ lost else lost) ≡ losses k lost)
      ⊎ ((losses k (if not_stored q then j ∷ lost else lost) ≡ suc (losses k lost))
          × (open_at k (returned j) q ≡ true))
leaving-total k j q lost back = elim (Bool-cases (not_stored q)) [
  | inl fails ↦ elim (Bool-cases (j == k)) [
    | inl here ↦ inr (ground arith, ground arith)
    | inr elsewhere ↦ inl (ground arith)
  ]
  | inr stored ↦ inl (ground arith)
]
