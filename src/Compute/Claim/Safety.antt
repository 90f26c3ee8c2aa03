-- ===== src/Compute/Claim/Safety.antt =====
-- What holds in every state that the workers can reach.
use native.Mathlib.Decide.{ℕ_discrete}
use perfnum.Prelude.{
  ℕ, ◌*◌, ◌≤◌, ◌<◌, ◌≡◌, ◌≢◌, sym, ◌∙◌, Bool, true, false, ◌&&◌, ◌||◌, List, [], ◌∷◌, ◌==◌, subst,
  arith,
}
use perfnum.Shmem.{area_bit}
use perfnum.Shmem.Bits.{area_bit-le}
use perfnum.Compute.Claim.{
  Pc, posting, returned, exhausted, Memory, Move, claim, post, System, update, pick, other, Reach,
  start, later,
}
use perfnum.Compute.Claim.Invariant.{claims, holding, Knows}
use perfnum.Compute.Claim.Invariant.Steps.{Reach-Inv}

-- However the workers interleave, each number of the bitmap is claimed at most once, and its bit is
-- set exactly if it has been claimed.
pub claimed_once :
    {size : ℕ} {s : System} (k : ℕ)
    → Reach size s
    → k < 8 * size
    → (claims k s.mem.history ≤ 1) × (area_bit s.mem.area k ≡ claims k s.mem.history)
claimed_once {s = s} k r lt = (
  omega (arith, (Reach-Inv r).counted k lt, area_bit-le s.mem.area k),
  sym ((Reach-Inv r).counted k lt),
)

-- When next_test tells a worker that all numbers have been tested, each number of the bitmap has
-- been claimed, by exactly one claim.
pub exhausted_all :
    {size : ℕ} {s : System} (w k : ℕ)
    → Reach size s
    → s.pc w ≡ exhausted
    → k < 8 * size
    → claims k s.mem.history ≡ 1
exhausted_all {size} {s} w k r e lt =
    (Reach-Inv r).counted k lt ∙ subst (Knows size s.mem.area) e ((Reach-Inv r).knows w) k lt lt

-- Two workers are never between sem_wait and sem_post together.
mutual_exclusion :
    {size : ℕ} {s : System} (v w : ℕ)
    → Reach size s
    → holding (s.pc v) ≡ true
    → holding (s.pc w) ≡ true
    → v ≡ w
mutual_exclusion v w r hv hw = (Reach-Inv r).single v w hv hw

-- Whether worker w has claimed bit k.
abbrev pub mine : ℕ → ℕ → List (ℕ × ℕ) → Bool
mine w k [] = false
mine w k ((v, j) ∷ h) = (v == w && j == k) || mine w k h

abbrev pub Owns : ℕ → Pc → List (ℕ × ℕ) → Type 0
Owns w (posting k) h = mine w k h ≡ true
Owns w (returned k) h = mine w k h ≡ true
Owns w _ h = Unit

Owns-more : (w v j : ℕ) (p : Pc) (h : List (ℕ × ℕ)) → Owns w p h → Owns w p ((v, j) ∷ h)
Owns-more w v j (posting k) h o = ground arith
Owns-more w v j (returned k) h o = ground arith
Owns-more w v j _ h o = tt

Move-Owns :
    {w : ℕ} {m m' : Memory} {p p' : Pc}
    → Move w m p m' p'
    → Owns w p m.history
    → Owns w p' m'.history
Move-Owns (claim {k = k}) o = ground arith
Move-Owns post o = o
Move-Owns mv o = tt

Move-Owns_other :
    {w : ℕ} {m m' : Memory} {p p' : Pc} (v : ℕ) (q : Pc)
    → Move w m p m' p'
    → Owns v q m.history
    → Owns v q m'.history
Move-Owns_other {w} {m} v q (claim {k = k}) o = Owns-more v w k q m.history o
Move-Owns_other v q mv o = o

pub Reach-Owns : {size : ℕ} {s : System} → Reach size s → (v : ℕ) → Owns v (s.pc v) s.mem.history
Reach-Owns (start m f) v = tt
Reach-Owns (later r (other i byte h small)) v = Reach-Owns r v
Reach-Owns (later {s = s} r (pick w {m = m'} {p = p'} mv)) v = elim (ℕ_discrete w v) [
  | yes same ↦
      subst (λ u. Owns u (update s.pc w p' u) m'.history) same
        (subst (λ q. Owns w q m'.history) (ground arith) (Move-Owns mv (Reach-Owns r w)))
  | no differs ↦
      subst (λ q. Owns v q m'.history) (ground arith)
        (Move-Owns_other v (s.pc v) mv (Reach-Owns r v))
]

pub mine-claims : (w k : ℕ) (h : List (ℕ × ℕ)) → mine w k h ≡ true → 1 ≤ claims k h
mine-claims w k [] e = cc
mine-claims w k ((v, j) ∷ h) e = ground (arith, mine-claims w k h)

pub two-claims :
    (v w k : ℕ) (h : List (ℕ × ℕ)) → v ≢ w → mine v k h ≡ true → mine w k h ≡ true → 2 ≤ claims k h
two-claims v w k [] ne a b = cc
two-claims v w k ((u, j) ∷ h) ne a b =
    ground (arith, two-claims v w k h ne, mine-claims v k h, mine-claims w k h)

-- No number of the bitmap is handed to two workers: if next_test has returned the same number to
-- both, they are the same worker.
returned_distinct :
    {size : ℕ} {s : System} (v w k : ℕ)
    → Reach size s
    → s.pc v ≡ returned k
    → s.pc w ≡ returned k
    → k < 8 * size
    → v ≡ w
returned_distinct {s = s} v w k r ev ew lt = elim (ℕ_discrete v w) [
  | yes same ↦ same
  | no differs ↦ absurd (
      omega (
        arith,
        (claimed_once k r lt).0,
        two-claims v w k s.mem.history differs
            (subst (λ q. Owns v q s.mem.history) ev (Reach-Owns r v))
            (subst (λ q. Owns w q s.mem.history) ew (Reach-Owns r w)),
      ))
]
