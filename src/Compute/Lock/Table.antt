-- ===== src/Compute/Lock/Table.antt =====
-- What the workers' reports leave in the table.
use native.Mathlib.Decide.{ℕ_discrete}
use perfnum.Prelude.{
  ℕ, zero, suc, ◌+◌, ◌<◌, ◌≡◌, ◌≢◌, refl, ◌∙◌, subst, Bool, true, false, some, List, [], ◌∷◌,
  get_elem?, set, ◌==◌, if◌then◌else◌, arith,
}
use perfnum.Compute.Table.Slots.{copies}
use perfnum.Compute.Lock.{
  Pc, waiting, looking, writing, posting, unposted, refused, Memory, Move, enter, lock, interrupted,
  lock_fails, in_use, unused, full, store, post, post_fails, leave, System, update, pick, Steps,
  here, later, start,
}

-- Between sem_wait and sem_post.
abbrev pub holds : Pc → Bool
holds (looking n i) = true
holds (writing n i) = true
holds (posting n) = true
holds _ = false

-- Back from the loop without sem_post, or after it failed.
abbrev pub keeps : Pc → Bool
keeps (unposted n) = true
keeps (refused n) = true
keeps _ = false

-- What the place of a worker says about the table.
abbrev Knows : List ℕ → Pc → Type 0
Knows table (writing n i) = (get_elem? table i ≡ some 0) × (0 < n)
Knows table (waiting n) = 0 < n
Knows table (looking n i) = 0 < n
Knows table _ = Unit

record Inv (first : List ℕ) (m : Memory) (pc : ℕ → Pc) : Type 0 where
  locked : (w : ℕ) → holds (pc w) ≡ true → m.free ≡ false
  single : (v w : ℕ) → holds (pc v) ≡ true → holds (pc w) ≡ true → v ≡ w
  knows : (w : ℕ) → Knows m.table (pc w)
  counted : (k : ℕ) → 0 < k → copies k m.table ≡ copies k first + copies k m.stored
  kept : (w : ℕ) → keeps (pc w) ≡ true → (m.free ≡ false) × ((v : ℕ) → holds (pc v) ≡ false)

copies-set :
    (table : List ℕ) (i n k : ℕ)
    → get_elem? table i ≡ some 0
    → 0 < k
    → copies k (set table i n) ≡ (if n == k then 1 else 0) + copies k table
copies-set [] i n k e h = cc
copies-set (x ∷ xs) zero n k e h = ground arith
copies-set (x ∷ xs) (suc i) n k e h = ground (arith, copies-set xs i n k)

-- Another worker's knowledge, where it does not hold the semaphore.
Knows-set : (xs ys : List ℕ) (p : Pc) → holds p ≡ false → Knows xs p → Knows ys p
Knows-set xs ys (waiting n) h q = q
Knows-set xs ys (looking n i) h q = cc
Knows-set xs ys (writing n i) h q = cc
Knows-set xs ys _ h q = tt

module _ {first : List ℕ} {m : Memory} {pc : ℕ → Pc} (inv : Inv first m pc) (w : ℕ) where
  Move-locked :
      {p p' : Pc} {m' : Memory}
      → Move m p m' p'
      → pc w ≡ p
      → (v : ℕ) → holds (update pc w p' v) ≡ true
      → m'.free ≡ false
  Move-locked (lock free) e v h = refl
  Move-locked mv e v h = ground (arith, inv.locked v, inv.locked w, inv.single v w)

  Move-single :
      {p p' : Pc} {m' : Memory}
      → Move m p m' p'
      → pc w ≡ p
      → (u v : ℕ) → holds (update pc w p' u) ≡ true
      → holds (update pc w p' v) ≡ true
      → u ≡ v
  Move-single (lock free) e u v hu hv = ground (arith, inv.single u v, inv.locked u, inv.locked v)
  Move-single mv e u v hu hv = ground (arith, inv.single u v, inv.single u w, inv.single w v)

  Move-counted :
      {p p' : Pc} {m' : Memory}
      → Move m p m' p'
      → Knows m.table p
      → (k : ℕ) → 0 < k
      → copies k m'.table ≡ copies k first + copies k m'.stored
  Move-counted (store {n = n} {i = i}) (open_here, some_number) k h =
      ground (arith, copies-set m.table i n k open_here h, inv.counted k h)
  Move-counted mv q k h = inv.counted k h

  Move-Knows : {p p' : Pc} {m' : Memory} → Move m p m' p' → Knows m.table p → Knows m'.table p'
  Move-Knows (enter h) q = h
  Move-Knows (lock free) q = q
  Move-Knows interrupted q = q
  Move-Knows lock_fails q = tt
  Move-Knows (in_use e h) q = q
  Move-Knows (unused e) q = (e, q)
  Move-Knows (full h) q = tt
  Move-Knows store q = tt
  Move-Knows post q = tt
  Move-Knows post_fails q = tt
  Move-Knows (leave h) q = tt

  Move-others :
      {p p' : Pc} {m' : Memory}
      → Move m p m' p'
      → pc w ≡ p
      → (v : ℕ) → w ≢ v
      → Knows m'.table (pc v)
  Move-others (store {n = n} {i = i}) e v ne =
      Knows-set m.table (set m.table i n) (pc v) (ground (arith, inv.single v w)) (inv.knows v)
  Move-others mv e v ne = inv.knows v

  Move-all :
      {p p' : Pc} {m' : Memory}
      → Move m p m' p'
      → pc w ≡ p
      → (v : ℕ) → Knows m'.table (update pc w p' v)
  Move-all {p' = p'} {m' = m'} mv e v = elim (ℕ_discrete w v) [
    | yes same ↦
        subst (Knows m'.table) (ground arith)
          (Move-Knows mv (subst (Knows m.table) e (inv.knows w)))
    | no differs ↦ subst (Knows m'.table) (ground arith) (Move-others mv e v differs)
  ]

  Move-kept :
      {p p' : Pc} {m' : Memory}
      → Move m p m' p'
      → pc w ≡ p
      → (u : ℕ) → keeps (update pc w p' u) ≡ true
      → (m'.free ≡ false) × ((v : ℕ) → holds (update pc w p' v) ≡ false)
  Move-kept (full {n = n} past) e u h =
      (inv.locked w (rw e refl), λ v. ground (arith, inv.single v w))
  Move-kept (post_fails {n = n}) e u h =
      (inv.locked w (rw e refl), λ v. ground (arith, inv.single v w))
  Move-kept (lock free) e u h =
      let old : keeps (pc u) ≡ true = ground arith in absurd (ground (arith, (inv.kept u old).0))
  Move-kept {p' = p'} mv e u h = elim (ℕ_discrete w u) [
    | yes same ↦ absurd (ground arith)
    | no differs ↦
        let old : keeps (pc u) ≡ true = ground arith in
        let (taken, nobody) = inv.kept u old in
        (ground (arith, nobody w), λ v. ground (arith, nobody v, nobody w))
  ]

  Move-Inv : {p : Pc} {m' : Memory} → Move m (pc w) m' p → Inv first m' (update pc w p)
  Move-Inv mv = record {
    locked = Move-locked mv refl;
    single = Move-single mv refl;
    knows = Move-all mv refl;
    counted = Move-counted mv (inv.knows w);
    kept = Move-kept mv refl;
  }

Steps-Inv : {first : List ℕ} {s : System} → Steps (start first) s → Inv first s.mem s.pc
Steps-Inv here = record {
  locked = λ w h. cc;
  single = λ v w h. cc;
  knows = λ w. tt;
  counted = λ k h. omega arith;
  kept = λ w h. cc;
}
Steps-Inv (later r (pick w mv)) = Move-Inv (Steps-Inv r) w mv

-- As long as only sem_wait and sem_post of shmem_report change perfect_numbers_sem: however the
-- reports of the workers interleave, no number that was stored is overwritten: the table holds each
-- number as often as at the start and as often as it was stored since, and at most one worker is
-- between sem_wait and sem_post.
pub reports_kept :
    {s : System} (first : List ℕ) (k v w : ℕ)
    → Steps (start first) s
    → 0 < k
    → (copies k s.mem.table ≡ copies k first + copies k s.mem.stored)
      × (holds (s.pc v) ≡ true → holds (s.pc w) ≡ true → v ≡ w)
reports_kept first k v w r h = ((Steps-Inv r).counted k h, (Steps-Inv r).single v w)

-- The semaphore is taken, and by nobody who will give it back.
abbrev Blocked : List ℕ → System → Type 0
Blocked table s = (s.mem.free ≡ false) × ((v : ℕ) → holds (s.pc v) ≡ false) × (s.mem.table ≡ table)

Move-Blocked :
    {m m' : Memory} {p q : Pc} (pc : ℕ → Pc) (w : ℕ)
    → m.free ≡ false
    → ((v : ℕ) → holds (pc v) ≡ false)
    → pc w ≡ p
    → Move m p m' q
    → (m'.free ≡ false) × ((v : ℕ) → holds (update pc w q v) ≡ false) × (m'.table ≡ m.table)
Move-Blocked pc w f nobody e (lock free) = absurd (ground arith)
Move-Blocked pc w f nobody e store = absurd (ground (arith, nobody w))
Move-Blocked pc w f nobody e mv =
    (ground (arith, nobody w), λ v. ground (arith, nobody v, nobody w), ground (arith, nobody w))

Steps-Blocked : {s t : System} (table : List ℕ) → Steps s t → Blocked table s → Blocked table t
Steps-Blocked table here b = b
Steps-Blocked table (later r (pick w mv)) b =
    let (f, nobody, same) = Steps-Blocked table r b in
    let (f', nobody', kept_table) = Move-Blocked _ w f nobody refl mv in
    (f', nobody', kept_table ∙ same)

-- When a worker has found the table full, or its sem_post has failed, then as long as only sem_wait
-- and sem_post of shmem_report change perfect_numbers_sem, the semaphore stays taken: in every later
-- state it is not free, no worker is between sem_wait and sem_post, and the table is as it was.
pub refused_blocks :
    {s t : System} (first : List ℕ) (w : ℕ)
    → Steps (start first) s
    → keeps (s.pc w) ≡ true
    → Steps s t
    → (t.mem.free ≡ false) × ((v : ℕ) → holds (t.pc v) ≡ false) × (t.mem.table ≡ s.mem.table)
refused_blocks {s} first w r e st =
    let (taken, nobody) = (Steps-Inv r).kept w e in
    Steps-Blocked s.mem.table st (taken, nobody, refl)
