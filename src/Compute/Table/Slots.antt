-- ===== src/Compute/Table/Slots.antt =====
-- What a report leaves in the table, and what a worker leaves in its slot.
use perfnum.Prelude.{
  ℕ, suc, ◌+◌, ◌≤◌, ◌<◌, ◌≡◌, ◌⊎◌, inl, inr, refl, ℤ, minus_one, Bool, true, false, none, some,
  List, [], ◌∷◌, set, ◌==◌, if◌then◌else◌, Option-cases, Bool-cases, some_inj, arith,
}
use perfnum.Shmem.{Process}
use perfnum.Compute.Perfect.{is_perfect_number}
use perfnum.Compute.Perfect.Spec.{aliquot}
use perfnum.Compute.Perfect.Correct.{is_perfect_number_small}
use perfnum.Compute.Table.{
  Reported, open_slot, store_number, shmem_report, Turn, note_perfect, work, free_process,
  shmem_loop,
}

-- How often n stands in the table.
abbrev pub copies : ℕ → List ℕ → ℕ
copies n [] = 0
copies n (x ∷ xs) = if x == n then suc (copies n xs) else copies n xs

-- A number in an open slot takes a 0 away and adds itself.
open_slot-copies :
    (table : List ℕ) (n i : ℕ)
    → 0 < n
    → open_slot table ≡ some i
    → (copies n (set table i n) ≡ suc (copies n table))
      × (suc (copies 0 (set table i n)) ≡ copies 0 table)
unfolding open_slot
open_slot-copies [] n i h e = cc
open_slot-copies (x ∷ xs) n i h e = elim (Bool-cases (x == 0)) [
  | inl zero_here ↦
      let here : some i ≡ some 0 = ground arith in
      let same : i ≡ 0 = some_inj here in rw same (ground arith)
  | inr taken ↦ elim (Option-cases (open_slot xs)) [
    | inl missing ↦ absurd (ground arith)
    | inr (j, later) ↦
        let there : some i ≡ some (suc j) = ground arith in
        let same : i ≡ suc j = some_inj there in
        rw same (ground (arith, open_slot-copies xs n j h later))
  ]
]

open_slot-none : (table : List ℕ) → open_slot table ≡ none → copies 0 table ≡ 0
unfolding open_slot
open_slot-none [] e = refl
open_slot-none (x ∷ xs) e = elim (Option-cases (open_slot xs)) [
  | inl missing ↦ ground (arith, open_slot-none xs)
  | inr (j, later) ↦ ground arith
]

-- With the semaphore working, shmem_report of a number above 0 succeeds exactly if the table has a
-- 0. The number then stands in the table once more than before, in the place of a 0, and the
-- semaphore is given back. In a full table nothing is stored, and the semaphore is kept.
shmem_report-table :
    (table : List ℕ) (n : ℕ)
    → 0 < n
    → (r : Reported) × (shmem_report true true table n ≡ some r)
      × (((r.ok ≡ true)
            × (r.held ≡ false)
            × (copies n r.table ≡ suc (copies n table))
            × (suc (copies 0 r.table) ≡ copies 0 table))
          ⊎ ((r.ok ≡ false) × (r.held ≡ true) × (r.table ≡ table) × (copies 0 table ≡ 0)))
unfolding shmem_report store_number
shmem_report-table table n h = elim (Option-cases (open_slot table)) [
  | inl missing ↦ (
    record { table = table; ok = false; held = true },
    ground arith,
    inr (refl, refl, refl, open_slot-none table missing),
  )
  | inr (i, here) ↦ (
    record { table = set table i n; ok = true; held = false },
    ground arith,
    inl (refl, refl, (open_slot-copies table n i h here).0, (open_slot-copies table n i h here).1),
  )
]

-- The turns that a worker takes: up to the first signal.
abbrev pub taken : List Turn → ℕ
taken [] = 0
taken (u ∷ us) = let rest = taken us in if u.caught then 1 else suc rest

abbrev pub perfect_among : List Turn → ℕ
perfect_among [] = 0
perfect_among (u ∷ us) =
    let rest = perfect_among us in
    let one = if aliquot u.test == u.test then 1 else 0 in if u.caught then one else one + rest

-- next_test has returned numbers from 1 to 25000000.
abbrev pub Small : List Turn → Type 0
Small [] = Unit
Small (u ∷ us) = (0 < u.test) × (u.test ≤ 25000000) × Small us

abbrev counts : Process → ℕ → ℕ → Process
counts p found tested = record p { found = p.found + found; tested = p.tested + tested }

-- Every sem_post succeeds.
abbrev pub AllPost : List Turn → Type 0
AllPost [] = Unit
AllPost (u ∷ us) = (u.posts ≡ true) × AllPost us

turned_away :
    (u : Turn) (p : Process) (table : List ℕ)
    → 0 < u.test
    → u.waits ≡ false
    → note_perfect false true u p table ≡ some (counts p 1 0, table, false)
unfolding note_perfect shmem_report
turned_away u p table h fails = ground (arith, h)

-- A report of a worker that does not hold the semaphore, with room in the table.
note_perfect-some :
    (perfect : Bool) (u : Turn) (p : Process) (table : List ℕ)
    → 0 < u.test
    → u.posts ≡ true
    → (if perfect then 1 else 0) ≤ copies 0 table
    → (after : List ℕ) × (note_perfect false perfect u p table
        ≡ some (counts p (if perfect then 1 else 0) 0, after, false))
      × (copies 0 table ≤ copies 0 after + (if perfect then 1 else 0))
unfolding note_perfect
note_perfect-some false u p table h posts room = (table, ground arith, omega arith)
note_perfect-some true u p table h posts room = elim (Bool-cases u.waits) [
  | inl waits ↦
      let (r, e, outcome) = shmem_report-table table u.test h in
      elim outcome [
        | inl (ok, free, more, less) ↦
            (r.table, ground (arith, e, free, waits, posts), omega (arith, less))
        | inr (ok, kept, same, full) ↦ absurd (omega (arith, full, room))
      ]
  | inr fails ↦ (table, turned_away u p table h fails, omega arith)
]

work-counts :
    (us : List Turn) (p : Process) (table : List ℕ)
    → Small us
    → AllPost us
    → perfect_among us ≤ copies 0 table
    → (after : List ℕ) × (work false us p table
        ≡ some (counts p (perfect_among us) (taken us), after))
unfolding work
work-counts [] p table small posts room = (table, ground arith)
work-counts (u ∷ us) p table (lo, hi, more) (posts, all_post) room =
    let perfect = aliquot u.test == u.test in
    let (next, noted, left) = note_perfect-some perfect u p table lo posts (ground (arith, room)) in
    let q = counts p (if perfect then 1 else 0) 1 in
    elim (Bool-cases u.caught) [
      | inl signal ↦ (next, ground (arith, is_perfect_number_small u.test lo hi))
      | inr quiet ↦
          let (after, rest) = work-counts us q next more all_post (ground (arith, room, left)) in
          (after, ground (arith, is_perfect_number_small u.test lo hi))
    ]

-- A worker that finds its first unused slot at i returns, for numbers up to 25000000, if the table
-- has an open slot for each perfect number among them and every sem_post succeeds, whether sem_wait
-- succeeds or fails. Its slot is unused again, and counts the numbers up to the first signal, and
-- the perfect ones among them; the other slots are as they were.
pub shmem_loop-counts :
    (pid : ℤ) (us : List Turn) (ps : List Process) (table : List ℕ) (i : ℕ)
    → free_process ps ≡ some i
    → Small us
    → AllPost us
    → perfect_among us ≤ copies 0 table
    → (after : List ℕ) × (shmem_loop pid us ps table
        ≡ some (
          set ps i (record { pid = minus_one; found = perfect_among us; tested = taken us }),
          after,
        ))
unfolding shmem_loop
shmem_loop-counts pid us ps table i here small posts room =
    let (after, done_all) =
      work-counts us (record { pid = pid; found = 0; tested = 0 }) table small posts room in
    (after, ground arith)

zero-perfect : is_perfect_number 0 ≡ some true
unfolding is_perfect_number
zero-perfect = refl

-- If next_test returns 0 to a worker, which it does when sem_post fails, the worker stops at the
-- assertion of shmem_report: 0 passes the test for perfect numbers.
shmem_loop-zero :
    (pid : ℤ) (u : Turn) (us : List Turn) (ps : List Process) (table : List ℕ) (i : ℕ)
    → free_process ps ≡ some i
    → u.test ≡ 0
    → shmem_loop pid (u ∷ us) ps table ≡ none
unfolding shmem_loop work note_perfect shmem_report
shmem_loop-zero pid u us ps table i here zero_test = ground (arith, zero-perfect)
