-- ===== src/Shared/Schedule.antt =====
-- Reachable states of shared memory mode by evaluation.
use perfnum.Prelude.{
  ℕ, zero, suc, ◌≡◌, refl, ◌∙◌, ap, Bool, true, false, Option, none, some, List, [], ◌∷◌, get_elem?,
}
use perfnum.Compute.Perfect.{is_perfect_number}
use perfnum.Compute.Claim
use perfnum.Compute.Claim.{
  scanning, returned, exhausted, posting, skipping, checking, unposted, result, IsFresh,
}
use perfnum.Compute.Claim.Schedule.{next_move}
use perfnum.Compute.Lock
use perfnum.Compute.Lock.{
  outside, waiting, looking, writing, reported, refused, failed, in_use, unused, store, returns,
}
use perfnum.Shared.{
  State, is_inside, in_bitmap, Step, claiming, calling, reporting, passing, going_on, Reach, later,
}

-- The workers move in a given order, without failures of the semaphores.
abbrev Next : ℕ → State → Type 0
Next size s = (t : State) × Step size s t

abbrev NextReport : Lock.Memory → Lock.Pc → Type 0
NextReport m p = (m' : Lock.Memory) × (q : Lock.Pc) × Lock.Move m p m' q

wait_report : (m : Lock.Memory) (n : ℕ) (b : Bool) → m.free ≡ b → NextReport m (waiting n)
wait_report m n true e = (_, _, Lock.lock e)
wait_report m n false e = (_, _, Lock.interrupted)

look_report :
    (m : Lock.Memory) (n i : ℕ) (o : Option ℕ)
    → get_elem? m.table i ≡ o
    → Option (NextReport m (looking n i))
look_report m n i none e = none
look_report m n i (some zero) e = some (_, _, unused e)
look_report m n i (some (suc x)) e = some (_, _, in_use e (λ h. cc))

next_report : (m : Lock.Memory) (p : Lock.Pc) → Option (NextReport m p)
unfolding wait_report look_report
next_report m (waiting n) = some (wait_report m n m.free refl)
next_report m (looking n i) = look_report m n i (get_elem? m.table i) refl
next_report m (writing n i) = some (_, _, store)
next_report m (Lock.posting n) = some (_, _, Lock.post)
next_report m _ = none

module _ {size : ℕ} (s : State) (w : ℕ) where
  in_place :
      {m : Claim.Memory} {q : Claim.Pc}
      → result (s.claims.pc w) ≡ none
      → s.table.pc w ≡ outside
      → Claim.Move w s.claims.mem (s.claims.pc w) m q
      → (b : Bool) → in_bitmap size (s.claims.pc w) ≡ b
      → Option (Next size s)
  in_place r out mv true e = some (_, claiming w out r e mv)
  in_place r out mv false e = none

  in_next_test :
      (p : Claim.Pc)
      → s.claims.pc w ≡ p
      → s.table.pc w ≡ outside
      → result p ≡ none
      → Option (Next size s)
  unfolding next_move in_place
  in_next_test p e out r = elim (next_move w s.claims.mem (s.claims.pc w)) [
    | none ↦ none
    | some (m, q, mv) ↦ in_place (ap result e ∙ r) out mv (in_bitmap size (s.claims.pc w)) refl
  ]

  with_number :
      (k : ℕ) (b : Option Bool)
      → s.claims.pc w ≡ returned k
      → s.table.pc w ≡ outside
      → is_perfect_number (suc k) ≡ b
      → Option (Next size s)
  with_number k none e out h = none
  with_number k (some true) e out h = some (_, calling w k e out h)
  with_number k (some false) e out h = some (_, passing w k e out h)

  from_outside : (p : Claim.Pc) → s.claims.pc w ≡ p → s.table.pc w ≡ outside → Option (Next size s)
  unfolding in_next_test with_number
  from_outside (returned k) e out = with_number k (is_perfect_number (suc k)) e out refl
  from_outside (scanning k) e out = in_next_test (scanning k) e out refl
  from_outside (Claim.waiting k) e out = in_next_test (Claim.waiting k) e out refl
  from_outside (checking k) e out = in_next_test (checking k) e out refl
  from_outside (Claim.claiming k byte) e out = in_next_test (Claim.claiming k byte) e out refl
  from_outside (posting k) e out = in_next_test (posting k) e out refl
  from_outside (skipping k) e out = in_next_test (skipping k) e out refl
  from_outside _ e out = none

  from_report : (p : Lock.Pc) → s.table.pc w ≡ p → is_inside p ≡ true → Option (Next size s)
  unfolding next_report
  from_report p e i = elim (next_report s.table.mem p) [
    | none ↦ none
    | some (m, q, mv) ↦ some (_, reporting w e i mv)
  ]

  back : (p : Claim.Pc) → s.claims.pc w ≡ p → returns (s.table.pc w) ≡ true → Option (Next size s)
  back (returned k) e r = some (_, going_on w k e r)
  back _ e r = none

  next : (p : Lock.Pc) → s.table.pc w ≡ p → Option (Next size s)
  unfolding from_outside from_report back
  next outside e = from_outside (s.claims.pc w) refl e
  next (reported n) e = back (s.claims.pc w) refl (ap returns e)
  next (refused n) e = back (s.claims.pc w) refl (ap returns e)
  next (Lock.unposted n) e = back (s.claims.pc w) refl (ap returns e)
  next failed e = back (s.claims.pc w) refl (ap returns e)
  next (waiting n) e = from_report (waiting n) e refl
  next (looking n i) e = from_report (looking n i) e refl
  next (writing n i) e = from_report (writing n i) e refl
  next (Lock.posting n) e = from_report (Lock.posting n) e refl

pub record Ran (size : ℕ) (first : List ℕ) : Type 0 where
  pub last : State
  pub reach : Reach size first last

-- Worker `w` makes n steps.
turns : {size : ℕ} {first : List ℕ} → Ran size first → ℕ → ℕ → Ran size first
unfolding next
turns r w zero = r
turns r w (suc n) = elim (next {size = _} r.last w (r.last.table.pc w) refl) [
  | none ↦ r
  | some (t, st) ↦ turns (record { last = t; reach = later r.reach st }) w n
]

unfoldable pub run : {size : ℕ} {first : List ℕ} → Ran size first → List (ℕ × ℕ) → Ran size first
unfolding turns
run r [] = r
run r ((w, n) ∷ plan) = run (turns r w n) plan
