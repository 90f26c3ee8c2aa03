-- ===== src/Compute/Slots/Race.antt =====
-- Two workers that have seen the same unused slot.
use perfnum.Prelude.{
  ℕ, zero, suc, ◌≡◌, ◌≢◌, refl, sym, ap, subst, ℤ, ==ℤ_iff, Bool, false, List, [], ◌∷◌, set, arith,
}
use perfnum.Shmem.{Process}
use perfnum.Shmem.Object.{kill_processes}
use perfnum.Shmem.Object.Agree.{used_pids, kill_processes-used}
use perfnum.Compute.Slots.{taking, running, System, update, Move, take, Step, pick}
use perfnum.Compute.Slots.Safety.{listed}

-- After worker w has written its process id into slot i.
abbrev pub taken : (ℕ → ℤ) → ℕ → ℕ → System → System
taken pid w i s = record {
  processes = set s.processes i (record { pid = pid w; found = 0; tested = 0 });
  pc = update s.pc w (running i);
}

take-Step : (pid : ℕ → ℤ) (w i : ℕ) (s : System) → s.pc w ≡ taking i → Step pid s (taken pid w i s)
take-Step pid w i s e = pick w (
    subst
      (λ p.
        Move (pid w) s.processes p
          (set s.processes i (record { pid = pid w; found = 0; tested = 0 })) (running i))
      (sym e) take)

-- A write of another process id lists none more.
listed-set :
    (ps : List Process) (i : ℕ) (q : Process) (x : ℤ)
    → x ≢ q.pid
    → listed x (used_pids ps) ≡ false
    → listed x (used_pids (set ps i q)) ≡ false
listed-set [] i q x ne h = h
listed-set (p ∷ ps) zero q x ne h = ground (arith, ==ℤ_iff q.pid x)
listed-set (p ∷ ps) (suc i) q x ne h = ground (arith, listed-set ps i q x ne)

set-twice : (ps : List Process) (i : ℕ) (p q : Process) → set (set ps i p) i q ≡ set ps i q
set-twice [] i p q = refl
set-twice (x ∷ xs) zero p q = refl
set-twice (x ∷ xs) (suc i) p q = ap (◌∷◌ x) (set-twice xs i p q)

-- When two workers have seen the same unused slot, both can take it, one after the other, and both
-- run then; the process id of the first is in no slot, and shmem_cleanup does not send it SIGQUIT.
pub slots_raced :
    (pid : ℕ → ℤ) (kills : ℤ → Bool) (v w i : ℕ) (s : System)
    → v ≢ w
    → pid v ≢ pid w
    → s.pc v ≡ taking i
    → s.pc w ≡ taking i
    → listed (pid v) (used_pids s.processes) ≡ false
    → let t = taken pid w i (taken pid v i s) in
      Step pid s (taken pid v i s)
      × Step pid (taken pid v i s) t
      × (t.pc v ≡ running i)
      × (t.pc w ≡ running i)
      × (listed (pid v) (kill_processes kills t.processes).0 ≡ false)
slots_raced pid kills v w i s ne other at_v at_w none_yet = (
  take-Step pid v i s at_v,
  take-Step pid w i (taken pid v i s) (ground arith),
  ground arith,
  ground arith,
  rw
      (
        (kill_processes-used kills (taken pid w i (taken pid v i s)).processes).0,
        set-twice s.processes i (record { pid = pid v; found = 0; tested = 0 })
            (record { pid = pid w; found = 0; tested = 0 }),
      )
      (listed-set s.processes i (record { pid = pid w; found = 0; tested = 0 }) (pid v) other
        none_yet),
)
