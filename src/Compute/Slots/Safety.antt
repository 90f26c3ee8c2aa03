-- ===== src/Compute/Slots/Safety.antt =====
-- The slots of the workers that run.
use native.Mathlib.Decide.{ℕ_discrete}
use perfnum.Prelude.{
  ℕ, zero, suc, ◌≡◌, ◌≢◌, refl, sym, ◌∙◌, ap, subst, some_inj, ℤ, minus_one, ◌==ℤ◌, ==ℤ_iff, Bool,
  true, false, ◌||◌, some, List, [], ◌∷◌, get_elem?, get_elem?-set_self, get_elem?-set_ne,
  get_elem?-lt, set, arith,
}
use perfnum.Shmem.{Process}
use perfnum.Shmem.Object.{kill_processes}
use perfnum.Compute.Slots.{
  Pc, taking, running, System, update, Move, in_use, unused, full, take, note_found, note_tested,
  leave, Step, pick, Calm, Reach, start, later,
}

-- The slot at index i has this process id.
abbrev pub Holds : List Process → ℕ → ℤ → Type 0
Holds ps i x = (p : Process) × (get_elem? ps i ≡ some p) × (p.pid ≡ x)

-- What the place of a worker says about the list.
abbrev pub Fits : ℤ → List Process → Pc → Type 0
Fits pid ps (taking i) = Holds ps i minus_one
Fits pid ps (running i) = Holds ps i pid
Fits pid ps _ = Unit

Holds-one : (ps : List Process) (i : ℕ) (x y : ℤ) → Holds ps i x → Holds ps i y → x ≡ y
Holds-one ps i x y (p, at_p, e) (q, at_q, f) =
    sym e ∙ ap (λ (r : Process). r.pid) (some_inj (sym at_p ∙ at_q)) ∙ f

Holds-set :
    (ps : List Process) (i : ℕ) (p q : Process)
    → get_elem? ps i ≡ some p
    → Holds (set ps i q) i q.pid
Holds-set ps i p q e = (q, get_elem?-set_self ps i q (get_elem?-lt ps i e), refl)

Holds-other :
    (ps : List Process) (i j : ℕ) (q : Process) (x : ℤ)
    → i ≢ j
    → Holds ps j x
    → Holds (set ps i q) j x
Holds-other ps i j q x ne (p, e, f) = (p, get_elem?-set_ne ps i j q ne ∙ e, f)

-- A count changes no process id.
Holds-count :
    (ps : List Process) (i j : ℕ) (p q : Process) (x : ℤ)
    → get_elem? ps i ≡ some p
    → q.pid ≡ p.pid
    → Holds ps j x
    → Holds (set ps i q) j x
Holds-count ps i j p q x e same h = elim (ℕ_discrete i j) [
  | yes here ↦
      let pid_here = Holds-one ps j p.pid x (p, ap (get_elem? ps) (sym here) ∙ e, refl) h in
      subst (Holds (set ps i q) j) (same ∙ pid_here)
        (subst (λ k. Holds (set ps i q) k q.pid) here (Holds-set ps i p q e))
  | no differs ↦ Holds-other ps i j q x differs h
]

-- A worker keeps what it has, where a slot is written that is not its own.
Fits-other :
    (ps : List Process) (i : ℕ) (q : Process) (x : ℤ) (p : Pc)
    → p ≢ taking i
    → p ≢ running i
    → Fits x ps p
    → Fits x (set ps i q) p
Fits-other ps i q x (taking j) a b h = Holds-other ps i j q minus_one (λ e. a (ap taking (sym e))) h
Fits-other ps i q x (running j) a b h = Holds-other ps i j q x (λ e. b (ap running (sym e))) h
Fits-other ps i q x _ a b h = tt

Fits-count :
    (ps : List Process) (i : ℕ) (p q : Process) (x : ℤ) (c : Pc)
    → get_elem? ps i ≡ some p
    → q.pid ≡ p.pid
    → Fits x ps c
    → Fits x (set ps i q) c
Fits-count ps i p q x (taking j) e same h = Holds-count ps i j p q minus_one e same h
Fits-count ps i p q x (running j) e same h = Holds-count ps i j p q x e same h
Fits-count ps i p q x _ e same h = tt

module _ (pid : ℕ → ℤ) (real : (w : ℕ) → pid w ≢ minus_one)
    (apart : (v w : ℕ) → pid v ≡ pid w → v ≡ w) where
  AllFit : System → Type 0
  AllFit s = (w : ℕ) → Fits (pid w) s.processes (s.pc w)

  Move-own :
      (w : ℕ) {ps qs : List Process} {p q : Pc}
      → Move (pid w) ps p qs q
      → Fits (pid w) ps p
      → Fits (pid w) qs q
  Move-own w (in_use e ne) h = tt
  Move-own w (unused {p = p} e f) h = (p, e, f)
  Move-own w (full le) h = tt
  Move-own w {ps} (take {i = i}) (p, e, f) =
      Holds-set ps i p (record { pid = pid w; found = 0; tested = 0 }) e
  Move-own w {ps} (note_found {i = i} {p = p} e) h =
      Holds-count ps i i p (record p { found = suc p.found }) (pid w) e refl h
  Move-own w {ps} (note_tested {i = i} {p = p} e) h =
      Holds-count ps i i p (record p { tested = suc p.tested }) (pid w) e refl h
  Move-own w (leave e) h = tt

  Move-others :
      (v w : ℕ) (c : Pc) {ps qs : List Process} {p q : Pc}
      → Move (pid w) ps p qs q
      → v ≢ w
      → ((i : ℕ) → c ≡ taking i → p ≡ taking i → v ≡ w)
      → Fits (pid w) ps p
      → Fits (pid v) ps c
      → Fits (pid v) qs c
  Move-others v w c (in_use e f) ne calm own h = h
  Move-others v w c (unused e f) ne calm own h = h
  Move-others v w c (full le) ne calm own h = h
  Move-others v w c {ps} (take {i = i}) ne calm own h =
      Fits-other ps i (record { pid = pid w; found = 0; tested = 0 }) (pid v) c
        (λ a. ne (calm i a refl))
        (λ r. real v (Holds-one ps i (pid v) minus_one (subst (Fits (pid v) ps) r h) own)) h
  Move-others v w c {ps} (note_found {i = i} {p = p} e) ne calm own h =
      Fits-count ps i p (record p { found = suc p.found }) (pid v) c e refl h
  Move-others v w c {ps} (note_tested {i = i} {p = p} e) ne calm own h =
      Fits-count ps i p (record p { tested = suc p.tested }) (pid v) c e refl h
  Move-others v w c {ps} (leave {i = i} {p = p} e) ne calm own h =
      Fits-other ps i (record p { pid = minus_one }) (pid v) c
        (λ a. real w (Holds-one ps i (pid w) minus_one own (subst (Fits (pid v) ps) a h)))
        (λ r. ne (apart v w (Holds-one ps i (pid v) (pid w) (subst (Fits (pid v) ps) r h) own))) h

  Step-Fit : {s t : System} → Step pid s t → Calm s → AllFit s → AllFit t
  unfolding AllFit
  Step-Fit {s} (pick w {ps = qs} {p = q} mv) calm f = λ v. elim (ℕ_discrete w v) [
    | yes same ↦
        subst (λ u. Fits (pid u) qs (update s.pc w q u)) same
          (subst (Fits (pid w) qs) (ground arith) (Move-own w mv (f w)))
    | no differs ↦
        subst (Fits (pid v) qs) (ground arith)
          (Move-others v w (s.pc v) mv (λ e. differs (sym e)) (λ i a b. calm v w i a b) (f w) (f v))
  ]

  Reach-Calm : {first : List Process} {s : System} → Reach pid first s → Calm s
  Reach-Calm start = λ v w i a b. cc
  Reach-Calm (later r st calm) = calm

  Reach-Fit : {first : List Process} {s : System} → Reach pid first s → AllFit s
  unfolding AllFit
  Reach-Fit start = λ w. tt
  Reach-Fit (later r st calm) = Step-Fit st (Reach-Calm r) (Reach-Fit r)

-- Whether a process id is in the list.
abbrev pub listed : ℤ → List ℤ → Bool
listed x [] = false
listed x (y ∷ ys) = (y ==ℤ x) || listed x ys

Holds-killed :
    (kills : ℤ → Bool) (ps : List Process) (i : ℕ) (x : ℤ)
    → x ≢ minus_one
    → Holds ps i x
    → listed x (kill_processes kills ps).0 ≡ true
unfolding kill_processes
Holds-killed kills [] i x ne (p, e, f) = cc
Holds-killed kills (y ∷ ys) zero x ne (p, e, f) =
    let same : y ≡ p = cc in ground (arith, ==ℤ_iff y.pid minus_one, ==ℤ_iff y.pid x)
Holds-killed kills (y ∷ ys) (suc i) x ne (p, e, f) =
    ground (arith, Holds-killed kills ys i x ne (p, e, f))

-- Until shmem_cleanup runs, and as long as no two workers have seen the same unused slot: each worker
-- that runs has its process id in its slot, shmem_cleanup would send it SIGQUIT, and no other worker
-- that runs has the same slot. The workers' process ids differ, and none is -1.
pub slots_apart :
    {first : List Process} {s : System} (pid : ℕ → ℤ) (kills : ℤ → Bool) (v i : ℕ)
    → ((u : ℕ) → pid u ≢ minus_one)
    → ((t u : ℕ) → pid t ≡ pid u → t ≡ u)
    → Reach pid first s
    → s.pc v ≡ running i
    → Holds s.processes i (pid v)
      × (listed (pid v) (kill_processes kills s.processes).0 ≡ true)
      × ((w : ℕ) → s.pc w ≡ running i → w ≡ v)
unfolding AllFit
slots_apart {s = s} pid kills v i real apart r at_v =
    let own = subst (Fits (pid v) s.processes) at_v (Reach-Fit pid real apart r v) in
    (
      own,
      Holds-killed kills s.processes i (pid v) (real v) own,
      λ w at_w.
          let others = subst (Fits (pid w) s.processes) at_w (Reach-Fit pid real apart r w) in
          apart w v (Holds-one s.processes i (pid w) (pid v) others own),
    )
