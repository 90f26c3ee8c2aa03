-- ===== src/Report/Pid/Stale.antt =====
-- The pid that the report finds in the file that manage has left.
use perfnum.Prelude.{
  ℕ, zero, suc, ◌+◌, ◌-◌, ◌*◌, ◌≤◌, ◌<◌, ◌≡◌, ◌↔◌, refl, ◌∙◌, ap, ℤ, pos, Bool, true, false, some,
  List, [], ◌∷◌, ◌++◌, append_assoc, take, drop, length, get_elem?, Bool-cases, inl, inr, arith,
}
use perfnum.Decimal.{decimal, snprintf, is_digit, scan, atoi}
use perfnum.Decimal.Laws.{ten, take_all, atoi-decimal, snprintf-decimal, length-decimal}
use perfnum.Manage.Files
use perfnum.Manage.Files.{Files, Calls, unlink_files}
use perfnum.Report.Pid.{Memory, load_pid_file, pipe_kill}

-- 2 ^ 31 - 1
abbrev pub int_max : ℕ
int_max = 2147483647

le-scan : (n : ℕ) (s : List ℕ) → n ≤ scan n s
unfolding scan
le-scan n [] = omega arith
le-scan n (c ∷ s) = ground (arith, le-scan (n * 10 + (c - 48)) s)

drop-get_elem? :
    (xs : List ℕ) (i c : ℕ) → get_elem? xs i ≡ some c → (rest : List ℕ) × (drop i xs ≡ c ∷ rest)
drop-get_elem? [] i c e = cc
drop-get_elem? (x ∷ xs) zero c e = (xs, cc)
drop-get_elem? (x ∷ xs) (suc i) c e = drop-get_elem? xs i c e

-- What load_pid_file makes of a printed pid, with c the byte that pid_str held behind it.
load-scan :
    (m : Memory) (n c : ℕ)
    → n < ten 10
    → m.reads ≡ true
    → get_elem? m.pid_str (length (decimal (pos n))) ≡ some c
    → (rest : List ℕ) × (load_pid_file m (some (snprintf 11 (pos n))) ≡ pos (scan n (c ∷ rest)))
unfolding load_pid_file
load-scan m n c fits ok byte =
    let (rest, e) = drop-get_elem? m.pid_str (length (decimal (pos n))) c byte in
    let short : take 11 (decimal (pos n)) ≡ decimal (pos n) =
      take_all (decimal (pos n)) 11 (omega (arith, length-decimal n fits)) in
    (
      rest ++ m.behind,
      rw (ok, snprintf-decimal n fits, short, e)
          (ap atoi (append_assoc (decimal (pos n)) (c ∷ rest) m.behind)
            ∙ atoi-decimal n (c ∷ (rest ++ m.behind))),
    )

-- The whole id, where the byte behind it is not a digit.
pub load-other :
    (m : Memory) (n c : ℕ)
    → n < ten 10
    → m.reads ≡ true
    → get_elem? m.pid_str (length (decimal (pos n))) ≡ some c
    → is_digit c ≡ false
    → load_pid_file m (some (snprintf 11 (pos n))) ≡ pos n
unfolding scan
load-other m n c fits ok byte other =
    let (rest, e) = load-scan m n c fits ok byte in e ∙ ground arith

-- The report reads the process id that manage has written exactly if the byte that the uninitialised
-- buffer holds behind it is not a digit: nothing ends the text. An int holds the id, and also the
-- number that the report reads.
pub load_pid_file-snprintf :
    (m : Memory) (n c : ℕ)
    → 0 < n
    → n ≤ int_max
    → m.reads ≡ true
    → get_elem? m.pid_str (length (decimal (pos n))) ≡ some c
    → ((k : ℕ) → load_pid_file m (some (snprintf 11 (pos n))) ≡ pos k → k ≤ int_max)
    → (load_pid_file m (some (snprintf 11 (pos n))) ≡ pos n) ↔ (is_digit c ≡ false)
unfolding scan
load_pid_file-snprintf m n c some_pid fits ok byte holds =
    let (rest, e) = load-scan m n c (omega (arith, fits)) ok byte in
    elim (Bool-cases (is_digit c)) [
      | inl digit ↦
          let grown = le-scan (n * 10 + (c - 48)) rest in
          (λ same. absurd (ground arith), λ other. cc)
      | inr other ↦ (λ same. other, λ o. load-other m n c (omega (arith, fits)) ok byte o)
    ]

pipe_init-pid_file :
    (calls : Calls) (pid : ℤ) (files : Files)
    → calls.spawn ≡ true
    → calls.open_pid ≡ true
    → calls.write_pid ≡ true
    → (Files.pipe_init calls pid files).1.pid_file ≡ some (snprintf 11 pid)
unfolding Files.pipe_init
pipe_init-pid_file calls pid files s o w = ground arith

-- Once manage has written its pid file, `report p -k` sends SIGQUIT to its process id whether
-- pipe_init went on to succeed or failed at the fifo. It sends nothing when pipe_cleanup has removed
-- the file. An int holds the pid, and the byte that the report's buffer holds behind it is not a
-- digit.
pub pipe_kill-pipe_init :
    (calls : Calls) (files : Files) (m : Memory) (n c : ℕ) (kills : ℤ → Bool)
    → calls.spawn ≡ true
    → calls.open_pid ≡ true
    → calls.write_pid ≡ true
    → 0 < n
    → n ≤ int_max
    → m.reads ≡ true
    → get_elem? m.pid_str (length (decimal (pos n))) ≡ some c
    → is_digit c ≡ false
    → let left = (Files.pipe_init calls (pos n) files).1 in
      (pipe_kill m left.pid_file kills ≡ (kills (pos n), pos n ∷ []))
      × (pipe_kill m (unlink_files left).pid_file kills ≡ (false, []))
unfolding pipe_kill unlink_files
pipe_kill-pipe_init calls files m n c kills s o w some_pid fits ok byte other =
    let found = load-other m n c (omega (arith, fits)) ok byte other in
    (rw (pipe_init-pid_file calls (pos n) files s o w, found) refl, ground arith)
