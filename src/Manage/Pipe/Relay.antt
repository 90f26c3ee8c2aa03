-- ===== src/Manage/Pipe/Relay.antt =====
-- What the report is told in pipe mode.
use perfnum.Prelude.{
  ◌≡◌, ◌⊎◌, inl, inr, refl, sym, ap, ◌∙◌, if◌then◌else◌, subst, ℤ, pos, ltb_int, Bool, true, false,
  some, List, [], ◌∷◌, ◌++◌, append_assoc, append-nil, take, take-set_end, Bool-cases, Option-cases,
  arith,
}
use perfnum.Packet.{PacketId, done, closed, perf_num, Packet, get_packet}
use perfnum.Manage.Pipe.{
  PipeRes, written, Look, PipeServer, relay, on_perfnum, on_done, dispatch, pipe_round, pipe_report,
}

-- The numbers found.
abbrev pub found : PipeRes → List ℤ
found res = take res.nperfnums res.perfnums

-- The numbers among the packets written to the report, in order.
abbrev number_in : PacketId → Packet → List ℤ
number_in perf_num p = p.first ∷ []
number_in _ p = []

abbrev pub numbers : List Packet → List ℤ
numbers [] = []
numbers (p ∷ ps) = number_in p.id p ++ numbers ps

pub numbers-append : (ps qs : List Packet) → numbers (ps ++ qs) ≡ numbers ps ++ numbers qs
numbers-append [] qs = refl
numbers-append (p ∷ ps) qs =
    rw (numbers-append ps qs) (sym (append_assoc (number_in p.id p) (numbers ps) (numbers qs)))

-- Every send of the run succeeds.
abbrev pub AllWritten : List Look → Type 0
AllWritten [] = Unit
AllWritten (l ∷ ls) = (l.send ≡ written) × AllWritten ls

dispatch-numbers :
    (i : PacketId) (l : Look) (p : Packet) (s t : PipeServer)
    → p.id ≡ i
    → l.send ≡ written
    → dispatch i l p s ≡ some t
    → numbers s.sent ≡ found s.res
    → numbers t.sent ≡ found t.res
unfolding dispatch on_perfnum on_done relay
dispatch-numbers perf_num l p s t i w e h =
    ground
      (arith, numbers-append s.sent (p ∷ []), take-set_end s.res.perfnums s.res.nperfnums p.first)
dispatch-numbers closed l p s t i w e h =
    ground (arith, numbers-append s.sent (p ∷ []), append-nil (numbers s.sent))
dispatch-numbers done l p s t i w e h = ground arith
dispatch-numbers _ l p s t i w e h = ground arith

round-numbers :
    (l : Look) (s t : PipeServer)
    → l.send ≡ written
    → pipe_round l (get_packet l.read) s ≡ some t
    → numbers s.sent ≡ found s.res
    → numbers t.sent ≡ found t.res
unfolding pipe_round
round-numbers l s t w h e = elim (Bool-cases (ltb_int (pos 0) (get_packet l.read).0)) [
  | inl some_bytes ↦
      dispatch-numbers (get_packet l.read).1.id l (get_packet l.read).1 s t refl w (ground arith) e
  | inr nothing ↦ ground arith
]

pub report-cases :
    (l : Look) (ls : List Look) (s t : PipeServer) (over : Bool)
    → pipe_report (l ∷ ls) s ≡ some (t, over)
    → ((s ≡ t) × (over ≡ true) × ((s.done ≡ true) ⊎ (l.caught ≡ true)))
      ⊎ ((u : PipeServer) × (s.done ≡ false)
          × (l.caught ≡ false)
          × (pipe_round l (get_packet l.read) s ≡ some u)
          × (pipe_report ls u ≡ some (t, over)))
unfolding pipe_report
report-cases l ls s t over e = elim (Bool-cases s.done) [
  | inl ended ↦ inl (ground arith, ground arith, inl ended)
  | inr running ↦ elim (Bool-cases l.caught) [
    | inl signal ↦ inl (ground arith, ground arith, inr signal)
    | inr quiet ↦ elim (Option-cases (pipe_round l (get_packet l.read) s)) [
      | inl fault ↦ absurd (ground arith)
      | inr (u, went) ↦ inr (u, running, quiet, went, ground arith)
    ]
  ]
]

-- While the report reads its fifo, it is sent exactly the perfect numbers that the workers have
-- found, in the order in which they arrive, whatever else the workers send.
pub pipe_report-numbers :
    (ls : List Look) (s t : PipeServer) (over : Bool)
    → AllWritten ls
    → numbers s.sent ≡ found s.res
    → pipe_report ls s ≡ some (t, over)
    → numbers t.sent ≡ found t.res
unfolding pipe_report
pipe_report-numbers [] s t over w e h = ground arith
pipe_report-numbers (l ∷ ls) s t over w e h = elim (report-cases l ls s t over h) [
  | inl (same, ended, why) ↦ subst (λ q. numbers q.sent ≡ found q.res) same e
  | inr (u, running, quiet, went, rest) ↦
      pipe_report-numbers ls u t over w.1 (round-numbers l s u w.0 went e) rest
]

-- The number in what a round reads.
abbrev number_read : Look → List ℤ
number_read l =
    let (bytes_read, p) = get_packet l.read in
    if ltb_int (pos 0) bytes_read then number_in p.id p else []

abbrev pub numbers_read : List Look → List ℤ
numbers_read [] = []
numbers_read (l ∷ ls) = number_read l ++ numbers_read ls

-- Why the loop took none of these rounds.
abbrev pub Ended : PipeServer → List Look → Type 0
Ended t [] = Unit
Ended t (l ∷ ls) = (t.done ≡ true) ⊎ (l.caught ≡ true)

dispatch-found :
    (i : PacketId) (l : Look) (p : Packet) (s t : PipeServer)
    → dispatch i l p s ≡ some t
    → found t.res ≡ found s.res ++ number_in i p
unfolding dispatch on_perfnum on_done relay
dispatch-found perf_num l p s t e =
    ground (arith, take-set_end s.res.perfnums s.res.nperfnums p.first)
dispatch-found closed l p s t e = ground (arith, append-nil (found s.res))
dispatch-found done l p s t e = ground (arith, append-nil (found s.res))
dispatch-found _ l p s t e = ground (arith, append-nil (found s.res))

round-found :
    (l : Look) (s t : PipeServer)
    → pipe_round l (get_packet l.read) s ≡ some t
    → found t.res ≡ found s.res ++ number_read l
unfolding pipe_round
round-found l s t e = elim (Bool-cases (ltb_int (pos 0) (get_packet l.read).0)) [
  | inl some_bytes ↦
      rw some_bytes
        (dispatch-found (get_packet l.read).1.id l (get_packet l.read).1 s t (ground arith))
  | inr nothing ↦ rw nothing (ground (arith, append-nil (found s.res)))
]

-- The loop collects the numbers of the rounds that it takes, and it takes all until it ends.
pub pipe_report-read :
    (ls : List Look) (s t : PipeServer) (over : Bool)
    → pipe_report ls s ≡ some (t, over)
    → (used : List Look) × (rest : List Look) × (ls ≡ used ++ rest)
      × Ended t rest
      × (found t.res ≡ found s.res ++ numbers_read used)
unfolding pipe_report
pipe_report-read [] s t over h = ([], [], refl, tt, ground (arith, append-nil (found s.res)))
pipe_report-read (l ∷ ls) s t over h = elim (report-cases l ls s t over h) [
  | inl (same, ended, why) ↦
      subst
        (λ (q : PipeServer).
          (used : List Look) × (rest : List Look) × (l ∷ ls ≡ used ++ rest)
          × Ended q rest
          × (found q.res ≡ found s.res ++ numbers_read used))
        same ([], l ∷ ls, refl, why, sym (append-nil (found s.res)))
  | inr (u, running, quiet, went, rest) ↦
      let (used, left, both, ended, read) = pipe_report-read ls u t over rest in
      (
        l ∷ used,
        left,
        ap (λ r. l ∷ r) both,
        ended,
        read
            ∙ ap (λ ns. ns ++ numbers_read used) (round-found l s u went)
            ∙ append_assoc (found s.res) (number_read l) (numbers_read used),
      )
]

-- No signal is caught.
abbrev pub Quiet : List Look → Type 0
Quiet [] = Unit
Quiet (l ∷ ls) = (l.caught ≡ false) × Quiet ls

-- The loop is over only when the workers are.
abbrev Counted : PipeServer → Type 0
Counted s = s.done ≡ true → s.body_count ≡ s.res.nprocs

dispatch-Counted :
    (i : PacketId) (l : Look) (p : Packet) (s t : PipeServer)
    → l.send ≡ written
    → s.done ≡ false
    → dispatch i l p s ≡ some t
    → Counted t
unfolding dispatch on_perfnum on_done relay
dispatch-Counted perf_num l p s t w r h = ground arith
dispatch-Counted closed l p s t w r h = ground arith
dispatch-Counted done l p s t w r h = ground arith
dispatch-Counted _ l p s t w r h = ground arith

round-Counted :
    (l : Look) (s t : PipeServer)
    → l.send ≡ written
    → s.done ≡ false
    → pipe_round l (get_packet l.read) s ≡ some t
    → Counted t
unfolding pipe_round
round-Counted l s t w r h = elim (Bool-cases (ltb_int (pos 0) (get_packet l.read).0)) [
  | inl some_bytes ↦
      dispatch-Counted (get_packet l.read).1.id l (get_packet l.read).1 s t w r (ground arith)
  | inr nothing ↦ ground arith
]

-- Without a signal, and while the report reads its fifo, the loop ends only when as many workers
-- have been collected as were started.
pipe_report-ends :
    (ls : List Look) (s t : PipeServer)
    → AllWritten ls
    → Quiet ls
    → Counted s
    → pipe_report ls s ≡ some (t, true)
    → t.body_count ≡ t.res.nprocs
unfolding pipe_report
pipe_report-ends [] s t w q c h = ground arith
pipe_report-ends (l ∷ ls) s t w q c h = elim (report-cases l ls s t true h) [
  | inl (same, ended, inl over) ↦ subst (λ x. x.body_count ≡ x.res.nprocs) same (c over)
  | inl (same, ended, inr signal) ↦ cc
  | inr (u, running, quiet, went, rest) ↦
      pipe_report-ends ls u t w.1 q.1 (round-Counted l s u w.0 running went) rest
]
