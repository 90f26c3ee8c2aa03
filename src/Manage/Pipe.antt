-- ===== src/Manage/Pipe.antt =====
-- manage.c, pipe_report, pipe_cleanup and collect_computes: the server in pipe mode.
pub mod Relay
pub mod Collect
pub mod Tests
use perfnum.Prelude.{
  ℕ, zero, suc, ◌+◌, ℤ, pos, minus_one, ◌==ℤ◌, ltb_int, Bool, true, false, Option, none, some, List,
  [], ◌∷◌, ◌++◌, ◌==◌, ltb, length, set, take, if◌then◌else◌,
}
use perfnum.Packet.{
  PacketId, null, done, closed, kill, range, perf_num, notify, accept, refuse, unknown, Packet,
  Read, get_packet,
}

-- struct pipe_res; the first nprocs cells of compute_pids are in use.
pub record PipeRes : Type 0 where
  pub compute_pids : List ℤ
  pub perfnums : List ℤ
  pub nperfnums : ℕ
  pub nprocs : ℕ

-- What send_packet does on the report's fifo: the packet is written, the reader is gone (EPIPE), or
-- there is another error.
pub data Send : Type 0 where
  written gone failing : Send

-- What one round of the loop meets: a signal, what read() returns, whether waitpid() succeeds, and
-- what a send does.
pub record Look : Type 0 where
  pub caught : Bool
  pub read : Read
  pub reaped : Bool
  pub send : Send

-- The variables of pipe_report, and the packets written to the report.
pub record PipeServer : Type 0 where
  pub res : PipeRes
  pub body_count : ℕ
  pub done : Bool
  pub sent : List Packet

-- res->perfnums[res->nperfnums++] = n; `none` is a write past the array.
unfoldable pub store_perfnum : PipeRes → ℤ → Option PipeRes
store_perfnum res n =
    if ltb res.nperfnums (length res.perfnums)
    then some
        (record res { perfnums = set res.perfnums res.nperfnums n; nperfnums = suc res.nperfnums })
    else none

-- send_packet(res->report_fifo, &packet), with its result ignored.
unfoldable pub relay : Send → Packet → PipeServer → PipeServer
relay written p s = record s { sent = s.sent ++ p ∷ [] }
relay _ p s = s

-- The branches on the result of that call for a perfect number.
unfoldable pub relay_perfnum : Send → Packet → PipeServer → PipeServer
relay_perfnum written p s = record s { sent = s.sent ++ p ∷ [] }
relay_perfnum gone p s = record s { done = true }
relay_perfnum failing p s = s

-- case PACKETID_PERFNUM
unfoldable pub on_perfnum : Look → Packet → PipeServer → Option PipeServer
unfolding store_perfnum relay_perfnum
on_perfnum l p s = elim (store_perfnum s.res p.first) [
  | none ↦ none
  | some res ↦ some (relay_perfnum l.send p (record s { res = res }))
]

-- The loop that marks a process as exited, over the first n ids.
unfoldable pub mark_exited : ℤ → ℕ → List ℤ → List ℤ
mark_exited pid zero pids = pids
mark_exited pid (suc n) [] = []
mark_exited pid (suc n) (p ∷ ps) = (if p ==ℤ pid then minus_one else p) ∷ mark_exited pid n ps

-- case PACKETID_DONE, for the pid in the packet
unfoldable pub on_done : Look → Packet → PipeServer → PipeServer
unfolding mark_exited
on_done l p s =
    if l.reaped
    then record s {
      res = record (s.res) { compute_pids = mark_exited p.first s.res.nprocs s.res.compute_pids };
      body_count = suc s.body_count;
      done = if suc s.body_count == s.res.nprocs then true else s.done;
    }
    else s

-- The switch on the packet's identifier. A closed packet is passed on, and falls through.
unfoldable pub dispatch : PacketId → Look → Packet → PipeServer → Option PipeServer
unfolding on_perfnum on_done relay
dispatch perf_num l p s = on_perfnum l p s
dispatch closed l p s = some (on_done l p (relay l.send p s))
dispatch done l p s = some (on_done l p s)
dispatch _ l p s = some s

-- The body of the loop behind the signal check: a packet is looked at if any of it was read.
unfoldable pub pipe_round : Look → ℤ × Packet → PipeServer → Option PipeServer
unfolding dispatch
pipe_round l (bytes_read, p) s = if ltb_int (pos 0) bytes_read then dispatch p.id l p s else some s

-- The loop `while (done == false)`. `true` says that the loop has ended, and `false` that the list
-- of rounds has.
unfoldable pub pipe_report : List Look → PipeServer → Option (PipeServer × Bool)
unfolding pipe_round
pipe_report [] s = some (s, s.done)
pipe_report (l ∷ ls) s =
    let body : Option (PipeServer × Bool) = elim (pipe_round l (get_packet l.read) s) [
      | none ↦ none
      | some t ↦ pipe_report ls t
    ] in
    if s.done then some (s, true) else if l.caught then some (s, true) else body

-- The loop over the first n ids in collect_computes and pipe_cleanup: the processes that are sent
-- SIGQUIT and waited for, and the ids afterwards.
unfoldable pub kill_rest : ℕ → List ℤ → List ℤ × List ℤ
kill_rest zero pids = ([], pids)
kill_rest (suc n) [] = ([], [])
kill_rest (suc n) (p ∷ ps) =
    let (killed, rest) = kill_rest n ps in
    if p ==ℤ minus_one then (killed, p ∷ rest) else (p ∷ killed, minus_one ∷ rest)

unfoldable pub collect_computes : PipeRes → List ℤ × PipeRes
unfolding kill_rest
collect_computes res =
    let (killed, pids) = kill_rest res.nprocs res.compute_pids in
    (killed, record res { compute_pids = pids })

-- pipe_cleanup: the last packet for the report, the processes killed, and the state. `pid` is
-- getpid() and `local` the uninitialised packet.
unfoldable pub pipe_cleanup : Bool → ℤ → Packet → PipeRes → Packet × List ℤ × PipeRes
unfolding collect_computes
pipe_cleanup caught pid local res =
    let (killed, after) = collect_computes res in
    (
      if caught
          then record local { id = closed; first = pid }
          else record local { id = done; first = pid },
      killed,
      after,
    )
