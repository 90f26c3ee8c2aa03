-- ===== src/Report/Session.antt =====
-- The report in socket mode beside the server: what it prints of what is sent to it.
use perfnum.Prelude.{
  ◌≡◌, inl, inr, refl, sym, ◌∙◌, ap, subst, ℤ, minus_one, is_neg, ◌==ℤ◌, ==ℤ_refl, ==ℤ_iff, false,
  List, [], ◌∷◌, ◌++◌, append_assoc, if◌then◌else◌, Bool-cases, arith,
}
use perfnum.Packet.{
  PacketId, null, done, closed, range, perf_num, notify, accept, Packet, Sent, whole, get_packet,
  pid_server, pid_client, send_packet,
}
use perfnum.Manage.Sock.{
  SockRes, Reply, on_notify, send_history, after_missed, found, sock_handle_packet,
}
use perfnum.Manage.Sock.Results.{
  is_perf_num, numbers_to, Session, registered, goes_on, Session-IsInformed, dispatch_notify,
}
use perfnum.Report.{answered, sock_init, on_closed, sock_packet, sock_report}
use perfnum.Report.Listen.{is_last, up_to_last, lines_of, sock_report-lines}
use perfnum.Report.Chain.{reading, arrived-reading, number_on, printed}

-- The packets sent to `fd`, in order.
abbrev pub packets_to : ℤ → List Sent → List Packet
packets_to fd [] = []
packets_to fd (s ∷ ss) = (if s.fd ==ℤ fd then s.packet ∷ [] else []) ++ packets_to fd ss

-- The perfect numbers among packets.
abbrev pub numbers_in : List Packet → List ℤ
numbers_in [] = []
numbers_in (p ∷ ps) = (if is_perf_num p.id then p.first ∷ [] else []) ++ numbers_in ps

-- What is behind the first packet that says that the server stops.
abbrev pub behind_last : List Packet → List Packet
behind_last [] = []
behind_last (p ∷ ps) = if is_last pid_server p p.id then ps else behind_last ps

numbers_in-packets_to : (fd : ℤ) (ss : List Sent) → numbers_in (packets_to fd ss) ≡ numbers_to fd ss
numbers_in-packets_to fd [] = refl
numbers_in-packets_to fd (s ∷ ss) = ground (arith, numbers_in-packets_to fd ss)

packets_to-append :
    (fd : ℤ) (s t : List Sent) → packets_to fd (s ++ t) ≡ packets_to fd s ++ packets_to fd t
packets_to-append fd [] t = refl
packets_to-append fd (x ∷ s) t = ground (arith, packets_to-append fd s t)

line-numbers :
    (p : Packet) (i : PacketId) (ns ms : List ℤ)
    → ns ≡ ms
    → number_on (sock_packet i p).0 ++ ns ≡ (if is_perf_num i then p.first ∷ [] else []) ++ ms
unfolding sock_packet on_closed
line-numbers p perf_num ns ms e = ap (λ r. p.first ∷ r) e
line-numbers p closed ns ms e = ground arith
line-numbers p done ns ms e = e
line-numbers p null ns ms e = e
line-numbers p range ns ms e = e
line-numbers p notify ns ms e = e
line-numbers p _ ns ms e = e

-- The lines up to the last packet, and what is behind it.
lines-numbers :
    (ps : List Packet)
    → printed (lines_of sock_packet (up_to_last pid_server ps).0) ++ numbers_in (behind_last ps)
      ≡ numbers_in ps
lines-numbers [] = refl
lines-numbers (p ∷ ps) = elim (Bool-cases (is_last pid_server p p.id)) [
  | inl final ↦ rw final (
      append_assoc (number_on (sock_packet p.id p).0) [] (numbers_in ps)
      ∙ line-numbers p p.id (numbers_in ps) (numbers_in ps) refl)
  | inr passes ↦ rw passes (
      append_assoc (number_on (sock_packet p.id p).0)
        (printed (lines_of sock_packet (up_to_last pid_server ps).0)) (numbers_in (behind_last ps))
      ∙ line-numbers p p.id _ (numbers_in ps) (lines-numbers ps))
]

report-numbers :
    (ps : List Packet)
    → printed (sock_report (reading ps)).lines ++ numbers_in (behind_last ps) ≡ numbers_in ps
report-numbers ps = rw (sock_report-lines (reading ps), arrived-reading ps) (lines-numbers ps)

-- The first packet of a session is the acceptance.
Session-accept :
    {fd : ℤ} {t : SockRes} {s : List Sent}
    → Session fd t s
    → (first : Packet) × (rest : List Packet) × (packets_to fd s ≡ first ∷ rest)
      × (first.id ≡ accept)
unfolding on_notify sock_handle_packet
Session-accept {fd} (registered t p o r e i h) =
    subst
      (λ (q : Reply).
        (first : Packet) × (rest : List Packet) × (packets_to fd q.sent ≡ first ∷ rest)
        × (first.id ≡ accept))
      (sym (dispatch_notify p.id fd t p o r i h))
      (
        record o { id = accept },
        packets_to fd (
            (if t.missed_some
              then send_packet fd (record o { id = closed; first = pid_client })
              else [])
            ++ send_history fd t (after_missed t o)),
        ground (arith, ==ℤ_refl fd),
        refl,
      )
Session-accept {fd} (goes_on {s = s} {s' = s'} before st e w) =
    let (first, rest, there, i) = Session-accept before in
    (
      first,
      rest ++ packets_to fd s',
      packets_to-append fd s s' ∙ ap (λ ps. ps ++ packets_to fd s') there,
      i,
    )

-- A report that has registered is accepted, and if it then reads, without a signal, all that was sent
-- to it, the numbers that it prints, followed by those sent behind the first packet that makes it
-- stop, are the numbers that the server has found, in order.
pub Session-printed :
    {fd : ℤ} {t : SockRes} {s : List Sent} (local : Packet)
    → is_neg fd ≡ false
    → Session fd t s
    → (first : Packet) × (rest : List Packet) × (packets_to fd s ≡ first ∷ rest)
      × ((sock_init fd local (whole first)).result ≡ fd)
      × (printed (sock_report (reading rest)).lines ++ numbers_in (behind_last rest) ≡ found t)
unfolding sock_init answered get_packet
Session-printed {fd} {t} {s} local real session =
    let (first, rest, there, i) = Session-accept session in
    (
      first,
      rest,
      there,
      ground (arith, ==ℤ_iff fd minus_one),
      report-numbers rest
          ∙ ground (arith, ap numbers_in there, numbers_in-packets_to fd s)
          ∙ (Session-IsInformed real session).numbers,
    )
