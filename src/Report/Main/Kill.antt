-- ===== src/Report/Main/Kill.antt =====
-- The way of a kill request to the server.
use perfnum.Prelude.{
  ℕ, ◌≡◌, ◌≢◌, ◌⊎◌, inl, inr, refl, ℤ, minus_one, ◌==ℤ◌, ==ℤ_iff, is_neg, true, false, Option, none,
  some, List, [], ◌∷◌, ◌++◌, Bool-cases, arith,
}
use perfnum.Packet.{notify, accept, refuse, kill, Packet, whole, get_packet, Sent, send_packet}
use perfnum.Manage.Sock.{SockRes, Reply, on_notify, dispatch, sock_handle_packet}
use perfnum.Manage.Sock.Loop.{Round, Server, serve_client, sock_report}
use perfnum.Manage.Sock.Shutdown.{serve_client_kill}
use perfnum.Report.{sock_init, sock_kill, answered}
use perfnum.Report.Main.{kill_branch}

-- The first packet sent to a client.
abbrev pub answer_to : List Sent → Option Packet
answer_to [] = none
answer_to (s ∷ ss) = some s.packet

-- With `done` set, the loop ends in the next round.
done_ends : (rs : List Round) (s : Server) → s.done ≡ true → sock_report rs s ≡ some (s, true)
unfolding sock_report
done_ends [] s e = ground arith
done_ends (r ∷ rs) s e = ground arith

-- `report s ... -k` registers for notification before it sends its kill packet. If no client is
-- registered, the server accepts it, and the kill packet follows; when that is read, the server's
-- state stays, and with the `done` that it leaves the loop ends, if no client is served behind it in
-- the round. If another report is registered, the server refuses, and no kill packet is sent.
pub kill_branch-notify :
    (res : SockRes) (fd : ℤ) (local outbound : Packet)
    → is_neg fd ≡ false
    → (r : Reply) × (q : Packet) × (sock_handle_packet fd res
          (record local { id = notify })
          outbound
        ≡ some r)
      × (answer_to r.sent ≡ some q)
      × (((res.notify ≡ minus_one)
            × (kill_branch fd local (whole q)
                ≡ send_packet fd (record local { id = notify })
                  ++ send_packet fd (record local { id = kill }))
            × ((v : Round) (i : ℕ) (s : Server) (rs : List Round)
                → v.reads i ≡ whole (record local { id = kill })
                → (u : Server) × (serve_client v i fd s ≡ some u)
                  × (u.res ≡ s.res)
                  × (sock_report rs u ≡ some (u, true))))
          ⊎ ((res.notify ≢ minus_one)
              × (r.res ≡ res)
              × (kill_branch fd local (whole q) ≡ send_packet fd (record local { id = notify }))))
unfolding sock_handle_packet dispatch on_notify kill_branch sock_init sock_kill get_packet answered
kill_branch-notify res fd local outbound real = elim (Bool-cases (res.notify ==ℤ minus_one)) [
  | inl unregistered ↦ (
    on_notify fd res outbound,
    record outbound { id = accept },
    refl,
    rw (unregistered, on_notify) refl,
    inl (
      (==ℤ_iff res.notify minus_one).0 unregistered,
      ground arith,
      λ v i s rs read. (
        _,
        serve_client_kill v i fd (record local { id = kill }) s read refl,
        refl,
        done_ends rs _ refl,
      ),
    ),
  )
  | inr registered ↦ (
    on_notify fd res outbound,
    record outbound { id = refuse },
    refl,
    rw (registered, on_notify) refl,
    inr (ground (arith, ==ℤ_iff res.notify minus_one), ground arith, ground arith),
  )
]
