-- ===== src/Manage/Sock/Cases.antt =====
-- Case rules for the packet handler of the socket server.
use perfnum.Prelude.{ℤ, ◌≡◌, refl, subst, true, false, some, [], some_inj}
use perfnum.Packet.{PacketId, done, closed, kill, perf_num, notify, Packet}
use perfnum.Manage.Sock.{
  SockRes, Reply, dispatch, on_perfnum, on_done, on_closed, on_notify, sock_handle_packet,
}

-- Any packet that is not one of the five that the server acts on.
abbrev pub ignored : SockRes → Reply
ignored t = record { res = t; sent = []; stop = false }

abbrev pub killed : SockRes → Reply
killed t = record { res = t; sent = []; stop = true }

module _ {ℓ} (P : Reply → Type ℓ) (fd : ℤ) (t : SockRes) (p o : Packet) where
  record Cases : Type ℓ where
    on_perf : (r : Reply) → p.id ≡ perf_num → on_perfnum t p ≡ some r → P r
    on_free : P (on_done fd t o)
    on_close : p.id ≡ closed → P (on_closed t p)
    on_stop : P (killed t)
    on_register : P (on_notify fd t o)
    on_other : P (ignored t)

  dispatch_cases :
      (i : PacketId) (r : Reply) → p.id ≡ i → dispatch i fd t p o ≡ some r → Cases → P r
  unfolding dispatch
  dispatch_cases perf_num r i e c = c.on_perf r i e
  dispatch_cases done r i e c = subst P (some_inj e) c.on_free
  dispatch_cases closed r i e c = subst P (some_inj e) (c.on_close i)
  dispatch_cases kill r i e c = subst P (some_inj e) c.on_stop
  dispatch_cases notify r i e c = subst P (some_inj e) c.on_register
  dispatch_cases _ r i e c = subst P (some_inj e) c.on_other

  pub handle_cases :
      (r : Reply)
      → sock_handle_packet fd t p o ≡ some r
      → ((r : Reply) → p.id ≡ perf_num → on_perfnum t p ≡ some r → P r)
      → P (on_done fd t o)
      → (p.id ≡ closed → P (on_closed t p))
      → P (killed t)
      → P (on_notify fd t o)
      → P (ignored t)
      → P r
  unfolding sock_handle_packet
  handle_cases r e perf free close stop register other = dispatch_cases p.id r refl e (record {
    on_perf = perf;
    on_free = free;
    on_close = close;
    on_stop = stop;
    on_register = register;
    on_other = other;
  })
