-- ===== src/Manage/Sock/Events.antt =====
-- What the select() loop of the socket server may do in given rounds: the events of `Trace`, each with
-- the read() or accept() that it comes from.
use perfnum.Prelude.{
  ℕ, ◌≡◌, ◌≢◌, sym, ap, subst, ◌∙◌, ℤ, pos, some, List, [], ◌++◌, append-nil, append_assoc,
  get_elem?,
}
use perfnum.Packet.{Packet, Sent, packet_size, get_packet}
use perfnum.Manage.Sock.{SockRes, Reply, sock_handle_packet}
use perfnum.Manage.Sock.Accept.{Accepted, accept_client, disconnect}
use perfnum.Manage.Sock.Loop.{Server, Round}
use perfnum.Manage.Sock.Trace.{IsClient, Step, handled, accepted, left, Trace, start, later}

-- In a round that `A` allows: a client's whole packet is handled, a client whose stream has ended is
-- dropped, or the descriptor that accept() returns is taken on.
pub data Event (A : Round → Type 0) (res : SockRes) : SockRes → List Sent → Type 0 where
  heard :
      (r : Round) (i : ℕ) (fd : ℤ) (p : Packet) (q : Reply)
      → A r
      → IsClient res i fd
      → get_packet (r.reads i) ≡ (pos packet_size, p)
      → sock_handle_packet fd res p r.outbound ≡ some q
      → Event A res q.res q.sent
  joined :
      (r : Round) (a : Accepted)
      → A r
      → ((i : ℕ) → get_elem? res.clients i ≢ some r.accept)
      → accept_client res r.accept ≡ some a
      → Event A res a.res []
  gone :
      (r : Round) (i : ℕ) (fd : ℤ)
      → A r
      → IsClient res i fd
      → (get_packet (r.reads i)).0 ≡ pos 0
      → Event A res (disconnect res i fd) []

pub data Events (A : Round → Type 0) (res : SockRes) : SockRes → List Sent → Type 0 where
  none_yet : Events A res res []
  then_one :
      {t u : SockRes} {s s' : List Sent}
      → Events A res t s
      → Event A t u s'
      → Events A res u (s ++ s')

Event-Step : {A : Round → Type 0} {t u : SockRes} {s : List Sent} → Event A t u s → Step t u s
Event-Step (heard r i fd p q a c e h) = handled i fd p r.outbound q c h
Event-Step (joined r x a fresh placed) = accepted r.accept x fresh placed
Event-Step (gone r i fd a c e) = left i fd c

pub Events-Trace :
    {A : Round → Type 0} {t u : SockRes} {s : List Sent} → Events A t u s → Trace t u s
Events-Trace none_yet = start
Events-Trace (then_one r e) = later (Events-Trace r) (Event-Step e)

Events-trans :
    {A : Round → Type 0} {a b c : SockRes} {s s' : List Sent}
    → Events A a b s
    → Events A b c s'
    → Events A a c (s ++ s')
Events-trans {A} {a} {b} {s = s} r none_yet = subst (Events A a b) (sym (append-nil s)) r
Events-trans {A} {a} {c = c} {s = s} r (then_one {s = x} {s' = y} q e) =
    subst (Events A a c) (append_assoc s x y) (then_one (Events-trans r q) e)

-- What was sent since `s`, by events that lead from its state to that of `t`.
abbrev pub Extends : (Round → Type 0) → Server → Server → Type 0
Extends A s t = (x : List Sent) × (t.sent ≡ s.sent ++ x) × Events A s.res t.res x

module _ {A : Round → Type 0} where
  pub Extends-refl : (s t : Server) → t.sent ≡ s.sent → t.res ≡ s.res → Extends A s t
  Extends-refl s t e r =
      ([], e ∙ sym (append-nil s.sent), subst (λ q. Events A s.res q []) (sym r) none_yet)

  pub Event-Extends :
      (s t : Server) (u : SockRes) (x : List Sent)
      → t.sent ≡ s.sent ++ x
      → t.res ≡ u
      → Event A s.res u x
      → Extends A s t
  Event-Extends s t u x e r st =
      (x, e, subst (λ q. Events A s.res q x) (sym r) (then_one {s = []} none_yet st))

  pub Extends-trans : (s t u : Server) → Extends A s t → Extends A t u → Extends A s u
  Extends-trans s t u (x, e, r) (y, f, q) =
      (x ++ y, f ∙ ap (λ z. z ++ y) e ∙ append_assoc s.sent x y, Events-trans r q)
