-- ===== src/Manage/Sock/Results.antt =====
-- What the registered client learns: the numbers found, the end of the computation, and whether a
-- worker has stopped early.
use perfnum.Prelude.{
  ◌≡◌, ◌≢◌, refl, sym, ◌∙◌, ℤ, minus_one, ◌==ℤ◌, ==ℤ_refl, is_neg, Bool, true, false, ◌&&◌, ◌||◌,
  some, some_inj, subst, List, [], ◌∷◌, ◌++◌, append-nil, append_assoc, take-set_end, if◌then◌else◌,
  arith,
}
use perfnum.Packet.{PacketId, done, closed, perf_num, notify, Packet, Sent, send_packet}
use perfnum.Manage.Sock.{
  SockRes, Reply, on_perfnum, on_done, on_closed, on_notify, send_found, send_history, last_found,
  dispatch, found, after_missed, sock_handle_packet,
}
use perfnum.Manage.Sock.Accept.{accept_client, disconnect}
use perfnum.Manage.Sock.Cases.{handle_cases}
use perfnum.Manage.Sock.Trace.{Step, handled, accepted, left}

abbrev pub is_perf_num : PacketId → Bool
is_perf_num perf_num = true
is_perf_num _ = false

abbrev pub is_done : PacketId → Bool
is_done done = true
is_done _ = false

abbrev pub is_closed : PacketId → Bool
is_closed closed = true
is_closed _ = false

-- The perfect numbers among the packets sent to `fd`, in order.
abbrev pub numbers_to : ℤ → List Sent → List ℤ
numbers_to fd [] = []
numbers_to fd (s ∷ ss) =
    (if s.fd ==ℤ fd && is_perf_num s.packet.id then s.packet.first ∷ [] else []) ++ numbers_to fd ss

-- Whether a packet of some kind was sent to `fd`.
abbrev pub told : (PacketId → Bool) → ℤ → List Sent → Bool
told kind fd [] = false
told kind fd (s ∷ ss) = (s.fd ==ℤ fd && kind s.packet.id) || told kind fd ss

numbers_to-append :
    (fd : ℤ) (s t : List Sent) → numbers_to fd (s ++ t) ≡ numbers_to fd s ++ numbers_to fd t
numbers_to-append fd [] t = refl
numbers_to-append fd (x ∷ s) t =
    rw (numbers_to-append fd s t) (sym (append_assoc _ (numbers_to fd s) (numbers_to fd t)))

told-append :
    (kind : PacketId → Bool) (fd : ℤ) (s t : List Sent)
    → told kind fd (s ++ t) ≡ (told kind fd s || told kind fd t)
told-append kind fd [] t = refl
told-append kind fd (x ∷ s) t = ground (arith, told-append kind fd s t)

numbers_to-send_found :
    (fd : ℤ) (ns : List ℤ) (o : Packet) → o.id ≡ perf_num → numbers_to fd (send_found fd ns o) ≡ ns
unfolding send_found
numbers_to-send_found fd [] o e = refl
numbers_to-send_found fd (n ∷ ns) o e =
    ground (arith, ==ℤ_refl fd, numbers_to-send_found fd ns (record o { first = n }))

-- What has been sent to `fd` tells it all that the state holds.
pub record IsInformed (fd : ℤ) (t : SockRes) (s : List Sent) : Type 0 where
  pub numbers : numbers_to fd s ≡ found t
  pub finished : t.done ≡ true → told is_done fd s ≡ true
  pub missed : t.missed_some ≡ true → told is_closed fd s ≡ true

-- The events from the registration of `fd` on, while it stays registered, and what was sent.
pub data Session (fd : ℤ) : SockRes → List Sent → Type 0 where
  registered :
      (t : SockRes) (p o : Packet) (r : Reply)
      → t.notify ≡ minus_one
      → p.id ≡ notify
      → sock_handle_packet fd t p o ≡ some r
      → Session fd r.res r.sent
  goes_on :
      {t u : SockRes} {s s' : List Sent}
      → Session fd t s
      → Step t u s'
      → t.notify ≡ fd
      → u.notify ≡ fd
      → Session fd u (s ++ s')

-- One event with the same client registered before and after.
abbrev Adds : ℤ → SockRes → SockRes → List Sent → Type 0
Adds fd t u s =
    (u.notify ≡ fd)
    → (found u ≡ found t ++ numbers_to fd s)
      × (u.done ≡ true → t.done ≢ true → told is_done fd s ≡ true)
      × (u.missed_some ≡ true → t.missed_some ≢ true → told is_closed fd s ≡ true)

module _ (fd : ℤ) (t : SockRes) (real : is_neg fd ≡ false) (here : t.notify ≡ fd) where
  on_perfnum-Adds :
      (p : Packet) (r : Reply) → p.id ≡ perf_num → on_perfnum t p ≡ some r → Adds fd t r.res r.sent
  unfolding on_perfnum
  on_perfnum-Adds p r i e w =
      ground (arith, ==ℤ_refl fd, take-set_end t.perfnums t.nperfnums p.first)

  on_done-Adds : (x : ℤ) (o : Packet) → Adds fd t (on_done x t o).res (on_done x t o).sent
  unfolding on_done
  on_done-Adds x o w = ground (arith, ==ℤ_refl fd, append-nil (found t))

  on_closed-Adds : (p : Packet) → p.id ≡ closed → Adds fd t (on_closed t p).res (on_closed t p).sent
  unfolding on_closed
  on_closed-Adds p i w = ground (arith, ==ℤ_refl fd, append-nil (found t))

  on_notify-Adds : (x : ℤ) (o : Packet) → Adds fd t (on_notify x t o).res (on_notify x t o).sent
  unfolding on_notify
  on_notify-Adds x o w = ground (arith, ==ℤ_refl fd, append-nil (found t))

  Step-Adds : {u : SockRes} {s : List Sent} → Step t u s → Adds fd t u s
  unfolding accept_client disconnect
  Step-Adds (handled i x p o r c e) w =
      handle_cases (λ q. Adds fd t q.res q.sent) x t p o r e (on_perfnum-Adds p) (on_done-Adds x o)
        (on_closed-Adds p) (λ w. ground (arith, append-nil (found t))) (on_notify-Adds x o)
        (λ w. ground (arith, append-nil (found t))) w
  Step-Adds (accepted x a fresh e) w = ground (arith, append-nil (found t))
  Step-Adds (left i x c) w = ground (arith, append-nil (found t))

send_history-informs :
    (fd : ℤ) (t : SockRes) (o : Packet)
    → (numbers_to fd (send_history fd t o) ≡ found t)
      × (t.done ≡ true → told is_done fd (send_history fd t o) ≡ true)
unfolding send_history
send_history-informs fd t o = ground (
  arith,
  ==ℤ_refl fd,
  append-nil (found t),
  numbers_to-append fd (numbers t o) (ending t o),
  numbers_to-send_found fd (found t) (record o { id = perf_num }),
  told-append is_done fd (numbers t o) (ending t o),
)
  where
    numbers : SockRes → Packet → List Sent
    numbers t o = send_found fd (found t) (record o { id = perf_num })

    ending : SockRes → Packet → List Sent
    ending t o =
        if t.done then send_packet fd (record (last_found (found t) o) { id = done }) else []

pub dispatch_notify :
    (i : PacketId) (fd : ℤ) (t : SockRes) (p o : Packet) (r : Reply)
    → i ≡ notify
    → dispatch i fd t p o ≡ some r
    → r ≡ on_notify fd t o
unfolding dispatch
dispatch_notify notify fd t p o r i h = sym (some_inj h)
dispatch_notify _ fd t p o r i h = cc

on_notify-IsInformed :
    (fd : ℤ) (t : SockRes) (o : Packet)
    → t.notify ≡ minus_one
    → IsInformed fd (on_notify fd t o).res (on_notify fd t o).sent
unfolding on_notify
on_notify-IsInformed fd t o e = record {
  numbers = ground (arith, ==ℤ_refl fd, send_history-informs fd t (after_missed t o));
  finished = ground (arith, ==ℤ_refl fd, send_history-informs fd t (after_missed t o));
  missed = ground (arith, ==ℤ_refl fd);
}

registered-IsInformed :
    (fd : ℤ) (t : SockRes) (p o : Packet) (r : Reply)
    → t.notify ≡ minus_one
    → p.id ≡ notify
    → sock_handle_packet fd t p o ≡ some r
    → IsInformed fd r.res r.sent
unfolding sock_handle_packet
registered-IsInformed fd t p o r e i h =
    subst (λ q. IsInformed fd q.res q.sent) (sym (dispatch_notify p.id fd t p o r i h))
      (on_notify-IsInformed fd t o e)

-- The client that is registered for notification knows all that the server knows, whenever it
-- registered: it has been sent exactly the numbers found so far, in the order in which they were
-- found, the end of the computation if a worker has been refused because all is assigned, and a
-- closed packet if a worker has stopped early.
pub Session-IsInformed :
    {fd : ℤ} {t : SockRes} {s : List Sent} → is_neg fd ≡ false → Session fd t s → IsInformed fd t s
Session-IsInformed {fd} real (registered t p o r e i h) = registered-IsInformed fd t p o r e i h
Session-IsInformed {fd} real (goes_on {t = t} {u = u} {s = s} {s' = s'} before st e w) =
    let v = Session-IsInformed real before in
    let (n, f, m) = Step-Adds fd t real e st w in
    record {
      numbers = numbers_to-append fd s s' ∙ rw v.numbers (sym n);
      finished = λ now. ground (arith, told-append is_done fd s s', v.finished, f);
      missed = λ now. ground (arith, told-append is_closed fd s s', v.missed, m);
    }
