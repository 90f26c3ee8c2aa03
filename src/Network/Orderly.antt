-- ===== src/Network/Orderly.antt =====
-- The workers of the network, whatever has happened.
pub mod Steps
use native.Mathlib.Decide.{ℕ_discrete}
use perfnum.Prelude.{
  ℕ, zero, suc, ◌+◌, ◌≤◌, ◌<◌, ◌≡◌, ◌≢◌, ◌⊎◌, inl, inr, refl, sym, ◌∙◌, ap, ℤ, pos, negsuc,
  minus_one, is_neg, ◌==ℤ◌, ==ℤ_iff, Bool, true, false, none, some, some_inj, List, [], ◌∷◌, ◌++◌,
  get_elem?, get_elem?-set_ne, get_elem?-set_self, get_elem?-lt, set, if◌then◌else◌, Bool-cases,
  Option-cases, subst, arith,
}
use perfnum.Packet.{PacketId, notify, range, refuse, Packet, Sent}
use perfnum.Manage.Sock.{SockRes, Reply, sock_handle_packet}
use perfnum.Manage.Sock.Accept.{Accepted, place_client, accept_client, disconnect}
use perfnum.Manage.Sock.Clients.{handle-Keeps}
use perfnum.Manage.Sock.Loop.{sock_init}
use perfnum.Manage.Sock.Bounds.{Step-limit}
use perfnum.Manage.Sock.Trace.{IsClient, handled}
use perfnum.Network.{
  Phase, asking, registering, Conn, Move, push, deliver, remove, Net, new_conn, Step, serve, move,
  arrive, turned_away, leave, Run, start, later, fresh,
}
use perfnum.Network.Count.{sum_of, has_fd, sum_of-set}
use perfnum.Network.Balance.{Distinct}
use perfnum.Network.All.{All, All-set, All-get, All-append, All-remove, All-mono}
use perfnum.Network.Seats.{Seated, Run-Seated, accept-IsClient}
use perfnum.Network.Plain.{is_worker, is_answer, all_answers, Plain, Move-Plain}
use perfnum.Network.Plain.Steps.{
  Apart, Reaches, dispatch-Fit, dispatch-registers, deliver-Plain, one_asks,
}

-- Who is registered is a client.
abbrev pub Known : SockRes → Type 0
Known t = (t.notify ≡ minus_one) ⊎ ((slot : ℕ) × IsClient t slot t.notify)

-- What holds of the network in every state, where b bounds the numbers that are given out.
pub record Orderly (b : ℕ) (n : Net) : Type 0 where
  pub plain : All (Plain b n.server.done n.server.notify) n.conns
  pub known : Known n.server
  pub reaches : Reaches b n.server.limit

is_answer-over :
    (b : ℕ) (over over' : Bool) (i : PacketId) (p : Packet)
    → (over ≡ true → over' ≡ true)
    → is_answer b over i p ≡ true
    → is_answer b over' i p ≡ true
is_answer-over b over over' refuse p f h = f h
is_answer-over b over over' range p f h = h
is_answer-over b over over' _ p f h = cc

all_answers-over :
    (b : ℕ) (over over' : Bool) (ps : List Packet)
    → (over ≡ true → over' ≡ true)
    → all_answers b over ps ≡ true
    → all_answers b over' ps ≡ true
all_answers-over b over over' [] f h = refl
all_answers-over b over over' (p ∷ ps) f h =
    ground (arith, is_answer-over b over over' p.id p f, all_answers-over b over over' ps f)

renew-Plain :
    (b : ℕ) (over over' : Bool) (registered registered' : ℤ) (c : Conn)
    → (over ≡ true → over' ≡ true)
    → (registered' ≡ registered) ⊎ Apart registered' c
    → Plain b over registered c
    → Plain b over' registered' c
renew-Plain b over over' registered registered' c f (inl same) p =
    λ w. ground (arith, p w, all_answers-over b over over' c.to_client f)
renew-Plain b over over' registered registered' c f (inr apart) p =
    λ w. ground (arith, p w, apart w, all_answers-over b over over' c.to_client f)

-- `done` may be set, and another client be registered that is no worker.
pub renew :
    (b : ℕ) (over over' : Bool) (registered registered' : ℤ) (cs : List Conn)
    → (over ≡ true → over' ≡ true)
    → (registered' ≡ registered) ⊎ All (Apart registered') cs
    → All (Plain b over registered) cs
    → All (Plain b over' registered') cs
renew b over over' registered registered' [] f a h = tt
renew b over over' registered registered' (c ∷ cs) f (inl same) h = (
  renew-Plain b over over' registered registered' c f (inl same) h.0,
  renew b over over' registered registered' cs f (inl same) h.1,
)
renew b over over' registered registered' (c ∷ cs) f (inr a) h = (
  renew-Plain b over over' registered registered' c f (inr a.0) h.0,
  renew b over over' registered registered' cs f (inr a.1) h.1,
)

no_notify-worker :
    (b : ℕ) (over : Bool) (registered : ℤ) (c : Conn) (p : Packet) (ps : List Packet)
    → Plain b over registered c
    → c.to_server ≡ p ∷ ps
    → p.id ≡ notify
    → is_worker c.phase ≡ false
no_notify-worker b over registered c p ps h e i = elim (Bool-cases (is_worker c.phase)) [
  | inl works ↦ ground (arith, h works)
  | inr other ↦ other
]

tail-Plain :
    (b : ℕ) (over : Bool) (registered : ℤ) (c : Conn) (p : Packet) (ps : List Packet)
    → Plain b over registered c
    → c.to_server ≡ p ∷ ps
    → Plain b over registered (record c { to_server = ps })
tail-Plain b over registered c p ps h e = λ w. ground (arith, h w)

pub serve-Orderly :
    (b : ℕ) (m : Net) (j : ℕ) {c : Conn} {p : Packet} {ps : List Packet} (o : Packet) {r : Reply}
    → Distinct m
    → get_elem? m.conns j ≡ some c
    → c.to_server ≡ p ∷ ps
    → IsClient m.server c.slot c.fd
    → sock_handle_packet c.fd m.server p o ≡ some r
    → Orderly b m
    → Orderly b (record m {
      server = r.res;
      conns = deliver r.sent (set m.conns j (record c { to_server = ps }));
    })
unfolding sock_handle_packet
serve-Orderly b m j {c} {p} {ps} o {r} d e q cl h v =
    let c' : Conn = record c { to_server = ps } in
    let own = All-get (Plain b m.server.done m.server.notify) m.conns j c v.plain e in
    let popped =
      All-set (Plain b m.server.done m.server.notify) m.conns j c' v.plain
        (tail-Plain b m.server.done m.server.notify c p ps own q) in
    let (over, who) = dispatch-registers p.id c.fd m.server p o r h in
    let one_here : sum_of (has_fd c.fd) (set m.conns j c') ≤ 1 =
      omega (arith, d c.fd, sum_of-set (has_fd c.fd) m.conns j c c' e) in
    let asks : p.id ≡ notify → All (Apart c.fd) (set m.conns j c') = λ n.
      one_asks c.fd (set m.conns j c') j c' one_here
        (get_elem?-set_self m.conns j c' (get_elem?-lt m.conns j e)) refl
        (no_notify-worker b m.server.done m.server.notify c p ps own q n) in
    record {
      plain =
          deliver-Plain b r.res.done r.res.notify p.id c.fd r.sent (set m.conns j c')
            (dispatch-Fit b p.id c.fd m.server p o r v.reaches h) asks
            (renew b m.server.done r.res.done m.server.notify r.res.notify (set m.conns j c') over
              (registered (set m.conns j c') who asks) popped);
      known = known_still who;
      reaches = subst (Reaches b) (sym (Step-limit (handled c.slot c.fd p o r cl h))) v.reaches;
    }
  where
    registered :
        (cs : List Conn)
        → (r.res.notify ≡ m.server.notify) ⊎ ((p.id ≡ notify) × (r.res.notify ≡ c.fd))
        → (p.id ≡ notify → All (Apart c.fd) cs)
        → (r.res.notify ≡ m.server.notify) ⊎ All (Apart r.res.notify) cs
    registered cs (inl same) asks = inl same
    registered cs (inr (n, e)) asks = inr (subst (λ fd. All (Apart fd) cs) (sym e) (asks n))

    keeps : (slot : ℕ) (fd : ℤ) → IsClient m.server slot fd → IsClient r.res slot fd
    keeps slot fd x =
        (ap (λ cells. get_elem? cells slot) (handle-Keeps c.fd m.server p o r h).0 ∙ x.0, x.1)

    known_still :
        (r.res.notify ≡ m.server.notify) ⊎ ((p.id ≡ notify) × (r.res.notify ≡ c.fd)) → Known r.res
    known_still (inl same) = elim v.known [
      | inl nobody ↦ inl (same ∙ nobody)
      | inr (slot, x) ↦
          inr (slot, subst (IsClient r.res slot) (sym same) (keeps slot m.server.notify x))
    ]
    known_still (inr (n, e)) =
        inr (c.slot, subst (IsClient r.res c.slot) (sym e) (keeps c.slot c.fd cl))
