-- ===== src/Network/Seats.antt =====
-- The server knows every connection, at its index.
use perfnum.Prelude.{
  ℕ, zero, suc, ◌+◌, ◌≡◌, ◌≢◌, inl, inr, refl, sym, ◌∙◌, ap, some_inj, ℤ, minus_one, is_neg,
  ==ℤ_iff, true, some, List, [], ◌∷◌, ◌++◌, map, get_elem?, get_elem?-set_ne, set, Bool-cases,
  Option-cases, arith,
}
use perfnum.Packet.{Sent}
use perfnum.Manage.Sock.{SockRes}
use perfnum.Manage.Sock.Accept.{Accepted, free_slot, place_client, accept_client, disconnect}
use perfnum.Manage.Sock.Clients.{handle-Keeps}
use perfnum.Manage.Sock.Trace.{IsClient}
use perfnum.Network.{
  Conn, Move, ask, take_range, push, deliver, remove, Net, new_conn, Step, serve, move, arrive,
  turned_away, leave, Run, start, later,
}
use perfnum.Network.Count.{sum_of, has_fd, sum_of-remove}
use perfnum.Network.Balance.{Distinct, Step-Distinct, one_connection}

abbrev pub Seated : SockRes → List Conn → Type 0
Seated res [] = Unit
Seated res (c ∷ cs) = IsClient res c.slot c.fd × Seated res cs

Seated-set :
    (res : SockRes) (cs : List Conn) (j : ℕ) (c c' : Conn)
    → Seated res cs
    → get_elem? cs j ≡ some c
    → c'.slot ≡ c.slot
    → c'.fd ≡ c.fd
    → Seated res (set cs j c')
Seated-set res [] j c c' h e s f = tt
Seated-set res (d ∷ cs) zero c c' h e s f = let same : d ≡ c = cc in (rw (s, f, ← same) h.0, h.1)
Seated-set res (d ∷ cs) (suc j) c c' h e s f = (h.0, Seated-set res cs j c c' h.1 e s f)

push-slot : (s : Sent) (c : Conn) → ((push s c).slot ≡ c.slot) × ((push s c).fd ≡ c.fd)
push-slot s c = ground arith

Seated-map :
    (res : SockRes) (s : Sent) (cs : List Conn) → Seated res cs → Seated res (map (push s) cs)
Seated-map res s [] h = tt
Seated-map res s (c ∷ cs) h =
    let (slot, fd) = push-slot s c in (rw (slot, fd) h.0, Seated-map res s cs h.1)

Seated-deliver :
    (res : SockRes) (ss : List Sent) (cs : List Conn) → Seated res cs → Seated res (deliver ss cs)
Seated-deliver res [] cs h = h
Seated-deliver res (s ∷ ss) cs h = Seated-deliver res ss (map (push s) cs) (Seated-map res s cs h)

Seated-mono :
    (t u : SockRes) (cs : List Conn)
    → ((i : ℕ) (fd : ℤ) → IsClient t i fd → IsClient u i fd)
    → Seated t cs
    → Seated u cs
Seated-mono t u [] f h = tt
Seated-mono t u (c ∷ cs) f h = (f c.slot c.fd h.0, Seated-mono t u cs f h.1)

Seated-append :
    (res : SockRes) (cs : List Conn) (c : Conn)
    → Seated res cs
    → IsClient res c.slot c.fd
    → Seated res (cs ++ c ∷ [])
Seated-append res [] c h p = (p, tt)
Seated-append res (d ∷ cs) c h p = (h.0, Seated-append res cs c h.1 p)

Seated-remove : (res : SockRes) (cs : List Conn) (j : ℕ) → Seated res cs → Seated res (remove cs j)
Seated-remove res [] j h = tt
Seated-remove res (d ∷ cs) zero h = h.1
Seated-remove res (d ∷ cs) (suc j) h = (h.0, Seated-remove res cs j h.1)

pub Seated-get :
    (res : SockRes) (cs : List Conn) (j : ℕ) (c : Conn)
    → Seated res cs
    → get_elem? cs j ≡ some c
    → IsClient res c.slot c.fd
Seated-get res [] j c h e = cc
Seated-get res (d ∷ cs) zero c h e = let same : d ≡ c = cc in rw (← same) h.0
Seated-get res (d ∷ cs) (suc j) c h e = Seated-get res cs j c h.1 e

free_slot-negative :
    (first : ℕ) (cells : List ℤ) (j : ℕ)
    → free_slot first cells ≡ some j
    → (k : ℕ) × (x : ℤ) × (j ≡ first + k) × (get_elem? cells k ≡ some x) × (is_neg x ≡ true)
unfolding free_slot
free_slot-negative first [] j e = cc
free_slot-negative first (c ∷ cs) j e = elim (Bool-cases (is_neg c)) [
  | inl free ↦ (0, c, ground arith, refl, free)
  | inr used ↦
      let (k, x, at_k, cell, free) = free_slot-negative (suc first) cs j (ground arith) in
      (suc k, x, omega arith, cell, free)
]

-- A new client takes an index that no other client has.
place-IsClient :
    (t : SockRes) (new : ℤ) (i : ℕ) (fd : ℤ)
    → IsClient t i fd
    → IsClient (place_client t new).res i fd
unfolding place_client
place-IsClient t new i fd c = elim (Option-cases (free_slot 0 t.clients)) [
  | inl full ↦ rw (full, place_client) c
  | inr (j, found) ↦
      let (k, x, at_k, cell, free) = free_slot-negative 0 t.clients j found in
      let same : j ≡ k = omega arith in
      rw (found, place_client)
        (
          get_elem?-set_ne t.clients j i new
                (λ e. cc (c.0, c.1, ap (get_elem? t.clients) (sym same ∙ e)))
              ∙ c.0,
          c.1,
        )
]

pub accept-IsClient :
    (t : SockRes) (new : ℤ) {a : Accepted} (i : ℕ) (fd : ℤ)
    → accept_client t new ≡ some a
    → IsClient t i fd
    → IsClient a.res i fd
unfolding accept_client
accept-IsClient t new i fd e c = ground (arith, place-IsClient t new i fd c)

-- Where nobody else has the descriptor of the client that leaves.
leave-Seated :
    (t : SockRes) (slot : ℕ) (fd : ℤ) (cs : List Conn)
    → IsClient t slot fd
    → sum_of (has_fd fd) cs ≡ 0
    → Seated t cs
    → Seated (disconnect t slot fd) cs
unfolding disconnect
leave-Seated t slot fd [] c none_other h = tt
leave-Seated t slot fd (d ∷ cs) c none_other h =
    let other : d.fd ≢ fd = λ e. absurd (ground (arith, ==ℤ_iff d.fd fd)) in
    let apart : slot ≢ d.slot =
      λ e. other (some_inj (sym h.0.0 ∙ ap (get_elem? t.clients) (sym e) ∙ c.0)) in
    (
      (get_elem?-set_ne t.clients slot d.slot minus_one apart ∙ h.0.0, h.0.1),
      leave-Seated t slot fd cs c (omega (arith, none_other)) h.1,
    )

Move-seat :
    {c c' : Conn} {lost : List (ℤ × ℤ)} → Move c c' lost → (c'.slot ≡ c.slot) × (c'.fd ≡ c.fd)
Move-seat (ask p e) = (refl, refl)
Move-seat (take_range w e i a b) = (refl, refl)
Move-seat mv = (refl, refl)

Step-Seated :
    {m n : Net} {s : List Sent}
    → Step m n s
    → Distinct m
    → Seated m.server m.conns
    → Seated n.server n.conns
Step-Seated {m} (serve j {c} {p} {ps} o {r = r} e q cl h) d v =
    let same = (handle-Keeps c.fd m.server p o r h).0 in
    let c' : Conn = record c { to_server = ps } in
    let cs = set m.conns j c' in
    Seated-deliver r.res r.sent cs (
      Seated-mono m.server r.res cs (λ i fd x. (rw same x.0, x.1))
        (Seated-set m.server m.conns j c c' v e refl refl))
Step-Seated {m} (move j {c} {c'} e mv) d v =
    Seated-set m.server m.conns j c c' v e (Move-seat mv).0 (Move-seat mv).1
Step-Seated {m} (arrive new slot phase {a = a} ph un free ac cl) d v =
    Seated-append a.res m.conns (new_conn new slot phase)
      (Seated-mono m.server a.res m.conns (λ i fd x. accept-IsClient m.server new i fd ac x) v) cl
Step-Seated {m} (turned_away new {a = a} un ac drop) d v =
    Seated-mono m.server a.res m.conns (λ i fd x. accept-IsClient m.server new i fd ac x) v
Step-Seated {m} (leave j {c} e ph q cl) d v =
    let one : has_fd c.fd c ≡ 1 = ground (arith, ==ℤ_iff c.fd c.fd) in
    leave-Seated m.server c.slot c.fd (remove m.conns j) cl
      (omega (
        arith,
        sum_of-remove (has_fd c.fd) m.conns j c e,
        one_connection m.conns j c (d c.fd) e,
        one,
      ))
      (Seated-remove m.server m.conns j v)

pub Run-Seated :
    {m n : Net} {s : List Sent}
    → Run m n s
    → Distinct m
    → Seated m.server m.conns
    → Seated n.server n.conns × Distinct n
Run-Seated start d v = (v, d)
Run-Seated (later r st) d v =
    let (seated, distinct) = Run-Seated r d v in
    (Step-Seated st distinct seated, Step-Distinct st distinct)
