-- ===== src/Manage/Sock/Clients.antt =====
-- The clients that the server knows, and the sets by which it waits for them.
use native.Mathlib.Decide.{ℕ_discrete}
use perfnum.Prelude.{
  ℕ, suc, ◌+◌, ◌<◌, ◌≡◌, ◌≢◌, ◌⊎◌, inl, inr, refl, sym, ◌∙◌, ℤ, pos, negsuc, minus_one, ==ℤ_iff,
  true, false, some, some_inj, List, [], ◌∷◌, ltb_int, if◌then◌else◌, length, set, get_elem?,
  get_elem?-set_self, get_elem?-lt, get_elem?-replicate, subst, get_elem?-set_ne, Option-cases,
  arith,
}
use perfnum.Packet.{Packet, Sent}
use perfnum.Manage.Sock.{
  SockRes, Reply, on_perfnum, on_done, on_closed, on_notify, sock_handle_packet,
}
use perfnum.Manage.Sock.Accept.{Accepted, free_slot, place_client, watch, accept_client, disconnect}
use perfnum.Manage.Sock.Loop.{sock_init}
use perfnum.Manage.Sock.Cases.{handle_cases}
use perfnum.Manage.Sock.Trace.{IsClient, handled, accepted, left, Trace, start, later}

-- The descriptor is in the set that select() waits for, the count given to select() includes it,
-- and the loop over the clients reaches its index.
pub record IsWatched (res : SockRes) (i : ℕ) (fd : ℤ) : Type 0 where
  pub in_set : res.allfds fd ≡ true
  pub in_count : ltb_int res.maxfd fd ≡ false
  pub in_scan : ltb_int res.maxi (pos i) ≡ false

-- Every client is watched, and no two indices hold the same descriptor.
pub record IsServing (res : SockRes) : Type 0 where
  pub watched : (i : ℕ) (fd : ℤ) → IsClient res i fd → IsWatched res i fd
  pub distinct : (i j : ℕ) (fd : ℤ) → IsClient res i fd → IsClient res j fd → i ≡ j

-- The handler of a packet leaves these fields alone.
abbrev pub Keeps : SockRes → Reply → Type 0
Keeps t r =
    (r.res.clients ≡ t.clients)
    × (r.res.allfds ≡ t.allfds)
    × (r.res.maxfd ≡ t.maxfd)
    × (r.res.maxi ≡ t.maxi)

on_perfnum-Keeps : (t : SockRes) (p : Packet) (r : Reply) → on_perfnum t p ≡ some r → Keeps t r
unfolding on_perfnum
on_perfnum-Keeps t p r e = ground arith

pub handle-Keeps :
    (fd : ℤ) (t : SockRes) (p o : Packet) (r : Reply)
    → sock_handle_packet fd t p o ≡ some r
    → Keeps t r
unfolding on_done on_closed on_notify
handle-Keeps fd t p o r e =
    handle_cases (Keeps t) fd t p o r e (λ q i h. on_perfnum-Keeps t p q h) (ground arith)
      (λ i. ground arith) (ground arith) (ground arith) (ground arith)

free_slot-free :
    (first : ℕ) (cells : List ℤ) (j : ℕ)
    → free_slot first cells ≡ some j
    → (k : ℕ) × (j ≡ first + k) × (k < length cells)
unfolding free_slot
free_slot-free first [] j e = cc
free_slot-free first (pos n ∷ cs) j e =
    let (k, at_k, inside) = free_slot-free (suc first) cs j e in (suc k, omega arith, omega arith)
free_slot-free first (negsuc n ∷ cs) j e = (0, ground arith, omega arith)

Keeps-IsServing : (t : SockRes) (r : Reply) → Keeps t r → IsServing t → IsServing r.res
Keeps-IsServing t r k v = record {
  watched = λ i fd c.
      let w = v.watched i fd (rw k.0 at c.0, c.1) in
      record { in_set = rw k.1 w.in_set; in_count = rw k.2 w.in_count; in_scan = rw k.3 w.in_scan };
  distinct = λ i j fd c d. v.distinct i j fd (rw k.0 at c.0, c.1) (rw k.0 at d.0, d.1);
}

-- The clients after a write at one index.
set-IsClient :
    (t : SockRes) (cells : List ℤ) (i j : ℕ) (new c : ℤ)
    → cells ≡ set t.clients j new
    → j < length t.clients
    → get_elem? cells i ≡ some c
    → ((i ≡ j) × (c ≡ new)) ⊎ ((i ≢ j) × (get_elem? t.clients i ≡ some c))
set-IsClient t cells i j new c e inside h = elim (ℕ_discrete i j) [
  | yes same ↦
      inl (same, some_inj (sym h ∙ rw (e, same) (get_elem?-set_self t.clients j new inside)))
  | no other ↦
      inr (other, sym (get_elem?-set_ne t.clients j i new (λ q. other (sym q))) ∙ rw e at h)
]

module _ (t : SockRes) (v : IsServing t) (fd : ℤ) (j : ℕ) (inside : j < length t.clients) where
  abbrev placed : SockRes
  placed =
      watch
        (record t {
          clients = set t.clients j fd;
          maxi = if ltb_int t.maxi (pos j) then pos j else t.maxi;
        })
        fd

  placed-IsServing : ((i : ℕ) → get_elem? t.clients i ≢ some fd) → IsServing placed
  placed-IsServing fresh = record {
    watched = λ i c h. elim (set-IsClient t placed.clients i j fd c refl inside h.0) [
      | inl (same, new) ↦ record {
        in_set = ground (arith, ==ℤ_iff c fd);
        in_count = ground arith;
        in_scan = ground arith;
      }
      | inr (other, old) ↦
          let w = v.watched i c (old, h.1) in
          record {
            in_set = ground (arith, w.in_set);
            in_count = ground (arith, w.in_count);
            in_scan = ground (arith, w.in_scan);
          }
    ];
    distinct = λ i k c a b. ground (
      arith,
      set-IsClient t placed.clients i j fd c refl inside a.0,
      set-IsClient t placed.clients k j fd c refl inside b.0,
      v.distinct i k c,
      fresh i,
      fresh k,
    );
  }

placed_nowhere-IsServing : (t : SockRes) (fd : ℤ) → IsServing t → IsServing (watch t fd)
placed_nowhere-IsServing t fd v = record {
  watched = λ i c h.
      let w = v.watched i c h in
      record {
        in_set = ground (arith, w.in_set);
        in_count = ground (arith, w.in_count);
        in_scan = w.in_scan;
      };
  distinct = v.distinct;
}

place-IsServing :
    (t : SockRes) (fd : ℤ)
    → ((i : ℕ) → get_elem? t.clients i ≢ some fd)
    → IsServing t
    → IsServing (watch (place_client t fd).res fd)
unfolding place_client
place-IsServing t fd fresh v = elim (Option-cases (free_slot 0 t.clients)) [
  | inl full ↦ rw (full, place_client) (placed_nowhere-IsServing t fd v)
  | inr (j, free) ↦
      rw (free, place_client)
        (placed-IsServing t v fd j
          (let (k, at_k, inside) = free_slot-free 0 t.clients j free in omega arith) fresh)
]

accept-IsServing :
    (t : SockRes) (fd : ℤ) (a : Accepted)
    → ((i : ℕ) → get_elem? t.clients i ≢ some fd)
    → accept_client t fd ≡ some a
    → IsServing t
    → IsServing a.res
unfolding accept_client
accept-IsServing t fd a fresh e v = subst IsServing (sym same) placed_somewhere
  where
    same : a.res ≡ watch (place_client t fd).res fd
    same = ground arith

    placed_somewhere : IsServing (watch (place_client t fd).res fd)
    placed_somewhere = place-IsServing t fd fresh v

disconnect-IsServing :
    (t : SockRes) (i : ℕ) (fd : ℤ) → IsClient t i fd → IsServing t → IsServing (disconnect t i fd)
unfolding disconnect
disconnect-IsServing t i fd c v = record {
  watched = λ k x h.
      let (other, old) = remains k x h in
      let w = v.watched k x old in
      record {
        in_set = ground (arith, w.in_set, ==ℤ_iff x fd, λ (e : x ≡ fd). other (same k x old e));
        in_count = w.in_count;
        in_scan = w.in_scan;
      };
  distinct = λ k l x a b. v.distinct k l x (remains k x a).1 (remains l x b).1;
}
  where
    remains : (k : ℕ) (x : ℤ) → IsClient (disconnect t i fd) k x → (k ≢ i) × IsClient t k x
    remains k x h = ground (
      arith,
      set-IsClient t (set t.clients i minus_one) k i minus_one x refl (get_elem?-lt t.clients i c.0)
          h.0,
    )

    same : (k : ℕ) (x : ℤ) → IsClient t k x → x ≡ fd → k ≡ i
    same k x h e = v.distinct k i fd (rw e at h.0, c.1) c

Trace-IsServing : {t u : SockRes} {s : List Sent} → Trace t u s → IsServing t → IsServing u
Trace-IsServing start v = v
Trace-IsServing (later r (handled i fd p o q c e)) v =
    Keeps-IsServing _ q (handle-Keeps fd _ p o q e) (Trace-IsServing r v)
Trace-IsServing (later r (accepted fd a fresh e)) v =
    accept-IsServing _ fd a fresh e (Trace-IsServing r v)
Trace-IsServing (later r (left i fd c)) v = disconnect-IsServing _ i fd c (Trace-IsServing r v)

sock_init-IsServing :
    (max_clients : ℕ) (listen limit junk : ℤ) → IsServing (sock_init max_clients listen limit junk)
unfolding sock_init
sock_init-IsServing max_clients listen limit junk = record {
  watched = λ i fd c. absurd (unused i fd c);
  distinct = λ i j fd c d. absurd (unused i fd c);
}
  where
    unused : (i : ℕ) (fd : ℤ) → IsClient (sock_init max_clients listen limit junk) i fd → ⊥
    unused i fd c = ground (arith, get_elem?-replicate max_clients i minus_one c.0)

-- After any events from the start of the server, in any order, each connected client is in the set
-- and in the count for select() and in the range of the loop over the clients, and no descriptor
-- stands at two indices.
pub reachable-IsServing :
    {u : SockRes} {s : List Sent} (max_clients : ℕ) (listen limit junk : ℤ)
    → Trace (sock_init max_clients listen limit junk) u s
    → IsServing u
reachable-IsServing max_clients listen limit junk r =
    Trace-IsServing r (sock_init-IsServing max_clients listen limit junk)
