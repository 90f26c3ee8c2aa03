-- ===== src/Manage/Sock/Refine.antt =====
-- The select() loop of the socket server beside the events of `Trace`.
use perfnum.Prelude.{
  ℕ, zero, suc, ◌≡◌, ◌≢◌, ◌⊎◌, refl, sym, ap, subst, ◌∙◌, inl, inr, ℤ, pos, minus_one, is_neg,
  ◌==ℤ◌, ==ℤ_iff, Bool, true, false, Option, none, some, some_inj, List, [], ◌∷◌, ◌++◌, append-nil,
  get_elem?, Bool-cases, Option-cases, arith,
}
use perfnum.Packet.{Packet, packet_size, get_packet}
use perfnum.Manage.Sock.{SockRes, sock_handle_packet}
use perfnum.Manage.Sock.Accept.{accept_client, disconnect}
use perfnum.Manage.Sock.Loop.{
  Server, Round, Select, ready, interrupted, broken, pred_int, all_served, handle, serve_packet,
  serve_client, scan_clients, indices, after_select, go_on, one_round, sock_report,
}
use perfnum.Manage.Sock.Trace.{IsClient}
use perfnum.Manage.Sock.Events.{
  heard, joined, gone, Extends, Extends-refl, Event-Extends, Extends-trans,
}

handle-Extends :
    {A : Round → Type 0} (r : Round) (i : ℕ) (fd : ℤ) (p : Packet) (s t : Server)
    → A r
    → IsClient s.res i fd
    → get_packet (r.reads i) ≡ (pos packet_size, p)
    → handle r fd p s ≡ some t
    → Extends A s t
unfolding handle
handle-Extends r i fd p s t a c all e =
    elim (Option-cases (sock_handle_packet fd s.res p r.outbound)) [
      | inl fault ↦ absurd (ground arith)
      | inr (q, ok) ↦
          Event-Extends s t q.res q.sent (ground arith) (ground arith) (heard r i fd p q a c all ok)
    ]

serve_packet-cases :
    (r : Round) (i : ℕ) (fd n : ℤ) (p : Packet) (s : Server)
    → (n ==ℤ pos 0) ≡ false
    → (serve_packet r i fd (n, p) s ≡ some s)
      ⊎ ((n ≡ pos packet_size) × (serve_packet r i fd (n, p) s ≡ handle r fd p s))
unfolding serve_packet
serve_packet-cases r i fd n p s e = ground (arith, ==ℤ_iff n (pos packet_size))

serve_packet-Extends :
    {A : Round → Type 0} (r : Round) (i : ℕ) (fd n : ℤ) (p : Packet) (s t : Server)
    → A r
    → IsClient s.res i fd
    → get_packet (r.reads i) ≡ (n, p)
    → serve_packet r i fd (n, p) s ≡ some t
    → Extends A s t
unfolding serve_packet
serve_packet-Extends r i fd n p s t a c read e = elim (Bool-cases (n ==ℤ pos 0)) [
  | inl ended ↦
      Event-Extends s t (disconnect s.res i fd) [] (ground (arith, append-nil s.sent))
        (ground arith)
        (gone r i fd a c (ap (λ (x : ℤ × Packet). x.0) read ∙ (==ℤ_iff n (pos 0)).0 ended))
  | inr more ↦ elim (serve_packet-cases r i fd n p s more) [
    | inl same ↦ Extends-refl s t (ground arith) (ground arith)
    | inr (all, handled_here) ↦
        handle-Extends r i fd p s t a c (read ∙ ap (λ (m : ℤ). (m, p)) all) (sym handled_here ∙ e)
  ]
]

serve_client-Extends :
    {A : Round → Type 0} (r : Round) (i : ℕ) (fd : ℤ) (s t : Server)
    → A r
    → IsClient s.res i fd
    → serve_client r i fd s ≡ some t
    → Extends A s t
unfolding serve_client
serve_client-Extends r i fd s t a c e =
    serve_packet-Extends r i fd (get_packet (r.reads i)).0 (get_packet (r.reads i)).1
      (record s { nready = pred_int s.nready }) t a c refl e

-- One index of the loop: skipped, the last one served, or served with more to come.
scan-cases :
    (r : Round) (rset : ℤ → Bool) (n i : ℕ) (s t : Server)
    → scan_clients r rset (suc n) i s ≡ some t
    → (scan_clients r rset n (suc i) s ≡ some t)
      ⊎ ((fd : ℤ) × (u : Server) × IsClient s.res i fd
          × (serve_client r i fd s ≡ some u)
          × ((u ≡ t) ⊎ (scan_clients r rset n (suc i) u ≡ some t)))
unfolding scan_clients
scan-cases r rset n i s t e = elim (Option-cases (get_elem? s.res.clients i)) [
  | inl outside ↦ absurd (ground arith)
  | inr (fd, here) ↦ elim (Option-cases (serve_client r i fd s)) [
    | inl fault ↦ inl (ground arith)
    | inr (u, served) ↦ elim (Bool-cases (is_neg fd)) [
      | inl unused ↦ inl (ground arith)
      | inr used ↦ elim (Bool-cases (rset fd)) [
        | inl can_read ↦ inr (fd, u, (here, used), served, ground arith)
        | inr quiet ↦ inl (ground arith)
      ]
    ]
  ]
]

scan_clients-Extends :
    {A : Round → Type 0} (r : Round) (rset : ℤ → Bool) (n i : ℕ) (s t : Server)
    → A r
    → scan_clients r rset n i s ≡ some t
    → Extends A s t
unfolding scan_clients
scan_clients-Extends r rset zero i s t a e = Extends-refl s t (ground arith) (ground arith)
scan_clients-Extends {A} r rset (suc n) i s t a e = elim (scan-cases r rset n i s t e) [
  | inl skipped ↦ scan_clients-Extends r rset n (suc i) s t a skipped
  | inr (fd, u, c, served, inl last) ↦
      subst (Extends A s) last (serve_client-Extends r i fd s u a c served)
  | inr (fd, u, c, served, inr more) ↦
      Extends-trans s u t (serve_client-Extends r i fd s u a c served)
        (scan_clients-Extends r rset n (suc i) u t a more)
]

-- The descriptor from accept() is not one of the clients'.
abbrev pub IsFresh : ℤ → SockRes → Type 0
IsFresh fd res = (i : ℕ) → get_elem? res.clients i ≢ some fd

after_select-Extends :
    {A : Round → Type 0} (r : Round) (nready : ℤ) (rset : ℤ → Bool) (s t : Server)
    → A r
    → IsFresh r.accept s.res
    → after_select r nready rset s ≡ some t
    → Extends A s t
unfolding after_select
after_select-Extends {A} r nready rset s t allowed fresh e = elim (Bool-cases (rset s.res.listen)) [
  | inr no_client ↦
      scan_clients-Extends r rset (indices s.res.maxi) 0 (record s { nready = nready }) t allowed
        (ground arith)
  | inl new_client ↦ elim (Option-cases (accept_client s.res r.accept)) [
    | inl fault ↦ absurd (ground arith)
    | inr (a, placed) ↦
        let u : Server = record s {
          res = a.res;
          nready = pred_int nready;
          dropped = s.dropped ++ a.dropped;
        } in
        let arrived : Extends A s u =
          Event-Extends s u a.res [] (sym (append-nil s.sent)) refl
            (joined r a allowed fresh placed) in
        elim (Bool-cases (all_served (pred_int nready))) [
          | inl over ↦ subst (Extends A s) (some_inj {a = u} {b = t} (ground arith)) arrived
          | inr more ↦
              Extends-trans s u t arrived
                (scan_clients-Extends r rset (indices a.res.maxi) 0 u t allowed (ground arith))
        ]
  ]
]

go_on-eq : (m : Option Server) (t : Server) (b : Bool) → go_on m ≡ some (t, b) → m ≡ some t
unfolding go_on
go_on-eq none t b e = cc
go_on-eq (some u) t b e = cc

select-cases :
    (x : Select) (r : Round) (s t : Server) (b : Bool)
    → r.select ≡ x
    → r.caught ≡ false
    → one_round r s ≡ some (t, b)
    → (s ≡ t) ⊎ ((n : ℤ) × (f : ℤ → Bool) × (after_select r n f s ≡ some t))
unfolding one_round
select-cases interrupted r s t b x c e = inl (ground arith)
select-cases broken r s t b x c e = inr (minus_one, s.res.allfds, go_on-eq _ t b (ground arith))
select-cases (ready n f) r s t b x c e = inr (n, f, go_on-eq _ t b (ground arith))

one_round-Extends :
    {A : Round → Type 0} (r : Round) (s t : Server) (b : Bool)
    → A r
    → IsFresh r.accept s.res
    → one_round r s ≡ some (t, b)
    → Extends A s t
unfolding one_round
one_round-Extends {A} r s t b a fresh e = elim (Bool-cases r.caught) [
  | inl signal ↦ Extends-refl s t (ground arith) (ground arith)
  | inr quiet ↦ elim (select-cases r.select r s t b refl quiet e) [
    | inl same ↦ subst (Extends A s) same (Extends-refl s s refl refl)
    | inr (n, f, went_on) ↦ after_select-Extends r n f s t a fresh went_on
  ]
]

-- accept() returns a fresh descriptor in each round that the loop comes to.
unfoldable pub AcceptsFresh : List Round → Server → Type 0
AcceptsFresh [] s = Unit
AcceptsFresh (r ∷ rs) s =
    IsFresh r.accept s.res × ((t : Server) → one_round r s ≡ some (t, false) → AcceptsFresh rs t)

sock_report-cases :
    (r : Round) (rs : List Round) (s t : Server) (over : Bool)
    → sock_report (r ∷ rs) s ≡ some (t, over)
    → (s ≡ t)
      ⊎ (one_round r s ≡ some (t, true))
      ⊎ ((u : Server) × (one_round r s ≡ some (u, false)) × (sock_report rs u ≡ some (t, over)))
unfolding sock_report
sock_report-cases r rs s t over e = elim (Bool-cases s.done) [
  | inl ended ↦ inl (ground arith)
  | inr running ↦ elim (Option-cases (one_round r s)) [
    | inl fault ↦ absurd (ground arith)
    | inr (x, went) ↦ elim (Bool-cases x.1) [
      | inl broke ↦ inr (inl (ground arith))
      | inr on ↦ inr (inr (x.0, ground arith, ground arith))
    ]
  ]
]

-- The loop in rounds that are all allowed.
rounds-Extends :
    {A : Round → Type 0} (rs : List Round) (s t : Server) (over : Bool)
    → ((k : ℕ) (r : Round) → get_elem? rs k ≡ some r → A r)
    → AcceptsFresh rs s
    → sock_report rs s ≡ some (t, over)
    → Extends A s t
unfolding sock_report AcceptsFresh
rounds-Extends [] s t over a fresh e = Extends-refl s t (ground arith) (ground arith)
rounds-Extends {A} (r ∷ rs) s t over a fresh e = elim (sock_report-cases r rs s t over e) [
  | inl ended ↦ subst (Extends A s) ended (Extends-refl s s refl refl)
  | inr (inl broke) ↦ one_round-Extends r s t true (a 0 r refl) fresh.0 broke
  | inr (inr (u, went_on, rest)) ↦
      Extends-trans s u t (one_round-Extends r s u false (a 0 r refl) fresh.0 went_on)
        (rounds-Extends rs u t over (λ k q here. a (suc k) q here) (fresh.1 u went_on) rest)
]

-- One of the given rounds.
abbrev pub Among : List Round → Round → Type 0
Among rs r = (k : ℕ) × (get_elem? rs k ≡ some r)

-- Whatever select(), accept() and read() return, in any number of rounds, all that the loop of the
-- server does to its state, and all that it sends, comes from these events in some order: a whole
-- packet that read() gave for a client is handled, a client whose read() gave the end of its stream
-- is dropped, and a descriptor that accept() gave is taken on. accept() returns descriptors that are
-- not in use.
pub sock_report-Events :
    (rs : List Round) (s t : Server) (over : Bool)
    → AcceptsFresh rs s
    → sock_report rs s ≡ some (t, over)
    → Extends (Among rs) s t
sock_report-Events rs s t over = rounds-Extends rs s t over (λ k r here. (k, here))
