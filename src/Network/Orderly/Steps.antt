-- ===== src/Network/Orderly/Steps.antt =====
-- The workers stay orderly in every run.
use perfnum.Prelude.{
  ℕ, ◌≡◌, ◌≢◌, ◌⊎◌, inl, inr, refl, sym, ◌∙◌, ap, ℤ, minus_one, is_neg, ◌==ℤ◌, ==ℤ_iff, Bool, false,
  some, some_inj, List, [], ◌∷◌, get_elem?, get_elem?-set_ne, Bool-cases, subst, arith,
}
use perfnum.Packet.{Sent}
use perfnum.Manage.Sock.{SockRes}
use perfnum.Manage.Sock.Accept.{Accepted, accept_client, disconnect}
use perfnum.Manage.Sock.Loop.{sock_init}
use perfnum.Manage.Sock.Trace.{IsClient}
use perfnum.Network.{
  Phase, asking, registering, Conn, remove, Net, new_conn, Step, serve, move, arrive, turned_away,
  leave, Run, start, later, fresh,
}
use perfnum.Network.Balance.{Distinct}
use perfnum.Network.All.{All, All-set, All-get, All-append, All-remove}
use perfnum.Network.Seats.{Seated, Run-Seated, accept-IsClient}
use perfnum.Network.Plain.{Plain, Move-Plain}
use perfnum.Network.Plain.Steps.{Apart, Reaches}
use perfnum.Network.Orderly.{Known, Orderly, renew, serve-Orderly}

new-Plain :
    (b : ℕ) (over : Bool) (registered : ℤ) (fd : ℤ) (slot : ℕ) (phase : Phase)
    → (phase ≡ asking) ⊎ (phase ≡ registering)
    → (fd ==ℤ registered) ≡ false
    → Plain b over registered (new_conn fd slot phase)
new-Plain b over registered fd slot phase (inl e) new = λ w. ground arith
new-Plain b over registered fd slot phase (inr e) new = λ w. ground arith

-- A descriptor that no client has is not the registered one.
not_registered :
    (t : SockRes) (fd : ℤ)
    → Known t
    → ((i : ℕ) → get_elem? t.clients i ≢ some fd)
    → is_neg fd ≡ false
    → (fd ==ℤ t.notify) ≡ false
not_registered t fd (inl nobody) un new = ground (arith, ==ℤ_iff fd t.notify)
not_registered t fd (inr (slot, x)) un new = elim (Bool-cases (fd ==ℤ t.notify)) [
  | inl same ↦ absurd (un slot (x.0 ∙ ap some (sym ((==ℤ_iff fd t.notify).0 same))))
  | inr other ↦ other
]

accept-fields :
    (t : SockRes) (fd : ℤ) {a : Accepted}
    → accept_client t fd ≡ some a
    → (a.res.done ≡ t.done) × (a.res.notify ≡ t.notify) × (a.res.limit ≡ t.limit)
unfolding accept_client
accept-fields t fd e = ground arith

accept-Orderly :
    (b : ℕ) (m : Net) (fd : ℤ) {a : Accepted}
    → accept_client m.server fd ≡ some a
    → Orderly b m
    → Orderly b (record m { server = a.res })
accept-Orderly b m fd {a} ac v =
    let (over, who, limit) = accept-fields m.server fd ac in
    record {
      plain =
          renew b m.server.done a.res.done m.server.notify a.res.notify m.conns (λ d. over ∙ d)
            (inl who) v.plain;
      known = elim v.known [
        | inl nobody ↦ inl (who ∙ nobody)
        | inr (slot, x) ↦ inr (
          slot,
          subst (IsClient a.res slot) (sym who)
              (accept-IsClient m.server fd slot m.server.notify ac x),
        )
      ];
      reaches = subst (Reaches b) (sym limit) v.reaches;
    }

-- Nobody is registered any more.
All-Apart : (t : SockRes) (cs : List Conn) → Seated t cs → All (Apart minus_one) cs
All-Apart t [] h = tt
All-Apart t (c ∷ cs) h = (λ w. ground (arith, h.0.1), All-Apart t cs h.1)

leave-Orderly :
    (b : ℕ) (m : Net) (j : ℕ) (c : Conn) (lost : List (ℤ × ℤ))
    → Seated m.server m.conns
    → IsClient m.server c.slot c.fd
    → Orderly b m
    → Orderly b (record {
      server = disconnect m.server c.slot c.fd;
      conns = remove m.conns j;
      given_up = lost;
    })
unfolding disconnect
leave-Orderly b m j c lost seated cl v = elim (Bool-cases (c.fd ==ℤ m.server.notify)) [
  | inl registered ↦ record {
    plain = rw registered (
        All-remove (Plain b m.server.done minus_one) m.conns j (
          renew b m.server.done m.server.done m.server.notify minus_one m.conns (λ d. d)
            (inr (All-Apart m.server m.conns seated)) v.plain));
    known = inl (rw registered refl);
    reaches = v.reaches;
  }
  | inr other ↦ record {
    plain = rw other (All-remove (Plain b m.server.done m.server.notify) m.conns j v.plain);
    known = elim v.known [
      | inl nobody ↦ inl (rw other nobody)
      | inr (slot, x) ↦ inr (slot, rw other (stays slot x other))
    ];
    reaches = v.reaches;
  }
]
  where
    stays :
        (slot : ℕ)
        → IsClient m.server slot m.server.notify
        → (c.fd ==ℤ m.server.notify) ≡ false
        → IsClient (disconnect m.server c.slot c.fd) slot m.server.notify
    stays slot x other = (
      get_elem?-set_ne m.server.clients c.slot slot minus_one (λ e. cc (
        other,
        (==ℤ_iff c.fd m.server.notify).1
            (some_inj (sym cl.0 ∙ ap (get_elem? m.server.clients) e ∙ x.0)),
      ))
          ∙ x.0,
      x.1,
    )

Step-Orderly :
    {m n : Net} {s : List Sent} (b : ℕ)
    → Step m n s
    → Distinct m
    → Seated m.server m.conns
    → Orderly b m
    → Orderly b n
Step-Orderly {m} b (serve j o e q cl h) d seated v = serve-Orderly b m j o d e q cl h v
Step-Orderly {m} b (move j {c} {c'} e mv) d seated v = record {
  plain =
      All-set _ m.conns j c' v.plain
        (Move-Plain b m.server.done m.server.notify mv (All-get _ m.conns j c v.plain e));
  known = v.known;
  reaches = v.reaches;
}
Step-Orderly {m} b (arrive new slot phase {a = a} ph un free ac cl) d seated v =
    let t : Orderly b (record m { server = a.res }) = accept-Orderly b m new ac v in
    let same = (accept-fields m.server new ac).1 in
    record {
      plain = All-append _ m.conns (new_conn new slot phase) t.plain (
          new-Plain b a.res.done a.res.notify new slot phase ph (
            subst (λ fd. (new ==ℤ fd) ≡ false) (sym same)
              (not_registered m.server new v.known un cl.1)));
      known = t.known;
      reaches = t.reaches;
    }
Step-Orderly {m} b (turned_away new un ac drop) d seated v = accept-Orderly b m new ac v
Step-Orderly {m} b (leave j {c} e ph q cl) d seated v = leave-Orderly b m j c _ seated cl v

Run-Orderly_from :
    {m n : Net} {s : List Sent} (b : ℕ)
    → Run m n s
    → Distinct m
    → Seated m.server m.conns
    → Orderly b m
    → Orderly b n
Run-Orderly_from b start d seated v = v
Run-Orderly_from b (later r st) d seated v =
    let (seated_now, distinct_now) = Run-Seated r d seated in
    Step-Orderly b st distinct_now seated_now (Run-Orderly_from b r d seated v)

pub Run-Orderly :
    {n : Net} {s : List Sent} (b max_clients : ℕ) (listen limit junk : ℤ)
    → Reaches b limit
    → Run (fresh (sock_init max_clients listen limit junk)) n s
    → Orderly b n
unfolding sock_init
Run-Orderly b max_clients listen limit junk h r =
    Run-Orderly_from b r (λ fd. omega arith) tt
      (record { plain = tt; known = inl refl; reaches = h })
