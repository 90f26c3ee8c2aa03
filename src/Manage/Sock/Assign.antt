-- ===== src/Manage/Sock/Assign.antt =====
-- The ranges that the server hands out.
use native.Mathlib.Decide.{dec_lt}
use perfnum.Prelude.{
  ℕ, zero, suc, ◌+◌, ◌-◌, ◌/◌, ◌*◌, ◌≤◌, ◌<◌, ◌≡◌, refl, sym, ap, ◌∙◌, subst, some_inj,
  get_elem?-lt, ◌≢◌, ◌⊎◌, inl, inr, ℤ, pos, some, List, [], ◌∷◌, ◌++◌, append-nil, get_elem?,
  get_elem?-append, get_elem?-append_end, length, length-append, arith,
}
use perfnum.Packet.{PacketId, range, perf_num, Packet, Sent}
use perfnum.Manage.Sock.{
  SockRes, Reply, nassign, max_limit, tell_notify, on_perfnum, on_done, on_closed, on_notify,
  send_found, send_history, found, after_missed,
}
use perfnum.Manage.Sock.Accept.{accept_client, disconnect}
use perfnum.Manage.Sock.Cases.{handle_cases}
use perfnum.Manage.Sock.Trace.{Step, handled, accepted, left, Trace, start, later}

-- The ranges among the packets sent, in order, first and last number of each.
abbrev pub add_range : PacketId → Packet → List (ℤ × ℤ) → List (ℤ × ℤ)
add_range range p rest = (p.first, p.second) ∷ rest
add_range _ p rest = rest

abbrev pub ranges : List Sent → List (ℤ × ℤ)
ranges [] = []
ranges (s ∷ ss) = add_range s.packet.id s.packet (ranges ss)

-- The first k blocks of NASSIGN numbers above h.
abbrev pub blocks : ℕ → ℕ → List (ℤ × ℤ)
blocks h zero = []
blocks h (suc k) = blocks h k ++ (pos (h + nassign * k + 1), pos (h + nassign * k + nassign)) ∷ []

add_range-append :
    (i : PacketId) (p : Packet) (xs ys : List (ℤ × ℤ))
    → add_range i p (xs ++ ys) ≡ add_range i p xs ++ ys
add_range-append range p xs ys = refl
add_range-append _ p xs ys = refl

pub ranges-append : (s t : List Sent) → ranges (s ++ t) ≡ ranges s ++ ranges t
ranges-append [] t = refl
ranges-append (x ∷ s) t =
    rw (ranges-append s t) (add_range-append x.packet.id x.packet (ranges s) (ranges t))

ranges-send_found :
    (fd : ℤ) (ns : List ℤ) (o : Packet) → o.id ≡ perf_num → ranges (send_found fd ns o) ≡ []
unfolding send_found
ranges-send_found fd [] o e = refl
ranges-send_found fd (n ∷ ns) o e =
    rw (ranges-send_found fd ns (record o { first = n }) e) (ground arith)

pub ranges-tell_notify :
    (res : SockRes) (p : Packet) → p.id ≢ range → ranges (tell_notify res p) ≡ []
unfolding tell_notify
ranges-tell_notify res p h = ground arith

pub ranges-send_history :
    (fd : ℤ) (res : SockRes) (o : Packet) → ranges (send_history fd res o) ≡ []
unfolding send_history
ranges-send_history fd res o =
    rw
      (
        ranges-append (send_found fd (found res) (record o { id = perf_num })) _,
        ranges-send_found fd (found res) (record o { id = perf_num }) refl,
      )
      (ground arith)

-- What one event does to highest_assigned and to the ranges.
abbrev Assigns : SockRes → SockRes → List Sent → Type 0
Assigns t u s =
    ((u.highest_assigned ≡ t.highest_assigned) × (ranges s ≡ []))
    ⊎ ((u.highest_assigned ≡ t.highest_assigned + nassign)
        × (ranges s ≡ (pos (t.highest_assigned + 1), pos (t.highest_assigned + nassign)) ∷ []))

on_done-Assigns :
    (fd : ℤ) (t : SockRes) (o : Packet) → Assigns t (on_done fd t o).res (on_done fd t o).sent
unfolding on_done
on_done-Assigns fd t o = ground arith

on_notify-Assigns :
    (fd : ℤ) (t : SockRes) (o : Packet) → Assigns t (on_notify fd t o).res (on_notify fd t o).sent
unfolding on_notify
on_notify-Assigns fd t o = ground (arith, ranges-send_history fd t (after_missed t o))

on_perfnum-Assigns :
    (t : SockRes) (p : Packet) (r : Reply)
    → p.id ≡ perf_num
    → on_perfnum t p ≡ some r
    → Assigns t r.res r.sent
unfolding on_perfnum
on_perfnum-Assigns t p r i e = ground arith

Step-Assigns : {t u : SockRes} {s : List Sent} → Step t u s → Assigns t u s
unfolding accept_client disconnect on_closed
Step-Assigns {t} (handled i fd p outbound r c e) =
    handle_cases (λ q. Assigns t q.res q.sent) fd t p outbound r e (on_perfnum-Assigns t p)
      (on_done-Assigns fd t outbound) (λ k. inl (refl, ranges-tell_notify t p (λ j. cc)))
      (inl (refl, refl)) (on_notify-Assigns fd t outbound) (inl (refl, refl))
Step-Assigns (accepted fd a fresh e) = ground arith
Step-Assigns (left i fd e) = ground arith

-- Whatever the clients send, in whatever order, the ranges that the server has handed out are the
-- consecutive blocks of NASSIGN numbers above highest_assigned, without a gap or an overlap, and
-- highest_assigned is the end of the last one.
pub Trace-ranges :
    {t u : SockRes} {s : List Sent}
    → Trace t u s
    → (k : ℕ) × (ranges s ≡ blocks t.highest_assigned k)
      × (u.highest_assigned ≡ t.highest_assigned + nassign * k)
Trace-ranges start = (0, refl, omega arith)
Trace-ranges (later {s = s} {s' = s'} r st) =
    let (k, blocks_so_far, high) = Trace-ranges r in
    elim (Step-Assigns st) [
      | inl (same, no_range) ↦
          (k, ranges-append s s' ∙ rw (blocks_so_far, no_range) (append-nil _), omega arith)
      | inr (grown, one_range) ↦
          (suc k, ranges-append s s' ∙ rw (blocks_so_far, one_range, high), omega arith)
    ]

-- The block at index i.
abbrev pub block : ℕ → ℕ → ℤ × ℤ
block h i = (pos (h + nassign * i + 1), pos (h + nassign * i + nassign))

length-blocks : (h k : ℕ) → length (blocks h k) ≡ k
length-blocks h zero = refl
length-blocks h (suc k) = length-append (blocks h k) _ ∙ omega (arith, length-blocks h k)

get_elem?-blocks : (h k i : ℕ) → i < k → get_elem? (blocks h k) i ≡ some (block h i)
get_elem?-blocks h zero i lt = elim lt [ ]
get_elem?-blocks h (suc k) i lt = elim (dec_lt i k) [
  | yes below ↦
      get_elem?-append (blocks h k) _ i (omega (arith, length-blocks h k))
      ∙ get_elem?-blocks h k i below
  | no last ↦
      let e : i ≡ k = omega arith in
      rw e (get_elem?-append_end (blocks h k) _ k (sym (length-blocks h k)))
]

-- The number n is in this range.
abbrev pub IsIn : ℕ → ℤ × ℤ → Type 0
IsIn n (pos a, pos b) = (a ≤ n) × (n ≤ b)
IsIn n _ = ⊥

get_elem?-blocks-IsIn :
    (h k j n : ℕ) (x : ℤ × ℤ)
    → get_elem? (blocks h k) j ≡ some x
    → IsIn n x
    → (h + nassign * j < n) × (n ≤ h + nassign * j + nassign)
get_elem?-blocks-IsIn h k j n x e inside =
    let lt = get_elem?-lt (blocks h k) j e in
    let same : x ≡ block h j =
      some_inj (sym e ∙ get_elem?-blocks h k j (omega (arith, lt, length-blocks h k))) in
    let (lo, hi) : IsIn n (block h j) = subst (IsIn n) same inside in
    (omega (arith, lo), omega (arith, hi))

-- As long as an int holds highest_assigned: every number from 1 to highest_assigned is in one of
-- the ranges that the server has handed out since the start, and in no other one of them.
pub Trace-covers :
    {t u : SockRes} {s : List Sent} (n : ℕ)
    → Trace t u s
    → t.highest_assigned ≡ 0
    → u.highest_assigned ≤ max_limit
    → 0 < n
    → n ≤ u.highest_assigned
    → (i : ℕ) × (x : ℤ × ℤ) × (get_elem? (ranges s) i ≡ some x)
      × IsIn n x
      × ((j : ℕ) (y : ℤ × ℤ) → get_elem? (ranges s) j ≡ some y → IsIn n y → j ≡ i)
Trace-covers {t} {s = s} n r zero_start fits lo hi =
    let (k, e, high) = Trace-ranges r in
    let i : ℕ = (n - 1) / nassign in
    let all : ranges s ≡ blocks 0 k = e ∙ ap (λ h. blocks h k) zero_start in
    (
      i,
      block 0 i,
      rw (e, zero_start) (get_elem?-blocks 0 k i (omega arith)),
      (omega arith, omega arith),
      λ j y there inside. omega (
        arith,
        get_elem?-blocks-IsIn 0 k j n y (ap (λ rs. get_elem? rs j) (sym all) ∙ there) inside,
      ),
    )
