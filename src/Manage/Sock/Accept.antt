-- ===== src/Manage/Sock/Accept.antt =====
-- manage.c, accept_client, and what sock_report does when a client's stream ends.
use perfnum.Prelude.{
  ℕ, suc, ℤ, pos, minus_one, ◌==ℤ◌, ltb_int, is_neg, Bool, true, false, ◌||◌, Option, none, some,
  List, [], ◌∷◌, length, set, not, if◌then◌else◌,
}
use perfnum.Manage.Sock.{SockRes}

-- FD_SET and FD_CLR, where the descriptor is one that the set can hold.
abbrev pub fd_set : ℤ → (ℤ → Bool) → ℤ → Bool
fd_set fd fds x = if x ==ℤ fd then true else fds x

abbrev pub fd_clr : ℤ → (ℤ → Bool) → ℤ → Bool
fd_clr fd fds x = if x ==ℤ fd then false else fds x

-- The search for an unused index, from `i` on, over the cells that are left. At the end of the
-- array (i == MAX_CLIENTS) there is none.
unfoldable pub free_slot : ℕ → List ℤ → Option ℕ
free_slot i [] = none
free_slot i (c ∷ cs) = if is_neg c then some i else free_slot (suc i) cs

-- The state after accept_client, and the descriptors that it closed.
pub record Accepted : Type 0 where
  pub res : SockRes
  pub dropped : List ℤ

-- The loop over the clients array.
unfoldable pub place_client : SockRes → ℤ → Accepted
unfolding free_slot
place_client res fd = elim (free_slot 0 res.clients) [
  | none ↦ record { res = res; dropped = fd ∷ [] }
  | some i ↦ record {
    res = record res {
      clients = set res.clients i fd;
      maxi = if ltb_int res.maxi (pos i) then pos i else res.maxi;
    };
    dropped = [];
  }
]

-- FD_SET(fd, &res->allfds) and the update of maxfd.
abbrev pub watch : SockRes → ℤ → SockRes
watch res fd = record res {
  allfds = fd_set fd res.allfds;
  maxfd = if ltb_int res.maxfd fd then fd else res.maxfd;
}

-- accept_client, where accept() returned `fd`. `none` is FD_SET of a descriptor that an fd_set
-- cannot hold: a negative one, or one from FD_SETSIZE on.
unfoldable pub accept_client : SockRes → ℤ → Option Accepted
unfolding place_client
accept_client res fd =
    if is_neg fd || not (ltb_int fd (pos (length res.clients)))
    then none
    else some (record (place_client res fd) { res = watch (place_client res fd).res fd })

-- The branch of sock_report for a client at index `i` that has closed its connection.
unfoldable pub disconnect : SockRes → ℕ → ℤ → SockRes
disconnect res i fd = record res {
  notify = if fd ==ℤ res.notify then minus_one else res.notify;
  allfds = fd_clr fd res.allfds;
  clients = set res.clients i minus_one;
}
