-- ===== src/Runtime/Ownership.antt =====
-- impl/runtime.hpp: the owners of socket files over the uses that all servers make of them.
use cpp_unix_domain_stream.Prelude.{
  ℕ, ◌≡◌, refl, ap, ◌∙◌, ◌≢◌, Option, none, some, List, [], ◌∷◌, ◌==◌, if◌then◌else◌, is_this, All,
  count, count-append, arith,
}
use cpp_unix_domain_stream.Runtime.{
  Runtime, owner_of, erase, set_socket_file_path_owner, remove_socket_file_path,
  remove_socket_file_path_if_owned,
}

-- What a server does: it takes a path when it has bound it, removes a stale file before it binds, and
-- cleans up when it closes its acceptor.
pub data Use : Type 0 where
  takes : ℕ → ℕ → Use
  clears : ℕ → ℕ → Use
  cleans : ℕ → ℕ → Use

unfoldable pub perform : Runtime → Use → Runtime
perform r (takes path owner) = set_socket_file_path_owner path owner r
perform r (clears path key) = remove_socket_file_path path key r
perform r (cleans path owner) = remove_socket_file_path_if_owned path owner r

unfoldable pub performs : Runtime → List Use → Runtime
performs r [] = r
performs r (u ∷ us) = performs (perform r u) us

owner_of-erase :
    (p q : ℕ) (owners : List (ℕ × ℕ))
    → owner_of p (erase q owners) ≡ (if q == p then none else owner_of p owners)
unfolding owner_of erase
owner_of-erase p q [] = ground arith
owner_of-erase p q ((k, o) ∷ rest) = ground (arith, owner_of-erase p q rest)

-- The owner of a path after each use, by a case on the use alone.
abbrev pub next_owner : ℕ → Use → Option ℕ → Option ℕ
next_owner p (takes path owner) o = if path == p then some owner else o
next_owner p (clears path key) o = if key == p then none else o
next_owner p (cleans path owner) o = if path == p then (if is_this o owner then none else o) else o

abbrev pub owner_after : ℕ → List Use → Option ℕ → Option ℕ
owner_after p [] o = o
owner_after p (u ∷ us) o = owner_after p us (next_owner p u o)

owner_of-perform :
    (p : ℕ) (r : Runtime) (u : Use)
    → owner_of p (perform r u).socket_file_path_owners
      ≡ next_owner p u (owner_of p r.socket_file_path_owners)
unfolding perform set_socket_file_path_owner remove_socket_file_path
    remove_socket_file_path_if_owned owner_of
owner_of-perform p r (takes path owner) =
    ground (arith, owner_of-erase p path r.socket_file_path_owners)
owner_of-perform p r (clears path key) =
    ground (arith, owner_of-erase p key r.socket_file_path_owners)
owner_of-perform p r (cleans path owner) =
    ground (arith, owner_of-erase p path r.socket_file_path_owners)

-- After any uses, the map of owners answers as the sequence of uses says: a path belongs to the server
-- that took it last, until the path is cleared or that server cleans up; no other server's cleanup
-- changes its owner.
pub owner_of-performs :
    (p : ℕ) (r : Runtime) (us : List Use)
    → owner_of p (performs r us).socket_file_path_owners
      ≡ owner_after p us (owner_of p r.socket_file_path_owners)
unfolding performs
owner_of-performs p r [] = refl
owner_of-performs p r (u ∷ us) =
    owner_of-performs p (perform r u) us ∙ ap (owner_after p us) (owner_of-perform p r u)

-- A use that leaves path `p` of server `owner` alone: neither a bind at `p` nor a cleanup by `owner`.
abbrev pub Spares : ℕ → ℕ → Use → Type 0
Spares p owner (takes path o) = path ≢ p
Spares p owner (clears path key) = (path ≢ p) × (key ≢ p)
Spares p owner (cleans path o) = o ≢ owner

pub Spares-step :
    (p owner : ℕ) (r : Runtime) (u : Use)
    → Spares p owner u
    → owner_of p r.socket_file_path_owners ≡ some owner
    → (owner_of p (perform r u).socket_file_path_owners ≡ some owner)
      × (count (λ q. q == p) (perform r u).removed ≡ count (λ q. q == p) r.removed)
unfolding perform set_socket_file_path_owner remove_socket_file_path
    remove_socket_file_path_if_owned owner_of
Spares-step p owner r (takes path o) s h =
    ground (arith, owner_of-erase p path r.socket_file_path_owners)
Spares-step p owner r (clears path key) s h = ground (
  arith,
  owner_of-erase p key r.socket_file_path_owners,
  count-append (λ (q : ℕ). q == p) r.removed (path ∷ []),
)
Spares-step p owner r (cleans path o) s h = ground (
  arith,
  owner_of-erase p path r.socket_file_path_owners,
  count-append (λ (q : ℕ). q == p) r.removed (path ∷ []),
)

-- As long as no server clears or takes the path `p` of a server, and that server does not clean up,
-- whatever the servers do, in any order, leaves `p` with its owner and never removes the file at `p`.
pub performs_spare :
    (p owner : ℕ) (r : Runtime) (us : List Use)
    → owner_of p r.socket_file_path_owners ≡ some owner
    → All (Spares p owner) us
    → (owner_of p (performs r us).socket_file_path_owners ≡ some owner)
      × (count (λ q. q == p) (performs r us).removed ≡ count (λ q. q == p) r.removed)
unfolding performs
performs_spare p owner r [] h s = (h, refl)
performs_spare p owner r (u ∷ us) h s =
    let (kept, spared) = Spares-step p owner r u s.0 h in
    let (later, rest) = performs_spare p owner (perform r u) us kept s.1 in (later, rest ∙ spared)
