-- ===== src/Runtime.antt =====
-- impl/runtime.hpp: which server owns a socket file, process-wide. A server and a path are known by
-- identity alone: a number names each. The file system is not modelled: what it answers for a path is
-- an argument, and `removed` lists the paths on which `std::filesystem::remove` was called.
pub mod Ownership
use cpp_unix_domain_stream.Prelude.{
  ℕ, Bool, true, false, Option, none, some, List, [], ◌∷◌, ◌++◌, ◌==◌, if◌then◌else◌, is_this,
}

pub record Runtime : Type 0 where
  pub socket_file_path_owners : List (ℕ × ℕ)
  pub removed : List ℕ

unfoldable pub owner_of : ℕ → List (ℕ × ℕ) → Option ℕ
owner_of path [] = none
owner_of path ((k, owner) ∷ rest) = if k == path then some owner else owner_of path rest

unfoldable pub erase : ℕ → List (ℕ × ℕ) → List (ℕ × ℕ)
erase path [] = []
erase path ((k, owner) ∷ rest) =
    let others = erase path rest in if k == path then others else (k, owner) ∷ others

unfoldable pub set_socket_file_path_owner : ℕ → ℕ → Runtime → Runtime
unfolding erase
set_socket_file_path_owner path owner r = record r {
  socket_file_path_owners = (path, owner) ∷ erase path r.socket_file_path_owners;
}

-- The second argument is the path's key, as `make_socket_file_path_key` resolves it now.
unfoldable pub remove_socket_file_path : ℕ → ℕ → Runtime → Runtime
unfolding erase
remove_socket_file_path path key r = record r {
  socket_file_path_owners = erase key r.socket_file_path_owners;
  removed = r.removed ++ (path ∷ []);
}

unfoldable pub remove_socket_file_path_if_owned : ℕ → ℕ → Runtime → Runtime
unfolding erase owner_of
remove_socket_file_path_if_owned path owner r =
    if is_this (owner_of path r.socket_file_path_owners) owner
    then record r {
      socket_file_path_owners = erase path r.socket_file_path_owners;
      removed = r.removed ++ (path ∷ []);
    }
    else r

-- The results of `weakly_canonical` and `absolute` come first, `none` where the call fails.
unfoldable pub make_socket_file_path_key : Option ℕ → Option ℕ → (ℕ → ℕ) → ℕ → ℕ
make_socket_file_path_key (some key) absolute lexically_normal path = key
make_socket_file_path_key none (some key) lexically_normal path = lexically_normal key
make_socket_file_path_key none none lexically_normal path = lexically_normal path
