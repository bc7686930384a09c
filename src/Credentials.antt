-- ===== src/Credentials.antt =====
-- peer_credentials.hpp and impl/credentials.hpp: the credentials of the process at the other end.
-- The results of the system calls are arguments, `none` where a call fails.
use cpp_unix_domain_stream.Prelude.{ℕ, Bool, true, Option, none, some}

pub record PeerCredentials : Type 0 where
  pub pid : Option ℕ
  pub uid : Option ℕ
  pub gid : Option ℕ

-- `struct ucred`
pub record Ucred : Type 0 where
  pub pid : ℕ
  pub uid : ℕ
  pub gid : ℕ

-- The Linux branch, with `getsockopt(SO_PEERCRED)`.
abbrev pub make_peer_credentials : Option Ucred → PeerCredentials
make_peer_credentials none = record { pid = none; uid = none; gid = none }
make_peer_credentials (some credentials) = record {
  pid = some credentials.pid;
  uid = some credentials.uid;
  gid = some credentials.gid;
}

-- The Apple branch, with `getsockopt(LOCAL_PEERPID)` and `getpeereid`.
abbrev pub make_peer_credentials_by_parts : Option ℕ → Option (ℕ × ℕ) → PeerCredentials
make_peer_credentials_by_parts pid none = record { pid = pid; uid = none; gid = none }
make_peer_credentials_by_parts pid (some (uid, gid)) = record {
  pid = pid;
  uid = some uid;
  gid = some gid;
}

-- `default_verify_peer` and `default_client_verify_peer`
abbrev pub default_verify_peer : PeerCredentials → Bool
default_verify_peer _ = true
