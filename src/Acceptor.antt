-- ===== src/Acceptor.antt =====
-- `acceptor`: src/acceptor.cpp and include/corosh/acceptor.hpp.
pub mod Outcomes
use corosh.Base.{ℕ, Bool, true, false, not, [], if◌then◌else◌}
use corosh.Base.Int.{ℤ, eq_ℤ}
use corosh.Base.Host.{Endian}
use corosh.Base.Text.{Text}
use corosh.Errors.{ErrorCode, failed}
use corosh.Poll.{World, rc_ok, last_error}
use corosh.Session.{Completion, returned, thrown}
use corosh.Options.{set_option}
use corosh.Options.Kinds.{cstring_option, unsigned_int_option, construct, Pointee, pointee}
use corosh.Options.Server.{SshBindOptionsE, option, bind_addr, bind_port}

-- An endpoint of the asynchronous I/O library: the texts are what `to_string` gives for its addresses.
pub record Endpoint : Type 0 where
  pub is_v4 : Bool
  pub is_v6 : Bool
  pub v4_text : Text
  pub v6_text : Text
  pub port : ℕ

-- `ssh_bind_options_set`; `bind`, `listen` and `accept` of the acceptor of the I/O library;
-- `ssh_bind_accept_fd` with the session and the handle of its socket, and `ssh_set_blocking` on it.
-- The error code of `World` is that of `bind_`.
pub record Libssh (S : Type 0) : Type 0 where
  pub bind_options_set : SshBindOptionsE → Pointee → S → ℤ × S
  pub bind : Endpoint → S → ErrorCode × S
  pub listen : S → ErrorCode × S
  pub accept : S → ErrorCode × S
  pub bind_accept_fd : S → ℤ × S
  pub set_blocking : S → S

unfoldable pub address : Endpoint → Text
address ep = if ep.is_v4 then ep.v4_text else if ep.is_v6 then ep.v6_text else []

module _ (w : World) (lib : Libssh w.State) where
  -- What comes behind `set_option`, which may throw.
  abbrev pub after :
      {A : Type 0}
      → Completion (Unit {0}) × w.State
      → (w.State → Completion A × w.State)
      → Completion A × w.State
  after (returned u, s) rest = rest s
  after (thrown ec, s) rest = (thrown ec, s)

  abbrev pub returning : ErrorCode × w.State → Completion ErrorCode × w.State
  returning (ec, s) = (returned ec, s)

  unfoldable pub accept : w.State → ErrorCode × w.State
  accept s =
      let (ec, s1) = lib.accept s in
      if failed ec
      then (ec, s1)
      else (let (rc, s2) = lib.bind_accept_fd s1 in
          ((if eq_ℤ rc rc_ok then ec else last_error w s2), lib.set_blocking s2))

module _ (host : Endian) (w : World) (lib : Libssh w.State) where
  -- The two options that `bind` sets.
  unfoldable pub set_bind_addr : Endpoint → w.State → Completion (Unit {0}) × w.State
  unfolding address
  set_bind_addr ep =
      set_option w lib.bind_options_set (option bind_addr)
        (pointee host cstring_option (construct cstring_option (address ep)))

  unfoldable pub set_bind_port : Endpoint → w.State → Completion (Unit {0}) × w.State
  set_bind_port ep =
      set_option w lib.bind_options_set (option bind_port)
        (pointee host unsigned_int_option (construct unsigned_int_option ep.port))

  unfoldable pub bind : Endpoint → w.State → Completion ErrorCode × w.State
  bind ep s =
      after w lib (set_bind_addr ep s)
        λ s1. after w lib (set_bind_port ep s1) λ s2. returning w lib (lib.bind ep s2)
