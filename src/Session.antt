-- ===== src/Session.antt =====
-- The operations of `session`: src/session.cpp from line 35 to line 394.
pub mod Outcomes
pub mod Callbacks
pub mod Forwarding
pub mod ClientCallbacks
pub mod Lifetime
use corosh.Base.{ℕ, Bool, true, false, not, leb, Option, none, some, if◌then◌else◌}
use corosh.Base.Int.{ℤ, pos, eq_ℤ}
use corosh.Base.Text.{Text}
use corosh.Errors.{ErrorCode, failed}
use corosh.Poll.{
  World, iterate, rc_ok, auth_error, generic_error, last_error, do_op, do_open, do_auth,
}
use corosh.Poll as P

-- The functions of libssh that the operations call on their session; the socket's `open`, its `connect` to
-- the endpoint, and setting the option `fd` to its handle. Where a user name can be given, the
-- operations give a null pointer. A key is a number, a passphrase `none` for a null pointer.
pub record Libssh (S : Type 0) : Type 0 where
  pub socket_open : S → S
  pub set_blocking : S → S
  pub socket_connect : S → ErrorCode × S
  pub set_fd : S → ℤ × S
  pub connect : S → ℤ × S
  pub userauth_none : S → ℤ × S
  pub userauth_gssapi : S → ℤ × S
  pub userauth_gssapi_keyex : S → ℤ × S
  pub userauth_agent : S → ℤ × S
  pub userauth_password : Text → S → ℤ × S
  pub userauth_publickey_auto : Option Text → S → ℤ × S
  pub userauth_kbdint : Text → S → ℤ × S
  pub userauth_try_publickey : ℕ → S → ℤ × S
  pub userauth_publickey : ℕ → S → ℤ × S
  pub listen_forward : Text → ℤ → S → (ℤ × ℕ) × S
  pub cancel_forward : Text → ℤ → S → ℤ × S
  pub handle_key_exchange : S → ℤ × S

-- The ways to authenticate, with their arguments.
pub data Userauth : Type 0 where
  userauth_none userauth_gssapi userauth_gssapi_keyex userauth_agent : Userauth
  userauth_password : (password : Text) → Userauth
  userauth_try_publickey : (pubkey : ℕ) → Userauth
  userauth_publickey : (privkey : ℕ) → Userauth
  userauth_publickey_auto : (passphrase : Option Text) → Userauth
  userauth_kbdint : (submethods : Text) → Userauth

-- The operations behind `do_op_`.
pub data Operation : Type 0 where
  cancel_forward : (address : Text) (port : ℤ) → Operation
  handle_key_exchange : Operation

-- What a coroutine ends with: a value, or a `system_error` that it throws.
pub data Completion (A : Type 0) : Type 0 where
  returned : A → Completion A
  thrown : ErrorCode → Completion A

-- `version_minor` is LIBSSH_VERSION_MINOR.
module _ (w : World) (lib : Libssh w.State) (version_minor : ℕ) where
  -- The lambdas handed to `do_auth_`.
  unfoldable pub auth_call : Userauth → w.State → ℤ × w.State
  auth_call userauth_none = lib.userauth_none
  auth_call userauth_gssapi = lib.userauth_gssapi
  auth_call userauth_gssapi_keyex = lib.userauth_gssapi_keyex
  auth_call userauth_agent = lib.userauth_agent
  auth_call (userauth_password password) = lib.userauth_password password
  auth_call (userauth_try_publickey pubkey) = lib.userauth_try_publickey pubkey
  auth_call (userauth_publickey privkey) = lib.userauth_publickey privkey
  auth_call (userauth_publickey_auto passphrase) = lib.userauth_publickey_auto passphrase
  auth_call (userauth_kbdint submethods) = lib.userauth_kbdint submethods

  -- An older libssh has no call for `userauth_gssapi_keyex`.
  abbrev pub supported : Userauth → Bool
  supported userauth_gssapi_keyex = leb 12 version_minor
  supported userauth_none = true
  supported userauth_gssapi = true
  supported userauth_agent = true
  supported (userauth_password password) = true
  supported (userauth_try_publickey pubkey) = true
  supported (userauth_publickey privkey) = true
  supported (userauth_publickey_auto passphrase) = true
  supported (userauth_kbdint submethods) = true

  -- The operation, for a given number of rounds.
  unfoldable pub authenticate : ℕ → Userauth → w.State → Option ((ErrorCode × ℤ) × w.State)
  unfolding auth_call
  authenticate fuel method s =
      if supported method
      then iterate fuel (do_auth w (auth_call method)) s
      else some ((generic_error 95, auth_error), s)

module _ (w : World) (lib : Libssh w.State) where
  unfoldable pub operation_call : Operation → w.State → ℤ × w.State
  operation_call (cancel_forward address port) = lib.cancel_forward address port
  operation_call handle_key_exchange = lib.handle_key_exchange

  unfoldable pub perform : ℕ → Operation → w.State → Option (ErrorCode × w.State)
  unfolding operation_call
  perform fuel op = iterate fuel (do_op w (operation_call op))

  unfoldable pub listen_forward : ℕ → Text → ℤ → w.State → Option ((ErrorCode × ℕ) × w.State)
  listen_forward fuel address port =
      iterate fuel (P.listen_forward w (lib.listen_forward address port))

  -- The loop of `connect` returns what `channel::do_open_` returns, in every case.
  abbrev pub returning : Option (ErrorCode × w.State) → Option (Completion ErrorCode × w.State)
  returning none = none
  returning (some (ec, s)) = some (returned ec, s)

  unfoldable pub connect : ℕ → w.State → Option (Completion ErrorCode × w.State)
  connect fuel s =
      let (ec, connected) = lib.socket_connect (lib.socket_open s) in
      let (rc, prepared) = lib.set_fd connected in
      if failed ec
      then some (returned ec, connected)
      else if not (eq_ℤ rc rc_ok)
      then some (thrown (last_error w prepared), prepared)
      else returning (iterate fuel (do_open w lib.connect) (lib.set_blocking prepared))
