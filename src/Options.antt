-- ===== src/Options.antt =====
-- The option types of include/corosh/options.hpp and include/corosh/server_options.hpp, and the functions that
-- hand them to libssh.
pub mod Kinds
pub mod Session
pub mod Server
pub mod Received
pub mod Setting
use corosh.Base.{if◌then◌else◌}
use corosh.Base.Int.{ℤ, eq_ℤ}
use corosh.Poll.{World, rc_ok, last_error}
use corosh.Session.{Completion, returned, thrown}
use corosh.Options.Kinds.{Pointee}

-- `session::set_option` and `acceptor::set_option`: `options_set` is `ssh_options_set` or
-- `ssh_bind_options_set`, with the options `E` of libssh.
unfoldable pub set_option :
    (w : World) {E : Type 0}
    → (E → Pointee → w.State → ℤ × w.State)
    → E
    → Pointee
    → w.State
    → Completion (Unit {0}) × w.State
set_option w options_set option value s =
    let (rc, s') = options_set option value s in
    (if eq_ℤ rc rc_ok then returned tt else thrown (last_error w s'), s')
