-- ===== src/Acceptor/Outcomes.antt =====
-- When an acceptor is bound, and when it has accepted.
use corosh.Base.{◌≡◌, ◌⊎◌, false, arith}
use corosh.Errors.{ErrorCode, failed}
use corosh.Poll.{World, rc_ok}
use corosh.Poll.Outcomes.{eq_ℤ→eq}
use corosh.Acceptor.{Libssh, accept}

module _ (w : World) (lib : Libssh w.State) where
  -- An accept that reports no error has got a connection, and libssh has taken it, or has refused it while its
  -- error code was 0; the session does not block then.
  pub accept_success :
      (s : w.State) (ec : ErrorCode) (s' : w.State)
      → accept w lib s ≡ (ec, s')
      → failed ec ≡ false
      → (failed (lib.accept s).0 ≡ false)
        × (((lib.bind_accept_fd (lib.accept s).1).0 ≡ rc_ok)
            ⊎ (w.error_code (lib.bind_accept_fd (lib.accept s).1).1 ≡ 0))
        × (s' ≡ lib.set_blocking (lib.bind_accept_fd (lib.accept s).1).1)
  unfolding accept
  accept_success s ec s' e ok =
      ground (arith, eq_ℤ→eq (lib.bind_accept_fd (lib.accept s).1).0 rc_ok)
