-- ===== src/Session/Outcomes.antt =====
-- What the operations of sessions, channels and messages return, and when.
use corosh.Base.{ℕ, Bool-cases, true, false, ◌<◌, ◌≡◌, ◌⊎◌, inl, inr, Option, none, some}
use corosh.Base.Int.{ℤ, pos, eq_ℤ}
use corosh.Errors.{ErrorCode, no_error, failed}
use corosh.Poll.{World, rc_ok, rc_error}
use corosh.Poll.Outcomes.{Retries, do_open_success, eq_ℤ→eq}
use corosh.Poll.Retries.{do_open-Retries, do_auth_result}
use corosh.Session as S
use corosh.Session.{returned, Userauth, connect, returning}
use corosh.Channel.Requests as C
use corosh.Message as M

-- Whatever the operation of a channel and its arguments, as often as libssh asks to be called again
-- and each wait for what it has pending succeeds, the operation calls the same function again, and
-- returns success once that returns SSH_OK.
pub perform-Retries :
    (w : World) (lib : C.Libssh w.State) (op : C.Operation) (fuel n : ℕ) (s t : w.State)
    → Retries w (C.call_of w lib op) n s t
    → (C.call_of w lib op t).0 ≡ rc_ok
    → n < fuel
    → C.perform w lib fuel op s ≡ some (no_error, (C.call_of w lib op t).1)
unfolding C.perform
perform-Retries w lib op fuel n s t = do_open-Retries w (C.call_of w lib op) fuel n s t

-- A reply to a message reports success only if the last call of its function of libssh returned SSH_OK, or
-- returned SSH_ERROR while the error code of libssh was 0.
pub send_reply_success :
    (w : World) (lib : M.Libssh w.State) (reply : M.Reply) (fuel : ℕ) (s : w.State) (ec : ErrorCode)
    (s' : w.State)
    → M.send_reply w lib fuel reply s ≡ some (ec, s')
    → failed ec ≡ false
    → (t : w.State) × ((M.reply_call w lib reply t).1 ≡ s')
      × (((M.reply_call w lib reply t).0 ≡ rc_ok)
          ⊎ (((M.reply_call w lib reply t).0 ≡ rc_error) × (w.error_code s' ≡ 0)))
unfolding M.send_reply
send_reply_success w lib reply fuel s ec s' e ok =
    do_open_success w (M.reply_call w lib reply) fuel s ec s' e ok

-- An authentication that returns another result than SSH_AUTH_ERROR, for example success, is one that the
-- version of libssh has, has no error code, and its result is that of the last call of its function of
-- libssh.
pub authenticate_result :
    (w : World) (lib : S.Libssh w.State) (version_minor fuel : ℕ) (method : Userauth) (s : w.State)
    (ec : ErrorCode) (n : ℕ) (s' : w.State)
    → S.authenticate w lib version_minor fuel method s ≡ some ((ec, pos n), s')
    → (S.supported w lib version_minor method ≡ true)
      × (ec ≡ no_error)
      × (t : w.State) × ((S.auth_call w lib version_minor method t).0 ≡ pos n)
      × ((S.auth_call w lib version_minor method t).1 ≡ s')
unfolding S.authenticate
authenticate_result w lib version_minor fuel method s ec n s' e =
    elim (Bool-cases (S.supported w lib version_minor method)) [
      | inl p ↦
          let r =
            do_auth_result w (S.auth_call w lib version_minor method) fuel s ec n s' (rw p at e) in
          (p, r.3, r.0, r.1, r.2)
      | inr p ↦ absurd (cc (rw p at e))
    ]

module _ (w : World) (lib : S.Libssh w.State) where
  -- The state behind the socket's `connect`, and that behind setting the option `fd`.
  abbrev connected : w.State → ErrorCode × w.State
  connected s = lib.socket_connect (lib.socket_open s)

  abbrev prepared : w.State → ℤ × w.State
  prepared s = lib.set_fd (connected s).1

  returning_last :
      (r : Option (ErrorCode × w.State)) (ec : ErrorCode) (s' : w.State)
      → returning w lib r ≡ some (returned ec, s')
      → r ≡ some (ec, s')
  returning_last none ec s' e = cc
  returning_last (some (ec', s1)) ec s' e = cc

  -- A session reports that it is connected only if the socket has connected, libssh has taken the socket,
  -- and the last `ssh_connect` returned SSH_OK, or returned SSH_ERROR while the error code of libssh
  -- was 0.
  pub connect_success :
      (fuel : ℕ) (s : w.State) (ec : ErrorCode) (s' : w.State)
      → connect w lib fuel s ≡ some (returned ec, s')
      → failed ec ≡ false
      → (failed (connected s).0 ≡ false)
        × ((prepared s).0 ≡ rc_ok)
        × (t : w.State) × ((lib.connect t).1 ≡ s')
        × (((lib.connect t).0 ≡ rc_ok) ⊎ (((lib.connect t).0 ≡ rc_error) × (w.error_code s' ≡ 0)))
  unfolding connect
  connect_success fuel s ec s' e ok = elim (Bool-cases (failed (connected s).0)) [
    | inl bad ↦ absurd (cc (rw bad at e))
    | inr fine ↦ elim (Bool-cases (eq_ℤ (prepared s).0 rc_ok)) [
      | inl set ↦
          let r =
            do_open_success w lib.connect fuel (lib.set_blocking (prepared s).1) ec s'
              (returning_last _ ec s' (rw (fine, set) at e)) ok in
          (fine, eq_ℤ→eq _ _ set, r.0, r.1, r.2)
      | inr unset ↦ absurd (cc (rw (fine, unset) at e))
    ]
  ]

  -- Once the socket has connected and libssh has taken it, as often as `ssh_connect` asks to be called again
  -- and each wait for what it has pending succeeds, it is called again, and the session reports success
  -- once it returns SSH_OK.
  pub connect-Retries :
      (fuel n : ℕ) (s t : w.State)
      → failed (connected s).0 ≡ false
      → (prepared s).0 ≡ rc_ok
      → Retries w lib.connect n (lib.set_blocking (prepared s).1) t
      → (lib.connect t).0 ≡ rc_ok
      → n < fuel
      → connect w lib fuel s ≡ some (returned no_error, (lib.connect t).1)
  unfolding connect
  connect-Retries fuel n s t fine set r ok enough = rw (
    fine,
    set,
    do_open-Retries w lib.connect fuel n (lib.set_blocking (prepared s).1) t r ok enough,
  )
