-- ===== src/Poll/Retries.antt =====
-- The loop that the operations of channels and messages, and `connect`, go through to its end, and the
-- loop of authentication.
use corosh.Base.{ℕ, suc, ◌-◌, ◌<◌, ◌≡◌, ◌∙◌, some, arith}
use corosh.Base.Int.{ℤ, pos}
use corosh.Errors.{ErrorCode, no_error}
use corosh.Poll.{World, ret, again, iterate, rc_ok, auth_again, auth_error, do_open, do_auth}
use corosh.Poll.Loop.{Rounds, here, next, iterate_last, iterate-Rounds, iterate_one}
use corosh.Poll.Outcomes.{Pending, Pending-waited, Retries, none_left, retry, eq_ℤ→eq}

module _ (w : World) (f : w.State → ℤ × w.State) where
  do_open-Pending : (s t : w.State) → Pending w f s t → do_open w f s ≡ again t
  unfolding do_open
  do_open-Pending s t p = rw p.again (ground (arith, Pending-waited w f s t p))

  do_open_ok : (t : w.State) → (f t).0 ≡ rc_ok → do_open w f t ≡ ret no_error (f t).1
  unfolding do_open
  do_open_ok t e = rw e

  Retries-Rounds : {n : ℕ} {s t : w.State} → Retries w f n s t → Rounds (do_open w f) n s t
  Retries-Rounds (none_left s) = here s
  Retries-Rounds (retry {s = s} {t = t} p r) = next (do_open-Pending s t p) (Retries-Rounds r)

  -- The loop of channels and of messages, over any function of libssh: as often as the function returns SSH_AGAIN
  -- and the wait for what libssh has pending (reading, writing or both) succeeds, it is called again in
  -- the state behind the wait, and the loop ends with success once it returns SSH_OK; a fuel above the number
  -- of waits is enough.
  pub do_open-Retries :
      (fuel n : ℕ) (s t : w.State)
      → Retries w f n s t
      → (f t).0 ≡ rc_ok
      → n < fuel
      → iterate fuel (do_open w f) s ≡ some (no_error, (f t).1)
  do_open-Retries fuel n s t r fine enough =
      iterate-Rounds (do_open w f) fuel (suc (fuel - n - 1)) n s t (Retries-Rounds r) (omega arith)
      ∙ iterate_one _ (do_open w f) t (do_open_ok t fine)

  do_auth_last :
      (t : w.State) (ec : ErrorCode) (n : ℕ) (s' : w.State)
      → do_auth w f t ≡ ret (ec, pos n) s'
      → ((f t).0 ≡ pos n) × ((f t).1 ≡ s') × (ec ≡ no_error)
  unfolding do_auth
  do_auth_last t ec n s' e = ground (arith, eq_ℤ→eq (f t).0 auth_again, eq_ℤ→eq (f t).0 auth_error)

  -- A result of authentication that is not SSH_AUTH_ERROR is that of the last call of libssh.
  pub do_auth_result :
      (fuel : ℕ) (s : w.State) (ec : ErrorCode) (n : ℕ) (s' : w.State)
      → iterate fuel (do_auth w f) s ≡ some ((ec, pos n), s')
      → (t : w.State) × ((f t).0 ≡ pos n) × ((f t).1 ≡ s') × (ec ≡ no_error)
  do_auth_result fuel s ec n s' e =
      let (t, last) = iterate_last fuel (do_auth w f) s (ec, pos n) s' e in
      let r = do_auth_last t ec n s' last in (t, r.0, r.1, r.2)
