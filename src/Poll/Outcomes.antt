-- ===== src/Poll/Outcomes.antt =====
-- What the loops return, and when.
use corosh.Base.{ℕ, zero, suc, ◌-◌, ◌<◌, ◌≡◌, ◌⊎◌, refl, ◌∙◌, true, false, none, some, arith}
use corosh.Base.Int.{ℤ, pos, negsuc, eq_ℤ}
use corosh.Errors.{ErrorCode, no_error, failed, ssh_error, ssh_fatal}
use corosh.Poll.{
  World, ret, again, iterate, rc_ok, rc_error, rc_again, not_connected, wait_pending, do_open,
  do_op, do_some_io, do_io,
}
use corosh.Poll.Loop.{
  Rounds, here, next, iterate_last, iterate-Rounds, iterate_one, iterate_forever,
}

pub eq_ℤ→eq : (a b : ℤ) → eq_ℤ a b ≡ true → a ≡ b
eq_ℤ→eq (pos a) (pos b) h = ground arith
eq_ℤ→eq (pos a) (negsuc b) h = cc
eq_ℤ→eq (negsuc a) (pos b) h = cc
eq_ℤ→eq (negsuc a) (negsuc b) h = ground arith

-- A wait that succeeds, for reading, for writing or for both, as the flags of libssh say: SSH_READ_PENDING is 2
-- and SSH_WRITE_PENDING is 8.
pub data Ready (w : World) (flags : ℕ) (s t : w.State) : Type 0 where
  readable :
      flags ≡ 2 → failed (w.wait_read s).0 ≡ false → (w.wait_read s).1 ≡ t → Ready w flags s t
  writable :
      flags ≡ 8 → failed (w.wait_write s).0 ≡ false → (w.wait_write s).1 ≡ t → Ready w flags s t
  both : flags ≡ 10 → failed (w.wait_both s).0 ≡ false → (w.wait_both s).1 ≡ t → Ready w flags s t

wait_pending-Ready :
    (w : World) (s t : w.State)
    → Ready w (w.poll_flags s).0 (w.poll_flags s).1 t
    → ((wait_pending w w.wait_read not_connected s).1 ≡ t)
      × (failed (wait_pending w w.wait_read not_connected s).0 ≡ false)
wait_pending-Ready w s t (readable flags fine waited) = rw flags (waited, fine)
wait_pending-Ready w s t (writable flags fine waited) = rw flags (waited, fine)
wait_pending-Ready w s t (both flags fine waited) = rw flags (waited, fine)

module _ (w : World) (f : w.State → ℤ × w.State) where
  do_op_last :
      (t : w.State) (ec : ErrorCode) (s' : w.State)
      → do_op w f t ≡ ret ec s'
      → failed ec ≡ false
      → ((f t).0 ≡ rc_ok) × ((f t).1 ≡ s')
  unfolding do_op
  do_op_last t ec s' e ok = ground (arith, eq_ℤ→eq (f t).0 rc_ok, eq_ℤ→eq (f t).0 rc_error)

  do_open_last :
      (t : w.State) (ec : ErrorCode) (s' : w.State)
      → do_open w f t ≡ ret ec s'
      → failed ec ≡ false
      → ((f t).1 ≡ s') × (((f t).0 ≡ rc_ok) ⊎ (((f t).0 ≡ rc_error) × (w.error_code s' ≡ 0)))
  unfolding do_open
  do_open_last t ec s' e ok = ground (arith, eq_ℤ→eq (f t).0 rc_ok, eq_ℤ→eq (f t).0 rc_error)

  do_io_last :
      (eof : ErrorCode) (t : w.State) (ec : ErrorCode) (n : ℕ) (s' : w.State)
      → do_io w eof f t ≡ ret (ec, n) s'
      → n ≡ 0
  unfolding do_io
  do_io_last eof t ec n s' e = ground (arith, eq_ℤ→eq (f t).0 rc_ok, eq_ℤ→eq (f t).0 rc_error)

  do_some_io_last :
      (eof : ErrorCode) (t : w.State) (ec : ErrorCode) (n : ℕ) (s' : w.State)
      → failed eof ≡ true
      → do_some_io w eof f t ≡ ret (ec, n) s'
      → 0 < n
      → ((f t).0 ≡ pos n) × ((f t).1 ≡ s') × (ec ≡ no_error)
  unfolding do_some_io
  do_some_io_last eof t ec n s' bad e some_bytes = positive_cases (f t).0 refl
    where
      positive_cases :
          (rc : ℤ) → (f t).0 ≡ rc → ((f t).0 ≡ pos n) × ((f t).1 ≡ s') × (ec ≡ no_error)
      positive_cases (pos k) p = ground arith
      positive_cases (negsuc k) p = ground arith

  -- `session::do_op_` reports success only if its last call of libssh returned SSH_OK.
  pub do_op_success :
      (fuel : ℕ) (s : w.State) (ec : ErrorCode) (s' : w.State)
      → iterate fuel (do_op w f) s ≡ some (ec, s')
      → failed ec ≡ false
      → (t : w.State) × ((f t).0 ≡ rc_ok) × ((f t).1 ≡ s')
  do_op_success fuel s ec s' e ok =
      let (t, last) = iterate_last fuel (do_op w f) s ec s' e in
      let r = do_op_last t ec s' last ok in (t, r.0, r.1)

  -- `channel::do_open_` and `message::do_op_` report success only if their last call of libssh returned
  -- SSH_OK, or returned SSH_ERROR while the error code of libssh was 0.
  pub do_open_success :
      (fuel : ℕ) (s : w.State) (ec : ErrorCode) (s' : w.State)
      → iterate fuel (do_open w f) s ≡ some (ec, s')
      → failed ec ≡ false
      → (t : w.State) × ((f t).1 ≡ s')
        × (((f t).0 ≡ rc_ok) ⊎ (((f t).0 ≡ rc_error) × (w.error_code s' ≡ 0)))
  do_open_success fuel s ec s' e ok =
      let (t, last) = iterate_last fuel (do_open w f) s ec s' e in
      let r = do_open_last t ec s' last ok in (t, r.0, r.1)

  -- Where libssh fails with the error code 0, `session::do_op_` reports SSH_FATAL at once, and
  -- `channel::do_open_` and `message::do_op_` report success.
  pub error_without_code :
      (fuel : ℕ) (s : w.State)
      → (f s).0 ≡ rc_error
      → w.error_code (f s).1 ≡ 0
      → (iterate (suc fuel) (do_op w f) s ≡ some (ssh_fatal, (f s).1))
        × (iterate (suc fuel) (do_open w f) s ≡ some (ssh_error 0, (f s).1))
  unfolding iterate do_op do_open
  error_without_code fuel s failing no_code = (ground arith, ground arith)

  -- A round in which libssh asks to be called again, and the wait for what it has pending succeeds.
  pub record Pending (s t : w.State) : Type 0 where
    pub again : (f s).0 ≡ rc_again
    pub ready : Ready w (w.poll_flags (f s).1).0 (w.poll_flags (f s).1).1 t

  pub Pending-waited :
      (s t : w.State)
      → Pending s t
      → ((wait_pending w w.wait_read not_connected (f s).1).1 ≡ t)
        × (failed (wait_pending w w.wait_read not_connected (f s).1).0 ≡ false)
  Pending-waited s t p = wait_pending-Ready w (f s).1 t p.ready

  -- So many such rounds in a row lead from one state to the other.
  pub data Retries : ℕ → w.State → w.State → Type 0 where
    none_left : (s : w.State) → Retries zero s s
    retry : {n : ℕ} {s t u : w.State} → Pending s t → Retries n t u → Retries (suc n) s u

  do_op-Pending : (s t : w.State) → Pending s t → do_op w f s ≡ again t
  unfolding do_op
  do_op-Pending s t p = rw p.again (ground (arith, Pending-waited s t p))

  do_op_ok : (t : w.State) → (f t).0 ≡ rc_ok → do_op w f t ≡ ret no_error (f t).1
  unfolding do_op
  do_op_ok t e = rw e

  do_op_idle :
      (t : w.State)
      → (f t).0 ≡ rc_again
      → (w.poll_flags (f t).1).0 ≡ 0
      → do_op w f t ≡ ret not_connected (w.poll_flags (f t).1).1
  unfolding do_op
  do_op_idle t e idle = rw (e, idle)

  Retries-Rounds : {n : ℕ} {s t : w.State} → Retries n s t → Rounds (do_op w f) n s t
  Retries-Rounds (none_left s) = here s
  Retries-Rounds (retry {s = s} {t = t} p r) = next (do_op-Pending s t p) (Retries-Rounds r)

  -- However often libssh asks to be called again, as long as each wait for what it has pending
  -- succeeds, `session::do_op_` calls it again, and returns success once it returns SSH_OK.
  pub do_op-Retries :
      (fuel n : ℕ) (s t : w.State)
      → Retries n s t
      → (f t).0 ≡ rc_ok
      → n < fuel
      → iterate fuel (do_op w f) s ≡ some (no_error, (f t).1)
  do_op-Retries fuel n s t r fine enough =
      iterate-Rounds (do_op w f) fuel (suc (fuel - n - 1)) n s t (Retries-Rounds r) (omega arith)
      ∙ iterate_one _ (do_op w f) t (do_op_ok t fine)

  -- Where libssh always asks to be called again with no flag pending, `session::do_op_` reports
  -- in its first round that it is not connected, while `channel::do_some_io_` and
  -- `channel::do_io_` call again without any wait and return in no number of rounds.
  pub no_flags_pending :
      (eof : ErrorCode) (fuel : ℕ) (s : w.State)
      → ((t : w.State) → (f t).0 ≡ rc_again)
      → ((t : w.State) → (w.poll_flags t).0 ≡ 0)
      → (iterate (suc fuel) (do_op w f) s ≡ some (not_connected, (w.poll_flags (f s).1).1))
        × (iterate fuel (do_some_io w eof f) s ≡ none)
        × (iterate fuel (do_io w eof f) s ≡ none)
  no_flags_pending eof fuel s always idle = (
    iterate_one fuel (do_op w f) s (do_op_idle s (always s) (idle (f s).1)),
    iterate_forever fuel (do_some_io w eof f) (λ t. (w.poll_flags (f t).1).1) s
        (λ t. unfold do_some_io in rw (always t, idle (f t).1)),
    iterate_forever fuel (do_io w eof f) (λ t. (w.poll_flags (f t).1).1) s
        (λ t. unfold do_io in rw (always t, idle (f t).1)),
  )

  -- `channel::do_io_` never counts a byte.
  pub do_io_count :
      (eof : ErrorCode) (fuel : ℕ) (s : w.State) (ec : ErrorCode) (n : ℕ) (s' : w.State)
      → iterate fuel (do_io w eof f) s ≡ some ((ec, n), s')
      → n ≡ 0
  do_io_count eof fuel s ec n s' e =
      let (t, last) = iterate_last fuel (do_io w eof f) s (ec, n) s' e in
      do_io_last eof t ec n s' last

  -- `channel::do_some_io_`, with an end-of-file code that is an error, returns a positive count
  -- only without an error, and then it is what its last call of libssh returned.
  pub do_some_io_count :
      (eof : ErrorCode) (fuel : ℕ) (s : w.State) (ec : ErrorCode) (n : ℕ) (s' : w.State)
      → failed eof ≡ true
      → iterate fuel (do_some_io w eof f) s ≡ some ((ec, n), s')
      → 0 < n
      → (ec ≡ no_error) × (t : w.State) × ((f t).0 ≡ pos n) × ((f t).1 ≡ s')
  do_some_io_count eof fuel s ec n s' bad e some_bytes =
      let (t, last) = iterate_last fuel (do_some_io w eof f) s (ec, n) s' e in
      let r = do_some_io_last eof t ec n s' bad last some_bytes in (r.2, t, r.0, r.1)
