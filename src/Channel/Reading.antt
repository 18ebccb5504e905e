-- ===== src/Channel/Reading.antt =====
-- What the readers and writers of a channel report.
use corosh.Base.{
  ℕ, ◌≡◌, Bool, List, [], ◌∷◌, Option, none, some, arith, Option-cases, Bool-cases, inl, inr,
}
use corosh.Base.Int.{ℤ}
use corosh.Errors.{ErrorCode, no_error, failed}
use corosh.Poll.{World, rc_eof, read_pending, do_some_io}
use corosh.Poll.Loop.{iterate_forever}
use corosh.Poll.Outcomes.{do_io_count}
use corosh.Channel.{
  ChannelCalls, Capture, with_capture, read_some_call, read_some, transfer, transfer_call, read,
  write, sequence, read_sequence, write_sequence, write_eof_sequence, drop_capture,
}

drop_capture-eq-some :
    {A S : Type 0} (o : Option (A × (S × Capture))) {r : A} {s : S}
    → drop_capture o ≡ some (r, s)
    → (t : S × Capture) × (o ≡ some (r, t))
drop_capture-eq-some none e = cc
drop_capture-eq-some (some (r, t)) e = (t, cc e)

module _ (w : World) (calls : ChannelCalls w.State) (eof : ErrorCode) where
  -- Whatever bytes libssh has moved, `read` and `write` of one buffer report a count of 0.
  pub transfer_count :
      (call : ℕ → w.State → ℤ × w.State) (fuel size : ℕ) (s : w.State) (ec : ErrorCode) (n : ℕ)
      (s' : w.State)
      → transfer w calls eof call fuel size s ≡ some ((ec, n), s')
      → n ≡ 0
  unfolding transfer
  transfer_count call fuel size s ec n s' e =
      let (t, returned) = drop_capture-eq-some _ e in
      do_io_count (with_capture w) (transfer_call w calls eof call) eof fuel
        (s, record { left = size; m = 0 }) ec n t returned

  -- The templates over a buffer sequence report a count of 0 as well, whatever buffers they are given and
  -- whatever has been read or written.
  sequence_count :
      (one : ℕ → w.State → Option ((ErrorCode × ℕ) × w.State)) (buffers : List ℕ) (s : w.State)
      (ec : ErrorCode) (n k : ℕ) (s' : w.State)
      → sequence w calls eof one k buffers s ≡ some ((ec, n), s')
      → n ≡ k
  unfolding sequence
  sequence_count one [] s ec n k s' e = ground arith
  sequence_count one (bf ∷ buffers) s ec n k s' e = elim (Option-cases (one bf s)) [
    | inl gone ↦ cc (rw (gone, sequence) at e)
    | inr (((ec', m), t), one_done) ↦
        ground (arith, rw (one_done, sequence) at e, sequence_count one buffers t ec n k s')
  ]

  -- `channel::read` over any buffers reports that no byte was read, whenever it returns.
  pub read_sequence_count :
      (fuel : ℕ) (is_stderr : Bool) (buffers : List ℕ) (s : w.State) (ec : ErrorCode) (n : ℕ)
      (s' : w.State)
      → read_sequence w calls eof fuel is_stderr buffers s ≡ some ((ec, n), s')
      → n ≡ 0
  unfolding read_sequence
  read_sequence_count fuel is_stderr buffers s ec n s' =
      sequence_count (read w calls eof fuel is_stderr) buffers s ec n 0 s'

  -- `channel::write` over any buffers reports that no byte was written, whenever it returns.
  pub write_sequence_count :
      (fuel : ℕ) (is_stderr : Bool) (buffers : List ℕ) (s : w.State) (ec : ErrorCode) (n : ℕ)
      (s' : w.State)
      → write_sequence w calls eof fuel is_stderr buffers s ≡ some ((ec, n), s')
      → n ≡ 0
  unfolding write_sequence
  write_sequence_count fuel is_stderr buffers s ec n s' =
      sequence_count (write w calls eof fuel is_stderr) buffers s ec n 0 s'

  -- `channel::write_eof` over any buffers reports that no byte was written, whenever it returns.
  pub write_eof_sequence_count :
      (send_eof : w.State → Option (ErrorCode × w.State)) (fuel : ℕ) (is_stderr : Bool)
      (buffers : List ℕ) (s : w.State) (ec : ErrorCode) (n : ℕ) (s' : w.State)
      → write_eof_sequence w calls eof send_eof fuel is_stderr buffers s ≡ some ((ec, n), s')
      → n ≡ 0
  unfolding write_eof_sequence
  write_eof_sequence_count send_eof fuel is_stderr buffers s ec n s' e =
      elim (Option-cases (sequence w calls eof (write w calls eof fuel is_stderr) 0 buffers s)) [
        | inl gone ↦ cc (rw (write_eof_sequence, gone) at e)
        | inr (((ec', m), t), sent) ↦
            let none_sent =
              sequence_count (write w calls eof fuel is_stderr) buffers s ec' m 0 t sent in
            elim (Bool-cases (failed ec')) [
              | inl bad ↦ ground (arith, rw (write_eof_sequence, sent, bad) at e, none_sent)
              | inr fine ↦ elim (Option-cases (send_eof t)) [
                | inl gone ↦ cc (rw (write_eof_sequence, sent, fine, gone) at e)
                | inr ((ec'', u), ended) ↦
                    ground (arith, rw (write_eof_sequence, sent, fine, ended) at e, none_sent)
              ]
            ]
      ]

  -- At the end of the remote side's data `read_some` does not report the end of file: where
  -- libssh says that the end is reached and that a read is pending, and the wait for the timer
  -- never fails, the operation returns in no number of rounds.
  pub read_some_at_eof :
      (fuel size : ℕ) (is_stderr : Bool) (s : w.State)
      → ((t : w.State) → (calls.poll_timeout is_stderr t).0 ≡ rc_eof)
      → ((t : w.State) → (w.poll_flags t).0 ≡ read_pending)
      → ((t : w.State) → (w.timer t).0 ≡ no_error)
      → read_some w calls eof fuel size is_stderr s ≡ none
  unfolding read_some
  read_some_at_eof fuel size is_stderr s at_end pending fine =
      iterate_forever fuel (do_some_io w eof (read_some_call w calls eof is_stderr size))
        (λ t. (w.timer (w.poll_flags (calls.poll_timeout is_stderr t).1).1).1) s
        (λ t.
          unfold do_some_io read_some_call in
          rw (
            at_end t,
            pending (calls.poll_timeout is_stderr t).1,
            fine (w.poll_flags (calls.poll_timeout is_stderr t).1).1,
          ))
