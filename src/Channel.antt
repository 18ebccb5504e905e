-- ===== src/Channel.antt =====
-- Reading and writing of `channel`: src/channel.cpp from line 418 on, and the templates over buffer
-- sequences of include/corosh/channel.hpp. Of a buffer its size is kept; `buffer += n` takes off `n`, at
-- most all. The state that a mutable lambda carries stands beside the state of the world.
pub mod Reading
pub mod Requests
pub mod Callbacks
use corosh.Base.{
  ℕ, zero, suc, ◌+◌, ◌-◌, Bool, true, false, not, ◌&&◌, List, [], ◌∷◌, Option, none, some, ◌==◌,
  if◌then◌else◌,
}
use corosh.Base.Int.{ℤ, pos, negsuc, eq_ℤ}
use corosh.Errors.{ErrorCode, no_error, failed}
use corosh.Poll.{World, Step, iterate, rc_again, rc_eof, do_some_io, do_io}

-- `ssh_channel_poll_timeout`, `ssh_channel_read_timeout`, `ssh_channel_write` with its variant for
-- stderr, and `ssh_channel_is_eof`; the Boolean is `is_stderr`, the number the size of the buffer.
pub record ChannelCalls (S : Type 0) : Type 0 where
  pub poll_timeout : Bool → S → ℤ × S
  pub read_timeout : Bool → ℕ → S → ℤ × S
  pub write : Bool → ℕ → S → ℤ × S
  pub is_eof : S → Bool

-- The captured copies `buffer` and `m` of a mutable lambda.
pub record Capture : Type 0 where
  pub left : ℕ
  pub m : ℕ

abbrev lifted : {S L A : Type 0} → (S → A × S) → S × L → A × (S × L)
lifted f (s, l) = ((f s).0, ((f s).1, l))

-- The world of a loop whose lambda carries such state.
abbrev pub with_capture : World → World
with_capture w = record {
  State = w.State × Capture;
  poll_flags = lifted w.poll_flags;
  error_code = λ s. w.error_code s.0;
  is_open = λ s. w.is_open s.0;
  wait_read = lifted w.wait_read;
  wait_write = lifted w.wait_write;
  wait_both = lifted w.wait_both;
  timer = lifted w.timer;
}

abbrev pub drop_capture : {A S : Type 0} → Option (A × (S × Capture)) → Option (A × S)
drop_capture none = none
drop_capture (some (r, s)) = some (r, s.0)

module _ (w : World) (calls : ChannelCalls w.State) (eof : ErrorCode) where
  -- `read_some`: the lambda, and the operation for a given number of rounds.
  unfoldable pub read_some_call : Bool → ℕ → w.State → ℤ × w.State
  read_some_call is_stderr size s =
      let (to, s') = calls.poll_timeout is_stderr s in
      if eq_ℤ to (pos 0)
      then (rc_again, s')
      else if eq_ℤ to rc_eof
      then (rc_eof, s')
      else calls.read_timeout is_stderr size s'

  unfoldable pub read_some : ℕ → ℕ → Bool → w.State → Option ((ErrorCode × ℕ) × w.State)
  unfolding read_some_call
  read_some fuel size is_stderr = iterate fuel (do_some_io w eof (read_some_call is_stderr size))

  unfoldable pub write_some : ℕ → ℕ → Bool → w.State → Option ((ErrorCode × ℕ) × w.State)
  write_some fuel size is_stderr = iterate fuel (do_some_io w eof (calls.write is_stderr size))

  -- The lambdas of `read` and `write`, which differ in the call that they make.
  transfer_result : ℤ → Capture → ℤ × Capture
  transfer_result (negsuc n) c = (negsuc n, c)
  transfer_result (pos n) c =
      let c' : Capture = record { left = c.left - n; m = c.m + n } in
      (if n == 0 then pos c'.m else rc_again, c')

  unfoldable pub transfer_call :
      (ℕ → w.State → ℤ × w.State) → w.State × Capture → ℤ × (w.State × Capture)
  unfolding transfer_result
  transfer_call call (s, c) =
      let (n, s') = call c.left s in let r = transfer_result n c in (r.0, (s', r.1))

  unfoldable pub transfer :
      (ℕ → w.State → ℤ × w.State) → ℕ → ℕ → w.State → Option ((ErrorCode × ℕ) × w.State)
  unfolding transfer_call
  transfer call fuel size s = drop_capture (
      iterate fuel (do_io (with_capture w) eof (transfer_call call))
        (s, record { left = size; m = 0 }))

  unfoldable pub read : ℕ → Bool → ℕ → w.State → Option ((ErrorCode × ℕ) × w.State)
  unfolding transfer
  read fuel is_stderr = transfer (calls.read_timeout is_stderr) fuel

  unfoldable pub write : ℕ → Bool → ℕ → w.State → Option ((ErrorCode × ℕ) × w.State)
  unfolding transfer
  write fuel is_stderr = transfer (calls.write is_stderr) fuel

  -- The templates `read` and `write` over a buffer sequence: `n` is 0 and never changes, since the loop adds
  -- it to `m`.
  unfoldable pub sequence :
      (ℕ → w.State → Option ((ErrorCode × ℕ) × w.State))
      → ℕ
      → List ℕ
      → w.State
      → Option ((ErrorCode × ℕ) × w.State)
  sequence one n [] s = some ((no_error, n), s)
  sequence one n (bf ∷ buffers) s = elim (one bf s) [
    | none ↦ none
    | some ((ec, m), s') ↦
        let ec' = if not (failed ec) && calls.is_eof s' then eof else ec in
        let rest = sequence one n buffers s' in if failed ec' then some ((ec', n), s') else rest
  ]

  unfoldable pub read_sequence : ℕ → Bool → List ℕ → w.State → Option ((ErrorCode × ℕ) × w.State)
  unfolding sequence read
  read_sequence fuel is_stderr buffers s = sequence (read fuel is_stderr) 0 buffers s

  unfoldable pub write_sequence : ℕ → Bool → List ℕ → w.State → Option ((ErrorCode × ℕ) × w.State)
  unfolding sequence write
  write_sequence fuel is_stderr buffers s = sequence (write fuel is_stderr) 0 buffers s

  -- The template `write_eof` over a buffer sequence; `send_eof` is `write_eof` without buffers.
  unfoldable pub write_eof_sequence :
      (w.State → Option (ErrorCode × w.State))
      → ℕ
      → Bool
      → List ℕ
      → w.State
      → Option ((ErrorCode × ℕ) × w.State)
  unfolding sequence write
  write_eof_sequence send_eof fuel is_stderr buffers s =
      elim (sequence (write fuel is_stderr) 0 buffers s) [
        | none ↦ none
        | some ((ec, n), s') ↦ elim (failed ec) [
          | true ↦ some ((ec, n), s')
          | false ↦ elim (send_eof s') [ none ↦ none | some (ec', s'') ↦ some ((ec', n), s'') ]
        ]
      ]

  -- `boost::capy::buffer_size`
  abbrev buffer_size : List ℕ → ℕ
  buffer_size [] = 0
  buffer_size (b ∷ buffers) = b + buffer_size buffers

  -- The template `read_some`: only the first buffer is used.
  abbrev some_sequence :
      (ℕ → w.State → Option ((ErrorCode × ℕ) × w.State))
      → List ℕ
      → w.State
      → Option ((ErrorCode × ℕ) × w.State)
  some_sequence one [] s = some ((no_error, 0), s)
  some_sequence one (b ∷ buffers) s =
      if buffer_size (b ∷ buffers) == 0 then some ((no_error, 0), s) else one b s

  unfoldable pub read_some_sequence :
      ℕ → List ℕ → Bool → w.State → Option ((ErrorCode × ℕ) × w.State)
  unfolding read_some
  read_some_sequence fuel buffers is_stderr s =
      some_sequence (λ b. read_some fuel b is_stderr) buffers s

  unfoldable pub write_some_sequence :
      ℕ → List ℕ → Bool → w.State → Option ((ErrorCode × ℕ) × w.State)
  unfolding write_some
  write_some_sequence fuel buffers is_stderr s =
      some_sequence (λ b. write_some fuel b is_stderr) buffers s
