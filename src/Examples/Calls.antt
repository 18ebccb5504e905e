-- ===== src/Examples/Calls.antt =====
-- A socket that is always ready, and calls of libssh that want to be called twice more. The state is the
-- number of calls so far.
use corosh.Base.{
  some, ℕ, zero, suc, ◌<◌, ◌≡◌, refl, true, false, Bool, [], ◌∷◌, none, arith, ◌==◌, ltb,
  if◌then◌else◌,
}
use corosh.Base.Int.{ℤ, pos}
use corosh.Errors.{ErrorCode, Category, no_error, ssh_error}
use corosh.Poll.{do_open, World, iterate, rc_ok, rc_error, rc_again, rc_eof, do_io}
use corosh.Poll.Outcomes.{readable, Pending, Retries, none_left, retry}
use corosh.Poll.Retries.{do_open-Retries}
use corosh.Channel.{ChannelCalls, read_some, read_sequence}
use corosh.Channel.Reading.{read_sequence_count, read_some_at_eof}

abbrev eof : ErrorCode
eof = record { value = 1; category = Category.capy }

-- Flags that are always the same, and an error code that is always the same.
abbrev pub ready : ℕ → ℕ → World
ready flags code = record {
  State = ℕ;
  poll_flags = λ s. (flags, s);
  error_code = λ s. code;
  is_open = λ s. true;
  wait_read = λ s. (no_error, s);
  wait_write = λ s. (no_error, s);
  wait_both = λ s. (no_error, s);
  timer = λ s. (no_error, s);
}

-- SSH_AGAIN twice, then the result.
abbrev pub third_time : ℤ → ℕ → ℤ × ℕ
third_time result s = if ltb s 2 then (rc_again, suc s) else (result, suc s)

one_wait : (s : ℕ) → s < 2 → Pending (ready 2 1) (third_time rc_ok) s (suc s)
one_wait zero h = record { again = refl; ready = readable refl refl refl }
one_wait (suc zero) h = record { again = refl; ready = readable refl refl refl }
one_wait (suc (suc s)) h = absurd (omega arith)

pub two_waits : Retries (ready 2 1) (third_time rc_ok) 2 0 2
two_waits = retry (one_wait 0 (omega arith)) (retry (one_wait 1 (omega arith)) (none_left 2))

-- Each call moves all bytes that fit, up to the second call, which fails.
abbrev two_calls : Bool → ℕ → ℕ → ℤ × ℕ
two_calls is_stderr size s = if s == 0 then (pos size, 1) else (rc_error, suc s)

abbrev calls : ChannelCalls ℕ
calls = record {
  poll_timeout = λ is_stderr s. (rc_eof, s);
  read_timeout = two_calls;
  write = two_calls;
  is_eof = λ s. false;
}

read_sequence_count_example : ◌≡◌ {A = ℕ} 0 0
unfolding read_sequence iterate do_io
read_sequence_count_example =
    read_sequence_count (ready 2 1) calls eof 5 false (4 ∷ 2 ∷ []) 0 (ssh_error 1) 0 2 refl

read_some_at_eof_example : read_some (ready 2 1) calls eof 9 16 false 0 ≡ none
read_some_at_eof_example =
    read_some_at_eof (ready 2 1) calls eof 9 16 false 0 (λ t. refl) (λ t. refl) (λ t. refl)

do_open-Retries_example : iterate 5 (do_open (ready 2 1) (third_time rc_ok)) 0 ≡ some (no_error, 3)
do_open-Retries_example =
    do_open-Retries (ready 2 1) (third_time rc_ok) 5 2 0 2 two_waits refl (omega arith)
