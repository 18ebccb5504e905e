-- ===== src/Examples/Programs.antt =====
-- Runs of the example server's parts.
use corosh.Base.{
  ℕ, suc, ◌≡◌, refl, true, false, List, [], ◌∷◌, ◌++◌, ◌^◌, Option, none, some, length, ltb,
  if◌then◌else◌, arith,
}
use corosh.Base.Host.{little}
use corosh.Base.Text.{bytes_of}
use corosh.Errors.{ErrorCode, no_error, failed}
use corosh.Poll.Loop.{Rounds, here, next}
use corosh.Channel.Callbacks.{ChannelCall, exec_request, subsystem_request, env_request}
use corosh.Handshake.{init_message}
use corosh.Handshake.Opening.{version_packet}
use corosh.Server.Worker.{Shared}
use corosh.Server.Serving.{serve, serve-init_message}
use corosh.Programs.Tracking.{
  System, Step, Reach, start, later, constructed, destroyed, called, resumed, waiting, returned,
  wait_ends, wait_success, wait, woken, track, complete,
}
use corosh.Programs.Requested.{
  fresh, arrive, last_decision, decision, some_ends, wait_for_channel_request,
  wait_for_channel_request_lem,
}
use corosh.Programs.Echo.{Stream, IsStream, echo, echo-Rounds}
use corosh.Examples.Protocol.{eof, disk_full}
use corosh.Examples.Openings.{pipe, extensions}

-- A channel that comes and goes while it is waited for.
abbrev gone : System
gone = record { tracked = record { event = true; working = 0 }; live = 0; waiter = waiting }

gone-Reach : Reach gone
unfolding wait track complete
gone-Reach =
    later (later (later start (constructed (omega arith) refl)) (called (λ e. cc) refl))
      (destroyed 0 refl refl)

wait_ends_example : (t : System) × Step gone t × (t.waiter ≡ returned no_error)
wait_ends_example = wait_ends gone gone-Reach refl refl

abbrev ended : System
ended = record {
  tracked = record { event = false; working = 0 };
  live = 0;
  waiter = returned no_error;
}

gone_ends : Step gone ended
unfolding wait woken
gone_ends = resumed no_error refl (λ ok. refl) refl

wait_success_example : ended.live ≡ 0
wait_success_example = wait_success gone ended no_error gone-Reach gone_ends (λ e. cc) refl refl

-- Something is executed, then the subsystem is asked for.
abbrev calls : List ChannelCall
calls =
    env_request (bytes_of "A") (bytes_of "b")
    ∷ exec_request (bytes_of "echo")
    ∷ subsystem_request (bytes_of "sftp")
    ∷ []

abbrev counted : ErrorCode → ℕ → ErrorCode × ℕ
counted ec s = (ec, suc s)

wait_for_channel_request_lem_example :
    (wait_for_channel_request (counted eof) (counted disk_full) calls 0 ≡ counted disk_full 0)
    × ((arrive calls fresh).cancelled ≡ some_ends calls)
unfolding last_decision decision
wait_for_channel_request_lem_example =
    wait_for_channel_request_lem (counted eof) (counted disk_full) calls 0

-- A stream that gives its first byte, and an error when there is none; the state is what is to come and what
-- has gone out.
abbrev Ends : Type 0
Ends = List ℕ × List ℕ

abbrev first_byte : Ends → (ErrorCode × List ℕ) × Ends
first_byte ([], out) = ((eof, []), ([], out))
first_byte (b ∷ rest, out) = ((no_error, b ∷ []), (rest, out))

abbrev stream : Stream Ends
stream = record {
  read_some = λ n s. first_byte s;
  write = λ bytes s. (no_error, (s.0, s.1 ++ bytes));
}

first_byte_in_order :
    (s : Ends) → failed (first_byte s).0.0 ≡ false → (first_byte s).0.1 ++ (first_byte s).1.0 ≡ s.0
first_byte_in_order ([], out) h = refl
first_byte_in_order (b ∷ rest, out) h = refl

first_byte_only : (s : Ends) → (first_byte s).1.1 ≡ s.1
first_byte_only ([], out) = refl
first_byte_only (b ∷ rest, out) = refl

stream-IsStream : IsStream stream (λ s. s.0) (λ s. s.1)
stream-IsStream = record {
  read_in_order = λ n s h. first_byte_in_order s h;
  read_only = λ n s. first_byte_only s;
  written = λ bytes s h. refl;
  write_only = λ bytes s. refl;
}

two-Rounds : Rounds (echo stream) 2 (7 ∷ 8 ∷ 9 ∷ [], []) (9 ∷ [], 7 ∷ 8 ∷ [])
unfolding echo
two-Rounds = next refl (next refl (here _))

echo-Rounds_example :
    (bytes : List ℕ) × (bytes ++ (9 ∷ []) ≡ 7 ∷ 8 ∷ 9 ∷ []) × (7 ∷ 8 ∷ [] ≡ [] ++ bytes)
echo-Rounds_example =
    echo-Rounds stream stream-IsStream (7 ∷ 8 ∷ 9 ∷ [], []) (9 ∷ [], 7 ∷ 8 ∷ []) two-Rounds

-- Workers are numbers, and `when_any` says how many there were.
abbrev count_workers : List ℕ → Shared (List ℕ) ℕ → Option ErrorCode × Shared (List ℕ) ℕ
count_workers ws s = (some eof, record s { server = length ws })

serve-init_message_example :
    serve (pipe (init_message little ++ [])) 3 count_workers 9 extensions 2 [] 0 ≡ (
      if ltb 3 (2 ^ 32)
      then some (eof, record { buffer = []; stream = version_packet extensions; server = 3 })
      else none)
serve-init_message_example =
    serve-init_message (pipe (init_message little ++ [])) 3 count_workers extensions [] 2 9 [] []
      (version_packet extensions) 0 (some eof)
      (record { buffer = []; stream = version_packet extensions; server = 3 }) (omega arith) refl
      refl (omega arith) refl
