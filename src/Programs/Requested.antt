-- ===== src/Programs/Requested.antt =====
-- `channel_callbacks` and `wait_for_channel_request` of example/server.cpp: the requests on a channel decide
-- what is done with it.
use corosh.Base.{
  ◌≡◌, refl, ap, ◌∙◌, Bool, true, false, ◌||◌, List, [], ◌∷◌, Option, none, some, same_bytes,
  if◌then◌else◌, arith,
}
use corosh.Base.Text.{Text}
use corosh.Errors.{ErrorCode}
use corosh.Poll.{generic_error, broken_pipe}
use corosh.Channel.Callbacks.{
  ChannelCallbacks, ChannelCall, signal, exit_status, exit_signal, x11_req, close, pty_request,
  pty_window_change, shell_request, exec_request, env_request, subsystem_request, channel_lambda,
}

-- The functions that `work` points to.
pub data Work : Type 0 where
  on_timeout on_closed run_shell run_sftp : Work

-- The object; `cancelled` says that the wait for the timer has been cancelled.
pub record Requested : Type 0 where
  pub work : Work
  pub cancelled : Bool

abbrev pub fresh : Requested
fresh = record { work = on_timeout; cancelled = false }

-- "echo" and "sftp"
abbrev pub echo_text : Text
echo_text = b'e' ∷ b'c' ∷ b'h' ∷ b'o' ∷ []

abbrev pub sftp_text : Text
sftp_text = b's' ∷ b'f' ∷ b't' ∷ b'p' ∷ []

abbrev doing : Work → Requested
doing f = record { work = f; cancelled = true }

-- The overridden functions; the others are those of the base class.
abbrev pub channel_callbacks : ChannelCallbacks Requested
channel_callbacks = record {
  signal = λ sig s. s;
  exit_status = λ status s. s;
  exit_signal = λ sig core errmsg lang s. s;
  x11_req = λ single_connection auth_protocol auth_cookie screen_number s. s;
  close = λ s. doing on_closed;
  pty_request = λ term width height pxwidth pwheight s. (false, s);
  pty_window_change = λ width height pxwidth pwheight s. (false, s);
  shell_request = λ s. (true, doing run_shell);
  exec_request = λ command s.
      if same_bytes command echo_text
      then (true, doing run_shell)
      else (false, record s { cancelled = true });
  env_request = λ env_name env_value s. (true, s);
  subsystem_request = λ subsystem s.
      if same_bytes subsystem sftp_text then (true, record s { work = run_sftp }) else (false, s);
}

-- The calls of libssh that arrive, one after the other.
pub arrive : List ChannelCall → Requested → Requested
arrive [] s = s
arrive (c ∷ cs) s = arrive cs (channel_lambda channel_callbacks c s).1

-- The coroutine: it waits for the timer, while calls arrive, destroys the object, and runs the function.
-- `echo` is `run_shell`, `sftp` is `run_sftp`; the other two return a code at once.
module _ {S : Type 0} (echo sftp : S → ErrorCode × S) where
  unfoldable pub run : Work → S → ErrorCode × S
  run on_timeout s = (generic_error 110, s)
  run on_closed s = (broken_pipe, s)
  run run_shell s = echo s
  run run_sftp s = sftp s

  unfoldable pub wait_for_channel_request : List ChannelCall → S → ErrorCode × S
  unfolding run arrive
  wait_for_channel_request calls s = run (arrive calls fresh).work s

-- What a call asks to be done, and whether it ends the wait for the timer.
unfoldable pub decision : ChannelCall → Option Work
decision close = some on_closed
decision shell_request = some run_shell
decision (exec_request command) = if same_bytes command echo_text then some run_shell else none
decision (subsystem_request subsystem) =
    if same_bytes subsystem sftp_text then some run_sftp else none
decision _ = none

abbrev pub ends_wait : ChannelCall → Bool
ends_wait close = true
ends_wait shell_request = true
ends_wait (exec_request command) = true
ends_wait _ = false

-- The last decision, of some calls, or else the one before.
abbrev or_else : Option Work → Work → Work
or_else none f = f
or_else (some g) f = g

unfoldable pub last_decision : Work → List ChannelCall → Work
last_decision f [] = f
last_decision f (c ∷ cs) = last_decision (or_else (decision c) f) cs

pub some_ends : List ChannelCall → Bool
some_ends [] = false
some_ends (c ∷ cs) = ends_wait c || some_ends cs

-- One call.
call_lem :
    (c : ChannelCall) (s : Requested)
    → (channel_lambda channel_callbacks c s).1
      ≡ record { work = or_else (decision c) s.work; cancelled = ends_wait c || s.cancelled }
unfolding channel_lambda decision
call_lem (signal sig) s = refl
call_lem (exit_status status) s = refl
call_lem (exit_signal sig core errmsg lang) s = refl
call_lem (x11_req single_connection auth_protocol auth_cookie screen_number) s = refl
call_lem close s = refl
call_lem (pty_request term width height pxwidth pwheight) s = refl
call_lem (pty_window_change width height pxwidth pwheight) s = refl
call_lem shell_request s = refl
call_lem (exec_request command) s = ground arith
call_lem (env_request env_name env_value) s = refl
call_lem (subsystem_request subsystem) s = ground arith

or_assoc : (a b c : Bool) → (a || (b || c)) ≡ ((b || a) || c)
or_assoc true true c = refl
or_assoc true false c = refl
or_assoc false true c = refl
or_assoc false false c = refl

or_false : (a : Bool) → (a || false) ≡ a
or_false true = refl
or_false false = refl

arrive_lem :
    (cs : List ChannelCall) (s : Requested)
    → arrive cs s
      ≡ record { work = last_decision s.work cs; cancelled = some_ends cs || s.cancelled }
unfolding arrive last_decision some_ends
arrive_lem [] s = refl
arrive_lem (c ∷ cs) s =
    ap (arrive cs) (call_lem c s)
    ∙ arrive_lem cs _
    ∙ ap (λ b. record { work = last_decision (or_else (decision c) s.work) cs; cancelled = b })
        (or_assoc (some_ends cs) (ends_wait c) s.cancelled)

run_lem :
    {S : Type 0} (echo sftp : S → ErrorCode × S) (f : Work) (s : S)
    → run echo sftp f s ≡ elim f [
      | on_timeout ↦ (generic_error 110, s)
      | on_closed ↦ (broken_pipe, s)
      | run_shell ↦ echo s
      | run_sftp ↦ sftp s
    ]
unfolding run
run_lem echo sftp on_timeout s = refl
run_lem echo sftp on_closed s = refl
run_lem echo sftp run_shell s = refl
run_lem echo sftp run_sftp s = refl

-- Whatever calls arrive on a channel before its coroutine goes on, the last one that decides (a close, a
-- request for a shell, to execute "echo", or for the subsystem "sftp") says what it does: it returns a
-- broken pipe for a close, echoes for a shell and for "echo", and serves SFTP for "sftp"; and without one it
-- returns that it has timed out. The wait is ended early just if a close or a request for a
-- shell or to execute anything is among them, so not by those for "sftp".
pub wait_for_channel_request_lem :
    {S : Type 0} (echo sftp : S → ErrorCode × S) (calls : List ChannelCall) (s : S)
    → (wait_for_channel_request echo sftp calls s ≡ elim (last_decision on_timeout calls) [
      | on_timeout ↦ (generic_error 110, s)
      | on_closed ↦ (broken_pipe, s)
      | run_shell ↦ echo s
      | run_sftp ↦ sftp s
    ])
      × ((arrive calls fresh).cancelled ≡ some_ends calls)
unfolding wait_for_channel_request run
wait_for_channel_request_lem echo sftp calls s = (
  ap (λ (r : Requested). run echo sftp r.work s) (arrive_lem calls fresh)
      ∙ run_lem echo sftp (last_decision on_timeout calls) s,
  ap (λ (r : Requested). r.cancelled) (arrive_lem calls fresh) ∙ or_false (some_ends calls),
)
