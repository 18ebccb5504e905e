-- ===== src/Channel/Requests.antt =====
-- The operations of `channel` that each repeat one call of libssh in `do_open_`, and `get_exit_state`:
-- src/channel.cpp from line 65 to line 332.
use corosh.Base.{ℕ, Bool, not, List, [], Option, none, some}
use corosh.Base.Int.{ℤ, pos, eq_ℤ}
use corosh.Base.Text.{Text}
use corosh.Errors.{ErrorCode}
use corosh.Poll as P
use corosh.Poll.{World, iterate, do_open}

-- The functions of libssh that the operations call on their channel, named without `ssh_channel_`;
-- `exit_state` gives what it stores behind its three pointers too.
pub record Libssh (S : Type 0) : Type 0 where
  pub open_session : S → ℤ × S
  pub open_auth_agent : S → ℤ × S
  pub open_forward : Text → ℤ → Text → ℤ → S → ℤ × S
  pub open_reverse_forward : Text → ℤ → Text → ℤ → S → ℤ × S
  pub open_forward_unix : Text → Text → ℤ → S → ℤ × S
  pub open_x11 : Text → ℤ → S → ℤ × S
  pub request_env : Text → Text → S → ℤ × S
  pub request_exec : Text → S → ℤ × S
  pub request_send_signal : Text → S → ℤ × S
  pub request_subsystem : Text → S → ℤ × S
  pub request_pty : S → ℤ × S
  pub request_shell : S → ℤ × S
  pub request_sftp : S → ℤ × S
  pub request_auth_agent : S → ℤ × S
  pub request_pty_size : Text → ℤ → ℤ → S → ℤ × S
  pub request_pty_size_modes : Text → ℤ → ℤ → List ℕ → ℕ → S → ℤ × S
  pub request_send_break : ℕ → S → ℤ × S
  pub request_x11 : ℤ → Text → Text → ℤ → S → ℤ × S
  pub request_send_exit_status : ℤ → S → ℤ × S
  pub request_send_exit_signal : Text → ℤ → Text → Text → S → ℤ × S
  pub change_pty_size : ℤ → ℤ → S → ℤ × S
  pub send_eof : S → ℤ × S
  pub exit_state : S → (ℤ × (ℕ × Option Text × ℤ)) × S

-- The operations that open the channel, with their arguments.
pub data Opening : Type 0 where
  open_session open_auth_agent : Opening
  open_forward : (remotehost : Text) (remoteport : ℤ) (sourcehost : Text) (localport : ℤ) → Opening
  open_forward_unix : (remotepath sourcehost : Text) (localport : ℤ) → Opening
  open_x11 : (orig_addr : Text) (orig_port : ℤ) → Opening
  open_reverse_forward :
      (remotehost : Text) (remoteport : ℤ) (sourcehost : Text) (localport : ℤ) → Opening

-- The requests on an open channel.
pub data Request : Type 0 where
  request_env : (name value : Text) → Request
  request_exec : (cmd : Text) → Request
  request_pty : Request
  request_pty_size : (term : Text) (cols rows : ℤ) → Request
  request_pty_size_modes : (term : Text) (cols rows : ℤ) (modes : List ℕ) (modes_len : ℕ) → Request
  request_shell : Request
  request_send_signal : (signum : Text) → Request
  request_send_break : (break_length : ℕ) → Request
  request_sftp : Request
  request_subsystem : (subsystem : Text) → Request
  request_x11 : (single_connection : ℤ) (protocol cookie : Text) (screen_number : ℤ) → Request
  request_auth_agent : Request
  request_send_exit_status : (exit_status : ℤ) → Request
  request_send_exit_signal : (signum : Text) (core : ℤ) (errmsg lang : Text) → Request
  change_pty_size : (cols rows : ℤ) → Request
  write_eof : Request

pub data Operation : Type 0 where
  opening : Opening → Operation
  request : Request → Operation

pub record ExitState : Type 0 where
  pub exit_code : ℕ
  pub exit_signal : Text
  pub core_dumped : Bool

-- `exit_state{}`
abbrev pub empty_state : ExitState
empty_state = record { exit_code = 0; exit_signal = []; core_dumped = not (eq_ℤ (pos 0) (pos 0)) }

-- The exit state that the results behind the pointers make.
abbrev pub to_exit_state : ℕ × Option Text × ℤ → ExitState
to_exit_state (code, none, core) = record {
  exit_code = code;
  exit_signal = [];
  core_dumped = not (eq_ℤ core (pos 0));
}
to_exit_state (code, some sig, core) = record {
  exit_code = code;
  exit_signal = sig;
  core_dumped = not (eq_ℤ core (pos 0));
}

module _ (w : World) (lib : Libssh w.State) where
  -- The lambdas that the operations hand to `do_open_`.
  unfoldable pub open_call : Opening → w.State → ℤ × w.State
  open_call open_session = lib.open_session
  open_call open_auth_agent = lib.open_auth_agent
  open_call (open_forward remotehost remoteport sourcehost localport) =
      lib.open_forward remotehost remoteport sourcehost localport
  open_call (open_forward_unix remotepath sourcehost localport) =
      lib.open_forward_unix remotepath sourcehost localport
  open_call (open_x11 orig_addr orig_port) = lib.open_x11 orig_addr orig_port
  open_call (open_reverse_forward remotehost remoteport sourcehost localport) =
      lib.open_reverse_forward remotehost remoteport sourcehost localport

  unfoldable pub request_call : Request → w.State → ℤ × w.State
  request_call (request_env name value) = lib.request_env name value
  request_call (request_exec cmd) = lib.request_exec cmd
  request_call request_pty = lib.request_pty
  request_call (request_pty_size term cols rows) = lib.request_pty_size term cols rows
  request_call (request_pty_size_modes term cols rows modes modes_len) =
      lib.request_pty_size_modes term cols rows modes modes_len
  request_call request_shell = lib.request_shell
  request_call (request_send_signal signum) = lib.request_send_signal signum
  request_call (request_send_break break_length) = lib.request_send_break break_length
  request_call request_sftp = lib.request_sftp
  request_call (request_subsystem subsystem) = lib.request_subsystem subsystem
  request_call (request_x11 single_connection protocol cookie screen_number) =
      lib.request_x11 single_connection protocol cookie screen_number
  request_call request_auth_agent = lib.request_auth_agent
  request_call (request_send_exit_status exit_status) = lib.request_send_exit_status exit_status
  request_call (request_send_exit_signal signum core errmsg lang) =
      lib.request_send_exit_signal signum core errmsg lang
  request_call (change_pty_size cols rows) = lib.change_pty_size cols rows
  request_call write_eof = lib.send_eof

  unfoldable pub call_of : Operation → w.State → ℤ × w.State
  call_of (opening o) = open_call o
  call_of (request r) = request_call r

  -- The operation, for a given number of rounds.
  unfoldable pub perform : ℕ → Operation → w.State → Option (ErrorCode × w.State)
  unfolding call_of
  perform fuel op = iterate fuel (do_open w (call_of op))

  unfoldable pub exit_call : w.State → (ℤ × ExitState) × w.State
  exit_call s = let ((rc, stored), s') = lib.exit_state s in ((rc, to_exit_state stored), s')

  unfoldable pub get_exit_state : ℕ → w.State → Option ((ErrorCode × ExitState) × w.State)
  unfolding exit_call
  get_exit_state fuel = iterate fuel (P.get_exit_state w empty_state exit_call)
