-- ===== src/Channel/Callbacks.antt =====
-- `channel::callbacks`, src/channel.cpp from line 523 on: the lambdas that libssh calls, and which channel the
-- object is registered with.
pub mod Registered
use corosh.Base.{ℕ, Bool, true, false, Option, none, some, if◌then◌else◌}
use corosh.Base.Int.{ℤ, pos, negsuc, eq_ℤ}
use corosh.Base.Text.{Text}
use corosh.Errors.{ErrorCode, no_error}
use corosh.Poll.{World, rc_ok, last_error}

-- The virtual functions.
pub record ChannelCallbacks (S : Type 0) : Type 0 where
  pub signal : Text → S → S
  pub exit_status : ℤ → S → S
  pub exit_signal : Text → ℤ → Text → Text → S → S
  pub x11_req : ℤ → Text → Text → ℕ → S → S
  pub close : S → S
  pub pty_request : Text → ℤ → ℤ → ℤ → ℤ → S → Bool × S
  pub pty_window_change : ℤ → ℤ → ℤ → ℤ → S → Bool × S
  pub shell_request : S → Bool × S
  pub exec_request : Text → S → Bool × S
  pub env_request : Text → Text → S → Bool × S
  pub subsystem_request : Text → S → Bool × S

-- The functions as the base class defines them.
abbrev pub channel_defaults : {S : Type 0} → ChannelCallbacks S
channel_defaults = record {
  signal = λ sig s. s;
  exit_status = λ status s. s;
  exit_signal = λ sig core errmsg lang s. s;
  x11_req = λ single_connection auth_protocol auth_cookie screen_number s. s;
  close = λ s. s;
  pty_request = λ term width height pxwidth pwheight s. (false, s);
  pty_window_change = λ width height pxwidth pwheight s. (false, s);
  shell_request = λ s. (false, s);
  exec_request = λ command s. (false, s);
  env_request = λ env_name env_value s. (false, s);
  subsystem_request = λ subsystem s. (false, s);
}

-- The calls of libssh.
pub data ChannelCall : Type 0 where
  signal : (sig : Text) → ChannelCall
  exit_status : (status : ℤ) → ChannelCall
  exit_signal : (sig : Text) (core : ℤ) (errmsg lang : Text) → ChannelCall
  x11_req :
      (single_connection : ℤ) (auth_protocol auth_cookie : Text) (screen_number : ℕ) → ChannelCall
  close : ChannelCall
  pty_request : (term : Text) (width height pxwidth pwheight : ℤ) → ChannelCall
  pty_window_change : (width height pxwidth pwheight : ℤ) → ChannelCall
  shell_request : ChannelCall
  exec_request : (command : Text) → ChannelCall
  env_request : (env_name env_value : Text) → ChannelCall
  subsystem_request : (subsystem : Text) → ChannelCall

-- A lambda with no result, and one that ends with `? 0 : -1`.
abbrev no_result : {S : Type 0} → S → Option ℤ × S
no_result s = (none, s)

abbrev accepted : {S : Type 0} → Bool × S → Option ℤ × S
accepted (ok, s) = (some (if ok then pos 0 else negsuc 0), s)

-- The lambdas of the table.
unfoldable pub channel_lambda : {S : Type 0} → ChannelCallbacks S → ChannelCall → S → Option ℤ × S
channel_lambda cb (signal sig) s = no_result (cb.signal sig s)
channel_lambda cb (exit_status status) s = no_result (cb.exit_status status s)
channel_lambda cb (exit_signal sig core errmsg lang) s =
    no_result (cb.exit_signal sig core errmsg lang s)
channel_lambda cb (x11_req single_connection auth_protocol auth_cookie screen_number) s =
    no_result (cb.x11_req single_connection auth_protocol auth_cookie screen_number s)
channel_lambda cb close s = no_result (cb.close s)
channel_lambda cb (pty_request term width height pxwidth pwheight) s =
    accepted (cb.pty_request term width height pxwidth pwheight s)
channel_lambda cb (pty_window_change width height pxwidth pwheight) s =
    accepted (cb.pty_window_change width height pxwidth pwheight s)
channel_lambda cb shell_request s = accepted (cb.shell_request s)
channel_lambda cb (exec_request command) s = accepted (cb.exec_request command s)
channel_lambda cb (env_request env_name env_value) s =
    accepted (cb.env_request env_name env_value s)
channel_lambda cb (subsystem_request subsystem) s = accepted (cb.subsystem_request subsystem s)

-- `ssh_add_channel_callbacks`, `ssh_set_channel_callbacks`, `ssh_channel_is_open` and
-- `ssh_remove_channel_callbacks`; channels and objects are numbers.
pub record Registry (S : Type 0) : Type 0 where
  pub add : ℕ → ℕ → S → ℤ × S
  pub set : ℕ → ℕ → S → ℤ × S
  pub is_open : ℕ → S → Bool
  pub remove : ℕ → ℕ → S → S

-- The member `chan_` is `none` in a new object.
module _ (w : World) (registry : Registry w.State) where
  -- The code that is thrown, if one has failed, with `chan_` in any case.
  unfoldable pub add_callbacks :
      ℕ → ℕ → Bool → Option ℕ → w.State → (Option ErrorCode × Option ℕ) × w.State
  add_callbacks channel cb back chan s =
      let (rc, s') = (if back then registry.add else registry.set) channel cb s in
      ((if eq_ℤ rc rc_ok then none else some (last_error w s'), some channel), s')

  -- The destructor.
  unfoldable pub destroy : ℕ → Option ℕ → w.State → w.State
  destroy cb none s = s
  destroy cb (some channel) s =
      if registry.is_open channel s then registry.remove channel cb s else s
