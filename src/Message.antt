-- ===== src/Message.antt =====
-- The replies to a message: src/message.cpp from line 143 on. The functions of libssh act on the message;
-- they are named without `ssh_message_`.
pub mod Fields
use corosh.Base.{ℕ, Bool, List, Option, if◌then◌else◌}
use corosh.Base.Int.{ℤ, pos}
use corosh.Base.Text.{Text}
use corosh.Errors.{ErrorCode}
use corosh.Poll.{World, iterate, do_open}

pub record Libssh (S : Type 0) : Type 0 where
  pub reply_default : S → ℤ × S
  pub auth_reply_pk_ok_simple : S → ℤ × S
  pub service_reply_success : S → ℤ × S
  pub auth_reply_success : ℤ → S → ℤ × S
  pub auth_reply_pk_ok : Text → Text → S → ℤ × S
  pub auth_interactive_request : Text → Text → ℕ → List Text → List ℕ → S → ℤ × S
  pub global_request_reply_success : ℕ → S → ℤ × S
  pub channel_request_open_reply_accept_channel : ℕ → S → ℤ × S
  pub channel_request_reply_success : S → ℤ × S

-- The replies, with their arguments; an `ssh_channel` is a number.
pub data Reply : Type 0 where
  reply_default : Reply
  auth_reply_success : (partial : Bool) → Reply
  auth_reply_pk_ok : (algo pubkey : Text) → Reply
  auth_reply_pk_ok_simple : Reply
  auth_interactive_request :
      (name instruction : Text) (num_prompts : ℕ) (prompts : List Text) (echo : List ℕ) → Reply
  service_reply_success : Reply
  global_request_reply_success : (bound_port : ℕ) → Reply
  channel_request_open_reply_accept_channel : (chan : ℕ) → Reply
  channel_request_reply_success : Reply

module _ (w : World) (lib : Libssh w.State) where
  -- The lambdas that the replies hand to `do_op_`.
  unfoldable pub reply_call : Reply → w.State → ℤ × w.State
  reply_call reply_default = lib.reply_default
  reply_call (auth_reply_success partial) =
      lib.auth_reply_success (if partial then pos 1 else pos 0)
  reply_call (auth_reply_pk_ok algo pubkey) = lib.auth_reply_pk_ok algo pubkey
  reply_call auth_reply_pk_ok_simple = lib.auth_reply_pk_ok_simple
  reply_call (auth_interactive_request name instruction num_prompts prompts echo) =
      lib.auth_interactive_request name instruction num_prompts prompts echo
  reply_call service_reply_success = lib.service_reply_success
  reply_call (global_request_reply_success bound_port) = lib.global_request_reply_success bound_port
  reply_call (channel_request_open_reply_accept_channel chan) =
      lib.channel_request_open_reply_accept_channel chan
  reply_call channel_request_reply_success = lib.channel_request_reply_success

  -- The reply, for a given number of rounds: the loop of a message is that of a channel.
  unfoldable pub send_reply : ℕ → Reply → w.State → Option (ErrorCode × w.State)
  unfolding reply_call
  send_reply fuel reply = iterate fuel (do_open w (reply_call reply))
