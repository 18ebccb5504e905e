-- ===== src/Programs/Main.antt =====
-- `ssh_main` of example/server.cpp: one session, from the acceptor to the loop over its messages. The output is
-- left out.
pub mod Endings
use corosh.Base.{
  ℕ, zero, suc, Bool, true, false, List, Option, none, some, ◌==◌, same_bytes, if◌then◌else◌,
}
use corosh.Base.Int.{ℤ}
use corosh.Base.Host.{Endian}
use corosh.Base.Text.{Text, bytes_of}
use corosh.Errors.{ErrorCode, failed}
use corosh.Poll.{World, Step, ret, again, iterate}
use corosh.Poll as P
use corosh.Session.{Completion, returned, thrown, handle_key_exchange}
use corosh.Session as S
use corosh.Session.Callbacks.{install}
use corosh.Message as M
use corosh.Options.{set_option}
use corosh.Options.Kinds.{Pointee, pointee, construct, cstring_option, int_option}
use corosh.Options.Session as SO
use corosh.Options.Server as BO
use corosh.Acceptor as A

-- What the program uses besides: the acceptor's `open` and the error code of its `ssh_bind`; `ssh_options_set` and
-- `ssh_message_get` on the session, `ssh_set_server_callbacks`; the type and the service of a message
-- `G`; `request_stop` of the stop source, and `tracked_work::wait`, in which the channels run.
pub record Surroundings (S G : Type 0) : Type 0 where
  pub bind_error_code : S → ℕ
  pub open_acceptor : S → S
  pub options_set : SO.SshOptionsE → Pointee → S → ℤ × S
  pub message_get : S → Option G × S
  pub set_callbacks : ℕ → S → ℤ × S
  pub type : G → ℕ
  pub service : G → Text
  pub request_stop : S → S
  pub wait : S → ErrorCode × S

-- SSH_REQUEST_SERVICE
abbrev pub request_service : ℕ
request_service = 4

-- The error codes of the acceptor's calls are those of its `ssh_bind`.
abbrev pub bind_world : (w : World) → (w.State → ℕ) → World
bind_world w code = record {
  State = w.State;
  poll_flags = w.poll_flags;
  error_code = code;
  is_open = w.is_open;
  wait_read = w.wait_read;
  wait_write = w.wait_write;
  wait_both = w.wait_both;
  timer = w.timer;
}

-- A part that may not have returned yet, and what comes behind it.
unfoldable pub then_with :
    {S A B : Type 0} → Option (A × S) → (A → S → Option (B × S)) → Option (B × S)
then_with none rest = none
then_with (some (a, s)) rest = rest a s

-- An exception ends with the handler of `ssh_main`.
unfoldable pub or_one :
    {S A : Type 0} → Completion A × S → (A → S → Option (ℕ × S)) → Option (ℕ × S)
or_one (returned a, s) rest = rest a s
or_one (thrown ec, s) rest = some (1, s)

-- An error code that leads to `co_return 1`.
unfoldable pub unless_failed : {S : Type 0} → ErrorCode → S → Option (ℕ × S) → Option (ℕ × S)
unless_failed ec s rest = if failed ec then some (1, s) else rest

module _ {G : Type 0} (w : World) (mlib : G → M.Libssh w.State)
    (around : Surroundings w.State G) where
  -- `error:`
  unfoldable pub give_up : w.State → Step w.State ℕ
  give_up s = ret 1 (around.wait (around.request_stop s)).1

  -- The `switch`: only a request for a service is replied to.
  abbrev pub reply_to : G → Option M.Reply
  reply_to message =
      if around.type message == request_service
      then (if same_bytes (around.service message) (bytes_of "ssh-userauth")
          then some M.service_reply_success
          else some M.reply_default)
      else none

  abbrev pub after_reply : Option (ErrorCode × w.State) → Option (Step w.State ℕ)
  after_reply none = none
  after_reply (some (ec, s)) = some (if failed ec then give_up s else again s)

  abbrev pub answer_with : ℕ → G → Option M.Reply → w.State → Option (Step w.State ℕ)
  answer_with fuel message none s = some (again s)
  answer_with fuel message (some reply) s = after_reply (M.send_reply w (mlib message) fuel reply s)

  unfoldable pub handle_message : ℕ → G → w.State → Option (Step w.State ℕ)
  unfolding give_up
  handle_message fuel message s = answer_with fuel message (reply_to message) s

  abbrev pub after_get : ℕ → Option ((ErrorCode × Option G) × w.State) → Option (Step w.State ℕ)
  after_get fuel none = none
  after_get fuel (some ((ec, none), s)) = some (give_up s)
  after_get fuel (some ((ec, some message), s)) =
      if failed ec then some (give_up s) else handle_message fuel message s

  -- A round of the loop; each part of it has the given number of rounds.
  unfoldable pub message_round : ℕ → w.State → Option (Step w.State ℕ)
  unfolding handle_message give_up
  message_round fuel s =
      if w.is_open s
      then after_get fuel (iterate fuel (P.get_message w around.message_get) s)
      else some (ret 0 s)

  unfoldable pub message_loop : ℕ → ℕ → w.State → Option (ℕ × w.State)
  unfolding message_round
  message_loop zero fuel s = none
  message_loop (suc rounds) fuel s = elim (message_round fuel s) [
    | none ↦ none
    | some (ret code s') ↦ some (code, s')
    | some (again s') ↦ message_loop rounds fuel s'
  ]

  module _ (host : Endian) (slib : S.Libssh w.State) (alib : A.Libssh w.State) where
    -- Behind the acceptor.
    unfoldable pub run_session : ℕ → ℕ → ℕ → w.State → Option (ℕ × w.State)
    unfolding message_loop
    run_session rounds fuel callbacks s =
        let (ec, accepted) = A.accept (bind_world w around.bind_error_code) alib s in
        unless_failed ec accepted (
          then_with (S.perform w slib fuel handle_key_exchange accepted) λ ec' s1.
            unless_failed ec' s1 (
              or_one (install w around.set_callbacks callbacks none s1)
                λ held s2. message_loop rounds fuel s2))

    -- The whole, with the path of the host key and the endpoint; SSH_LOG_TRACE is 4.
    unfoldable pub ssh_main : ℕ → ℕ → Text → A.Endpoint → ℕ → w.State → Option (ℕ × w.State)
    unfolding run_session
    ssh_main rounds fuel key_path endpoint callbacks s =
        let bound : World = bind_world w around.bind_error_code in
        or_one
          (set_option bound alib.bind_options_set (BO.option BO.host_key)
            (pointee host cstring_option (construct cstring_option key_path)) s)
          λ u s1. or_one (A.bind host bound alib endpoint (around.open_acceptor s1)) λ ec s2.
            unless_failed ec s2 (
              let (ec', s3) = alib.listen s2 in
              unless_failed ec' s3 (
                or_one
                  (set_option w around.options_set (SO.option SO.log_verbosity)
                    (pointee host int_option (construct int_option 4)) s3)
                  λ u' s4. run_session rounds fuel callbacks s4))
