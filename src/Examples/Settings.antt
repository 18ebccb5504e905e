-- ===== src/Examples/Settings.antt =====
-- Options that are set, an acceptor that is bound, callbacks of a session that is moved, and a session of the
-- example server that ends.
use corosh.Base.{ℕ, suc, ◌≡◌, refl, ap, true, false, List, [], ◌∷◌, Option, none, some, ◌==◌, arith}
use corosh.Base.Int.{ℤ}
use corosh.Base.Host.{big}
use corosh.Base.Text.{bytes_of}
use corosh.Errors.{no_error}
use corosh.Poll.{World, iterate, do_open, get_message, rc_ok, rc_error}
use corosh.Session.{returned}
use corosh.Message as M
use corosh.Options.{set_option}
use corosh.Options.Kinds.{Pointee, pointee, construct, Argument, CType}
use corosh.Options.Received.{Reading, read_as, text, number}
use corosh.Options.Setting.{Reads, session_set_option-received}
use corosh.Options.Session as O
use corosh.Options.Session.Typed as OT
use corosh.Options.Server as B
use corosh.Options.Server.Typed as BT
use corosh.Acceptor.{Endpoint, Libssh, bind}
use corosh.Session.Lifetime.{
  Session, Memory, server, client, install, move_construct, destroy, unused, installed, Consistent,
  Used-Consistent, move_construct-dangles,
}
use corosh.Programs.Main.{Surroundings, message_loop, message_round, handle_message}
use corosh.Programs.Main.Endings.{IsEnding, message_loop-IsEnding}
use corosh.Examples.Calls.{ready}

-- A libssh that refuses an empty text, and else notes each option and what it has read for it, the last first.
abbrev settings : Type 0 → World
settings E = record {
  State = List (E × Reading);
  poll_flags = λ s. (2, s);
  error_code = λ s. 1;
  is_open = λ s. true;
  wait_read = λ s. (no_error, s);
  wait_write = λ s. (no_error, s);
  wait_both = λ s. (no_error, s);
  timer = λ s. (no_error, s);
}

abbrev noted : {E : Type 0} → E → Reading → List (E × Reading) → ℤ × List (E × Reading)
noted e (text []) s = (rc_error, s)
noted e r s = (rc_ok, (e, r) ∷ s)

abbrev note : {E : Type 0} → E → Option Reading → List (E × Reading) → ℤ × List (E × Reading)
note e none s = (rc_error, s)
note e (some r) s = noted e r s

abbrev noting :
    {E : Type 0} → (E → CType) → E → Pointee → List (E × Reading) → ℤ × List (E × Reading)
noting documented e p s = note e (read_as big (documented e) p) s

noting-Reads :
    {E : Type 0} (documented : E → CType)
    → Reads big (settings E) documented (noting documented) noted
noting-Reads documented = record { read = λ e p r s h. ap (λ o. note e o s) h }

unfoldable port_number : Argument (O.template_of O.port)
unfolding O.template_of
port_number = 2222

session_set_option-received_example :
    set_option
      (settings O.SshOptionsE)
      (noting OT.documented)
      (O.option O.port)
      (pointee big (O.template_of O.port) (construct (O.template_of O.port) port_number))
      []
    ≡ (returned tt, (O.option O.port, number 2222) ∷ [])
unfolding O.template_of port_number
session_set_option-received_example =
    session_set_option-received (noting-Reads OT.documented) O.port port_number [] (λ e. cc)
      (omega arith)

abbrev endpoint : Endpoint
endpoint = record {
  is_v4 = true;
  is_v6 = false;
  v4_text = bytes_of "127.0.0.1";
  v6_text = [];
  port = 2222;
}

abbrev libssh : Libssh (List (B.SshBindOptionsE × Reading))
libssh = record {
  bind_options_set = noting BT.documented;
  bind = λ ep s. (no_error, s);
  listen = λ s. (no_error, s);
  accept = λ s. (no_error, s);
  bind_accept_fd = λ s. (rc_ok, s);
  set_blocking = λ s. s;
}

-- A session with callbacks 4 of a server, where those of a client, 5, are installed.
abbrev served : Session
served = record { owns = true; held = λ kind. elim kind [ server ↦ some 4 | client ↦ none ] }

abbrev memory : Memory
memory = record {
  registered = λ kind. elim kind [ server ↦ some 4 | client ↦ none ];
  alive = λ a. a == 4;
  freed = false;
}

served-Consistent : Consistent served memory
served-Consistent = record {
  same_server = refl;
  same_client = refl;
  live_server = λ cb e. ground arith;
  live_client = λ cb e. absurd (cc e);
  apart = λ cb e h. cc h;
}

Used-Consistent_example :
    Consistent (install client 5 true (served, memory)).0 (install client 5 true (served, memory)).1
Used-Consistent_example =
    Used-Consistent served-Consistent (installed client 5 true unused (λ e. ground arith) (λ e. cc))

move_construct-dangles_example :
    ((move_construct served).0.owns ≡ true)
    × ((destroy (move_construct served).1 memory).freed ≡ false)
    × ((destroy (move_construct served).1 memory).registered server ≡ some 4)
    × ((destroy (move_construct served).1 memory).alive 4 ≡ false)
    × ((move_construct served).0.held server ≡ none)
move_construct-dangles_example =
    move_construct-dangles served memory server 4 served-Consistent refl refl

-- A session with one message, the number 0, that asks for a service; then it is closed. The state is how many were
-- got.
abbrev one_message : World
one_message = record (ready 2 1) { is_open = λ s. s == 0 }

abbrev around : Surroundings ℕ ℕ
around = record {
  bind_error_code = λ s. 0;
  open_acceptor = λ s. s;
  options_set = λ o p s. (rc_ok, s);
  message_get = λ s. (some s, suc s);
  set_callbacks = λ cb s. (rc_ok, s);
  type = λ g. 4;
  service = λ g. bytes_of "ssh-userauth";
  request_stop = λ s. s;
  wait = λ s. (no_error, s);
}

abbrev replies : ℕ → M.Libssh ℕ
replies g = record {
  reply_default = λ s. (rc_ok, s);
  auth_reply_pk_ok_simple = λ s. (rc_ok, s);
  service_reply_success = λ s. (rc_ok, s);
  auth_reply_success = λ a s. (rc_ok, s);
  auth_reply_pk_ok = λ a b s. (rc_ok, s);
  auth_interactive_request = λ a b c d e s. (rc_ok, s);
  global_request_reply_success = λ a s. (rc_ok, s);
  channel_request_open_reply_accept_channel = λ a s. (rc_ok, s);
  channel_request_reply_success = λ s. (rc_ok, s);
}

one_round : message_loop one_message replies around 2 1 0 ≡ some (0, 1)
unfolding message_loop message_round handle_message get_message iterate do_open M.send_reply
    M.reply_call
one_round = refl

message_loop-IsEnding_example : IsEnding one_message replies around 0 1
message_loop-IsEnding_example = message_loop-IsEnding one_message replies around 2 1 0 0 1 one_round
