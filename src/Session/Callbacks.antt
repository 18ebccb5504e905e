-- ===== src/Session/Callbacks.antt =====
-- `server_callbacks` and `client_callbacks` of src/session.cpp, from line 433 on: tables of function pointers
-- for libssh, whose entries call the virtual functions of the object. An entry is null or the one lambda
-- that the source assigns to it, so that a table says which entries are set.
pub mod Answers
use corosh.Base.{ℕ, Bool, true, false, not, List, [], ◌∷◌, Option, none, some, if◌then◌else◌}
use corosh.Base.Int.{ℤ, pos, negsuc, eq_ℤ}
use corosh.Base.Text.{Text}
use corosh.Poll.{World, rc_ok, rc_error, last_error}
use corosh.Session.{Completion, returned, thrown}

-- The virtual functions; a key, a channel, a `ssh_string` and a place for one are numbers, `none` a null
-- pointer.
pub record ServerCallbacks (S : Type 0) : Type 0 where
  pub auth_password : Text → Text → S → ℤ × S
  pub auth_none : Text → S → ℤ × S
  pub auth_pubkey : Text → ℕ → ℤ → S → ℤ × S
  pub auth_gssapi_mic : Text → Text → S → ℤ × S
  pub service_request : Text → S → Bool × S
  pub channel_open_request_session : S → Option ℕ × S
  pub gssapi_select_oid : Text → ℤ → ℕ → S → Option ℕ × S
  pub gssapi_accept_sec_ctx : Text → ℕ → S → ℤ × S
  pub gssapi_verify_mic : Text → Text → S → ℤ × S

-- SSH_AUTH_DENIED
abbrev pub auth_denied : ℤ
auth_denied = pos 1

-- The functions as the base class defines them.
abbrev pub server_defaults : {S : Type 0} → ServerCallbacks S
server_defaults = record {
  auth_password = λ user password s. (auth_denied, s);
  auth_none = λ user s. (auth_denied, s);
  auth_pubkey = λ user pubkey signature_state s. (auth_denied, s);
  auth_gssapi_mic = λ user principal s. (auth_denied, s);
  service_request = λ service s. (false, s);
  channel_open_request_session = λ s. (none, s);
  gssapi_select_oid = λ user n_oid oids s. (none, s);
  gssapi_accept_sec_ctx = λ input_token output_token s. (rc_error, s);
  gssapi_verify_mic = λ mic mic_buffer s. (rc_error, s);
}

-- The entries of `impl_`.
pub data ServerEntry : Type 0 where
  auth_password_function auth_none_function auth_pubkey_function : ServerEntry
  auth_gssapi_mic_function service_request_function : ServerEntry
  channel_open_request_session_function gssapi_select_oid_function : ServerEntry
  gssapi_accept_sec_ctx_function gssapi_verify_mic_function : ServerEntry

-- The calls of libssh; a token may be a null pointer.
pub data ServerCall : Type 0 where
  auth_password : (user pwd : Text) → ServerCall
  auth_none : (user : Text) → ServerCall
  auth_pubkey : (user : Text) (pubkey : ℕ) (signature_state : ℤ) → ServerCall
  auth_gssapi_mic : (user principal : Text) → ServerCall
  service_request : (service : Text) → ServerCall
  channel_open_request_session : ServerCall
  gssapi_select_oid : (user : Text) (n_oid : ℤ) (oids : ℕ) → ServerCall
  gssapi_accept_sec_ctx : (input_token : Option Text) (output_token : ℕ) → ServerCall
  gssapi_verify_mic : (mic : Option Text) (mic_buffer : Text) → ServerCall

abbrev pub entry : ServerCall → ServerEntry
entry (auth_password user pwd) = auth_password_function
entry (auth_none user) = auth_none_function
entry (auth_pubkey user pubkey signature_state) = auth_pubkey_function
entry (auth_gssapi_mic user principal) = auth_gssapi_mic_function
entry (service_request service) = service_request_function
entry channel_open_request_session = channel_open_request_session_function
entry (gssapi_select_oid user n_oid oids) = gssapi_select_oid_function
entry (gssapi_accept_sec_ctx input_token output_token) = gssapi_accept_sec_ctx_function
entry (gssapi_verify_mic mic mic_buffer) = gssapi_verify_mic_function

-- What a function of the table returns: a number or a pointer.
pub data Answer : Type 0 where
  number : ℤ → Answer
  pointer : Option ℕ → Answer

abbrev answer : {A S : Type 0} → (A → Answer) → A × S → Answer × S
answer f (a, s) = (f a, s)

-- `? 0 : -1`
abbrev pub accepted : Bool → Answer
accepted ok = number (if ok then pos 0 else negsuc 0)

-- `ssh_string_get_char` with `ssh_string_len`
abbrev pub view : Option Text → Text
view none = []
view (some t) = t

module _ {S : Type 0} where
  -- The lambdas of the table.
  unfoldable pub server_lambda : ServerCallbacks S → ServerCall → S → Answer × S
  server_lambda cb (auth_password user pwd) s = answer number (cb.auth_password user pwd s)
  server_lambda cb (auth_none user) s = answer number (cb.auth_none user s)
  server_lambda cb (auth_pubkey user pubkey signature_state) s =
      answer number (cb.auth_pubkey user pubkey signature_state s)
  server_lambda cb (auth_gssapi_mic user principal) s =
      answer number (cb.auth_gssapi_mic user principal s)
  server_lambda cb (service_request service) s = answer accepted (cb.service_request service s)
  server_lambda cb channel_open_request_session s =
      answer pointer (cb.channel_open_request_session s)
  server_lambda cb (gssapi_select_oid user n_oid oids) s =
      answer pointer (cb.gssapi_select_oid user n_oid oids s)
  server_lambda cb (gssapi_accept_sec_ctx input_token output_token) s =
      answer number (cb.gssapi_accept_sec_ctx (view input_token) output_token s)
  server_lambda cb (gssapi_verify_mic mic mic_buffer) s =
      answer number (cb.gssapi_verify_mic (view mic) mic_buffer s)

-- Which entries are set. The constructor and the others assign some, and leave the rest as it is; what
-- `ssh_callbacks_init` leaves is a parameter.
abbrev pub Table : Type 0
Table = ServerEntry → Bool

unfoldable pub construct : Table → Table
construct impl auth_password_function = true
construct impl auth_none_function = true
construct impl auth_pubkey_function = true
construct impl auth_gssapi_mic_function = true
construct impl service_request_function = true
construct impl channel_open_request_session_function = true
construct impl gssapi_select_oid_function = impl gssapi_select_oid_function
construct impl gssapi_accept_sec_ctx_function = impl gssapi_accept_sec_ctx_function
construct impl gssapi_verify_mic_function = impl gssapi_verify_mic_function

abbrev set_gssapi : Bool → Table → Table
set_gssapi b impl gssapi_select_oid_function = b
set_gssapi b impl gssapi_accept_sec_ctx_function = b
set_gssapi b impl gssapi_verify_mic_function = b
set_gssapi b impl auth_password_function = impl auth_password_function
set_gssapi b impl auth_none_function = impl auth_none_function
set_gssapi b impl auth_pubkey_function = impl auth_pubkey_function
set_gssapi b impl auth_gssapi_mic_function = impl auth_gssapi_mic_function
set_gssapi b impl service_request_function = impl service_request_function
set_gssapi b impl channel_open_request_session_function = impl channel_open_request_session_function

unfoldable pub enable_gssapi : Table → Table
enable_gssapi = set_gssapi true

unfoldable pub disable_gssapi : Table → Table
disable_gssapi = set_gssapi false

-- The destructor.
unfoldable pub destroy : Table → Table
destroy impl auth_password_function = false
destroy impl auth_none_function = false
destroy impl auth_gssapi_mic_function = false
destroy impl auth_pubkey_function = false
destroy impl service_request_function = false
destroy impl channel_open_request_session_function = false
destroy impl gssapi_select_oid_function = false
destroy impl gssapi_accept_sec_ctx_function = false
destroy impl gssapi_verify_mic_function = false

-- libssh calls an entry that is set.
abbrev pub invoke : {S : Type 0} → ServerCallbacks S → Table → ServerCall → S → Option (Answer × S)
invoke cb impl c s = if impl (entry c) then some (server_lambda cb c s) else none

-- `install_server_callbacks` and `install_client_callbacks`: `set` is `ssh_set_server_callbacks` or
-- `ssh_set_callbacks`, given the object. The result is the object that the session holds then.
unfoldable pub install :
    (w : World)
    → (ℕ → w.State → ℤ × w.State)
    → ℕ
    → Option ℕ
    → w.State
    → Completion (Option ℕ) × w.State
install w set cb held s =
    let (rc, s') = set cb s in
    (if eq_ℤ rc rc_ok then returned (some cb) else thrown (last_error w s'), s')
