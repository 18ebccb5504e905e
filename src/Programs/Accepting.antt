-- ===== src/Programs/Accepting.antt =====
-- `server_callbacks` of example/server.cpp.
use corosh.Base.{ℕ, true, ◌≡◌, Option, none, some}
use corosh.Base.Int.{ℤ, pos}
use corosh.Session.Callbacks.{
  ServerCallbacks, ServerCall, auth_password, auth_none, auth_pubkey, auth_gssapi_mic,
  service_request, channel_open_request_session, gssapi_select_oid, gssapi_accept_sec_ctx,
  gssapi_verify_mic, Answer, number, Table, construct, server_lambda, server_defaults, auth_denied,
  accepted, invoke,
}

-- SSH_AUTH_SUCCESS
abbrev pub auth_success : ℤ
auth_success = pos 0

-- `open_channel` makes a channel on the session, and starts the coroutine that waits for requests on it. The GSSAPI
-- functions are those of the base class.
unfoldable pub server_callbacks : {S : Type 0} → (S → ℕ × S) → ServerCallbacks S
server_callbacks open_channel = record server_defaults {
  auth_password = λ user password s. (auth_success, s);
  auth_none = λ user s. (auth_success, s);
  auth_pubkey = λ user pubkey signature_state s. (auth_success, s);
  service_request = λ service s. (true, s);
  channel_open_request_session = λ s. let (h, s') = open_channel s in (some h, s');
}

-- The answer of the example server: anyone is let in by any password, any key or none, but not by GSSAPI.
abbrev pub welcome : ServerCall → Option Answer
welcome (auth_password user pwd) = some (number auth_success)
welcome (auth_none user) = some (number auth_success)
welcome (auth_pubkey user pubkey signature_state) = some (number auth_success)
welcome (auth_gssapi_mic user principal) = some (number auth_denied)
welcome (service_request service) = some (accepted true)
welcome _ = none

-- Where the answer does not depend on a channel or a table without GSSAPI, libssh gets it, and nothing else
-- happens.
pub invoke-server_callbacks :
    {S : Type 0} (open_channel : S → ℕ × S) (init : Table) (c : ServerCall) (a : Answer) (s : S)
    → welcome c ≡ some a
    → invoke (server_callbacks open_channel) (construct init) c s ≡ some (a, s)
unfolding server_callbacks construct server_lambda
invoke-server_callbacks open_channel init (auth_password user pwd) a s e = cc e
invoke-server_callbacks open_channel init (auth_none user) a s e = cc e
invoke-server_callbacks open_channel init (auth_pubkey user pubkey signature_state) a s e = cc e
invoke-server_callbacks open_channel init (auth_gssapi_mic user principal) a s e = cc e
invoke-server_callbacks open_channel init (service_request service) a s e = cc e
invoke-server_callbacks open_channel init channel_open_request_session a s e = absurd (cc e)
invoke-server_callbacks open_channel init (gssapi_select_oid user n_oid oids) a s e = absurd (cc e)
invoke-server_callbacks open_channel init (gssapi_accept_sec_ctx input_token output_token) a s e =
    absurd (cc e)
invoke-server_callbacks open_channel init (gssapi_verify_mic mic mic_buffer) a s e = absurd (cc e)
