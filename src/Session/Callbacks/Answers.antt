-- ===== src/Session/Callbacks/Answers.antt =====
-- What libssh is answered by the callbacks of a server.
use corosh.Base.{
  Bool, true, false, not, ◌&&◌, ◌≡◌, ◌∙◌, refl, List, [], ◌∷◌, none, some, Bool-cases, inl, inr,
  if◌then◌else◌,
}
use corosh.Poll.{rc_error}
use corosh.Session.Callbacks.{
  ServerCallbacks, ServerCall, Answer, Table, server_defaults, server_lambda, auth_denied, accepted,
  construct, enable_gssapi, disable_gssapi, destroy, invoke, number, pointer,
}
use corosh.Session.Callbacks as C

-- Calls of `enable_gssapi` (true) and `disable_gssapi` (false), one after the other.
abbrev pub toggle : Bool → Table → Table
toggle true = enable_gssapi
toggle false = disable_gssapi

abbrev pub toggles : List Bool → Table → Table
toggles [] impl = impl
toggles (t ∷ ts) impl = toggles ts (toggle t impl)

abbrev pub last_toggle : Bool → List Bool → Bool
last_toggle t [] = t
last_toggle t (u ∷ ts) = last_toggle u ts

abbrev pub is_gssapi : ServerCall → Bool
is_gssapi (C.gssapi_select_oid user n_oid oids) = true
is_gssapi (C.gssapi_accept_sec_ctx input_token output_token) = true
is_gssapi (C.gssapi_verify_mic mic mic_buffer) = true
is_gssapi _ = false

-- The answer that refuses the call.
abbrev pub refusal : ServerCall → Answer
refusal (C.service_request service) = accepted false
refusal C.channel_open_request_session = pointer none
refusal (C.gssapi_select_oid user n_oid oids) = pointer none
refusal (C.gssapi_accept_sec_ctx input_token output_token) = number rc_error
refusal (C.gssapi_verify_mic mic mic_buffer) = number rc_error
refusal _ = number auth_denied

-- One table after another, at the entry of a call.
toggle-entry :
    (t : Bool) (impl : Table) (c : ServerCall)
    → toggle t impl (C.entry c) ≡ (if is_gssapi c then t else impl (C.entry c))
unfolding enable_gssapi disable_gssapi
toggle-entry true impl (C.auth_password user pwd) = refl
toggle-entry true impl (C.auth_none user) = refl
toggle-entry true impl (C.auth_pubkey user pubkey signature_state) = refl
toggle-entry true impl (C.auth_gssapi_mic user principal) = refl
toggle-entry true impl (C.service_request service) = refl
toggle-entry true impl C.channel_open_request_session = refl
toggle-entry true impl (C.gssapi_select_oid user n_oid oids) = refl
toggle-entry true impl (C.gssapi_accept_sec_ctx input_token output_token) = refl
toggle-entry true impl (C.gssapi_verify_mic mic mic_buffer) = refl
toggle-entry false impl (C.auth_password user pwd) = refl
toggle-entry false impl (C.auth_none user) = refl
toggle-entry false impl (C.auth_pubkey user pubkey signature_state) = refl
toggle-entry false impl (C.auth_gssapi_mic user principal) = refl
toggle-entry false impl (C.service_request service) = refl
toggle-entry false impl C.channel_open_request_session = refl
toggle-entry false impl (C.gssapi_select_oid user n_oid oids) = refl
toggle-entry false impl (C.gssapi_accept_sec_ctx input_token output_token) = refl
toggle-entry false impl (C.gssapi_verify_mic mic mic_buffer) = refl

toggles-entry :
    (t : Bool) (ts : List Bool) (impl : Table) (c : ServerCall)
    → toggles (t ∷ ts) impl (C.entry c)
      ≡ (if is_gssapi c then last_toggle t ts else impl (C.entry c))
toggles-entry t [] impl c = toggle-entry t impl c
toggles-entry t (u ∷ ts) impl c =
    toggles-entry u ts (toggle t impl) c ∙ elim (Bool-cases (is_gssapi c)) [
      | inl gssapi ↦ rw gssapi
      | inr other ↦ rw other (toggle-entry t impl c ∙ rw other)
    ]

construct-entry :
    (impl : Table) (c : ServerCall) → is_gssapi c ≡ false → construct impl (C.entry c) ≡ true
unfolding construct
construct-entry impl (C.auth_password user pwd) h = refl
construct-entry impl (C.auth_none user) h = refl
construct-entry impl (C.auth_pubkey user pubkey signature_state) h = refl
construct-entry impl (C.auth_gssapi_mic user principal) h = refl
construct-entry impl (C.service_request service) h = refl
construct-entry impl C.channel_open_request_session h = refl
construct-entry impl (C.gssapi_select_oid user n_oid oids) h = cc
construct-entry impl (C.gssapi_accept_sec_ctx input_token output_token) h = cc
construct-entry impl (C.gssapi_verify_mic mic mic_buffer) h = cc

destroy-entry : (impl : Table) (c : ServerCall) → destroy impl (C.entry c) ≡ false
unfolding destroy
destroy-entry impl (C.auth_password user pwd) = refl
destroy-entry impl (C.auth_none user) = refl
destroy-entry impl (C.auth_pubkey user pubkey signature_state) = refl
destroy-entry impl (C.auth_gssapi_mic user principal) = refl
destroy-entry impl (C.service_request service) = refl
destroy-entry impl C.channel_open_request_session = refl
destroy-entry impl (C.gssapi_select_oid user n_oid oids) = refl
destroy-entry impl (C.gssapi_accept_sec_ctx input_token output_token) = refl
destroy-entry impl (C.gssapi_verify_mic mic mic_buffer) = refl

lambda_refuses :
    {S : Type 0} (c : ServerCall) (s : S) → server_lambda server_defaults c s ≡ (refusal c, s)
unfolding server_lambda
lambda_refuses (C.auth_password user pwd) s = refl
lambda_refuses (C.auth_none user) s = refl
lambda_refuses (C.auth_pubkey user pubkey signature_state) s = refl
lambda_refuses (C.auth_gssapi_mic user principal) s = refl
lambda_refuses (C.service_request service) s = refl
lambda_refuses C.channel_open_request_session s = refl
lambda_refuses (C.gssapi_select_oid user n_oid oids) s = refl
lambda_refuses (C.gssapi_accept_sec_ctx input_token output_token) s = refl
lambda_refuses (C.gssapi_verify_mic mic mic_buffer) s = refl

if_not :
    {A : Type 0} (b : Bool) (a : A)
    → (if b then some a else none) ≡ (if not b then none else some a)
if_not true a = refl
if_not false a = refl

-- After the constructor and any calls of `enable_gssapi` and `disable_gssapi`, one at least, libssh reaches the
-- object's function for each call, except that the GSSAPI functions are reached only if the last of these
-- calls has enabled them; after the destructor none is reached. The functions of the base class refuse
-- every call.
pub invoke-toggles :
    {S : Type 0} (cb : ServerCallbacks S) (init : Table) (t : Bool) (ts : List Bool)
    (c : ServerCall) (s : S)
    → (invoke cb (toggles (t ∷ ts) (construct init)) c s
        ≡ (if is_gssapi c && not (last_toggle t ts) then none else some (server_lambda cb c s)))
      × (invoke cb (destroy (toggles (t ∷ ts) (construct init))) c s ≡ none)
      × (server_lambda server_defaults c s ≡ (refusal c, s))
invoke-toggles cb init t ts c s = (
  rw (toggles-entry t ts (construct init) c) (elim (Bool-cases (is_gssapi c)) [
    | inl gssapi ↦ rw gssapi (if_not (last_toggle t ts) (server_lambda cb c s))
    | inr other ↦ rw (other, construct-entry init c other)
  ]),
  rw (destroy-entry (toggles (t ∷ ts) (construct init)) c),
  lambda_refuses c s,
)
