-- ===== src/Session/ClientCallbacks.antt =====
-- `client_callbacks` of src/session.cpp, from line 574 on: a table of function pointers for libssh, as for a
-- server. The entries that the destructor resets and the constructor leaves alone are in it too.
use corosh.Base.{ℕ, Bool, true, false, ◌≡◌, refl, Option, none, some, not, if◌then◌else◌}
use corosh.Base.Int.{ℤ, pos, eq_ℤ}
use corosh.Base.Text.{Text}
use corosh.Session.Callbacks.{Answer, pointer, accepted}

-- The virtual functions; `auth` fills a buffer of `len` bytes.
pub record ClientCallbacks (S : Type 0) : Type 0 where
  pub auth : Text → ℕ → Bool → Bool → S → Bool × S
  pub channel_open_request_x11 : Text → ℤ → S → Option ℕ × S
  pub channel_open_request_auth_agent : S → Option ℕ × S
  pub channel_open_request_forwarded_tcpip : Text → ℤ → Text → ℤ → S → Option ℕ × S

-- The functions as the base class defines them.
abbrev pub client_defaults : {S : Type 0} → ClientCallbacks S
client_defaults = record {
  auth = λ prompt len echo verify s. (false, s);
  channel_open_request_x11 = λ originator_address originator_port s. (none, s);
  channel_open_request_auth_agent = λ s. (none, s);
  channel_open_request_forwarded_tcpip =
      λ destination_address destination_port originator_address originator_port s. (none, s);
}

-- The entries of `impl_`.
pub data ClientEntry : Type 0 where
  auth_function log_function connect_status_function global_request_function : ClientEntry
  channel_open_request_x11_function channel_open_request_auth_agent_function : ClientEntry
  channel_open_request_forwarded_tcpip_function : ClientEntry

-- The calls of libssh that the constructor answers.
pub data ClientCall : Type 0 where
  auth : (prompt : Text) (len : ℕ) (echo verify : ℤ) → ClientCall
  channel_open_request_x11 : (originator_address : Text) (originator_port : ℤ) → ClientCall
  channel_open_request_auth_agent : ClientCall
  channel_open_request_forwarded_tcpip :
      (destination_address : Text) (destination_port : ℤ) (originator_address : Text)
      (originator_port : ℤ)
      → ClientCall

abbrev pub entry : ClientCall → ClientEntry
entry (auth prompt len echo verify) = auth_function
entry (channel_open_request_x11 originator_address originator_port) =
    channel_open_request_x11_function
entry channel_open_request_auth_agent = channel_open_request_auth_agent_function
entry
      (channel_open_request_forwarded_tcpip destination_address destination_port originator_address
        originator_port) =
    channel_open_request_forwarded_tcpip_function

-- `!= 0`
abbrev pub nonzero : ℤ → Bool
nonzero n = not (eq_ℤ n (pos 0))

abbrev answer : {A S : Type 0} → (A → Answer) → A × S → Answer × S
answer f (a, s) = (f a, s)

-- The lambdas of the table.
unfoldable pub client_lambda : {S : Type 0} → ClientCallbacks S → ClientCall → S → Answer × S
client_lambda cb (auth prompt len echo verify) s =
    answer accepted (cb.auth prompt len (nonzero echo) (nonzero verify) s)
client_lambda cb (channel_open_request_x11 originator_address originator_port) s =
    answer pointer (cb.channel_open_request_x11 originator_address originator_port s)
client_lambda cb channel_open_request_auth_agent s =
    answer pointer (cb.channel_open_request_auth_agent s)
client_lambda cb
      (channel_open_request_forwarded_tcpip destination_address destination_port originator_address
        originator_port)
      s =
    answer pointer (
      cb.channel_open_request_forwarded_tcpip destination_address destination_port
        originator_address originator_port s)

-- Which entries are set.
abbrev pub Table : Type 0
Table = ClientEntry → Bool

unfoldable pub construct : Table → Table
construct impl auth_function = true
construct impl channel_open_request_x11_function = true
construct impl channel_open_request_auth_agent_function = true
construct impl channel_open_request_forwarded_tcpip_function = true
construct impl log_function = impl log_function
construct impl connect_status_function = impl connect_status_function
construct impl global_request_function = impl global_request_function

-- The destructor.
unfoldable pub destroy : Table → Table
destroy impl auth_function = false
destroy impl log_function = false
destroy impl connect_status_function = false
destroy impl global_request_function = false
destroy impl channel_open_request_x11_function = false
destroy impl channel_open_request_auth_agent_function = false
destroy impl channel_open_request_forwarded_tcpip_function = false

-- libssh calls an entry that is set.
abbrev pub invoke : {S : Type 0} → ClientCallbacks S → Table → ClientCall → S → Option (Answer × S)
invoke cb impl c s = if impl (entry c) then some (client_lambda cb c s) else none

-- The answer that refuses the call.
abbrev pub refusal : ClientCall → Answer
refusal (auth prompt len echo verify) = accepted false
refusal _ = pointer none

-- After the constructor libssh reaches the object's function for each call, after the destructor none; and the
-- functions of the base class refuse every call.
pub invoke-construct :
    {S : Type 0} (cb : ClientCallbacks S) (init : Table) (c : ClientCall) (s : S)
    → (invoke cb (construct init) c s ≡ some (client_lambda cb c s))
      × (invoke cb (destroy (construct init)) c s ≡ none)
      × (client_lambda client_defaults c s ≡ (refusal c, s))
unfolding construct destroy client_lambda
invoke-construct cb init (auth prompt len echo verify) s = (refl, refl, refl)
invoke-construct cb init (channel_open_request_x11 originator_address originator_port) s =
    (refl, refl, refl)
invoke-construct cb init channel_open_request_auth_agent s = (refl, refl, refl)
invoke-construct cb init
      (channel_open_request_forwarded_tcpip destination_address destination_port originator_address
        originator_port)
      s =
    (refl, refl, refl)
