-- ===== src/Message/Fields.antt =====
-- The functions of `message` that read one of its fields: src/message.cpp from line 20 to line 102, and
-- `auth_set_methods`. A channel is a number, a null pointer is `none`.
use corosh.Base.{ℕ, Bool, not, Option}
use corosh.Base.Int.{ℤ, pos, eq_ℤ}
use corosh.Base.Text.{Text}

-- The functions of libssh, named without `ssh_message_`, on a message `G`.
pub record Fields (G : Type 0) : Type 0 where
  pub type : G → ℤ
  pub subtype : G → ℤ
  pub auth_user : G → Option Text
  pub auth_kbdint_is_response : G → ℤ
  pub service_service : G → Option Text
  pub global_request_address : G → Option Text
  pub global_request_port : G → ℤ
  pub channel_request_open_originator : G → Option Text
  pub channel_request_open_originator_port : G → ℤ
  pub channel_request_open_destination : G → Option Text
  pub channel_request_open_destination_port : G → ℤ
  pub channel_request_channel : G → Option ℕ
  pub channel_request_env_name : G → Option Text
  pub channel_request_env_value : G → Option Text
  pub channel_request_command : G → Option Text
  pub channel_request_subsystem : G → Option Text
  pub auth_set_methods : ℤ → G → ℤ × G

-- The functions that give a text, and those that give a number.
pub data TextField : Type 0 where
  auth_user service global_request_address channel_request_open_originator : TextField
  channel_request_open_destination channel_request_env_name channel_request_env_value : TextField
  channel_request_command channel_request_subsystem : TextField

pub data NumberField : Type 0 where
  type subtype global_request_port channel_request_open_originator_port : NumberField
  channel_request_open_destination_port : NumberField

module _ {G : Type 0} (lib : Fields G) where
  unfoldable pub text_field : TextField → G → Option Text
  text_field auth_user = lib.auth_user
  text_field service = lib.service_service
  text_field global_request_address = lib.global_request_address
  text_field channel_request_open_originator = lib.channel_request_open_originator
  text_field channel_request_open_destination = lib.channel_request_open_destination
  text_field channel_request_env_name = lib.channel_request_env_name
  text_field channel_request_env_value = lib.channel_request_env_value
  text_field channel_request_command = lib.channel_request_command
  text_field channel_request_subsystem = lib.channel_request_subsystem

  unfoldable pub number_field : NumberField → G → ℤ
  number_field type = lib.type
  number_field subtype = lib.subtype
  number_field global_request_port = lib.global_request_port
  number_field channel_request_open_originator_port = lib.channel_request_open_originator_port
  number_field channel_request_open_destination_port = lib.channel_request_open_destination_port

  unfoldable pub auth_kbdint_is_response : G → Bool
  auth_kbdint_is_response g = not (eq_ℤ (lib.auth_kbdint_is_response g) (pos 0))

  unfoldable pub channel_request_channel : G → Option ℕ
  channel_request_channel = lib.channel_request_channel

  unfoldable pub auth_set_methods : ℤ → G → ℤ × G
  auth_set_methods = lib.auth_set_methods
