-- ===== src/Errors.antt =====
-- src/error.cpp and the `std::error_code` values that the library passes around.
-- A code is its value with its category; the value 0 means success in every category. An `int` value
-- is kept as its 32-bit pattern. The `SSH_*` and `SSH_FX_*` numbers are those that libssh documents.
pub mod Fx
pub mod Conditions
pub mod Texts
use corosh.Base.{ℕ, Bool, not, ◌==◌}

-- `system` is the category of a default constructed code; `capy` and `generic` belong to the
-- asynchronous I/O library and to the standard library.
pub data Category : Type 0 where
  system generic capy ssh sftp : Category

pub record ErrorCode : Type 0 where
  pub value : ℕ
  pub category : Category

-- `explicit operator bool`
abbrev pub failed : ErrorCode → Bool
failed ec = not (ec.value == 0)

abbrev pub no_error : ErrorCode
no_error = record { value = 0; category = system }

-- `ec.assign(v, sftp_category())` and `ec.assign(v, ssh_category())`
abbrev pub sftp_error : ℕ → ErrorCode
sftp_error v = record { value = v; category = sftp }

abbrev pub ssh_error : ℕ → ErrorCode
ssh_error v = record { value = v; category = ssh }

abbrev pub bad_message : ErrorCode
bad_message = sftp_error Fx.bad_message

-- SSH_FATAL
abbrev pub ssh_fatal : ErrorCode
ssh_fatal = ssh_error 2
