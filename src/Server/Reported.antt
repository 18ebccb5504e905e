-- ===== src/Server/Reported.antt =====
-- The numbers that the worker reports, against the conditions of the SFTP category.
use corosh.Base.{ℕ, List, ◌≡◌, refl, Bool, true, false, ◌==◌, arith}
use corosh.Errors.{ErrorCode, failed}
use corosh.Errors.Conditions.{
  Condition, cond_eof, cond_not_found, not_connected, no_such_file_or_directory, permission_denied,
  bad_message, connection_aborted, connection_reset, operation_not_supported,
  function_not_supported, bad_file_descriptor, file_exists, read_only_file_system, no_such_device,
  no_such_device_or_address, general, number, default_error_condition, equivalent,
}
use corosh.Server.Status.{is_sftp, status_of}

-- The conditions that a number of the SFTP category has.
abbrev pub known : Condition → Bool
known cond_eof = false
known cond_not_found = false
known not_connected = true
known no_such_file_or_directory = true
known permission_denied = true
known bad_message = true
known connection_aborted = true
known connection_reset = false
known operation_not_supported = true
known function_not_supported = false
known bad_file_descriptor = true
known file_exists = true
known read_only_file_system = true
known no_such_device = true
known no_such_device_or_address = false

equivalent-known : (code : ℕ) (c : Condition) → equivalent code (general c) ≡ true → known c ≡ true
unfolding equivalent default_error_condition
equivalent-known code cond_eof h = ground arith
equivalent-known code cond_not_found h = ground arith
equivalent-known code not_connected h = refl
equivalent-known code no_such_file_or_directory h = refl
equivalent-known code permission_denied h = refl
equivalent-known code bad_message h = refl
equivalent-known code connection_aborted h = refl
equivalent-known code connection_reset h = ground arith
equivalent-known code operation_not_supported h = refl
equivalent-known code function_not_supported h = ground arith
equivalent-known code bad_file_descriptor h = refl
equivalent-known code file_exists h = refl
equivalent-known code read_only_file_system h = refl
equivalent-known code no_such_device h = refl
equivalent-known code no_such_device_or_address h = ground arith

module _ (is : ErrorCode → Condition → Bool) (message : ErrorCode → List ℕ) where
  -- For an error of another category that has one condition only, which some number of the SFTP
  -- category has too, the worker reports a number that has this condition in the SFTP category.
  pub status_of-default_error_condition :
      (reported : ErrorCode) (c : Condition) (code : ℕ)
      → is_sftp reported.category ≡ false
      → failed reported ≡ true
      → ((d : Condition) → is reported d ≡ (number c == number d))
      → equivalent code (general c) ≡ true
      → equivalent (status_of is message reported) (general c) ≡ true
  unfolding status_of default_error_condition equivalent
  status_of-default_error_condition reported cond_eof code other bad only same =
      absurd (cc (equivalent-known code cond_eof same))
  status_of-default_error_condition reported cond_not_found code other bad only same =
      absurd (cc (equivalent-known code cond_not_found same))
  status_of-default_error_condition reported not_connected code other bad only same =
      rw (other, bad, only cond_eof, only cond_not_found, only not_connected) refl
  status_of-default_error_condition reported no_such_file_or_directory code other bad only same =
      rw
        (
          other,
          bad,
          only cond_eof,
          only cond_not_found,
          only not_connected,
          only no_such_file_or_directory,
        )
        refl
  status_of-default_error_condition reported permission_denied code other bad only same =
      rw
        (
          other,
          bad,
          only cond_eof,
          only cond_not_found,
          only not_connected,
          only no_such_file_or_directory,
          only permission_denied,
        )
        refl
  status_of-default_error_condition reported bad_message code other bad only same =
      rw
        (
          other,
          bad,
          only cond_eof,
          only cond_not_found,
          only not_connected,
          only no_such_file_or_directory,
          only permission_denied,
          only bad_message,
        )
        refl
  status_of-default_error_condition reported connection_aborted code other bad only same =
      rw
        (
          other,
          bad,
          only cond_eof,
          only cond_not_found,
          only not_connected,
          only no_such_file_or_directory,
          only permission_denied,
          only bad_message,
          only connection_aborted,
        )
        refl
  status_of-default_error_condition reported connection_reset code other bad only same =
      absurd (cc (equivalent-known code connection_reset same))
  status_of-default_error_condition reported operation_not_supported code other bad only same =
      rw
        (
          other,
          bad,
          only cond_eof,
          only cond_not_found,
          only not_connected,
          only no_such_file_or_directory,
          only permission_denied,
          only bad_message,
          only connection_aborted,
          only connection_reset,
          only operation_not_supported,
        )
        refl
  status_of-default_error_condition reported function_not_supported code other bad only same =
      absurd (cc (equivalent-known code function_not_supported same))
  status_of-default_error_condition reported bad_file_descriptor code other bad only same =
      rw
        (
          other,
          bad,
          only cond_eof,
          only cond_not_found,
          only not_connected,
          only no_such_file_or_directory,
          only permission_denied,
          only bad_message,
          only connection_aborted,
          only connection_reset,
          only operation_not_supported,
          only function_not_supported,
          only bad_file_descriptor,
        )
        refl
  status_of-default_error_condition reported file_exists code other bad only same =
      rw
        (
          other,
          bad,
          only cond_eof,
          only cond_not_found,
          only not_connected,
          only no_such_file_or_directory,
          only permission_denied,
          only bad_message,
          only connection_aborted,
          only connection_reset,
          only operation_not_supported,
          only function_not_supported,
          only bad_file_descriptor,
          only file_exists,
        )
        refl
  status_of-default_error_condition reported read_only_file_system code other bad only same =
      rw
        (
          other,
          bad,
          only cond_eof,
          only cond_not_found,
          only not_connected,
          only no_such_file_or_directory,
          only permission_denied,
          only bad_message,
          only connection_aborted,
          only connection_reset,
          only operation_not_supported,
          only function_not_supported,
          only bad_file_descriptor,
          only file_exists,
          only read_only_file_system,
        )
        refl
  status_of-default_error_condition reported no_such_device code other bad only same =
      rw
        (
          other,
          bad,
          only cond_eof,
          only cond_not_found,
          only not_connected,
          only no_such_file_or_directory,
          only permission_denied,
          only bad_message,
          only connection_aborted,
          only connection_reset,
          only operation_not_supported,
          only function_not_supported,
          only bad_file_descriptor,
          only file_exists,
          only read_only_file_system,
          only no_such_device,
        )
        refl
  status_of-default_error_condition reported no_such_device_or_address code other bad only same =
      absurd (cc (equivalent-known code no_such_device_or_address same))
