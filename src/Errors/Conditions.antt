-- ===== src/Errors/Conditions.antt =====
-- The conditions of error codes, and `sftp_category_t` of src/error.cpp.
use corosh.Base.{ℕ, Bool, true, false, ◌==◌, if◌then◌else◌}
use corosh.Errors.Fx

-- The conditions that the program asks for: two of `boost::capy::cond`, the others of `std::errc`.
pub data Condition : Type 0 where
  cond_eof cond_not_found not_connected no_such_file_or_directory permission_denied : Condition
  bad_message connection_aborted connection_reset operation_not_supported : Condition
  function_not_supported bad_file_descriptor file_exists read_only_file_system : Condition
  no_such_device no_such_device_or_address : Condition

-- A number for each, to compare them.
abbrev pub number : Condition → ℕ
number cond_eof = 0
number cond_not_found = 1
number not_connected = 2
number no_such_file_or_directory = 3
number permission_denied = 4
number bad_message = 5
number connection_aborted = 6
number connection_reset = 7
number operation_not_supported = 8
number function_not_supported = 9
number bad_file_descriptor = 10
number file_exists = 11
number read_only_file_system = 12
number no_such_device = 13
number no_such_device_or_address = 14

-- `std::error_condition`: without a value, of the conditions above, or a value in the SFTP category.
pub data ErrorCondition : Type 0 where
  no_condition : ErrorCondition
  general : Condition → ErrorCondition
  own : ℕ → ErrorCondition

-- `operator==` of two conditions
abbrev pub same_condition : ErrorCondition → ErrorCondition → Bool
same_condition no_condition no_condition = true
same_condition (general a) (general b) = number a == number b
same_condition (own a) (own b) = a == b
same_condition _ _ = false

unfoldable pub default_error_condition : ℕ → ErrorCondition
default_error_condition ev =
    if ev == Fx.ok
    then no_condition
    else if ev == Fx.no_such_file
    then general no_such_file_or_directory
    else if ev == Fx.no_such_path
    then general no_such_file_or_directory
    else if ev == Fx.permission_denied
    then general permission_denied
    else if ev == Fx.bad_message
    then general bad_message
    else if ev == Fx.no_connection
    then general not_connected
    else if ev == Fx.connection_lost
    then general connection_aborted
    else if ev == Fx.op_unsupported
    then general operation_not_supported
    else if ev == Fx.invalid_handle
    then general bad_file_descriptor
    else if ev == Fx.file_already_exists
    then general file_exists
    else if ev == Fx.write_protect
    then general read_only_file_system
    else if ev == Fx.no_media
    then general no_such_device
    else own ev

unfoldable pub equivalent : ℕ → ErrorCondition → Bool
equivalent code (own v) = v == code
equivalent code no_condition = same_condition (default_error_condition code) no_condition
equivalent code (general c) = same_condition (default_error_condition code) (general c)
