-- ===== src/Server/Status.antt =====
-- `build_status` of src/sftp.cpp: the number that reports an error code to the client, and the packet.
use corosh.Base.{
  ℕ, ◌+◌, ◌-◌, ◌%◌, ◌^◌, Bool, true, false, not, ◌||◌, List, [], ◌++◌, if◌then◌else◌, length, take,
  replicate,
}
use corosh.Errors.{ErrorCode, Category, failed}
use corosh.Errors.Fx
use corosh.Errors.Conditions.{
  Condition, cond_eof, cond_not_found, not_connected, no_such_file_or_directory, permission_denied,
  bad_message, connection_aborted, connection_reset, operation_not_supported,
  function_not_supported, bad_file_descriptor, file_exists, read_only_file_system, no_such_device,
  no_such_device_or_address,
}
use corosh.Fxp
use corosh.Wire.{Writer, ◌▷◌, add_u32, put_u8, put_u32, put_str}

-- `vector::resize`
abbrev pub resize : ℕ → List ℕ → List ℕ
resize n buffer = take n buffer ++ replicate (n - length buffer) 0

abbrev pub is_sftp : Category → Bool
is_sftp Category.sftp = true
is_sftp Category.system = false
is_sftp Category.generic = false
is_sftp Category.capy = false
is_sftp Category.ssh = false

-- `is` is `==` of an error code and a condition, which asks the code's category and the condition's;
-- `message` is `error_code::message`.
module _ (is : ErrorCode → Condition → Bool) (message : ErrorCode → List ℕ) where
  unfoldable pub status_of : ErrorCode → ℕ
  status_of reported =
      if is_sftp reported.category || not (failed reported)
      then reported.value
      else if is reported cond_eof
      then Fx.eof
      else if is reported cond_not_found
      then Fx.no_such_path
      else if is reported not_connected
      then Fx.no_connection
      else if is reported no_such_file_or_directory
      then Fx.no_such_file
      else if is reported permission_denied
      then Fx.permission_denied
      else if is reported bad_message
      then Fx.bad_message
      else if is reported connection_aborted || is reported connection_reset
      then Fx.connection_lost
      else if is reported operation_not_supported || is reported function_not_supported
      then Fx.op_unsupported
      else if is reported bad_file_descriptor
      then Fx.invalid_handle
      else if is reported file_exists
      then Fx.file_already_exists
      else if is reported read_only_file_system
      then Fx.write_protect
      else if is reported no_such_device || is reported no_such_device_or_address
      then Fx.no_media
      else Fx.failure

  -- The buffer afterwards, which is the response, and the code; `body_len` is a `uint32_t`.
  unfoldable pub build_status : List ℕ → ℕ → ErrorCode → ErrorCode → Writer
  build_status buffer request_id reported ec =
      let msg = message reported in
      let body_len = (1 + 4 + 4 + 4 + length msg + 4) % 2 ^ 32 in
      (put_u32 body_len
          ▷ put_u8 Fxp.status
          ▷ put_u32 request_id
          ▷ put_u32 (status_of reported)
          ▷ put_str msg
          ▷ put_str [])
        (record { done = []; rest = resize (add_u32 4 body_len) buffer; ec = ec })
