-- ===== src/Errors/Fx.antt =====
-- The `SSH_FX_*` status codes, as libssh and the SFTP protocol number them.
use corosh.Base.{ℕ}

abbrev pub ok : ℕ
ok = 0

abbrev pub eof : ℕ
eof = 1

abbrev pub no_such_file : ℕ
no_such_file = 2

abbrev pub permission_denied : ℕ
permission_denied = 3

abbrev pub failure : ℕ
failure = 4

abbrev pub bad_message : ℕ
bad_message = 5

abbrev pub no_connection : ℕ
no_connection = 6

abbrev pub connection_lost : ℕ
connection_lost = 7

abbrev pub op_unsupported : ℕ
op_unsupported = 8

abbrev pub invalid_handle : ℕ
invalid_handle = 9

abbrev pub no_such_path : ℕ
no_such_path = 10

abbrev pub file_already_exists : ℕ
file_already_exists = 11

abbrev pub write_protect : ℕ
write_protect = 12

abbrev pub no_media : ℕ
no_media = 13
