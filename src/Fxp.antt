-- ===== src/Fxp.antt =====
-- The packet types `SSH_FXP_*` and LIBSFTP_VERSION, as libssh and the SFTP protocol number them.
use corosh.Base.{ℕ}

abbrev pub init : ℕ
init = 1

abbrev pub version : ℕ
version = 2

abbrev pub open_file : ℕ
open_file = 3

abbrev pub close : ℕ
close = 4

abbrev pub read : ℕ
read = 5

abbrev pub write : ℕ
write = 6

abbrev pub lstat : ℕ
lstat = 7

abbrev pub fstat : ℕ
fstat = 8

abbrev pub setstat : ℕ
setstat = 9

abbrev pub fsetstat : ℕ
fsetstat = 10

abbrev pub opendir : ℕ
opendir = 11

abbrev pub readdir : ℕ
readdir = 12

abbrev pub remove : ℕ
remove = 13

abbrev pub mkdir : ℕ
mkdir = 14

abbrev pub rmdir : ℕ
rmdir = 15

abbrev pub realpath : ℕ
realpath = 16

abbrev pub stat : ℕ
stat = 17

abbrev pub rename : ℕ
rename = 18

abbrev pub readlink : ℕ
readlink = 19

abbrev pub symlink : ℕ
symlink = 20

abbrev pub status : ℕ
status = 101

abbrev pub handle : ℕ
handle = 102

abbrev pub data_reply : ℕ
data_reply = 103

abbrev pub name : ℕ
name = 104

abbrev pub attrs : ℕ
attrs = 105

abbrev pub extended : ℕ
extended = 200

abbrev pub extended_reply : ℕ
extended_reply = 201

abbrev pub libsftp_version : ℕ
libsftp_version = 3
