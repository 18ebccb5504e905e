-- ===== src/Examples/Protocol.antt =====
-- Packets of the protocol, and a server that counts its calls.
use corosh.Base.{
  ◌++◌, ℕ, suc, ◌≡◌, refl, true, false, Bool, List, [], ◌∷◌, some, length, drop, replicate,
  length-replicate, arith, ◌==◌, if◌then◌else◌,
}
use corosh.Errors.{ErrorCode, Category, no_error}
use corosh.Fxp
use corosh.Wire.{match_packet}
use corosh.Attributes.{Attributes, no_attributes, has, attr_extended}
use corosh.Attributes.Bytes.{InRange}
use corosh.Requests.{to_write, bytes_of}
use corosh.Requests.Packets.{read_at_call, request, body, packet}
use corosh.Requests.Sent.{match_packet-to_write, match_packet-add_u32}
use corosh.Responses.{Status, Entry}
use corosh.Responses.Parsed.{Fits}
use corosh.Server.{Handlers, reply, serve_packet}
use corosh.Errors.Conditions.{
  Condition, file_exists, general, number, equivalent, default_error_condition,
}
use corosh.Server.Status.{status_of}
use corosh.Server.ReadReply.{serve_packet-read}
use corosh.Server.Reported.{status_of-default_error_condition}

abbrev pub eof : ErrorCode
eof = record { value = 1; category = Category.capy }

abbrev pub disk_full : ErrorCode
disk_full = record { value = 28; category = Category.generic }

abbrev pub path : List ℕ
path = bytes_of "/tmp/a"

-- Bits of no meaning in an uninitialised array.
abbrev pub garbage : List ℕ
garbage = replicate 1024 170

abbrev pub plain_file : Attributes
plain_file = record no_attributes {
  flags = 15;
  size = 10;
  uid = 1000;
  gid = 100;
  permissions = 420;
}

match_packet-to_write_example :
    (to_write (request (read_at_call path 7 4096)) 3 garbage
      ≡ packet Fxp.read 3 (body (read_at_call path 7 4096)))
    × (match_packet (to_write (request (read_at_call path 7 4096)) 3 garbage ++ (0 ∷ []))
        ≡ some (length (to_write (request (read_at_call path 7 4096)) 3 garbage)))
match_packet-to_write_example =
    match_packet-to_write (read_at_call path 7 4096) 3 garbage (0 ∷ [])
      (length-replicate {A = ℕ} 1024 170) (omega arith)

pub plain_file-InRange : InRange plain_file
plain_file-InRange = record {
  flags = omega arith;
  size = omega arith;
  uid = omega arith;
  gid = omega arith;
  permissions = omega arith;
  atime = omega arith;
  mtime = omega arith;
}

pub plain : has plain_file.flags attr_extended ≡ false
unfolding has
plain = refl

abbrev pub waiting_status : Status
waiting_status = record { completed = false; ec = no_error }

abbrev pub file_entry : Entry
file_entry = record { attr = plain_file; name = path; long_name = path }

pub file_entry-Fits : Fits file_entry
file_entry-Fits = record {
  name = omega arith;
  long_name = omega arith;
  attr = plain_file-InRange;
  plain = plain;
}

-- No code of `disk_full`'s category is any of the conditions.
abbrev pub is_none : ErrorCode → Condition → Bool
is_none ec c = false

abbrev pub no_text : ErrorCode → List ℕ
no_text ec = if ec.value == 0 then [] else path

-- Each call is counted; a directory is made unless the disk is full.
abbrev pub counting : Handlers ℕ
counting = record {
  open_file = λ name flags mode s. ((no_error, name), suc s);
  read_at = λ h offset buffer s. ((no_error, length buffer, buffer), suc s);
  write_at = λ h offset buffer s. (no_error, suc s);
  fstat = λ h s. ((no_error, plain_file), suc s);
  close = λ h s. (no_error, suc s);
  opendir = λ name s. ((no_error, name), suc s);
  readdir = λ h s. ((no_error, file_entry ∷ []), suc s);
  stat = λ name s. ((no_error, plain_file), suc s);
  lstat = λ name s. ((no_error, plain_file), suc s);
  unlink = λ name s. (no_error, suc s);
  mkdir = λ name mode s. (disk_full, suc s);
  rmdir = λ name s. (no_error, suc s);
  rename = λ old new s. (no_error, suc s);
  symlink = λ target link s. (no_error, suc s);
  hardlink = λ old new s. (no_error, suc s);
  setstat = λ name attr s. (no_error, suc s);
  fsetstat = λ h attr s. (no_error, suc s);
  readlink = λ name s. ((no_error, name), suc s);
  canonicalize_path = λ name s. ((no_error, name), suc s);
  expand_path = λ name s. ((no_error, name), suc s);
}

-- Two bytes of three are there to read.
abbrev short_file : Handlers ℕ
short_file = record counting {
  read_at = λ h offset memory s. ((no_error, 2, 7 ∷ 8 ∷ 0 ∷ []), suc s);
}

serve_packet-read_example :
    serve_packet is_none no_text short_file garbage
      (drop 4 (packet Fxp.read 3 (body (read_at_call path 0 3))))
      0
    ≡ reply (7 ∷ 8 ∷ []) 1
serve_packet-read_example =
    serve_packet-read is_none no_text short_file path 0 3 3 2 garbage (7 ∷ 8 ∷ 0 ∷ []) 0 1
      (omega arith) (omega arith) (omega arith) (omega arith) refl refl (omega arith)

match_packet-add_u32_example : match_packet (255 ∷ 255 ∷ 255 ∷ 254 ∷ 101 ∷ []) ≡ some 2
match_packet-add_u32_example = match_packet-add_u32 2 (101 ∷ []) (omega arith)

-- EEXIST, and what it is equal to.
abbrev already_there : ErrorCode
already_there = record { value = 17; category = Category.generic }

abbrev is_file_exists : ErrorCode → Condition → Bool
is_file_exists ec c = number file_exists == number c

status_of-default_error_condition_example :
    equivalent (status_of is_file_exists no_text already_there) (general file_exists) ≡ true
unfolding equivalent default_error_condition
status_of-default_error_condition_example =
    status_of-default_error_condition is_file_exists no_text already_there file_exists 11 refl refl
      (λ d. refl) refl
