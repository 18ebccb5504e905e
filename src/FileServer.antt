-- ===== src/FileServer.antt =====
-- `sftp_server` of example/server.cpp: the files and directories behind the worker. An open file is its
-- descriptor, which the closing of the object gives back; the tables are association lists.
pub mod Paths
pub mod Handles
pub mod Named
pub mod Contents
pub mod Written
pub mod Served
pub mod Changes
pub mod Sandbox
pub mod Tables
pub mod Opened
use corosh.Base.{
  ℕ, zero, suc, ◌+◌, ◌-◌, ◌%◌, ◌^◌, ◌/◌, Bool, true, false, not, List, [], ◌∷◌, ◌++◌, Option, none,
  some, ltb, bit_and, ◌==◌, same_bytes, if◌then◌else◌,
}
use corosh.Base.Int.{ℤ, pos, negsuc}
use corosh.Base.Text.{Text}
use corosh.Errors.{ErrorCode}
use corosh.Attributes.{Attributes, no_attributes}
use corosh.Poll.{generic_error}
use Paths.{FilePath}

-- The flags of `corosio::file_base`.
pub record OpenFlags : Type 0 where
  pub read_only : Bool
  pub write_only : Bool
  pub append : Bool
  pub create : Bool
  pub truncate : Bool
  pub exclusive : Bool

-- `struct ::stat`
pub record Stat : Type 0 where
  pub st_size : ℕ
  pub st_uid : ℕ
  pub st_gid : ℕ
  pub st_mode : ℕ
  pub st_atime : ℕ
  pub st_mtime : ℕ

-- `static_cast<off_t>`, to 64 bits with a sign
unfoldable pub off_t : ℕ → ℤ
off_t n = if ltb n (2 ^ 63) then pos n else negsuc (2 ^ 64 - 1 - n)

-- The POSIX functions that are called for their effect; times are seconds.
pub data Posix : Type 0 where
  truncate : FilePath → ℤ → Posix
  chmod : FilePath → ℕ → Posix
  chown : FilePath → ℕ → ℕ → Posix
  utimensat : FilePath → ℕ → ℕ → Posix
  ftruncate : ℕ → ℤ → Posix
  fchmod : ℕ → ℕ → Posix
  fchown : ℕ → ℕ → ℕ → Posix
  futimens : ℕ → ℕ → ℕ → Posix
  unlink : FilePath → Posix
  mkdir : FilePath → ℕ → Posix
  rmdir : FilePath → Posix
  rename : FilePath → FilePath → Posix
  symlink : Text → FilePath → Posix
  link : FilePath → FilePath → Posix

-- What the server uses of the system and of `corosio::random_access_file`, with the state behind them.
-- `open_file` and `sync_all` throw a `system_error` where they give a code that has failed; of `D`, a
-- `directory_iterator`, `at_end` compares it with the end, and `filename` and `entry_path` are those of the
-- path that it points to.
pub record System (S D : Type 0) : Type 0 where
  pub open_file : FilePath → OpenFlags → S → (ErrorCode × ℕ) × S
  pub close : ℕ → S → S
  pub read_some_at : ℕ → ℕ → ℕ → S → (ErrorCode × List ℕ) × S
  pub write_some_at : ℕ → ℕ → List ℕ → S → (ErrorCode × ℕ) × S
  pub sync_all : ℕ → S → ErrorCode × S
  pub call : Posix → S → ℤ × S
  pub stat : FilePath → S → (ℤ × Stat) × S
  pub lstat : FilePath → S → (ℤ × Stat) × S
  pub fstat : ℕ → S → (ℤ × Stat) × S
  pub errno : S → ℕ
  pub directory : FilePath → S → (ErrorCode × D) × S
  pub at_end : D → Bool
  pub filename : D → Text
  pub entry_path : D → FilePath
  pub increment : D → S → (ErrorCode × D) × S
  pub read_symlink : FilePath → S → (ErrorCode × Text) × S
  pub weakly_canonical : FilePath → S → (ErrorCode × FilePath) × S
  pub relative : FilePath → FilePath → S → FilePath

pub record SftpServer (D : Type 0) : Type 0 where
  pub handle_gen : ℕ
  pub root_path : FilePath
  pub open_files : List (Text × ℕ)
  pub dirs : List (Text × D)

-- `find`, `emplace`, which keeps what stands at the key, and `erase`
module _ {V : Type 0} where
  abbrev pub find : Text → List (Text × V) → Option V
  find key [] = none
  find key ((k, v) ∷ rest) = if same_bytes k key then some v else find key rest

  abbrev pub emplace : Text → V → List (Text × V) → List (Text × V)
  emplace key v table = elim (find key table) [ none ↦ (key, v) ∷ table | some _ ↦ table ]

  abbrev pub erase : Text → List (Text × V) → List (Text × V)
  erase key [] = []
  erase key ((k, v) ∷ rest) = if same_bytes k key then erase key rest else (k, v) ∷ erase key rest

-- `std::to_string`; `suc n` digits are enough for `n`.
abbrev pub digits : ℕ → ℕ → Text
digits zero n = []
digits (suc fuel) n = elim (ltb n 10) [
  | true ↦ (48 + n) ∷ []
  | false ↦ digits fuel (n / 10) ++ (48 + n % 10) ∷ []
]

unfoldable pub to_string : ℕ → Text
to_string n = digits (suc n) n

-- `std::errc::bad_file_descriptor` and `std::errc::io_error`
abbrev pub bad_file_descriptor : ErrorCode
bad_file_descriptor = generic_error 9

abbrev pub io_error : ErrorCode
io_error = generic_error 5

-- The mask of the source holds these four flags.
unfoldable pub to_attributes : Stat → Attributes
to_attributes st = record no_attributes {
  flags = 1 + 2 + 4 + 8;
  size = st.st_size % 2 ^ 64;
  uid = st.st_uid;
  gid = st.st_gid;
  permissions = st.st_mode;
  atime = st.st_atime % 2 ^ 32;
  mtime = st.st_mtime % 2 ^ 32;
}

-- `accesstype & SSH_FXF_READ` and so on
abbrev bit : ℕ → ℕ → Bool
bit mask accesstype = not (bit_and accesstype mask == 0)

unfoldable pub to_flags : ℕ → OpenFlags
to_flags accesstype = record {
  read_only = bit 1 accesstype;
  write_only = bit 2 accesstype;
  append = bit 4 accesstype;
  create = bit 8 accesstype;
  truncate = bit 16 accesstype;
  exclusive = bit 32 accesstype;
}
