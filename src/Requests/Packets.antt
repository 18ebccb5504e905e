-- ===== src/Requests/Packets.antt =====
-- Every request is one well-formed packet of the SFTP protocol.
use corosh.Base.{ℕ, ◌+◌, ◌≡◌, refl, List, ◌++◌, length, length-append, arith}
use corosh.Wire.{Writer, ◌▷◌, put_u8, put_u32, bytes_u8, bytes_u32, bytes_u64}
use corosh.Wire.Writes.{
  Writes, Writes-▷, Writes-put_u8, Writes-put_u32, Writes-put_u64, Writes-put_str,
}
use corosh.Attributes.{Attributes, bits, attr_permissions, attr_uidgid}
use corosh.Attributes.Bytes.{attrs_bytes, attrs_length-length, Writes-put_attrs}
use corosh.Fxp
use corosh.Requests.{
  Request, hardlink_name, expand_path_name, home_directory_name, unlink, mkdir, rmdir, rename,
  chmod, chown, symlink, hardlink, setstat, opendir, open_file, readdir, close, read_at, write_at,
  stat, lstat, readlink, canonicalize_path, expand_path, home_directory,
}

-- string
abbrev pub str_bytes : List ℕ → List ℕ
str_bytes s = bytes_u32 (length s) ++ s

-- uint32 length, byte type, uint32 id, and what the type prescribes
abbrev pub packet : ℕ → ℕ → List ℕ → List ℕ
packet type id body = bytes_u32 (5 + length body) ++ (bytes_u8 type ++ (bytes_u32 id ++ body))

-- An operation of the client with its arguments.
pub data Call : Type 0 where
  unlink_call : List ℕ → Call
  mkdir_call : List ℕ → ℕ → Call
  rmdir_call : List ℕ → Call
  rename_call : List ℕ → List ℕ → Call
  chmod_call : List ℕ → ℕ → Call
  chown_call : List ℕ → ℕ → ℕ → Call
  symlink_call : List ℕ → List ℕ → Call
  hardlink_call : List ℕ → List ℕ → Call
  setstat_call : List ℕ → Attributes → Call
  opendir_call : List ℕ → Call
  open_file_call : List ℕ → ℕ → ℕ → Call
  readdir_call : List ℕ → Call
  close_call : List ℕ → Call
  read_at_call : List ℕ → ℕ → ℕ → Call
  write_at_call : List ℕ → ℕ → List ℕ → Call
  stat_call : List ℕ → Call
  lstat_call : List ℕ → Call
  readlink_call : List ℕ → Call
  canonicalize_path_call : List ℕ → Call
  expand_path_call : List ℕ → Call
  home_directory_call : List ℕ → Call

unfoldable pub request : Call → Request
request (unlink_call filename) = unlink filename
request (mkdir_call path mode) = mkdir path mode
request (rmdir_call path) = rmdir path
request (rename_call oldpath newpath) = rename oldpath newpath
request (chmod_call path mode) = chmod path mode
request (chown_call path owner group) = chown path owner group
request (symlink_call target dest) = symlink target dest
request (hardlink_call oldpath newpath) = hardlink oldpath newpath
request (setstat_call path attr) = setstat path attr
request (opendir_call path) = opendir path
request (open_file_call path accesstype mode) = open_file path accesstype mode
request (readdir_call handle) = readdir handle
request (close_call handle) = close handle
request (read_at_call handle offset len) = read_at handle offset len
request (write_at_call handle offset buffer) = write_at handle offset buffer
request (stat_call path) = stat path
request (lstat_call path) = lstat path
request (readlink_call path) = readlink path
request (canonicalize_path_call path) = canonicalize_path path
request (expand_path_call path) = expand_path path
request (home_directory_call username) = home_directory username

-- What the protocol prescribes for the operation: the packet's type and its body.
abbrev pub opcode : Call → ℕ
opcode (unlink_call _) = Fxp.remove
opcode (mkdir_call _ _) = Fxp.mkdir
opcode (rmdir_call _) = Fxp.rmdir
opcode (rename_call _ _) = Fxp.rename
opcode (chmod_call _ _) = Fxp.setstat
opcode (chown_call _ _ _) = Fxp.setstat
opcode (symlink_call _ _) = Fxp.symlink
opcode (hardlink_call _ _) = Fxp.extended
opcode (setstat_call _ _) = Fxp.setstat
opcode (opendir_call _) = Fxp.opendir
opcode (open_file_call _ _ _) = Fxp.open_file
opcode (readdir_call _) = Fxp.readdir
opcode (close_call _) = Fxp.close
opcode (read_at_call _ _ _) = Fxp.read
opcode (write_at_call _ _ _) = Fxp.write
opcode (stat_call _) = Fxp.stat
opcode (lstat_call _) = Fxp.lstat
opcode (readlink_call _) = Fxp.readlink
opcode (canonicalize_path_call _) = Fxp.realpath
opcode (expand_path_call _) = Fxp.extended
opcode (home_directory_call _) = Fxp.extended

abbrev pub body : Call → List ℕ
body (unlink_call filename) = str_bytes filename
body (mkdir_call path mode) =
    str_bytes path ++ (bytes_u32 (bits attr_permissions) ++ (bytes_u32 mode))
body (rmdir_call path) = str_bytes path
body (rename_call oldpath newpath) = str_bytes oldpath ++ (str_bytes newpath)
body (chmod_call path mode) =
    str_bytes path ++ (bytes_u32 (bits attr_permissions) ++ (bytes_u32 mode))
body (chown_call path owner group) =
    str_bytes path ++ (bytes_u32 (bits attr_uidgid) ++ (bytes_u32 owner ++ (bytes_u32 group)))
body (symlink_call target dest) = str_bytes target ++ (str_bytes dest)
body (hardlink_call oldpath newpath) =
    str_bytes hardlink_name ++ (str_bytes oldpath ++ (str_bytes newpath))
body (setstat_call path attr) = str_bytes path ++ (attrs_bytes attr)
body (opendir_call path) = str_bytes path
body (open_file_call path accesstype mode) =
    str_bytes path
    ++ (bytes_u32 accesstype ++ (bytes_u32 (bits attr_permissions) ++ (bytes_u32 mode)))
body (readdir_call handle) = str_bytes handle
body (close_call handle) = str_bytes handle
body (read_at_call handle offset len) = str_bytes handle ++ (bytes_u64 offset ++ (bytes_u32 len))
body (write_at_call handle offset buffer) =
    str_bytes handle ++ (bytes_u64 offset ++ (str_bytes buffer))
body (stat_call path) = str_bytes path
body (lstat_call path) = str_bytes path
body (readlink_call path) = str_bytes path
body (canonicalize_path_call path) = str_bytes path
body (expand_path_call path) = str_bytes expand_path_name ++ (str_bytes path)
body (home_directory_call username) = str_bytes home_directory_name ++ (str_bytes username)

pub record Sends (r : Request) (type : ℕ) (content : List ℕ) : Type 0 where
  pub size : r.length ≡ 5 + length content
  pub puts : (id : ℕ) → Writes (r.write id) (packet type id content)

Writes-packet :
    {f : Writer → Writer} (content : List ℕ) (n type id : ℕ)
    → n ≡ 5 + length content
    → Writes f content
    → Writes (put_u32 n ▷ put_u8 type ▷ put_u32 id ▷ f) (packet type id content)
Writes-packet {f} content n type id e p = rw e (
    Writes-▷ (Writes-put_u32 (5 + length content))
      (Writes-▷ (Writes-put_u8 type) (Writes-▷ (Writes-put_u32 id) p)))

sent :
    {r : Request} {f : ℕ → Writer → Writer} (content : List ℕ) (type : ℕ)
    → r.length ≡ 5 + length content
    → ((id : ℕ) → r.write id ≡ (put_u32 r.length ▷ put_u8 type ▷ put_u32 id ▷ f id))
    → ((id : ℕ) → Writes (f id) content)
    → Sends r type content
sent {r} content type size same p = record {
  size = size;
  puts = λ id. rw (same id) (Writes-packet content r.length type id size (p id));
}

pub request-Sends : (c : Call) → Sends (request c) (opcode c) (body c)
unfolding request unlink mkdir rmdir rename chmod chown symlink hardlink setstat opendir open_file
    readdir close read_at write_at stat lstat readlink canonicalize_path expand_path home_directory
request-Sends (unlink_call filename) =
    sent (body (unlink_call filename)) Fxp.remove (omega arith) (λ id. refl)
      (λ id. Writes-put_str filename)
request-Sends (mkdir_call path mode) =
    sent (body (mkdir_call path mode)) Fxp.mkdir
      (omega (arith, length-append path (bytes_u32 (bits attr_permissions) ++ (bytes_u32 mode))))
      (λ id. refl)
      (λ id.
        Writes-▷ (Writes-put_str path)
          (Writes-▷ (Writes-put_u32 (bits attr_permissions)) (Writes-put_u32 mode)))
request-Sends (rmdir_call path) =
    sent (body (rmdir_call path)) Fxp.rmdir (omega arith) (λ id. refl) (λ id. Writes-put_str path)
request-Sends (rename_call oldpath newpath) =
    sent (body (rename_call oldpath newpath)) Fxp.rename
      (omega (arith, length-append oldpath (str_bytes newpath))) (λ id. refl)
      (λ id. Writes-▷ (Writes-put_str oldpath) (Writes-put_str newpath))
request-Sends (chmod_call path mode) =
    sent (body (chmod_call path mode)) Fxp.setstat
      (omega (arith, length-append path (bytes_u32 (bits attr_permissions) ++ (bytes_u32 mode))))
      (λ id. refl)
      (λ id.
        Writes-▷ (Writes-put_str path)
          (Writes-▷ (Writes-put_u32 (bits attr_permissions)) (Writes-put_u32 mode)))
request-Sends (chown_call path owner group) =
    sent (body (chown_call path owner group)) Fxp.setstat
      (omega (
        arith,
        length-append path (bytes_u32 (bits attr_uidgid) ++ (bytes_u32 owner ++ (bytes_u32 group))),
      ))
      (λ id. refl)
      (λ id. Writes-▷ (Writes-put_str path) (
        Writes-▷ (Writes-put_u32 (bits attr_uidgid))
          (Writes-▷ (Writes-put_u32 owner) (Writes-put_u32 group))))
request-Sends (symlink_call target dest) =
    sent (body (symlink_call target dest)) Fxp.symlink
      (omega (arith, length-append target (str_bytes dest))) (λ id. refl)
      (λ id. Writes-▷ (Writes-put_str target) (Writes-put_str dest))
request-Sends (hardlink_call oldpath newpath) =
    sent (body (hardlink_call oldpath newpath)) Fxp.extended
      (omega (
        arith,
        length-append hardlink_name (str_bytes oldpath ++ (str_bytes newpath)),
        length-append oldpath (str_bytes newpath),
      ))
      (λ id. refl)
      (λ id.
        Writes-▷ (Writes-put_str hardlink_name)
          (Writes-▷ (Writes-put_str oldpath) (Writes-put_str newpath)))
request-Sends (setstat_call path attr) =
    sent (body (setstat_call path attr)) Fxp.setstat
      (omega (arith, length-append path (attrs_bytes attr), attrs_length-length attr)) (λ id. refl)
      (λ id. Writes-▷ (Writes-put_str path) (Writes-put_attrs attr))
request-Sends (opendir_call path) =
    sent (body (opendir_call path)) Fxp.opendir (omega arith) (λ id. refl)
      (λ id. Writes-put_str path)
request-Sends (open_file_call path accesstype mode) =
    sent (body (open_file_call path accesstype mode)) Fxp.open_file
      (omega (
        arith,
        length-append path
            (bytes_u32 accesstype ++ (bytes_u32 (bits attr_permissions) ++ (bytes_u32 mode))),
      ))
      (λ id. refl)
      (λ id. Writes-▷ (Writes-put_str path) (
        Writes-▷ (Writes-put_u32 accesstype)
          (Writes-▷ (Writes-put_u32 (bits attr_permissions)) (Writes-put_u32 mode))))
request-Sends (readdir_call handle) =
    sent (body (readdir_call handle)) Fxp.readdir (omega arith) (λ id. refl)
      (λ id. Writes-put_str handle)
request-Sends (close_call handle) =
    sent (body (close_call handle)) Fxp.close (omega arith) (λ id. refl)
      (λ id. Writes-put_str handle)
request-Sends (read_at_call handle offset len) =
    sent (body (read_at_call handle offset len)) Fxp.read
      (omega (arith, length-append handle (bytes_u64 offset ++ (bytes_u32 len)))) (λ id. refl)
      (λ id.
        Writes-▷ (Writes-put_str handle) (Writes-▷ (Writes-put_u64 offset) (Writes-put_u32 len)))
request-Sends (write_at_call handle offset buffer) =
    sent (body (write_at_call handle offset buffer)) Fxp.write
      (omega (arith, length-append handle (bytes_u64 offset ++ (str_bytes buffer)))) (λ id. refl)
      (λ id.
        Writes-▷ (Writes-put_str handle) (Writes-▷ (Writes-put_u64 offset) (Writes-put_str buffer)))
request-Sends (stat_call path) =
    sent (body (stat_call path)) Fxp.stat (omega arith) (λ id. refl) (λ id. Writes-put_str path)
request-Sends (lstat_call path) =
    sent (body (lstat_call path)) Fxp.lstat (omega arith) (λ id. refl) (λ id. Writes-put_str path)
request-Sends (readlink_call path) =
    sent (body (readlink_call path)) Fxp.readlink (omega arith) (λ id. refl)
      (λ id. Writes-put_str path)
request-Sends (canonicalize_path_call path) =
    sent (body (canonicalize_path_call path)) Fxp.realpath (omega arith) (λ id. refl)
      (λ id. Writes-put_str path)
request-Sends (expand_path_call path) =
    sent (body (expand_path_call path)) Fxp.extended
      (omega (arith, length-append expand_path_name (str_bytes path))) (λ id. refl)
      (λ id. Writes-▷ (Writes-put_str expand_path_name) (Writes-put_str path))
request-Sends (home_directory_call username) =
    sent (body (home_directory_call username)) Fxp.extended
      (omega (arith, length-append home_directory_name (str_bytes username))) (λ id. refl)
      (λ id. Writes-▷ (Writes-put_str home_directory_name) (Writes-put_str username))
