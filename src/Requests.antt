-- ===== src/Requests.antt =====
-- The requests of the client in src/sftp.cpp: for each operation of `session`, `file` and `dir` the
-- length that it computes and the calls that fill its buffer. (`open_file` is `session::open`, `readdir`
-- is `dir::do_read_`, `close` is `dir::close` and `file::close`, `read_at` and `write_at` are
-- `file::read_some_at` and `file::write_some_at`.) A path or a handle is its bytes.
pub mod Packets
pub mod Sent
use corosh.Base.{ℕ, ◌+◌, List, [], ◌∷◌, length, take, replicate, leb, if◌then◌else◌}
pub use corosh.Base.Text.{bytes_of}
use corosh.Wire.{Writer, start, memory, ◌▷◌, put_u8, put_u32, put_u64, put_str}
use corosh.Attributes.{Attributes, bits, attr_permissions, attr_uidgid, attrs_length, put_attrs}
use corosh.Fxp

unfoldable pub hardlink_name : List ℕ
hardlink_name = bytes_of "hardlink@openssh.com"

unfoldable pub expand_path_name : List ℕ
expand_path_name = bytes_of "expand-path@openssh.com"

unfoldable pub home_directory_name : List ℕ
home_directory_name = bytes_of "home-directory"

-- `length` is the local constant of each operation; `write` are its `put_` calls for a request id.
pub record Request : Type 0 where
  pub length : ℕ
  pub write : ℕ → Writer → Writer

-- `small_buffer<1024>::get(n)`: a prefix of the uninitialised array `small`, or a fresh vector.
unfoldable pub get_small_buffer : List ℕ → ℕ → List ℕ
get_small_buffer small n = if leb n 1024 then take n small else replicate n 0

-- The bytes that the operation hands to `boost::capy::write`.
unfoldable pub to_write : Request → ℕ → List ℕ → List ℕ
to_write r id small = memory (r.write id (start (get_small_buffer small (4 + r.length))))

unfoldable pub unlink : List ℕ → Request
unlink filename = record {
  length = 1 + 4 + (4 + length filename);
  write = λ id.
      put_u32 (1 + 4 + (4 + length filename)) ▷ put_u8 Fxp.remove ▷ put_u32 id ▷ put_str filename;
}

unfoldable pub mkdir : List ℕ → ℕ → Request
mkdir path mode = record {
  length = 1 + 4 + (4 + length path) + (4 + 4);
  write = λ id.
      put_u32 (1 + 4 + (4 + length path) + (4 + 4))
      ▷ put_u8 Fxp.mkdir
      ▷ put_u32 id
      ▷ put_str path
      ▷ put_u32 (bits attr_permissions)
      ▷ put_u32 mode;
}

unfoldable pub rmdir : List ℕ → Request
rmdir path = record {
  length = 1 + 4 + (4 + length path);
  write = λ id. put_u32 (1 + 4 + (4 + length path)) ▷ put_u8 Fxp.rmdir ▷ put_u32 id ▷ put_str path;
}

unfoldable pub rename : List ℕ → List ℕ → Request
rename oldpath newpath = record {
  length = 1 + 4 + (4 + length oldpath) + (4 + length newpath);
  write = λ id.
      put_u32 (1 + 4 + (4 + length oldpath) + (4 + length newpath))
      ▷ put_u8 Fxp.rename
      ▷ put_u32 id
      ▷ put_str oldpath
      ▷ put_str newpath;
}

unfoldable pub chmod : List ℕ → ℕ → Request
chmod path mode = record {
  length = 1 + 4 + (4 + length path) + (4 + 4);
  write = λ id.
      put_u32 (1 + 4 + (4 + length path) + (4 + 4))
      ▷ put_u8 Fxp.setstat
      ▷ put_u32 id
      ▷ put_str path
      ▷ put_u32 (bits attr_permissions)
      ▷ put_u32 mode;
}

unfoldable pub chown : List ℕ → ℕ → ℕ → Request
chown path owner group = record {
  length = 1 + 4 + (4 + length path) + (4 + 4 + 4);
  write = λ id.
      put_u32 (1 + 4 + (4 + length path) + (4 + 4 + 4))
      ▷ put_u8 Fxp.setstat
      ▷ put_u32 id
      ▷ put_str path
      ▷ put_u32 (bits attr_uidgid)
      ▷ put_u32 owner
      ▷ put_u32 group;
}

unfoldable pub symlink : List ℕ → List ℕ → Request
symlink target dest = record {
  length = 1 + 4 + (4 + length target) + (4 + length dest);
  write = λ id.
      put_u32 (1 + 4 + (4 + length target) + (4 + length dest))
      ▷ put_u8 Fxp.symlink
      ▷ put_u32 id
      ▷ put_str target
      ▷ put_str dest;
}

unfoldable pub hardlink : List ℕ → List ℕ → Request
hardlink oldpath newpath = record {
  length = 1 + 4 + (4 + length hardlink_name) + (4 + length oldpath) + (4 + length newpath);
  write = λ id.
      put_u32 (1 + 4 + (4 + length hardlink_name) + (4 + length oldpath) + (4 + length newpath))
      ▷ put_u8 Fxp.extended
      ▷ put_u32 id
      ▷ put_str hardlink_name
      ▷ put_str oldpath
      ▷ put_str newpath;
}

unfoldable pub setstat : List ℕ → Attributes → Request
setstat path attr = record {
  length = 1 + 4 + (4 + length path) + attrs_length attr;
  write = λ id.
      put_u32 (1 + 4 + (4 + length path) + attrs_length attr)
      ▷ put_u8 Fxp.setstat
      ▷ put_u32 id
      ▷ put_str path
      ▷ put_attrs attr;
}

unfoldable pub opendir : List ℕ → Request
opendir path = record {
  length = 1 + 4 + (4 + length path);
  write =
      λ id. put_u32 (1 + 4 + (4 + length path)) ▷ put_u8 Fxp.opendir ▷ put_u32 id ▷ put_str path;
}

unfoldable pub open_file : List ℕ → ℕ → ℕ → Request
open_file path accesstype mode = record {
  length = 1 + 4 + (4 + length path) + 4 + (4 + 4);
  write = λ id.
      put_u32 (1 + 4 + (4 + length path) + 4 + (4 + 4))
      ▷ put_u8 Fxp.open_file
      ▷ put_u32 id
      ▷ put_str path
      ▷ put_u32 accesstype
      ▷ put_u32 (bits attr_permissions)
      ▷ put_u32 mode;
}

unfoldable pub readdir : List ℕ → Request
readdir handle = record {
  length = 1 + 4 + (4 + length handle);
  write = λ id.
      put_u32 (1 + 4 + (4 + length handle)) ▷ put_u8 Fxp.readdir ▷ put_u32 id ▷ put_str handle;
}

unfoldable pub close : List ℕ → Request
close handle = record {
  length = 1 + 4 + (4 + length handle);
  write =
      λ id. put_u32 (1 + 4 + (4 + length handle)) ▷ put_u8 Fxp.close ▷ put_u32 id ▷ put_str handle;
}

unfoldable pub read_at : List ℕ → ℕ → ℕ → Request
read_at handle offset len = record {
  length = 1 + 4 + (4 + length handle) + 8 + 4;
  write = λ id.
      put_u32 (1 + 4 + (4 + length handle) + 8 + 4)
      ▷ put_u8 Fxp.read
      ▷ put_u32 id
      ▷ put_str handle
      ▷ put_u64 offset
      ▷ put_u32 len;
}

unfoldable pub write_at : List ℕ → ℕ → List ℕ → Request
write_at handle offset buffer = record {
  length = 1 + 4 + (4 + length handle) + 8 + (4 + length buffer);
  write = λ id.
      put_u32 (1 + 4 + (4 + length handle) + 8 + (4 + length buffer))
      ▷ put_u8 Fxp.write
      ▷ put_u32 id
      ▷ put_str handle
      ▷ put_u64 offset
      ▷ put_str buffer;
}

unfoldable pub stat : List ℕ → Request
stat path = record {
  length = 1 + 4 + (4 + length path);
  write = λ id. put_u32 (1 + 4 + (4 + length path)) ▷ put_u8 Fxp.stat ▷ put_u32 id ▷ put_str path;
}

unfoldable pub lstat : List ℕ → Request
lstat path = record {
  length = 1 + 4 + (4 + length path);
  write = λ id. put_u32 (1 + 4 + (4 + length path)) ▷ put_u8 Fxp.lstat ▷ put_u32 id ▷ put_str path;
}

unfoldable pub readlink : List ℕ → Request
readlink path = record {
  length = 1 + 4 + (4 + length path);
  write =
      λ id. put_u32 (1 + 4 + (4 + length path)) ▷ put_u8 Fxp.readlink ▷ put_u32 id ▷ put_str path;
}

unfoldable pub canonicalize_path : List ℕ → Request
canonicalize_path path = record {
  length = 1 + 4 + (4 + length path);
  write =
      λ id. put_u32 (1 + 4 + (4 + length path)) ▷ put_u8 Fxp.realpath ▷ put_u32 id ▷ put_str path;
}

unfoldable pub expand_path : List ℕ → Request
expand_path path = record {
  length = 1 + 4 + (4 + length expand_path_name) + (4 + length path);
  write = λ id.
      put_u32 (1 + 4 + (4 + length expand_path_name) + (4 + length path))
      ▷ put_u8 Fxp.extended
      ▷ put_u32 id
      ▷ put_str expand_path_name
      ▷ put_str path;
}

unfoldable pub home_directory : List ℕ → Request
home_directory username = record {
  length = 1 + 4 + (4 + length home_directory_name) + (4 + length username);
  write = λ id.
      put_u32 (1 + 4 + (4 + length home_directory_name) + (4 + length username))
      ▷ put_u8 Fxp.extended
      ▷ put_u32 id
      ▷ put_str home_directory_name
      ▷ put_str username;
}
