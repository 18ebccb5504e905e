-- ===== src/FileServer/Named.antt =====
-- The operations of `sftp_server` on paths: the rest of example/server.cpp to line 455, and the server as the
-- handlers of a worker.
use corosh.Base.{ℕ, true, ◌∷◌, [], if◌then◌else◌}
use corosh.Base.Text.{Text}
use corosh.Errors.{ErrorCode, no_error, failed}
use corosh.Attributes.{Attributes, attr_size, attr_uidgid, attr_permissions, attr_acmodtime}
use corosh.Server.{Handlers}
use corosh.FileServer as F
use corosh.FileServer.{System, Posix}
use corosh.FileServer.Handles.{
  Server, checked, checked_stat, apply_if, open_file, read_at, write_at, fstat, close, fsetstat,
  opendir, readdir,
}
use corosh.FileServer.Paths.{FilePath, sftp_to_local, path, lexically_normal, string}

module _ {S D : Type 0} (sys : System S D) where
  abbrev with_server : {A : Type 0} → (S → A × S) → Server sys → A × Server sys
  with_server g (f, s) = let (r, s') = g s in (r, (f, s'))

  abbrev call : Posix → Server sys → ErrorCode × Server sys
  call p = with_server (λ s. checked sys (sys.call p s))

  -- The path of a client in the file system below the root.
  abbrev pub local : Text → Server sys → FilePath
  local text (f, s) = sftp_to_local f.root_path text

  unfoldable pub stat : Text → Server sys → (ErrorCode × Attributes) × Server sys
  stat name f = with_server (λ s. checked_stat sys (sys.stat (local name f) s)) f

  unfoldable pub lstat : Text → Server sys → (ErrorCode × Attributes) × Server sys
  lstat name f = with_server (λ s. checked_stat sys (sys.lstat (local name f) s)) f

  unfoldable pub setstat : Text → Attributes → Server sys → ErrorCode × Server sys
  setstat name attr f =
      let cpath = local name f in
      with_server
        (apply_if sys attr attr_size (F.truncate cpath (F.off_t attr.size)) (
          apply_if sys attr attr_permissions (F.chmod cpath attr.permissions) (
            apply_if sys attr attr_uidgid (F.chown cpath attr.uid attr.gid) (
              apply_if sys attr attr_acmodtime (F.utimensat cpath attr.atime attr.mtime)
                (λ t. (no_error, t))))))
        f

  unfoldable pub unlink : Text → Server sys → ErrorCode × Server sys
  unlink name f = call (F.unlink (local name f)) f

  unfoldable pub mkdir : Text → ℕ → Server sys → ErrorCode × Server sys
  mkdir name mode f = call (F.mkdir (local name f) mode) f

  unfoldable pub rmdir : Text → Server sys → ErrorCode × Server sys
  rmdir name f = call (F.rmdir (local name f)) f

  unfoldable pub rename : Text → Text → Server sys → ErrorCode × Server sys
  rename original newname f = call (F.rename (local original f) (local newname f)) f

  unfoldable pub chmod : Text → ℕ → Server sys → ErrorCode × Server sys
  chmod name mode f = call (F.chmod (local name f) mode) f

  unfoldable pub chown : Text → ℕ → ℕ → Server sys → ErrorCode × Server sys
  chown name owner group f = call (F.chown (local name f) owner group) f

  -- The target is the content of the link as it is.
  unfoldable pub symlink : Text → Text → Server sys → ErrorCode × Server sys
  symlink target dest f = call (F.symlink target (local dest f)) f

  unfoldable pub hardlink : Text → Text → Server sys → ErrorCode × Server sys
  hardlink oldpath newpath f = call (F.link (local oldpath f) (local newpath f)) f

  unfoldable pub readlink : Text → Server sys → (ErrorCode × Text) × Server sys
  readlink name f =
      let ((ec, target), s') = sys.read_symlink (local name f) f.1 in
      (if failed ec then (ec, []) else (no_error, target), (f.0, s'))

  -- `"/" / relative(pt, root_path)`: an absolute path on the right replaces the root.
  unfoldable pub local_to_sftp : FilePath → FilePath → S → FilePath
  local_to_sftp root_path pt s = let r = sys.relative pt root_path s in record r { absolute = true }

  unfoldable pub canonicalize_path : Text → Server sys → (ErrorCode × Text) × Server sys
  unfolding local_to_sftp
  canonicalize_path name (f, s) =
      let ((ec, resolved), s') = sys.weakly_canonical (local name (f, s)) s in
      (
        if failed ec then (ec, []) else (no_error, string (local_to_sftp f.root_path resolved s')),
        (f, s'),
      )

  unfoldable pub expand_path : Text → Server sys → (ErrorCode × Text) × Server sys
  expand_path name f = ((no_error, string (lexically_normal (path name))), f)

  unfoldable pub home_directory : Text → Server sys → (ErrorCode × Text) × Server sys
  home_directory username f = ((no_error, 47 ∷ []), f)

  -- The object as the worker sees it; the worker does not look at the count of `write_at`.
  unfoldable pub sftp_server : ErrorCode → Handlers (Server sys)
  sftp_server eof = record {
    open_file = open_file sys;
    read_at = read_at sys;
    write_at =
        λ handle offset bytes f. let (r, f') = write_at sys handle offset bytes f in (r.0, f');
    fstat = fstat sys;
    close = close sys;
    opendir = opendir sys;
    readdir = readdir sys eof;
    stat = stat;
    lstat = lstat;
    unlink = unlink;
    mkdir = mkdir;
    rmdir = rmdir;
    rename = rename;
    symlink = symlink;
    hardlink = hardlink;
    setstat = setstat;
    fsetstat = fsetstat sys;
    readlink = readlink;
    canonicalize_path = canonicalize_path;
    expand_path = expand_path;
  }
