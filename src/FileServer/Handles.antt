-- ===== src/FileServer/Handles.antt =====
-- The operations of `sftp_server` that make a handle or look one up: example/server.cpp from line 84 to
-- line 180, from line 198 to line 279, and `opendir` and `readdir`.
use corosh.Base.{
  ℕ, zero, suc, ◌+◌, ◌%◌, ◌^◌, true, false, not, List, [], ◌∷◌, ◌++◌, none, some, length, drop,
  if◌then◌else◌,
}
use corosh.Base.Int.{ℤ, pos, eq_ℤ}
use corosh.Base.Text.{Text}
use corosh.Errors.{ErrorCode, no_error, failed}
use corosh.Attributes.{
  Attributes, Mask, no_attributes, has, attr_size, attr_uidgid, attr_permissions, attr_acmodtime,
}
use corosh.Responses.{Entry}
use corosh.Poll.{generic_error}
use corosh.FileServer.{
  System, SftpServer, Stat, Posix, ftruncate, fchmod, fchown, futimens, off_t, find, emplace, erase,
  to_string, bad_file_descriptor, io_error, to_attributes, to_flags,
}
use corosh.FileServer.Paths.{sftp_to_local}

module _ {S D : Type 0} (sys : System S D) where
  -- The server with the state of the system behind it.
  abbrev pub Server : Type 0
  Server = SftpServer D × S

  -- `if (... != 0) co_return std::error_code(errno, std::generic_category());`
  abbrev pub checked : ℤ × S → ErrorCode × S
  checked (rc, s) = (if eq_ℤ rc (pos 0) then no_error else generic_error (sys.errno s), s)

  abbrev pub checked_stat : (ℤ × Stat) × S → (ErrorCode × Attributes) × S
  checked_stat ((rc, st), s) =
      if eq_ℤ rc (pos 0)
      then ((no_error, to_attributes st), s)
      else ((generic_error (sys.errno s), no_attributes), s)

  abbrev next_handle : SftpServer D → ℕ
  next_handle f = (f.handle_gen + 1) % 2 ^ 64

  unfoldable pub open_file : Text → ℕ → ℕ → Server → (ErrorCode × Text) × Server
  open_file name accesstype mode (f, s) =
      let ((ec, fd), s') = sys.open_file (sftp_to_local f.root_path name) (to_flags accesstype) s in
      let handle = to_string (next_handle f) in
      if failed ec then ((ec, []), (f, s')) else (
        (no_error, handle),
        (record f { handle_gen = next_handle f; open_files = emplace handle fd f.open_files }, s'),
      )

  -- The end of a round of `read_at`, with the rounds after it. The count, and the memory of the buffer.
  abbrev pub after_read :
      (ℕ → List ℕ → S → (ErrorCode × ℕ × List ℕ) × S)
      → ℕ
      → List ℕ
      → (ErrorCode × List ℕ) × S
      → (ErrorCode × ℕ × List ℕ) × S
  after_read more total buffer ((ec, bytes), s) =
      let left = drop (length bytes) buffer in
      elim (failed ec) [
        | true ↦ ((ec, total, bytes ++ left), s)
        | false ↦ elim bytes [
          | [] ↦ ((no_error, total, buffer), s)
          | c ∷ cs ↦
              let (r, s') = more (total + length (c ∷ cs)) (drop (length (c ∷ cs)) buffer) s in
              ((r.0, r.1, (c ∷ cs) ++ r.2), s')
        ]
      ]

  -- `while (buffer.size() > 0u)`: a round that goes on takes a byte at least off the buffer.
  unfoldable pub read_loop : ℕ → ℕ → ℕ → ℕ → List ℕ → S → (ErrorCode × ℕ × List ℕ) × S
  read_loop zero fd offset total buffer s = ((no_error, total, buffer), s)
  read_loop (suc fuel) fd offset total [] s = ((no_error, total, []), s)
  read_loop (suc fuel) fd offset total (b ∷ bs) s =
      after_read (read_loop fuel fd offset) total (b ∷ bs)
        (sys.read_some_at fd ((offset + total) % 2 ^ 64) (length (b ∷ bs)) s)

  unfoldable pub read_at : Text → ℕ → List ℕ → Server → (ErrorCode × ℕ × List ℕ) × Server
  unfolding read_loop
  read_at handle offset buffer (f, s) = elim (find handle f.open_files) [
    | none ↦ ((bad_file_descriptor, 0, buffer), (f, s))
    | some fd ↦ let (r, s') = read_loop (length buffer) fd offset 0 buffer s in (r, (f, s'))
  ]

  abbrev pub after_write :
      (ℕ → List ℕ → S → (ErrorCode × ℕ) × S)
      → ℕ
      → List ℕ
      → (ErrorCode × ℕ) × S
      → (ErrorCode × ℕ) × S
  after_write more total buffer ((ec, n), s) = elim (failed ec) [
    | true ↦ ((ec, total), s)
    | false ↦ elim n [
      | zero ↦ ((io_error, total), s)
      | suc k ↦ more (total + suc k) (drop (suc k) buffer) s
    ]
  ]

  unfoldable pub write_loop : ℕ → ℕ → ℕ → ℕ → List ℕ → S → (ErrorCode × ℕ) × S
  write_loop zero fd offset total buffer s = ((no_error, total), s)
  write_loop (suc fuel) fd offset total [] s = ((no_error, total), s)
  write_loop (suc fuel) fd offset total (b ∷ bs) s =
      after_write (write_loop fuel fd offset) total (b ∷ bs)
        (sys.write_some_at fd ((offset + total) % 2 ^ 64) (b ∷ bs) s)

  unfoldable pub write_at : Text → ℕ → List ℕ → Server → (ErrorCode × ℕ) × Server
  unfolding write_loop
  write_at handle offset buffer (f, s) = elim (find handle f.open_files) [
    | none ↦ ((bad_file_descriptor, 0), (f, s))
    | some fd ↦ let (r, s') = write_loop (length buffer) fd offset 0 buffer s in (r, (f, s'))
  ]

  unfoldable pub fstat : Text → Server → (ErrorCode × Attributes) × Server
  fstat handle (f, s) = elim (find handle f.open_files) [
    | none ↦ ((bad_file_descriptor, no_attributes), (f, s))
    | some fd ↦ let (r, s') = checked_stat (sys.fstat fd s) in (r, (f, s'))
  ]

  unfoldable pub fsync : Text → Server → ErrorCode × Server
  fsync handle (f, s) = elim (find handle f.open_files) [
    | none ↦ (bad_file_descriptor, (f, s))
    | some fd ↦ let (ec, s') = sys.sync_all fd s in (if failed ec then ec else no_error, (f, s'))
  ]

  unfoldable pub close : Text → Server → ErrorCode × Server
  close handle (f, s) = elim (find handle f.open_files) [
    | none ↦ elim (find handle f.dirs) [
      | none ↦ (bad_file_descriptor, (f, s))
      | some _ ↦ (no_error, (record f { dirs = erase handle f.dirs }, s))
    ]
    | some fd ↦ (no_error, (record f { open_files = erase handle f.open_files }, sys.close fd s))
  ]

  -- `if (attr.flags & MASK) { if (... != 0) co_return ...; }`, and what comes after it.
  abbrev pub apply_if : Attributes → Mask → Posix → (S → ErrorCode × S) → S → ErrorCode × S
  apply_if attr mask p after s =
      let (rc, s') = sys.call p s in
      if not (has attr.flags mask)
      then after s
      else if eq_ℤ rc (pos 0)
      then after s'
      else (generic_error (sys.errno s'), s')

  unfoldable pub fsetstat : Text → Attributes → Server → ErrorCode × Server
  fsetstat handle attr (f, s) = elim (find handle f.open_files) [
    | none ↦ (bad_file_descriptor, (f, s))
    | some fd ↦
        let (ec, s') =
          (apply_if attr attr_size (ftruncate fd (off_t attr.size)) (
              apply_if attr attr_permissions (fchmod fd attr.permissions) (
                apply_if attr attr_uidgid (fchown fd attr.uid attr.gid) (
                  apply_if attr attr_acmodtime (futimens fd attr.atime attr.mtime)
                    (λ t. (no_error, t))))))
            s in
        (ec, (f, s'))
  ]

  unfoldable pub opendir : Text → Server → (ErrorCode × Text) × Server
  opendir name (f, s) =
      let ((ec, dit), s') = sys.directory (sftp_to_local f.root_path name) s in
      let handle = 100 ∷ to_string (next_handle f) in
      if failed ec then ((ec, []), (f, s')) else (
        (no_error, handle),
        (record f { handle_gen = next_handle f; dirs = emplace handle dit f.dirs }, s'),
      )

  -- The entry of one file: without attributes if `lstat` fails.
  unfoldable pub entry_of : D → S → Entry × S
  entry_of dit s =
      let ((rc, st), s') = sys.lstat (sys.entry_path dit) s in
      (
        record {
          attr = if eq_ℤ rc (pos 0) then to_attributes st else no_attributes;
          name = sys.filename dit;
          long_name = sys.filename dit;
        },
        s',
      )

  -- The loop of `readdir`, with as many rounds as entries are left to `max_batch`.
  unfoldable pub read_batch : ℕ → D → S → List Entry × D × S
  unfolding entry_of
  read_batch zero dit s = ([], dit, s)
  read_batch (suc left) dit s = elim (sys.at_end dit) [
    | true ↦ ([], dit, s)
    | false ↦
        let (e, s1) = entry_of dit s in
        let ((inc_ec, dit'), s2) = sys.increment dit s1 in
        elim (failed inc_ec) [
          | true ↦ (e ∷ [], dit', s2)
          | false ↦ let r = read_batch left dit' s2 in (e ∷ r.0, r.1, r.2)
        ]
  ]

  -- The iterator that the table holds is the one that moves on.
  abbrev pub advance : Text → D → List (Text × D) → List (Text × D)
  advance handle dit dirs = emplace handle dit (erase handle dirs)

  module _ (eof : ErrorCode) where
    unfoldable pub readdir : Text → Server → (ErrorCode × List Entry) × Server
    unfolding read_batch
    readdir handle (f, s) = elim (find handle f.dirs) [
      | none ↦ ((bad_file_descriptor, []), (f, s))
      | some dit ↦
          let (entries, dit', s') = read_batch 64 dit s in
          let moved : Server = (record f { dirs = advance handle dit' f.dirs }, s') in
          elim entries [ [] ↦ ((eof, []), moved) | e ∷ es ↦ ((no_error, e ∷ es), moved) ]
    ]
