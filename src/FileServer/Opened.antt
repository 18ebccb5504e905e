-- ===== src/FileServer/Opened.antt =====
-- The handles of the example server: each is new, and none outlives its closing.
use corosh.Base.{
  same_bytes_refl, ℕ, suc, ◌+◌, ◌%◌, ◌^◌, ◌<◌, ◌≡◌, refl, sym, ◌∙◌, false, List, [], ◌∷◌, none,
  some, same_bytes, arith,
}
use corosh.Base.Text.{Text}
use corosh.Errors.{no_error}
use corosh.FileServer.{System, SftpServer, find, erase, to_string, bad_file_descriptor, to_flags}
use corosh.FileServer.Handles.{open_file, read_at, close}
use corosh.FileServer.Paths.{sftp_to_local}
use corosh.FileServer.Tables.{
  Made, find-Made, find_foreign, Made-weaken, Made-erase, find-erase, new_entry, no_letter,
}

-- The handles in the tables are numbers given out so far, those of directories behind the letter d.
pub record IsServer {D : Type 0} (f : SftpServer D) : Type 0 where
  pub files : Made [] f.handle_gen f.open_files
  pub dirs : Made (100 ∷ []) f.handle_gen f.dirs

module _ {S D : Type 0} (sys : System S D) where
  -- On a server whose handles are numbers given out so far, and as long as its counter does not
  -- wrap, `open` of a file that the system opens gives a handle that no open file has, under which
  -- the file is then found; the other open files and the directories stay, and the handles are
  -- numbers given out so far again.
  pub open_file-IsServer :
      (name : Text) (accesstype mode : ℕ) (f : SftpServer D) (s s' : S) (fd : ℕ)
      → IsServer f
      → f.handle_gen + 1 < 2 ^ 64
      → sys.open_file (sftp_to_local f.root_path name) (to_flags accesstype) s
        ≡ ((no_error, fd), s')
      → (handle : Text) × (f' : SftpServer D) × (open_file sys name accesstype mode (f, s)
          ≡ ((no_error, handle), (f', s')))
        × (find handle f.open_files ≡ none)
        × (find handle f'.open_files ≡ some fd)
        × ((other : Text)
            → same_bytes handle other ≡ false
            → find other f'.open_files ≡ find other f.open_files)
        × (f'.dirs ≡ f.dirs)
        × IsServer f'
  unfolding open_file
  open_file-IsServer name accesstype mode f s s' fd is range opened =
      let n = suc f.handle_gen in
      let (absent, put, made) = new_entry [] f.handle_gen f.open_files fd is.files in
      let f' : SftpServer D = record f {
        handle_gen = n;
        open_files = (to_string n, fd) ∷ f.open_files;
      } in
      let e : (f.handle_gen + 1) % 2 ^ 64 ≡ n = omega arith in
      (
        to_string n,
        f',
        rw (open_file, opened, e, put),
        absent,
        rw (find, same_bytes_refl (to_string n)),
        (λ other differs. rw (find, differs)),
        refl,
        record {
          files = made;
          dirs = Made-weaken (100 ∷ []) f.handle_gen n f.dirs (omega arith) is.dirs;
        },
      )

  -- On a server whose handles are numbers given out so far, `close` of an open file succeeds,
  -- closes its descriptor and leaves such a server; from then on its handle is refused, by another
  -- `close` and by `read_at`.
  pub close-IsServer :
      (handle : Text) (f : SftpServer D) (s : S) (fd : ℕ)
      → IsServer f
      → find handle f.open_files ≡ some fd
      → (f' : SftpServer D) × (close sys handle (f, s) ≡ (no_error, (f', sys.close fd s)))
        × IsServer f'
        × ((t : S) → close sys handle (f', t) ≡ (bad_file_descriptor, (f', t)))
        × ((offset : ℕ) (buffer : List ℕ) (t : S)
            → read_at sys handle offset buffer (f', t)
              ≡ ((bad_file_descriptor, 0, buffer), (f', t)))
  unfolding close read_at
  close-IsServer handle f s fd is known =
      let f' : SftpServer D = record f { open_files = erase handle f.open_files } in
      let gone : find handle f'.open_files ≡ none = find-erase handle f.open_files in
      let (n, bears) = find-Made [] handle f.handle_gen f.open_files fd is.files known in
      let no_dir : find handle f.dirs ≡ none =
        find_foreign (100 ∷ []) handle f.handle_gen f.dirs is.dirs
          (λ m bound e. no_letter n (to_string m) (sym bears ∙ e)) in
      (
        f',
        rw (close, known),
        record { files = Made-erase [] handle f.handle_gen f.open_files is.files; dirs = is.dirs },
        (λ t. rw (close, gone, no_dir)),
        (λ offset buffer t. rw (read_at, gone)),
      )
