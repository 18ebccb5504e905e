-- ===== src/Programs/Browsing.antt =====
-- `ssh_main` of example/client.cpp from the home directory on, with the session that `init` has given: it lists the
-- directory, and shows the start of a file in it. What is printed is what is returned besides the code of
-- the program: the entries of the directory, and the bytes of the file.
use corosh.Base.{
  ℕ, zero, suc, ◌≡◌, refl, ap, ◌∙◌, true, false, List, [], ◌∷◌, ◌++◌, Option, none, some, take,
  if◌then◌else◌,
}
use corosh.Base.Text.{Text, bytes_of}
use corosh.Errors.{ErrorCode, failed}
use corosh.Queue.{Run, done, stuck, ◌>>=◌}
use corosh.Exchange.{Client, Waits}
use corosh.Directory.{Directory, read}
use corosh.Operations.{Opened, home_directory, opendir, open_file, read_at, close, close_dir}

pub record Shown : Type 0 where
  pub names : List (Text × Text)
  pub contents : Option (List ℕ)

-- SSH_FXF_READ
abbrev pub open_read : ℕ
open_read = 1

-- `dir` as `opendir` makes it.
abbrev pub directory_of : Opened → Directory
directory_of o = record { handle = o.handle; buffer = []; eof = false }

-- `rounds`, `fuel`, `a` and `small` are those of `Exchange.operation`, `buffer` is the uninitialised array of 256
-- bytes.
module _ {S : Type 0} (eof : ErrorCode) (w : Waits S) (rounds fuel a : ℕ)
    (small buffer : List ℕ) where
  -- The loop: it ends with the first error, be it the end of the directory or another.
  pub list_names : ℕ → Directory → Client S → Run (List (Text × Text) × Client S)
  list_names zero d c = stuck
  list_names (suc reads) d c = do
    r ← read eof w rounds fuel a small d c
    elim (failed r.0.0) [
      | true ↦ done ([], r.2)
      | false ↦ do
        more ← list_names reads r.1 r.2
        done ((r.0.1.name, r.0.1.long_name) ∷ more.0, more.1)
    ]

  abbrev contents_of : (ErrorCode × ℕ) × List ℕ → Option (List ℕ)
  contents_of ((ec, n), bytes) = if failed ec then none else some (take n bytes)

  abbrev read_and_close : List (Text × Text) → Opened → Client S → Run ((ℕ × Shown) × Client S)
  read_and_close names o c = do
    r ← read_at eof w rounds fuel a small o 0 buffer c
    closed ← close eof w rounds fuel a small o r.1
    done ((0, record { names = names; contents = contents_of r.0 }), closed.1)

  abbrev show_opened :
      List (Text × Text) → (ErrorCode × Opened) × Client S → Run ((ℕ × Shown) × Client S)
  show_opened names opened = elim (failed opened.0.0) [
    | true ↦ done ((1, record { names = names; contents = none }), opened.1)
    | false ↦ read_and_close names opened.0.1 opened.1
  ]

  unfoldable pub show_file : Text → List (Text × Text) → Client S → Run ((ℕ × Shown) × Client S)
  show_file home names c =
      open_file eof w rounds fuel a small (home ++ bytes_of "/.bash_history") open_read 0 c
      >>= show_opened names

  unfoldable pub show_directory : ℕ → Text → Client S → Run ((ℕ × Shown) × Client S)
  unfolding list_names show_file
  show_directory reads home c = do
    opened ← opendir eof w rounds fuel a small home c
    elim (failed opened.0.0) [
      | true ↦ done ((1, record { names = []; contents = none }), opened.1)
      | false ↦ do
        listed ← list_names reads (directory_of opened.0.1) opened.1
        closed ← close_dir eof w rounds fuel a small opened.0.1 listed.1
        show_file home listed.0 closed.1
    ]

  unfoldable pub browse : ℕ → Client S → Run ((ℕ × Shown) × Client S)
  unfolding show_directory
  browse reads c = do
    home ← home_directory eof w rounds fuel a small (bytes_of "klemens") c
    elim (failed home.0.0) [
      | true ↦ done ((1, record { names = []; contents = none }), home.1)
      | false ↦ show_directory reads home.0.1 home.1
    ]

  -- Once the file is open the program ends with 0, whatever reading and closing it report: an error of reading shows
  -- nothing of the file, and else as many bytes are shown as were read.
  pub show_file_any_result :
      (home : Text) (names : List (Text × Text)) (c c1 c2 c3 : Client S) (ec ec' ec'' : ErrorCode)
      (f f' : Opened) (n : ℕ) (bytes : List ℕ)
      → open_file eof w rounds fuel a small (home ++ bytes_of "/.bash_history") open_read 0 c
        ≡ done ((ec, f), c1)
      → failed ec ≡ false
      → read_at eof w rounds fuel a small f 0 buffer c1 ≡ done (((ec', n), bytes), c2)
      → close eof w rounds fuel a small f c2 ≡ done ((ec'', f'), c3)
      → show_file home names c
        ≡ done (
          (
            0,
            record { names = names; contents = if failed ec' then none else some (take n bytes) },
          ),
          c3,
        )
  unfolding show_file
  show_file_any_result home names c c1 c2 c3 ec ec' ec'' f f' n bytes opens fine reads closes =
      let opened : show_opened names ((ec, f), c1) ≡ read_and_close names f c1 =
        rw (show_opened, fine) refl in
      let shown : Shown = record { names = names; contents = contents_of ((ec', n), bytes) } in
      ap (λ r. r >>= show_opened names) opens
      ∙ opened
      ∙ ap
          (λ r. r >>= λ x. close eof w rounds fuel a small f x.1 >>= λ y.
            done ((0, record { names = names; contents = contents_of x.0 }), y.1))
          reads
      ∙ ap (λ r. r >>= λ y. done ((0, shown), y.1)) closes
