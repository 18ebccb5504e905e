-- ===== src/Directory.antt =====
-- `dir` of include/corosh/sftp.hpp and `dir::do_read_` of src/sftp.cpp: files are handed out one by one, and
-- asked for in batches.
pub mod Batches
use corosh.Base.{
  ℕ, zero, suc, Bool, true, false, ◌||◌, List, [], ◌∷◌, Option, none, some, if◌then◌else◌,
}
use corosh.Errors.{ErrorCode, no_error}
use corosh.Attributes.{no_attributes}
use corosh.Requests.{readdir}
use corosh.Responses.{Entry, DirEntry, Response, dir_entry, code_of}
use corosh.Queue.{Node, Run, done, ◌>>=◌}
use corosh.Exchange.{Client, Waits, Result, early, answered, exchange, leave}

pub record Directory : Type 0 where
  pub handle : List ℕ
  pub buffer : List Entry
  pub eof : Bool

-- `entry e;`
abbrev pub no_entry : Entry
no_entry = record { attr = no_attributes; name = []; long_name = [] }

-- The response object refers to `buffer_`, so that the buffer is what the object holds.
abbrev pub entries_of : Response → List Entry → List Entry
entries_of (dir_entry r) buffer = r.entries
entries_of _ buffer = buffer

abbrev pub entries_at : Option Node → List Entry → List Entry
entries_at none buffer = buffer
entries_at (some n) buffer = entries_of n.response buffer

-- `co_return ec` and `co_return {response.ec}`
abbrev pub code_returned : Result → ErrorCode
code_returned (early ec) = ec
code_returned (answered response) = code_of response

abbrev pub is_empty : List Entry → Bool
is_empty [] = true
is_empty (e ∷ es) = false

-- `std::move(buffer_.front())` with `erase`, if there is one
abbrev pub take_front : ErrorCode → Directory → (ErrorCode × Entry) × Directory
take_front ec d = elim d.buffer [
  | [] ↦ ((ec, no_entry), d)
  | e ∷ es ↦ ((ec, e), record d { buffer = es })
]

module _ {S : Type 0} (eof : ErrorCode) (w : Waits S) where
  unfoldable pub do_read :
      ℕ → ℕ → ℕ → List ℕ → Directory → Client S → Run (ErrorCode × Directory × Client S)
  do_read rounds fuel a small d c = do
    r ←
        exchange eof w rounds fuel a (readdir d.handle)
          (dir_entry (record { completed = false; ec = no_error; entries = d.buffer })) small c
    done (
      code_returned r.0,
      record d { buffer = entries_at (r.1.queue.cells a) d.buffer },
      (leave eof w a r).1,
    )

  -- `co_await dir.read()`: `await_ready` asks the server if the buffer is empty, and `await_resume` takes the
  -- first file.
  unfoldable pub read :
      ℕ → ℕ → ℕ → List ℕ → Directory → Client S → Run ((ErrorCode × Entry) × Directory × Client S)
  unfolding do_read
  read rounds fuel a small d c = elim (is_empty d.buffer || d.eof) [
    | true ↦ do
      r ← do_read rounds fuel a small d c
      let (result, d') = take_front r.0 r.1 in done (result, d', r.2)
    | false ↦
        let (result, d') = take_front (if d.eof then eof else no_error) d in done (result, d', c)
  ]

  -- So many reads, one after the other, each with its response object at the same address.
  pub reads :
      ℕ
      → ℕ
      → ℕ
      → ℕ
      → List ℕ
      → Directory
      → Client S
      → Run (List (ErrorCode × Entry) × Directory × Client S)
  unfolding read
  reads zero rounds fuel a small d c = done ([], d, c)
  reads (suc n) rounds fuel a small d c = do
    r ← read rounds fuel a small d c
    more ← reads n rounds fuel a small r.1 r.2
    done (r.0 ∷ more.0, more.1, more.2)
