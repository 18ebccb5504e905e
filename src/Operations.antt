-- ===== src/Operations.antt =====
-- The operations of the SFTP client as a whole: `session`, and `file` and `dir` with their handle, from
-- src/sftp.cpp. Each makes its request, waits for the reply, and returns what the response class has got from it.
-- (`open_file` is `session::open`, `read_at` and `write_at` are `file::read_some_at` and
-- `file::write_some_at` for one buffer, `close` is `file::close`, `close_dir` is `dir::close`, which is the same to the letter.)
pub mod Lookups
pub mod Calls
pub mod Served
pub mod Named
pub mod Closing
pub mod Statuses
pub mod Moving
use corosh.Base.{ℕ, Bool, true, false, List, [], Option, none, some, length, if◌then◌else◌}
use corosh.Errors.{ErrorCode, no_error, failed}
use corosh.Attributes.{Attributes, no_attributes}
use corosh.Requests as R
use corosh.Requests.{Request}
use corosh.Responses.{
  blank_handle, blank_attrs, blank_name, Response, Status, status, handle, data_read, attrs, name,
  code_of,
}
use corosh.Queue.{Node, Run, done, ◌>>=◌}
use corosh.Exchange.{Client, Waits, Result, early, answered, exchange, operation, leave}
use corosh.Directory.{code_returned}

-- The response objects as they are made. (The code of `status` has no value then; it is one of success here, as the
-- others have.)
abbrev pub blank_status : Status
blank_status = record { completed = false; ec = no_error }

abbrev pub new_status : Response
new_status = status blank_status

abbrev pub new_handle : Response
new_handle = handle blank_handle

abbrev pub new_attrs : Response
new_attrs = attrs blank_attrs

abbrev pub new_name : Response
new_name = name blank_name

abbrev pub new_data : List ℕ → Response
new_data dest = data_read (record { completed = false; ec = no_error; dest = dest; n = 0 })

-- A `file` or a `dir`: whether `sess_` is set, and `handle_`.
pub record Opened : Type 0 where
  pub in_session : Bool
  pub handle : List ℕ

-- `file{}` and `dir{}`
abbrev pub nothing_open : Opened
nothing_open = record { in_session = false; handle = [] }

-- The returns of the operations that open something, that ask for attributes, a name or bytes, and that write.
abbrev opened_by : ErrorCode → List ℕ → ErrorCode × Opened
opened_by ec h =
    if failed ec then (ec, nothing_open) else (no_error, record { in_session = true; handle = h })

abbrev pub handle_returned : Result → ErrorCode × Opened
handle_returned (early ec) = (ec, nothing_open)
handle_returned (answered (handle r)) = opened_by r.ec r.handle
handle_returned (answered response) = (code_of response, nothing_open)

abbrev pub attrs_returned : Result → ErrorCode × Attributes
attrs_returned (early ec) = (ec, no_attributes)
attrs_returned (answered (attrs r)) = (r.ec, r.attr)
attrs_returned (answered response) = (code_of response, no_attributes)

abbrev pub name_returned : Result → ErrorCode × List ℕ
name_returned (early ec) = (ec, [])
name_returned (answered (name r)) = (r.ec, r.name)
name_returned (answered response) = (code_of response, [])

abbrev pub count_returned : Result → ErrorCode × ℕ
count_returned (early ec) = (ec, 0)
count_returned (answered (data_read r)) = (r.ec, r.n)
count_returned (answered response) = (code_of response, 0)

abbrev pub written_returned : ℕ → Result → ErrorCode × ℕ
written_returned size (early ec) = (ec, 0)
written_returned size (answered response) =
    (code_of response, if failed (code_of response) then 0 else size)

-- The caller's buffer is the memory behind the response object.
abbrev pub dest_of : Response → List ℕ → List ℕ
dest_of (data_read r) dest = r.dest
dest_of _ dest = dest

abbrev pub dest_at : Option Node → List ℕ → List ℕ
dest_at none dest = dest
dest_at (some n) dest = dest_of n.response dest

-- An object after `close`: at an early return it stays as it is.
abbrev pub closed_by : Result → Opened → Opened
closed_by (early ec) o = o
closed_by (answered response) o = nothing_open

-- `rounds`, `fuel`, the address `a` of the response object and the uninitialised array `small` are those of
-- `Exchange.operation`.
module _ {S : Type 0} (eof : ErrorCode) (w : Waits S) (rounds fuel a : ℕ) (small : List ℕ) where
  -- A request and what is made of its result.
  abbrev pub call : {A : Type 0} → Request → Response → (Result → A) → Client S → Run (A × Client S)
  call request response returned c = do
    r ← operation eof w rounds fuel a request response small c
    done (returned r.0, r.1)

  unfoldable pub unlink : List ℕ → Client S → Run (ErrorCode × Client S)
  unlink filename = call (R.unlink filename) new_status code_returned

  unfoldable pub mkdir : List ℕ → ℕ → Client S → Run (ErrorCode × Client S)
  mkdir path mode = call (R.mkdir path mode) new_status code_returned

  unfoldable pub rmdir : List ℕ → Client S → Run (ErrorCode × Client S)
  rmdir path = call (R.rmdir path) new_status code_returned

  unfoldable pub rename : List ℕ → List ℕ → Client S → Run (ErrorCode × Client S)
  rename oldpath newpath = call (R.rename oldpath newpath) new_status code_returned

  unfoldable pub chmod : List ℕ → ℕ → Client S → Run (ErrorCode × Client S)
  chmod path mode = call (R.chmod path mode) new_status code_returned

  unfoldable pub chown : List ℕ → ℕ → ℕ → Client S → Run (ErrorCode × Client S)
  chown path owner group = call (R.chown path owner group) new_status code_returned

  unfoldable pub symlink : List ℕ → List ℕ → Client S → Run (ErrorCode × Client S)
  symlink target dest = call (R.symlink target dest) new_status code_returned

  unfoldable pub hardlink : List ℕ → List ℕ → Client S → Run (ErrorCode × Client S)
  hardlink oldpath newpath = call (R.hardlink oldpath newpath) new_status code_returned

  unfoldable pub setstat : List ℕ → Attributes → Client S → Run (ErrorCode × Client S)
  setstat path attr = call (R.setstat path attr) new_status code_returned

  unfoldable pub opendir : List ℕ → Client S → Run ((ErrorCode × Opened) × Client S)
  opendir path = call (R.opendir path) new_handle handle_returned

  unfoldable pub open_file : List ℕ → ℕ → ℕ → Client S → Run ((ErrorCode × Opened) × Client S)
  open_file path accesstype mode =
      call (R.open_file path accesstype mode) new_handle handle_returned

  unfoldable pub stat : List ℕ → Client S → Run ((ErrorCode × Attributes) × Client S)
  stat path = call (R.stat path) new_attrs attrs_returned

  unfoldable pub lstat : List ℕ → Client S → Run ((ErrorCode × Attributes) × Client S)
  lstat path = call (R.lstat path) new_attrs attrs_returned

  unfoldable pub readlink : List ℕ → Client S → Run ((ErrorCode × List ℕ) × Client S)
  readlink path = call (R.readlink path) new_name name_returned

  unfoldable pub canonicalize_path : List ℕ → Client S → Run ((ErrorCode × List ℕ) × Client S)
  canonicalize_path path = call (R.canonicalize_path path) new_name name_returned

  unfoldable pub expand_path : List ℕ → Client S → Run ((ErrorCode × List ℕ) × Client S)
  expand_path path = call (R.expand_path path) new_name name_returned

  unfoldable pub home_directory : List ℕ → Client S → Run ((ErrorCode × List ℕ) × Client S)
  home_directory username = call (R.home_directory username) new_name name_returned

  -- The two transfers of an open file. The length of the buffer is cut down to 32 bits in the request to read.
  unfoldable pub read_at :
      Opened → ℕ → List ℕ → Client S → Run (((ErrorCode × ℕ) × List ℕ) × Client S)
  read_at o offset dest c = do
    r ←
        exchange eof w rounds fuel a (R.read_at o.handle offset (length dest)) (new_data dest) small
          c
    done ((count_returned r.0, dest_at (r.1.queue.cells a) dest), (leave eof w a r).1)

  unfoldable pub write_at : Opened → ℕ → List ℕ → Client S → Run ((ErrorCode × ℕ) × Client S)
  write_at o offset bytes =
      call (R.write_at o.handle offset bytes) new_status (written_returned (length bytes))

  -- Without a session there is nothing to do.
  unfoldable pub close : Opened → Client S → Run ((ErrorCode × Opened) × Client S)
  close o c = elim (o.in_session) [
    | false ↦ done ((no_error, o), c)
    | true ↦ call (R.close o.handle) new_status (λ r. (code_returned r, closed_by r o)) c
  ]

  -- `dir::close`
  unfoldable pub close_dir : Opened → Client S → Run ((ErrorCode × Opened) × Client S)
  close_dir o c = elim (o.in_session) [
    | false ↦ done ((no_error, o), c)
    | true ↦ call (R.close o.handle) new_status (λ r. (code_returned r, closed_by r o)) c
  ]
