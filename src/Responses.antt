-- ===== src/Responses.antt =====
-- The response classes of src/sftp.cpp, which parse the reply to a request: their state, and their
-- `complete` from the virtual function of include/corosh/sftp.hpp. The payload is what follows the
-- packet's type and id. `eof` is the code `boost::capy::error::eof`, a parameter of the model.
pub mod Failures
pub mod Parsed
use Prim.Native.Nat.{min}
use corosh.Base.{
  ℕ, zero, suc, ◌+◌, Bool, true, false, not, ◌&&◌, ◌||◌, List, [], ◌∷◌, ◌++◌, ◌==◌, ltb,
  if◌then◌else◌, length, take, drop,
}
use corosh.Errors.{ErrorCode, no_error, failed, sftp_error, bad_message}
use corosh.Errors.Fx
use corosh.Fxp
use corosh.Wire.{Take, pure, ◌>>=◌, Reader, reader, take_u32, take_str}
use corosh.Attributes.{Attributes, no_attributes, take_attrs}

-- `message` and `language_tag` are views of the buffer of the session, which end with the packet, and which no
-- operation reads; they are left out.
pub record Status : Type 0 where
  pub completed : Bool
  pub ec : ErrorCode

pub record Handle : Type 0 where
  pub completed : Bool
  pub ec : ErrorCode
  pub handle : List ℕ

-- `dir::entry`
pub record Entry : Type 0 where
  pub attr : Attributes
  pub name : List ℕ
  pub long_name : List ℕ

-- `entries` refers to the buffer of the `dir`.
pub record DirEntry : Type 0 where
  pub completed : Bool
  pub ec : ErrorCode
  pub entries : List Entry

-- `dest` is the memory of the caller's buffer.
pub record DataRead : Type 0 where
  pub completed : Bool
  pub ec : ErrorCode
  pub dest : List ℕ
  pub n : ℕ

pub record Attrs : Type 0 where
  pub completed : Bool
  pub ec : ErrorCode
  pub attr : Attributes

pub record Name : Type 0 where
  pub completed : Bool
  pub ec : ErrorCode
  pub name : List ℕ

-- The objects as they are made.
abbrev pub blank_handle : Handle
blank_handle = record { completed = false; ec = no_error; handle = [] }

abbrev pub blank_attrs : Attrs
blank_attrs = record { completed = false; ec = no_error; attr = no_attributes }

abbrev pub blank_name : Name
blank_name = record { completed = false; ec = no_error; name = [] }

-- `if (!ec && c) ec = e;`
abbrev pub fail_if : ErrorCode → Bool → ErrorCode → ErrorCode
fail_if ec c e = if not (failed ec) && c then e else ec

-- The code that a status number stands for: `if (!ec && error != SSH_FX_OK) ec.assign(...)`.
abbrev pub assign_status : ErrorCode → ℕ → ErrorCode
assign_status ec error = fail_if ec (not (error == Fx.ok)) (sftp_error error)

-- What the classes for other packets do with an SSH_FXP_STATUS.
abbrev pub status_code : List ℕ → ErrorCode → ErrorCode
status_code payload ec = let (error, r) = take_u32 (reader payload ec) in assign_status r.ec error

unfoldable pub take_both : Take (List ℕ × List ℕ)
take_both = do message ← take_str; language_tag ← take_str; pure (message, language_tag)

-- The two strings, which are read if there is any payload left.
unfoldable pub take_texts : Reader → Reader
take_texts r = elim r.buf [ [] ↦ r | b ∷ rest ↦ (take_both r).1 ]

unfoldable pub complete_status : ErrorCode → ℕ → List ℕ → Status → Status
unfolding take_texts
complete_status ec type payload response =
    let r = take_u32 (reader payload (fail_if ec (not (type == Fxp.status)) bad_message)) in
    record { completed = true; ec = assign_status (take_texts r.1).ec r.0 }

unfoldable pub complete_handle : ErrorCode → ℕ → List ℕ → Handle → Handle
complete_handle ec type payload response =
    if not (failed ec) && (type == Fxp.status)
    then record response { completed = true; ec = status_code payload ec }
    else let (h, r) =
        take_str (reader payload (fail_if ec (not (type == Fxp.handle)) bad_message)) in
      record { completed = true; ec = r.ec; handle = if failed r.ec then response.handle else h }

unfoldable pub take_entry : Take Entry
take_entry = do
  fn ← take_str
  ln ← take_str
  at ← take_attrs
  pure (record { attr = at; name = fn; long_name = ln })

-- `while (!ec && count > 0)`: the rounds left are the argument, the entries so far come back.
take_entries : ℕ → List Entry → Reader → List Entry × Reader
take_entries zero entries r = (entries, r)
take_entries (suc count) entries r =
    let next = take_entry r in
    let more = take_entries count (entries ++ next.0 ∷ []) next.1 in
    if failed r.ec then (entries, r) else if failed next.1.ec then (entries, next.1) else more

-- The body of a packet of type SSH_FXP_NAME.
take_names : List Entry → Reader → List Entry × Reader
unfolding take_entries
take_names entries payload =
    let (count, r) = take_u32 payload in
    take_entries count entries (reader r.buf (fail_if r.ec (count == 0) bad_message))

unfoldable pub complete_dir_entry : ErrorCode → ℕ → List ℕ → DirEntry → DirEntry
unfolding take_names
complete_dir_entry ec type payload response =
    if not (failed ec) && (type == Fxp.status)
    then record response { completed = true; ec = status_code payload ec }
    else let (entries, r) =
        take_names response.entries
          (reader payload (fail_if ec (not (type == Fxp.name)) bad_message)) in
      record { completed = true; ec = r.ec; entries = entries }

unfoldable pub complete_data : ErrorCode → ErrorCode → ℕ → List ℕ → DataRead → DataRead
complete_data eof ec type payload response =
    if not (failed ec) && (type == Fxp.status)
    then (let (error, r) = take_u32 (reader payload ec) in
        record response {
          completed = true;
          ec = if not (failed r.ec) && (error == Fx.eof) then eof else assign_status r.ec error;
        })
    else let (bytes, r) =
        take_str (reader payload (fail_if ec (not (type == Fxp.data_reply)) bad_message)) in
      let n = min (length bytes) (length response.dest) in
      if failed r.ec then record response { completed = true; ec = r.ec } else record {
        completed = true;
        ec = r.ec;
        dest = take n bytes ++ drop n response.dest;
        n = n;
      }

unfoldable pub complete_attrs : ErrorCode → ℕ → List ℕ → Attrs → Attrs
complete_attrs ec type payload response =
    if not (failed ec) && (type == Fxp.status)
    then record response { completed = true; ec = status_code payload ec }
    else let ec' = fail_if ec (not (type == Fxp.attrs)) bad_message in
      let (attr, r) = take_attrs (reader payload ec') in
      if failed ec'
      then record response { completed = true; ec = ec' }
      else record { completed = true; ec = r.ec; attr = attr }

-- The first name of a packet of type SSH_FXP_NAME.
take_first_name : Take (List ℕ)
take_first_name payload =
    let (count, r) = take_u32 payload in
    take_str (reader r.buf (fail_if r.ec (count == 0) bad_message))

unfoldable pub complete_name : ErrorCode → ℕ → List ℕ → Name → Name
unfolding take_first_name
complete_name ec type payload response =
    if not (failed ec) && (type == Fxp.status)
    then record response { completed = true; ec = status_code payload ec }
    else let known = (type == Fxp.name) || (type == Fxp.extended_reply) in
      let input = reader payload (fail_if ec (not known) bad_message) in
      let (fn, r) = if type == Fxp.name then take_first_name input else take_str input in
      record { completed = true; ec = r.ec; name = if failed r.ec then response.name else fn }

-- A `detail::response` of one of the six classes.
pub data Response : Type 0 where
  status : Status → Response
  handle : Handle → Response
  dir_entry : DirEntry → Response
  data_read : DataRead → Response
  attrs : Attrs → Response
  name : Name → Response

unfoldable pub complete : ErrorCode → ErrorCode → ℕ → List ℕ → Response → Response
complete eof ec type payload (status r) = status (complete_status ec type payload r)
complete eof ec type payload (handle r) = handle (complete_handle ec type payload r)
complete eof ec type payload (dir_entry r) = dir_entry (complete_dir_entry ec type payload r)
complete eof ec type payload (data_read r) = data_read (complete_data eof ec type payload r)
complete eof ec type payload (attrs r) = attrs (complete_attrs ec type payload r)
complete eof ec type payload (name r) = name (complete_name ec type payload r)

-- The fields that all classes have.
abbrev pub completed : Response → Bool
completed (status r) = r.completed
completed (handle r) = r.completed
completed (dir_entry r) = r.completed
completed (data_read r) = r.completed
completed (attrs r) = r.completed
completed (name r) = r.completed

abbrev pub code_of : Response → ErrorCode
code_of (status r) = r.ec
code_of (handle r) = r.ec
code_of (dir_entry r) = r.ec
code_of (data_read r) = r.ec
code_of (attrs r) = r.ec
code_of (name r) = r.ec
