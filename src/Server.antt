-- ===== src/Server.antt =====
-- `serve_worker` of src/sftp.cpp: what a worker does with one packet. The handlers of `struct server`
-- are parameters of the model. A buffer that a handler fills is given with its memory and comes back.
pub mod Status
pub mod Replies
pub mod Requests
pub mod ReadReply
pub mod Reported
pub mod Values
pub mod Lookups
pub mod Worker
pub mod Serving
use corosh.Base.{
  ℕ, ◌+◌, ◌-◌, ◌*◌, ◌%◌, ◌^◌, Bool, true, false, not, List, [], ◌∷◌, ◌++◌, ◌==◌, ltb, if◌then◌else◌,
  same_bytes, length, take, drop,
}
use corosh.Errors.{ErrorCode, no_error, failed, sftp_error, bad_message}
use corosh.Errors.Fx
use corosh.Fxp
use corosh.Wire.{
  Take, pure, ◌>>=◌, Reader, reader, take_u8, take_u32, take_u64, take_str, Writer, ◌▷◌, memory,
  add_u32, put_u8, put_u32, put_str,
}
use corosh.Attributes.{
  Attributes, no_attributes, has, attr_permissions, attrs_length, put_attrs, take_attrs,
}
use corosh.Requests.{hardlink_name, expand_path_name}
use corosh.Responses.{Entry}
use corosh.Errors.Conditions.{Condition}
use Status.{resize, build_status}

-- `struct server`; `S` is the state of the object behind it.
pub record Handlers (S : Type 0) : Type 0 where
  pub open_file : List ℕ → ℕ → ℕ → S → (ErrorCode × List ℕ) × S
  pub read_at : List ℕ → ℕ → List ℕ → S → (ErrorCode × ℕ × List ℕ) × S
  pub write_at : List ℕ → ℕ → List ℕ → S → ErrorCode × S
  pub fstat : List ℕ → S → (ErrorCode × Attributes) × S
  pub close : List ℕ → S → ErrorCode × S
  pub opendir : List ℕ → S → (ErrorCode × List ℕ) × S
  pub readdir : List ℕ → S → (ErrorCode × List Entry) × S
  pub stat : List ℕ → S → (ErrorCode × Attributes) × S
  pub lstat : List ℕ → S → (ErrorCode × Attributes) × S
  pub unlink : List ℕ → S → ErrorCode × S
  pub mkdir : List ℕ → ℕ → S → ErrorCode × S
  pub rmdir : List ℕ → S → ErrorCode × S
  pub rename : List ℕ → List ℕ → S → ErrorCode × S
  pub symlink : List ℕ → List ℕ → S → ErrorCode × S
  pub hardlink : List ℕ → List ℕ → S → ErrorCode × S
  pub setstat : List ℕ → Attributes → S → ErrorCode × S
  pub fsetstat : List ℕ → Attributes → S → ErrorCode × S
  pub readlink : List ℕ → S → (ErrorCode × List ℕ) × S
  pub canonicalize_path : List ℕ → S → (ErrorCode × List ℕ) × S
  pub expand_path : List ℕ → S → (ErrorCode × List ℕ) × S

-- The worker sends a response and goes on, or it returns with a code; or a handler would be given a view of memory
-- that may be gone, and nothing is known of what follows.
pub data Outcome (S : Type 0) : Type 0 where
  reply : List ℕ → S → Outcome S
  stop : ErrorCode → S → Outcome S
  dangling : S → Outcome S

-- `if (!r.ec) r = co_await handler(...);` behind the calls that parse the arguments.
abbrev pub call : {A S : Type 0} → Take A → (A → S → ErrorCode × S) → List ℕ → S → ErrorCode × S
call parse act cb s =
    let (a, r) = parse (reader cb no_error) in if failed r.ec then (r.ec, s) else act a s

abbrev pub call_value :
    {A B S : Type 0} → Take A → (A → S → (ErrorCode × B) × S) → B → List ℕ → S → (ErrorCode × B) × S
call_value parse act empty cb s =
    let (a, r) = parse (reader cb no_error) in if failed r.ec then ((r.ec, empty), s) else act a s

-- The arguments of the requests, as the worker takes them from the packet.
unfoldable pub take_open : Take (List ℕ × ℕ × ℕ)
take_open = do
  fn ← take_str
  pflags ← take_u32
  attrs ← take_attrs
  pure (fn, pflags, attrs.permissions)

unfoldable pub take_two : Take (List ℕ × List ℕ)
take_two = do a ← take_str; b ← take_str; pure (a, b)

unfoldable pub take_path_attrs : Take (List ℕ × Attributes)
take_path_attrs = do path ← take_str; attr ← take_attrs; pure (path, attr)

-- The limit of the source, 1024 * 1024 * 1024 bytes.
abbrev pub limit : ℕ
limit = 1024 * 1024 * 1024

unfoldable pub take_write : Take (List ℕ × ℕ × List ℕ)
take_write cb =
    let (a, r) =
      (do handle ← take_str; offset ← take_u64; bytes ← take_str; pure (handle, offset, bytes))
        cb in
    if ltb limit (length a.2) then (a, reader r.buf bad_message) else (a, r)

unfoldable pub take_read : Take (List ℕ × ℕ × ℕ)
take_read cb =
    let (a, r) =
      (do handle ← take_str; offset ← take_u64; len ← take_u32; pure (handle, offset, len)) cb in
    if ltb limit a.2 then (a, reader r.buf bad_message) else (a, r)

-- `mode_t{0755}` without the flag
abbrev pub mkdir_mode : Attributes → ℕ
mkdir_mode attr = if has attr.flags attr_permissions then attr.permissions else 493

-- A response of `res_size` bytes behind its length field, in the buffer resized to `size`.
abbrev pub respond : List ℕ → ℕ → ℕ → ErrorCode → (Writer → Writer) → Writer
respond buffer res_size size ec put =
    (put_u32 res_size ▷ put) (record { done = []; rest = resize size buffer; ec = ec })

unfoldable pub handle_reply : List ℕ → ℕ → ErrorCode → List ℕ → Writer
handle_reply buffer request_id ec h =
    let res_size = 1 + 4 + (4 + length h) in
    respond buffer res_size (res_size + 4) ec (put_u8 Fxp.handle ▷ put_u32 request_id ▷ put_str h)

unfoldable pub attrs_reply : List ℕ → ℕ → ErrorCode → Attributes → Writer
attrs_reply buffer request_id ec attr =
    let res_size = (1 + 4 + attrs_length attr) % 2 ^ 32 in
    respond buffer res_size (add_u32 res_size 4) ec
      (put_u8 Fxp.attrs ▷ put_u32 request_id ▷ put_attrs attr)

unfoldable pub name_reply : List ℕ → ℕ → ErrorCode → List ℕ → Writer
name_reply buffer request_id ec name =
    let res_size = (1 + 4 + 4 + 4 + length name + 4 + 4) % 2 ^ 32 in
    respond buffer res_size (add_u32 res_size 4) ec
      (put_u8 Fxp.name ▷ put_u32 request_id ▷ put_u32 1 ▷ put_str name ▷ put_str [] ▷ put_u32 0)

abbrev pub entries_length : List Entry → ℕ
entries_length [] = 0
entries_length (e ∷ es) =
    (4 + length e.name + 4 + length e.long_name + attrs_length e.attr) + entries_length es

abbrev pub put_entries : List Entry → Writer → Writer
put_entries [] w = w
put_entries (e ∷ es) w =
    put_entries es ((put_str e.name ▷ put_str e.long_name ▷ put_attrs e.attr) w)

unfoldable pub entries_reply : List ℕ → ℕ → ErrorCode → List Entry → Writer
entries_reply buffer request_id ec entries =
    let res_size = (1 + 4 + 4 + entries_length entries) % 2 ^ 32 in
    respond buffer res_size (add_u32 res_size 4) ec
      (put_u8 Fxp.name ▷ put_u32 request_id ▷ put_u32 (length entries) ▷ put_entries entries)

-- The data of a READ stand in the buffer already, behind the header.
unfoldable pub data_reply : List ℕ → ℕ → ErrorCode → ℕ → ℕ → Writer
data_reply buffer request_id ec len actual_len =
    let res_size = 1 + 4 + (4 + len) in
    let sized = if ltb actual_len len then res_size - (len - actual_len) else res_size in
    (put_u32 sized ▷ put_u8 Fxp.data_reply ▷ put_u32 request_id ▷ put_u32 actual_len) (record {
      done = [];
      rest = if ltb actual_len len then resize (sized + 4) buffer else buffer;
      ec = ec;
    })

module _ {S : Type 0} (is : ErrorCode → Condition → Bool) (message : ErrorCode → List ℕ)
    (h : Handlers S) where
  -- `response = make_buffer(my_buffer); ... if (ec) co_return ec;`, then the response is written.
  abbrev pub finish : Writer → S → Outcome S
  finish w s = if failed w.ec then stop w.ec s else reply (memory w) s

  abbrev pub finish_status : List ℕ → ℕ → ErrorCode → ErrorCode × S → Outcome S
  finish_status buffer request_id ec (reported, s) =
      finish (build_status is message buffer request_id reported ec) s

  abbrev pub finish_value :
      {A : Type 0}
      → (List ℕ → ℕ → ErrorCode → A → Writer)
      → List ℕ
      → ℕ
      → ErrorCode
      → (ErrorCode × A) × S
      → Outcome S
  finish_value build buffer request_id ec ((reported, a), s) =
      if failed reported
      then finish (build_status is message buffer request_id reported ec) s
      else finish (build buffer request_id ec a) s

  -- The case SSH_FXP_READ: the response is `make_buffer(mb)`, where `mb` has passed the header. The handle is a view
  -- into `my_buffer`: where `resize` makes that longer, the vector may move to other memory, and the view
  -- dangles. Where it does not, the view stands where the data go, so that `h.read_at` is a handler that is done
  -- with its handle before it writes any of them.
  unfoldable pub serve_read : List ℕ → ℕ → ErrorCode → List ℕ → S → Outcome S
  serve_read buffer request_id ec cb s =
      let (a, r) = take_read (reader cb no_error) in
      let size = 1 + 4 + (4 + a.2) + 4 in
      let sized = resize size buffer in
      if failed r.ec
      then finish (build_status is message buffer request_id r.ec ec) s
      else if ltb (length buffer) size
      then dangling s
      else let (result, s') = h.read_at a.0 a.1 (drop 13 sized) s in
        let filled = take 13 sized ++ result.2 in
        if failed result.0
        then finish (build_status is message filled request_id result.0 ec) s'
        else let w = data_reply filled request_id ec a.2 result.1 in
          if failed w.ec then stop w.ec s' else reply w.rest s'

  -- The case SSH_FXP_EXTENDED.
  unfoldable pub serve_extended : List ℕ → ℕ → ErrorCode → List ℕ → S → Outcome S
  serve_extended buffer request_id ec cb s =
      let (ext_name, r) = take_str (reader cb no_error) in
      if failed r.ec
      then finish_status buffer request_id ec (r.ec, s)
      else if same_bytes ext_name hardlink_name
      then finish_status buffer request_id ec (call take_two (λ a. h.hardlink a.0 a.1) r.buf s)
      else if same_bytes ext_name expand_path_name
      then finish_value name_reply buffer request_id ec
          (call_value take_str h.expand_path [] r.buf s)
      else finish_status buffer request_id ec (sftp_error Fx.op_unsupported, s)

  -- `switch (tp)`; `cb` is what follows the request id.
  unfoldable pub dispatch : ℕ → List ℕ → ℕ → ErrorCode → List ℕ → S → Outcome S
  unfolding serve_read serve_extended
  dispatch tp buffer id ec cb s =
      if tp == Fxp.open_file
      then finish_value handle_reply buffer id ec
          (call_value take_open (λ a. h.open_file a.0 a.1 a.2) [] cb s)
      else if tp == Fxp.close
      then finish_status buffer id ec (call take_str h.close cb s)
      else if tp == Fxp.read
      then serve_read buffer id ec cb s
      else if tp == Fxp.write
      then finish_status buffer id ec (call take_write (λ a. h.write_at a.0 a.1 a.2) cb s)
      else if tp == Fxp.lstat
      then finish_value attrs_reply buffer id ec (call_value take_str h.lstat no_attributes cb s)
      else if tp == Fxp.fstat
      then finish_value attrs_reply buffer id ec (call_value take_str h.fstat no_attributes cb s)
      else if tp == Fxp.setstat
      then finish_status buffer id ec (call take_path_attrs (λ a. h.setstat a.0 a.1) cb s)
      else if tp == Fxp.fsetstat
      then finish_status buffer id ec (call take_path_attrs (λ a. h.fsetstat a.0 a.1) cb s)
      else if tp == Fxp.opendir
      then finish_value handle_reply buffer id ec (call_value take_str h.opendir [] cb s)
      else if tp == Fxp.readdir
      then finish_value entries_reply buffer id ec (call_value take_str h.readdir [] cb s)
      else if tp == Fxp.remove
      then finish_status buffer id ec (call take_str h.unlink cb s)
      else if tp == Fxp.mkdir
      then finish_status buffer id ec
          (call take_path_attrs (λ a. h.mkdir a.0 (mkdir_mode a.1)) cb s)
      else if tp == Fxp.rmdir
      then finish_status buffer id ec (call take_str h.rmdir cb s)
      else if tp == Fxp.realpath
      then finish_value name_reply buffer id ec (call_value take_str h.canonicalize_path [] cb s)
      else if tp == Fxp.stat
      then finish_value attrs_reply buffer id ec (call_value take_str h.stat no_attributes cb s)
      else if tp == Fxp.rename
      then finish_status buffer id ec (call take_two (λ a. h.rename a.0 a.1) cb s)
      else if tp == Fxp.readlink
      then finish_value name_reply buffer id ec (call_value take_str h.readlink [] cb s)
      else if tp == Fxp.symlink
      then finish_status buffer id ec (call take_two (λ a. h.symlink a.0 a.1) cb s)
      else if tp == Fxp.extended
      then serve_extended buffer id ec cb s
      else stop bad_message s

  -- One packet, without its length field. `buffer` is `my_buffer`.
  unfoldable pub serve_packet : List ℕ → List ℕ → S → Outcome S
  serve_packet buffer cb s =
      let (tp, r) = take_u8 (reader cb no_error) in
      let (request_id, r') = take_u32 r in dispatch tp buffer request_id r'.ec r'.buf s
