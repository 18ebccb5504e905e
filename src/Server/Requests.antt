-- ===== src/Server/Requests.antt =====
-- The worker against the client: what the server does with the requests that the client writes.
use corosh.Base.{
  same_bytes_refl, ℕ, ◌+◌, ◌^◌, ◌≤◌, ◌<◌, ◌≡◌, refl, ap, ◌∙◌, Bool, false, List, ◌++◌, Option, none,
  some, length, drop, arith, not_ltb,
}
use corosh.Errors.{ErrorCode, no_error}
use corosh.Wire.{Take, ◌>>=◌, pure, reader, take_str, take_u64, bytes_u32, bytes_u64}
use corosh.Wire.Reads.{Reads, Reads-bind, Reads-last, Reads-pure, Reads-take_str, Reads-take_u64}
use corosh.Attributes.{
  Attributes, no_attributes, has, attr_permissions, attr_uidgid, attr_extended, bits,
}
use corosh.Attributes.Bytes.{attrs_bytes, InRange, on_wire, Reads-take_attrs}
use corosh.Requests.{hardlink_name}
use corosh.Requests.Packets.{
  Call, opcode, body, packet, str_bytes, unlink_call, mkdir_call, rmdir_call, rename_call,
  chmod_call, chown_call, symlink_call, hardlink_call, setstat_call, close_call, write_at_call,
}
use corosh.Server.{
  Handlers, reply, call, dispatch, serve_packet, serve_extended, finish_status, take_two,
  take_path_attrs, take_write, mkdir_mode, limit,
}
use corosh.Errors.Conditions.{Condition}
use corosh.Server.Replies.{call-Reads, serve_packet-packet, finish_status-packet, status_packet}

Reads-take_two :
    (a b : List ℕ)
    → length a < 2 ^ 32
    → length b < 2 ^ 32
    → Reads take_two (str_bytes a ++ str_bytes b) (a, b)
unfolding take_two
Reads-take_two a b ha hb =
    Reads-bind _ (Reads-take_str a ha) (Reads-last _ (Reads-take_str b hb) (Reads-pure (a, b)))

Reads-take_path_attrs :
    (path : List ℕ) (attr : Attributes)
    → length path < 2 ^ 32
    → InRange attr
    → has attr.flags attr_extended ≡ false
    → Reads take_path_attrs (str_bytes path ++ attrs_bytes attr) (path, on_wire attr)
unfolding take_path_attrs
Reads-take_path_attrs path attr hp ha plain =
    Reads-bind _ (Reads-take_str path hp)
      (Reads-last _ (Reads-take_attrs attr ha plain) (Reads-pure (path, on_wire attr)))

take_write_read :
    (handle : List ℕ) (offset : ℕ) (bytes : List ℕ)
    → length handle < 2 ^ 32
    → offset < 2 ^ 64
    → length bytes ≤ limit
    → Reads take_write
        (str_bytes handle ++ (bytes_u64 offset ++ str_bytes bytes))
        (handle, offset, bytes)
unfolding take_write
take_write_read handle offset bytes hh ho hb = record {
  at = λ rest. rw (r.at rest, not_ltb limit (length bytes) hb);
}
  where
    r :
        Reads
          (do h ← take_str; o ← take_u64; b ← take_str; pure {A = List ℕ × ℕ × List ℕ} (h, o, b))
          (str_bytes handle ++ (bytes_u64 offset ++ str_bytes bytes))
          (handle, offset, bytes)
    r = Reads-bind _ (Reads-take_str handle hh) (
        Reads-bind _ (Reads-take_u64 offset ho)
          (Reads-last _ (Reads-take_str bytes (omega arith)) (Reads-pure (handle, offset, bytes))))

abbrev mode_attributes : ℕ → Attributes
mode_attributes mode = record no_attributes { flags = 4; permissions = mode }

abbrev owner_attributes : ℕ → ℕ → Attributes
owner_attributes owner group = record no_attributes { flags = 2; uid = owner; gid = group }

-- The handler that a request means, for the requests whose reply is a status.
abbrev pub action : {S : Type 0} → Handlers S → Call → Option (S → ErrorCode × S)
action h (unlink_call filename) = some (h.unlink filename)
action h (mkdir_call path mode) = some (h.mkdir path mode)
action h (rmdir_call path) = some (h.rmdir path)
action h (rename_call oldpath newpath) = some (h.rename oldpath newpath)
action h (chmod_call path mode) = some (h.setstat path (mode_attributes mode))
action h (chown_call path owner group) = some (h.setstat path (owner_attributes owner group))
action h (symlink_call target dest) = some (h.symlink target dest)
action h (hardlink_call oldpath newpath) = some (h.hardlink oldpath newpath)
action h (setstat_call path attr) = some (h.setstat path (on_wire attr))
action h (close_call handle) = some (h.close handle)
action h (write_at_call handle offset buffer) = some (h.write_at handle offset buffer)
action h _ = none

-- Arguments in the range of their types, and at most 2^30 bytes to write.
abbrev pub Sound : Call → Type 0
Sound (unlink_call filename) = length filename < 2 ^ 32
Sound (mkdir_call path mode) = (length path < 2 ^ 32) × (mode < 2 ^ 32)
Sound (rmdir_call path) = length path < 2 ^ 32
Sound (rename_call oldpath newpath) = (length oldpath < 2 ^ 32) × (length newpath < 2 ^ 32)
Sound (chmod_call path mode) = (length path < 2 ^ 32) × (mode < 2 ^ 32)
Sound (chown_call path owner group) = (length path < 2 ^ 32) × (owner < 2 ^ 32) × (group < 2 ^ 32)
Sound (symlink_call target dest) = (length target < 2 ^ 32) × (length dest < 2 ^ 32)
Sound (hardlink_call oldpath newpath) = (length oldpath < 2 ^ 32) × (length newpath < 2 ^ 32)
Sound (setstat_call path attr) =
    (length path < 2 ^ 32) × InRange attr × (has attr.flags attr_extended ≡ false)
Sound (close_call handle) = length handle < 2 ^ 32
Sound (write_at_call handle offset buffer) =
    (length handle < 2 ^ 32) × (offset < 2 ^ 64) × (length buffer ≤ limit)
Sound _ = Unit {0}

read_mode :
    (path : List ℕ) (mode : ℕ)
    → length path < 2 ^ 32
    → mode < 2 ^ 32
    → Reads take_path_attrs
        (str_bytes path ++ (bytes_u32 (bits attr_permissions) ++ bytes_u32 mode))
        (path, mode_attributes mode)
unfolding has
read_mode path mode hp hm = Reads-take_path_attrs path (mode_attributes mode) hp (omega arith) refl

read_owner :
    (path : List ℕ) (owner group : ℕ)
    → length path < 2 ^ 32
    → owner < 2 ^ 32
    → group < 2 ^ 32
    → Reads take_path_attrs
        (str_bytes path ++ (bytes_u32 (bits attr_uidgid) ++ (bytes_u32 owner ++ bytes_u32 group)))
        (path, owner_attributes owner group)
unfolding has
read_owner path owner group hp ho hg =
    Reads-take_path_attrs path (owner_attributes owner group) hp (omega arith) refl

-- The value of an option, with a default.
abbrev or_else : {A : Type 0} → A → Option A → A
or_else d (some a) = a
or_else d none = d

module _ {S : Type 0} (is : ErrorCode → Condition → Bool) (message : ErrorCode → List ℕ)
    (h : Handlers S) where
  -- What the worker does with the request for a handler with a status reply.
  abbrev Answers : Call → (S → ErrorCode × S) → List ℕ → ℕ → S → Type 0
  Answers c act buffer id s =
      dispatch is message h (opcode c) buffer id no_error (body c) s
      ≡ finish_status is message h buffer id no_error (act s)

  reach :
      {A : Type 0} (parse : Take A) (handler : A → S → ErrorCode × S) (bytes : List ℕ) (a : A)
      (act : S → ErrorCode × S) (buffer : List ℕ) (id : ℕ) (s : S)
      → Reads parse bytes a
      → some (handler a) ≡ some act
      → finish_status is message h buffer id no_error (call parse handler bytes s)
        ≡ finish_status is message h buffer id no_error (act s)
  reach parse handler bytes a act buffer id s p e =
      rw (call-Reads parse handler bytes a s p)
        (ap (λ (f : S → ErrorCode × S). finish_status is message h buffer id no_error (f s)) acts)
    where
      acts : handler a ≡ act
      acts = ap (or_else act) e

  extended_name :
      (rest : List ℕ)
      → take_str (reader (str_bytes hardlink_name ++ rest) no_error)
        ≡ (hardlink_name, reader rest no_error)
  extended_name rest = (Reads-take_str hardlink_name (unfold hardlink_name in omega arith)).at rest

  answers :
      (c : Call) (act : S → ErrorCode × S) (buffer : List ℕ) (id : ℕ) (s : S)
      → action h c ≡ some act
      → Sound c
      → Answers c act buffer id s
  unfolding dispatch has
  answers (unlink_call filename) act buffer id s e ok =
      reach take_str h.unlink _ filename act buffer id s (Reads-take_str filename ok) e
  answers (mkdir_call path mode) act buffer id s e (hp, hm) =
      reach take_path_attrs (λ a. h.mkdir a.0 (mkdir_mode a.1)) _ (path, mode_attributes mode) act
        buffer id s (read_mode path mode hp hm) e
  answers (rmdir_call path) act buffer id s e ok =
      reach take_str h.rmdir _ path act buffer id s (Reads-take_str path ok) e
  answers (rename_call a b) act buffer id s e (ha, hb) =
      reach take_two (λ p. h.rename p.0 p.1) _ (a, b) act buffer id s (Reads-take_two a b ha hb) e
  answers (chmod_call path mode) act buffer id s e (hp, hm) =
      reach take_path_attrs (λ a. h.setstat a.0 a.1) _ (path, mode_attributes mode) act buffer id s
        (read_mode path mode hp hm) e
  answers (chown_call path owner group) act buffer id s e (hp, ho, hg) =
      reach take_path_attrs (λ a. h.setstat a.0 a.1) _ (path, owner_attributes owner group) act
        buffer id s (read_owner path owner group hp ho hg) e
  answers (symlink_call a b) act buffer id s e (ha, hb) =
      reach take_two (λ p. h.symlink p.0 p.1) _ (a, b) act buffer id s (Reads-take_two a b ha hb) e
  answers (hardlink_call a b) act buffer id s e (ha, hb) =
      unfold serve_extended in
      rw (extended_name (str_bytes a ++ str_bytes b), same_bytes_refl hardlink_name)
        (reach take_two (λ p. h.hardlink p.0 p.1) _ (a, b) act buffer id s
          (Reads-take_two a b ha hb) e)
  answers (setstat_call path attr) act buffer id s e (hp, ha, plain) =
      reach take_path_attrs (λ a. h.setstat a.0 a.1) _ (path, on_wire attr) act buffer id s
        (Reads-take_path_attrs path attr hp ha plain) e
  answers (close_call handle) act buffer id s e ok =
      reach take_str h.close _ handle act buffer id s (Reads-take_str handle ok) e
  answers (write_at_call handle offset bytes) act buffer id s e (hh, ho, hb) =
      reach take_write (λ a. h.write_at a.0 a.1 a.2) _ (handle, offset, bytes) act buffer id s
        (take_write_read handle offset bytes hh ho hb) e
  answers _ act buffer id s e ok = cc

  opcode_bound : (c : Call) → opcode c < 256
  opcode_bound (unlink_call _) = omega arith
  opcode_bound _ = omega arith

  -- The worker answers each request of the client that asks for a status (all but the opening, reading
  -- and looking-up ones) by calling the handler meant, with the arguments that the client was given, just
  -- once, and replying with a status packet for what the handler returned, under the request's id. This
  -- holds for arguments that fit the protocol, at most 2^30 bytes to write, and messages that fit a packet.
  pub serve_packet-request :
      (c : Call) (act : S → ErrorCode × S) (buffer : List ℕ) (id : ℕ) (s : S)
      → action h c ≡ some act
      → Sound c
      → id < 2 ^ 32
      → length (message (act s).0) + 21 < 2 ^ 32
      → serve_packet is message h buffer (drop 4 (packet (opcode c) id (body c))) s
        ≡ reply (status_packet is message id (act s).0) (act s).1
  serve_packet-request c act buffer id s e ok hid short =
      serve_packet-packet is message h buffer (opcode c) id (body c) s (opcode_bound c) hid
      ∙ answers c act buffer id s e ok
      ∙ finish_status-packet is message h buffer id (act s).0 (act s).1 short
