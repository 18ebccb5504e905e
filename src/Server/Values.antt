-- ===== src/Server/Values.antt =====
-- The replies of the worker with a value, and what the classes of the client read from them.
use corosh.Base.{
  ℕ, ◌+◌, ◌%◌, ◌^◌, ◌<◌, ◌≡◌, refl, ◌∙◌, true, false, List, [], ◌∷◌, ◌++◌, append-nil, length,
  length-append, arith,
}
use corosh.Errors.{no_error}
use corosh.Fxp
use corosh.Wire.{bytes_u32, add_u32}
use corosh.Wire.Writes.{
  Writes, Writes-▷, Writes-put_u8, Writes-put_u32, Writes-put_str, Writes-memory, Writes-skip,
}
use corosh.Wire.Reads.{Reads-take_u32, Reads-take_str}
use corosh.Attributes.{Attributes, has, attr_extended, attrs_length}
use corosh.Attributes.Bytes.{
  attrs_bytes, attrs_length-length, InRange, on_wire, Reads-take_attrs, Writes-put_attrs,
}
use corosh.Requests.Packets.{packet, str_bytes}
use corosh.Responses.{Handle, Attrs, Name, complete_handle, complete_attrs, complete_name}
use corosh.Responses.{Entry}
use corosh.Responses.Parsed.{entry_bytes, entries_bytes}
use corosh.Server.{
  put_entries, entries_length, entries_reply, handle_reply, attrs_reply, name_reply,
}
use corosh.Server.Status.{resize}
use corosh.Server.Replies.{length-resize}

-- The reply to OPEN and OPENDIR is the packet of a handle, from which the client's class gets
-- the handle, if it fits a packet.
pub handle_reply-packet :
    (buffer : List ℕ) (id : ℕ) (h : List ℕ) (r : Handle)
    → length h + 13 < 2 ^ 32
    → (handle_reply buffer id no_error h
        ≡ record { done = packet Fxp.handle id (str_bytes h); rest = []; ec = no_error })
      × (complete_handle no_error Fxp.handle (str_bytes h) r
          ≡ record { completed = true; ec = no_error; handle = h })
unfolding handle_reply complete_handle
handle_reply-packet buffer id h r short =
    let size : 1 + 4 + (4 + length h) ≡ 5 + length (str_bytes h) = omega arith in
    let room : 1 + 4 + (4 + length h) + 4 ≡ length (packet Fxp.handle id (str_bytes h)) =
      omega arith in
    (
      rw size (
          Writes-memory (resize (5 + length (str_bytes h) + 4) buffer)
            (Writes-▷ (Writes-put_u32 (5 + length (str_bytes h))) (
              Writes-▷ (Writes-put_u8 Fxp.handle)
                (Writes-▷ (Writes-put_u32 id) (Writes-put_str h))))
            (length-resize (5 + length (str_bytes h) + 4) buffer ∙ omega arith)),
      rw (rw append-nil at ((Reads-take_str h (omega arith)).at [])) refl,
    )

-- The reply to STAT, LSTAT and FSTAT is the packet of the attributes, from which the client's
-- class gets what they announce, if their fields are in the range of their types and they
-- announce no extended attributes.
pub attrs_reply-packet :
    (buffer : List ℕ) (id : ℕ) (a : Attributes) (r : Attrs)
    → InRange a
    → has a.flags attr_extended ≡ false
    → (attrs_reply buffer id no_error a
        ≡ record { done = packet Fxp.attrs id (attrs_bytes a); rest = []; ec = no_error })
      × (complete_attrs no_error Fxp.attrs (attrs_bytes a) r
          ≡ record { completed = true; ec = no_error; attr = on_wire a })
unfolding attrs_reply complete_attrs
attrs_reply-packet buffer id a r ok plain =
    let bound : length (attrs_bytes a) < 33 = ground (arith, attrs_length-length a) in
    let size : (1 + 4 + attrs_length a) % 2 ^ 32 ≡ 5 + length (attrs_bytes a) =
      omega (arith, attrs_length-length a) in
    (
      rw size (
          Writes-memory (resize (add_u32 (5 + length (attrs_bytes a)) 4) buffer)
            (Writes-▷ (Writes-put_u32 (5 + length (attrs_bytes a))) (
              Writes-▷ (Writes-put_u8 Fxp.attrs)
                (Writes-▷ (Writes-put_u32 id) (Writes-put_attrs a))))
            (length-resize (add_u32 (5 + length (attrs_bytes a)) 4) buffer ∙ omega arith)),
      rw (rw append-nil at ((Reads-take_attrs a ok plain).at [])) refl,
    )

-- The body of a packet with one name, without a long name and attributes.
abbrev pub name_bytes : List ℕ → List ℕ
name_bytes name = bytes_u32 1 ++ (str_bytes name ++ (str_bytes [] ++ bytes_u32 0))

-- The reply to READLINK, REALPATH and expand-path is a packet with one name, from which the
-- client's class gets that name, if it fits a packet.
pub name_reply-packet :
    (buffer : List ℕ) (id : ℕ) (name : List ℕ) (r : Name)
    → length name + 25 < 2 ^ 32
    → (name_reply buffer id no_error name
        ≡ record { done = packet Fxp.name id (name_bytes name); rest = []; ec = no_error })
      × (complete_name no_error Fxp.name (name_bytes name) r
          ≡ record { completed = true; ec = no_error; name = name })
unfolding name_reply complete_name
name_reply-packet buffer id name r short =
    let long : length (name_bytes name) ≡ 16 + length name =
      omega (arith, length-append name (str_bytes [] ++ bytes_u32 0)) in
    let size : (1 + 4 + 4 + 4 + length name + 4 + 4) % 2 ^ 32 ≡ 5 + length (name_bytes name) =
      omega arith in
    (
      rw size (
          Writes-memory (resize (add_u32 (5 + length (name_bytes name)) 4) buffer)
            (Writes-▷ (Writes-put_u32 (5 + length (name_bytes name))) (
              Writes-▷ (Writes-put_u8 Fxp.name) (
                Writes-▷ (Writes-put_u32 id) (
                  Writes-▷ (Writes-put_u32 1) (
                    Writes-▷ (Writes-put_str name)
                      (Writes-▷ (Writes-put_str []) (Writes-put_u32 0)))))))
            (length-resize (add_u32 (5 + length (name_bytes name)) 4) buffer ∙ omega arith)),
      rw
          (
            (Reads-take_u32 1 (omega arith)).at (str_bytes name ++ (str_bytes [] ++ bytes_u32 0)),
            (Reads-take_str name (omega arith)).at (str_bytes [] ++ bytes_u32 0),
          )
          refl,
    )

entries_length-length : (es : List Entry) → entries_length es ≡ length (entries_bytes es)
entries_length-length [] = refl
entries_length-length (e ∷ es) = omega (
  arith,
  entries_length-length es,
  attrs_length-length e.attr,
  length-append (entry_bytes e) (entries_bytes es),
  length-append e.name (str_bytes e.long_name ++ attrs_bytes e.attr),
  length-append e.long_name (attrs_bytes e.attr),
)

Writes-put_entries : (es : List Entry) → Writes (put_entries es) (entries_bytes es)
Writes-put_entries [] = Writes-skip
Writes-put_entries (e ∷ es) =
    Writes-▷
      (Writes-▷ (Writes-put_str e.name)
        (Writes-▷ (Writes-put_str e.long_name) (Writes-put_attrs e.attr)))
      (Writes-put_entries es)

-- The reply to READDIR is the packet of the entries, in order, if it fits a packet.
pub entries_reply-packet :
    (buffer : List ℕ) (id : ℕ) (es : List Entry)
    → length (entries_bytes es) + 13 < 2 ^ 32
    → entries_reply buffer id no_error es ≡ record {
      done = packet Fxp.name id (bytes_u32 (length es) ++ entries_bytes es);
      rest = [];
      ec = no_error;
    }
unfolding entries_reply
entries_reply-packet buffer id es short =
    let body = bytes_u32 (length es) ++ entries_bytes es in
    let size : (1 + 4 + 4 + entries_length es) % 2 ^ 32 ≡ 5 + length body =
      omega (arith, entries_length-length es) in
    rw size (
      Writes-memory (resize (add_u32 (5 + length body) 4) buffer)
        (Writes-▷ (Writes-put_u32 (5 + length body)) (
          Writes-▷ (Writes-put_u8 Fxp.name) (
            Writes-▷ (Writes-put_u32 id)
              (Writes-▷ (Writes-put_u32 (length es)) (Writes-put_entries es)))))
        (length-resize (add_u32 (5 + length body) 4) buffer ∙ omega arith))
