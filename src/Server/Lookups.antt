-- ===== src/Server/Lookups.antt =====
-- The worker against the client: the requests whose reply carries a handle, attributes or a name.
use mathlib.Core.Path.{subst}
use corosh.Base.{
  ℕ, ◌+◌, ◌^◌, ◌<◌, ◌≡◌, refl, ap, ◌∙◌, Bool, true, false, List, [], ◌++◌, append-nil, Option, none,
  some, same_bytes, length, drop, if◌then◌else◌, arith, Bool-cases, inl, inr,
}
use corosh.Errors.{ErrorCode, no_error, failed}
use corosh.Errors.Conditions.{Condition}
use corosh.Fxp
use corosh.Wire.{Take, reader, take_str, bytes_u32}
use corosh.Wire.Reads.{Reads, Reads-bind, Reads-last, Reads-pure, Reads-take_str, Reads-take_u32}
use corosh.Attributes.{Attributes, no_attributes, has, attr_permissions, attr_extended, bits}
use corosh.Attributes.Bytes.{attrs_bytes, InRange, Reads-take_attrs}
use corosh.Requests.{expand_path_name, hardlink_name}
use corosh.Requests.Packets.{
  Call, opcode, body, packet, str_bytes, opendir_call, open_file_call, stat_call, lstat_call,
  readlink_call, canonicalize_path_call, expand_path_call,
}
use corosh.Responses.{blank_handle, blank_attrs, blank_name}
use corosh.Server.{
  Handlers, reply, call_value, dispatch, serve_packet, serve_extended, finish_value, handle_reply,
  attrs_reply, name_reply, take_open,
}
use corosh.Server.Replies.{status_packet, build_status-packet, serve_packet-packet}
use corosh.Server.Values.{handle_reply-packet, attrs_reply-packet, name_bytes, name_reply-packet}
use corosh.Wire.{Writer}

-- What a handler brings besides its code.
pub data Found : Type 0 where
  handle : List ℕ → Found
  attrs : Attributes → Found
  name : List ℕ → Found

abbrev with_handle : {S : Type 0} → (ErrorCode × List ℕ) × S → (ErrorCode × Found) × S
with_handle ((ec, h), s) = ((ec, handle h), s)

abbrev with_attrs : {S : Type 0} → (ErrorCode × Attributes) × S → (ErrorCode × Found) × S
with_attrs ((ec, a), s) = ((ec, attrs a), s)

abbrev with_name : {S : Type 0} → (ErrorCode × List ℕ) × S → (ErrorCode × Found) × S
with_name ((ec, n), s) = ((ec, name n), s)

-- What the handler that a request means brings, for the requests that look something up or open it.
abbrev pub lookup : {S : Type 0} → Handlers S → Call → S → Option ((ErrorCode × Found) × S)
lookup h (open_file_call path accesstype mode) s =
    some (with_handle (h.open_file path accesstype mode s))
lookup h (opendir_call path) s = some (with_handle (h.opendir path s))
lookup h (stat_call path) s = some (with_attrs (h.stat path s))
lookup h (lstat_call path) s = some (with_attrs (h.lstat path s))
lookup h (readlink_call path) s = some (with_name (h.readlink path s))
lookup h (canonicalize_path_call path) s = some (with_name (h.canonicalize_path path s))
lookup h (expand_path_call path) s = some (with_name (h.expand_path path s))
lookup h _ s = none

-- Arguments in the range of their types.
abbrev pub Asked : Call → Type 0
Asked (open_file_call path accesstype mode) =
    (length path < 2 ^ 32) × (accesstype < 2 ^ 32) × (mode < 2 ^ 32)
Asked (opendir_call path) = length path < 2 ^ 32
Asked (stat_call path) = length path < 2 ^ 32
Asked (lstat_call path) = length path < 2 ^ 32
Asked (readlink_call path) = length path < 2 ^ 32
Asked (canonicalize_path_call path) = length path < 2 ^ 32
Asked (expand_path_call path) = length path < 2 ^ 32
Asked _ = Unit {0}

-- What fits a packet, and attributes without extended ones.
abbrev pub Carried : Found → Type 0
Carried (handle h) = length h + 13 < 2 ^ 32
Carried (attrs a) = InRange a × (has a.flags attr_extended ≡ false)
Carried (name n) = length n + 25 < 2 ^ 32

abbrev pub found_type : Found → ℕ
found_type (handle h) = Fxp.handle
found_type (attrs a) = Fxp.attrs
found_type (name n) = Fxp.name

abbrev pub found_body : Found → List ℕ
found_body (handle h) = str_bytes h
found_body (attrs a) = attrs_bytes a
found_body (name n) = name_bytes n

-- The packet that answers.
abbrev pub found_packet :
    (ErrorCode → Condition → Bool) → (ErrorCode → List ℕ) → ℕ → ErrorCode × Found → List ℕ
found_packet is message id (reported, v) =
    if failed reported
    then status_packet is message id reported
    else packet (found_type v) id (found_body v)

Reads-take_open :
    (path : List ℕ) (accesstype mode : ℕ)
    → length path < 2 ^ 32
    → accesstype < 2 ^ 32
    → mode < 2 ^ 32
    → Reads take_open
        (str_bytes path
          ++ (bytes_u32 accesstype ++ (bytes_u32 (bits attr_permissions) ++ bytes_u32 mode)))
        (path, accesstype, mode)
unfolding take_open has
Reads-take_open path accesstype mode hp ha hm = Reads-bind _ (Reads-take_str path hp) (
    Reads-bind _ (Reads-take_u32 accesstype ha) (
      Reads-last _
        (Reads-take_attrs (record no_attributes { flags = 4; permissions = mode }) (omega arith)
          refl)
        (Reads-pure (path, accesstype, mode))))

opcode_small : (c : Call) → opcode c < 256
opcode_small (open_file_call _ _ _) = omega arith
opcode_small _ = omega arith

extended_name :
    (rest : List ℕ)
    → take_str (reader (str_bytes expand_path_name ++ rest) no_error)
      ≡ (expand_path_name, reader rest no_error)
extended_name rest =
    (Reads-take_str expand_path_name (unfold expand_path_name in omega arith)).at rest

names_differ : same_bytes expand_path_name hardlink_name ≡ false
unfolding expand_path_name hardlink_name
names_differ = refl

same_name : same_bytes expand_path_name expand_path_name ≡ true
unfolding expand_path_name
same_name = refl

module _ {S : Type 0} (is : ErrorCode → Condition → Bool) (message : ErrorCode → List ℕ)
    (h : Handlers S) where
  -- A reply that is built without an error, for a handler's result.
  finish_value-packet :
      {A : Type 0} (build : List ℕ → ℕ → ErrorCode → A → Writer) (buffer : List ℕ) (id : ℕ)
      (reported : ErrorCode) (a : A) (bytes : List ℕ) (s : S)
      → length (message reported) + 21 < 2 ^ 32
      → build buffer id no_error a ≡ record { done = bytes; rest = []; ec = no_error }
      → finish_value is message h build buffer id no_error ((reported, a), s)
        ≡ reply (if failed reported then status_packet is message id reported else bytes) s
  finish_value-packet build buffer id reported a bytes s short built =
      elim (Bool-cases (failed reported)) [
        | inl bad ↦
            rw (bad, build_status-packet is message buffer id reported short)
              (ap (λ b. reply b s) (append-nil (status_packet is message id reported)))
        | inr fine ↦ rw (fine, built) (ap (λ b. reply b s) (append-nil bytes))
      ]

  call_value-Reads :
      {A B : Type 0} (parse : Take A) (act : A → S → (ErrorCode × B) × S) (empty : B)
      (bytes : List ℕ) (a : A) (s : S)
      → Reads parse bytes a
      → call_value parse act empty bytes s ≡ act a s
  call_value-Reads parse act empty bytes a s p = rw (rw append-nil at (p.at []))

  -- One request, once its arguments are parsed.
  value_reply :
      {A B : Type 0} (parse : Take A) (act : A → S → (ErrorCode × B) × S) (empty : B)
      (build : List ℕ → ℕ → ErrorCode → B → Writer) (bytes : List ℕ) (a : A) (buffer : List ℕ)
      (id : ℕ) (answer : List ℕ) (s : S)
      → Reads parse bytes a
      → length (message (act a s).0.0) + 21 < 2 ^ 32
      → build buffer id no_error (act a s).0.1 ≡ record { done = answer; rest = []; ec = no_error }
      → finish_value is message h build buffer id no_error (call_value parse act empty bytes s)
        ≡ reply
            (if failed (act a s).0.0 then status_packet is message id (act a s).0.0 else answer)
            (act a s).1
  value_reply parse act empty build bytes a buffer id answer s p short built =
      ap (finish_value is message h build buffer id no_error)
        (call_value-Reads parse act empty bytes a s p)
      ∙ finish_value-packet build buffer id (act a s).0.0 (act a s).0.1 answer (act a s).1 short
          built

  abbrev Answers : Call → List ℕ → ℕ → S → (ErrorCode × Found) × S → Type 0
  Answers c buffer id s r =
      Carried r.0.1
      → length (message r.0.0) + 21 < 2 ^ 32
      → dispatch is message h (opcode c) buffer id no_error (body c) s
        ≡ reply (found_packet is message id r.0) r.1

  same_found : (r r' : (ErrorCode × Found) × S) → some r ≡ some r' → r ≡ r'
  same_found r r' e = ap (λ o. elim o [ some x ↦ x | none ↦ r ]) e

  answers :
      (c : Call) (r : (ErrorCode × Found) × S) (buffer : List ℕ) (id : ℕ) (s : S)
      → lookup h c s ≡ some r
      → Asked c
      → Answers c buffer id s r
  unfolding dispatch
  answers (open_file_call path accesstype mode) r buffer id s e (hp, ha, hm) =
      subst (Answers (open_file_call path accesstype mode) buffer id s) (same_found _ r e)
        λ carried short.
          value_reply take_open (λ a. h.open_file a.0 a.1 a.2) [] handle_reply _
            (path, accesstype, mode) buffer id _ s (Reads-take_open path accesstype mode hp ha hm)
            short (handle_reply-packet buffer id _ blank_handle carried).0
  answers (opendir_call path) r buffer id s e hp =
      subst (Answers (opendir_call path) buffer id s) (same_found _ r e) λ carried short.
        value_reply take_str h.opendir [] handle_reply _ path buffer id _ s (Reads-take_str path hp)
          short (handle_reply-packet buffer id _ blank_handle carried).0
  answers (stat_call path) r buffer id s e hp =
      subst (Answers (stat_call path) buffer id s) (same_found _ r e) λ carried short.
        value_reply take_str h.stat no_attributes attrs_reply _ path buffer id _ s
          (Reads-take_str path hp) short
          (attrs_reply-packet buffer id _ blank_attrs carried.0 carried.1).0
  answers (lstat_call path) r buffer id s e hp =
      subst (Answers (lstat_call path) buffer id s) (same_found _ r e) λ carried short.
        value_reply take_str h.lstat no_attributes attrs_reply _ path buffer id _ s
          (Reads-take_str path hp) short
          (attrs_reply-packet buffer id _ blank_attrs carried.0 carried.1).0
  answers (readlink_call path) r buffer id s e hp =
      subst (Answers (readlink_call path) buffer id s) (same_found _ r e) λ carried short.
        value_reply take_str h.readlink [] name_reply _ path buffer id _ s (Reads-take_str path hp)
          short (name_reply-packet buffer id _ blank_name carried).0
  answers (canonicalize_path_call path) r buffer id s e hp =
      subst (Answers (canonicalize_path_call path) buffer id s) (same_found _ r e) λ carried short.
        value_reply take_str h.canonicalize_path [] name_reply _ path buffer id _ s
          (Reads-take_str path hp) short (name_reply-packet buffer id _ blank_name carried).0
  answers (expand_path_call path) r buffer id s e hp =
      subst (Answers (expand_path_call path) buffer id s) (same_found _ r e) λ carried short.
        unfold serve_extended in
        rw (extended_name (str_bytes path), names_differ, same_name)
          (value_reply take_str h.expand_path [] name_reply _ path buffer id _ s
            (Reads-take_str path hp) short (name_reply-packet buffer id _ blank_name carried).0)
  answers _ r buffer id s e ok = absurd (cc e)

  -- The worker answers each request of the client to open a file or a directory, for attributes or for a path (but
  -- for the home directory, which it does not know) by calling the handler meant, with the arguments that
  -- the client was given, just once, and replying under the request's id with a packet of the handle, of the
  -- attributes or of the name that the handler brings, if it reports no error, and else with the status of
  -- that error. This holds for arguments that fit the protocol, for results and messages that fit
  -- a packet, and attributes that announce no extended ones.
  pub serve_packet-lookup :
      (c : Call) (r : (ErrorCode × Found) × S) (buffer : List ℕ) (id : ℕ) (s : S)
      → lookup h c s ≡ some r
      → Asked c
      → Carried r.0.1
      → id < 2 ^ 32
      → length (message r.0.0) + 21 < 2 ^ 32
      → serve_packet is message h buffer (drop 4 (packet (opcode c) id (body c))) s
        ≡ reply (found_packet is message id r.0) r.1
  serve_packet-lookup c r buffer id s e ok carried hid short =
      serve_packet-packet is message h buffer (opcode c) id (body c) s (opcode_small c) hid
      ∙ answers c r buffer id s e ok carried short
