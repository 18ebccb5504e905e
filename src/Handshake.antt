-- ===== src/Handshake.antt =====
-- The handshake of SFTP in src/sftp.cpp: `init` of the client and `init_server`.
pub mod Opening
use corosh.Base.{
  ℕ, zero, suc, ◌+◌, ◌%◌, ◌^◌, Bool, true, false, not, ◌&&◌, List, [], ◌∷◌, ◌++◌, ◌==◌,
  if◌then◌else◌, same_bytes, length, take, drop, replicate,
}
use corosh.Base.Host.{Endian, little, big}
use corosh.Errors.{ErrorCode, no_error, failed, ssh_fatal}
use corosh.Fxp
use corosh.Wire.{
  Reader, reader, take_u8, take_u32, take_str, Writer, start, memory, put_u8, put_u32, put_str, ◌▷◌,
  bytes_u32, add_u32, size_field,
}

-- What a `uint32_t` looks like in memory.
abbrev pub reverse_four : List ℕ → List ℕ
reverse_four (a ∷ b ∷ c ∷ d ∷ []) = d ∷ c ∷ b ∷ a ∷ []
reverse_four l = l

abbrev pub host_u32 : Endian → ℕ → List ℕ
host_u32 little v = reverse_four (bytes_u32 v)
host_u32 big v = bytes_u32 v

-- `init_message`: the first and the last word go through `htonl`.
unfoldable pub init_message : Endian → List ℕ
init_message host = bytes_u32 8 ++ (host_u32 host Fxp.init ++ bytes_u32 Fxp.libsftp_version)

-- `boost::capy::write` and `boost::capy::read_until` with `match_packet`.
pub record Pipe (S : Type 0) : Type 0 where
  pub write : List ℕ → S → ErrorCode × S
  pub read_until : List ℕ → S → (ErrorCode × List ℕ) × S

abbrev pub Extensions : Type 0
Extensions = List (List ℕ × List ℕ)

-- `unordered_map::emplace`, which keeps what is there
pub emplace : List ℕ → List ℕ → Extensions → Extensions
emplace name value [] = (name, value) ∷ []
emplace name value (e ∷ es) =
    let more = emplace name value es in if same_bytes name e.0 then e ∷ es else e ∷ more

-- What `init` hands to the constructor of `session`; at an error the result is a session without any of it.
pub record Opened : Type 0 where
  pub buffer : List ℕ
  pub extensions : Extensions
  pub server_version : ℕ

abbrev pub no_session : Opened
no_session = record { buffer = []; extensions = []; server_version = 0 }

-- `while (cb.size() > 0u && !ec)`: a round that succeeds takes 8 bytes at least, so that there are no more
-- rounds than bytes.
unfoldable pub take_extensions : ℕ → Extensions → Reader → Extensions × Reader
take_extensions zero extensions r = (extensions, r)
take_extensions (suc rounds) extensions r =
    let (name, r') = take_str r in
    let (value, r'') = take_str r' in
    let more = take_extensions rounds (emplace name value extensions) r'' in
    elim r.buf [ [] ↦ (extensions, r) | b ∷ bs ↦ if failed r.ec then (extensions, r) else more ]

-- The packet behind its length field.
abbrev pub first_packet : List ℕ → List ℕ
first_packet buffer = drop 4 (take (add_u32 (size_field buffer) 4) buffer)

-- `init` behind `read_until`: the packet without its length field, and what `consume` leaves.
unfoldable pub accept_packet : List ℕ → List ℕ → ErrorCode × Opened
accept_packet cb left =
    let (type, r) = take_u8 (reader cb no_error) in
    if not (type == Fxp.version)
    then (ssh_fatal, no_session)
    else (let (version, r') = take_u32 r in
        let (extensions, r'') = take_extensions (length r'.buf) [] r' in
        (r''.ec, record { buffer = left; extensions = extensions; server_version = version }))

unfoldable pub accept_version : List ℕ → ErrorCode × Opened
accept_version buffer =
    accept_packet (first_packet buffer) (drop (add_u32 (size_field buffer) 4) buffer)

-- The type and the version of the client.
unfoldable pub take_init : List ℕ → (ℕ × ℕ) × ErrorCode
take_init buffer =
    let (type, r) = take_u8 (reader (first_packet buffer) no_error) in
    let (version, r') = take_u32 r in
    ((type, version), if not (failed r'.ec) && not (type == Fxp.init) then ssh_fatal else r'.ec)

abbrev pub extensions_length : Extensions → ℕ
extensions_length [] = 0
extensions_length (e ∷ es) = (4 + length e.0 + 4 + length e.1) + extensions_length es

abbrev pub put_extensions : Extensions → Writer → Writer
put_extensions [] w = w
put_extensions (e ∷ es) w = put_extensions es ((put_str e.0 ▷ put_str e.1) w)

-- The response of `init_server`; `extensions` are those of its map, in the order that the map has them.
unfoldable pub version_reply : Extensions → Writer
version_reply extensions =
    let body_len = (1 + 4 + extensions_length extensions) % 2 ^ 32 in
    (put_u32 body_len
        ▷ put_u8 Fxp.version
        ▷ put_u32 Fxp.libsftp_version
        ▷ put_extensions extensions)
      (start (replicate (add_u32 4 body_len) 0))

module _ {S : Type 0} (pipe : Pipe S) where
  unfoldable pub init : Endian → S → (ErrorCode × Opened) × S
  init host s =
      let (ec, written) = pipe.write (init_message host) s in
      if failed ec
      then ((ec, no_session), written)
      else (let ((ec', buffer), arrived) = pipe.read_until [] written in
          if failed ec' then ((ec', no_session), arrived) else (accept_version buffer, arrived))

  -- What is in the buffer behind the packet of the client goes with the buffer.
  unfoldable pub init_server : Extensions → S → ErrorCode × S
  init_server extensions s =
      let ((ec, buffer), arrived) = pipe.read_until [] s in
      if failed ec
      then (ec, arrived)
      else (let (client, ec') = take_init buffer in
          if failed ec'
          then (ec', arrived)
          else (let w = version_reply extensions in
              if failed w.ec then (w.ec, arrived) else pipe.write (memory w) arrived))
