-- ===== src/Handshake/Opening.antt =====
-- The two sides of the handshake against each other.
use corosh.Base.{
  sym, Bool, true, false, Bool-cases, inl, inr, Option, none, some, same_bytes, same_bytes_sound,
  if◌then◌else◌, ℕ, zero, suc, ◌+◌, ◌%◌, ◌^◌, ◌≤◌, ◌<◌, ◌≡◌, refl, ap, ◌∙◌, List, [], ◌∷◌, ◌++◌,
  append-nil, append_assoc, length, take, drop, replicate, take-append, drop-append, length-append,
  length-replicate, arith,
}
use corosh.Base.Host.{Endian, little, big}
use corosh.Errors.{no_error, ssh_fatal}
use corosh.Fxp
use corosh.Wire.{reader, take_u8, take_u32, bytes_u32, add_u32, size_field}
use corosh.Wire.Writes.{
  Writes, Writes-▷, Writes-put_u8, Writes-put_u32, Writes-put_str, Writes-memory, Writes-skip,
}
use corosh.Wire.Reads.{Reads-take_u8, Reads-take_u32, Reads-take_str}
use corosh.Requests.Packets.{packet, str_bytes}
use corosh.Requests.Sent.{size_field-packet, length-packet}
use corosh.Handshake.{
  init_message, Pipe, Extensions, emplace, take_extensions, accept_packet, accept_version,
  take_init, extensions_length, put_extensions, version_reply, init, init_server,
}

abbrev pub extension_bytes : Extensions → List ℕ
extension_bytes [] = []
extension_bytes (e ∷ es) = (str_bytes e.0 ++ str_bytes e.1) ++ extension_bytes es

-- SSH_FXP_VERSION: the version stands where other packets have their id.
abbrev pub version_packet : Extensions → List ℕ
version_packet extensions = packet Fxp.version Fxp.libsftp_version (extension_bytes extensions)

-- The value of the first extension with a name.
abbrev pub first_value : List ℕ → Extensions → Option (List ℕ)
first_value name [] = none
first_value name (e ∷ es) =
    let more = first_value name es in if same_bytes name e.0 then some e.1 else more

-- The map with all of the extensions.
abbrev emplace_all : Extensions → Extensions → Extensions
emplace_all [] extensions = extensions
emplace_all (e ∷ es) extensions = emplace_all es (emplace e.0 e.1 extensions)

abbrev or_else : Option (List ℕ) → Option (List ℕ) → Option (List ℕ)
or_else none o = o
or_else (some v) o = some v

or_else-none : (o : Option (List ℕ)) → or_else o none ≡ o
or_else-none none = refl
or_else-none (some v) = refl

or_else_assoc : (o p q : Option (List ℕ)) → or_else (or_else o p) q ≡ or_else o (or_else p q)
or_else_assoc none p q = refl
or_else_assoc (some v) p q = refl

first_value-emplace :
    (n name value : List ℕ) (es : Extensions)
    → first_value n (emplace name value es)
      ≡ or_else (first_value n es) (if same_bytes n name then some value else none)
unfolding emplace
first_value-emplace n name value [] = refl
first_value-emplace n name value (e ∷ es) = elim (Bool-cases (same_bytes n e.0)) [
  | inl here ↦ elim (Bool-cases (same_bytes name e.0)) [
    | inl known ↦ rw (known, here) refl
    | inr other ↦ rw (other, here) refl
  ]
  | inr elsewhere ↦ elim (Bool-cases (same_bytes name e.0)) [
    | inl known ↦
        let unlike : same_bytes n name ≡ false =
          ap (same_bytes n) (same_bytes_sound name e.0 known) ∙ elsewhere in
        rw (known, elsewhere, unlike) (sym (or_else-none (first_value n es)))
    | inr other ↦ rw (other, elsewhere) (first_value-emplace n name value es)
  ]
]

first_value-emplace_all :
    (n : List ℕ) (es acc : Extensions)
    → first_value n (emplace_all es acc) ≡ or_else (first_value n acc) (first_value n es)
first_value-emplace_all n [] acc = sym (or_else-none (first_value n acc))
first_value-emplace_all n ((name, value) ∷ es) acc =
    first_value-emplace_all n es (emplace name value acc)
    ∙ ap (λ o. or_else o (first_value n es)) (first_value-emplace n name value acc)
    ∙ or_else_assoc (first_value n acc) (if same_bytes n name then some value else none)
        (first_value n es)
    ∙ ap (or_else (first_value n acc)) (front (same_bytes n name))
  where
    front :
        (b : Bool)
        → or_else (if b then some value else none) (first_value n es)
          ≡ (if b then some value else first_value n es)
    front true = refl
    front false = refl

extensions_length-length : (es : Extensions) → extensions_length es ≡ length (extension_bytes es)
extensions_length-length [] = refl
extensions_length-length (e ∷ es) = omega (
  arith,
  extensions_length-length es,
  length-append (str_bytes e.0 ++ str_bytes e.1) (extension_bytes es),
  length-append e.0 (str_bytes e.1),
)

Writes-put_extensions : (es : Extensions) → Writes (put_extensions es) (extension_bytes es)
Writes-put_extensions [] = Writes-skip
Writes-put_extensions (e ∷ es) =
    Writes-▷ (Writes-▷ (Writes-put_str e.0) (Writes-put_str e.1)) (Writes-put_extensions es)

version_reply-packet :
    (es : Extensions)
    → length (extension_bytes es) + 9 < 2 ^ 32
    → version_reply es ≡ record { done = version_packet es; rest = []; ec = no_error }
unfolding version_reply
version_reply-packet es short =
    let body = extension_bytes es in
    let size : (1 + 4 + extensions_length es) % 2 ^ 32 ≡ 5 + length body =
      omega (arith, extensions_length-length es) in
    rw size (
      Writes-memory (replicate (add_u32 4 (5 + length body)) 0)
        (Writes-▷ (Writes-put_u32 (5 + length body)) (
          Writes-▷ (Writes-put_u8 Fxp.version)
            (Writes-▷ (Writes-put_u32 Fxp.libsftp_version) (Writes-put_extensions es))))
        (length-replicate {A = ℕ} (add_u32 4 (5 + length body)) 0 ∙ omega arith))

take_extensions-extension_bytes :
    (rounds : ℕ) (es acc : Extensions)
    → length (extension_bytes es) ≤ rounds
    → length (extension_bytes es) < 2 ^ 32
    → take_extensions rounds acc (reader (extension_bytes es) no_error)
      ≡ (emplace_all es acc, reader [] no_error)
unfolding take_extensions
take_extensions-extension_bytes zero [] acc enough short = refl
take_extensions-extension_bytes (suc rounds) [] acc enough short = refl
take_extensions-extension_bytes zero (e ∷ es) acc enough short = absurd (omega arith)
take_extensions-extension_bytes (suc rounds) ((name, value) ∷ es) acc enough short =
    let pair = length-append (str_bytes name ++ str_bytes value) (extension_bytes es) in
    let both = length-append name (str_bytes value) in
    rw
      (
        append_assoc (str_bytes name) (str_bytes value) (extension_bytes es),
        (Reads-take_str name (omega (arith, pair, both))).at
            (str_bytes value ++ extension_bytes es),
        (Reads-take_str value (omega (arith, pair, both))).at (extension_bytes es),
      )
      (take_extensions-extension_bytes rounds es (emplace name value acc)
        (omega (arith, pair, both)) (omega (arith, pair, both)))

accept_packet-extension_bytes :
    (es : Extensions) (rest : List ℕ)
    → length (extension_bytes es) + 9 < 2 ^ 32
    → accept_packet (drop 4 (version_packet es)) rest ≡ (
      no_error,
      record {
        buffer = rest;
        extensions = emplace_all es [];
        server_version = Fxp.libsftp_version;
      },
    )
unfolding accept_packet
accept_packet-extension_bytes es rest short =
    rw
      (
        (Reads-take_u8 Fxp.version (omega arith)).at
            (bytes_u32 Fxp.libsftp_version ++ extension_bytes es),
        (Reads-take_u32 Fxp.libsftp_version (omega arith)).at (extension_bytes es),
        take_extensions-extension_bytes (length (extension_bytes es)) es [] (omega arith)
            (omega arith),
      )
      refl

accept_version-version_packet :
    (es : Extensions) (rest : List ℕ)
    → length (extension_bytes es) + 9 < 2 ^ 32
    → accept_version (version_packet es ++ rest) ≡ (
      no_error,
      record {
        buffer = rest;
        extensions = emplace_all es [];
        server_version = Fxp.libsftp_version;
      },
    )
unfolding accept_version
accept_version-version_packet es rest short =
    let p = version_packet es in
    let size : add_u32 (size_field (p ++ rest)) 4 ≡ length p = omega (
      arith,
      size_field-packet Fxp.version Fxp.libsftp_version (extension_bytes es) rest short,
      length-packet Fxp.version Fxp.libsftp_version (extension_bytes es),
    ) in
    ap (λ n. accept_packet (drop 4 (take n (p ++ rest))) (drop n (p ++ rest))) size
    ∙ ap (λ f. accept_packet (drop 4 f) (drop (length p) (p ++ rest))) (take-append p rest)
    ∙ ap (λ l. accept_packet (drop 4 p) l) (drop-append p rest)
    ∙ accept_packet-extension_bytes es rest short

module _ {S : Type 0} (pipe : Pipe S) where
  -- The client against a server that answers with its extensions, which fit a packet, whatever it
  -- has sent after that: the session has the version 3, what has arrived behind the packet, and a map
  -- that has for each name the value of the first extension with that name, and none if there is none.
  pub init-version_packet :
      (host : Endian) (es : Extensions) (rest : List ℕ) (s t u : S)
      → length (extension_bytes es) + 9 < 2 ^ 32
      → pipe.write (init_message host) s ≡ (no_error, t)
      → pipe.read_until [] t ≡ ((no_error, version_packet es ++ rest), u)
      → (map : Extensions) × (init pipe host s ≡ (
        (
          no_error,
          record { buffer = rest; extensions = map; server_version = Fxp.libsftp_version },
        ),
        u,
      ))
        × ((name : List ℕ) → first_value name map ≡ first_value name es)
  unfolding init
  init-version_packet host es rest s t u short writes arrives = (
    emplace_all es [],
    rw (writes, arrives, accept_version-version_packet es rest short) refl,
    λ name. first_value-emplace_all name es [],
  )

  -- The server, with extensions that fit a packet, against the message of the client: from a host
  -- of little byte order it takes the type for SSH_FXP_INIT, and answers with its extensions; from
  -- a host of big byte order it takes the type for 0 and gives up with SSH_FATAL, and writes
  -- nothing. Either way what has arrived behind the message has no effect.
  pub init_server-init_message :
      (host : Endian) (es : Extensions) (rest : List ℕ) (s t : S)
      → length (extension_bytes es) + 9 < 2 ^ 32
      → pipe.read_until [] s ≡ ((no_error, init_message host ++ rest), t)
      → init_server pipe es s
        ≡ elim host [ little ↦ pipe.write (version_packet es) t | big ↦ (ssh_fatal, t) ]
  unfolding init_server take_init init_message take_u8 take_u32
  init_server-init_message little es rest s t short arrives =
      rw (arrives, version_reply-packet es short)
        (ap (λ l. pipe.write l t) (append-nil (version_packet es)))
  init_server-init_message big es rest s t short arrives = rw arrives refl
