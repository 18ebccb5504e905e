-- ===== src/Wire.antt =====
-- The reading and writing primitives of src/sftp.cpp, lines 36 to 253: bytes in network order behind
-- a `const_buffer &` or a `mutable_buffer &`, with the error code that every call passes along.
-- A buffer that is read is the list of the bytes that it still spans. A buffer that is written is the
-- memory in front of it and the memory that it still spans; `+=` moves bytes from one to the other.
pub mod Writes
pub mod Reads
use corosh.Base.{
  ℕ, ◌+◌, ◌*◌, ◌/◌, ◌%◌, ◌^◌, Bool, List, [], ◌∷◌, ◌++◌, Option, none, some, length, take, drop,
  ltb, leb, if◌then◌else◌,
}
use corosh.Errors.{ErrorCode, no_error, bad_message, failed}

-- `ntohl` of four bytes in memory order.
abbrev pub be32 : ℕ → ℕ → ℕ → ℕ → ℕ
be32 a b c d = a * 2 ^ 24 + b * 2 ^ 16 + c * 2 ^ 8 + d

pub record Reader : Type 0 where
  pub buf : List ℕ
  pub ec : ErrorCode

abbrev pub reader : List ℕ → ErrorCode → Reader
reader buf ec = record { buf = buf; ec = ec }

-- A function with the parameters `const_buffer & buf, error_code & ec`.
abbrev pub Take {ℓ} : Type ℓ → Type ℓ
Take A = Reader → A × Reader

unfoldable pub pure {ℓ} : {A : Type ℓ} → A → Take A
pure a r = (a, r)

infixl 5 ◌>>=◌
unfoldable pub ◌>>=◌ {ℓ κ} : {A : Type ℓ} {B : Type κ} → Take A → (A → Take B) → Take B
◌>>=◌ m f r = f (m r).0 (m r).1

-- `if (c) x = m(buf, ec);` for a variable that holds `d` before
unfoldable pub when {ℓ} : {A : Type ℓ} → Bool → Take A → A → Take A
when c m d r = if c then m r else (d, r)

-- The patterns are the tests of `buf.size()`.
take_u8_of : List ℕ → ErrorCode → ℕ × Reader
take_u8_of (b ∷ rest) ec = (b, reader rest ec)
take_u8_of [] ec = (0, reader [] bad_message)

unfoldable pub take_u8 : Take ℕ
unfolding take_u8_of
take_u8 r = if failed r.ec then (0, r) else take_u8_of r.buf r.ec

take_u32_of : List ℕ → ErrorCode → ℕ × Reader
take_u32_of (a ∷ b ∷ c ∷ d ∷ rest) ec = (be32 a b c d, reader rest ec)
take_u32_of buf ec = (0, reader buf bad_message)

unfoldable pub take_u32 : Take ℕ
unfolding take_u32_of
take_u32 r = if failed r.ec then (0, r) else take_u32_of r.buf r.ec

-- `hi` and `lo` are copied out as two words; the result is `hi << 32 | lo`.
take_u64_of : List ℕ → ErrorCode → ℕ × Reader
take_u64_of (a ∷ b ∷ c ∷ d ∷ e ∷ f ∷ g ∷ h ∷ rest) ec =
    (be32 a b c d * 2 ^ 32 + be32 e f g h, reader rest ec)
take_u64_of buf ec = (0, reader buf bad_message)

unfoldable pub take_u64 : Take ℕ
unfolding take_u64_of
take_u64 r = if failed r.ec then (0, r) else take_u64_of r.buf r.ec

-- The part of `take_str` behind its `take_u32`.
take_str_of : ℕ → Take (List ℕ)
take_str_of sz r =
    if failed r.ec
    then ([], r)
    else if ltb (length r.buf) sz
    then ([], reader r.buf bad_message)
    else (take sz r.buf, reader (drop sz r.buf) r.ec)

unfoldable pub take_str : Take (List ℕ)
unfolding take_str_of
take_str = take_u32 >>= take_str_of

pub record Writer : Type 0 where
  pub done : List ℕ
  pub rest : List ℕ
  pub ec : ErrorCode

-- A fresh `mutable_buffer` over `memory`, whatever that holds.
abbrev pub start : List ℕ → Writer
start memory = record { done = []; rest = memory; ec = no_error }

-- The memory as a whole, which a `const_buffer` taken at the start still spans.
abbrev pub memory : Writer → List ℕ
memory w = w.done ++ w.rest

-- The bytes of a `uint8_t`, and of the `uint32_t` and `uint64_t` to which an argument is converted:
-- what does not fit is cut off by `% 256` of each byte.
abbrev pub bytes_u8 : ℕ → List ℕ
bytes_u8 v = v % 256 ∷ []

abbrev pub bytes_u32 : ℕ → List ℕ
bytes_u32 v = v / 2 ^ 24 % 256 ∷ v / 2 ^ 16 % 256 ∷ v / 2 ^ 8 % 256 ∷ v % 256 ∷ []

abbrev pub bytes_u64 : ℕ → List ℕ
bytes_u64 v = bytes_u32 (v / 2 ^ 32) ++ bytes_u32 v

-- What all the `put_` functions do with the bytes they have: test the room, copy, advance.
unfoldable pub emit : List ℕ → Writer → Writer
emit bytes w =
    if failed w.ec
    then w
    else if ltb (length w.rest) (length bytes)
    then record w { ec = bad_message }
    else record { done = w.done ++ bytes; rest = drop (length bytes) w.rest; ec = w.ec }

unfoldable pub put_u8 : ℕ → Writer → Writer
unfolding emit
put_u8 v = emit (bytes_u8 v)

unfoldable pub put_u32 : ℕ → Writer → Writer
unfolding emit
put_u32 v = emit (bytes_u32 v)

unfoldable pub put_u64 : ℕ → Writer → Writer
unfolding emit
put_u64 v = emit (bytes_u64 v)

-- One statement behind another.
infixr 4 ◌▷◌
abbrev pub ◌▷◌ : (Writer → Writer) → (Writer → Writer) → Writer → Writer
◌▷◌ f g w = g (f w)

unfoldable pub put_str : List ℕ → Writer → Writer
unfolding emit put_u32
put_str value = put_u32 (length value) ▷ emit value

-- `sz + 4u` of a `uint32_t`, which wraps.
abbrev pub add_u32 : ℕ → ℕ → ℕ
add_u32 a b = (a + b) % 2 ^ 32

-- `npos` is `none`.
unfoldable pub match_packet : List ℕ → Option ℕ
match_packet (a ∷ b ∷ c ∷ d ∷ rest) =
    let sz = be32 a b c d in
    if leb (add_u32 sz 4) (length (a ∷ b ∷ c ∷ d ∷ rest)) then some (add_u32 sz 4) else none
match_packet input = none

-- The length field, `ntohl(*reinterpret_cast<const std::uint32_t*>(...))`.
abbrev pub size_field : List ℕ → ℕ
size_field (a ∷ b ∷ c ∷ d ∷ rest) = be32 a b c d
size_field buffer = 0
