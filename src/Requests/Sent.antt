-- ===== src/Requests/Sent.antt =====
-- What the operations hand to the stream, and how the other side cuts it into packets.
use corosh.Base.{
  ℕ, zero, suc, ◌+◌, ◌-◌, ◌^◌, ◌≤◌, ◌<◌, ◌≡◌, refl, ap, ◌∙◌, List, [], ◌∷◌, ◌++◌, append-nil,
  length, take, length-append, length-replicate, Bool-cases, inl, inr, leb, arith, some,
}
use corosh.Wire.{memory, match_packet, bytes_u32, size_field}
use corosh.Wire.Writes.{Writes-memory}
use corosh.Wire.Reads.{be32-bytes}
use corosh.Requests.{get_small_buffer, to_write}
use corosh.Requests.Packets.{Call, request, opcode, body, packet, Sends, request-Sends}

pub length-take : (n : ℕ) (xs : List ℕ) → n ≤ length xs → length (take n xs) ≡ n
length-take zero xs h = refl
length-take (suc n) [] h = absurd (omega arith)
length-take (suc n) (x ∷ xs) h = omega (arith, length-take n xs)

length-get_small_buffer :
    (small : List ℕ) (n : ℕ) → length small ≡ 1024 → length (get_small_buffer small n) ≡ n
unfolding get_small_buffer
length-get_small_buffer small n h = elim (Bool-cases (leb n 1024)) [
  | inl e ↦ rw e (length-take n small (ground arith))
  | inr e ↦ rw e (length-replicate n 0)
]

pub length-packet :
    (type id : ℕ) (content : List ℕ) → length (packet type id content) ≡ 9 + length content
length-packet type id content = omega arith

-- The bytes written to the stream: a length field, the type, the id and the arguments.
pub to_write-packet :
    (c : Call) (id : ℕ) (small : List ℕ)
    → length small ≡ 1024
    → to_write (request c) id small ≡ packet (opcode c) id (body c)
unfolding to_write
to_write-packet c id small h =
    let s : Sends (request c) (opcode c) (body c) = request-Sends c in
    ap memory (
      Writes-memory (get_small_buffer small (4 + (request c).length)) (s.puts id) (
        omega (
          arith,
          length-get_small_buffer small (4 + (request c).length) h,
          length-packet (opcode c) id (body c),
          s.size,
        )))
    ∙ append-nil (packet (opcode c) id (body c))

-- `match_packet` finds the end of a packet whose size, with the length field, fits 32 bits, whatever
-- has arrived behind it.
pub match_packet-packet :
    (type id : ℕ) (content rest : List ℕ)
    → length content + 9 < 2 ^ 32
    → match_packet (packet type id content ++ rest) ≡ some (length (packet type id content))
unfolding match_packet
match_packet-packet type id content rest h =
    ground (arith, be32-bytes (5 + length content), length-append content rest)

-- Whatever the operation, the request id, and the 1024 bytes of uninitialised memory (used for a short request
-- only), with arguments that take fewer than 2^32 - 9 bytes: the operation writes its length field, its
-- type, the id and its arguments to the stream and nothing else, and `match_packet` of the other side cuts off
-- just these bytes, whatever follows them. (Attributes that announce extended ones are written
-- without any, and without a count of them.)
pub match_packet-to_write :
    (c : Call) (id : ℕ) (small rest : List ℕ)
    → length small ≡ 1024
    → length (body c) + 9 < 2 ^ 32
    → (to_write (request c) id small ≡ packet (opcode c) id (body c))
      × (match_packet (to_write (request c) id small ++ rest)
          ≡ some (length (to_write (request c) id small)))
match_packet-to_write c id small rest h short =
    let written = to_write-packet c id small h in
    (written, rw written (match_packet-packet (opcode c) id (body c) rest short))

-- For a length field of 2^32 - 4 or more the sum with 4 wraps: `match_packet` then matches a packet of 0
-- to 3 bytes, which is shorter than its own length field, whatever else has arrived.
pub match_packet-add_u32 :
    (k : ℕ) (rest : List ℕ) → k < 4 → match_packet (bytes_u32 (2 ^ 32 - 4 + k) ++ rest) ≡ some k
unfolding match_packet
match_packet-add_u32 k rest h = ground (arith, be32-bytes (2 ^ 32 - 4 + k))

pub size_field-packet :
    (type id : ℕ) (content rest : List ℕ)
    → length content + 9 < 2 ^ 32
    → size_field (packet type id content ++ rest) ≡ 5 + length content
size_field-packet type id content rest h = be32-bytes (5 + length content) (omega arith)
