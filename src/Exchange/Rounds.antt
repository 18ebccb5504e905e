-- ===== src/Exchange/Rounds.antt =====
-- One packet that has arrived: how `read_one_` takes it off the buffer.
use corosh.Base.{
  ℕ, ◌+◌, ◌^◌, ◌<◌, ◌≡◌, refl, ap, ◌∙◌, List, ◌++◌, length, take, drop, take-append, drop-append,
  arith,
}
use corosh.Errors.{ErrorCode, no_error}
use corosh.Wire.{size_field, bytes_u8, bytes_u32, add_u32}
use corosh.Wire.Reads.{Reads-take_u8, Reads-take_u32}
use corosh.Requests.Packets.{packet}
use corosh.Requests.Sent.{length-packet, size_field-packet}
use corosh.Queue.{Queue, done, ◌>>=◌, complete_request}
use corosh.Exchange.{Client, Waits, take_packet, deliver_packet}

add_u32-size_field :
    (type id : ℕ) (content rest : List ℕ)
    → length content + 9 < 2 ^ 32
    → add_u32 (size_field (packet type id content ++ rest)) 4 ≡ length (packet type id content)
add_u32-size_field type id content rest h =
    omega (arith, size_field-packet type id content rest h, length-packet type id content)

module _ {S : Type 0} (eof : ErrorCode) (w : Waits S) where
  deliver_packet_lem :
      (fuel type id : ℕ) (content left : List ℕ) (c : Client S)
      → type < 256
      → id < 2 ^ 32
      → deliver_packet eof w fuel (bytes_u8 type ++ (bytes_u32 id ++ content)) left c ≡ (
          complete_request eof fuel id type no_error content c.queue >>= λ r.
          done (no_error, record c { queue = r.1; buffer = left }))
  unfolding deliver_packet
  deliver_packet_lem fuel type id content left c ht hid =
      rw ((Reads-take_u8 type ht).at (bytes_u32 id ++ content), (Reads-take_u32 id hid).at content)
        refl

  -- A packet at the front of the buffer goes to the queue with its type, its id and its payload; behind
  -- it the buffer is as it was.
  pub take_packet-packet :
      (fuel type id : ℕ) (content rest : List ℕ) (q : Queue) (s : S)
      → type < 256
      → id < 2 ^ 32
      → length content + 9 < 2 ^ 32
      → take_packet eof w fuel
          (record { queue = q; buffer = packet type id content ++ rest; stream = s })
        ≡ (complete_request eof fuel id type no_error content q >>= λ r.
            done (no_error, record { queue = r.1; buffer = rest; stream = s }))
  unfolding take_packet
  take_packet-packet fuel type id content rest q s ht hid short =
      let p = packet type id content in
      let c : Client S = record { queue = q; buffer = p ++ rest; stream = s } in
      ap (λ n. deliver_packet eof w fuel (drop 4 (take n (p ++ rest))) (drop n (p ++ rest)) c)
        (add_u32-size_field type id content rest short)
      ∙ ap (λ f. deliver_packet eof w fuel (drop 4 f) (drop (length p) (p ++ rest)) c)
          (take-append p rest)
      ∙ ap (λ l. deliver_packet eof w fuel (drop 4 p) l c) (drop-append p rest)
      ∙ deliver_packet_lem fuel type id content rest c ht hid
