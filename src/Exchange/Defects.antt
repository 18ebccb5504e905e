-- ===== src/Exchange/Defects.antt =====
-- Two ways in which an operation ends without an answer.
use corosh.Base.{
  ℕ, zero, suc, ◌≤◌, ◌<◌, ◌≡◌, refl, ◌∙◌, true, false, List, [], ◌∷◌, ◌++◌, some, none, length,
  take, drop, arith,
}
use corosh.Errors.{ErrorCode, no_error, failed, bad_message}
use corosh.Wire.{size_field, bytes_u32, reader, take_u8, take_u32, add_u32}
use corosh.Wire.Reads.{be32-bytes}
use corosh.Requests.{Request, to_write}
use corosh.Responses.{Response, completed}
use corosh.Queue.{
  Node, Queue, done, fault, construct, destroy, get_request_id, enqueue_response, complete_request,
}
use corosh.Queue.Defects.{walk_dangling}
use corosh.Exchange.{
  Client, Waits, early, answered, read_one, wait_reply, operation, exchange, exchange, take_packet,
  deliver_packet,
}
use corosh.Exchange.Answers.{Connected, wait_round, wait_failed}

short_header :
    (frame : List ℕ)
    → length frame < 5
    → (take_u32 (take_u8 (reader frame no_error)).1).1.ec ≡ bad_message
unfolding take_u8 take_u32
short_header [] h = refl
short_header (a ∷ []) h = refl
short_header (a ∷ b ∷ []) h = refl
short_header (a ∷ b ∷ c ∷ []) h = refl
short_header (a ∷ b ∷ c ∷ d ∷ []) h = refl
short_header (a ∷ b ∷ c ∷ d ∷ e ∷ rest) h = absurd (omega arith)

length-take_le : (n : ℕ) (xs : List ℕ) → length (take n xs) ≤ n
length-take_le zero xs = omega arith
length-take_le (suc n) [] = omega arith
length-take_le (suc n) (x ∷ xs) = omega (arith, length-take_le n xs)

length-drop_four : (xs : List ℕ) → length xs < 9 → length (drop 4 xs) < 5
length-drop_four [] h = omega arith
length-drop_four (a ∷ []) h = omega arith
length-drop_four (a ∷ b ∷ []) h = omega arith
length-drop_four (a ∷ b ∷ c ∷ []) h = omega arith
length-drop_four (a ∷ b ∷ c ∷ d ∷ rest) h = omega arith

short_frame :
    (k : ℕ) (buffer : List ℕ)
    → k < 9
    → (take_u32 (take_u8 (reader (drop 4 (take k buffer)) no_error)).1).1.ec ≡ bad_message
short_frame k buffer h =
    let taken : length (take k buffer) < 9 = omega (arith, length-take_le k buffer) in
    short_header (drop 4 (take k buffer)) (length-drop_four (take k buffer) taken)

module _ {S : Type 0} (eof : ErrorCode) (w : Waits S) where
  take_packet_short :
      (fuel n : ℕ) (rest : List ℕ) (q : Queue) (s : S)
      → n < 5
      → take_packet eof w fuel (record { queue = q; buffer = bytes_u32 n ++ rest; stream = s })
        ≡ done (bad_message, record { queue = q; buffer = bytes_u32 n ++ rest; stream = s })
  unfolding take_packet deliver_packet
  take_packet_short fuel n rest q s short =
      rw
        (short_frame (add_u32 (size_field (bytes_u32 n ++ rest)) 4) (bytes_u32 n ++ rest)
          (omega (arith, be32-bytes n)))
        refl

  -- An operation alone on a connection, with nothing buffered and a queue without `last`: if the
  -- packet that arrives is too short for a type and a request id, the operation ends with its
  -- response as it was made, not completed and with its code unset, and the packet stays in the
  -- buffer for the next operation.
  pub operation_short_packet :
      (sent : List ℕ → S → S) (replies : S → List ℕ) (rounds fuel a : ℕ) (request : Request)
      (response : Response) (small : List ℕ) (q : Queue) (s : S) (n : ℕ) (rest : List ℕ)
      → Connected w sent replies
      → q.last ≡ none
      → completed response ≡ false
      → replies (sent (to_write request q.request_id_gen small) s) ≡ bytes_u32 n ++ rest
      → n < 5
      → (c : Client S) × (operation eof w
            (suc (suc rounds))
            fuel
            a
            request
            response
            small
            (record { queue = q; buffer = []; stream = s })
          ≡ done (answered response, c))
        × (c.buffer ≡ bytes_u32 n ++ rest)
  unfolding operation exchange enqueue_response get_request_id read_one
  operation_short_packet sent replies rounds fuel a request response small q s n rest con idle waits
        arrives short =
      let id = q.request_id_gen in
      let node : Node = record { prev = none; next = none; request_id = id; response = response } in
      let q1 = record (construct a id response (get_request_id q).1) {
        first = some a;
        last = some a;
      } in
      let t = sent (to_write request id small) s in
      let c1 : Client S = record { queue = q1; buffer = []; stream = t } in
      let c2 : Client S = record { queue = q1; buffer = bytes_u32 n ++ rest; stream = t } in
      let reads : read_one eof w fuel c1 ≡ done (bad_message, c2) =
        rw (con.read_until c1, arrives) (take_packet_short fuel n rest q1 t short) in
      let loop : wait_reply eof w (suc (suc rounds)) fuel a no_error c1
          ≡ done (answered response, c2) =
        wait_round eof w (suc rounds) fuel a bad_message c1 c2 node (ground arith) waits
          (con.lock_read c1) reads
        ∙ wait_failed eof w rounds fuel a bad_message c2 node (ground arith) refl in
      (
        record c2 { queue = destroy a q1 },
        rw (idle, enqueue_response, con.lock_write (record { queue = q1; buffer = []; stream = s }))
            (rw
              (con.write (to_write request id small)
                (record { queue = q1; buffer = []; stream = s }))
              (rw loop refl)),
        refl,
      )

  -- If the request of an operation cannot be written, while nothing else waits or runs, the
  -- operation returns the code of the stream, but its response object, which is gone then, stays
  -- in the queue: the next packet, whatever its request id, touches it.
  pub operation-failed_write :
      (rounds fuel a : ℕ) (request : Request) (response : Response) (small : List ℕ) (q : Queue)
      (s s' : S) (ec : ErrorCode) (id' type : ℕ) (ec' : ErrorCode) (buf : List ℕ)
      → q.last ≡ none
      → ((c : Client S) → w.lock_write c ≡ (no_error, c))
      → ((bytes : List ℕ) (c : Client S) → w.write bytes c ≡ (ec, record c { stream = s' }))
      → failed ec ≡ true
      → (c : Client S) × (operation eof w rounds fuel a request response small
            (record { queue = q; buffer = []; stream = s })
          ≡ done (early ec, c))
        × (complete_request eof (suc fuel) id' type ec' buf c.queue ≡ fault)
  unfolding operation exchange enqueue_response get_request_id complete_request
  operation-failed_write rounds fuel a request response small q s s' ec id' type ec' buf idle locks
        fails bad =
      let id = q.request_id_gen in
      let q1 = record (construct a id response (get_request_id q).1) {
        first = some a;
        last = some a;
      } in
      let c0 : Client S = record { queue = q1; buffer = []; stream = s } in
      (
        record c0 { queue = destroy a q1; stream = s' },
        rw (idle, enqueue_response, locks c0) (rw (fails (to_write request id small) c0, bad) refl),
        walk_dangling eof fuel a id' type ec' buf (destroy a q1) refl (ground arith),
      )
