-- ===== src/Exchange/Answers.antt =====
-- A whole operation: the request, the reply that arrives, and what the caller gets.
use corosh.Base.{
  ℕ, suc, ◌+◌, ◌^◌, ◌<◌, ◌≡◌, refl, ap, ◌∙◌, true, false, List, [], ◌++◌, some, none, length, arith,
  Bool-cases, inl, inr,
}
use corosh.Errors.{ErrorCode, no_error, failed}
use corosh.Requests.{Request, to_write}
use corosh.Requests.Packets.{packet}
use corosh.Responses.{
  Response, status, handle, dir_entry, data_read, attrs, name, complete, completed, complete_status,
  complete_handle, complete_dir_entry, complete_data, complete_attrs, complete_name,
}
use corosh.Queue.{
  Node, Queue, done, ◌>>=◌, construct, destroy, get_request_id, enqueue_response, complete_request,
}
use corosh.Queue.Chains.{walk_found, served}
use corosh.Queue.Operations.{load-some}
use corosh.Exchange.{
  Client, Waits, answered, read_one, read_if_waiting, wait_reply, operation, exchange,
}
use corosh.Exchange.Rounds.{take_packet-packet}

complete_lem :
    (eof ec : ErrorCode) (type : ℕ) (payload : List ℕ) (r : Response)
    → completed (complete eof ec type payload r) ≡ true
unfolding complete
complete_lem eof ec type payload (status r) = unfold complete_status in refl
complete_lem eof ec type payload (handle r) = unfold complete_handle in ground arith
complete_lem eof ec type payload (dir_entry r) = unfold complete_dir_entry in ground arith
complete_lem eof ec type payload (data_read r) = unfold complete_data in ground arith
complete_lem eof ec type payload (attrs r) = unfold complete_attrs in ground arith
complete_lem eof ec type payload (name r) = unfold complete_name in ground arith

-- No other coroutine runs, and nothing fails: what is written reaches the other side, and `replies` is
-- what then arrives from it.
pub record Connected {S : Type 0} (w : Waits S) (sent : List ℕ → S → S) (replies : S → List ℕ)
    : Type 0 where
  pub lock_write : (c : Client S) → w.lock_write c ≡ (no_error, c)
  pub lock_read : (c : Client S) → w.lock_read c ≡ (no_error, c)
  pub write :
      (bytes : List ℕ) (c : Client S)
      → w.write bytes c ≡ (no_error, record c { stream = sent bytes c.stream })
  pub read_until :
      (c : Client S)
      → w.read_until c ≡ (no_error, record c { buffer = c.buffer ++ replies c.stream })

module _ {S : Type 0} (eof : ErrorCode) (w : Waits S) where
  wait_done :
      (rounds fuel a : ℕ) (ec : ErrorCode) (c : Client S) (n : Node)
      → c.queue.cells a ≡ some n
      → completed n.response ≡ true
      → wait_reply eof w (suc rounds) fuel a ec c ≡ done (answered n.response, c)
  unfolding wait_reply
  wait_done rounds fuel a ec c n at over = elim (Bool-cases (failed ec)) [
    | inl e ↦ rw (at, wait_reply, e)
    | inr e ↦ rw (at, wait_reply, e, over)
  ]

  read_if_waiting_lem :
      (fuel a : ℕ) (ec : ErrorCode) (c : Client S) (n : Node)
      → c.queue.cells a ≡ some n
      → completed n.response ≡ false
      → read_if_waiting eof w fuel a ec c ≡ read_one eof w fuel c
  unfolding read_if_waiting
  read_if_waiting_lem fuel a ec c n at waits =
      rw (load-some c.queue a n at, read_if_waiting, ◌>>=◌, waits) refl

  pub wait_failed :
      (rounds fuel a : ℕ) (ec : ErrorCode) (c : Client S) (n : Node)
      → c.queue.cells a ≡ some n
      → failed ec ≡ true
      → wait_reply eof w (suc rounds) fuel a ec c ≡ done (answered n.response, c)
  unfolding wait_reply
  wait_failed rounds fuel a ec c n at bad = rw (at, wait_reply, bad)

  pub wait_round :
      (rounds fuel a : ℕ) (ec : ErrorCode) (c d : Client S) (n : Node)
      → c.queue.cells a ≡ some n
      → completed n.response ≡ false
      → w.lock_read c ≡ (no_error, c)
      → read_one eof w fuel c ≡ done (ec, d)
      → wait_reply eof w (suc rounds) fuel a no_error c ≡ wait_reply eof w rounds fuel a ec d
  unfolding wait_reply
  wait_round rounds fuel a ec c d n at waits locked reads =
      rw (at, wait_reply, waits, locked)
        (ap
            (λ p.
              read_if_waiting eof w fuel a p.0 p.1 >>= λ r. wait_reply eof w rounds fuel a r.0 r.1)
            locked
          ∙ ap (λ r. r >>= λ r. wait_reply eof w rounds fuel a r.0 r.1)
              (read_if_waiting_lem fuel a no_error c n at waits ∙ reads))

  -- The packet that has arrived completes the response of the only operation.
  read_one_lem :
      (fuel a type : ℕ) (content rest : List ℕ) (q : Queue) (s : S) (n : Node)
      (sent : List ℕ → S → S) (replies : S → List ℕ)
      → Connected w sent replies
      → q.first ≡ some a
      → q.cells a ≡ some n
      → n.prev ≡ none
      → n.next ≡ none
      → replies s ≡ packet type n.request_id content ++ rest
      → type < 256
      → n.request_id < 2 ^ 32
      → length content + 9 < 2 ^ 32
      → read_one eof w (suc fuel) (record { queue = q; buffer = []; stream = s })
        ≡ done (
          no_error,
          record { queue = served eof type no_error content a n q; buffer = rest; stream = s },
        )
  unfolding read_one complete_request
  read_one_lem fuel a type content rest q s n sent replies con first at prev next arrives ht hid
        short =
      rw (con.read_until (record { queue = q; buffer = []; stream = s }), arrives)
        (take_packet-packet eof w (suc fuel) type n.request_id content rest q s ht hid short
          ∙ rw
              (walk_found eof (suc fuel) q.first [] a [] n n.request_id type no_error content q
                (omega arith) (first, n, at, prev, next) tt at (ground arith))
              refl)

  -- `operation-answered` before the frame ends, when the response object is still there.
  pub exchange-answered :
      (sent : List ℕ → S → S) (replies : S → List ℕ) (rounds fuel a : ℕ) (request : Request)
      (response : Response) (small : List ℕ) (q : Queue) (s : S) (type : ℕ) (content rest : List ℕ)
      → Connected w sent replies
      → q.last ≡ none
      → completed response ≡ false
      → replies (sent (to_write request q.request_id_gen small) s)
        ≡ packet type q.request_id_gen content ++ rest
      → type < 256
      → q.request_id_gen < 2 ^ 32
      → length content + 9 < 2 ^ 32
      → (c : Client S) × (exchange eof w
            (suc (suc rounds))
            (suc fuel)
            a
            request
            response
            small
            (record { queue = q; buffer = []; stream = s })
          ≡ done (answered (complete eof no_error type content response), c))
        × (c.buffer ≡ rest)
        × (c.queue.last ≡ none)
        × (c.queue.cells a
            ≡ some (record {
              prev = none;
              next = none;
              request_id = q.request_id_gen;
              response = complete eof no_error type content response;
            }))
  unfolding exchange enqueue_response get_request_id
  exchange-answered sent replies rounds fuel a request response small q s type content rest con idle
        waits arrives ht hid short =
      let id = q.request_id_gen in
      let n : Node = record { prev = none; next = none; request_id = id; response = response } in
      let q1 = record (construct a id response (get_request_id q).1) {
        first = some a;
        last = some a;
      } in
      let t = sent (to_write request id small) s in
      let c1 : Client S = record { queue = q1; buffer = []; stream = t } in
      let q2 = served eof type no_error content a n q1 in
      let c2 : Client S = record { queue = q2; buffer = rest; stream = t } in
      let m = record n { response = complete eof no_error type content response } in
      let reads =
        read_one_lem fuel a type content rest q1 t n sent replies con refl (ground arith) refl refl
          arrives ht hid short in
      let loop : wait_reply eof w (suc (suc rounds)) (suc fuel) a no_error c1
          ≡ done (answered m.response, c2) =
        wait_round (suc rounds) (suc fuel) a no_error c1 c2 n (ground arith) waits
          (con.lock_read c1) reads
        ∙ wait_done rounds (suc fuel) a no_error c2 m (ground arith)
            (complete_lem eof no_error type content response) in
      (
        c2,
        rw (idle, enqueue_response, con.lock_write (record { queue = q1; buffer = []; stream = s }))
            (rw
              (con.write (to_write request id small)
                (record { queue = q1; buffer = []; stream = s }))
              (rw loop refl)),
        refl,
        ground arith,
        ground arith,
      )

  -- An operation alone on a connection, with nothing buffered and a queue without `last`: if the
  -- packet that arrives first bears the request id of the operation, and its fields fit the
  -- protocol, the response is completed with that packet and is what the operation ends with, in
  -- two rounds of its loop; the client is left with what has arrived behind the packet, and with
  -- a queue without `last`.
  pub operation-answered :
      (sent : List ℕ → S → S) (replies : S → List ℕ) (rounds fuel a : ℕ) (request : Request)
      (response : Response) (small : List ℕ) (q : Queue) (s : S) (type : ℕ) (content rest : List ℕ)
      → Connected w sent replies
      → q.last ≡ none
      → completed response ≡ false
      → replies (sent (to_write request q.request_id_gen small) s)
        ≡ packet type q.request_id_gen content ++ rest
      → type < 256
      → q.request_id_gen < 2 ^ 32
      → length content + 9 < 2 ^ 32
      → (c : Client S) × (operation eof w
            (suc (suc rounds))
            (suc fuel)
            a
            request
            response
            small
            (record { queue = q; buffer = []; stream = s })
          ≡ done (answered (complete eof no_error type content response), c))
        × (c.buffer ≡ rest)
        × (c.queue.last ≡ none)
  unfolding operation
  operation-answered sent replies rounds fuel a request response small q s type content rest con
        idle waits arrives ht hid short =
      let (c, runs, left, no_last, cell) =
        exchange-answered sent replies rounds fuel a request response small q s type content rest
          con idle waits arrives ht hid short in
      (record c { queue = destroy a c.queue }, rw runs refl, left, no_last)
