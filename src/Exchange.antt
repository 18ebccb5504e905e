-- ===== src/Exchange.antt =====
-- What an operation of the SFTP client does around its request, and `session::read_one_`: src/sftp.cpp.
-- While a coroutine waits for a mutex or the stream, others run and may change the queue and the buffer, so
-- each wait is a function on the whole client. The two mutexes are named as their use demands:
-- `read_mutex_` is held to write the request, `write_mutex_` to read a reply.
pub mod Rounds
pub mod Answers
pub mod Served
pub mod Defects
use corosh.Base.{
  ℕ, zero, suc, ◌+◌, Bool, true, false, not, ◌||◌, List, [], ◌∷◌, none, some, if◌then◌else◌, take,
  drop,
}
use corosh.Errors.{ErrorCode, no_error, failed}
use corosh.Wire.{size_field, add_u32, reader, take_u8, take_u32}
use corosh.Requests.{Request, to_write}
use corosh.Responses.{Response, completed}
use corosh.Queue.{
  Queue, Run, done, fault, stuck, ◌>>=◌, load, construct, destroy, get_request_id, enqueue_response,
  complete_request, cancel_all,
}

-- The members of `session`; `stream` is the state behind `stream_`, and of all else.
pub record Client (S : Type 0) : Type 0 where
  pub queue : Queue
  pub buffer : List ℕ
  pub stream : S

-- `read_mutex_.lock()`, `boost::capy::write`, `write_mutex_.lock()` and `boost::capy::read_until` with
-- `match_packet` on `buffer_`.
pub record Waits (S : Type 0) : Type 0 where
  pub lock_write : Client S → ErrorCode × Client S
  pub write : List ℕ → Client S → ErrorCode × Client S
  pub lock_read : Client S → ErrorCode × Client S
  pub read_until : Client S → ErrorCode × Client S

-- How an operation ends up to its last `co_return`: with a `co_return ec` before that, or with its response object. What
-- is returned of that object is made in Operations; where only its code is, that is `code_returned`.
pub data Result : Type 0 where
  early : ErrorCode → Result
  answered : Response → Result

module _ {S : Type 0} (eof : ErrorCode) (w : Waits S) where
  -- The part of `read_one_` behind `read_until`: `frame` is the packet without its length field, `left`
  -- what `buf.consume` leaves.
  unfoldable pub deliver_packet : ℕ → List ℕ → List ℕ → Client S → Run (ErrorCode × Client S)
  deliver_packet fuel frame left c =
      let (tp, r) = take_u8 (reader frame no_error) in
      let (request_id, payload) = take_u32 r in
      if failed payload.ec then done (payload.ec, c) else do
        r ← complete_request eof fuel request_id tp payload.ec payload.buf c.queue
        done (payload.ec, record c { queue = r.1; buffer = left })

  unfoldable pub take_packet : ℕ → Client S → Run (ErrorCode × Client S)
  unfolding deliver_packet
  take_packet fuel c =
      let n = add_u32 (size_field c.buffer) 4 in
      deliver_packet fuel (drop 4 (take n c.buffer)) (drop n c.buffer) c

  unfoldable pub read_one : ℕ → Client S → Run (ErrorCode × Client S)
  unfolding take_packet
  read_one fuel c =
      let (ec, c') = w.read_until c in
      if failed ec
      then (do q ← cancel_all eof fuel ec c'.queue; done (ec, record c' { queue = q }))
      else take_packet fuel c'

  -- `if (!response.completed) ec = (co_await read_one_()).ec;`
  unfoldable pub read_if_waiting : ℕ → ℕ → ErrorCode → Client S → Run (ErrorCode × Client S)
  unfolding read_one
  read_if_waiting fuel a ec c = do
    n ← load c.queue a
    if completed n.response then done (ec, c) else read_one fuel c

  -- `while (!ec && !response.completed)`, and the return behind it.
  pub wait_reply : ℕ → ℕ → ℕ → ErrorCode → Client S → Run (Result × Client S)
  unfolding read_if_waiting
  wait_reply zero fuel a ec c = stuck
  wait_reply (suc rounds) fuel a ec c = elim (c.queue.cells a) [
    | none ↦ fault
    | some n ↦ elim (failed ec || completed n.response) [
      | true ↦ done (answered n.response, c)
      | false ↦ elim (failed (w.lock_read c).0) [
        | true ↦ done (early (w.lock_read c).0, (w.lock_read c).1)
        | false ↦ do
          r ← read_if_waiting fuel a (w.lock_read c).0 (w.lock_read c).1
          wait_reply rounds fuel a r.0 r.1
      ]
    ]
  ]

  -- The frame of the operation ends, and with it the response object.
  abbrev pub leave : ℕ → Result × Client S → Result × Client S
  leave a (result, c) = (result, record c { queue = destroy a c.queue })

  -- An operation up to its return, with its response object at the address `a`.
  unfoldable pub exchange :
      ℕ → ℕ → ℕ → Request → Response → List ℕ → Client S → Run (Result × Client S)
  unfolding wait_reply
  exchange rounds fuel a request response small c =
      let (id, q) = get_request_id c.queue in
      do
        enqueued ← enqueue_response a (construct a id response q)
        let (ec, locked) = w.lock_write (record c { queue = enqueued }) in
            if failed ec
            then done (early ec, locked)
            else (let (ec', written) = w.write (to_write request id small) locked in
                if failed ec'
                then done (early ec', written)
                else wait_reply rounds fuel a ec' written)

  -- An operation up to its last `co_return`, whose frame then ends.
  unfoldable pub operation :
      ℕ → ℕ → ℕ → Request → Response → List ℕ → Client S → Run (Result × Client S)
  unfolding exchange
  operation rounds fuel a request response small c = do
    r ← exchange rounds fuel a request response small c
    done (leave a r)
