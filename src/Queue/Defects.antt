-- ===== src/Queue/Defects.antt =====
-- What `complete` leaves behind: it never takes the served object out of the list, since no operation
-- sets `prev` and `first` is not advanced.
use corosh.Base.{
  ℕ, suc, ◌<◌, ◌≡◌, refl, ◌∙◌, true, false, List, [], ◌∷◌, ◌++◌, none, some, ◌==◌, length, arith,
}
use corosh.Errors.{ErrorCode}
use corosh.Responses.{Response, complete}
use corosh.Queue.{
  Node, Queue, done, fault, ◌>>=◌, construct, destroy, enqueue_response, complete_request,
  cancel_all, walk, cancel_loop,
}
use corosh.Queue.Chains.{last_of-append, Chain, Absent, walk-Absent, walk_found, served, IsQueue}

module _ (eof : ErrorCode) where
  -- One operation at a time is served: in a queue with no `last` a new response is found by its request
  -- id and completed with the packet, and the queue has no `last` again.
  pub enqueue_then_complete :
      (q : Queue) (a id type : ℕ) (r : Response) (ec : ErrorCode) (buf : List ℕ)
      → q.last ≡ none
      → (q' : Queue) × ((enqueue_response a (construct a id r q)
            >>= complete_request eof 1 id type ec buf)
          ≡ done (true, q'))
        × (q'.last ≡ none)
        × (q'.cells a
            ≡ some (record {
              prev = none;
              next = none;
              request_id = id;
              response = complete eof ec type buf r;
            }))
  unfolding enqueue_response complete_request
  enqueue_then_complete q a id type r ec buf idle =
      let n : Node = record { prev = none; next = none; request_id = id; response = r } in
      let q1 = record (construct a id r q) { first = some a; last = some a } in
      (
        served eof type ec buf a n q1,
        rw (idle, enqueue_response)
            (walk_found eof 1 (some a) [] a [] n id type ec buf q1 (omega arith)
              (refl, n, ground arith, refl, refl) tt (ground arith) (ground arith)),
        ground arith,
        ground arith,
      )

  -- When in a queue in good order the newest response is answered, with more fuel than objects
  -- in front of it, and another request is made, the older responses are lost: the queue then
  -- holds the new response alone, and a packet with any other request id is dropped.
  pub complete_last_loses_others :
      (q : Queue) (older : List ℕ) (z a : ℕ) (n : Node) (fuel id new_id type : ℕ) (r : Response)
      (ec : ErrorCode) (buf : List ℕ) (other type' : ℕ) (ec' : ErrorCode) (buf' : List ℕ)
      → IsQueue q (older ++ z ∷ [])
      → Absent q.cells id older
      → q.cells z ≡ some n
      → (n.request_id == id) ≡ true
      → length older < fuel
      → (new_id == other) ≡ false
      → (q1 : Queue) × (q2 : Queue) × (complete_request eof fuel id type ec buf q ≡ done (true, q1))
        × (enqueue_response a (construct a new_id r q1) ≡ done q2)
        × Chain q2.cells q2.first (a ∷ [])
        × (complete_request eof 2 other type' ec' buf' q2 ≡ done (false, q2))
  unfolding complete_request enqueue_response
  complete_last_loses_others q older z a n fuel id new_id type r ec buf other type' ec' buf' h
        absent at same enough differ =
      let m : Node = record { prev = none; next = none; request_id = new_id; response = r } in
      let q1 = served eof type ec buf z n q in
      let q2 = record (construct a new_id r q1) { first = some a; last = some a } in
      let c : Chain q2.cells (some a) (a ∷ []) = (refl, m, ground arith, refl, refl) in
      let idle : q1.last ≡ none = rw (h.last ∙ last_of-append older z) (ground arith) in
      (
        q1,
        q2,
        walk_found eof fuel q.first older z [] n id type ec buf q enough h.chain absent at same,
        rw (idle, enqueue_response),
        c,
        walk-Absent eof 2 (some a) (a ∷ []) other type' ec' buf' q2 (omega arith) c
            ((λ k e. ground arith), tt),
      )

  pub walk_dangling :
      (fuel a id type : ℕ) (ec : ErrorCode) (buf : List ℕ) (q : Queue)
      → q.first ≡ some a
      → q.cells a ≡ none
      → walk eof (suc fuel) q.first id type ec buf q ≡ fault
  unfolding walk
  walk_dangling fuel a id type ec buf q first freed = rw (first, walk, freed)

  cancel_dangling :
      (fuel a : ℕ) (ec : ErrorCode) (q : Queue)
      → q.first ≡ some a
      → q.cells a ≡ none
      → cancel_all eof (suc fuel) ec q ≡ fault
  unfolding cancel_all cancel_loop
  cancel_dangling fuel a ec q first freed = ground arith

  -- When the oldest waiting response is answered and its operation returns, so that the object is
  -- destroyed, the next packet, whatever its request id, and the next `cancel_all` both touch the
  -- destroyed object, be it the only one or not.
  pub complete_first_dangles :
      (q : Queue) (a : ℕ) (l : List ℕ) (n : Node) (fuel id type : ℕ) (ec : ErrorCode) (buf : List ℕ)
      (other type' : ℕ) (ec' : ErrorCode) (buf' : List ℕ)
      → IsQueue q (a ∷ l)
      → q.cells a ≡ some n
      → (n.request_id == id) ≡ true
      → (q1 : Queue) × (complete_request eof (suc fuel) id type ec buf q ≡ done (true, q1))
        × (complete_request eof (suc fuel) other type' ec' buf' (destroy a q1) ≡ fault)
        × (cancel_all eof (suc fuel) ec' (destroy a q1) ≡ fault)
  unfolding complete_request
  complete_first_dangles q a l n fuel id type ec buf other type' ec' buf' h at same =
      let q1 = destroy a (served eof type ec buf a n q) in
      let first : q1.first ≡ some a = h.chain.0 in
      let freed : q1.cells a ≡ none = ground arith in
      (
        served eof type ec buf a n q,
        walk_found eof (suc fuel) q.first [] a l n id type ec buf q (omega arith) h.chain tt at
            same,
        walk_dangling fuel a other type' ec' buf' q1 first freed,
        cancel_dangling fuel a ec' q1 first freed,
      )
