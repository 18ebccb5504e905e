-- ===== src/Queue/Moves.antt =====
-- What moving a queue does to the responses that wait in it: `last` is not moved.
use corosh.Base.{ℕ, ◌≡◌, refl, false, List, [], ◌∷◌, none, some, ◌==◌, arith}
use corosh.Errors.{ErrorCode}
use corosh.Responses.{Response}
use corosh.Queue.{Node, Queue, done, construct, enqueue_response, complete_request, move_construct}
use corosh.Queue.Chains.{Chain, walk-Absent, IsQueue}

module _ (eof : ErrorCode) where
  -- A queue with no `last` that waits for responses: the next one takes their place.
  next_loses_others :
      (q : Queue) (a id other type : ℕ) (r : Response) (ec : ErrorCode) (buf : List ℕ)
      → q.last ≡ none
      → (id == other) ≡ false
      → (q2 : Queue) × (enqueue_response a (construct a id r q) ≡ done q2)
        × Chain q2.cells q2.first (a ∷ [])
        × (complete_request eof 2 other type ec buf q2 ≡ done (false, q2))
  unfolding complete_request enqueue_response
  next_loses_others q a id other type r ec buf idle differ =
      let m : Node = record { prev = none; next = none; request_id = id; response = r } in
      let q2 = record (construct a id r q) { first = some a; last = some a } in
      let c : Chain q2.cells (some a) (a ∷ []) = (refl, m, ground arith, refl, refl) in
      (
        q2,
        rw (idle, enqueue_response),
        c,
        walk-Absent eof 2 (some a) (a ∷ []) other type ec buf q2 (omega arith) c
            ((λ k e. ground arith), tt),
      )

  -- The queue that is made by a move holds the waiting responses, and the old one none; but the first
  -- response that is enqueued after that takes their place, and a packet with any other request id is
  -- dropped.
  pub move_construct_loses_others :
      (q : Queue) (l : List ℕ) (a id other type : ℕ) (r : Response) (ec : ErrorCode) (buf : List ℕ)
      → IsQueue q l
      → (id == other) ≡ false
      → Chain (move_construct q).0.cells (move_construct q).0.first l
        × ((move_construct q).1.first ≡ none)
        × (q2 : Queue) × (enqueue_response a (construct a id r (move_construct q).0) ≡ done q2)
        × Chain q2.cells q2.first (a ∷ [])
        × (complete_request eof 2 other type ec buf q2 ≡ done (false, q2))
  unfolding move_construct
  move_construct_loses_others q l a id other type r ec buf is differ =
      let n = next_loses_others (move_construct q).0 a id other type r ec buf refl differ in
      (is.chain, refl, n.0, n.1, n.2, n.3)
