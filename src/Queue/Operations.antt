-- ===== src/Queue/Operations.antt =====
-- What `enqueue_response` and `complete` promise of a queue in good order.
use corosh.Base.{
  ℕ, ◌<◌, ◌≡◌, refl, ◌∙◌, sym, true, false, List, [], ◌∷◌, ◌++◌, none, some, ◌==◌, if◌then◌else◌,
  length, arith,
}
use corosh.Errors.{ErrorCode}
use corosh.Responses.{Response, complete}
use corosh.Queue.{Node, Queue, done, load, store, construct, enqueue_response, complete_request}
use corosh.Queue.Chains.{
  Fresh, Distinct, Absent, Chain-update, walk-Absent, walk_found, served, IsQueue, Chain-last,
  Fresh-last_of, Chain-extend, last_of-append,
}

Fresh-append : (b a : ℕ) (l : List ℕ) → Fresh b l → (b == a) ≡ false → Fresh b (l ++ a ∷ [])
Fresh-append b a [] f e = (e, tt)
Fresh-append b a (c ∷ l) f e = (f.0, Fresh-append b a l f.1 e)

Distinct-append : (a : ℕ) (l : List ℕ) → Fresh a l → Distinct l → Distinct (l ++ a ∷ [])
Distinct-append a [] f d = (tt, tt)
Distinct-append a (b ∷ l) f d = (Fresh-append b a l d.0 (ground arith), Distinct-append a l f.1 d.1)

pub load-some : (q : Queue) (a : ℕ) (n : Node) → q.cells a ≡ some n → load q a ≡ done n
load-some q a n e = rw (e, load)

-- A new response, at an address that the queue does not hold, comes to stand behind all others of a queue
-- in good order, which stays in good order; nothing faults.
pub enqueue_response-IsQueue :
    (q : Queue) (l : List ℕ) (a id : ℕ) (r : Response)
    → IsQueue q l
    → Fresh a l
    → (q' : Queue) × (enqueue_response a (construct a id r q) ≡ done q') × IsQueue q' (l ++ a ∷ [])
unfolding enqueue_response
enqueue_response-IsQueue q [] a id r h f = (
  record (construct a id r q) { first = some a; last = some a },
  rw (h.last, enqueue_response),
  record {
    chain = (
      refl,
      record { prev = none; next = none; request_id = id; response = r },
      ground arith,
      refl,
      refl,
    );
    last = refl;
    distinct = (tt, tt);
  },
)
enqueue_response-IsQueue q (b ∷ l) a id r h f =
    let (z, n, e, at, prev) = Chain-last q.cells q.first b l h.chain in
    let far : (a == z) ≡ false = ground (arith, Fresh-last_of a b l z f e) in
    let m : Node = record { prev = none; next = none; request_id = id; response = r } in
    (
      record (store (construct a id r q) z (record n { next = some a })) { last = some a },
      rw (h.last ∙ e, enqueue_response, load-some (construct a id r q) z n (rw far at)),
      record {
        chain =
            Chain-extend (construct a id r q).cells q.first b l z a n m
              (Chain-update q.cells a (some m) q.first (b ∷ l) f h.chain) h.distinct e (rw far at)
              prev (Fresh-last_of a b l z f e) (ground arith) refl refl;
        last = sym (last_of-append (b ∷ l) a);
        distinct = Distinct-append a (b ∷ l) f h.distinct;
      },
    )

module _ (eof : ErrorCode) where
  -- In a queue in good order, with more fuel than objects in front, a packet reaches the oldest
  -- response that waits for its request id: that response is completed with the packet, every
  -- other object keeps its memory, and the call tells so.
  pub complete_request_found :
      (q : Queue) (before behind : List ℕ) (a : ℕ) (n : Node) (fuel id type : ℕ) (ec : ErrorCode)
      (buf : List ℕ)
      → IsQueue q (before ++ a ∷ behind)
      → Absent q.cells id before
      → q.cells a ≡ some n
      → (n.request_id == id) ≡ true
      → length before < fuel
      → (q' : Queue) × (complete_request eof fuel id type ec buf q ≡ done (true, q'))
        × ((b : ℕ)
            → q'.cells b ≡ (
                if a == b
                then some (record n { response = complete eof ec type buf n.response })
                else q.cells b))
  unfolding complete_request
  complete_request_found q before behind a n fuel id type ec buf h absent at same enough = (
    served eof type ec buf a n q,
    walk_found eof fuel q.first before a behind n id type ec buf q enough h.chain absent at same,
    λ b. refl,
  )

  -- In a queue in good order, with more fuel than objects, a packet that no response waits for
  -- changes nothing, and the call tells so.
  pub complete_request-Absent :
      (q : Queue) (l : List ℕ) (fuel id type : ℕ) (ec : ErrorCode) (buf : List ℕ)
      → IsQueue q l
      → Absent q.cells id l
      → length l < fuel
      → complete_request eof fuel id type ec buf q ≡ done (false, q)
  unfolding complete_request
  complete_request-Absent q l fuel id type ec buf h absent enough =
      walk-Absent eof fuel q.first l id type ec buf q enough h.chain absent
