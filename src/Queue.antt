-- ===== src/Queue.antt =====
-- `detail::response_queue` of include/corosh/sftp.hpp: an intrusive list of response objects, which
-- live in the frames of the waiting operations. An object has an address; `cells` is the memory, where
-- `none` is an object that has been destroyed. To touch that is a `fault`.
pub mod Chains
pub mod Operations
pub mod Cancel
pub mod Defects
pub mod Moves
use corosh.Base.{
  ℕ, zero, suc, ◌+◌, ◌%◌, ◌^◌, Bool, true, false, List, [], Option, none, some, ◌==◌, if◌then◌else◌,
}
use corosh.Errors.{ErrorCode, Category}
use corosh.Responses.{Response, complete}

-- `detail::response` with what its class adds.
pub record Node : Type 0 where
  pub prev : Option ℕ
  pub next : Option ℕ
  pub request_id : ℕ
  pub response : Response

pub record Queue : Type 0 where
  pub first : Option ℕ
  pub last : Option ℕ
  pub request_id_gen : ℕ
  pub cells : ℕ → Option Node

-- `stuck` is no result of the code: a walk along the list ran out of fuel.
pub data Run {ℓ} (A : Type ℓ) : Type ℓ where
  done : A → Run A
  fault : Run A
  stuck : Run A

infixl 5 ◌>>=◌
abbrev pub ◌>>=◌ {ℓ κ} : {A : Type ℓ} {B : Type κ} → Run A → (A → Run B) → Run B
done a >>= f = f a
fault >>= f = fault
stuck >>= f = stuck

abbrev pub update : (ℕ → Option Node) → ℕ → Option Node → ℕ → Option Node
update cells a v b = if a == b then v else cells b

-- Reading and writing the object at an address.
abbrev pub load : Queue → ℕ → Run Node
load q a = elim (q.cells a) [ none ↦ fault | some n ↦ done n ]

abbrev pub store : Queue → ℕ → Node → Queue
store q a n = record q { cells = update q.cells a (some n) }

-- A response that starts its life in the frame of an operation, and the end of that frame.
abbrev pub construct : ℕ → ℕ → Response → Queue → Queue
construct a id r q = store q a (record { prev = none; next = none; request_id = id; response = r })

abbrev pub destroy : ℕ → Queue → Queue
destroy a q = record q { cells = update q.cells a none }

-- The generator is a `uint32_t`, which wraps.
unfoldable pub get_request_id : Queue → ℕ × Queue
get_request_id q = (q.request_id_gen, record q { request_id_gen = (q.request_id_gen + 1) % 2 ^ 32 })

unfoldable pub enqueue_response : ℕ → Queue → Run Queue
enqueue_response a q = elim q.last [
  | none ↦ done (record q { first = some a; last = some a })
  | some l ↦ do
    n ← load q l
    done (record (store q l (record n { next = some a })) { last = some a })
]

-- `it == last`
abbrev pub is_last : ℕ → Option ℕ → Bool
is_last a none = false
is_last a (some l) = a == l

-- What `complete` does to the links when it has found its response.
unlink : ℕ → Node → Queue → Run Queue
unlink a n q = elim n.prev [
  | some p ↦ do before ← load q p; done (store q p (record before { next = n.next }))
  | none ↦ done (record q { last = if is_last a q.last then none else q.last })
]

module _ (eof : ErrorCode) where
  -- `it->complete(ec, type, buf)`
  abbrev pub deliver : ErrorCode → ℕ → List ℕ → ℕ → Queue → Run Queue
  deliver ec type buf a q = do
    n ← load q a
    done (store q a (record n { response = complete eof ec type buf n.response }))

  -- `for (auto it = first; it != nullptr; it = it->next)`
  pub walk : ℕ → Option ℕ → ℕ → ℕ → ErrorCode → List ℕ → Queue → Run (Bool × Queue)
  unfolding unlink
  walk zero it request_id type ec buf q = stuck
  walk (suc fuel) none request_id type ec buf q = done (false, q)
  walk (suc fuel) (some a) request_id type ec buf q = elim (q.cells a) [
    | none ↦ fault
    | some n ↦ elim (n.request_id == request_id) [
      | true ↦ do
        unlinked ← unlink a n q
        delivered ← deliver ec type buf a unlinked
        done (true, delivered)
      | false ↦ walk fuel n.next request_id type ec buf q
    ]
  ]

  unfoldable pub complete_request : ℕ → ℕ → ℕ → ErrorCode → List ℕ → Queue → Run (Bool × Queue)
  unfolding walk
  complete_request fuel request_id type ec buf q = walk fuel q.first request_id type ec buf q

  -- `while (first != nullptr)`
  pub cancel_loop : ℕ → ErrorCode → Queue → Run Queue
  cancel_loop zero ec q = stuck
  cancel_loop (suc fuel) ec q = elim q.first [
    | none ↦ done q
    | some a ↦ elim (q.cells a) [
      | none ↦ fault
      | some n ↦ cancel_loop fuel ec (
          store (record q { first = n.next }) a
            (record n { response = complete eof ec 0 [] n.response }))
    ]
  ]

  unfoldable pub cancel_all : ℕ → ErrorCode → Queue → Run Queue
  unfolding cancel_loop
  cancel_all fuel ec q = do q' ← cancel_loop fuel ec q; done (record q' { last = none })

  -- `std::errc::broken_pipe`
  abbrev pub broken : ErrorCode
  broken = record { value = 32; category = Category.generic }

  -- The destructor.
  unfoldable pub destroy_queue : ℕ → Queue → Run Queue
  unfolding cancel_all
  destroy_queue fuel q = cancel_all fuel broken q

  -- The move assignment, from another queue over the same memory: the two queues behind it.
  unfoldable pub move_assign : ℕ → Queue → Queue → Run (Queue × Queue)
  unfolding cancel_all
  move_assign fuel q rhs = do
    emptied ← cancel_all fuel broken q
    done (
      record emptied { first = rhs.first; request_id_gen = rhs.request_id_gen },
      record rhs { first = none; cells = emptied.cells },
    )

-- The move constructor: the new queue, and the one that it is made from.
unfoldable pub move_construct : Queue → Queue × Queue
move_construct rhs = (
  record { first = rhs.first; last = none; request_id_gen = rhs.request_id_gen; cells = rhs.cells },
  record rhs { first = none },
)
