-- ===== src/Queue/Chains.antt =====
-- The objects that the links of a queue pass, in order, and what the operations do to them.
use corosh.Base.{
  ℕ, zero, suc, ◌<◌, ◌≡◌, refl, true, false, List, [], ◌∷◌, ◌++◌, Option, none, some, ◌==◌,
  if◌then◌else◌, length, arith,
}
use corosh.Errors.{ErrorCode}
use corosh.Responses.{complete}
use corosh.Queue.{Node, Queue, done, update, store, is_last, unlink, walk}

-- From `it` on the links pass just the objects at the addresses of the list, and none has a `prev`.
abbrev pub Chain : (ℕ → Option Node) → Option ℕ → List ℕ → Type 0
Chain cells it [] = it ≡ none
Chain cells it (a ∷ l) =
    (it ≡ some a) × (n : Node) × (cells a ≡ some n) × (n.prev ≡ none) × Chain cells n.next l

abbrev pub Fresh : ℕ → List ℕ → Type 0
Fresh a [] = Unit {0}
Fresh a (b ∷ l) = ((a == b) ≡ false) × Fresh a l

abbrev pub Distinct : List ℕ → Type 0
Distinct [] = Unit {0}
Distinct (a ∷ l) = Fresh a l × Distinct l

-- No object of the list waits for the request.
abbrev pub Absent : (ℕ → Option Node) → ℕ → List ℕ → Type 0
Absent cells id [] = Unit {0}
Absent cells id (a ∷ l) =
    ((n : Node) → cells a ≡ some n → (n.request_id == id) ≡ false) × Absent cells id l

pub Chain-update :
    (cells : ℕ → Option Node) (a : ℕ) (v : Option Node) (it : Option ℕ) (l : List ℕ)
    → Fresh a l
    → Chain cells it l
    → Chain (update cells a v) it l
Chain-update cells a v it [] f c = c
Chain-update cells a v it (b ∷ l) f c =
    (c.0, c.1, rw f.0 c.2, c.3, Chain-update cells a v c.1.next l f.1 c.4)

unlink_first :
    (a : ℕ) (n : Node) (q : Queue)
    → n.prev ≡ none
    → unlink a n q ≡ done (record q { last = if is_last a q.last then none else q.last })
unfolding unlink
unlink_first a n q h = rw (h, unlink)

module _ (eof : ErrorCode) where
  -- A request that no response of the queue waits for is dropped: nothing changes.
  pub walk-Absent :
      (fuel : ℕ) (it : Option ℕ) (l : List ℕ) (id type : ℕ) (ec : ErrorCode) (buf : List ℕ)
      (q : Queue)
      → length l < fuel
      → Chain q.cells it l
      → Absent q.cells id l
      → walk eof fuel it id type ec buf q ≡ done (false, q)
  unfolding walk
  walk-Absent zero it l id type ec buf q h c absent = absurd (omega arith)
  walk-Absent (suc fuel) it [] id type ec buf q h c absent = rw c
  walk-Absent (suc fuel) it (a ∷ l) id type ec buf q h c absent =
      rw (c.0, walk, c.2, absent.0 c.1 c.2)
        (walk-Absent fuel c.1.next l id type ec buf q (omega arith) c.4 absent.1)

  -- The queue when the object at `a` has been served: its response is completed. Of the links only
  -- `last` changes, and only if `a` was the last: `first` and the `next` in front still lead to `a`.
  abbrev pub served : ℕ → ErrorCode → List ℕ → ℕ → Node → Queue → Queue
  served type ec buf a n q =
      store (record q { last = if is_last a q.last then none else q.last }) a
        (record n { response = complete eof ec type buf n.response })

  -- The first object of the list that waits for the request is served, whatever stands behind it.
  pub walk_found :
      (fuel : ℕ) (it : Option ℕ) (before : List ℕ) (a : ℕ) (behind : List ℕ) (n : Node)
      (id type : ℕ) (ec : ErrorCode) (buf : List ℕ) (q : Queue)
      → length before < fuel
      → Chain q.cells it (before ++ a ∷ behind)
      → Absent q.cells id before
      → q.cells a ≡ some n
      → (n.request_id == id) ≡ true
      → walk eof fuel it id type ec buf q ≡ done (true, served type ec buf a n q)
  unfolding walk
  walk_found zero it before a behind n id type ec buf q h c absent at same = absurd (omega arith)
  walk_found (suc fuel) it [] a behind n id type ec buf q h c absent at same =
      rw (c.0, walk, at, same, unlink_first a n q n_prev, at)
    where
      n_prev : n.prev ≡ none
      n_prev = cc (c.2, c.3, at)
  walk_found (suc fuel) it (b ∷ before) a behind n id type ec buf q h c absent at same =
      rw (c.0, walk, c.2, absent.0 c.1 c.2)
        (walk_found fuel c.1.next before a behind n id type ec buf q (omega arith) c.4 absent.1 at
          same)

-- `last` leads to the last object.
abbrev pub last_of : List ℕ → Option ℕ
last_of [] = none
last_of (a ∷ []) = some a
last_of (a ∷ b ∷ l) = last_of (b ∷ l)

-- The queue holds just the objects at the addresses of the list, in order.
pub record IsQueue (q : Queue) (l : List ℕ) : Type 0 where
  pub chain : Chain q.cells q.first l
  pub last : q.last ≡ last_of l
  pub distinct : Distinct l

pub Chain-last :
    (cells : ℕ → Option Node) (it : Option ℕ) (b : ℕ) (l : List ℕ)
    → Chain cells it (b ∷ l)
    → (z : ℕ) × (n : Node) × (last_of (b ∷ l) ≡ some z) × (cells z ≡ some n) × (n.prev ≡ none)
Chain-last cells it b [] c = (b, c.1, refl, c.2, c.3)
Chain-last cells it b (d ∷ l) c = Chain-last cells c.1.next d l c.4

pub Fresh-last_of :
    (a b : ℕ) (l : List ℕ) (z : ℕ) → Fresh a (b ∷ l) → last_of (b ∷ l) ≡ some z → (z == a) ≡ false
Fresh-last_of a b [] z f e = ground arith
Fresh-last_of a b (d ∷ l) z f e = Fresh-last_of a d l z f.1 e

pub Chain-extend :
    (cells : ℕ → Option Node) (it : Option ℕ) (b : ℕ) (l : List ℕ) (z a : ℕ) (n m : Node)
    → Chain cells it (b ∷ l)
    → Distinct (b ∷ l)
    → last_of (b ∷ l) ≡ some z
    → cells z ≡ some n
    → n.prev ≡ none
    → (z == a) ≡ false
    → cells a ≡ some m
    → m.prev ≡ none
    → m.next ≡ none
    → Chain (update cells z (some (record n { next = some a }))) it (b ∷ (l ++ a ∷ []))
Chain-extend cells it b [] z a n m c d e at prev far at_a m_prev m_next =
    (c.0, record n { next = some a }, ground arith, prev, (refl, m, rw far at_a, m_prev, m_next))
Chain-extend cells it b (x ∷ l) z a n m c d e at prev far at_a m_prev m_next = (
  c.0,
  c.1,
  rw (Fresh-last_of b x l z d.0 e) c.2,
  c.3,
  Chain-extend cells c.1.next x l z a n m c.4 d.1 e at prev far at_a m_prev m_next,
)

pub last_of-append : (l : List ℕ) (a : ℕ) → last_of (l ++ a ∷ []) ≡ some a
last_of-append [] a = refl
last_of-append (b ∷ []) a = refl
last_of-append (b ∷ c ∷ l) a = last_of-append (c ∷ l) a
