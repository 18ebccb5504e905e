-- ===== src/File/Parts.antt =====
-- What reading into several buffers, or writing from them, asks for and returns.
use corosh.Base.{
  ℕ, ◌+◌, ◌<◌, ◌%◌, ◌^◌, ◌≡◌, ap, ◌∙◌, List, [], ◌∷◌, ◌++◌, arith, not, ◌&&◌, if◌then◌else◌,
}
use corosh.Errors.{ErrorCode, no_error, failed}
use corosh.File.{tasks, collect, some_at}

-- `boost::capy::buffer_size`, and the sum of the counts.
abbrev pub buffer_size : List ℕ → ℕ
buffer_size [] = 0
buffer_size (size ∷ mb) = size + buffer_size mb

abbrev pub counts : List (ErrorCode × ℕ) → ℕ
counts [] = 0
counts ((ec, n) ∷ r) = n + counts r

collect-counts :
    (r : List (ErrorCode × ℕ)) (ec : ErrorCode) (n : ℕ) → (collect r ec n).1 ≡ n + counts r
unfolding collect
collect-counts [] ec n = omega arith
collect-counts ((ec_, n_) ∷ r) ec n =
    collect-counts r (if failed ec_ && not (failed ec) then ec_ else ec) (n + n_) ∙ omega arith

tasks-append :
    (offset : ℕ) (before after : List ℕ)
    → offset + buffer_size before + buffer_size after < 2 ^ 64
    → tasks offset (before ++ after)
      ≡ tasks offset before ++ tasks (offset + buffer_size before) after
unfolding tasks
tasks-append offset [] after h = ap (λ o. tasks o after) (omega arith)
tasks-append offset (b ∷ before) after h = ap (◌∷◌ (offset, b)) (
    ap (λ o. tasks o (before ++ after)) (omega arith)
    ∙ tasks-append (offset + b) before after (omega arith)
    ∙ ap (λ o. tasks o before ++ tasks (offset + b + buffer_size before) after) (omega arith)
    ∙ ap (λ o. tasks ((offset + b) % 2 ^ 64) before ++ tasks o after) (omega arith))

-- With room for the offsets in 64 bits: the part for each buffer begins where the parts for the buffers in front
-- of it end, and has the size of the buffer. The result is the sum of what the parts return, and no error,
-- whatever errors the parts report.
pub some_at-counts :
    {S : Type 0} (when_all : List (ℕ × ℕ) → S → List (ErrorCode × ℕ) × S) (offset b : ℕ)
    (before after : List ℕ) (s : S)
    → offset + buffer_size before + buffer_size (b ∷ after) < 2 ^ 64
    → (tasks offset (before ++ b ∷ after)
        ≡ tasks offset before
          ++ (offset + buffer_size before, b) ∷ tasks (offset + buffer_size before + b) after)
      × (some_at when_all offset (before ++ b ∷ after) s ≡ (
        (no_error, counts (when_all (tasks offset (before ++ b ∷ after)) s).0),
        (when_all (tasks offset (before ++ b ∷ after)) s).1,
      ))
unfolding some_at tasks
some_at-counts when_all offset b before after s h =
    let r = when_all (tasks offset (before ++ b ∷ after)) s in
    (
      tasks-append offset before (b ∷ after) h
          ∙ ap (λ o. tasks offset before ++ (offset + buffer_size before, b) ∷ tasks o after)
              (omega arith),
      ap (λ n. ((no_error, n), r.1)) (collect-counts r.0 no_error 0 ∙ omega arith),
    )
