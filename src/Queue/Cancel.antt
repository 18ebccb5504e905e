-- ===== src/Queue/Cancel.antt =====
-- `cancel_all`, which ends every waiting operation when the stream has failed.
use corosh.Base.{
  ℕ, zero, suc, ◌<◌, ◌≡◌, refl, ◌∙◌, true, List, [], ◌∷◌, Option, none, some, length, arith,
}
use corosh.Errors.{ErrorCode, failed}
use corosh.Responses.{complete, completed, code_of}
use corosh.Responses.Failures.{complete-failed}
use corosh.Queue.{Node, Queue, done, store, cancel_loop, cancel_all}
use corosh.Queue.Chains.{Chain, Fresh, Distinct, Chain-update, IsQueue}

-- Each object of the list ends completed with the code.
abbrev pub Ended : (ℕ → Option Node) → ErrorCode → List ℕ → Type 0
Ended cells ec [] = Unit {0}
Ended cells ec (a ∷ l) =
    ((n : Node) × (cells a ≡ some n) × (completed n.response ≡ true) × (code_of n.response ≡ ec))
    × Ended cells ec l

-- The loop frees no object that it has passed, and changes only those that it passes.
abbrev Outcome : Queue → List ℕ → ErrorCode → Queue → Type 0
Outcome q l ec q' =
    (q'.first ≡ none) × Ended q'.cells ec l × ((b : ℕ) → Fresh b l → q'.cells b ≡ q.cells b)

module _ (eof : ErrorCode) where
  cancel_loop_lem :
      (fuel : ℕ) (l : List ℕ) (ec : ErrorCode) (q : Queue)
      → length l < fuel
      → Chain q.cells q.first l
      → Distinct l
      → failed ec ≡ true
      → (q' : Queue) × (cancel_loop eof fuel ec q ≡ done q') × Outcome q l ec q'
  unfolding cancel_loop
  cancel_loop_lem zero l ec q h c d bad = absurd (omega arith)
  cancel_loop_lem (suc fuel) [] ec q h c d bad = (q, ground arith, (c, tt, λ b f. refl))
  cancel_loop_lem (suc fuel) (a ∷ l) ec q h c d bad =
      let n = c.1 in
      let m : Node = record n { response = complete eof ec 0 [] n.response } in
      let q1 = store (record q { first = n.next }) a m in
      let (q', runs, (ended, all, others)) =
        cancel_loop_lem fuel l ec q1 (omega arith)
          (Chain-update q.cells a (some m) n.next l d.0 c.4) d.1 bad in
      let ends = complete-failed eof ec 0 [] n.response bad in
      (
        q',
        rw (c.0, cancel_loop, c.2) runs,
        (
          ended,
          ((m, others a d.0 ∙ ground arith, ends.0, ends.1), all),
          λ b f. others b f.1 ∙ ground (arith, f.0),
        ),
      )

  -- For an error code `cancel_all` on a queue in good order, with more fuel than objects, completes every
  -- waiting response with that code, leaves the memory of any other object alone, and leaves an empty
  -- queue.
  pub cancel_all_lem :
      (fuel : ℕ) (l : List ℕ) (ec : ErrorCode) (q : Queue) (b : ℕ)
      → IsQueue q l
      → failed ec ≡ true
      → length l < fuel
      → Fresh b l
      → (q' : Queue) × (cancel_all eof fuel ec q ≡ done q')
        × IsQueue q' []
        × Ended q'.cells ec l
        × (q'.cells b ≡ q.cells b)
  unfolding cancel_all
  cancel_all_lem fuel l ec q b h bad enough other =
      let (q', runs, (first, ended, others)) =
        cancel_loop_lem fuel l ec q enough h.chain h.distinct bad in
      (
        record q' { last = none },
        rw runs,
        record { chain = first; last = refl; distinct = tt },
        ended,
        others b other,
      )
