-- ===== src/Examples/Waiting.antt =====
-- A queue in which the operations with the request ids 0 and 1 wait, at the addresses 10 and 20.
use corosh.Base.{
  ℕ, ◌≡◌, refl, true, false, List, [], ◌∷◌, some, none, arith, Option, ◌==◌, if◌then◌else◌,
}
use corosh.Errors.{ErrorCode, Category, no_error}
use corosh.Fxp
use corosh.Responses.{Response, status, complete}
use corosh.Queue.{
  Node, Queue, done, fault, construct, destroy, enqueue_response, complete_request, cancel_all,
}
use corosh.Queue.Chains.{Chain, IsQueue}
use corosh.Queue.Operations.{enqueue_response-IsQueue, complete_request_found}
use corosh.Queue.Cancel.{Ended, cancel_all_lem}
use corosh.Queue.Defects.{complete_last_loses_others, complete_first_dangles}

abbrev eof : ErrorCode
eof = record { value = 1; category = Category.capy }

abbrev broken : ErrorCode
broken = record { value = 32; category = Category.generic }

abbrev unanswered : Response
unanswered = status (record { completed = false; ec = no_error })

abbrev older : Node
older = record { prev = none; next = some 20; request_id = 0; response = unanswered }

abbrev newer : Node
newer = record { prev = none; next = none; request_id = 1; response = unanswered }

abbrev memory : ℕ → Option Node
memory a = if a == 10 then some older else if a == 20 then some newer else none

abbrev two : Queue
two = record { first = some 10; last = some 20; request_id_gen = 2; cells = memory }

two-IsQueue : IsQueue two (10 ∷ 20 ∷ [])
two-IsQueue = record {
  chain = (refl, older, refl, refl, (refl, newer, refl, refl, refl));
  last = refl;
  distinct = ((refl, tt), (tt, tt));
}

-- The payload of a status packet with the number 0.
abbrev success : List ℕ
success = 0 ∷ 0 ∷ 0 ∷ 0 ∷ []

not_first : (n : Node) → memory 10 ≡ some n → (n.request_id == 1) ≡ false
not_first n e = ground arith

enqueue_response-IsQueue_example :
    (q' : Queue) × (enqueue_response 30 (construct 30 2 unanswered two) ≡ done q')
    × IsQueue q' (10 ∷ 20 ∷ 30 ∷ [])
enqueue_response-IsQueue_example =
    enqueue_response-IsQueue two (10 ∷ 20 ∷ []) 30 2 unanswered two-IsQueue (refl, (refl, tt))

complete_request_found_example :
    (q' : Queue) × (complete_request eof 5 1 Fxp.status no_error success two ≡ done (true, q'))
    × ((b : ℕ)
        → q'.cells b ≡ (
            if 20 == b
            then some
                (record newer { response = complete eof no_error Fxp.status success unanswered })
            else memory b))
complete_request_found_example =
    complete_request_found eof two (10 ∷ []) [] 20 newer 5 1 Fxp.status no_error success two-IsQueue
      (not_first, tt) refl refl (omega arith)

cancel_all_lem_example :
    (q' : Queue) × (cancel_all eof 5 broken two ≡ done q')
    × IsQueue q' []
    × Ended q'.cells broken (10 ∷ 20 ∷ [])
    × (q'.cells 30 ≡ none)
cancel_all_lem_example =
    cancel_all_lem eof 5 (10 ∷ 20 ∷ []) broken two 30 two-IsQueue refl (omega arith)
      (refl, (refl, tt))

complete_last_loses_others_example :
    (q1 : Queue) × (q2 : Queue) × (complete_request eof 5 1 Fxp.status no_error success two
      ≡ done (true, q1))
    × (enqueue_response 30 (construct 30 2 unanswered q1) ≡ done q2)
    × Chain q2.cells q2.first (30 ∷ [])
    × (complete_request eof 2 0 Fxp.status no_error success q2 ≡ done (false, q2))
complete_last_loses_others_example =
    complete_last_loses_others eof two (10 ∷ []) 20 30 newer 5 1 2 Fxp.status unanswered no_error
      success 0 Fxp.status no_error success two-IsQueue (not_first, tt) refl refl (omega arith) refl

complete_first_dangles_example :
    (q1 : Queue) × (complete_request eof 5 0 Fxp.status no_error success two ≡ done (true, q1))
    × (complete_request eof 5 1 Fxp.status broken success (destroy 10 q1) ≡ fault)
    × (cancel_all eof 5 broken (destroy 10 q1) ≡ fault)
complete_first_dangles_example =
    complete_first_dangles eof two 10 (20 ∷ []) older 4 0 Fxp.status no_error success 1 Fxp.status
      broken success two-IsQueue refl refl
