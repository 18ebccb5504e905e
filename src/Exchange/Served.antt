-- ===== src/Exchange/Served.antt =====
-- The client against the worker: what an operation brings back from a handler of the server.
use corosh.Base.{
  ℕ, suc, ◌+◌, ◌^◌, ◌<◌, ◌≡◌, sym, ap, ◌∙◌, true, false, Bool, List, [], ◌++◌, append-nil, some,
  none, length, drop, length-append, ◌==◌, if◌then◌else◌, arith,
}
use corosh.Errors.{ErrorCode, no_error, sftp_error}
use corosh.Fxp
use corosh.Requests.{to_write}
use corosh.Requests.Packets.{Call, request, packet, str_bytes}
use corosh.Requests.Sent.{to_write-packet}
use corosh.Responses.{Status, status, complete}
use corosh.Responses.Parsed.{status_body, complete_status-status_body}
use corosh.Queue.{Queue, done}
use corosh.Server.{Handlers, Outcome, reply, stop, dangling, serve_packet}
use corosh.Errors.Conditions.{Condition}
use corosh.Server.Status.{status_of}
use corosh.Server.Requests.{action, Sound, serve_packet-request}
use corosh.Exchange.{Client, Waits, answered, operation}
use corosh.Exchange.Answers.{Connected, operation-answered}

-- The bytes that the worker writes.
abbrev pub reply_bytes : {T : Type 0} → Outcome T → List ℕ
reply_bytes (reply bytes s) = bytes
reply_bytes (stop ec s) = []
reply_bytes (dangling s) = []

length-status_body :
    (error : ℕ) (message : List ℕ) → length (status_body error message []) ≡ 12 + length message
length-status_body error message = omega (arith, length-append message (str_bytes []))

module _ (is : ErrorCode → Condition → Bool) (message : ErrorCode → List ℕ) where
  -- What the caller learns of the code that the handler reported.
  abbrev pub learned : ErrorCode → Status
  learned reported = record {
    completed = true;
    ec =
        if status_of is message reported == 0
        then no_error
        else sftp_error (status_of is message reported);
  }

  complete-status_body :
      (eof reported : ErrorCode) (r : Status)
      → status_of is message reported < 2 ^ 32
      → length (message reported) + 21 < 2 ^ 32
      → complete eof no_error Fxp.status
          (status_body (status_of is message reported) (message reported) [])
          (status r)
        ≡ status (learned reported)
  unfolding complete
  complete-status_body eof reported r in_range short = ap status (
      complete_status-status_body (status_of is message reported) (message reported) [] r in_range
        (omega arith) (omega arith))

module _ {S T : Type 0} (eof : ErrorCode) (w : Waits S) (is : ErrorCode → Condition → Bool)
    (message : ErrorCode → List ℕ) (h : Handlers T) where
  -- An operation of the client that asks for a status, alone on a connection with nothing
  -- buffered and a queue without `last`, at whose other end a worker answers, ends with the
  -- number and the text of the code that the handler reported for it: success if the number is
  -- 0, and else that number in the SFTP category. This holds for arguments that fit the
  -- protocol, at most 2^30 bytes to write, a number that fits 32 bits, and a message that fits a
  -- packet.
  pub operation-served :
      (sent : List ℕ → S → S) (replies : S → List ℕ) (rounds fuel a : ℕ) (c : Call)
      (act : T → ErrorCode × T) (r : Status) (small buffer : List ℕ) (q : Queue) (s : S) (t : T)
      → Connected w sent replies
      → q.last ≡ none
      → r.completed ≡ false
      → length small ≡ 1024
      → replies (sent (to_write (request c) q.request_id_gen small) s)
        ≡ reply_bytes (
            serve_packet is message h buffer
              (drop 4 (to_write (request c) q.request_id_gen small))
              t)
      → action h c ≡ some act
      → Sound c
      → q.request_id_gen < 2 ^ 32
      → status_of is message (act t).0 < 2 ^ 32
      → length (message (act t).0) + 21 < 2 ^ 32
      → (d : Client S) × (operation eof w
            (suc (suc rounds))
            (suc fuel)
            a
            (request c)
            (status r)
            small
            (record { queue = q; buffer = []; stream = s })
          ≡ done (answered (status (learned is message (act t).0)), d))
  operation-served sent replies rounds fuel a c act r small buffer q s t con idle waits small_size
        arrives means ok hid in_range short =
      let id = q.request_id_gen in
      let reported = (act t).0 in
      let content = status_body (status_of is message reported) (message reported) [] in
      let answer : replies (sent (to_write (request c) id small) s)
          ≡ packet Fxp.status id content ++ [] =
        arrives
        ∙ ap (λ bytes. reply_bytes (serve_packet is message h buffer (drop 4 bytes) t))
            (to_write-packet c id small small_size)
        ∙ ap reply_bytes (serve_packet-request is message h c act buffer id t means ok hid short)
        ∙ sym (append-nil (packet Fxp.status id content)) in
      let (d, runs, left, no_last) =
        operation-answered eof w sent replies rounds fuel a (request c) (status r) small q s
          Fxp.status content [] con idle waits answer (omega arith) hid
          (omega (arith, length-status_body (status_of is message reported) (message reported))) in
      (
        d,
        runs
            ∙ ap (λ r. done (answered r, d))
                (complete-status_body is message eof reported r in_range short),
      )
