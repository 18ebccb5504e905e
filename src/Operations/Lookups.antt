-- ===== src/Operations/Lookups.antt =====
-- An exchange with the worker for the operations that open something or look it up, and what they return.
use corosh.Base.{
  ℕ, suc, ◌+◌, ◌^◌, ◌<◌, ◌≡◌, sym, ap, ◌∙◌, true, false, Bool, Bool-cases, inl, inr, List, [], ◌++◌,
  append-nil, some, none, length, drop, length-append, ◌==◌, if◌then◌else◌, arith,
}
use corosh.Errors.{ErrorCode, no_error, failed, sftp_error}
use corosh.Errors.Conditions.{Condition}
use corosh.Attributes.{Attributes, no_attributes, has, attr_extended}
use corosh.Attributes.Bytes.{attrs_bytes, attrs_length-length, InRange, on_wire}
use corosh.Fxp
use corosh.Wire.{bytes_u32}
use corosh.Wire.Reads.{Reads-take_u32}
use corosh.Requests.{to_write}
use corosh.Requests.Packets.{Call, request, packet, str_bytes}
use corosh.Requests.Sent.{to_write-packet}
use corosh.Responses.{
  blank_handle, blank_attrs, blank_name, Response, handle, attrs, name, complete, completed,
  complete_handle, complete_attrs, complete_name, status_code,
}
use corosh.Responses.Parsed.{status_body}
use corosh.Queue.{Queue, done}
use corosh.Server.{Handlers, serve_packet}
use corosh.Server.Status.{status_of}
use corosh.Server.Values.{handle_reply-packet, attrs_reply-packet, name_bytes, name_reply-packet}
use corosh.Server.Lookups.{
  Found, lookup, Asked, Carried, found_type, found_body, found_packet, serve_packet-lookup,
}
use corosh.Server.Lookups as L
use corosh.Exchange.{Client, Waits, answered, operation}
use corosh.Exchange.Answers.{Connected, operation-answered}
use corosh.Exchange.Served.{reply_bytes}
use corosh.Operations.{
  nothing_open, new_handle, new_attrs, new_name, handle_returned, attrs_returned, name_returned,
}

-- Classes for other packets, given a status.
status_code-status_body :
    (error : ℕ) (message : List ℕ)
    → error < 2 ^ 32
    → status_code (status_body error message []) no_error
      ≡ (if error == 0 then no_error else sftp_error error)
status_code-status_body error message h =
    rw ((Reads-take_u32 error h).at (str_bytes message ++ str_bytes [])) (ground arith)

module _ (is : ErrorCode → Condition → Bool) (message : ErrorCode → List ℕ) where
  -- A code that reports an error has another number than success.
  pub status_of-nonzero :
      (reported : ErrorCode) → failed reported ≡ true → (status_of is message reported == 0) ≡ false
  unfolding status_of
  status_of-nonzero reported h = ground arith

  status_of-zero :
      (reported : ErrorCode) → failed reported ≡ false → status_of is message reported ≡ 0
  unfolding status_of
  status_of-zero reported h = ground arith

found_short : (v : Found) → Carried v → length (found_body v) + 9 < 2 ^ 32
found_short (L.handle h) ok = omega arith
found_short (L.attrs b) ok =
    let bound : length (attrs_bytes b) < 33 = ground (arith, attrs_length-length b) in omega arith
found_short (L.name n) ok =
    let long : length (name_bytes n) ≡ 16 + length n =
      omega (arith, length-append n (str_bytes [] ++ bytes_u32 0)) in
    omega arith

found_type_small : (v : Found) → found_type v < 256
found_type_small (L.handle h) = omega arith
found_type_small (L.attrs b) = omega arith
found_type_small (L.name n) = omega arith

length-status_body :
    (error : ℕ) (message : List ℕ) → length (status_body error message []) ≡ 12 + length message
length-status_body error message = omega (arith, length-append message (str_bytes []))

module _ {S T : Type 0} (eof : ErrorCode) (w : Waits S) (is : ErrorCode → Condition → Bool)
    (message : ErrorCode → List ℕ) (h : Handlers T) {sent : List ℕ → S → S} {replies : S → List ℕ}
    (con : Connected w sent replies) (rounds fuel a : ℕ) (small : List ℕ) (q : Queue) (s : S)
    (buffer : List ℕ) (t : T) (idle : q.last ≡ none) (small_size : length small ≡ 1024)
    (hid : q.request_id_gen < 2 ^ 32) where
  abbrev pub client : Client S
  client = record { queue = q; buffer = []; stream = s }

  -- A worker at the other end answers the request.
  abbrev pub Arrives : Call → Type 0
  Arrives c =
      replies (sent (to_write (request c) q.request_id_gen small) s)
      ≡ reply_bytes (
          serve_packet is message h buffer (drop 4 (to_write (request c) q.request_id_gen small)) t)

  -- The number and the text of what the handler reports fit a packet.
  abbrev pub Reportable : ErrorCode → Type 0
  Reportable reported =
      (status_of is message reported < 2 ^ 32) × (length (message reported) + 21 < 2 ^ 32)

  -- The response object in the end.
  abbrev pub completed_by : ErrorCode × Found → Response → Response
  completed_by (reported, v) response =
      if failed reported
      then complete eof no_error Fxp.status
          (status_body (status_of is message reported) (message reported) []) response
      else complete eof no_error (found_type v) (found_body v) response

  pub operation-lookup :
      (c : Call) (response : Response) (r : (ErrorCode × Found) × T)
      → completed response ≡ false
      → Arrives c
      → lookup h c t ≡ some r
      → Asked c
      → Carried r.0.1
      → Reportable r.0.0
      → (d : Client S) × (operation eof w
            (suc (suc rounds))
            (suc fuel)
            a
            (request c)
            response
            small
            client
          ≡ done (answered (completed_by r.0 response), d))
  operation-lookup c response r waits arrives found asked carried (in_range, short) =
      let id = q.request_id_gen in
      let reported = r.0.0 in
      let v = r.0.1 in
      let content = status_body (status_of is message reported) (message reported) [] in
      let answer : replies (sent (to_write (request c) id small) s)
          ≡ found_packet is message id r.0 =
        arrives
        ∙ ap (λ bytes. reply_bytes (serve_packet is message h buffer (drop 4 bytes) t))
            (to_write-packet c id small small_size)
        ∙ ap reply_bytes
            (serve_packet-lookup is message h c r buffer id t found asked carried hid short) in
      elim (Bool-cases (failed reported)) [
        | inl bad ↦
            let as_status : replies (sent (to_write (request c) id small) s)
                ≡ packet Fxp.status id content ++ [] =
              answer ∙ rw bad (sym (append-nil (packet Fxp.status id content))) in
            let (d, runs, left, no_last) =
              operation-answered eof w sent replies rounds fuel a (request c) response small q s
                Fxp.status content [] con idle waits as_status (omega arith) hid
                (omega
                  (arith, length-status_body (status_of is message reported) (message reported))) in
            (d, rw bad runs)
        | inr fine ↦
            let as_found : replies (sent (to_write (request c) id small) s)
                ≡ packet (found_type v) id (found_body v) ++ [] =
              answer ∙ rw fine (sym (append-nil (packet (found_type v) id (found_body v)))) in
            let (d, runs, left, no_last) =
              operation-answered eof w sent replies rounds fuel a (request c) response small q s
                (found_type v) (found_body v) [] con idle waits as_found (found_type_small v) hid
                (found_short v carried) in
            (d, rw fine runs)
      ]

  -- The code that the caller gets for an error of the handler.
  abbrev pub code_learned : ErrorCode → ErrorCode
  code_learned reported = sftp_error (status_of is message reported)

  -- What a class makes of the two answers.
  pub handle_completed :
      (reported : ErrorCode) (hd : List ℕ)
      → length hd + 13 < 2 ^ 32
      → Reportable reported
      → handle_returned (answered (completed_by (reported, L.handle hd) new_handle)) ≡ (
          if failed reported
          then (code_learned reported, nothing_open)
          else (no_error, record { in_session = true; handle = hd }))
  unfolding complete complete_handle
  handle_completed reported hd carried (in_range, short) = elim (Bool-cases (failed reported)) [
    | inl bad ↦ rw (
      bad,
      status_code-status_body (status_of is message reported) (message reported) in_range,
      status_of-nonzero is message reported bad,
      status_of-nonzero is message reported bad,
    )
    | inr fine ↦ rw fine (
        ap (λ r. handle_returned (answered (handle r)))
          (handle_reply-packet [] 0 hd blank_handle carried).1)
  ]

  pub attrs_completed :
      (reported : ErrorCode) (b : Attributes)
      → InRange b
      → has b.flags attr_extended ≡ false
      → Reportable reported
      → attrs_returned (answered (completed_by (reported, L.attrs b) new_attrs)) ≡ (
          if failed reported then (code_learned reported, no_attributes) else (no_error, on_wire b))
  unfolding complete complete_attrs
  attrs_completed reported b ok plain (in_range, short) = elim (Bool-cases (failed reported)) [
    | inl bad ↦ rw (
      bad,
      status_code-status_body (status_of is message reported) (message reported) in_range,
      status_of-nonzero is message reported bad,
    )
    | inr fine ↦ rw fine (
        ap (λ r. attrs_returned (answered (attrs r)))
          (attrs_reply-packet [] 0 b blank_attrs ok plain).1)
  ]

  pub name_completed :
      (reported : ErrorCode) (n : List ℕ)
      → length n + 25 < 2 ^ 32
      → Reportable reported
      → name_returned (answered (completed_by (reported, L.name n) new_name))
        ≡ (if failed reported then (code_learned reported, []) else (no_error, n))
  unfolding complete complete_name
  name_completed reported n carried (in_range, short) = elim (Bool-cases (failed reported)) [
    | inl bad ↦ rw (
      bad,
      status_code-status_body (status_of is message reported) (message reported) in_range,
      status_of-nonzero is message reported bad,
    )
    | inr fine ↦ rw fine (
        ap (λ r. name_returned (answered (name r))) (name_reply-packet [] 0 n blank_name carried).1)
  ]
