-- ===== src/Server/Replies.antt =====
-- The packets that the worker takes and the status packets that it builds.
use corosh.Base.{
  ℕ, zero, suc, ◌+◌, ◌-◌, ◌%◌, ◌^◌, ◌<◌, ◌≡◌, ap, ◌∙◌, Bool, List, [], ◌∷◌, ◌++◌, append-nil,
  length, length-append, length-replicate, take, replicate, arith,
}
use corosh.Errors.{ErrorCode, no_error}
use corosh.Fxp
use corosh.Wire.{Take, bytes_u8, bytes_u32, add_u32}
use corosh.Wire.Writes.{Writes-▷, Writes-put_u8, Writes-put_u32, Writes-put_str, Writes-memory}
use corosh.Wire.Reads.{Reads, Reads-take_u8, Reads-take_u32}
use corosh.Requests.Packets.{str_bytes, packet}
use corosh.Responses.Parsed.{status_body}
use corosh.Server.{Handlers, reply, call, dispatch, serve_packet, finish_status}
use corosh.Errors.Conditions.{Condition}
use corosh.Server.Status.{resize, status_of, build_status}

length-take_le : (n : ℕ) (xs : List ℕ) → length (take n xs) + (n - length xs) ≡ n
length-take_le zero xs = omega arith
length-take_le (suc n) [] = omega arith
length-take_le (suc n) (x ∷ xs) = omega (arith, length-take_le n xs)

pub length-resize : (n : ℕ) (buffer : List ℕ) → length (resize n buffer) ≡ n
length-resize n buffer = omega (
  arith,
  length-append (take n buffer) (replicate (n - length buffer) 0),
  length-replicate {A = ℕ} (n - length buffer) 0,
  length-take_le n buffer,
)

-- The arguments that the bytes of a request stand for reach the handler.
pub call-Reads :
    {A S : Type 0} (parse : Take A) (act : A → S → ErrorCode × S) (bytes : List ℕ) (a : A) (s : S)
    → Reads parse bytes a
    → call parse act bytes s ≡ act a s
call-Reads parse act bytes a s p = rw (rw append-nil at (p.at []))

module _ (is : ErrorCode → Condition → Bool) (message : ErrorCode → List ℕ) where
  abbrev pub status_packet : ℕ → ErrorCode → List ℕ
  status_packet id reported =
      packet Fxp.status id (status_body (status_of is message reported) (message reported) [])

  -- The response to a failed or plain request is a status packet with its request id, the number
  -- and the text of the code, and an empty language tag, whatever the buffer held, if the text
  -- fits a packet.
  pub build_status-packet :
      (buffer : List ℕ) (id : ℕ) (reported : ErrorCode)
      → length (message reported) + 21 < 2 ^ 32
      → build_status is message buffer id reported no_error
        ≡ record { done = status_packet id reported; rest = []; ec = no_error }
  unfolding build_status
  build_status-packet buffer id reported short =
      let msg = message reported in
      let content = status_body (status_of is message reported) msg [] in
      let e : (1 + 4 + 4 + 4 + length msg + 4) % 2 ^ 32 ≡ 5 + length content =
        omega (arith, length-append msg (str_bytes [])) in
      let size : add_u32 4 (5 + length content) ≡ length (status_packet id reported) =
        omega (arith, length-append msg (str_bytes [])) in
      let m = resize (add_u32 4 (5 + length content)) buffer in
      rw e (
        Writes-memory m
          (Writes-▷ (Writes-put_u32 (5 + length content)) (
            Writes-▷ (Writes-put_u8 Fxp.status) (
              Writes-▷ (Writes-put_u32 id) (
                Writes-▷ (Writes-put_u32 (status_of is message reported))
                  (Writes-▷ (Writes-put_str msg) (Writes-put_str []))))))
          (length-resize (add_u32 4 (5 + length content)) buffer ∙ size))

  module _ {S : Type 0} (h : Handlers S) where
    -- The worker takes the type and the request id off a packet.
    pub serve_packet-packet :
        (buffer : List ℕ) (type id : ℕ) (content : List ℕ) (s : S)
        → type < 256
        → id < 2 ^ 32
        → serve_packet is message h buffer (bytes_u8 type ++ (bytes_u32 id ++ content)) s
          ≡ dispatch is message h type buffer id no_error content s
    unfolding serve_packet
    serve_packet-packet buffer type id content s ht hid =
        rw
          ((Reads-take_u8 type ht).at (bytes_u32 id ++ content), (Reads-take_u32 id hid).at content)

    pub finish_status-packet :
        (buffer : List ℕ) (id : ℕ) (reported : ErrorCode) (s : S)
        → length (message reported) + 21 < 2 ^ 32
        → finish_status is message h buffer id no_error (reported, s)
          ≡ reply (status_packet id reported) s
    finish_status-packet buffer id reported s short =
        rw (build_status-packet buffer id reported short)
          (ap (λ bytes. reply bytes s) (append-nil (status_packet id reported)))
