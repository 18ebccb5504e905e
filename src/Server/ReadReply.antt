-- ===== src/Server/ReadReply.antt =====
-- The reply of the worker to SSH_FXP_READ.
use corosh.Base.{
  if◌then◌else◌, ℕ, zero, suc, ◌+◌, ◌-◌, ◌^◌, ◌≤◌, ◌<◌, ◌≡◌, refl, sym, ap, ◌∙◌, Bool, List, [],
  ◌∷◌, ◌++◌, append-nil, length, take, drop, drop-append, length-append, ltb, not_ltb, arith,
  ltb→lt, Bool-cases, inl, inr,
}
use corosh.Errors.{ErrorCode, no_error}
use corosh.Fxp
use corosh.Wire.{
  ◌>>=◌, pure, Writer, ◌▷◌, reader, take_str, take_u64, take_u32, put_u8, put_u32, bytes_u8,
  bytes_u32, bytes_u64,
}
use corosh.Wire.Writes.{Writes, Writes-▷, Writes-put_u8, Writes-put_u32}
use corosh.Wire.Reads.{
  Reads, Reads-bind, Reads-last, Reads-pure, Reads-take_str, Reads-take_u32, Reads-take_u64,
}
use corosh.Requests.Packets.{read_at_call, body, packet, str_bytes}
use corosh.Requests.Sent.{length-take}
use corosh.Server.{
  Handlers, reply, dangling, dispatch, serve_packet, serve_read, data_reply, take_read, limit,
}
use corosh.Errors.Conditions.{Condition}
use corosh.Server.Status.{resize}
use corosh.Server.Replies.{serve_packet-packet, length-resize}

Reads-take_read :
    (handle : List ℕ) (offset len : ℕ)
    → length handle < 2 ^ 32
    → offset < 2 ^ 64
    → len ≤ limit
    → Reads take_read
        (str_bytes handle ++ (bytes_u64 offset ++ bytes_u32 len))
        (handle, offset, len)
unfolding take_read
Reads-take_read handle offset len hh ho hl = record {
  at = λ rest. rw (r.at rest, not_ltb limit len hl);
}
  where
    r :
        Reads
          (do h ← take_str; o ← take_u64; l ← take_u32; pure {A = List ℕ × ℕ × ℕ} (h, o, l))
          (str_bytes handle ++ (bytes_u64 offset ++ bytes_u32 len))
          (handle, offset, len)
    r = Reads-bind _ (Reads-take_str handle hh) (
        Reads-bind _ (Reads-take_u64 offset ho)
          (Reads-last _ (Reads-take_u32 len (omega arith)) (Reads-pure (handle, offset, len))))

-- The fields in front of the data.
abbrev header_bytes : ℕ → ℕ → List ℕ
header_bytes k id = bytes_u32 (9 + k) ++ (bytes_u8 Fxp.data_reply ++ (bytes_u32 id ++ bytes_u32 k))

Writes-header :
    (k id : ℕ)
    → Writes (put_u32 (9 + k) ▷ put_u8 Fxp.data_reply ▷ put_u32 id ▷ put_u32 k) (header_bytes k id)
Writes-header k id =
    Writes-▷ (Writes-put_u32 (9 + k))
      (Writes-▷ (Writes-put_u8 Fxp.data_reply) (Writes-▷ (Writes-put_u32 id) (Writes-put_u32 k)))

take_all : (xs : List ℕ) → take (length xs) xs ≡ xs
take_all [] = refl
take_all (x ∷ xs) = ap (◌∷◌ x) (take_all xs)

take_behind : (n k : ℕ) (xs ys : List ℕ) → n ≡ length xs + k → take n (xs ++ ys) ≡ xs ++ take k ys
take_behind n k [] ys e = ap (λ j. take j ys) (omega arith)
take_behind zero k (x ∷ xs) ys e = absurd (omega arith)
take_behind (suc n) k (x ∷ xs) ys e = ap (◌∷◌ x) (take_behind n k xs ys (omega arith))

resize_behind :
    (n k : ℕ) (xs ys : List ℕ)
    → n ≡ length xs + k
    → k ≤ length ys
    → resize n (xs ++ ys) ≡ xs ++ take k ys
resize_behind n k xs ys e le =
    let none_missing : n - length (xs ++ ys) ≡ 0 = omega (arith, length-append xs ys) in
    rw (none_missing, take_behind n k xs ys e) (append-nil (xs ++ take k ys))

put_header :
    (front bytes buffer : List ℕ) (id z k : ℕ)
    → length front ≡ 13
    → z ≡ 9 + k
    → buffer ≡ front ++ take k bytes
    → (put_u32 z ▷ put_u8 Fxp.data_reply ▷ put_u32 id ▷ put_u32 k)
        (record { done = []; rest = buffer; ec = no_error })
      ≡ record { done = header_bytes k id; rest = take k bytes; ec = no_error }
put_header front bytes buffer id z k h size same =
    let w : Writer = record { done = []; rest = front ++ take k bytes; ec = no_error } in
    let fits : 13 ≤ length (front ++ take k bytes) =
      omega (arith, length-append front (take k bytes)) in
    let behind : drop 13 (front ++ take k bytes) ≡ take k bytes =
      ap (λ n. drop n (front ++ take k bytes)) (sym h) ∙ drop-append front (take k bytes) in
    (λ i.
      (put_u32 (size i) ▷ put_u8 Fxp.data_reply ▷ put_u32 id ▷ put_u32 k)
        (record { done = []; rest = same i; ec = no_error }))
    ∙ (Writes-header k id).at w refl fits
    ∙ (λ i. record { done = header_bytes k id; rest = behind i; ec = no_error })

data_reply_lem :
    (front bytes : List ℕ) (id len k : ℕ)
    → length front ≡ 13
    → length bytes ≡ len
    → k ≤ len
    → data_reply (front ++ bytes) id no_error len k
      ≡ record { done = header_bytes k id; rest = take k bytes; ec = no_error }
unfolding data_reply
data_reply_lem front bytes id len k h d le = elim (Bool-cases (ltb k len)) [
  | inl e ↦
      let below : k < len = ltb→lt k len e in
      let size : 1 + 4 + (4 + len) - (len - k) ≡ 9 + k = omega arith in
      rw e (
        put_header front bytes _ id _ k h size (
          resize_behind (1 + 4 + (4 + len) - (len - k) + 4) k front bytes (omega arith)
            (omega arith)))
  | inr e ↦
      let same : k ≡ len = ground arith in
      rw e (
        put_header front bytes _ id _ k h (omega arith)
          (ap (λ l. front ++ l) (sym (ap (λ j. take j bytes) (same ∙ sym d) ∙ take_all bytes))))
]

module _ {S : Type 0} (is : ErrorCode → Condition → Bool) (message : ErrorCode → List ℕ)
    (h : Handlers S) where
  serve_read_lem :
      (handle : List ℕ) (offset len id k : ℕ) (buffer bytes : List ℕ) (s s' : S)
      → length handle < 2 ^ 32
      → offset < 2 ^ 64
      → len ≤ limit
      → h.read_at handle offset (drop 13 (resize (13 + len) buffer)) s ≡ ((no_error, k, bytes), s')
      → length bytes ≡ len
      → k ≤ len
      → serve_read is message h buffer id no_error
          (str_bytes handle ++ (bytes_u64 offset ++ bytes_u32 len))
          s
        ≡ (if ltb (length buffer) (13 + len) then dangling s else reply (take k bytes) s')
  unfolding serve_read
  serve_read_lem handle offset len id k buffer bytes s s' hh ho hl reads d le =
      let parsed : take_read
            (reader (str_bytes handle ++ (bytes_u64 offset ++ bytes_u32 len)) no_error)
          ≡ ((handle, offset, len), reader [] no_error) =
        rw append-nil at ((Reads-take_read handle offset len hh ho hl).at []) in
      let n : 1 + 4 + (4 + len) + 4 ≡ 13 + len = omega arith in
      let front : length (take 13 (resize (13 + len) buffer)) ≡ 13 =
        length-take 13 (resize (13 + len) buffer)
          (omega (arith, length-resize (13 + len) buffer)) in
      elim (Bool-cases (ltb (length buffer) (13 + len))) [
        | inl grows ↦ rw (parsed, n, grows)
        | inr fits ↦ rw (
          parsed,
          n,
          fits,
          reads,
          data_reply_lem (take 13 (resize (13 + len) buffer)) bytes id len k front d le,
        )
      ]

  -- The worker, with a request to read at most 2^30 bytes: where header and data have no room in the bytes that have
  -- arrived for the packet, the handle that it hands on is a view of memory that may be gone. Where they have
  -- room, and the handler, which is done with its handle before it fills anything, reports that it has
  -- filled the first `k` of the bytes that it is given, the answer is just these `k` bytes: nothing
  -- stands in front of them.
  pub serve_packet-read :
      (handle : List ℕ) (offset len id k : ℕ) (buffer bytes : List ℕ) (s s' : S)
      → length handle < 2 ^ 32
      → offset < 2 ^ 64
      → len ≤ limit
      → id < 2 ^ 32
      → h.read_at handle offset (drop 13 (resize (13 + len) buffer)) s ≡ ((no_error, k, bytes), s')
      → length bytes ≡ len
      → k ≤ len
      → serve_packet is message h buffer
          (drop 4 (packet Fxp.read id (body (read_at_call handle offset len))))
          s
        ≡ (if ltb (length buffer) (13 + len) then dangling s else reply (take k bytes) s')
  unfolding dispatch
  serve_packet-read handle offset len id k buffer bytes s s' hh ho hl hid reads d le =
      serve_packet-packet is message h buffer Fxp.read id (body (read_at_call handle offset len)) s
        (omega arith) hid
      ∙ serve_read_lem handle offset len id k buffer bytes s s' hh ho hl reads d le
