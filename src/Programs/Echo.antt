-- ===== src/Programs/Echo.antt =====
-- `echo` of example/server.cpp, which `run_shell` is: what comes from a stream is written back to it.
use corosh.Base.{
  ℕ, ◌≡◌, refl, sym, ap, ◌∙◌, false, Bool-cases, inl, inr, List, [], ◌++◌, append-nil, append_assoc,
  if◌then◌else◌,
}
use corosh.Errors.{ErrorCode, failed}
use corosh.Poll.{Step, ret, again}
use corosh.Poll.Loop.{Rounds, here, next}

-- `read_some` into a buffer of the given size, with the bytes that it has put there, and `capy::write`.
pub record Stream (S : Type 0) : Type 0 where
  pub read_some : ℕ → S → (ErrorCode × List ℕ) × S
  pub write : List ℕ → S → ErrorCode × S

module _ {S : Type 0} (stream : Stream S) where
  unfoldable pub echo : S → Step S ErrorCode
  echo s =
      let ((ec, bytes), s1) = stream.read_some 4096 s in
      if failed ec
      then ret ec s1
      else (let (ec', s2) = stream.write bytes s1 in if failed ec' then ret ec' s2 else again s2)

  -- A stream of bytes: what is read without an error is the front of what comes in, which writing leaves
  -- alone, and what is written without an error goes behind what has gone out, which reading leaves
  -- alone.
  pub record IsStream (incoming outgoing : S → List ℕ) : Type 0 where
    pub read_in_order :
        (n : ℕ) (s : S)
        → failed (stream.read_some n s).0.0 ≡ false
        → (stream.read_some n s).0.1 ++ incoming (stream.read_some n s).1 ≡ incoming s
    pub read_only : (n : ℕ) (s : S) → outgoing (stream.read_some n s).1 ≡ outgoing s
    pub written :
        (bytes : List ℕ) (s : S)
        → failed (stream.write bytes s).0 ≡ false
        → outgoing (stream.write bytes s).1 ≡ outgoing s ++ bytes
    pub write_only : (bytes : List ℕ) (s : S) → incoming (stream.write bytes s).1 ≡ incoming s

  -- A round that goes on has moved some bytes.
  echo_moves :
      {incoming outgoing : S → List ℕ} (is : IsStream incoming outgoing) (s t : S)
      → echo s ≡ again t
      → (bytes : List ℕ) × (bytes ++ incoming t ≡ incoming s) × (outgoing t ≡ outgoing s ++ bytes)
  unfolding echo
  echo_moves {incoming} {outgoing} is s t e =
      elim (Bool-cases (failed (stream.read_some 4096 s).0.0)) [
        | inl bad ↦ absurd (cc (rw bad at e))
        | inr fine ↦
            elim (Bool-cases
              (failed (stream.write (stream.read_some 4096 s).0.1 (stream.read_some 4096 s).1).0)) [
                | inl bad ↦ absurd (cc (rw (fine, bad) at e))
                | inr sent ↦
                    let bytes = (stream.read_some 4096 s).0.1 in
                    let read = (stream.read_some 4096 s).1 in
                    let moved : (stream.write bytes read).1 ≡ t = cc (rw (fine, sent) at e) in
                    (
                      bytes,
                      ap (λ x. bytes ++ incoming x) (sym moved)
                          ∙ ap (λ l. bytes ++ l) (is.write_only bytes read)
                          ∙ is.read_in_order 4096 s fine,
                      ap outgoing (sym moved)
                          ∙ is.written bytes read sent
                          ∙ ap (λ l. l ++ bytes) (is.read_only 4096 s),
                    )
              ]
      ]

  -- However many rounds `echo` has gone, with whatever sizes of reads: what it has written is what it has read,
  -- byte for byte and in order, and nothing else.
  pub echo-Rounds :
      {incoming outgoing : S → List ℕ} (is : IsStream incoming outgoing) {n : ℕ} (s t : S)
      → Rounds echo n s t
      → (bytes : List ℕ) × (bytes ++ incoming t ≡ incoming s) × (outgoing t ≡ outgoing s ++ bytes)
  echo-Rounds {outgoing} is s t (here _) = ([], refl, sym (append-nil (outgoing s)))
  echo-Rounds {incoming} {outgoing} is s t (next {t = u} one more) =
      let (first, taken, sent) = echo_moves is s u one in
      let (others, taken', sent') = echo-Rounds is u t more in
      (
        first ++ others,
        append_assoc first others (incoming t) ∙ ap (λ l. first ++ l) taken' ∙ taken,
        sent' ∙ ap (λ l. l ++ others) sent ∙ append_assoc (outgoing s) first others,
      )
