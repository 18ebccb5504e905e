-- ===== src/FileServer/Contents.antt =====
-- What `read_at` of the example server reads.
use corosh.Base.{
  ℕ, zero, suc, ◌+◌, ◌-◌, ◌%◌, ◌^◌, ◌≤◌, ◌<◌, ◌≡◌, refl, sym, ap, ◌∙◌, List, [], ◌∷◌, ◌++◌, some,
  length, take, drop, length-append, length-drop, drop-drop, append_assoc, arith,
}
use corosh.Errors.{ErrorCode, no_error}
use corosh.Base.Text.{Text}
use corosh.FileServer.{System, SftpServer, find}
use corosh.FileServer.Handles.{read_at, read_loop}

-- Some of the bytes at the front of what is there, no more than are asked for.
pub record Chunk (size : ℕ) (content : List ℕ) (bytes : List ℕ) : Type 0 where
  pub count : ℕ
  pub some_of : 0 < count
  pub fits : count ≤ size
  pub bytes_are : bytes ≡ take count content

-- A descriptor of a file with this content: a read of at least one byte gives, without an error, some of the
-- bytes from the offset on, and none only at the end.
abbrev pub Readable : {S D : Type 0} (sys : System S D) (fd : ℕ) (content : List ℕ) → Type 0
Readable {S} sys fd content =
    (offset size : ℕ) (s : S)
    → 0 < size
    → (((sys.read_some_at fd offset size s).0).0 ≡ no_error)
      × Chunk size (drop offset content) ((sys.read_some_at fd offset size s).0).1

take-nil : (n : ℕ) → ◌≡◌ {A = List ℕ} (take n []) []
take-nil zero = refl
take-nil (suc n) = refl

take_split :
    (k : ℕ) (size : ℕ) (d : List ℕ)
    → k ≤ size
    → take size d ≡ take k d ++ take (size - length (take k d)) (drop (length (take k d)) d)
take_split zero size d h = ap (λ k. take k d) (omega arith)
take_split (suc k) zero d h = absurd (omega arith)
take_split (suc k) (suc size) [] h = sym (take-nil (suc size - 0))
take_split (suc k) (suc size) (x ∷ d) h = ap (◌∷◌ x) (
    take_split k size d (omega arith)
    ∙ ap (λ n. take k d ++ take n (drop (length (take k d)) d)) (omega arith))

pub length-take_le : (k : ℕ) (d : List ℕ) → length (take k d) ≤ k
length-take_le zero d = omega arith
length-take_le (suc k) [] = omega arith
length-take_le (suc k) (x ∷ d) = omega (arith, length-take_le k d)

no_chunk : (k size : ℕ) (d : List ℕ) → 0 < k → take k d ≡ [] → take size d ≡ []
no_chunk zero size d h e = absurd (omega arith)
no_chunk (suc k) zero [] h e = refl
no_chunk (suc k) (suc size) [] h e = refl
no_chunk (suc k) size (x ∷ d) h e = cc

pub small : (a : ℕ) → a < 2 ^ 64 → a % 2 ^ 64 ≡ a
small a h = omega arith

module _ {S D : Type 0} (sys : System S D) (fd : ℕ) (content : List ℕ) where
  -- What fills the front of a buffer of that size, and the buffer then.
  abbrev pub part : ℕ → ℕ → List ℕ
  part offset size = take size (drop offset content)

  abbrev pub filled : ℕ → List ℕ → List ℕ
  filled offset buffer = let x = part offset (length buffer) in x ++ drop (length x) buffer

  abbrev Filled : ℕ → ℕ → ℕ → List ℕ → S → Type 0
  Filled fuel offset total buffer s =
      (s' : S) × (read_loop sys fuel fd offset total buffer s ≡ (
        (
          no_error,
          total + length (part (offset + total) (length buffer)),
          filled (offset + total) buffer,
        ),
        s',
      ))

  part_split :
      (p k size : ℕ)
      → k ≤ size
      → part p size ≡ part p k ++ part (p + length (part p k)) (size - length (part p k))
  part_split p k size h =
      take_split k size (drop p content) h
      ∙ ap (λ d. part p k ++ take (size - length (part p k)) d)
          (drop-drop p (length (part p k)) content)

  -- The result of a round that goes on, by that of the rounds after it.
  joined :
      (total : ℕ) (x y z buffer : List ℕ)
      → z ≡ x ++ y
      → ◌≡◌ {A = ErrorCode × ℕ × List ℕ}
          (
            no_error,
            total + length x + length y,
            x ++ (y ++ drop (length y) (drop (length x) buffer)),
          )
          (no_error, total + length z, z ++ drop (length z) buffer)
  joined total x y z buffer e =
      let count : total + length x + length y ≡ total + length z =
        rw e (omega (arith, length-append x y)) in
      let rest : drop (length y) (drop (length x) buffer) ≡ drop (length z) buffer =
        drop-drop (length x) (length y) buffer
        ∙ ap (λ n. drop n buffer) (rw e (sym (length-append x y))) in
      rw (count, rest, e)
        (ap (λ m. (no_error, total + length (x ++ y), m)) (sym (append_assoc x y _)))

  read_loop_step :
      (fuel offset total b : ℕ) (bs : List ℕ) (s s' : S) (k c : ℕ) (cs : List ℕ)
      → sys.read_some_at fd ((offset + total) % 2 ^ 64) (suc (length bs)) s
        ≡ ((no_error, c ∷ cs), s')
      → c ∷ cs ≡ part (offset + total) k
      → k ≤ suc (length bs)
      → length (c ∷ cs) ≤ suc (length bs)
      → Filled fuel offset (total + length (c ∷ cs)) (drop (length cs) bs) s'
      → Filled (suc fuel) offset total (b ∷ bs) s
  unfolding read_loop
  read_loop_step fuel offset total b bs s s' k c cs called bytes short fits (s'', e) =
      let x = c ∷ cs in
      let y = part (offset + (total + length x)) (length (drop (length x) (b ∷ bs))) in
      let split : part (offset + total) (suc (length bs)) ≡ x ++ y =
        part_split (offset + total) k (suc (length bs)) short
        ∙ rw (← bytes) (
            ap (λ m. x ++ m)
              (rw (length-drop (length x) (b ∷ bs))
                (ap (λ p. part p (suc (length bs) - length x)) (omega arith)))) in
      (
        s'',
        rw (called, e)
            (ap (λ r. (r, s''))
              (joined total x y (part (offset + total) (suc (length bs))) (b ∷ bs) split)),
      )

  read_loop_end :
      (fuel offset total b : ℕ) (bs : List ℕ) (s s' : S) (k : ℕ)
      → sys.read_some_at fd ((offset + total) % 2 ^ 64) (suc (length bs)) s ≡ ((no_error, []), s')
      → [] ≡ part (offset + total) k
      → 0 < k
      → Filled (suc fuel) offset total (b ∷ bs) s
  unfolding read_loop
  read_loop_end fuel offset total b bs s s' k called bytes some_of =
      let nothing : part (offset + total) (suc (length bs)) ≡ [] =
        no_chunk k (suc (length bs)) (drop (offset + total) content) some_of (sym bytes) in
      (s', rw (called, nothing) (ap (λ n. ((no_error, n, b ∷ bs), s')) (omega arith)))

  read_loop_round :
      (fuel offset total b : ℕ) (bs : List ℕ) (s : S) (k : ℕ) (r : (ErrorCode × List ℕ) × S)
      → sys.read_some_at fd ((offset + total) % 2 ^ 64) (suc (length bs)) s ≡ r
      → r.0.0 ≡ no_error
      → r.0.1 ≡ part (offset + total) k
      → 0 < k
      → k ≤ suc (length bs)
      → ((t : ℕ) (rest : List ℕ) (s' : S)
          → length rest ≤ length bs
          → t + length rest ≡ total + suc (length bs)
          → Filled fuel offset t rest s')
      → Filled (suc fuel) offset total (b ∷ bs) s
  read_loop_round fuel offset total b bs s k ((ec, []), s') called fine bytes some_of short more =
      read_loop_end fuel offset total b bs s s' k (called ∙ ap (λ c. ((c, []), s')) fine) bytes
        some_of
  read_loop_round fuel offset total b bs s k ((ec, c ∷ cs), s') called fine bytes some_of short
        more =
      let fits : length (c ∷ cs) ≤ suc (length bs) =
        omega (arith, ap (λ l. length l) bytes, length-take_le k (drop (offset + total) content)) in
      read_loop_step fuel offset total b bs s s' k c cs (called ∙ ap (λ e. ((e, c ∷ cs), s')) fine)
        bytes short fits
        (more (total + length (c ∷ cs)) (drop (length cs) bs) s'
          (omega (arith, length-drop (length cs) bs)) (omega (arith, length-drop (length cs) bs)))

  read_loop_lem :
      (fuel offset total : ℕ) (buffer : List ℕ) (s : S)
      → Readable sys fd content
      → length buffer ≤ fuel
      → offset + total + length buffer ≤ 2 ^ 64
      → Filled fuel offset total buffer s
  unfolding read_loop
  read_loop_lem zero offset total [] s h enough range =
      (s, ap (λ n. ((no_error, n, []), s)) (omega arith))
  read_loop_lem zero offset total (b ∷ bs) s h enough range = absurd (omega arith)
  read_loop_lem (suc fuel) offset total [] s h enough range =
      (s, ap (λ n. ((no_error, n, []), s)) (omega arith))
  read_loop_lem (suc fuel) offset total (b ∷ bs) s h enough range =
      let p = (offset + total) % 2 ^ 64 in
      let e : p ≡ offset + total = small (offset + total) (omega arith) in
      let r = h p (suc (length bs)) s (omega arith) in
      let chunk = r.1 in
      read_loop_round fuel offset total b bs s chunk.count _ refl r.0
        (chunk.bytes_are ∙ ap (λ q. part q chunk.count) e) chunk.some_of chunk.fits
        (λ t rest s' short same. read_loop_lem fuel offset t rest s' h (omega arith) (omega arith))

  read_loop_start :
      (offset : ℕ) (buffer : List ℕ) (s : S)
      → Readable sys fd content
      → offset + length buffer ≤ 2 ^ 64
      → (s' : S) × (read_loop sys (length buffer) fd offset 0 buffer s
          ≡ ((no_error, length (part offset (length buffer)), filled offset buffer), s'))
  read_loop_start offset buffer s h range =
      let (s', e) = read_loop_lem (length buffer) offset 0 buffer s h (omega arith) (omega arith) in
      (
        s',
        e
            ∙ ap (λ n. ((no_error, n, filled (offset + 0) buffer), s')) (omega arith)
            ∙ ap (λ p. ((no_error, length (part p (length buffer)), filled p buffer), s'))
                (omega arith),
      )

-- `read_at` on a handle of the table, whose file has this content, with room for the offsets in 64 bits: with
-- however few bytes each read of the file comes back, it fills the front of the buffer with the bytes
-- from the offset on, as far as buffer and file reach, returns their number without an error, leaves the
-- rest of the buffer alone, and changes no table.
pub read_at-Readable :
    {S D : Type 0} (sys : System S D) (fd : ℕ) (content : List ℕ) (handle : Text) (offset : ℕ)
    (buffer : List ℕ) (f : SftpServer D) (s : S)
    → Readable sys fd content
    → find handle f.open_files ≡ some fd
    → offset + length buffer ≤ 2 ^ 64
    → (s' : S) × (read_at sys handle offset buffer (f, s) ≡ (
      (
        no_error,
        length (take (length buffer) (drop offset content)),
        take (length buffer) (drop offset content)
            ++ drop (length (take (length buffer) (drop offset content))) buffer,
      ),
      (f, s'),
    ))
unfolding read_at
read_at-Readable sys fd content handle offset buffer f s h known range =
    let (s', e) = read_loop_start sys fd content offset buffer s h range in
    (s', rw (read_at, known, e))
