-- ===== src/FileServer/Written.antt =====
-- What `write_at` of the example server writes.
use corosh.Base.{
  ℕ, zero, suc, ◌+◌, ◌%◌, ◌^◌, ◌≤◌, ◌<◌, ◌≡◌, refl, ap, ◌∙◌, List, [], ◌∷◌, some, length, take,
  drop, length-drop, Bool-cases, inl, inr, ◌==◌, if◌then◌else◌, arith,
}
use corosh.Base.Text.{Text}
use corosh.Errors.{ErrorCode, no_error}
use corosh.FileServer.{System, SftpServer, find}
use corosh.FileServer.Handles.{write_at, write_loop}
use corosh.FileServer.Contents.{small}

-- The bytes of a file, by their offsets, once these bytes have been written at an offset.
abbrev pub patch : ℕ → List ℕ → (ℕ → ℕ) → ℕ → ℕ
patch offset [] file i = file i
patch offset (b ∷ bs) file i =
    let rest = patch (suc offset) bs file i in if i == offset then b else rest

patch_at :
    (offset : ℕ) (bs : List ℕ) (f g : ℕ → ℕ) (i : ℕ)
    → f i ≡ g i
    → patch offset bs f i ≡ patch offset bs g i
patch_at offset [] f g i e = e
patch_at offset (b ∷ bs) f g i e =
    ap (λ r. if i == offset then b else r) (patch_at (suc offset) bs f g i e)

patch_below :
    (offset : ℕ) (bs : List ℕ) (f : ℕ → ℕ) (i : ℕ) → i < offset → patch offset bs f i ≡ f i
patch_below offset [] f i h = refl
patch_below offset (b ∷ bs) f i h = ground (arith, patch_below (suc offset) bs f i (omega arith))

-- Two parts, one after the other, are the whole.
patch-patch :
    (offset n : ℕ) (bs : List ℕ) (f : ℕ → ℕ) (i : ℕ)
    → n ≤ length bs
    → patch (offset + n) (drop n bs) (patch offset (take n bs) f) i ≡ patch offset bs f i
patch-patch offset zero bs f i h = ap (λ o. patch o bs f i) (omega arith)
patch-patch offset (suc n) [] f i h = absurd (omega arith)
patch-patch offset (suc n) (b ∷ bs) f i h = elim (Bool-cases (i == offset)) [
  | inl here ↦
      patch_below (offset + suc n) (drop n bs) (patch offset (b ∷ take n bs) f) i (ground arith)
      ∙ rw here
  | inr elsewhere ↦
      patch_at (offset + suc n) (drop n bs) (patch offset (b ∷ take n bs) f)
        (patch (suc offset) (take n bs) f) i (rw elsewhere)
      ∙ ap (λ o. patch o (drop n bs) (patch (suc offset) (take n bs) f) i) (omega arith)
      ∙ patch-patch (suc offset) n bs f i (omega arith)
      ∙ rw elsewhere
]

-- A descriptor of a file, with its bytes in each state: a write of at least one byte succeeds with one of them
-- at least, and puts those that it takes at the offset.
pub record Part {S : Type 0} (bytes : S → ℕ → ℕ) (offset : ℕ) (buffer : List ℕ) (s : S)
    (r : (ErrorCode × ℕ) × S) : Type 0 where
  pub fine : r.0.0 ≡ no_error
  pub some_of : 0 < r.0.1
  pub fits : r.0.1 ≤ length buffer
  pub written : (i : ℕ) → bytes r.1 i ≡ patch offset (take r.0.1 buffer) (bytes s) i

abbrev pub Writable : {S D : Type 0} (sys : System S D) (fd : ℕ) (bytes : S → ℕ → ℕ) → Type 0
Writable {S} sys fd bytes =
    (offset b : ℕ) (bs : List ℕ) (s : S)
    → Part bytes offset (b ∷ bs) s (sys.write_some_at fd offset (b ∷ bs) s)

module _ {S D : Type 0} (sys : System S D) (fd : ℕ) (bytes : S → ℕ → ℕ) where
  abbrev Written : ℕ → ℕ → ℕ → List ℕ → S → Type 0
  Written fuel offset total buffer s =
      (s' : S) × (write_loop sys fuel fd offset total buffer s
        ≡ ((no_error, total + length buffer), s'))
      × ((i : ℕ) → bytes s' i ≡ patch (offset + total) buffer (bytes s) i)

  write_loop_round :
      (fuel offset total b : ℕ) (bs : List ℕ) (s : S) (r : (ErrorCode × ℕ) × S)
      → sys.write_some_at fd ((offset + total) % 2 ^ 64) (b ∷ bs) s ≡ r
      → Part bytes (offset + total) (b ∷ bs) s r
      → ((k : ℕ) (s' : S) → k ≤ length bs → Written fuel offset (total + suc k) (drop k bs) s')
      → Written (suc fuel) offset total (b ∷ bs) s
  unfolding write_loop
  write_loop_round fuel offset total b bs s ((ec, zero), s') called part more =
      absurd (omega (arith, part.some_of))
  write_loop_round fuel offset total b bs s ((ec, suc k), s') called part more =
      let (s'', e, all) = more k s' (omega (arith, part.fits)) in
      (
        s'',
        rw (called, part.fine)
            (e ∙ ap (λ n. ((no_error, n), s'')) (omega (arith, length-drop k bs))),
        λ i.
            all i
            ∙ patch_at (offset + (total + suc k)) (drop k bs) (bytes s') _ i (part.written i)
            ∙ ap (λ o. patch o (drop k bs) (patch (offset + total) (b ∷ take k bs) (bytes s)) i)
                (omega arith)
            ∙ patch-patch (offset + total) (suc k) (b ∷ bs) (bytes s) i (omega (arith, part.fits)),
      )

  write_loop_lem :
      (fuel offset total : ℕ) (buffer : List ℕ) (s : S)
      → Writable sys fd bytes
      → length buffer ≤ fuel
      → offset + total + length buffer ≤ 2 ^ 64
      → Written fuel offset total buffer s
  unfolding write_loop
  write_loop_lem zero offset total [] s h enough range =
      (s, ap (λ n. ((no_error, n), s)) (omega arith), λ i. refl)
  write_loop_lem zero offset total (b ∷ bs) s h enough range = absurd (omega arith)
  write_loop_lem (suc fuel) offset total [] s h enough range =
      (s, ap (λ n. ((no_error, n), s)) (omega arith), λ i. refl)
  write_loop_lem (suc fuel) offset total (b ∷ bs) s h enough range =
      let p = (offset + total) % 2 ^ 64 in
      let e : p ≡ offset + total = small (offset + total) (omega arith) in
      let part = h p b bs s in
      let n = (sys.write_some_at fd p (b ∷ bs) s).0.1 in
      write_loop_round fuel offset total b bs s (sys.write_some_at fd p (b ∷ bs) s) refl
        (record {
          fine = part.fine;
          some_of = part.some_of;
          fits = part.fits;
          written = λ i. part.written i ∙ ap (λ o. patch o (take n (b ∷ bs)) (bytes s) i) e;
        })
        (λ k s' short.
          write_loop_lem fuel offset (total + suc k) (drop k bs) s' h
            (omega (arith, length-drop k bs)) (omega (arith, length-drop k bs)))

-- `write_at` on a handle of the table, whose file can be written, with room for the offsets in 64 bits: with
-- however few bytes each write of the file is content, all bytes are written, from the offset on, and no
-- others; it returns their number without an error, and changes no table.
pub write_at-Writable :
    {S D : Type 0} (sys : System S D) (fd : ℕ) (bytes : S → ℕ → ℕ) (handle : Text) (offset : ℕ)
    (buffer : List ℕ) (f : SftpServer D) (s : S)
    → Writable sys fd bytes
    → find handle f.open_files ≡ some fd
    → offset + length buffer ≤ 2 ^ 64
    → (s' : S) × (write_at sys handle offset buffer (f, s) ≡ ((no_error, length buffer), (f, s')))
      × ((i : ℕ) → bytes s' i ≡ patch offset buffer (bytes s) i)
unfolding write_at
write_at-Writable sys fd bytes handle offset buffer f s h known range =
    let (s', e, all) =
      write_loop_lem sys fd bytes (length buffer) offset 0 buffer s h (omega arith) (omega arith) in
    (
      s',
      rw (write_at, known, e) (ap (λ n. ((no_error, n), (f, s'))) (omega arith)),
      λ i. all i ∙ ap (λ o. patch o buffer (bytes s) i) (omega arith),
    )
