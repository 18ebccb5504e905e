-- ===== src/Wire/Writes.antt =====
-- What a sequence of `put_` calls leaves in a buffer that has room for all of it.
use corosh.Base.{
  ℕ, ◌+◌, ◌≤◌, ◌≡◌, refl, sym, ap, ◌∙◌, Bool, true, false, List, [], ◌++◌, append-nil, append_assoc,
  length, drop, length-append, length-drop, drop-drop, drop_all, not_ltb, if◌then◌else◌, arith,
}
use corosh.Errors.{no_error, failed}
use corosh.Wire.{
  Writer, emit, put_u8, put_u32, put_u64, put_str, ◌▷◌, start, bytes_u8, bytes_u32, bytes_u64,
}

abbrev pub after : Writer → List ℕ → Writer
after w bs = record { done = w.done ++ bs; rest = drop (length bs) w.rest; ec = w.ec }

-- `f` puts the bytes `bs`, if there was no error and they fit.
pub record Writes (f : Writer → Writer) (bs : List ℕ) : Type 0 where
  pub at : (w : Writer) → failed w.ec ≡ false → length bs ≤ length w.rest → f w ≡ after w bs

pub Writes-emit : (bs : List ℕ) → Writes (emit bs) bs
unfolding emit
Writes-emit bs = record { at = λ w ok fits. rw (ok, not_ltb _ _ fits) }

pub Writes-put_u8 : (v : ℕ) → Writes (put_u8 v) (bytes_u8 v)
unfolding put_u8
Writes-put_u8 v = Writes-emit (bytes_u8 v)

pub Writes-put_u32 : (v : ℕ) → Writes (put_u32 v) (bytes_u32 v)
unfolding put_u32
Writes-put_u32 v = Writes-emit (bytes_u32 v)

pub Writes-put_u64 : (v : ℕ) → Writes (put_u64 v) (bytes_u64 v)
unfolding put_u64
Writes-put_u64 v = Writes-emit (bytes_u64 v)

after-after : (w : Writer) (bs cs : List ℕ) → after (after w bs) cs ≡ after w (bs ++ cs)
after-after w bs cs = λ i. record {
  done = append_assoc w.done bs cs i;
  rest =
      (drop-drop (length bs) (length cs) w.rest
          ∙ ap (λ k. drop k w.rest) (sym (length-append bs cs)))
        i;
  ec = w.ec;
}

pub Writes-▷ :
    {f g : Writer → Writer} {bs cs : List ℕ} → Writes f bs → Writes g cs → Writes (f ▷ g) (bs ++ cs)
Writes-▷ {f} {g} {bs} {cs} p q = record {
  at = λ w ok fits.
      let total : length (bs ++ cs) ≡ length bs + length cs = length-append bs cs in
      rw (p.at w ok (omega arith)) (
        q.at (after w bs) ok (omega (arith, length-drop (length bs) w.rest)) ∙ after-after w bs cs);
}

pub Writes-put_str : (s : List ℕ) → Writes (put_str s) (bytes_u32 (length s) ++ s)
unfolding put_str
Writes-put_str s = Writes-▷ (Writes-put_u32 (length s)) (Writes-emit s)

-- An optional part.
abbrev pub optional : Bool → List ℕ → List ℕ
optional true bs = bs
optional false bs = []

abbrev pub put_if : Bool → (Writer → Writer) → Writer → Writer
put_if b f w = if b then f w else w

pub Writes-skip : Writes (λ w. w) []
Writes-skip = record { at = λ w ok fits. λ i. record w { done = sym (append-nil w.done) i } }

pub Writes-put_if :
    {f : Writer → Writer} {bs : List ℕ} (b : Bool)
    → Writes f bs
    → Writes (put_if b f) (optional b bs)
Writes-put_if true p = p
Writes-put_if false p = Writes-skip

-- Over memory of just the right size, whatever it held before, the buffer then holds the bytes.
pub Writes-memory :
    {f : Writer → Writer} {bs : List ℕ} (m : List ℕ)
    → Writes f bs
    → length m ≡ length bs
    → f (start m) ≡ record { done = bs; rest = []; ec = no_error }
Writes-memory {f} {bs} m p size =
    p.at (start m) refl (omega arith)
    ∙ (λ i. record { done = bs; rest = drop_all (length bs) m (omega arith) i; ec = no_error })

pub ruleset writes_rules = (Writes-put_u8, Writes-put_u32, Writes-put_u64, Writes-put_str, Writes-▷)
