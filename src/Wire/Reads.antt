-- ===== src/Wire/Reads.antt =====
-- What a sequence of `take_` calls returns on the bytes that the matching `put_` calls write.
use corosh.Base.{
  ℕ, ◌+◌, ◌*◌, ◌/◌, ◌%◌, ◌^◌, ◌<◌, ◌≡◌, refl, Bool, true, false, List, [], ◌++◌, append_assoc,
  length, length-append, take-append, drop-append, not_ltb, arith,
}
use corosh.Errors.{no_error}
use corosh.Wire.{
  Take, pure, ◌>>=◌, when, reader, be32, take_u8, take_u32, take_u64, take_str, take_str_of,
  bytes_u8, bytes_u32, bytes_u64,
}
use corosh.Wire.Writes.{optional}

-- `m` returns `a` from the bytes `bs`, and leaves what stands behind them.
pub record Reads {A : Type 0} (m : Take A) (bs : List ℕ) (a : A) : Type 0 where
  pub at : (rest : List ℕ) → m (reader (bs ++ rest) no_error) ≡ (a, reader rest no_error)

pub be32-bytes :
    (v : ℕ)
    → v < 2 ^ 32
    → be32 (v / 2 ^ 24 % 256) (v / 2 ^ 16 % 256) (v / 2 ^ 8 % 256) (v % 256) ≡ v
be32-bytes v h = omega arith

pub Reads-pure : {A : Type 0} (a : A) → Reads (pure a) [] a
unfolding pure
Reads-pure a = record { at = λ rest. refl }

pub Reads-bind :
    {A B : Type 0} {m : Take A} (f : A → Take B) {bs cs : List ℕ} {a : A} {b : B}
    → Reads m bs a
    → Reads (f a) cs b
    → Reads (m >>= f) (bs ++ cs) b
unfolding ◌>>=◌
Reads-bind {m} f {bs} {cs} p q = record {
  at = λ rest. rw (append_assoc bs cs rest, p.at (cs ++ rest)) (q.at rest);
}

pub Reads-take_u8 : (v : ℕ) → v < 256 → Reads take_u8 (bytes_u8 v) v
unfolding take_u8
Reads-take_u8 v h = record { at = λ rest. ground arith }

pub Reads-take_u32 : (v : ℕ) → v < 2 ^ 32 → Reads take_u32 (bytes_u32 v) v
unfolding take_u32
Reads-take_u32 v h = record { at = λ rest. λ i. (be32-bytes v h i, reader rest no_error) }

word64 :
    (v : ℕ)
    → v < 2 ^ 64
    → be32
            (v / 2 ^ 32 / 2 ^ 24 % 256)
            (v / 2 ^ 32 / 2 ^ 16 % 256)
            (v / 2 ^ 32 / 2 ^ 8 % 256)
            (v / 2 ^ 32 % 256)
          * 2 ^ 32
        + be32 (v / 2 ^ 24 % 256) (v / 2 ^ 16 % 256) (v / 2 ^ 8 % 256) (v % 256)
      ≡ v
word64 v h = omega arith

pub Reads-take_u64 : (v : ℕ) → v < 2 ^ 64 → Reads take_u64 (bytes_u64 v) v
unfolding take_u64
Reads-take_u64 v h = record { at = λ rest. λ i. (word64 v h i, reader rest no_error) }

take_str_of-append :
    (s rest : List ℕ)
    → take_str_of (length s) (reader (s ++ rest) no_error) ≡ (s, reader rest no_error)
unfolding take_str_of
take_str_of-append s rest =
    rw (not_ltb (length (s ++ rest)) (length s) (omega (arith, length-append s rest)))
      (λ i. (take-append s rest i, reader (drop-append s rest i) no_error))

pub Reads-take_str : (s : List ℕ) → length s < 2 ^ 32 → Reads take_str (bytes_u32 (length s) ++ s) s
unfolding take_str
Reads-take_str s h =
    Reads-bind take_str_of (Reads-take_u32 (length s) h) (record { at = take_str_of-append s })

-- A field that a flag announces, or the value from before.
pub Reads-when :
    {A : Type 0} {m : Take A} {bs : List ℕ} {a : A} (b : Bool) (d : A)
    → Reads m bs a
    → Reads (when b m d) (optional b bs) (elim b [ true ↦ a | false ↦ d ])
unfolding when
Reads-when true d p = p
Reads-when false d p = record { at = λ rest. refl }

pub Reads-when-false :
    {A : Type 0} (m : Take A) {b : Bool} → b ≡ false → (d : A) → Reads (when b m d) [] d
unfolding when
Reads-when-false m e d = record { at = λ rest. rw e }

-- The rest of a sequence reads no more bytes.
pub Reads-last :
    {A B : Type 0} {m : Take A} (f : A → Take B) {bs : List ℕ} {a : A} {b : B}
    → Reads m bs a
    → Reads (f a) [] b
    → Reads (m >>= f) bs b
unfolding ◌>>=◌
Reads-last {m} f {bs} p q = record { at = λ rest. rw (p.at rest) (q.at rest) }
