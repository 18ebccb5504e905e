-- ===== src/FileServer/Tables.antt =====
-- The tables of the example server, and the handles in them: a number is told from its digits, and from the
-- handle of a directory.
use corosh.Base.{
  same_bytes_sound, ℕ, zero, suc, ◌+◌, ◌-◌, ◌*◌, ◌/◌, ◌%◌, ◌≤◌, ◌<◌, ◌≡◌, ◌≢◌, refl, sym, ap, ◌∙◌,
  inl, inr, true, false, Bool-cases, List, [], ◌∷◌, ◌++◌, none, some, same_bytes, ltb, length, drop,
  drop-append, arith,
}
use corosh.Base.Text.{Text}
use corosh.FileServer.{find, emplace, erase, digits, to_string}

-- The number that decimal digits write.
value : ℕ → Text → ℕ
value n [] = n
value n (d ∷ ds) = value (n * 10 + (d - 48)) ds

value-append : (n : ℕ) (a b : Text) → value n (a ++ b) ≡ value (value n a) b
unfolding value
value-append n [] b = refl
value-append n (d ∷ a) b = value-append (n * 10 + (d - 48)) a b

digits_short : (fuel n : ℕ) → ltb n 10 ≡ true → digits (suc fuel) n ≡ (48 + n) ∷ []
digits_short fuel n h = rw (digits, h)

digits_long :
    (fuel n : ℕ)
    → ltb n 10 ≡ false
    → digits (suc fuel) n ≡ digits fuel (n / 10) ++ (48 + n % 10) ∷ []
digits_long fuel n h = rw (digits, h)

value-digits : (fuel n : ℕ) → n < fuel → value 0 (digits fuel n) ≡ n
unfolding value
value-digits zero n h = absurd (omega arith)
value-digits (suc fuel) n h = elim (Bool-cases (ltb n 10)) [
  | inl short ↦ ap (value 0) (digits_short fuel n short) ∙ omega arith
  | inr long ↦
      let enough : n / 10 < fuel = ground arith in
      ap (value 0) (digits_long fuel n long)
      ∙ value-append 0 (digits fuel (n / 10)) ((48 + n % 10) ∷ [])
      ∙ ap (λ m. m * 10 + ((48 + n % 10) - 48)) (value-digits fuel (n / 10) enough)
      ∙ omega arith
]

to_string-value : (n : ℕ) → value 0 (to_string n) ≡ n
unfolding to_string
to_string-value n = value-digits (suc n) n (omega arith)

-- A digit stands in front of a number: no handle of a directory does.
StartsBelow : ℕ → Text → Type 0
StartsBelow n [] = Unit
StartsBelow n (c ∷ cs) = c < n

StartsBelow-append : (n c : ℕ) (a : Text) → StartsBelow n a → c < n → StartsBelow n (a ++ c ∷ [])
unfolding StartsBelow
StartsBelow-append n c [] h less = less
StartsBelow-append n c (d ∷ a) h less = h

digits-StartsBelow : (fuel n : ℕ) → StartsBelow 58 (digits fuel n)
unfolding StartsBelow
digits-StartsBelow zero n = tt
digits-StartsBelow (suc fuel) n = elim (Bool-cases (ltb n 10)) [
  | inl short ↦ rw (digits_short fuel n short) (ground arith)
  | inr long ↦ rw (digits_long fuel n long) (
      StartsBelow-append 58 (48 + n % 10) (digits fuel (n / 10)) (digits-StartsBelow fuel (n / 10))
        (omega arith))
]

to_string-StartsBelow : (n : ℕ) → StartsBelow 58 (to_string n)
unfolding to_string
to_string-StartsBelow n = digits-StartsBelow (suc n) n

pub no_letter : (n : ℕ) (t : Text) → to_string n ≢ 100 ∷ t
unfolding StartsBelow
no_letter n t e =
    let h : StartsBelow 58 (100 ∷ t) = rw e at (to_string-StartsBelow n) in omega (arith, h)

-- The handles of a table, with the letter in front, bear the numbers given out so far.
unfoldable pub Made : {V : Type 0} → Text → ℕ → List (Text × V) → Type 0
Made letter handle_gen [] = Unit
Made letter handle_gen ((key, v) ∷ rest) =
    ((n : ℕ) × (n ≤ handle_gen) × (key ≡ letter ++ to_string n)) × Made letter handle_gen rest

same_number : (letter : Text) (n m : ℕ) → letter ++ to_string n ≡ letter ++ to_string m → n ≡ m
same_number letter n m e =
    sym (to_string-value n)
    ∙ ap (value 0) (
        sym (drop-append letter (to_string n))
        ∙ ap (drop (length letter)) e
        ∙ drop-append letter (to_string m))
    ∙ to_string-value m

module _ {V : Type 0} where
  pub find_foreign :
      (letter key : Text) (handle_gen : ℕ) (table : List (Text × V))
      → Made letter handle_gen table
      → ((n : ℕ) → n ≤ handle_gen → key ≢ letter ++ to_string n)
      → find key table ≡ none
  unfolding Made
  find_foreign letter key handle_gen [] made foreign = refl
  find_foreign letter key handle_gen ((k, v) ∷ rest) ((n, bound, e), made) foreign =
      elim (Bool-cases (same_bytes k key)) [
        | inl same ↦ absurd (foreign n bound (sym (same_bytes_sound k key same) ∙ e))
        | inr other ↦ rw other (find_foreign letter key handle_gen rest made foreign)
      ]

  pub find-Made :
      (letter key : Text) (handle_gen : ℕ) (table : List (Text × V)) (v : V)
      → Made letter handle_gen table
      → find key table ≡ some v
      → (n : ℕ) × (key ≡ letter ++ to_string n)
  unfolding Made
  find-Made letter key handle_gen [] v made e = cc
  find-Made letter key handle_gen ((k, v') ∷ rest) v ((n, bound, p), made) e =
      elim (Bool-cases (same_bytes k key)) [
        | inl same ↦ (n, sym (same_bytes_sound k key same) ∙ p)
        | inr other ↦ find-Made letter key handle_gen rest v made (rw other at e)
      ]

  pub Made-weaken :
      (letter : Text) (small large : ℕ) (table : List (Text × V))
      → small ≤ large
      → Made letter small table
      → Made letter large table
  unfolding Made
  Made-weaken letter small large [] h made = tt
  Made-weaken letter small large ((k, v) ∷ rest) h ((n, bound, e), made) =
      ((n, omega arith, e), Made-weaken letter small large rest h made)

  pub Made-erase :
      (letter key : Text) (handle_gen : ℕ) (table : List (Text × V))
      → Made letter handle_gen table
      → Made letter handle_gen (erase key table)
  unfolding Made
  Made-erase letter key handle_gen [] made = tt
  Made-erase letter key handle_gen ((k, v) ∷ rest) (one, made) =
      elim (Bool-cases (same_bytes k key)) [
        | inl same ↦ rw same (Made-erase letter key handle_gen rest made)
        | inr other ↦ rw other (one, Made-erase letter key handle_gen rest made)
      ]

  pub find-erase : (key : Text) (table : List (Text × V)) → find key (erase key table) ≡ none
  find-erase key [] = refl
  find-erase key ((k, v) ∷ rest) = elim (Bool-cases (same_bytes k key)) [
    | inl same ↦ rw same (find-erase key rest)
    | inr other ↦ rw (other, find) (rw other (find-erase key rest))
  ]

  pub new_entry :
      (letter : Text) (handle_gen : ℕ) (table : List (Text × V)) (v : V)
      → Made letter handle_gen table
      → (find (letter ++ to_string (suc handle_gen)) table ≡ none)
        × (emplace (letter ++ to_string (suc handle_gen)) v table
            ≡ (letter ++ to_string (suc handle_gen), v) ∷ table)
        × Made letter (suc handle_gen) ((letter ++ to_string (suc handle_gen), v) ∷ table)
  unfolding Made
  new_entry letter handle_gen table v made =
      let absent : find (letter ++ to_string (suc handle_gen)) table ≡ none =
        find_foreign letter _ handle_gen table made
          (λ n bound e. absurd (omega (arith, same_number letter (suc handle_gen) n e))) in
      (
        absent,
        rw (emplace, absent),
        (
          (suc handle_gen, omega arith, refl),
          Made-weaken letter handle_gen (suc handle_gen) table (omega arith) made,
        ),
      )
