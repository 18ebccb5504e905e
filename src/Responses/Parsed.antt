-- ===== src/Responses/Parsed.antt =====
-- What the classes read from the packets that they expect.
use Prim.Native.Nat.{min}
use mathlib.Core.List.{map}
use corosh.Base.{
  ℕ, suc, ◌^◌, ◌<◌, ◌≡◌, sym, ap, ◌∙◌, true, false, List, [], ◌∷◌, ◌++◌, append-nil, append_assoc,
  ◌==◌, length, take, drop, drop_all, leb, Bool-cases, inl, inr, if◌then◌else◌, arith,
}
use corosh.Errors.{ErrorCode, no_error, sftp_error}
use corosh.Fxp
use corosh.Wire.{reader, bytes_u32}
use corosh.Wire.Reads.{Reads, Reads-bind, Reads-last, Reads-pure, Reads-take_u32, Reads-take_str}
use corosh.Attributes.{has, attr_extended}
use corosh.Attributes.Bytes.{attrs_bytes, InRange, on_wire, Reads-take_attrs}
use corosh.Requests.Packets.{str_bytes}
use corosh.Responses.{
  Status, Entry, DirEntry, complete_status, complete_dir_entry, complete_data, DataRead,
  take_entries, take_entry, take_both, take_texts,
}

-- The body of an SSH_FXP_STATUS.
abbrev pub status_body : ℕ → List ℕ → List ℕ → List ℕ
status_body error message language_tag =
    bytes_u32 error ++ (str_bytes message ++ str_bytes language_tag)

Reads-take_both :
    (m l : List ℕ)
    → length m < 2 ^ 32
    → length l < 2 ^ 32
    → Reads take_both (str_bytes m ++ str_bytes l) (m, l)
unfolding take_both
Reads-take_both m l hm hl =
    Reads-bind _ (Reads-take_str m hm) (Reads-last _ (Reads-take_str l hl) (Reads-pure (m, l)))

read_both :
    (m l : List ℕ)
    → length m < 2 ^ 32
    → length l < 2 ^ 32
    → take_both (reader (str_bytes m ++ str_bytes l) no_error) ≡ ((m, l), reader [] no_error)
read_both m l hm hl = rw append-nil at ((Reads-take_both m l hm hl).at [])

read_texts :
    (m l : List ℕ)
    → length m < 2 ^ 32
    → length l < 2 ^ 32
    → take_texts (reader (str_bytes m ++ str_bytes l) no_error) ≡ reader [] no_error
unfolding take_texts
read_texts m l hm hl = ap (λ t. t.1) (read_both m l hm hl)

-- A status packet with any number, message and language tag (of lengths that fit 32 bits) completes the
-- response; its code is that number in the SFTP category, or success if it is SSH_FX_OK.
pub complete_status-status_body :
    (error : ℕ) (message language_tag : List ℕ) (r : Status)
    → error < 2 ^ 32
    → length message < 2 ^ 32
    → length language_tag < 2 ^ 32
    → complete_status no_error Fxp.status (status_body error message language_tag) r
      ≡ record { completed = true; ec = if error == 0 then no_error else sftp_error error }
unfolding complete_status
complete_status-status_body error message language_tag r he hm hl =
    rw
      (
        (Reads-take_u32 error he).at (str_bytes message ++ str_bytes language_tag),
        read_texts message language_tag hm hl,
      )
      (ground arith)

drop-min : (n : ℕ) (xs : List ℕ) → drop (min n (length xs)) xs ≡ drop n xs
drop-min n xs = elim (Bool-cases (leb n (length xs))) [
  | inl e ↦ ap (λ k. drop k xs) (ground arith)
  | inr e ↦ drop_all _ xs (ground arith) ∙ sym (drop_all n xs (ground arith))
]

-- A data packet, of a length that fits 32 bits, fills the front of the caller's buffer, as far
-- as both reach, and leaves the rest of it alone; the count is the number of bytes copied.
pub complete_data-str_bytes :
    (eof : ErrorCode) (bytes : List ℕ) (r : DataRead)
    → length bytes < 2 ^ 32
    → complete_data eof no_error Fxp.data_reply (str_bytes bytes) r ≡ record {
      completed = true;
      ec = no_error;
      dest = take (min (length bytes) (length r.dest)) bytes ++ drop (length bytes) r.dest;
      n = min (length bytes) (length r.dest);
    }
unfolding complete_data
complete_data-str_bytes eof bytes r h = rw (rw append-nil at ((Reads-take_str bytes h).at [])) (λ i.
    record {
      completed = true;
      ec = no_error;
      dest = take (min (length bytes) (length r.dest)) bytes ++ drop-min (length bytes) r.dest i;
      n = min (length bytes) (length r.dest);
    })

-- One file of a directory on the wire, and all of them.
abbrev pub entry_bytes : Entry → List ℕ
entry_bytes e = str_bytes e.name ++ (str_bytes e.long_name ++ attrs_bytes e.attr)

abbrev pub entries_bytes : List Entry → List ℕ
entries_bytes [] = []
entries_bytes (e ∷ es) = entry_bytes e ++ entries_bytes es

-- An entry that the protocol can carry.
pub record Fits (e : Entry) : Type 0 where
  pub name : length e.name < 2 ^ 32
  pub long_name : length e.long_name < 2 ^ 32
  pub attr : InRange e.attr
  pub plain : has e.attr.flags attr_extended ≡ false

abbrev pub All {ℓ} : {A : Type ℓ} → (A → Type 0) → List A → Type 0
All P [] = Unit {0}
All P (x ∷ xs) = P x × All P xs

abbrev pub entry_on_wire : Entry → Entry
entry_on_wire e = record e { attr = on_wire e.attr }

Reads-take_entry : (e : Entry) → Fits e → Reads take_entry (entry_bytes e) (entry_on_wire e)
unfolding take_entry
Reads-take_entry e h = Reads-bind _ (Reads-take_str e.name h.name) (
    Reads-bind _ (Reads-take_str e.long_name h.long_name)
      (Reads-last _ (Reads-take_attrs e.attr h.attr h.plain) (Reads-pure (entry_on_wire e))))

take_entries-entries_bytes :
    (es acc : List Entry)
    → All Fits es
    → take_entries (length es) acc (reader (entries_bytes es) no_error)
      ≡ (acc ++ map entry_on_wire es, reader [] no_error)
unfolding take_entries
take_entries-entries_bytes [] acc h = ap (λ l. (l, reader [] no_error)) (sym (append-nil acc))
take_entries-entries_bytes (e ∷ es) acc h = rw ((Reads-take_entry e h.0).at (entries_bytes es)) (
    take_entries-entries_bytes es (acc ++ entry_on_wire e ∷ []) h.1
    ∙ ap (λ l. (l, reader [] no_error))
        (append_assoc acc (entry_on_wire e ∷ []) (map entry_on_wire es)))

-- A name packet with at least one and less than 2^32 entries, each one that the protocol can
-- carry, appends all entries in order to the buffer of the directory, with their attributes as
-- far as the flags announce them.
pub complete_dir_entry-entries_bytes :
    (es : List Entry) (r : DirEntry)
    → 0 < length es
    → length es < 2 ^ 32
    → All Fits es
    → complete_dir_entry no_error Fxp.name (bytes_u32 (length es) ++ entries_bytes es) r
      ≡ record { completed = true; ec = no_error; entries = r.entries ++ map entry_on_wire es }
unfolding complete_dir_entry
complete_dir_entry-entries_bytes [] r some_entry short h = absurd (omega arith)
complete_dir_entry-entries_bytes (e ∷ es) r some_entry short h =
    let nonzero : (suc (length es) == 0) ≡ false = ground arith in
    rw (
      (Reads-take_u32 (length (e ∷ es)) short).at (entries_bytes (e ∷ es)),
      nonzero,
      take_entries-entries_bytes (e ∷ es) r.entries h,
    )
