-- ===== src/Responses/Failures.antt =====
-- What the six classes make of an error, and of a packet that they did not ask for.
use mathlib.Core.Bool.{Bool, true, false, ◌||◌}
use corosh.Base.{if_same, ℕ, zero, suc, ◌≡◌, refl, List, [], ◌∷◌, ◌==◌}
use corosh.Errors.{ErrorCode, no_error, failed, bad_message}
use corosh.Fxp
use corosh.Wire.{take_u32, take_str, reader, ◌>>=◌, pure}
use corosh.Responses.{
  Response, status, handle, dir_entry, data_read, attrs, name, complete, completed, code_of,
  complete_status, complete_handle, complete_dir_entry, complete_data, complete_attrs,
  complete_name, take_names, take_first_name, take_entries, take_texts, take_both, Entry,
}

-- With an error set no byte is read.
pub take_u32-failed :
    (buf : List ℕ) (ec : ErrorCode)
    → failed ec ≡ true
    → take_u32 (reader buf ec) ≡ (0, reader buf ec)
unfolding take_u32
take_u32-failed buf ec h = rw h

pub take_str-failed :
    (buf : List ℕ) (ec : ErrorCode)
    → failed ec ≡ true
    → take_str (reader buf ec) ≡ ([], reader buf ec)
unfolding take_str ◌>>=◌
take_str-failed buf ec h = rw (take_u32-failed buf ec h, h)

take_texts-failed :
    (buf : List ℕ) (ec : ErrorCode) → failed ec ≡ true → take_texts (reader buf ec) ≡ reader buf ec
unfolding take_texts take_both ◌>>=◌ pure
take_texts-failed [] ec h = refl
take_texts-failed (b ∷ buf) ec h =
    rw (take_texts, take_both, take_str-failed (b ∷ buf) ec h, take_str-failed (b ∷ buf) ec h) refl

take_entries-failed :
    (n : ℕ) (entries : List Entry) (buf : List ℕ) (ec : ErrorCode)
    → failed ec ≡ true
    → take_entries n entries (reader buf ec) ≡ (entries, reader buf ec)
unfolding take_entries
take_entries-failed zero entries buf ec h = refl
take_entries-failed (suc n) entries buf ec h = rw h

take_names-failed :
    (entries : List Entry) (buf : List ℕ) (ec : ErrorCode)
    → failed ec ≡ true
    → take_names entries (reader buf ec) ≡ (entries, reader buf ec)
unfolding take_names
take_names-failed entries buf ec h =
    rw (take_u32-failed buf ec h, h) (take_entries-failed 0 entries buf ec h)

take_first_name-failed :
    (buf : List ℕ) (ec : ErrorCode)
    → failed ec ≡ true
    → take_first_name (reader buf ec) ≡ ([], reader buf ec)
unfolding take_first_name
take_first_name-failed buf ec h = rw (take_u32-failed buf ec h, h) (take_str-failed buf ec h)

-- An error that is handed to `complete` becomes the code of the response, which is completed, whatever the
-- class, the packet's type and the payload.
pub complete-failed :
    (eof ec : ErrorCode) (type : ℕ) (payload : List ℕ) (r : Response)
    → failed ec ≡ true
    → (completed (complete eof ec type payload r) ≡ true)
      × (code_of (complete eof ec type payload r) ≡ ec)
unfolding complete
complete-failed eof ec type payload (status r) h =
    unfold complete_status in
    simp (h, take_u32-failed payload ec h, take_texts-failed payload ec h) (refl, refl)
complete-failed eof ec type payload (handle r) h =
    unfold complete_handle in simp (h, take_str-failed payload ec h) (refl, refl)
complete-failed eof ec type payload (dir_entry r) h =
    unfold complete_dir_entry in simp (h, take_names-failed r.entries payload ec h) (refl, refl)
complete-failed eof ec type payload (data_read r) h =
    unfold complete_data in simp (h, take_str-failed payload ec h) (refl, refl)
complete-failed eof ec type payload (attrs r) h = unfold complete_attrs in simp h (refl, refl)
complete-failed eof ec type payload (name r) h =
    unfold complete_name in
    simp (h, take_str-failed payload ec h, take_first_name-failed payload ec h, if_same)
      (refl, refl)

-- The packet types that a class parses.
abbrev pub expects : Response → ℕ → Bool
expects (status r) type = type == Fxp.status
expects (handle r) type = (type == Fxp.status) || (type == Fxp.handle)
expects (dir_entry r) type = (type == Fxp.status) || (type == Fxp.name)
expects (data_read r) type = (type == Fxp.status) || (type == Fxp.data_reply)
expects (attrs r) type = (type == Fxp.status) || (type == Fxp.attrs)
expects (name r) type = (type == Fxp.status) || (type == Fxp.name) || (type == Fxp.extended_reply)

both_false : (a b : Bool) → (a || b) ≡ false → (a ≡ false) × (b ≡ false)
both_false true b h = cc
both_false false b h = (refl, h)

-- A packet of a type that the class does not parse completes the response with "bad message", whatever
-- the payload.
pub complete_unexpected :
    (eof : ErrorCode) (type : ℕ) (payload : List ℕ) (r : Response)
    → expects r type ≡ false
    → (completed (complete eof no_error type payload r) ≡ true)
      × (code_of (complete eof no_error type payload r) ≡ bad_message)
unfolding complete
complete_unexpected eof type payload (status r) h =
    unfold complete_status in
    simp (h, take_u32-failed payload bad_message refl, take_texts-failed payload bad_message refl)
      (refl, refl)
complete_unexpected eof type payload (handle r) h =
    let (s, t) = both_false (type == Fxp.status) _ h in
    unfold complete_handle in simp (s, t, take_str-failed payload bad_message refl) (refl, refl)
complete_unexpected eof type payload (dir_entry r) h =
    let (s, t) = both_false (type == Fxp.status) _ h in
    unfold complete_dir_entry in
    simp (s, t, take_names-failed r.entries payload bad_message refl) (refl, refl)
complete_unexpected eof type payload (data_read r) h =
    let (s, t) = both_false (type == Fxp.status) _ h in
    unfold complete_data in simp (s, t, take_str-failed payload bad_message refl) (refl, refl)
complete_unexpected eof type payload (attrs r) h =
    let (s, t) = both_false (type == Fxp.status) _ h in
    unfold complete_attrs in simp (s, t) (refl, refl)
complete_unexpected eof type payload (name r) h =
    let (st, x) = both_false ((type == Fxp.status) || (type == Fxp.name)) _ h in
    let (s, t) = both_false (type == Fxp.status) _ st in
    unfold complete_name in simp (s, t, x, take_str-failed payload bad_message refl) (refl, refl)
