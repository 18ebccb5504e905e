-- ===== src/Options/Received.antt =====
-- What libssh finds behind the pointers that the option types give it.
use corosh.Base.{
  ℕ, ◌^◌, ◌<◌, ◌≡◌, refl, Bool, true, false, not, ◌==◌, List, [], ◌∷◌, Option, none, some,
  if◌then◌else◌, length, arith,
}
use corosh.Base.Host.{
  Endian, little, big, object_bytes, object_value, length-object_bytes, object_value-object_bytes,
}
use corosh.Base.Text.{Text}
use corosh.Options.Kinds.{
  Template, cstring_option, unsigned_int_option, int_option, long_option, uint64_option,
  uint32_option, bool_option, key_option, Argument, Member, size_of, construct, value, Pointee,
  characters, object, pointee, CType, const_char_pointer, unsigned_int_pointer, int_pointer,
  long_pointer, uint64_pointer, uint32_pointer, bool_pointer, ssh_key, stored,
}
use corosh.Options.Kinds as K

-- What a reader takes from behind a pointer.
pub data Reading : Type 0 where
  text : Text → Reading
  number : ℕ → Reading
  truth : Bool → Reading
  key : ℕ → Reading

-- An object is read whole, but a `bool` has one byte.
abbrev number_in : Endian → ℕ → Pointee → Option Reading
number_in host size (object bytes) =
    if length bytes == size then some (number (object_value host bytes)) else none
number_in host size (characters t) = none
number_in host size (K.key k) = none

abbrev first_truth : List ℕ → Option Reading
first_truth [] = none
first_truth (b ∷ bytes) = some (truth (not (b == 0)))

-- Reading what is of the given type.
pub read_as : Endian → CType → Pointee → Option Reading
read_as host const_char_pointer (characters t) = some (text t)
read_as host const_char_pointer (object bytes) = none
read_as host const_char_pointer (K.key k) = none
read_as host ssh_key (K.key k) = some (key k)
read_as host ssh_key (object bytes) = none
read_as host ssh_key (characters t) = none
read_as host bool_pointer (object bytes) = first_truth bytes
read_as host bool_pointer (characters t) = none
read_as host bool_pointer (K.key k) = none
read_as host unsigned_int_pointer p = number_in host 4 p
read_as host int_pointer p = number_in host 4 p
read_as host long_pointer p = number_in host 8 p
read_as host uint64_pointer p = number_in host 8 p
read_as host uint32_pointer p = number_in host 4 p

-- What the value given to an option type is to mean, and when it fits its type.
abbrev pub meant : (t : Template) → Argument t → Reading
meant cstring_option v = text v
meant bool_option v = number (if v then 1 else 0)
meant unsigned_int_option v = number v
meant int_option v = number v
meant long_option v = number v
meant uint64_option v = number v
meant uint32_option v = number v
meant key_option v = key v

abbrev pub Fits : (t : Template) → Argument t → Type 0
Fits cstring_option v = Unit {0}
Fits bool_option v = Unit {0}
Fits key_option v = Unit {0}
Fits unsigned_int_option v = v < 256 ^ 4
Fits int_option v = v < 256 ^ 4
Fits long_option v = v < 256 ^ 8
Fits uint64_option v = v < 256 ^ 8
Fits uint32_option v = v < 256 ^ 4

number_in-object_bytes :
    (host : Endian) (size v : ℕ)
    → v < 256 ^ size
    → number_in host size (object (object_bytes host size v)) ≡ some (number v)
number_in-object_bytes host size v h =
    let same : (size == size) ≡ true = ground arith in
    rw (length-object_bytes host size v, object_value-object_bytes host size v h, same)

-- Whatever the type of options and its value, one that fits its type: `value()` gives it back, and
-- who reads an object of the type that is stored, through the pointer for libssh, reads it.
pub read_as-pointee :
    (host : Endian) (t : Template) (v : Argument t)
    → Fits t v
    → (value t (construct t v) ≡ v)
      × (read_as host (stored t) (pointee host t (construct t v)) ≡ some (meant t v))
unfolding read_as stored pointee construct value
read_as-pointee host cstring_option v h = (refl, refl)
read_as-pointee host bool_option true h = (refl, number_in-object_bytes host 4 1 (omega arith))
read_as-pointee host bool_option false h = (refl, number_in-object_bytes host 4 0 (omega arith))
read_as-pointee host unsigned_int_option v h = (refl, number_in-object_bytes host 4 v h)
read_as-pointee host int_option v h = (refl, number_in-object_bytes host 4 v h)
read_as-pointee host long_option v h = (refl, number_in-object_bytes host 8 v h)
read_as-pointee host uint64_option v h = (refl, number_in-object_bytes host 8 v h)
read_as-pointee host uint32_option v h = (refl, number_in-object_bytes host 4 v h)
read_as-pointee host key_option v h = (refl, refl)

-- Who reads a `bool` where a `bool_option` stores its `int` reads the value on a host of little byte order,
-- and false, whatever the value, on one of big byte order.
pub read_bool-pointee :
    (host : Endian) (v : Bool)
    → read_as host bool_pointer (pointee host bool_option (construct bool_option v))
      ≡ some (truth (elim host [ little ↦ v | big ↦ false ]))
unfolding read_as pointee construct
read_bool-pointee little true = refl
read_bool-pointee little false = refl
read_bool-pointee big true = refl
read_bool-pointee big false = refl
