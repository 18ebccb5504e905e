-- ===== src/Options/Kinds.antt =====
-- The class templates of include/corosh/options.hpp and include/corosh/server_options.hpp. Numbers are the bit
-- patterns of their types (`long` and pointers have 64 bits).
use corosh.Base.{ℕ, Bool, not, ◌==◌, List, if◌then◌else◌}
use corosh.Base.Host.{Endian, object_bytes}
use corosh.Base.Text.{Text}

-- `integral_option` by its type.
pub data Template : Type 0 where
  cstring_option unsigned_int_option int_option long_option : Template
  uint64_option uint32_option bool_option key_option : Template

-- What the constructor and `operator=` take, and `value()` returns; a key is a number.
abbrev pub Argument : Template → Type 0
Argument cstring_option = Text
Argument bool_option = Bool
Argument unsigned_int_option = ℕ
Argument int_option = ℕ
Argument long_option = ℕ
Argument uint64_option = ℕ
Argument uint32_option = ℕ
Argument key_option = ℕ

-- The type of `value_`.
abbrev pub Member : Template → Type 0
Member cstring_option = Text
Member bool_option = ℕ
Member unsigned_int_option = ℕ
Member int_option = ℕ
Member long_option = ℕ
Member uint64_option = ℕ
Member uint32_option = ℕ
Member key_option = ℕ

-- `sizeof(value_)`
abbrev pub size_of : Template → ℕ
size_of cstring_option = 8
size_of bool_option = 4
size_of unsigned_int_option = 4
size_of int_option = 4
size_of long_option = 8
size_of uint64_option = 8
size_of uint32_option = 4
size_of key_option = 8

-- The constructor, and `operator=`.
unfoldable pub construct : (t : Template) → Argument t → Member t
construct cstring_option v = v
construct bool_option v = if v then 1 else 0
construct unsigned_int_option v = v
construct int_option v = v
construct long_option v = v
construct uint64_option v = v
construct uint32_option v = v
construct key_option v = v

unfoldable pub value : (t : Template) → Member t → Argument t
value cstring_option m = m
value bool_option m = not (m == 0)
value unsigned_int_option m = m
value int_option m = m
value long_option m = m
value uint64_option m = m
value uint32_option m = m
value key_option m = m

-- What a pointer for libssh points to: characters, the bytes of an object, or a key.
pub data Pointee : Type 0 where
  characters : Text → Pointee
  object : List ℕ → Pointee
  key : ℕ → Pointee

-- What `data()` points to: `value_` is itself the pointer, or the object.
unfoldable pub pointee : Endian → (t : Template) → Member t → Pointee
pointee host cstring_option m = characters m
pointee host bool_option m = object (object_bytes host (size_of bool_option) m)
pointee host unsigned_int_option m = object (object_bytes host (size_of unsigned_int_option) m)
pointee host int_option m = object (object_bytes host (size_of int_option) m)
pointee host long_option m = object (object_bytes host (size_of long_option) m)
pointee host uint64_option m = object (object_bytes host (size_of uint64_option) m)
pointee host uint32_option m = object (object_bytes host (size_of uint32_option) m)
pointee host key_option m = key m

-- The types that libssh documents for the pointers.
pub data CType : Type 0 where
  const_char_pointer unsigned_int_pointer int_pointer long_pointer uint64_pointer : CType
  uint32_pointer bool_pointer ssh_key : CType

-- The type of what `data()` points to.
unfoldable pub stored : Template → CType
stored cstring_option = const_char_pointer
stored unsigned_int_option = unsigned_int_pointer
stored int_option = int_pointer
stored long_option = long_pointer
stored uint64_option = uint64_pointer
stored uint32_option = uint32_pointer
stored bool_option = int_pointer
stored key_option = ssh_key
