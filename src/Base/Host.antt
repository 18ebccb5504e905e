-- ===== src/Base/Host.antt =====
-- The byte order of the host, and objects of integer types in its memory.
use Prim.Native.Nat.{ℕ, zero, suc, ◌+◌, ◌*◌, ◌/◌, ◌%◌, ◌^◌, ◌<◌}
use mathlib.Core.Path.{◌≡◌, refl, ap, ◌∙◌}
use mathlib.Core.List.{List, [], ◌∷◌, reverse, reverse-append, reverse-reverse}
use native.Mathlib.Omega.{arith}
use corosh.Base.Lists.{length, length-append}

pub data Endian : Type 0 where
  little big : Endian

-- The digits of a number to the base 256, the lowest first.
abbrev low_first : ℕ → ℕ → List ℕ
low_first zero v = []
low_first (suc width) v = v % 256 ∷ low_first width (v / 256)

abbrev from_low_first : List ℕ → ℕ
from_low_first [] = 0
from_low_first (b ∷ bs) = b + 256 * from_low_first bs

-- An object of `width` bytes with the value `v`.
abbrev pub object_bytes : Endian → ℕ → ℕ → List ℕ
object_bytes little width v = low_first width v
object_bytes big width v = reverse (low_first width v)

length-low_first : (width v : ℕ) → length (low_first width v) ≡ width
length-low_first zero v = refl
length-low_first (suc width) v = ap suc (length-low_first width (v / 256))

length-reverse : (xs : List ℕ) → length (reverse xs) ≡ length xs
length-reverse [] = refl
length-reverse (x ∷ xs) =
    ap length (reverse-append (x ∷ []) xs)
    ∙ omega (arith, length-append (reverse xs) (x ∷ []), length-reverse xs)

pub length-object_bytes : (host : Endian) (width v : ℕ) → length (object_bytes host width v) ≡ width
length-object_bytes little width v = length-low_first width v
length-object_bytes big width v = length-reverse (low_first width v) ∙ length-low_first width v

-- The value of the object in such bytes.
abbrev pub object_value : Endian → List ℕ → ℕ
object_value little bs = from_low_first bs
object_value big bs = from_low_first (reverse bs)

pow_step : (width : ℕ) → 256 ^ suc width ≡ 256 * 256 ^ width
pow_step width = omega arith

from_low_first-low_first : (width v : ℕ) → v < 256 ^ width → from_low_first (low_first width v) ≡ v
from_low_first-low_first zero v h = omega arith
from_low_first-low_first (suc width) v h =
    omega (arith, from_low_first-low_first width (v / 256) (omega (arith, pow_step width)))

pub object_value-object_bytes :
    (host : Endian) (width v : ℕ)
    → v < 256 ^ width
    → object_value host (object_bytes host width v) ≡ v
object_value-object_bytes little width v h = from_low_first-low_first width v h
object_value-object_bytes big width v h =
    ap from_low_first (reverse-reverse (low_first width v)) ∙ from_low_first-low_first width v h
