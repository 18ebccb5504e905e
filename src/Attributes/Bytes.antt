-- ===== src/Attributes/Bytes.antt =====
-- The attributes on the wire: their length, their bytes, and reading them back.
use corosh.Base.{ℕ, ◌^◌, ◌<◌, ◌≡◌, refl, Bool, true, false, List, ◌++◌, length, arith}
use corosh.Wire.{Take, when, bytes_u32, bytes_u64}
use corosh.Wire.Writes.{Writes, Writes-▷, Writes-put_u32, Writes-put_u64, Writes-put_if, optional}
use corosh.Wire.Reads.{
  Reads, Reads-pure, Reads-last, Reads-when-false, Reads-bind, Reads-take_u32, Reads-take_u64,
  Reads-when,
}
use corosh.Attributes.{
  Attributes, attr_size, attr_uidgid, attr_permissions, attr_acmodtime, attr_extended, has,
  no_attributes, attrs_length, put_attrs, take_attrs, take_pair,
}

-- The ATTRS structure of the protocol, without extended attributes.
abbrev pub attrs_bytes : Attributes → List ℕ
attrs_bytes a =
    bytes_u32 a.flags
    ++ (optional (has a.flags attr_size) (bytes_u64 a.size)
        ++ (optional (has a.flags attr_uidgid) (bytes_u32 a.uid ++ bytes_u32 a.gid)
            ++ (optional (has a.flags attr_permissions) (bytes_u32 a.permissions)
                ++ optional (has a.flags attr_acmodtime) (bytes_u32 a.atime ++ bytes_u32 a.mtime))))

pub Writes-put_attrs : (a : Attributes) → Writes (put_attrs a) (attrs_bytes a)
unfolding put_attrs
Writes-put_attrs a = Writes-▷ (Writes-put_u32 a.flags) (
    Writes-▷ (Writes-put_if (has a.flags attr_size) (Writes-put_u64 a.size)) (
      Writes-▷
        (Writes-put_if (has a.flags attr_uidgid)
          (Writes-▷ (Writes-put_u32 a.uid) (Writes-put_u32 a.gid)))
        (Writes-▷ (Writes-put_if (has a.flags attr_permissions) (Writes-put_u32 a.permissions)) (
          Writes-put_if (has a.flags attr_acmodtime)
            (Writes-▷ (Writes-put_u32 a.atime) (Writes-put_u32 a.mtime))))))

-- The length that is computed for attributes is the number of bytes that they take on the wire.
pub attrs_length-length : (a : Attributes) → attrs_length a ≡ length (attrs_bytes a)
unfolding attrs_length
attrs_length-length a = ground arith

-- The fields that the wire carries, in the range of their types.
pub record InRange (a : Attributes) : Type 0 where
  pub flags : a.flags < 2 ^ 32
  pub size : a.size < 2 ^ 64
  pub uid : a.uid < 2 ^ 32
  pub gid : a.gid < 2 ^ 32
  pub permissions : a.permissions < 2 ^ 32
  pub atime : a.atime < 2 ^ 32
  pub mtime : a.mtime < 2 ^ 32

abbrev pub field : Bool → ℕ → ℕ
field b v = elim b [ true ↦ v | false ↦ 0 ]

-- What the other side can know of `a`: the flags, and the fields that they announce.
abbrev pub on_wire : Attributes → Attributes
on_wire a = record no_attributes {
  flags = a.flags;
  size = field (has a.flags attr_size) a.size;
  uid = field (has a.flags attr_uidgid) a.uid;
  gid = field (has a.flags attr_uidgid) a.gid;
  permissions = field (has a.flags attr_permissions) a.permissions;
  atime = field (has a.flags attr_acmodtime) a.atime;
  mtime = field (has a.flags attr_acmodtime) a.mtime;
}

Reads-take_pair :
    (a b : ℕ) → a < 2 ^ 32 → b < 2 ^ 32 → Reads take_pair (bytes_u32 a ++ bytes_u32 b) (a, b)
unfolding take_pair
Reads-take_pair a b ha hb =
    Reads-bind _ (Reads-take_u32 a ha) (Reads-bind _ (Reads-take_u32 b hb) (Reads-pure (a, b)))

Reads-when_pair :
    {m : Take (ℕ × ℕ)} {bs : List ℕ} (b : Bool) (v w : ℕ)
    → Reads m bs (v, w)
    → Reads (when b m (0, 0)) (optional b bs) (field b v, field b w)
unfolding when
Reads-when_pair true v w p = p
Reads-when_pair false v w p = record { at = λ rest. refl }

-- Reading the bytes of attributes, whose fields are in the range of their types, gives back what
-- is on the wire, unless the flags announce extended attributes, which `put_attrs` does not
-- write.
pub Reads-take_attrs :
    (a : Attributes)
    → InRange a
    → has a.flags attr_extended ≡ false
    → Reads take_attrs (attrs_bytes a) (on_wire a)
unfolding take_attrs
Reads-take_attrs a h plain = Reads-bind _ (Reads-take_u32 a.flags h.flags) (
    Reads-bind _ (Reads-when (has a.flags attr_size) 0 (Reads-take_u64 a.size h.size)) (
      Reads-bind _
        (Reads-when_pair (has a.flags attr_uidgid) a.uid a.gid
          (Reads-take_pair a.uid a.gid h.uid h.gid))
        (Reads-bind _
          (Reads-when (has a.flags attr_permissions) 0 (Reads-take_u32 a.permissions h.permissions))
          (Reads-last _
            (Reads-when_pair (has a.flags attr_acmodtime) a.atime a.mtime
              (Reads-take_pair a.atime a.mtime h.atime h.mtime))
            (Reads-bind _ (Reads-when-false _ plain tt) (Reads-pure (on_wire a)))))))
