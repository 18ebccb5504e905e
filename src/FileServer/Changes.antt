-- ===== src/FileServer/Changes.antt =====
-- What `setstat` and `fsetstat` of the example server change, and in which order.
use corosh.Base.{ℕ, ◌≡◌, refl, ap, Bool-cases, inl, inr, List, [], ◌∷◌, ◌++◌, some, if◌then◌else◌}
use corosh.Base.Int.{pos, eq_ℤ}
use corosh.Base.Text.{Text}
use corosh.Poll.{generic_error}
use corosh.Errors.{ErrorCode, no_error}
use corosh.Attributes.{
  Attributes, Mask, has, attr_size, attr_uidgid, attr_permissions, attr_acmodtime,
}
use corosh.FileServer as F
use corosh.FileServer.Paths.{FilePath}
use corosh.FileServer.{System, SftpServer, Posix, find}
use corosh.FileServer.Handles.{apply_if, fsetstat}
use corosh.FileServer.Named.{local, setstat}

-- The change, if it is announced.
abbrev announced : Attributes → Mask → Posix → List Posix
announced attr mask p = if has attr.flags mask then p ∷ [] else []

-- The changes that the attributes announce for a file with a name, and for one with a descriptor.
abbrev pub named_changes : FilePath → Attributes → List Posix
named_changes cpath attr =
    announced attr attr_size (F.truncate cpath (F.off_t attr.size))
    ++ (announced attr attr_permissions (F.chmod cpath attr.permissions)
        ++ (announced attr attr_uidgid (F.chown cpath attr.uid attr.gid)
            ++ (announced attr attr_acmodtime (F.utimensat cpath attr.atime attr.mtime) ++ [])))

abbrev pub open_changes : ℕ → Attributes → List Posix
open_changes fd attr =
    announced attr attr_size (F.ftruncate fd (F.off_t attr.size))
    ++ (announced attr attr_permissions (F.fchmod fd attr.permissions)
        ++ (announced attr attr_uidgid (F.fchown fd attr.uid attr.gid)
            ++ (announced attr attr_acmodtime (F.futimens fd attr.atime attr.mtime) ++ [])))

module _ {S D : Type 0} (sys : System S D) where
  -- One call after the other, up to the first that does not return 0, whose `errno` is the result.
  abbrev pub call_all : List Posix → S → ErrorCode × S
  call_all [] s = (no_error, s)
  call_all (p ∷ ps) s =
      let (rc, s') = sys.call p s in
      let rest = call_all ps s' in
      if eq_ℤ rc (pos 0) then rest else (generic_error (sys.errno s'), s')

  apply_if-call_all :
      (attr : Attributes) (mask : Mask) (p : Posix) (ps : List Posix) (after : S → ErrorCode × S)
      (s : S)
      → ((t : S) → after t ≡ call_all ps t)
      → apply_if sys attr mask p after s ≡ call_all (announced attr mask p ++ ps) s
  apply_if-call_all attr mask p ps after s same = elim (Bool-cases (has attr.flags mask)) [
    | inl yes_set ↦ rw (yes_set, same (sys.call p s).1)
    | inr unset ↦ rw (unset, same s)
  ]

  four_changes :
      (attr : Attributes) (p q r t : Posix) (s : S)
      → apply_if sys attr attr_size p
          (apply_if sys attr attr_permissions q (
            apply_if sys attr attr_uidgid r
              (apply_if sys attr attr_acmodtime t (λ u. (no_error, u)))))
          s
        ≡ call_all
            (announced attr attr_size p
              ++ (announced attr attr_permissions q
                  ++ (announced attr attr_uidgid r ++ (announced attr attr_acmodtime t ++ []))))
            s
  four_changes attr p q r t s = apply_if-call_all attr attr_size p _ _ s (λ s1.
      apply_if-call_all attr attr_permissions q _ _ s1 (λ s2.
        apply_if-call_all attr attr_uidgid r _ _ s2
          (λ s3. apply_if-call_all attr attr_acmodtime t [] _ s3 (λ u. refl))))

  -- `setstat` of any path and `fsetstat` of an open file make the changes that the attributes announce, in the
  -- order size (as a signed number of 64 bits), permissions, owner, times, up to the first call of the system that
  -- does not return 0, whose `errno` they report, as a code of the generic category; they make no other
  -- change, and the tables stay.
  pub setstat-call_all :
      (name handle : Text) (attr : Attributes) (fd : ℕ) (f : SftpServer D) (s : S)
      → find handle f.open_files ≡ some fd
      → (setstat sys name attr (f, s)
          ≡ (let r = call_all (named_changes (local sys name (f, s)) attr) s in (r.0, (f, r.1))))
        × (fsetstat sys handle attr (f, s)
            ≡ (let r = call_all (open_changes fd attr) s in (r.0, (f, r.1))))
  unfolding setstat fsetstat
  setstat-call_all name handle attr fd f s known = (
    ap (λ r. (r.0, (f, r.1))) (four_changes attr _ _ _ _ s),
    rw (fsetstat, known) (ap (λ r. (r.0, (f, r.1))) (four_changes attr _ _ _ _ s)),
  )
