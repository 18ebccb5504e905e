-- ===== src/FileServer/Sandbox.antt =====
-- Which files the paths of a client reach.
use corosh.Base.{
  ◌+◌, ◌≡◌, refl, ◌∙◌, Bool, true, false, not, ◌&&◌, List, [], ◌∷◌, ◌++◌, append-nil, append_assoc,
  length, replicate, Bool-cases, inl, inr, arith,
}
use corosh.Base.Text.{Text}
use corosh.FileServer.Paths.{
  FilePath, path, dot_dot, is_dot, is_dot_dot, normal, reverse_onto, in_order, append,
  lexically_normal, sftp_to_local,
}

-- Names that are no "..", and those that are no "." and not empty either.
abbrev pub NoneUp : List Text → Type 0
NoneUp [] = Unit
NoneUp (n ∷ ns) = (is_dot_dot n ≡ false) × NoneUp ns

abbrev pub AllPlain : List Text → Type 0
AllPlain [] = Unit
AllPlain (n ∷ ns) = (is_dot n ≡ false) × (is_dot_dot n ≡ false) × AllPlain ns

reverse_onto-reverse_onto :
    (ns kept t : List Text) → reverse_onto (reverse_onto ns kept) t ≡ reverse_onto kept (ns ++ t)
reverse_onto-reverse_onto [] kept t = refl
reverse_onto-reverse_onto (n ∷ ns) kept t = reverse_onto-reverse_onto ns (n ∷ kept) t

normal-AllPlain :
    (ns : List Text) (kept : List Text) (n : Text)
    → AllPlain (n ∷ ns)
    → (behind : Bool) → normal true (kept, behind) (n ∷ ns) ≡ (reverse_onto (n ∷ ns) kept, false)
normal-AllPlain [] kept n (no_dot, no_up, rest) behind = rw (normal, no_dot, no_up)
normal-AllPlain (m ∷ ns) kept n (no_dot, no_up, rest) behind =
    rw (normal, no_dot, no_up) (normal-AllPlain ns (n ∷ kept) m rest false)

normal_under :
    (root kept rest : List Text)
    → AllPlain root
    → normal true (kept, false) (root ++ rest) ≡ normal true (reverse_onto root kept, false) rest
normal_under [] kept rest plain = refl
normal_under (n ∷ root) kept rest (no_dot, no_up, plain) =
    rw (normal, no_dot, no_up) (normal_under root (n ∷ kept) rest plain)

normal_climbs :
    (kept : List Text) (behind : Bool) (q : Text) (qs : List Text)
    → AllPlain kept
    → AllPlain (q ∷ qs)
    → normal true (kept, behind) (replicate (length kept) dot_dot ++ q ∷ qs)
      ≡ (reverse_onto (q ∷ qs) [], false)
normal_climbs [] behind q qs plain goal = normal-AllPlain qs [] q goal behind
normal_climbs (k ∷ kept) behind q qs (no_dot, no_up, plain) goal =
    rw (replicate, normal, no_up) (normal_climbs kept true q qs plain goal)

AllPlain-reverse_onto :
    (ns kept : List Text) → AllPlain ns → AllPlain kept → AllPlain (reverse_onto ns kept)
AllPlain-reverse_onto [] kept plain rest = rest
AllPlain-reverse_onto (n ∷ ns) kept (no_dot, no_up, plain) rest =
    AllPlain-reverse_onto ns (n ∷ kept) plain (no_dot, no_up, rest)

length-reverse_onto :
    (ns kept : List Text) → length (reverse_onto ns kept) ≡ length ns + length kept
length-reverse_onto [] kept = omega arith
length-reverse_onto (n ∷ ns) kept = omega (arith, length-reverse_onto ns (n ∷ kept))

-- The root directory with these names.
abbrev pub rooted : List Text → FilePath
rooted names = record { absolute = true; names = names }

lexically_normal-rooted :
    (ns : List Text)
    → lexically_normal (rooted ns) ≡ rooted (in_order true (normal true ([], false) ns))
unfolding lexically_normal
lexically_normal-rooted [] = refl
lexically_normal-rooted (n ∷ ns) = refl

append_nonempty :
    (root ups : List Text) (q : Text) (qs : List Text)
    → append (rooted root) (ups ++ q ∷ qs) ≡ rooted (root ++ (ups ++ q ∷ qs))
append_nonempty root [] q qs = refl
append_nonempty root (u ∷ ups) q qs = refl

in_order_plain : (l : List Text) → in_order true (l, false) ≡ reverse_onto l []
in_order_plain [] = refl
in_order_plain (k ∷ l) = refl

in_order-reverse_onto :
    (q : Text) (qs : List Text) → in_order true (reverse_onto (q ∷ qs) [], false) ≡ q ∷ qs
in_order-reverse_onto q qs =
    in_order_plain (reverse_onto (q ∷ qs) [])
    ∙ reverse_onto-reverse_onto (q ∷ qs) [] []
    ∙ append-nil (q ∷ qs)

-- Where the root of the server has plain names only (none of them empty, "." or ".."), a client
-- that writes ".." as often as the root is deep reaches every file of the system: the plain names
-- that follow, one at least, are then those of a path from the root directory.
pub sftp_to_local_escapes :
    (root : List Text) (text q : Text) (qs : List Text)
    → AllPlain root
    → AllPlain (q ∷ qs)
    → (path text).names ≡ replicate (length root) dot_dot ++ q ∷ qs
    → sftp_to_local (rooted root) text ≡ rooted (q ∷ qs)
unfolding sftp_to_local
sftp_to_local_escapes root text q qs plain goal written =
    let kept = reverse_onto root [] in
    let deep : length kept ≡ length root = omega (arith, length-reverse_onto root []) in
    rw (
      written,
      append_nonempty root (replicate (length root) dot_dot) q qs,
      lexically_normal-rooted,
      normal_under root [] (replicate (length root) dot_dot ++ q ∷ qs) plain,
      ← deep,
      normal_climbs kept false q qs (AllPlain-reverse_onto root [] plain tt) goal,
      in_order-reverse_onto q qs,
    )

NoneUp-append : (ms ns : List Text) → NoneUp ms → NoneUp ns → NoneUp (ms ++ ns)
NoneUp-append [] ns before behind = behind
NoneUp-append (m ∷ ms) ns (no_up, before) behind = (no_up, NoneUp-append ms ns before behind)

NoneUp-reverse_onto :
    (ns kept : List Text) → NoneUp ns → NoneUp kept → NoneUp (reverse_onto ns kept)
NoneUp-reverse_onto [] kept none_up rest = rest
NoneUp-reverse_onto (n ∷ ns) kept (no_up, none_up) rest =
    NoneUp-reverse_onto ns (n ∷ kept) none_up (no_up, rest)

normal_stays :
    (ns kept : List Text) (behind : Bool)
    → NoneUp ns
    → (ms : List Text) × (b : Bool) × (normal true (kept, behind) ns ≡ (ms ++ kept, b)) × NoneUp ms
normal_stays [] kept behind none_up = ([], behind, refl, tt)
normal_stays (n ∷ ns) kept behind (no_up, none_up) = elim (Bool-cases (is_dot n)) [
  | inl a_dot ↦
      let (ms, b, e, kept_below) = normal_stays ns kept true none_up in
      (ms, b, rw (normal, a_dot, e), kept_below)
  | inr no_dot ↦
      let (ms, b, e, kept_below) = normal_stays ns (n ∷ kept) false none_up in
      (
        ms ++ n ∷ [],
        b,
        rw (normal, no_dot, no_up, e, append_assoc ms (n ∷ []) kept),
        NoneUp-append ms (n ∷ []) kept_below (no_up, tt),
      )
]

in_order_tail :
    (l : List Text) (behind : Bool)
    → (t : List Text) × (in_order true (l, behind) ≡ reverse_onto l t) × NoneUp t
in_order_tail [] behind = ([], refl, tt)
in_order_tail (k ∷ l) behind = elim (Bool-cases (behind && not (is_dot_dot k))) [
  | inl separated ↦ ([] ∷ [], rw separated refl, (refl, tt))
  | inr bare ↦ ([], rw bare refl, tt)
]

reverse_onto-append :
    (ms kept t : List Text) → reverse_onto (ms ++ kept) t ≡ reverse_onto kept (reverse_onto ms t)
reverse_onto-append [] kept t = refl
reverse_onto-append (m ∷ ms) kept t = reverse_onto-append ms kept (m ∷ t)

below :
    (root ns : List Text)
    → AllPlain root
    → NoneUp ns
    → (rest : List Text) × (lexically_normal (rooted (root ++ ns)) ≡ rooted (root ++ rest))
      × NoneUp rest
below root ns plain none_up =
    let kept = reverse_onto root [] in
    let (ms, b, e, kept_below) = normal_stays ns kept false none_up in
    let (t, ordered, tail_below) = in_order_tail (ms ++ kept) b in
    (
      reverse_onto ms t,
      rw (
        lexically_normal-rooted,
        normal_under root [] ns plain,
        e,
        ordered,
        reverse_onto-append ms kept t,
        reverse_onto-reverse_onto root [] (reverse_onto ms t),
      ),
      NoneUp-reverse_onto ms t kept_below tail_below,
    )

-- Where the root of the server has plain names only (none of them empty, "." or ".."), a path of a
-- client without ".." in it leads to that root with names behind it none of which is "..".
pub sftp_to_local_below :
    (root : List Text) (text : Text)
    → AllPlain root
    → NoneUp (path text).names
    → (rest : List Text) × (sftp_to_local (rooted root) text ≡ rooted (root ++ rest)) × NoneUp rest
unfolding sftp_to_local
sftp_to_local_below root text plain none_up = below_append (path text).names none_up
  where
    below_append :
        (ns : List Text)
        → NoneUp ns
        → (rest : List Text) × (lexically_normal (append (rooted root) ns) ≡ rooted (root ++ rest))
          × NoneUp rest
    below_append [] none = below root ([] ∷ []) plain (refl, tt)
    below_append (n ∷ ns) none = below root (n ∷ ns) plain none
