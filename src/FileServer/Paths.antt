-- ===== src/FileServer/Paths.antt =====
-- The paths of `sftp_server` in example/server.cpp, and what it uses of `std::filesystem::path` on a
-- POSIX system: a path is a root directory, if it is absolute, and file names, the last of which is
-- empty behind a final separator.
use corosh.Base.{
  ℕ, Bool, true, false, not, ◌&&◌, ◌||◌, List, [], ◌∷◌, ◌++◌, ◌==◌, if◌then◌else◌, same_bytes,
}
use corosh.Base.Text.{Text}

pub record FilePath : Type 0 where
  pub absolute : Bool
  pub names : List Text

-- '/', "." and ".."
abbrev slash : ℕ
slash = 47

abbrev dot : Text
dot = 46 ∷ []

abbrev pub dot_dot : Text
dot_dot = 46 ∷ 46 ∷ []

abbrev push_front : ℕ → List Text → List Text
push_front c [] = (c ∷ []) ∷ []
push_front c (p ∷ ps) = (c ∷ p) ∷ ps

-- The pieces between the separators.
abbrev pieces : Text → List Text
pieces [] = [] ∷ []
pieces (c ∷ cs) = let rest = pieces cs in if c == slash then [] ∷ rest else push_front c rest

-- Adjacent separators count as one.
abbrev later_names : List Text → List Text
later_names [] = []
later_names ([] ∷ []) = [] ∷ []
later_names ([] ∷ p ∷ ps) = later_names (p ∷ ps)
later_names ((c ∷ cs) ∷ ps) = (c ∷ cs) ∷ later_names ps

abbrev names_of : List Text → List Text
names_of [] = []
names_of ([] ∷ ps) = names_of ps
names_of ((c ∷ cs) ∷ ps) = (c ∷ cs) ∷ later_names ps

abbrev starts_with_slash : Text → Bool
starts_with_slash [] = false
starts_with_slash (c ∷ cs) = c == slash

-- `std::filesystem::path(text)`
unfoldable pub path : Text → FilePath
path text = record { absolute = starts_with_slash text; names = names_of (pieces text) }

abbrev pub is_dot : Text → Bool
is_dot n = same_bytes n [] || same_bytes n dot

abbrev pub is_dot_dot : Text → Bool
is_dot_dot n = same_bytes n dot_dot

-- One name of a path to be made normal: the names kept so far, the last one first, and whether a separator
-- comes behind them.
abbrev climb : Bool → List Text → List Text × Bool
climb absolute [] = (if absolute then [] else dot_dot ∷ [], absolute)
climb absolute (m ∷ ms) = if is_dot_dot m then (dot_dot ∷ m ∷ ms, false) else (ms, true)

abbrev pub step : Bool → Text → List Text → List Text × Bool
step absolute n kept =
    if is_dot n
    then (kept, true)
    else if is_dot_dot n
    then climb absolute kept
    else (n ∷ kept, false)

abbrev pub normal : Bool → List Text × Bool → List Text → List Text × Bool
normal absolute (kept, behind) [] = (kept, behind)
normal absolute (kept, behind) (n ∷ ns) = normal absolute (step absolute n kept) ns

abbrev pub reverse_onto : List Text → List Text → List Text
reverse_onto [] ns = ns
reverse_onto (k ∷ kept) ns = reverse_onto kept (k ∷ ns)

-- The names in order; behind a last "..", no separator is kept.
abbrev pub in_order : Bool → List Text × Bool → List Text
in_order absolute ([], behind) = if absolute then [] else dot ∷ []
in_order absolute (k ∷ kept, behind) =
    reverse_onto (k ∷ kept) (if behind && not (is_dot_dot k) then [] ∷ [] else [])

-- `lexically_normal`; the empty path is normal.
unfoldable pub lexically_normal : FilePath → FilePath
lexically_normal p = elim p.names [
  | [] ↦ p
  | n ∷ ns ↦ record p { names = in_order p.absolute (normal p.absolute ([], false) (n ∷ ns)) }
]

-- `root / relative`, where `root` has a name and no final separator, or is the root directory.
abbrev pub append : FilePath → List Text → FilePath
append root [] = record root { names = root.names ++ [] ∷ [] }
append root (n ∷ ns) = record root { names = root.names ++ n ∷ ns }

-- `sftp_to_local`: `relative_path` leaves the root directory off.
unfoldable pub sftp_to_local : FilePath → Text → FilePath
unfolding path lexically_normal
sftp_to_local root_path text = lexically_normal (append root_path (path text).names)

abbrev joined : List Text → Text
joined [] = []
joined (n ∷ []) = n
joined (n ∷ m ∷ ns) = n ++ slash ∷ joined (m ∷ ns)

-- `string()`
unfoldable pub string : FilePath → Text
string p = if p.absolute then slash ∷ joined p.names else joined p.names
