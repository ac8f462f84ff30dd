-- ===== src/Vfs/Paths.antt =====
-- src/fs/registry.rs: `normalize`, `parent_path` and `child_name`.
pub mod Split
pub mod Normal
pub mod Family
use xfiles.Prelude.{
  ℕ, zero, suc, ◌+◌, Bool, true, false, not, ◌||◌, Option, none, some, List, [], ◌∷◌, ◌++◌, filter,
  is_empty, contains, nat_eq, length, if◌then◌else◌, nat_beq, ◌==◌, Text, text_eq, codes, slash,
}
use xfiles.Prelude.Texts.{trim, strip_prefix}

-- A character goes in front of the first part.
unfoldable pub extend_first : ℕ → List Text → List Text
extend_first c [] = (c ∷ []) ∷ []
extend_first c (p ∷ ps) = (c ∷ p) ∷ ps

-- `split('/')`
unfoldable pub split : Text → List Text
split [] = [] ∷ []
split (c ∷ s) = if nat_beq c slash then [] ∷ split s else extend_first c (split s)

-- `join("/")`
unfoldable pub join : List Text → Text
join [] = []
join (p ∷ []) = p
join (p ∷ q ∷ ps) = p ++ slash ∷ join (q ∷ ps)

-- `Vec::pop`
unfoldable pub pop : List Text → List Text
pop [] = []
pop (p ∷ []) = []
pop (p ∷ q ∷ ps) = p ∷ pop (q ∷ ps)

-- `..`
abbrev pub dot_dot : Text
dot_dot = codes ".."

-- `.`
abbrev pub dot : Text
dot = codes "."

-- `/`
abbrev pub root : Text
root = codes "/"

-- The loop over the parts.
unfoldable pub resolve : List Text → List Text → List Text
resolve normalized [] = normalized
resolve normalized (part ∷ parts) =
    resolve
      (if part == dot_dot
        then pop normalized
        else if part == dot
        then normalized
        else normalized ++ part ∷ [])
      parts

unfoldable pub normalize : Text → Text
normalize path =
    let path' = trim path in
    if is_empty path' || path' == root
    then root
    else slash ∷ join (resolve [] (filter (λ p. not (is_empty p)) (split path')))

-- `rfind('/')`: the position of the last slash.
unfoldable pub rfind : Text → Option ℕ
rfind [] = none
rfind (c ∷ s) = elim (rfind s) [
  | some i ↦ some (suc i)
  | none ↦ if nat_beq c slash then some 0 else none
]

unfoldable pub take : ℕ → Text → Text
take zero s = []
take (suc n) [] = []
take (suc n) (c ∷ s) = c ∷ take n s

abbrev pub or_zero : Option ℕ → ℕ
or_zero none = 0
or_zero (some i) = i

unfoldable pub parent_path : Text → Option Text
unfolding rfind take
parent_path path =
    let path' = normalize path in
    let idx = or_zero (rfind path') in
    if path' == root then none else if nat_beq idx 0 then some root else some (take idx path')

-- What follows the parent in the full path: both are normal.
unfoldable pub remainder_of : Text → Text → Option Text
remainder_of parent full =
    if parent == root
    then strip_prefix root full
    else elim (strip_prefix parent full) [ none ↦ none | some rest ↦ strip_prefix root rest ]

unfoldable pub child_name : Text → Text → Option Text
child_name parent full = elim (remainder_of (normalize parent) (normalize full)) [
  | none ↦ none
  | some remainder ↦ if is_empty remainder || contains remainder slash then none else some remainder
]
