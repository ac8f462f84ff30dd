-- ===== src/Vfs/Paths/Split.antt =====
-- src/fs/registry.rs: what splitting at slashes, resolving the dots and joining do to the parts.
use mathlib.Core.List.{append_assoc, append-nil}
use xfiles.Prelude.{
  ℕ, ◌≡◌, refl, sym, ap, ◌∙◌, Bool, true, false, not, ◌||◌, List, [], ◌∷◌, ◌++◌, arith, All,
  All-append, filter, is_empty, contains, nat_eq, nat_beq, ◌==◌, eq_iff, Text, text_eq, slash,
  Bool-cases, inl, inr,
}
use xfiles.Prelude.Texts.{trim}
use xfiles.Vfs.Paths.{split, extend_first, join, pop, dot, dot_dot, root, resolve, normalize}

abbrev pub has_slash : Text → Bool
has_slash p = contains p slash

-- A part that names something.
pub record IsPart (p : Text) : Type 0 where
  pub some_text : is_empty p ≡ false
  pub no_slash : has_slash p ≡ false
  pub no_dot : (p == dot) ≡ false
  pub no_dots : (p == dot_dot) ≡ false

extend_first-All :
    (c : ℕ) (ps : List Text)
    → nat_beq c slash ≡ false
    → All (λ p. has_slash p ≡ false) ps
    → All (λ p. has_slash p ≡ false) (extend_first c ps)
unfolding extend_first contains
extend_first-All c [] h a = (ground arith, tt)
extend_first-All c (p ∷ ps) h a = (ground arith, a.1)

pub split-All : (s : Text) → All (λ p. has_slash p ≡ false) (split s)
unfolding split contains
split-All [] = (refl, tt)
split-All (c ∷ s) = elim (Bool-cases (nat_beq c slash)) [
  | inl e ↦ rw e (refl, split-All s)
  | inr e ↦ rw e (extend_first-All c (split s) e (split-All s))
]

pub split-append : (p s : Text) → has_slash p ≡ false → split (p ++ slash ∷ s) ≡ p ∷ split s
unfolding split extend_first contains
split-append [] s h = refl
split-append (c ∷ p) s h = ground (arith, split-append p s)

pub split_part : (p : Text) → has_slash p ≡ false → split p ≡ p ∷ []
unfolding split extend_first contains
split_part [] h = refl
split_part (c ∷ p) h = ground (arith, split_part p)

-- Splitting undoes joining.
pub split-join :
    (p : Text) (ps : List Text)
    → All (λ q. has_slash q ≡ false) (p ∷ ps)
    → split (join (p ∷ ps)) ≡ p ∷ ps
unfolding join
split-join p [] a = split_part p a.0
split-join p (q ∷ ps) a = split-append p (join (q ∷ ps)) a.0 ∙ ap (λ l. p ∷ l) (split-join q ps a.1)

pop-All {κ} : (P : Text → Type κ) (ps : List Text) → All P ps → All P (pop ps)
unfolding pop
pop-All P [] a = tt
pop-All P (p ∷ []) a = tt
pop-All P (p ∷ q ∷ ps) a = (a.0, pop-All P (q ∷ ps) a.1)

abbrev IsRaw : Text → Type 0
IsRaw p = (is_empty p ≡ false) × (has_slash p ≡ false)

resolve-All :
    (done parts : List Text) → All IsPart done → All IsRaw parts → All IsPart (resolve done parts)
unfolding resolve
resolve-All done [] d a = d
resolve-All done (p ∷ parts) d a = elim (Bool-cases (p == dot_dot)) [
  | inl e ↦ rw e (resolve-All (pop done) parts (pop-All IsPart done d) a.1)
  | inr e ↦ rw e (elim (Bool-cases (p == dot)) [
    | inl f ↦ rw f (resolve-All done parts d a.1)
    | inr f ↦ rw f (
        resolve-All (done ++ p ∷ []) parts
          (All-append IsPart done (p ∷ []) d
            (record { some_text = a.0.0; no_slash = a.0.1; no_dot = f; no_dots = e }, tt))
          a.1)
  ])
]

-- Parts that name something are only collected.
pub resolve_parts : (done parts : List Text) → All IsPart parts → resolve done parts ≡ done ++ parts
unfolding resolve
resolve_parts done [] a = sym (append-nil done)
resolve_parts done (p ∷ parts) a =
    rw a.0.no_dots
      (rw a.0.no_dot (resolve_parts (done ++ p ∷ []) parts a.1 ∙ append_assoc done (p ∷ []) parts))

-- The parts that a path comes down to.
unfoldable pub components : Text → List Text
components path = resolve [] (filter (λ p. not (is_empty p)) (split (trim path)))

nonempty-All :
    (ps : List Text)
    → All (λ p. has_slash p ≡ false) ps
    → All IsRaw (filter (λ p. not (is_empty p)) ps)
unfolding filter
nonempty-All [] a = tt
nonempty-All ([] ∷ ps) a = nonempty-All ps a.1
nonempty-All ((c ∷ p) ∷ ps) a = ((refl, a.0), nonempty-All ps a.1)

pub components-All : (path : Text) → All IsPart (components path)
unfolding components
components-All path = resolve-All [] _ tt (nonempty-All (split (trim path)) (split-All (trim path)))

no_parts :
    (t : Text)
    → (is_empty t || t == root) ≡ true
    → resolve [] (filter (λ p. not (is_empty p)) (split t)) ≡ []
unfolding resolve filter split extend_first
no_parts [] h = refl
no_parts (c ∷ t) h =
    let e : c ∷ t ≡ root = (eq_iff (c ∷ t) root).0 h in
    ap (λ u. resolve [] (filter (λ p. not (is_empty p)) (split u))) e

-- The special cases of `normalize` agree with the general one.
pub normalize-join : (path : Text) → normalize path ≡ slash ∷ join (components path)
unfolding normalize components join
normalize-join path = elim (Bool-cases (is_empty (trim path) || trim path == root)) [
  | inl e ↦ rw e (sym (ap (λ ps. slash ∷ join ps) (no_parts (trim path) e)))
  | inr e ↦ rw e refl
]
