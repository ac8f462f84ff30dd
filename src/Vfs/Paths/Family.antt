-- ===== src/Vfs/Paths/Family.antt =====
-- src/fs/registry.rs: the parent of a path, and the name of a direct child.
use mathlib.Core.List.{append_assoc}
use xfiles.Prelude.{
  suc, ◌≡◌, ◌↔◌, refl, sym, ap, ◌∙◌, false, none, some, List, [], ◌∷◌, ◌++◌, arith, All, is_empty,
  contains, nat_eq, length, if◌then◌else◌, ◌==◌, Text, text_eq, slash, Bool-cases, Option-cases,
  inl, inr,
}
use xfiles.Prelude.Texts.{trim, strip_prefix, strip_prefix-append, append_of_strip_prefix, text_beq}
use xfiles.Vfs.Paths.{
  join, root, normalize, rfind, take, parent_path, remainder_of, child_name, or_zero,
}
use xfiles.Vfs.Paths.Split.{IsPart, has_slash}
use xfiles.Vfs.Paths.Normal.{render, normalize-render}

rfind_part : (p : Text) → has_slash p ≡ false → rfind p ≡ none
unfolding rfind contains
rfind_part [] h = refl
rfind_part (c ∷ p) h = ground (arith, rfind_part p)

rfind-append : (s p : Text) → has_slash p ≡ false → rfind (s ++ slash ∷ p) ≡ some (length s)
unfolding rfind
rfind-append [] p h = ground (arith, rfind_part p h)
rfind-append (c ∷ s) p h = ground (arith, rfind-append s p h)

take-length-append : (s t : Text) → take (length s) (s ++ t) ≡ s
unfolding take
take-length-append [] t = refl
take-length-append (c ∷ s) t = ap (λ u. c ∷ u) (take-length-append s t)

join-append :
    (q : Text) (ps : List Text) (p : Text) → join ((q ∷ ps) ++ p ∷ []) ≡ join (q ∷ ps) ++ slash ∷ p
unfolding join
join-append q [] p = refl
join-append q (r ∷ ps) p =
    ap (λ s. q ++ slash ∷ s) (join-append r ps p)
    ∙ sym (append_assoc q (slash ∷ join (r ∷ ps)) (slash ∷ p))

nonempty-ne-nil : (p : Text) → is_empty p ≡ false → text_beq p [] ≡ false
unfolding text_beq
nonempty-ne-nil [] h = cc
nonempty-ne-nil (c ∷ p) h = refl

last-IsPart : (ps : List Text) (p : Text) → All IsPart (ps ++ p ∷ []) → IsPart p
last-IsPart [] p a = a.0
last-IsPart (q ∷ ps) p a = last-IsPart ps p a.1

text_beq-append_nil : (s p : Text) → text_beq (s ++ slash ∷ p) [] ≡ false
unfolding text_beq
text_beq-append_nil [] p = refl
text_beq-append_nil (c ∷ s) p = refl

-- The cut at the last slash, on a path that is normal.
cut_lem :
    (path s p : Text)
    → path ≡ (slash ∷ s) ++ slash ∷ p
    → has_slash p ≡ false
    → ((path == root) ≡ false)
      × (or_zero (rfind path) ≡ suc (length s))
      × (take (suc (length s)) path ≡ slash ∷ s)
unfolding text_beq
cut_lem path s p e h = (
  ap (λ u. text_beq u root) e ∙ text_beq-append_nil s p,
  ap or_zero (ap rfind e ∙ rfind-append (slash ∷ s) p h),
  ap (take (suc (length s))) e ∙ take-length-append (slash ∷ s) (slash ∷ p),
)

-- The parent of a stable path of some parts and one more is the path of those parts.
pub parent_path-render :
    (ps : List Text) (p : Text)
    → All IsPart (ps ++ p ∷ [])
    → trim (render (ps ++ p ∷ [])) ≡ render (ps ++ p ∷ [])
    → parent_path (render (ps ++ p ∷ [])) ≡ some (render ps)
unfolding parent_path join text_beq
parent_path-render [] p a t =
    let n : normalize (render (p ∷ [])) ≡ slash ∷ p = normalize-render (p ∷ []) a t in
    let b : text_beq p [] ≡ false = nonempty-ne-nil p a.0.some_text in
    ground (arith, n, b, rfind-append [] p a.0.no_slash)
parent_path-render (q ∷ ps) p a t =
    let n = normalize-render ((q ∷ ps) ++ p ∷ []) a t in
    let e = n ∙ ap (λ s. slash ∷ s) (join-append q ps p) in
    let cut =
      cut_lem (normalize (render ((q ∷ ps) ++ p ∷ []))) (join (q ∷ ps)) p e
        (last-IsPart (q ∷ ps) p a).no_slash in
    ground (arith, cut)

-- The path of a direct child.
pub child_path : Text → Text → Text
child_path parent name = if parent == root then slash ∷ name else parent ++ slash ∷ name

remainder_of_iff :
    (parent full name : Text)
    → (remainder_of parent full ≡ some name) ↔ (full ≡ child_path parent name)
unfolding remainder_of child_path
remainder_of_iff parent full name = elim (Bool-cases (parent == root)) [
  | inl e ↦ rw e (
    append_of_strip_prefix root full name,
    λ h. ap (strip_prefix root) h ∙ strip_prefix-append root name,
  )
  | inr e ↦ rw e (
    λ h. elim (Option-cases (strip_prefix parent full)) [
      | inl q ↦ absurd (ground arith)
      | inr (rest, q) ↦
          append_of_strip_prefix parent full rest q
          ∙ ap (λ s. parent ++ s) (append_of_strip_prefix root rest name (ground arith))
    ],
    λ h.
        let q = ap (strip_prefix parent) h ∙ strip_prefix-append parent (slash ∷ name) in
        ground (arith, q, strip_prefix-append root name),
  )
]

-- `child_name` finds a name exactly where the full path, normalised, is the child of that name of the
-- normalised parent, and the name is one part.
pub child_name_iff :
    (parent full name : Text)
    → (child_name parent full ≡ some name) ↔ (
        (normalize full ≡ child_path (normalize parent) name)
        × (is_empty name ≡ false)
        × (has_slash name ≡ false))
unfolding child_name
child_name_iff parent full name = (
  λ h. elim (Option-cases (remainder_of (normalize parent) (normalize full))) [
    | inl e ↦ absurd (ground arith)
    | inr (r, e) ↦
        let k : (r ≡ name) × (is_empty r ≡ false) × (has_slash r ≡ false) = ground arith in
        rw (← k.0) ((remainder_of_iff (normalize parent) (normalize full) r).0 e, k.1, k.2)
  ],
  λ h.
      rw ((remainder_of_iff (normalize parent) (normalize full) name).1 h.0, child_name)
        (ground arith),
)
