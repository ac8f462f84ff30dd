-- ===== src/Vfs/Paths/Normal.antt =====
-- src/fs/registry.rs: normal forms of paths.
use mathlib.Core.List.{append_assoc}
use xfiles.Prelude.{
  ℕ, ◌≡◌, refl, sym, ap, ◌∙◌, true, false, not, ◌||◌, List, [], ◌∷◌, ◌++◌, arith, All, All-map,
  filter, filter-All, is_empty, contains, nat_eq, Text, text_eq, slash,
}
use xfiles.Prelude.Texts.{
  trim, trim_end, is_whitespace, trim_front_solid, trim_end-append_solid, trim_end-append_blank,
  text_beq,
}
use xfiles.Vfs.Paths.{split, join, dot, resolve, normalize}
use xfiles.Vfs.Paths.Split.{
  IsPart, has_slash, split-append, split-join, resolve_parts, components, components-All,
  normalize-join,
}

-- A normal path never leaves the root: it is a slash and the parts that the path comes down to, joined
-- by slashes, and each of these is a name: not empty, with no slash in it, and neither `.` nor `..`.
pub normalize_lem :
    (path : Text) → (normalize path ≡ slash ∷ join (components path)) × All IsPart (components path)
normalize_lem path = (normalize-join path, components-All path)

-- The path of some parts.
abbrev pub render : List Text → Text
render ps = slash ∷ join ps

filter_parts : (ps : List Text) → All IsPart ps → filter (λ p. not (is_empty p)) ps ≡ ps
filter_parts ps a = filter-All (λ p. not (is_empty p)) ps (All-map (λ p h. ap not h.some_text) ps a)

parts_of_render :
    (ps : List Text) → All IsPart ps → filter (λ p. not (is_empty p)) (split (render ps)) ≡ ps
unfolding filter split join
parts_of_render [] a = refl
parts_of_render (p ∷ ps) a =
    ap (filter (λ q. not (is_empty q))) (split-join p ps (All-map (λ q h. h.no_slash) (p ∷ ps) a))
    ∙ filter_parts (p ∷ ps) a

components_of_trim :
    (path : Text) (ps : List Text) → All IsPart ps → trim path ≡ render ps → components path ≡ ps
unfolding components
components_of_trim path ps a t =
    ap (λ s. resolve [] (filter (λ p. not (is_empty p)) (split s))) t
    ∙ ap (resolve []) (parts_of_render ps a)
    ∙ resolve_parts [] ps a

-- A path that is a normal form already, and that `trim` leaves alone, is left as it is.
pub normalize-render :
    (ps : List Text)
    → All IsPart ps
    → trim (render ps) ≡ render ps
    → normalize (render ps) ≡ render ps
normalize-render ps a t =
    normalize-join (render ps) ∙ ap render (components_of_trim (render ps) ps a t)

-- Normalising twice is normalising once, for a path whose normal form `trim` leaves alone.
pub normalize_idem :
    (path : Text)
    → trim (normalize path) ≡ normalize path
    → normalize (normalize path) ≡ normalize path
normalize_idem path t =
    let e = normalize-join path in
    ap normalize e
    ∙ normalize-render (components path) (components-All path) (ap trim (sym e) ∙ t ∙ e)
    ∙ sym e

trim-slash : (s : Text) → trim (slash ∷ s) ≡ slash ∷ trim_end s
unfolding trim is_whitespace
trim-slash s = trim_front_solid slash (trim_end s) refl

contains-append : (s t : Text) → has_slash (s ++ t) ≡ (has_slash s || has_slash t)
unfolding contains
contains-append [] t = refl
contains-append (c ∷ s) t = ground (arith, contains-append s t)

append_blank-ne-dot :
    (s : Text) (c : ℕ)
    → is_whitespace c ≡ true
    → (text_beq (s ++ c ∷ []) [] ≡ false) × (text_beq (s ++ c ∷ []) dot ≡ false)
unfolding is_whitespace text_beq
append_blank-ne-dot [] c w = (refl, ground arith)
append_blank-ne-dot (d ∷ s) c w = (refl, ground (arith, (append_blank-ne-dot s c w).0))

-- A blank behind a name gives a name.
blank-IsPart :
    (name : Text) (c : ℕ) → IsPart name → is_whitespace c ≡ true → IsPart (name ++ c ∷ [])
unfolding is_whitespace contains text_beq
blank-IsPart [] c h w = absurd (ground (arith, h.some_text))
blank-IsPart (a ∷ name) c h w = record {
  some_text = refl;
  no_slash = contains-append (a ∷ name) (c ∷ []) ∙ ground (arith, h.no_slash);
  no_dot = ground (arith, (append_blank-ne-dot name c w).0);
  no_dots = ground (arith, (append_blank-ne-dot name c w).1);
}

one_part :
    (p : Text)
    → IsPart p
    → filter (λ q. not (is_empty q)) (split (slash ∷ p ++ slash ∷ [])) ≡ p ∷ []
unfolding filter split
one_part p h =
    ap (λ l. filter (λ q. not (is_empty q)) ([] ∷ l)) (split-append p [] h.no_slash)
    ∙ ground (arith, h.some_text)

-- A name followed by white space is not a stable path: with a slash behind it the white space is kept,
-- and normalising the result once more drops it.
pub normalize_not_idem :
    (name : Text) (c : ℕ)
    → IsPart name
    → is_whitespace c ≡ true
    → trim_end name ≡ name
    → (normalize (slash ∷ name ++ c ∷ slash ∷ []) ≡ slash ∷ name ++ c ∷ [])
      × (normalize (slash ∷ name ++ c ∷ []) ≡ slash ∷ name)
unfolding join components
normalize_not_idem name c h w t = (kept, dropped)
  where
    part : Text
    part = name ++ c ∷ []

    part-IsPart : IsPart part
    part-IsPart = blank-IsPart name c h w

    dropped : normalize (slash ∷ part) ≡ slash ∷ name
    dropped =
        normalize-join (slash ∷ part)
        ∙ ap render (
            components_of_trim (slash ∷ part) (name ∷ []) (h, tt)
              (trim-slash part ∙ ap (λ s. slash ∷ s) (trim_end-append_blank name c w ∙ t)))

    trimmed : trim (slash ∷ name ++ c ∷ slash ∷ []) ≡ slash ∷ part ++ slash ∷ []
    trimmed =
        ap (λ s. trim (slash ∷ s)) (sym (append_assoc name (c ∷ []) (slash ∷ [])))
        ∙ trim-slash (part ++ slash ∷ [])
        ∙ ap (λ s. slash ∷ s) (trim_end-append_solid part slash (unfold is_whitespace in refl))

    kept : normalize (slash ∷ name ++ c ∷ slash ∷ []) ≡ slash ∷ part
    kept =
        normalize-join (slash ∷ name ++ c ∷ slash ∷ [])
        ∙ ap (λ s. render (resolve [] (filter (λ q. not (is_empty q)) (split s)))) trimmed
        ∙ ap (λ ps. render (resolve [] ps)) (one_part part part-IsPart)
        ∙ ap render (resolve_parts [] (part ∷ []) (part-IsPart, tt))
