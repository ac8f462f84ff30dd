-- ===== src/Prelude/Texts.antt =====
-- Texts as lists of code points, with the operations of `str` that the program uses.
use Prim.Native.Nat.{ℕ}
use Prim.Native.Char.{code}
use Prim.Native.String.{String}
use mathlib.Core.Path.{◌≡◌, refl, ap}
use mathlib.Core.Logic.{◌↔◌}
use mathlib.Core.Bool.{Bool, true, false, ◌&&◌, ◌||◌}
use mathlib.Core.Option.{Option, none, some}
use mathlib.Core.List.{List, [], ◌∷◌, ◌++◌}
use native.Mathlib.Omega.{arith}
use xfiles.Prelude.Tests.{if◌then◌else◌, leb, ltb, nat_beq, Key}

abbrev pub Text : Type 0
Text = List ℕ

-- The code points of a literal.
abbrev pub codes : String → Text
codes String.[] = []
codes (String.◌∷◌ c s) = code c ∷ codes s

unfoldable pub text_beq : Text → Text → Bool
text_beq [] [] = true
text_beq [] (d ∷ t) = false
text_beq (c ∷ s) [] = false
text_beq (c ∷ s) (d ∷ t) = nat_beq c d && text_beq s t

pub text_beq_iff : (s t : Text) → (text_beq s t ≡ true) ↔ (s ≡ t)
unfolding text_beq
text_beq_iff [] [] = (λ h. refl, λ h. refl)
text_beq_iff [] (d ∷ t) = (λ h. cc, λ h. cc)
text_beq_iff (c ∷ s) [] = (λ h. cc, λ h. cc)
text_beq_iff (c ∷ s) (d ∷ t) =
    (λ h. ground (arith, (text_beq_iff s t).0), λ h. ground (arith, (text_beq_iff s t).1))

instance abbrev pub text_eq : Key Text
text_eq = record { same = text_beq; same_iff = text_beq_iff }

-- `a < b` on `str`: UTF-8 keeps the order of the code points.
unfoldable pub text_ltb : Text → Text → Bool
text_ltb [] [] = false
text_ltb [] (d ∷ t) = true
text_ltb (c ∷ s) [] = false
text_ltb (c ∷ s) (d ∷ t) = ltb c d || (nat_beq c d && text_ltb s t)

pub text_ltb_irrefl : (s : Text) → text_ltb s s ≡ false
unfolding text_ltb
text_ltb_irrefl [] = refl
text_ltb_irrefl (c ∷ s) = ground (arith, text_ltb_irrefl s)

-- Exactly one of two different texts comes first.
pub text_ltb_asymm : (s t : Text) → text_ltb s t ≡ true → text_ltb t s ≡ false
unfolding text_ltb
text_ltb_asymm [] [] h = refl
text_ltb_asymm [] (d ∷ t) h = refl
text_ltb_asymm (c ∷ s) [] h = cc
text_ltb_asymm (c ∷ s) (d ∷ t) h = ground (arith, text_ltb_asymm s t)

pub text_ltb_total : (s t : Text) → text_ltb s t ≡ false → text_ltb t s ≡ false → s ≡ t
unfolding text_ltb
text_ltb_total [] [] h k = refl
text_ltb_total [] (d ∷ t) h k = cc
text_ltb_total (c ∷ s) [] h k = cc
text_ltb_total (c ∷ s) (d ∷ t) h k = ground (arith, text_ltb_total s t)

-- `strip_prefix`
unfoldable pub strip_prefix : Text → Text → Option Text
strip_prefix [] s = some s
strip_prefix (c ∷ p) [] = none
strip_prefix (c ∷ p) (d ∷ s) = if nat_beq c d then strip_prefix p s else none

-- `starts_with`
unfoldable pub starts_with : Text → Text → Bool
starts_with [] s = true
starts_with (c ∷ p) [] = false
starts_with (c ∷ p) (d ∷ s) = nat_beq c d && starts_with p s

pub strip_prefix-append : (p s : Text) → strip_prefix p (p ++ s) ≡ some s
unfolding strip_prefix
strip_prefix-append [] s = refl
strip_prefix-append (c ∷ p) s = ground (arith, strip_prefix-append p s)

pub append_of_strip_prefix : (p s t : Text) → strip_prefix p s ≡ some t → s ≡ p ++ t
unfolding strip_prefix
append_of_strip_prefix [] s t h = cc
append_of_strip_prefix (c ∷ p) [] t h = cc
append_of_strip_prefix (c ∷ p) (d ∷ s) t h = ground (arith, append_of_strip_prefix p s t)

pub starts_with-append : (p s : Text) → starts_with p (p ++ s) ≡ true
unfolding starts_with
starts_with-append [] s = refl
starts_with-append (c ∷ p) s = ground (arith, starts_with-append p s)

pub append_of_starts_with : (p s : Text) → starts_with p s ≡ true → (t : Text) × (s ≡ p ++ t)
unfolding starts_with
append_of_starts_with [] s h = (s, refl)
append_of_starts_with (c ∷ p) [] h = absurd (ground arith)
append_of_starts_with (c ∷ p) (d ∷ s) h =
    let (t, e) = append_of_starts_with p s (ground arith) in (t, ground arith)

-- '/'
abbrev pub slash : ℕ
slash = 47

-- Unicode's White_Space, by which `trim` cuts.
unfoldable pub is_whitespace : ℕ → Bool
is_whitespace c =
    (leb 9 c && leb c 13)
    || nat_beq c 0x20
    || nat_beq c 0x85
    || nat_beq c 0xa0
    || nat_beq c 0x1680
    || (leb 0x2000 c && leb c 0x200a)
    || nat_beq c 0x2028
    || nat_beq c 0x2029
    || nat_beq c 0x202f
    || nat_beq c 0x205f
    || nat_beq c 0x3000

unfoldable pub trim_start : Text → Text
trim_start [] = []
trim_start (c ∷ s) = if is_whitespace c then trim_start s else c ∷ s

abbrev pub trim_front : ℕ → Text → Text
trim_front c [] = if is_whitespace c then [] else c ∷ []
trim_front c (d ∷ t) = c ∷ d ∷ t

unfoldable pub trim_end : Text → Text
trim_end [] = []
trim_end (c ∷ s) = trim_front c (trim_end s)

unfoldable pub trim : Text → Text
unfolding trim_start trim_end
trim s = trim_end (trim_start s)

-- `trim_end_matches('/')`
trim_slash : ℕ → Text → Text
trim_slash c [] = if nat_beq c 0x2f then [] else c ∷ []
trim_slash c (d ∷ t) = c ∷ d ∷ t

unfoldable pub trim_end_slashes : Text → Text
unfolding trim_slash
trim_end_slashes [] = []
trim_end_slashes (c ∷ s) = trim_slash c (trim_end_slashes s)

pub trim_front_solid : (c : ℕ) (t : Text) → is_whitespace c ≡ false → trim_front c t ≡ c ∷ t
trim_front_solid c [] h = rw h
trim_front_solid c (d ∷ t) h = refl

pub trim_front_blank : (c : ℕ) → is_whitespace c ≡ true → trim_front c [] ≡ []
trim_front_blank c h = rw h

-- `trim_end` stops at the last character that is not white space.
pub trim_end-append_solid :
    (s : Text) (c : ℕ) → is_whitespace c ≡ false → trim_end (s ++ c ∷ []) ≡ s ++ c ∷ []
unfolding trim_end
trim_end-append_solid [] c h = trim_front_solid c [] h
trim_end-append_solid (d ∷ []) c h = ap (trim_front d) (trim_end-append_solid [] c h)
trim_end-append_solid (d ∷ e ∷ s) c h = ap (trim_front d) (trim_end-append_solid (e ∷ s) c h)

-- White space at the end makes no difference to `trim_end`.
pub trim_end-append_blank :
    (s : Text) (c : ℕ) → is_whitespace c ≡ true → trim_end (s ++ c ∷ []) ≡ trim_end s
unfolding trim_end
trim_end-append_blank [] c h = trim_front_blank c h
trim_end-append_blank (d ∷ s) c h = ap (trim_front d) (trim_end-append_blank s c h)
