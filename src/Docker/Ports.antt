-- ===== src/Docker/Ports.antt =====
-- src/docker.rs: the port that a container's label states.
use xfiles.Prelude.{
  ℕ, zero, suc, ◌+◌, ◌-◌, ◌*◌, ◌/◌, ◌%◌, ◌^◌, ◌<◌, ◌≡◌, ◌≢◌, append_one-ne-nil, refl, ap, ◌∙◌,
  Option, some, List, [], ◌∷◌, ◌++◌, arith, All, ltb, nat_beq, Text, text_eq, codes, Map,
  Bool-cases, inl, inr,
}
use xfiles.Prelude.Maps.{get}
use xfiles.Prelude.Numbers.{digits, show_u16, parse_digits, parse_unsigned}
use xfiles.Docker.{Port, port_of}

-- The value of digits, behind those read before.
value : ℕ → Text → ℕ
value n [] = n
value n (c ∷ s) = value (n * 10 + (c - 48)) s

AreDigits : Text → Type 0
AreDigits = All (λ c. (48 < suc c) × (c < 58))

value-append : (n : ℕ) (s : Text) (c : ℕ) → value n (s ++ c ∷ []) ≡ value n s * 10 + (c - 48)
unfolding value
value-append n [] c = refl
value-append n (d ∷ s) c = value-append (n * 10 + (d - 48)) s c

append-AreDigits : (s : Text) (c : ℕ) → AreDigits s → 48 < suc c → c < 58 → AreDigits (s ++ c ∷ [])
unfolding AreDigits
append-AreDigits [] c h a b = ((a, b), tt)
append-AreDigits (d ∷ s) c h a b = (h.0, append-AreDigits s c h.1 a b)

parse_digits_lem :
    (bound n : ℕ) (s : Text)
    → AreDigits s
    → value n s < bound
    → parse_digits bound n s ≡ some (value n s)
unfolding parse_digits AreDigits value
parse_digits_lem bound n [] h k = ground (arith, k)
parse_digits_lem bound n (c ∷ s) h k =
    ground (arith, h.0.0, h.0.1, parse_digits_lem bound (n * 10 + (c - 48)) s h.1 k)

-- As many digits as are allowed are enough.
digits_lem :
    (most n : ℕ)
    → n < 10 ^ suc most
    → AreDigits (digits (suc most) n) × (value 0 (digits (suc most) n) ≡ n)
unfolding digits AreDigits value
digits_lem zero n h = elim (Bool-cases (ltb n 10)) [
  | inl e ↦ rw e (((omega arith, ground (arith, e)), tt), omega arith)
  | inr e ↦ absurd (ground (arith, h, e))
]
digits_lem (suc most) n h = elim (Bool-cases (ltb n 10)) [
  | inl e ↦ rw e (((omega arith, ground (arith, e)), tt), omega arith)
  | inr e ↦
      let rest = digits (suc most) (n / 10) in
      let i = digits_lem most (n / 10) (omega (arith, h)) in
      rw e (
        append-AreDigits rest (48 + n % 10) i.0 (omega arith) (omega arith),
        value-append 0 rest (48 + n % 10) ∙ omega (arith, i.1),
      )
]

-- A text of digits parses to its value, in whatever way it starts.
parse_unsigned_lem :
    (bound : ℕ) (s : Text)
    → AreDigits s
    → s ≢ []
    → value 0 s < bound
    → parse_unsigned bound s ≡ some (value 0 s)
unfolding parse_unsigned AreDigits value
parse_unsigned_lem bound [] h n k = absurd (n refl)
parse_unsigned_lem bound (c ∷ []) h n k = parse_digits_lem bound 0 (c ∷ []) h k
parse_unsigned_lem bound (c ∷ d ∷ s) h n k = elim (Bool-cases (nat_beq c 43)) [
  | inl e ↦ absurd (ground (arith, e, h.0.0))
  | inr e ↦ rw e (parse_digits_lem bound 0 (c ∷ d ∷ s) h k)
]

digits-ne-nil : (most n : ℕ) → digits (suc most) n ≢ []
unfolding digits
digits-ne-nil most n = elim (Bool-cases (ltb n 10)) [
  | inl e ↦ rw e (λ h. ground (arith, h))
  | inr e ↦ rw e (append_one-ne-nil (digits most (n / 10)) (48 + n % 10))
]

-- A port that the label states in the way in which ports are printed is the one that is taken, whatever
-- ports the container publishes. The port is less than 2^16.
pub port_of-show_u16 :
    (labels : Map Text Text) (ports : Option (List Port)) (n : ℕ)
    → n < 2 ^ 16
    → get labels (codes "ai.xfiles.port") ≡ some (show_u16 n)
    → port_of labels ports ≡ n
unfolding port_of show_u16
port_of-show_u16 labels ports n h e =
    let i = digits_lem 4 n (omega (arith, h)) in
    let parsed : parse_unsigned (2 ^ 16) (digits 5 n) ≡ some n =
      parse_unsigned_lem (2 ^ 16) (digits 5 n) i.0 (digits-ne-nil 4 n) (omega (arith, h, i.1))
      ∙ ap some i.1 in
    rw (e, parsed) refl
