-- ===== src/Auth.antt =====
-- src/auth.rs: the keys that a request must show. The bytes of a text are those of UTF-8, an interface;
-- what the rest of the server answers is an argument.
pub mod Access
use xfiles.Prelude.{
  ℕ, ◌/◌, ◌%◌, ◌+◌, ◌*◌, max, zero, suc, Bool, true, false, ◌||◌, Option, none, some, List, [], ◌∷◌,
  length, nat_beq, if◌then◌else◌, ◌==◌, Text, text_eq, codes,
}
use xfiles.Prelude.Texts.{starts_with, strip_prefix}
use xfiles.Vfs.Vnode.{Utf8}

-- The lowest bits of a number, and the operators on so many bits of two numbers.
abbrev bit_xor : ℕ → ℕ → ℕ
bit_xor a b = (a + b) % 2

abbrev bit_or : ℕ → ℕ → ℕ
bit_or a b = max a b

unfoldable pub bitwise : (ℕ → ℕ → ℕ) → ℕ → ℕ → ℕ → ℕ
bitwise op zero a b = 0
bitwise op (suc w) a b = op (a % 2) (b % 2) + 2 * bitwise op w (a / 2) (b / 2)

-- `x ^ y` and `x | y` on `u8`.
abbrev pub xor_u8 : ℕ → ℕ → ℕ
xor_u8 = bitwise bit_xor 8

abbrev pub or_u8 : ℕ → ℕ → ℕ
or_u8 = bitwise bit_or 8

-- The loop over the pairs of bytes.
unfoldable pub collect_diff : ℕ → List ℕ → List ℕ → ℕ
unfolding bitwise
collect_diff diff [] b = diff
collect_diff diff (x ∷ a) [] = diff
collect_diff diff (x ∷ a) (y ∷ b) = collect_diff (or_u8 diff (xor_u8 x y)) a b

unfoldable pub constant_time_eq_bytes : List ℕ → List ℕ → Bool
unfolding collect_diff
constant_time_eq_bytes a b =
    if nat_beq (length a) (length b) then nat_beq (collect_diff 0 a b) 0 else false

pub record AuthConfig : Type 0 where
  pub api_key : Option Text
  pub agent_token : Option Text

unfoldable pub is_public : Text → Bool
is_public path =
    (path == codes "/health") || (path == codes "/metrics") || starts_with (codes "/ws/") path

abbrev pub bearer : Text
bearer = codes "Bearer "

module _ (u : Utf8) where
  unfoldable pub constant_time_eq : Text → Text → Bool
  unfolding constant_time_eq_bytes
  constant_time_eq a b = constant_time_eq_bytes (u.as_bytes a) (u.as_bytes b)

  -- The header is the value of `Authorization`, where it is there and a text. `header[7..]` is what
  -- follows the seven bytes of the prefix.
  unfoldable pub is_valid : Option Text → Text → Bool
  unfolding constant_time_eq
  is_valid none key = false
  is_valid (some header) key = elim (strip_prefix bearer header) [
    | none ↦ false
    | some shown ↦ constant_time_eq shown key
  ]

  unfoldable pub check_agent_token : AuthConfig → Option Text → Bool
  unfolding is_valid
  check_agent_token config auth_header = elim config.agent_token [
    | none ↦ true
    | some token ↦ is_valid auth_header token
  ]

  module _ {ℓ} {Response : Type ℓ} (unauthorized : Response) where
    unfoldable pub protect : AuthConfig → Option Text → Response → Response
    protect config auth_header next = elim config.api_key [
      | none ↦ next
      | some key ↦ if is_valid auth_header key then next else unauthorized
    ]

    -- The flag says whether the method is `OPTIONS`.
    unfoldable pub api_key_middleware : AuthConfig → Bool → Text → Option Text → Response → Response
    unfolding protect is_public
    api_key_middleware config is_options path auth_header next =
        if is_options
        then next
        else if is_public path
        then next
        else protect config auth_header next
