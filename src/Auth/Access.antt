-- ===== src/Auth/Access.antt =====
-- src/auth.rs: who passes.
use xfiles.Prelude.{
  ℕ, zero, suc, ◌/◌, ◌^◌, ◌<◌, ◌≡◌, ◌↔◌, ◌⊎◌, inl, inr, refl, sym, ap, ◌∙◌, Bool, true, false,
  Option, none, some, List, [], ◌∷◌, ◌++◌, arith, All, length, nat_beq, eq_iff, Text, text_eq,
  codes, Bool-cases, Option-cases,
}
use xfiles.Prelude.Texts.{starts_with, strip_prefix, strip_prefix-append, append_of_strip_prefix}
use xfiles.Vfs.Vnode.{Utf8}
use xfiles.Auth.{
  bit_xor, bit_or, bitwise, xor_u8, or_u8, collect_diff, constant_time_eq_bytes, constant_time_eq,
  AuthConfig, bearer, is_public, is_valid, check_agent_token, protect, api_key_middleware,
}

-- The bits of a difference vanish exactly for equal numbers of as many bits.
xor_iff : (w a b : ℕ) → a < 2 ^ w → b < 2 ^ w → (bitwise bit_xor w a b ≡ 0) ↔ (a ≡ b)
unfolding bitwise
xor_iff zero a b h k = (λ e. omega arith, λ e. refl)
xor_iff (suc w) a b h k =
    let i = xor_iff w (a / 2) (b / 2) (omega arith) (omega arith) in
    (
      λ e.
          let p : bitwise bit_xor w (a / 2) (b / 2) ≡ 0 = omega (arith, e) in
          omega (arith, e, i.0 p),
      λ e. omega (arith, e, i.1 (ap (λ n. n / 2) e)),
    )

or_iff : (w a b : ℕ) → a < 2 ^ w → b < 2 ^ w → (bitwise bit_or w a b ≡ 0) ↔ ((a ≡ 0) × (b ≡ 0))
unfolding bitwise
or_iff zero a b h k = (λ e. (omega arith, omega arith), λ e. refl)
or_iff (suc w) a b h k =
    let i = or_iff w (a / 2) (b / 2) (omega arith) (omega arith) in
    (
      λ e.
          let p : bitwise bit_or w (a / 2) (b / 2) ≡ 0 = omega (arith, e) in
          (omega (arith, e, (i.0 p).0), omega (arith, e, (i.0 p).1)),
      λ e. omega (arith, e.0, e.1, i.1 (omega (arith, e.0), omega (arith, e.1))),
    )

xor_lt : (w a b : ℕ) → bitwise bit_xor w a b < 2 ^ w
unfolding bitwise
xor_lt zero a b = omega arith
xor_lt (suc w) a b = omega (arith, xor_lt w (a / 2) (b / 2))

or_lt : (w a b : ℕ) → bitwise bit_or w a b < 2 ^ w
unfolding bitwise
or_lt zero a b = omega arith
or_lt (suc w) a b = omega (arith, or_lt w (a / 2) (b / 2))

abbrev AreBytes : List ℕ → Type 0
AreBytes = All (λ b. b < 256)

-- The difference of two texts of one length vanishes exactly if it did before and they are equal.
collect_diff_iff :
    (diff : ℕ) (a b : List ℕ)
    → diff < 256
    → AreBytes a
    → AreBytes b
    → length a ≡ length b
    → (collect_diff diff a b ≡ 0) ↔ ((diff ≡ 0) × (a ≡ b))
unfolding collect_diff
collect_diff_iff diff [] [] d h k e = (λ z. (z, refl), λ z. z.0)
collect_diff_iff diff [] (y ∷ b) d h k e = absurd (omega (arith, e))
collect_diff_iff diff (x ∷ a) [] d h k e = absurd (omega (arith, e))
collect_diff_iff diff (x ∷ a) (y ∷ b) d h k e =
    let o = or_iff 8 diff (xor_u8 x y) d (xor_lt 8 x y) in
    let v = xor_iff 8 x y h.0 k.0 in
    let i =
      collect_diff_iff (or_u8 diff (xor_u8 x y)) a b (or_lt 8 diff (xor_u8 x y)) h.1 k.1
        (omega (arith, e)) in
    (
      λ z. let (p, q) = i.0 z in let (r, s) = o.0 p in (r, cc_cons x y a b (v.0 s) q),
      λ z. i.1 (o.1 (z.0, v.1 (ground (arith, z.1))), ground (arith, z.1)),
    )
  where
    cc_cons : (x y : ℕ) (a b : List ℕ) → x ≡ y → a ≡ b → x ∷ a ≡ y ∷ b
    cc_cons x y a b p q = ground arith

constant_time_eq_bytes_iff :
    (a b : List ℕ) → AreBytes a → AreBytes b → (constant_time_eq_bytes a b ≡ true) ↔ (a ≡ b)
unfolding constant_time_eq_bytes
constant_time_eq_bytes_iff a b h k = elim (Bool-cases (nat_beq (length a) (length b))) [
  | inl e ↦
      let i = collect_diff_iff 0 a b (omega arith) h k (ground arith) in
      rw e (λ z. (i.0 (ground arith)).1, λ z. ground (arith, i.1 (refl, z)))
  | inr e ↦ rw e (λ z. ground arith, λ z. ground (arith, ap length z))
]

-- The path needs no key.
abbrev pub IsPublic : Text → Type 0
IsPublic path =
    (path ≡ codes "/health") ⊎ (path ≡ codes "/metrics") ⊎ (starts_with (codes "/ws/") path ≡ true)

-- The header shows the key, if there is one to show.
abbrev pub Shows : Option Text → Option Text → Type 0
Shows none header = Unit
Shows (some key) header = header ≡ some (bearer ++ key)

text_or : Option Text → Text
text_or none = []
text_or (some t) = t

text_of : {s t : Text} → some s ≡ some t → s ≡ t
unfolding text_or
text_of h = ap text_or h

is_public_iff : (path : Text) → (is_public path ≡ true) ↔ IsPublic path
unfolding is_public
is_public_iff path = (
  λ h. ground (arith, eq_iff path (codes "/health"), eq_iff path (codes "/metrics")),
  λ h. ground (arith, eq_iff path (codes "/health"), eq_iff path (codes "/metrics")),
)

module _ (u : Utf8) (as_bytes_lt : (t : Text) → All (λ b. b < 256) (u.as_bytes t)) where
  -- Equal bytes are those of equal texts.
  constant_time_eq_iff : (a b : Text) → (constant_time_eq u a b ≡ true) ↔ (a ≡ b)
  unfolding constant_time_eq
  constant_time_eq_iff a b =
      let i =
        constant_time_eq_bytes_iff (u.as_bytes a) (u.as_bytes b) (as_bytes_lt a) (as_bytes_lt b) in
      (
        λ h.
            sym (u.from_utf8_lossy-as_bytes a)
            ∙ ap u.from_utf8_lossy (i.0 h)
            ∙ u.from_utf8_lossy-as_bytes b,
        λ h. i.1 (ap u.as_bytes h),
      )

  is_valid_iff :
      (header : Option Text) (key : Text)
      → (is_valid u header key ≡ true) ↔ (header ≡ some (bearer ++ key))
  unfolding is_valid
  is_valid_iff none key = (λ h. ground arith, λ h. ground arith)
  is_valid_iff (some header) key = elim (Option-cases (strip_prefix bearer header)) [
    | inl e ↦
        rw (e, is_valid) (λ h. ground arith, λ h. ground (arith, e, strip_prefix-append bearer key))
    | inr (shown, e) ↦
        rw (e, is_valid)
          (
            λ h. ap some (
                append_of_strip_prefix bearer header shown e
                ∙ ap (λ t. bearer ++ t) ((constant_time_eq_iff shown key).0 h)),
            λ h. (constant_time_eq_iff shown key).1 (
                text_of
                  (sym e ∙ ap (strip_prefix bearer) (text_of h) ∙ strip_prefix-append bearer key)),
          )
  ]

  check_agent_token_iff :
      (config : AuthConfig) (header : Option Text)
      → (check_agent_token u config header ≡ true) ↔ Shows config.agent_token header
  unfolding check_agent_token
  check_agent_token_iff config header = elim (Option-cases config.agent_token) [
    | inl e ↦ rw (e, check_agent_token) (λ h. tt, λ h. refl)
    | inr (token, e) ↦ rw (e, check_agent_token) (is_valid_iff header token)
  ]

  module _ {ℓ} {Response : Type ℓ} (unauthorized : Response) where
    protect_lem :
        (config : AuthConfig) (header : Option Text) (next : Response)
        → (Shows config.api_key header × (protect u unauthorized config header next ≡ next))
          ⊎ ((¬ Shows config.api_key header)
              × (protect u unauthorized config header next ≡ unauthorized))
    unfolding protect
    protect_lem config header next = elim (Option-cases config.api_key) [
      | inl e ↦ rw (e, protect) (inl (tt, refl))
      | inr (key, e) ↦ elim (Bool-cases (is_valid u header key)) [
        | inl v ↦ rw (e, v, protect) (inl ((is_valid_iff header key).0 v, refl))
        | inr v ↦
            rw (e, v, protect) (inr (λ s. ground (arith, v, (is_valid_iff header key).1 s), refl))
      ]
    ]

    -- A request passes the middleware exactly if its method is `OPTIONS`, its path is public, or it
    -- shows the configured key as its bearer token, where a key is configured; otherwise the answer is
    -- that it is unauthorized. The bytes of texts are less than 256.
    pub api_key_middleware_lem :
        (config : AuthConfig) (is_options : Bool) (path : Text) (header : Option Text)
        (next : Response)
        → let answer = api_key_middleware u unauthorized config is_options path header next in
          (((is_options ≡ true) ⊎ IsPublic path ⊎ Shows config.api_key header) × (answer ≡ next))
          ⊎ ((is_options ≡ false)
              × (¬ IsPublic path)
              × (¬ Shows config.api_key header)
              × (answer ≡ unauthorized))
    unfolding api_key_middleware
    api_key_middleware_lem config true path header next = inl (inl refl, refl)
    api_key_middleware_lem config false path header next = elim (Bool-cases (is_public path)) [
      | inl p ↦ rw (p, api_key_middleware) (inl (inr (inl ((is_public_iff path).0 p)), refl))
      | inr p ↦
          rw (p, api_key_middleware)
            (elim (protect_lem config header next) [
              | inl (s, e) ↦ inl (inr (inr s), e)
              | inr (s, e) ↦ inr (refl, λ q. ground (arith, p, (is_public_iff path).1 q), s, e)
            ])
    ]
