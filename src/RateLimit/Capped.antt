-- ===== src/RateLimit/Capped.antt =====
-- src/ratelimit.rs: no bucket holds more than the limit.
use xfiles.Prelude.{
  ℕ, ◌+◌, ◌≤◌, inl, inr, Option, none, some, List, [], ◌∷◌, Option-cases, Bool-cases, arith, ◌==◌,
  Text, text_eq,
}
use xfiles.Prelude.Maps.{get, get-insert}
use xfiles.Prelude.Time.{Nanos}
use xfiles.RateLimit.Budget.{bucket, count, take_token-tokens}
use xfiles.RateLimit.{TokenBucket, RateLimiter, take_token, refilled, check}

abbrev pub held_of : ℕ → Option TokenBucket → ℕ
held_of max_requests none = max_requests
held_of max_requests (some b) = b.tokens

-- What stands in the key's bucket, before its first check a full one.
abbrev pub held : RateLimiter → Text → ℕ
held l key = held_of l.max_requests (get l.buckets key)

-- No bucket holds more than the limit.
abbrev pub IsCapped : RateLimiter → Type 0
IsCapped l = (key : Text) → held l key ≤ l.max_requests

module _ (refill : Nanos → Nanos → ℕ → ℕ) where
  -- Checks of any keys, each at its time.
  unfoldable pub checks : RateLimiter → List (Text × Nanos) → RateLimiter
  checks l [] = l
  checks l ((key, now) ∷ cs) = checks (check refill l now key).0 cs

  pub refilled_cap :
      (l : RateLimiter) (now : Nanos) (b : TokenBucket)
      → b.tokens ≤ l.max_requests
      → (refilled refill l now b).tokens ≤ l.max_requests
  unfolding refilled
  refilled_cap l now b h = ground arith

  pub bucket_cap :
      (l : RateLimiter) (now : Nanos) (key : Text)
      → IsCapped l
      → (bucket l now key).tokens ≤ l.max_requests
  bucket_cap l now key h = elim (Option-cases (get l.buckets key)) [
    | inl e ↦ rw e (omega arith)
    | inr (b, e) ↦ rw e (ground (arith, h key, e))
  ]

  -- What a check leaves, with what it lets through, is no more than the limit.
  check_cap :
      (l : RateLimiter) (now : Nanos) (key : Text)
      → IsCapped l
      → (take_token (refilled refill l now (bucket l now key))).0.tokens
          + count (take_token (refilled refill l now (bucket l now key))).1
        ≤ l.max_requests
  check_cap l now key h = omega (
    arith,
    take_token-tokens refill (refilled refill l now (bucket l now key)),
    refilled_cap l now (bucket l now key) (bucket_cap l now key h),
  )

  check-IsCapped :
      (l : RateLimiter) (now : Nanos) (key : Text)
      → IsCapped l
      → IsCapped (check refill l now key).0
  unfolding check
  check-IsCapped l now key h other =
      let b = (take_token (refilled refill l now (bucket l now key))).0 in
      let e = get-insert l.buckets key other b in
      elim (Bool-cases (key == other)) [
        | inl same ↦ rw (e, same) (omega (arith, check_cap l now key h))
        | inr differs ↦ rw (e, differs) (h other)
      ]

  pub checks-IsCapped :
      (l : RateLimiter) (cs : List (Text × Nanos)) → IsCapped l → IsCapped (checks l cs)
  unfolding checks
  checks-IsCapped l [] h = h
  checks-IsCapped l ((key, now) ∷ cs) h =
      checks-IsCapped (check refill l now key).0 cs (check-IsCapped l now key h)
