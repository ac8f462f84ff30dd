-- ===== src/RateLimit/Budget.antt =====
-- src/ratelimit.rs: how many requests a bucket lets through.
use xfiles.Prelude.{
  ℕ, zero, suc, ◌+◌, min, ◌≡◌, refl, ap, ◌∙◌, Bool, true, false, none, some, List, [], ◌∷◌, arith,
  ◌==◌, eq_refl, Text, text_eq,
}
use xfiles.Prelude.Maps.{get, insert, get-insert}
use xfiles.Prelude.Time.{Nanos, elapsed, from_secs}
use xfiles.RateLimit.{TokenBucket, RateLimiter, or_full, take_token, granted, refilled, check}

-- The bucket that a check of the key finds.
abbrev pub bucket : RateLimiter → Nanos → Text → TokenBucket
bucket l now key = or_full l.max_requests now (get l.buckets key)

abbrev pub count : Bool → ℕ
count true = 1
count false = 0

-- One instant, again and again.
abbrev pub instants : ℕ → Nanos → List Nanos
instants zero now = []
instants (suc n) now = now ∷ instants n now

module _ (refill : Nanos → Nanos → ℕ → ℕ) where
  -- A check at each of the times, all of one key: how many were let through.
  unfoldable pub admitted : RateLimiter → Text → List Nanos → ℕ
  admitted l key [] = 0
  admitted l key (now ∷ ts) =
      let (l', answer) = check refill l now key in count answer + admitted l' key ts

  pub take_token-tokens :
      (b : TokenBucket) → (take_token b).0.tokens + count (take_token b).1 ≡ b.tokens
  unfolding take_token
  take_token-tokens b = ground arith

  pub take_token-last : (b : TokenBucket) → (take_token b).0.last_refill ≡ b.last_refill
  unfolding take_token
  take_token-last b = ground arith

  refilled_still :
      (l : RateLimiter) (now : Nanos) (b : TokenBucket)
      → refill 0 (from_secs l.window_secs) l.max_requests ≡ 0
      → b.last_refill ≡ now
      → refilled refill l now b ≡ b
  unfolding granted refilled
  refilled_still l now b h t =
      let z : elapsed now b.last_refill ≡ 0 = omega arith in
      let g : refill (elapsed now b.last_refill) (from_secs l.window_secs) l.max_requests ≡ 0 =
        ap (λ d. refill d (from_secs l.window_secs) l.max_requests) z ∙ h in
      rw g refl

  check_still :
      (l : RateLimiter) (now : Nanos) (key : Text) (b : TokenBucket)
      → refill 0 (from_secs l.window_secs) l.max_requests ≡ 0
      → bucket l now key ≡ b
      → b.last_refill ≡ now
      → check refill l now key
        ≡ (record l { buckets = insert l.buckets key (take_token b).0 }, (take_token b).1)
  unfolding check
  check_still l now key b h e t = rw (e, refilled_still l now b h t) refl

  take_token-min :
      (n : ℕ) (b : TokenBucket)
      → count (take_token b).1 + min n (take_token b).0.tokens ≡ min (suc n) b.tokens
  unfolding take_token
  take_token-min n b = ground arith

  burst_from :
      (l : RateLimiter) (now : Nanos) (key : Text) (b : TokenBucket) (n : ℕ)
      → refill 0 (from_secs l.window_secs) l.max_requests ≡ 0
      → bucket l now key ≡ b
      → b.last_refill ≡ now
      → admitted l key (instants n now) ≡ min n b.tokens
  unfolding admitted
  burst_from l now key b zero h e t = omega arith
  burst_from l now key b (suc n) h e t =
      let b' = (take_token b).0 in
      let l' : RateLimiter = record l { buckets = insert l.buckets key b' } in
      let found : get l'.buckets key ≡ some b' =
        get-insert l.buckets key key b' ∙ rw (eq_refl key) refl in
      rw (check_still l now key b h e t) (
        ap (λ k. count (take_token b).1 + k)
          (burst_from l' now key b' n h (rw found refl) (take_token-last b ∙ t))
        ∙ take_token-min n b)

  -- Of some checks of a key that was not seen before, at one instant, as many are let through as the
  -- limit allows, if a refill over no time brings nothing.
  pub burst :
      (l : RateLimiter) (now : Nanos) (key : Text) (n : ℕ)
      → get l.buckets key ≡ none
      → refill 0 (from_secs l.window_secs) l.max_requests ≡ 0
      → admitted l key (instants n now) ≡ min n l.max_requests
  burst l now key n e h =
      burst_from l now key (record { tokens = l.max_requests; last_refill = now }) n h (rw e refl)
        refl

  -- A check leaves the buckets of the other keys alone.
  get-check :
      (l : RateLimiter) (now : Nanos) (key other : Text)
      → (key == other) ≡ false
      → get (check refill l now key).0.buckets other ≡ get l.buckets other
  unfolding check
  get-check l now key other h = get-insert l.buckets key other _ ∙ rw h refl
