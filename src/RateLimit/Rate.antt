-- ===== src/RateLimit/Rate.antt =====
-- src/ratelimit.rs: how many requests the passing of time lets through.
use xfiles.Prelude.{
  ℕ, ◌+◌, ◌-◌, ◌*◌, ◌≤◌, ◌<◌, max, ◌≡◌, inl, inr, refl, ap, ◌∙◌, some, List, [], ◌∷◌, Bool-cases,
  All, ltb, leb, arith, eq_refl, Text, text_eq,
}
use native.Mathlib.Nat.{add-mul, mul-le-mul_right}
use xfiles.Prelude.Maps.{get, insert, get-insert}
use xfiles.Prelude.Time.{Nanos, elapsed, from_secs}
use xfiles.RateLimit.Capped.{checks, IsCapped, refilled_cap, bucket_cap, checks-IsCapped}
use xfiles.RateLimit.Budget.{bucket, count, admitted, take_token-tokens, take_token-last}
use xfiles.RateLimit.{TokenBucket, RateLimiter, take_token, granted, refilled, check, new}

-- What holds of the numbers of a refill that brings some tokens.
refill_numbers :
    (t t' r rate per last now until : ℕ)
    → 0 < per
    → 0 < r
    → t' ≤ t + r
    → now ≤ until
    → r * per ≤ (now - last) * rate
    → t' * per + (until - now) * rate ≤ t * per + (until - last) * rate
refill_numbers t t' r rate per last now until p q h u g = elim (Bool-cases (leb last now)) [
  | inl e ↦
      let split : (until - last) ≡ (until - now) + (now - last) = ground (arith, e) in
      rw (split, add-mul (until - now) (now - last) rate)
        (omega (arith, g, add-mul t r per, mul-le-mul_right per h))
  | inr e ↦ let none_passed : now - last ≡ 0 = ground (arith, e) in absurd (grind arith)
]

module _ (refill : Nanos → Nanos → ℕ → ℕ) where
  -- What a bucket may let through until some time: its tokens, and those that the time can bring.
  abbrev potential : ℕ → ℕ → Nanos → TokenBucket → ℕ
  potential rate per until b = b.tokens * per + elapsed until b.last_refill * rate

  -- A refill takes no less time than it brings tokens.
  refilled-potential :
      (rate per : ℕ) (l : RateLimiter) (now until : Nanos) (b : TokenBucket)
      → 0 < per
      → now ≤ until
      → granted refill l now b * per ≤ elapsed now b.last_refill * rate
      → potential rate per until (refilled refill l now b) ≤ potential rate per until b
  unfolding refilled
  refilled-potential rate per l now until b p u g =
      elim (Bool-cases (ltb 0 (granted refill l now b))) [
        | inl e ↦
            rw (e, refilled)
              (refill_numbers b.tokens _ (granted refill l now b) rate per b.last_refill now until p
                (ground (arith, e)) (omega arith) u g)
        | inr e ↦ rw (e, refilled) (omega arith)
      ]

  take_token-potential :
      (rate per : ℕ) (until : Nanos) (b : TokenBucket)
      → count (take_token b).1 * per + potential rate per until (take_token b).0
        ≡ potential rate per until b
  take_token-potential rate per until b = rw (take_token-last refill b) (
      omega (
        arith,
        ap (λ (k : ℕ). k * per) (take_token-tokens refill b),
        add-mul (take_token b).0.tokens (count (take_token b).1) per,
      ))

  -- The limiter's refills bring no more than `rate` tokens in `per` nanoseconds.
  abbrev pub IsSlow : ℕ → ℕ → RateLimiter → Type 0
  IsSlow rate per l =
      (d : Nanos) → refill d (from_secs l.window_secs) l.max_requests * per ≤ d * rate

  admitted_until :
      (rate per : ℕ) (until : Nanos) (l : RateLimiter) (key : Text) (ts : List Nanos)
      (b : TokenBucket)
      → 0 < per
      → IsSlow rate per l
      → All (λ now. now ≤ until) ts
      → get l.buckets key ≡ some b
      → admitted refill l key ts * per ≤ potential rate per until b
  unfolding admitted check granted
  admitted_until rate per until l key [] b p s a e = omega arith
  admitted_until rate per until l key (now ∷ ts) b p s a e =
      let b₁ = refilled refill l now b in
      let (b', answer) = take_token b₁ in
      let l' : RateLimiter = record l { buckets = insert l.buckets key b' } in
      let found : get l'.buckets key ≡ some b' =
        get-insert l.buckets key key b' ∙ rw (eq_refl key) refl in
      let rest = admitted_until rate per until l' key ts b' p s a.1 found in
      rw e (
        omega (
          arith,
          rest,
          add-mul (count answer) (admitted refill l' key ts) per,
          take_token-potential rate per until b₁,
          refilled-potential rate per l now until b p a.0 (s (elapsed now b.last_refill)),
        ))

  -- A time in which nothing is refilled is at most `wait`.
  abbrev pub IsIdle : Nanos → RateLimiter → Type 0
  IsIdle wait l = (d : Nanos) → refill d (from_secs l.window_secs) l.max_requests ≡ 0 → d ≤ wait

  refilled-since :
      (wait : Nanos) (l : RateLimiter) (now : Nanos) (b : TokenBucket)
      → IsIdle wait l
      → elapsed now (refilled refill l now b).last_refill ≤ wait
  unfolding refilled granted
  refilled-since wait l now b i = ground (arith, i (elapsed now b.last_refill))

  -- The checks change neither the limit nor the window.
  checks-settings :
      (P : ℕ → ℕ → Type 0) (l : RateLimiter) (cs : List (Text × Nanos))
      → P l.max_requests l.window_secs
      → P (checks refill l cs).max_requests (checks refill l cs).window_secs
  unfolding checks check
  checks-settings P l [] h = h
  checks-settings P l ((key, now) ∷ cs) h = checks-settings P (check refill l now key).0 cs h

  admitted-capped :
      (rate per wait : ℕ) (l : RateLimiter) (key : Text) (start until : Nanos) (ts : List Nanos)
      → 0 < per
      → IsSlow rate per l
      → IsIdle wait l
      → IsCapped l
      → start ≤ until
      → All (λ now. now ≤ until) ts
      → admitted refill l key (start ∷ ts) * per
        ≤ l.max_requests * per + (wait + (until - start)) * rate
  unfolding admitted check
  admitted-capped rate per wait l key start until ts p s i c u a =
      let b₁ = refilled refill l start (bucket l start key) in
      let (b', answer) = take_token b₁ in
      let l' : RateLimiter = record l { buckets = insert l.buckets key b' } in
      let found : get l'.buckets key ≡ some b' =
        get-insert l.buckets key key b' ∙ rw (eq_refl key) refl in
      let waited : until - b₁.last_refill ≤ wait + (until - start) =
        omega (arith, refilled-since wait l start (bucket l start key) i) in
      let capped : b₁.tokens ≤ l.max_requests =
        refilled_cap refill l start (bucket l start key) (bucket_cap refill l start key c) in
      omega (
        arith,
        u,
        admitted_until rate per until l' key ts b' p s a found,
        add-mul (count answer) (admitted refill l' key ts) per,
        take_token-potential rate per until b₁,
        mul-le-mul_right rate waited,
        mul-le-mul_right per capped,
      )

  -- Whatever was checked before, of the checks of one key in a span of time no more are let through than
  -- the limit and what the rate of the refills brings in this time, with the longest time in which nothing
  -- is refilled added to it. The limit counts as 1 where it is 0. A refill brings no more than `rate` tokens
  -- in `per` nanoseconds, and brings some in any time longer than `wait`.
  pub admitted-checks :
      (rate per wait max_requests window_secs : ℕ) (history : List (Text × Nanos)) (key : Text)
      (start until : Nanos) (ts : List Nanos)
      → 0 < per
      → IsSlow rate per (new max_requests window_secs)
      → IsIdle wait (new max_requests window_secs)
      → start ≤ until
      → All (λ now. now ≤ until) ts
      → admitted refill (checks refill (new max_requests window_secs) history) key (start ∷ ts)
          * per
        ≤ max max_requests 1 * per + (wait + (until - start)) * rate
  unfolding new get
  admitted-checks rate per wait max_requests window_secs history key start until ts p s i u a =
      let l = new max_requests window_secs in
      let slow : IsSlow rate per (checks refill l history) =
        checks-settings (λ m w. (d : Nanos) → refill d (from_secs w) m * per ≤ d * rate) l history
          s in
      let idle : IsIdle wait (checks refill l history) =
        checks-settings (λ m w. (d : Nanos) → refill d (from_secs w) m ≡ 0 → d ≤ wait) l history
          i in
      let same : (checks refill l history).max_requests ≡ max max_requests 1 =
        checks-settings (λ m w. m ≡ max max_requests 1) l history refl in
      omega (
        arith,
        ap (λ (m : ℕ). m * per) same,
        admitted-capped rate per wait (checks refill l history) key start until ts p slow idle
            (checks-IsCapped refill l history (λ key. omega arith)) u a,
      )
