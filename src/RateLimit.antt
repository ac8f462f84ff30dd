-- ===== src/RateLimit.antt =====
-- src/ratelimit.rs: token buckets, one for each client. The clock is the argument `now`, and the
-- floating-point computation of a refill is a parameter, as is the middleware's `next`.
pub mod Budget
pub mod Capped
pub mod Rate
use xfiles.Prelude.{
  ℕ, suc, ◌+◌, ◌-◌, ◌%◌, ◌^◌, min, max, Bool, true, false, Option, none, some, List, [], ◌∷◌, ltb,
  if◌then◌else◌, Text, text_eq, Map,
}
use xfiles.Prelude.Maps.{get, insert}
use xfiles.Prelude.Time.{Nanos, from_secs, elapsed}

pub record TokenBucket : Type 0 where
  pub tokens : ℕ
  pub last_refill : Nanos

pub record RateLimiter : Type 0 where
  pub buckets : Map Text TokenBucket
  pub max_requests : ℕ
  pub window_secs : ℕ

unfoldable pub new : ℕ → ℕ → RateLimiter
new max_requests window_secs = record {
  buckets = [];
  max_requests = max max_requests 1;
  window_secs = max window_secs 1;
}

-- `entry(key).or_insert_with(...)`
abbrev pub or_full : ℕ → Nanos → Option TokenBucket → TokenBucket
or_full max_requests now none = record { tokens = max_requests; last_refill = now }
or_full max_requests now (some b) = b

-- `if entry.tokens > 0`
unfoldable pub take_token : TokenBucket → TokenBucket × Bool
take_token b = if ltb 0 b.tokens then (record b { tokens = b.tokens - 1 }, true) else (b, false)

-- `refill elapsed window max` is `(elapsed / window * max) as u64`.
module _ (refill : Nanos → Nanos → ℕ → ℕ) where
  -- The tokens that a check grants for the time since the last refill.
  unfoldable pub granted : RateLimiter → Nanos → TokenBucket → ℕ
  granted l now b = refill (elapsed now b.last_refill) (from_secs l.window_secs) l.max_requests

  unfoldable pub refilled : RateLimiter → Nanos → TokenBucket → TokenBucket
  unfolding granted
  refilled l now b =
      let r = granted l now b in
      if ltb 0 r
      then record { tokens = min ((b.tokens + r) % 2 ^ 64) l.max_requests; last_refill = now }
      else b

  unfoldable pub check : RateLimiter → Nanos → Text → RateLimiter × Bool
  unfolding refilled take_token
  check l now key =
      let (b, answer) =
        take_token (refilled l now (or_full l.max_requests now (get l.buckets key))) in
      (record l { buckets = insert l.buckets key b }, answer)

-- The key of a request: the address of its connection, and its path where that is not known.
abbrev pub client_key : Option Text → Text → Text
client_key none path = path
client_key (some address) path = address

module _ {ℓ} {Response : Type ℓ} (refill : Nanos → Nanos → ℕ → ℕ)
    (too_many_requests : Response) where
  -- `next` is what the rest of the server answers.
  unfoldable pub rate_limit_middleware :
      RateLimiter → Nanos → Option Text → Text → Response → RateLimiter × Response
  rate_limit_middleware l now address path next =
      let (l', allowed) = check refill l now (client_key address path) in
      (l', if allowed then next else too_many_requests)
