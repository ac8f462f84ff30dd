-- ===== src/Prelude/Time.antt =====
-- Clocks. An `Instant` and a `DateTime<Utc>` are counted in nanoseconds from an origin before all of
-- them; the first never goes back, the second may.
use Prim.Native.Nat.{ℕ, ◌+◌, ◌-◌, ◌*◌, ◌/◌}
use mathlib.Core.Path.{◌≡◌}
use native.Mathlib.Omega.{arith}
use xfiles.Prelude.Ints.{ℤ, pos, neg, ltb_ℤ}
use xfiles.Prelude.Tests.{leb, if◌then◌else◌}

abbrev pub Nanos : Type 0
Nanos = ℕ

-- `Duration::from_secs(s)`
abbrev pub from_secs : ℕ → Nanos
from_secs s = s * 1_000_000_000

-- `Instant::elapsed` and `duration_since` give zero where the instant lies ahead.
abbrev pub elapsed : Nanos → Nanos → Nanos
elapsed now since = now - since

-- `(now - since).num_seconds()`: whole seconds, rounded towards zero, negative where the clock was
-- set back. The range of `i64` is not reached by dates.
abbrev pub num_seconds : Nanos → Nanos → ℤ
num_seconds now since =
    if leb since now
    then pos ((now - since) / 1_000_000_000)
    else neg ((since - now) / 1_000_000_000)

-- More than some whole seconds have passed where one second more has.
pub ltb-num_seconds :
    (s : ℕ) (now since : Nanos)
    → ltb_ℤ (pos s) (num_seconds now since) ≡ leb (since + from_secs (s + 1)) now
ltb-num_seconds s now since = ground arith
