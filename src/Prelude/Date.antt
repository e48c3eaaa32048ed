-- ===== src/Prelude/Date.antt =====
-- `Date` of the language. A valid time is counted in milliseconds from the earliest one that the
-- type has, 8640000000000000 ms before 1970, so that every valid time is a natural number.
use Prim.Native.Nat.{ℕ, ◌+◌, ◌*◌}
use mathlib.Core.Bool.{Bool, true, false}
use bom_trato_api.Prelude.Tests.{ltb, leb, ◌==◌, if◌then◌else◌}

pub data Date : Type 0 where
  at : ℕ → Date
  invalid : Date

-- The time of 1970-01-01T00:00:00Z.
abbrev pub epoch : ℕ
epoch = 8640000000000000

-- The last time that the type has.
abbrev pub last_time : ℕ
last_time = 17280000000000000

-- `Number.isFinite(d.getTime())`
abbrev pub is_valid : Date → Bool
is_valid (at t) = true
is_valid invalid = false

-- `a <= b`, `a < b`; a comparison with NaN is false.
abbrev pub date_le : Date → Date → Bool
date_le (at s) (at t) = leb s t
date_le _ _ = false

abbrev pub date_lt : Date → Date → Bool
date_lt (at s) (at t) = ltb s t
date_lt _ _ = false

-- `a.getTime() === b.getTime()`; NaN equals nothing.
abbrev pub same_time : Date → Date → Bool
same_time (at s) (at t) = s == t
same_time _ _ = false

-- `new Date(d.getTime() + ms)`
abbrev pub add_ms : Date → ℕ → Date
add_ms (at t) ms = if leb (t + ms) last_time then at (t + ms) else invalid
add_ms invalid ms = invalid

-- `b.getTime() - a.getTime() > ms`, and `< ms`
abbrev pub longer_than : Date → Date → ℕ → Bool
longer_than (at s) (at t) ms = ltb (s + ms) t
longer_than _ _ ms = false

abbrev pub shorter_than : Date → Date → ℕ → Bool
shorter_than (at s) (at t) ms = ltb t (s + ms)
shorter_than _ _ ms = false

-- `b.getTime() - a.getTime() >= ms`
abbrev pub spans : Date → Date → ℕ → Bool
spans (at s) (at t) ms = leb (s + ms) t
spans _ _ ms = false

-- The time of a Unix timestamp in seconds.
abbrev pub from_seconds : ℕ → Date
from_seconds s = at (epoch + s * 1000)
