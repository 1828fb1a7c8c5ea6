-- ===== src/Base/Time.antt =====
-- `time.Time` as the instant it denotes, in nanoseconds since year 1 in UTC; the zero value is 0.
-- The code modelled here compares instants, tests them for zero and adds no durations to them.
use Prim.Native.Nat.{ℕ}
use mathlib.Core.Bool.{Bool}
use review.Base.Tests.{ltb, ◌==◌}

abbrev pub Time : Type 0
Time = ℕ

-- Time.IsZero
abbrev pub is_zero : Time → Bool
is_zero t = t == 0

-- Time.Before and Time.After
abbrev pub before : Time → Time → Bool
before t u = ltb t u

abbrev pub after : Time → Time → Bool
after t u = ltb u t
