-- ===== src/Clock.antt =====
-- Go's `time.Time` and the protobuf timestamps that the records carry.
--
-- A time is a number of nanoseconds since the zero `time.Time` (January 1, year 1, UTC), so
-- `IsZero` is the test for 0 and no earlier time is represented. A `*timestamppb.Timestamp` is an
-- `Option`: `AsTime` of a nil timestamp is the Unix epoch, as `GetSeconds` of nil is 0.
use codestra_alertmanager.Prelude.{ℕ, ◌*◌, ◌^◌, ◌/◌, Bool, Option, none, some, ltb, nat_beq}

abbrev pub Time : Type 0
Time = ℕ

-- Durations that are configured: retention, repeat interval and expiry are never negative.
abbrev pub Duration : Type 0
Duration = ℕ

abbrev pub Timestamp : Type 0
Timestamp = Option Time

abbrev pub second : Duration
second = 10 ^ 9

-- 1970-01-01, 62135596800 seconds after the zero time.
abbrev pub unix_epoch : Time
unix_epoch = 62135596800 * 10 ^ 9

-- t.Before(u)
abbrev pub before : Time → Time → Bool
before t u = ltb t u

-- t.After(u)
abbrev pub after : Time → Time → Bool
after t u = ltb u t

abbrev pub is_zero : Time → Bool
is_zero t = nat_beq t 0

abbrev pub as_time : Timestamp → Time
as_time none = unix_epoch
as_time (some t) = t

-- `t.Unix()` up to the constant offset of the epoch, a whole number of seconds: two times have the
-- same Unix second exactly when these numbers agree.
abbrev pub unix : Time → ℕ
unix t = t / second
