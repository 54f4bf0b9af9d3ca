-- ===== src/Clock.antt =====
-- Go's `time.Time` and `time.Duration` as the gateway uses them: a time is the number of
-- nanoseconds since Go's zero time, so `IsZero` is a test against 0, and a duration is signed.
use sovereign_vpn.Base.{ℕ, suc, ◌+◌, ◌-◌, ◌*◌, ◌/◌, Bool, ltb, ℤ, sub_ℕ}

abbrev pub Time : Type 0
Time = ℕ

abbrev pub Duration : Type 0
Duration = ℤ

abbrev pub second : ℕ
second = 1_000_000_000

abbrev pub minute : ℕ
minute = 60_000_000_000

-- `t.After(u)` and `t.Before(u)`
abbrev pub after : Time → Time → Bool
after t u = ltb u t

abbrev pub before : Time → Time → Bool
before t u = ltb t u

-- `t.Add(d)`, for results that are not before the zero time
abbrev pub add : Time → Duration → Time
add t (ℤ.pos d) = t + d
add t (ℤ.negsuc d) = t - suc d

-- `t.Sub(u)`: `time.Until(t)` and `time.Since(u)` at the other reading
abbrev pub sub : Time → Time → Duration
sub t u = sub_ℕ t u

-- Seconds between Go's zero time and the Unix epoch.
abbrev pub unix_epoch : ℕ
unix_epoch = 62_135_596_800

-- `time.Unix(n, 0)`; times before Go's zero time are cut off at it
abbrev pub unix : ℤ → Time
unix (ℤ.pos n) = (unix_epoch + n) * second
unix (ℤ.negsuc n) = (unix_epoch - suc n) * second

-- `t.Unix()`, for a time from the epoch on
abbrev pub to_unix : Time → ℕ
to_unix t = t / second - unix_epoch
