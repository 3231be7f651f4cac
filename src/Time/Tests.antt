-- ===== src/Time/Tests.antt =====
-- The theorems on time stamps at concrete times.
use libcluon.Prelude.{◌-◌, ◌^◌, ◌≡◌, inr, arith}
use libcluon.Time.{from_microseconds, to_microseconds, to_microseconds-from_microseconds}

-- One and a half seconds before the epoch.
to_microseconds-from_microseconds_example :
    to_microseconds (from_microseconds (2 ^ 64 - 1_500_000)) ≡ 2 ^ 64 - 1_500_000
to_microseconds-from_microseconds_example =
    to_microseconds-from_microseconds (2 ^ 64 - 1_500_000) (omega arith, inr (omega arith))
