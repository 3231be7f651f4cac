-- ===== src/Time.antt =====
-- libcluon/include/cluon/Time.hpp. Integers are two's complement patterns: the fields of a time stamp
-- at 32 bits, times in microseconds at 64.
mod Tests
use libcluon.Prelude.{
  ℕ, ◌+◌, ◌-◌, ◌*◌, ◌/◌, ◌%◌, ◌^◌, ◌<◌, ◌≤◌, ◌≡◌, ◌⊎◌, arith, ltb, if◌then◌else◌,
}
use libcluon.Envelope.{TimeStamp}

-- convert(), for time points from the epoch on, counted in nanoseconds as std::chrono::system_clock
-- does under Linux. The seconds are cast to int32_t, and the microseconds are what is left of the whole time, cast to
-- int32_t too: at 32 bits a multiple of 2 ^ 32 seconds makes no difference.
unfoldable pub convert : ℕ → TimeStamp
convert ns =
    let seconds = ns / 1_000_000_000 % 2 ^ 32 in
    (seconds, ((ns / 1_000 + 2 ^ 32 * 1_000_000 - seconds * 1_000_000) % 2 ^ 32, tt))

-- For times from the epoch up to 2038, convert gives the whole seconds and the microseconds
-- within the second, and together they are the time in microseconds.
pub convert_parts :
    (ns : ℕ)
    → ns < 2 ^ 31 * 1_000_000_000
    → ((convert ns).0 ≡ ns / 1_000_000_000)
      × ((convert ns).1.0 ≡ ns / 1_000 % 1_000_000)
      × ((convert ns).0 * 1_000_000 + (convert ns).1.0 ≡ ns / 1_000)
unfolding convert
convert_parts ns h = omega arith

-- An int32_t as an int64_t, and the int32_t of minus n.
abbrev widen : ℕ → ℕ
widen v = if ltb v (2 ^ 31) then v else v + (2 ^ 64 - 2 ^ 32)

abbrev minus : ℕ → ℕ
minus n = (2 ^ 32 - n % 2 ^ 32) % 2 ^ 32

-- fromMicroseconds(tp): division and remainder of a negative time round towards zero.
unfoldable pub from_microseconds : ℕ → TimeStamp
from_microseconds tp =
    if ltb tp (2 ^ 63)
    then (tp / 1_000_000 % 2 ^ 32, (tp % 1_000_000, tt))
    else (minus ((2 ^ 64 - tp) / 1_000_000), (minus ((2 ^ 64 - tp) % 1_000_000), tt))

-- toMicroseconds(tp)
unfoldable pub to_microseconds : TimeStamp → ℕ
to_microseconds tp = (widen tp.0 * 1_000_000 + widen tp.1.0) % 2 ^ 64

-- deltaInMicroseconds(AFTER, BEFORE)
unfoldable pub delta_in_microseconds : TimeStamp → TimeStamp → ℕ
delta_in_microseconds after before =
    (to_microseconds after + (2 ^ 64 - to_microseconds before)) % 2 ^ 64

-- The time in microseconds has its seconds in an int32_t.
abbrev pub HasSeconds : ℕ → Type 0
HasSeconds tp = (tp < 2 ^ 64) × (tp < 2 ^ 31 * 1_000_000 ⊎ (2 ^ 64 - 2 ^ 31 * 1_000_000 ≤ tp))

-- A time in microseconds, before the epoch too, that is made a time stamp is given back, if its
-- seconds fit an int32_t.
pub to_microseconds-from_microseconds :
    (tp : ℕ) → HasSeconds tp → to_microseconds (from_microseconds tp) ≡ tp
unfolding to_microseconds from_microseconds
to_microseconds-from_microseconds tp h = ground arith

-- The delta of the time stamps of two times is the time that has passed between them, also across
-- the epoch, if the seconds of both fit an int32_t.
pub delta_in_microseconds-from_microseconds :
    (now elapsed : ℕ)
    → HasSeconds now
    → HasSeconds ((now + elapsed) % 2 ^ 64)
    → elapsed < 2 ^ 64
    → delta_in_microseconds (from_microseconds ((now + elapsed) % 2 ^ 64)) (from_microseconds now)
      ≡ elapsed
unfolding delta_in_microseconds
delta_in_microseconds-from_microseconds now elapsed h k l = omega (
  arith,
  to_microseconds-from_microseconds now h,
  to_microseconds-from_microseconds ((now + elapsed) % 2 ^ 64) k,
)

-- For times from the epoch up to 2038, the time stamp of a clock's time stands for its whole
-- microseconds.
pub to_microseconds-convert :
    (ns : ℕ) → ns < 2 ^ 31 * 1_000_000_000 → to_microseconds (convert ns) ≡ ns / 1_000
unfolding to_microseconds
to_microseconds-convert ns h = ground (arith, convert_parts ns h)
