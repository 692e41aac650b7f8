-- ===== src/Clock.antt =====
-- pkg/uefi/clock.go: the seconds since 1970 of an EFI_TIME.
pub mod Epoch
pub mod Ticks
pub mod Cached
pub mod Shared
use uki_stub.Common.{
  ℕ, zero, suc, ◌+◌, ◌-◌, ◌*◌, ◌/◌, ◌%◌, ◌^◌, Bool, ◌&&◌, ◌||◌, not, List, [], ◌∷◌, ltb, leb, ◌==◌,
  if◌then◌else◌, get_or, Outcome, ok, panic, ◌>>=◌,
}

-- EFI_TIME, with the fields that GetEpoch reads.
pub record EfiTime : Type 0 where
  pub year : ℕ
  pub month : ℕ
  pub day : ℕ
  pub hour : ℕ
  pub minute : ℕ
  pub second : ℕ
  pub nanosecond : ℕ

abbrev pub seconds_per_minute : ℕ
seconds_per_minute = 60

abbrev pub seconds_per_hour : ℕ
seconds_per_hour = 60 * 60

abbrev pub seconds_per_day : ℕ
seconds_per_day = 24 * (60 * 60)

abbrev pub days_per_400_years : ℕ
days_per_400_years = 365 * 400 + 97

abbrev pub days_per_100_years : ℕ
days_per_100_years = 365 * 100 + 24

abbrev pub days_per_4_years : ℕ
days_per_4_years = 365 * 4 + 1

-- absoluteZeroYear, which is below 0: its distance from the year 0.
abbrev pub absolute_zero_year : ℕ
absolute_zero_year = 292277022399

-- absoluteToInternal and internalToUnix, both below 0: their distance from 0. 365.2425 is
-- 146097 / 400, and 400 divides the years.
abbrev pub absolute_to_internal : ℕ
absolute_to_internal = 730692556 * 146097 * (24 * (60 * 60))

abbrev pub internal_to_unix : ℕ
internal_to_unix = (1969 * 365 + 1969 / 4 - 1969 / 100 + 1969 / 400) * (24 * (60 * 60))

abbrev pub days_before : List ℕ
days_before = 0 ∷ 31 ∷ 59 ∷ 90 ∷ 120 ∷ 151 ∷ 181 ∷ 212 ∷ 243 ∷ 273 ∷ 304 ∷ 334 ∷ 365 ∷ []

-- daysSinceEpoch, on a year from 0 on.
unfoldable pub days_since_epoch : ℕ → ℕ
days_since_epoch year =
    let y = year + absolute_zero_year in
    let y1 = y - 400 * (y / 400) in
    let y2 = y1 - 100 * (y1 / 100) in
    let y3 = y2 - 4 * (y2 / 4) in
    days_per_400_years * (y / 400)
    + days_per_100_years * (y1 / 100)
    + days_per_4_years * (y2 / 4)
    + 365 * y3

unfoldable pub is_leap : ℕ → Bool
is_leap year = year % 4 == 0 && (not (year % 100 == 0) || year % 400 == 0)

-- Read of the table, which panics outside it: the index is `month - 1` for a `month` that is
-- already counted from 0.
unfoldable pub days_before_month : ℕ → Outcome ℕ
days_before_month zero = panic
days_before_month (suc m) = if ltb m 13 then ok (get_or days_before m 0) else panic

-- GetEpoch: the seconds as the 64 bits of an int64, and the nanoseconds.
unfoldable pub get_epoch : EfiTime → Outcome (ℕ × ℕ)
unfolding days_since_epoch is_leap days_before_month
get_epoch t = if t.month == 0 then panic else do
  before ← days_before_month (t.month - 1)
  let leap = if is_leap t.year && leb 3 (t.month - 1) then 1 else 0
  let d = days_since_epoch t.year + before + leap + (t.day + 255) % 256
  let abs =
      (d * seconds_per_day + (t.hour * seconds_per_hour + t.minute * seconds_per_minute + t.second))
      % 2 ^ 64
  ok ((abs + (2 ^ 64 - (absolute_to_internal + internal_to_unix) % 2 ^ 64)) % 2 ^ 64, t.nanosecond)
