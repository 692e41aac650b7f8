-- ===== src/Clock/Epoch.antt =====
-- What GetEpoch of pkg/uefi/clock.go counts.
use uki_stub.Common.{
  ℕ, zero, suc, ◌+◌, ◌-◌, ◌*◌, ◌%◌, ◌^◌, ◌≤◌, ◌<◌, ◌≡◌, refl, ap, ◌∙◌, false, ◌&&◌, ◌||◌, arith,
  leb, ◌==◌, if◌then◌else◌, ==_ne, ok, panic,
}
use uki_stub.Clock.{EfiTime, days_since_epoch, is_leap, days_before_month, get_epoch}

-- The days from 1970-01-01 to the first day of the `n`-th year after 1970, counted year by year.
unfoldable pub year_start : ℕ → ℕ
unfolding is_leap
year_start zero = 0
year_start (suc n) = year_start n + (if is_leap (1970 + n) then 366 else 365)

days-suc :
    (y : ℕ) → days_since_epoch (suc y) ≡ days_since_epoch y + (if is_leap y then 366 else 365)
unfolding days_since_epoch is_leap
days-suc y = ground arith

days_1970 : days_since_epoch 1970 ≡ 730692556 * 146097 + 719162
unfolding days_since_epoch
days_1970 = refl

-- The days that daysSinceEpoch counts for a year from 1970 on are those of a count year by year,
-- behind a fixed number of days before 1970.
days_since_epoch-year_start :
    (n : ℕ) → days_since_epoch (1970 + n) ≡ year_start n + (730692556 * 146097 + 719162)
unfolding year_start
days_since_epoch-year_start zero = days_1970
days_since_epoch-year_start (suc n) =
    let step : days_since_epoch (suc (1970 + n))
        ≡ days_since_epoch (1970 + n) + (if is_leap (1970 + n) then 366 else 365) =
      days-suc (1970 + n) in
    let same : 1970 + suc n ≡ suc (1970 + n) = omega arith in
    rw same (omega (arith, step, days_since_epoch-year_start n))

year_start_le : (n : ℕ) → year_start n ≤ 366 * n
unfolding year_start
year_start_le zero = omega arith
year_start_le (suc n) = ground (arith, year_start_le n)

-- The length of a month, the first of which is 1.
unfoldable pub month_length : ℕ → ℕ → ℕ
unfolding is_leap
month_length year m =
    if m == 2
    then (if is_leap year then 29 else 28)
    else if m == 4 || m == 6 || m == 9 || m == 11
    then 30
    else 31

-- The days of a year before a month, counted month by month.
unfoldable pub month_start : ℕ → ℕ → ℕ
unfolding month_length
month_start year zero = 0
month_start year (suc zero) = 0
month_start year (suc (suc m)) = month_start year (suc m) + month_length year (suc m)

-- The seconds from 1970-01-01 00:00:00 on, of a date from then on.
unfoldable pub unix_seconds : EfiTime → ℕ
unfolding year_start month_start
unix_seconds t =
    (year_start (t.year - 1970) + month_start t.year t.month + (t.day - 1)) * 86400
    + t.hour * 3600
    + t.minute * 60
    + t.second

days_before_month-month_start :
    (year m : ℕ)
    → 1 ≤ m
    → m ≤ 11
    → (b : ℕ) × (days_before_month m ≡ ok b)
      × (b + (if is_leap year && leb 3 m then 1 else 0) ≡ month_start year m)
unfolding days_before_month month_start month_length
days_before_month-month_start year zero h k = absurd (omega (arith, h))
days_before_month-month_start year (suc zero) h k = (0, refl, ground arith)
days_before_month-month_start year (suc (suc zero)) h k = (31, refl, ground arith)
days_before_month-month_start year (suc (suc (suc zero))) h k = (59, refl, ground arith)
days_before_month-month_start year (suc (suc (suc (suc zero)))) h k = (90, refl, ground arith)
days_before_month-month_start year (suc (suc (suc (suc (suc zero))))) h k =
    (120, refl, ground arith)
days_before_month-month_start year (suc (suc (suc (suc (suc (suc zero)))))) h k =
    (151, refl, ground arith)
days_before_month-month_start year (suc (suc (suc (suc (suc (suc (suc zero))))))) h k =
    (181, refl, ground arith)
days_before_month-month_start year (suc (suc (suc (suc (suc (suc (suc (suc zero)))))))) h k =
    (212, refl, ground arith)
days_before_month-month_start year (suc (suc (suc (suc (suc (suc (suc (suc (suc zero))))))))) h k =
    (243, refl, ground arith)
days_before_month-month_start year (suc (suc (suc (suc (suc (suc (suc (suc (suc (suc zero))))))))))
      h k =
    (273, refl, ground arith)
days_before_month-month_start year
      (suc (suc (suc (suc (suc (suc (suc (suc (suc (suc (suc zero))))))))))) h k =
    (304, refl, ground arith)
days_before_month-month_start year
      (suc (suc (suc (suc (suc (suc (suc (suc (suc (suc (suc (suc m)))))))))))) h k =
    absurd (omega (arith, h, k))

month_length_le : (year m : ℕ) → month_length year m ≤ 31
unfolding month_length
month_length_le year m = ground arith

month_start_le : (year m : ℕ) → month_start year m ≤ 31 * m
unfolding month_start
month_start_le year zero = omega arith
month_start_le year (suc zero) = omega arith
month_start_le year (suc (suc m)) =
    omega (arith, month_start_le year (suc m), month_length_le year (suc m))

-- The shift from the absolute seconds to those since 1970 does not wrap around.
seconds_shift :
    (d days tod : ℕ)
    → d ≡ days + (730692556 * 146097 + 719162)
    → days ≤ 4000000
    → tod < 86400
    → ((d * 86400 + tod) % 2 ^ 64
          + (2 ^ 64 - (730692556 * 146097 * 86400 + 719162 * 86400) % 2 ^ 64))
        % 2 ^ 64
      ≡ days * 86400 + tod
seconds_shift d days tod e le lt = omega arith

-- GetEpoch gives the second of the same day one month earlier, since it counts the months from 0
-- and then still subtracts 1, for the valid dates of 1970 to 9999 that are not in January.
pub get_epoch_month_before :
    (t : EfiTime)
    → 1970 ≤ t.year
    → t.year ≤ 9999
    → 2 ≤ t.month
    → t.month ≤ 12
    → 1 ≤ t.day
    → t.day ≤ 31
    → t.hour < 24
    → t.minute < 60
    → t.second < 60
    → get_epoch t ≡ ok (unix_seconds (record t { month = t.month - 1 }), t.nanosecond)
unfolding get_epoch unix_seconds
get_epoch_month_before t y0 y1 m0 m1 d0 d1 h mi s =
    let (b, e, f) =
      days_before_month-month_start t.year (t.month - 1) (omega (arith, m0)) (omega (arith, m1)) in
    let year : 1970 + (t.year - 1970) ≡ t.year = omega (arith, y0) in
    let start = rw year at (days_since_epoch-year_start (t.year - 1970)) in
    let days = year_start (t.year - 1970) + month_start t.year (t.month - 1) + (t.day - 1) in
    let shift =
      seconds_shift
        (days_since_epoch t.year
          + b
          + (if is_leap t.year && leb 3 (t.month - 1) then 1 else 0)
          + (t.day + 255) % 256)
        days (t.hour * 3600 + t.minute * 60 + t.second) (omega (arith, start, f, d0, d1))
        (omega
          (arith, year_start_le (t.year - 1970), month_start_le t.year (t.month - 1), y1, m1, d1))
        (omega (arith, h, mi, s)) in
    let no : (t.month == 0) ≡ false = ==_ne t.month 0 (omega (arith, m0)) in
    rw no (rw e (ap (λ (n : ℕ). ok (n, t.nanosecond)) (shift ∙ omega arith)))

-- On a date in January it panics: the index is -1.
pub get_epoch_january : (t : EfiTime) → t.month ≡ 1 → get_epoch t ≡ panic
unfolding get_epoch days_before_month
get_epoch_january t e = ground (arith, e)
