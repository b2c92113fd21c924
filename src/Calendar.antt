-- ===== src/Calendar.antt =====
-- The parts of Go's package time, of strconv and of fmt that the program prints with: durations
-- in nanoseconds, the UTC calendar of a time, and decimal digits. A time is the number of
-- nanoseconds since the Unix epoch, so times before 1970 are left out.
use rainlogs.Prelude.{
  ℕ, zero, suc, ◌+◌, ◌-◌, ◌*◌, ◌/◌, ◌%◌, [], ◌∷◌, ◌++◌, ltb, leb, if◌then◌else◌, Bytes,
}

abbrev pub millisecond : ℕ
millisecond = 1_000_000

abbrev pub second : ℕ
second = 1_000_000_000

abbrev pub minute : ℕ
minute = 60 * second

abbrev pub hour : ℕ
hour = 60 * minute

abbrev pub day : ℕ
day = 24 * hour

-- Decimal digits; every round drops one digit, so as many rounds as the value are enough.
digits_from : ℕ → ℕ → Bytes → Bytes
digits_from zero n acc = acc
digits_from (suc fuel) n acc =
    let more = digits_from fuel (n / 10) ((b'0' + n % 10) ∷ acc) in
    if ltb n 10 then (b'0' + n % 10) ∷ acc else more

-- fmt's %d of a non-negative number.
unfoldable pub decimal : ℕ → Bytes
unfolding digits_from
decimal n = digits_from (suc n) n []

-- The last `width` digits, with leading zeros.
unfoldable pub padded : ℕ → ℕ → Bytes
padded zero n = []
padded (suc width) n = padded width (n / 10) ++ (b'0' + n % 10) ∷ []

pub record Date : Type 0 where
  pub year : ℕ
  pub month : ℕ
  pub day_of_month : ℕ

-- The proleptic Gregorian date of a day number, counted from 1970-01-01, by 400-year eras that
-- begin in March.
unfoldable pub date_of : ℕ → Date
date_of days =
    let z = days + 719468 in
    let era = z / 146097 in
    let doe = z % 146097 in
    let yoe = (doe + doe / 36524 - doe / 1460 - doe / 146096) / 365 in
    let doy = doe + yoe / 100 - 365 * yoe - yoe / 4 in
    let mp = (5 * doy + 2) / 153 in
    let month : ℕ = if ltb mp 10 then mp + 3 else mp - 9 in
    record {
      year = yoe + era * 400 + (if leb month 2 then 1 else 0);
      month = month;
      day_of_month = doy - (153 * mp + 2) / 5 + 1;
    }

-- Format("2006/01/02")
unfoldable pub format_day : ℕ → Bytes
unfolding date_of padded
format_day t =
    let d = date_of (t / day) in
    padded 4 d.year ++ (b'/' ∷ padded 2 d.month ++ (b'/' ∷ padded 2 d.day_of_month))

-- Format("20060102T150405Z")
unfoldable pub format_stamp : ℕ → Bytes
unfolding date_of padded
format_stamp t =
    let d = date_of (t / day) in
    let secs = t / second % 86400 in
    padded 4 d.year
    ++ (padded 2 d.month
        ++ (padded 2 d.day_of_month
            ++ (b'T' ∷ padded 2 (secs / 3600)
                ++ (padded 2 (secs / 60 % 60) ++ (padded 2 (secs % 60) ++ b'Z' ∷ [])))))

-- PostgreSQL's date_trunc('month', t), in UTC.
unfoldable pub month_start : ℕ → ℕ
unfolding date_of
month_start t = (t / day - ((date_of (t / day)).day_of_month - 1)) * day
