-- ===== src/Access/Calendar.antt =====
-- The date and the time of day of a number of seconds since the first of January of the year 1, in the
-- Gregorian calendar, as the layout of formatTime (internal/access/store.go) prints and reads them.
use cpa_access_manager.Base.{
  ℕ, zero, suc, ◌+◌, ◌-◌, ◌*◌, ◌/◌, ◌%◌, Bool, ◌&&◌, ◌||◌, not, List, [], ◌∷◌, ◌++◌, Option, none,
  some, ltb, leb, ◌==◌, if◌then◌else◌,
}
use cpa_access_manager.Base.Text.{Text}

abbrev pub digit : ℕ → ℕ
digit d = 48 + d

abbrev pub is_digit : ℕ → Bool
is_digit c = leb b'0' c && leb c b'9'

abbrev at_most : ℕ → ℕ → ℕ
at_most limit n = if ltb limit n then limit else n

abbrev is_leap : ℕ → Bool
is_leap y = y % 4 == 0 && (not (y % 100 == 0) || y % 400 == 0)

month_lengths : ℕ → List ℕ
month_lengths y =
    31 ∷ (if is_leap y then 29 else 28) ∷ 31 ∷ 30 ∷ 31 ∷ 30 ∷ 31 ∷ 31 ∷ 30 ∷ 31 ∷ 30 ∷ 31 ∷ []

-- The month and the day of the month, both from 1, of a day of the year, from 0.
month_and_day : ℕ → List ℕ → ℕ → ℕ × ℕ
month_and_day month [] day = (month, day + 1)
month_and_day month (n ∷ lengths) day =
    let later = month_and_day (month + 1) lengths (day - n) in
    if ltb day n then (month, day + 1) else later

-- The year, and the day of it, of a number of days: cycles of 400, 100, 4 years and one.
year_and_day : ℕ → ℕ × ℕ
year_and_day days =
    let in_400 = days % 146_097 in
    let centuries = at_most 3 (in_400 / 36_524) in
    let in_100 = in_400 - centuries * 36_524 in
    let in_4 = in_100 % 1_461 in
    let years = at_most 3 (in_4 / 365) in
    (days / 146_097 * 400 + centuries * 100 + in_100 / 1_461 * 4 + years + 1, in_4 - years * 365)

two_digits : ℕ → Text
two_digits n = digit (n / 10 % 10) ∷ digit (n % 10) ∷ []

-- The digits before the last four of a year, of which there are few.
more_digits : ℕ → ℕ → Text
more_digits zero n = []
more_digits (suc k) n =
    let before = more_digits k (n / 10) in if n == 0 then [] else before ++ (digit (n % 10) ∷ [])

year_digits : ℕ → Text
unfolding two_digits more_digits
year_digits y = more_digits 20 (y / 10_000) ++ (two_digits (y / 100) ++ two_digits y)

date_of : ℕ → ℕ × ℕ → Text
unfolding year_digits two_digits
date_of y (month, day) = year_digits y ++ (b'-' ∷ (two_digits month ++ (b'-' ∷ two_digits day)))

time_of_day : ℕ → Text
unfolding two_digits
time_of_day n =
    two_digits (n / 3600) ++ (b':' ∷ (two_digits (n / 60 % 60) ++ (b':' ∷ two_digits (n % 60))))

-- 2006-01-02T15:04:05
unfoldable pub date_and_time : ℕ → Text
unfolding date_of time_of_day year_and_day month_and_day month_lengths
date_and_time seconds =
    let (y, day) = year_and_day (seconds / 86_400) in
    date_of y (month_and_day 1 (month_lengths y) day) ++ (b'T' ∷ time_of_day (seconds % 86_400))

-- A number of `n` digits, after those that made `acc`, and then the byte `stop`.
number_then : ℕ → ℕ → ℕ → Text → Option (ℕ × Text)
number_then zero acc stop [] = none
number_then zero acc stop (c ∷ s) = if c == stop then some (acc, s) else none
number_then (suc n) acc stop [] = none
number_then (suc n) acc stop (c ∷ s) =
    let rest = number_then n (acc * 10 + (c - b'0')) stop s in if is_digit c then rest else none

-- Two digits, and what follows.
last_number : Text → Option (ℕ × Text)
last_number (a ∷ b ∷ s) =
    if is_digit a && is_digit b then some ((a - b'0') * 10 + (b - b'0'), s) else none
last_number _ = none

-- The days of the months before one, and the length of it.
months_before : ℕ → List ℕ → ℕ × ℕ
months_before month [] = (0, 0)
months_before month (n ∷ lengths) =
    let later = months_before (month - 1) lengths in
    if month == 1 then (0, n) else (n + later.0, later.1)

-- The seconds to a date and time, where there is such a date in the year 1 or later.
seconds_to : ℕ → ℕ → ℕ → ℕ → ℕ → ℕ → Option ℕ
unfolding months_before month_lengths
seconds_to y month day hour minute second =
    let p = y - 1 in
    let (before, length) = months_before month (month_lengths y) in
    if leb 1 y
      && leb 1 month
      && leb month 12
      && leb 1 day
      && leb day length
      && ltb hour 24
      && ltb minute 60
      && ltb second 60
    then some (
        (p * 365 + p / 4 - p / 100 + p / 400 + before + (day - 1)) * 86_400
        + hour * 3600
        + minute * 60
        + second)
    else none

with_rest : Text → Option ℕ → Option (ℕ × Text)
with_rest s none = none
with_rest s (some n) = some (n, s)

after_number : Option (ℕ × Text) → (ℕ → Text → Option (ℕ × Text)) → Option (ℕ × Text)
after_number none f = none
after_number (some (n, s)) f = f n s

-- The seconds of the date and time that a text starts with, and what follows.
unfoldable pub parse_date_and_time : Text → Option (ℕ × Text)
unfolding number_then last_number seconds_to with_rest after_number
parse_date_and_time v = after_number (number_then 4 0 b'-' v) (λ y s1.
    after_number (number_then 2 0 b'-' s1) (λ month s2.
      after_number (number_then 2 0 b'T' s2) (λ day s3.
        after_number (number_then 2 0 b':' s3) (λ hour s4.
          after_number (number_then 2 0 b':' s4) (λ minute s5.
            after_number (last_number s5)
              (λ second s6. with_rest s6 (seconds_to y month day hour minute second)))))))
