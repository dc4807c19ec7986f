-- ===== src/Access/Time.antt =====
-- formatTime, parseTime and the comparisons of time.Time (internal/access/store.go). A time is the
-- seconds since the zero time, the first of January of the year 1, and the nanoseconds. A stamp is its
-- text in the layout RFC3339Nano, in UTC, byte by byte. parse_time reads what formatTime writes.
pub mod Order
use cpa_access_manager.Base.{
  ℕ, ◌+◌, ◌-◌, ◌*◌, ◌/◌, ◌%◌, Bool, true, false, ◌&&◌, ◌||◌, List, [], ◌∷◌, ◌++◌, Option, none,
  some, ltb, leb, ◌==◌, if◌then◌else◌,
}
use cpa_access_manager.Base.Text.{Text, trim_right_byte, trim_space}
use cpa_access_manager.Access.Calendar.{digit, is_digit, date_and_time, parse_date_and_time}
use cpa_access_manager.Access.Types.{Time}
use mathlib.Core.Option

abbrev pub zero_time : Time
zero_time = record { seconds = 0; nanos = 0 }

-- t.IsZero()
unfoldable pub is_zero : Time → Bool
is_zero t = t.seconds == 0 && t.nanos == 0

-- t.After(u)
unfoldable pub after : Time → Time → Bool
after t u = ltb u.seconds t.seconds || (t.seconds == u.seconds && ltb u.nanos t.nanos)

-- t.Add of a number of seconds, forward and back. The times of the program lie more than a week
-- after the zero time.
unfoldable pub add_seconds : Time → ℕ → Time
add_seconds t n = record t { seconds = t.seconds + n }

unfoldable pub sub_seconds : Time → ℕ → Time
sub_seconds t n = record t { seconds = t.seconds - n }

-- The nine digits of the nanoseconds.
unfoldable pub nine_digits : ℕ → Text
nine_digits n =
    digit (n / 100_000_000 % 10)
    ∷ digit (n / 10_000_000 % 10)
    ∷ digit (n / 1_000_000 % 10)
    ∷ digit (n / 100_000 % 10)
    ∷ digit (n / 10_000 % 10)
    ∷ digit (n / 1_000 % 10)
    ∷ digit (n / 100 % 10)
    ∷ digit (n / 10 % 10)
    ∷ digit (n % 10)
    ∷ []

unfoldable pub fraction : ℕ → Text
unfolding nine_digits trim_right_byte
fraction n =
    if n == 0 then b'Z' ∷ [] else b'.' ∷ (trim_right_byte b'0' (nine_digits n) ++ b'Z' ∷ [])

-- t.UTC().Format(time.RFC3339Nano)
unfoldable pub stamp : Time → Text
unfolding fraction date_and_time
stamp t = date_and_time t.seconds ++ fraction t.nanos

-- formatTime: the zero time stands for the present.
unfoldable pub format_time : Time → Time → Text
unfolding is_zero stamp
format_time now t = stamp (if is_zero t then now else t)

at_end : Text → Option ℕ
at_end [] = some 0
at_end (d ∷ r) = none

-- The digits of a fraction up to the `Z`; the first counts `weight` nanoseconds.
unfoldable pub parse_fraction : ℕ → Text → Option ℕ
unfolding at_end
parse_fraction weight [] = none
parse_fraction weight (c ∷ s) =
    let rest = parse_fraction (weight / 10) s in
    if is_digit c
    then Option.map (λ n. (c - b'0') * weight + n) rest
    else if c == b'Z'
    then at_end s
    else none

time_of : ℕ → Option ℕ → Time
time_of n none = zero_time
time_of n (some nanos) = record { seconds = n; nanos = nanos }

fraction_of : Text → Option ℕ
unfolding parse_fraction
fraction_of [] = none
fraction_of (c ∷ s) = if c == b'.' then parse_fraction 100_000_000 s else parse_fraction 0 (c ∷ s)

-- parseTime: a text that does not parse is the zero time.
unfoldable pub parse_time : Text → Time
unfolding time_of fraction_of parse_date_and_time
parse_time v = elim (parse_date_and_time (trim_space v)) [
  | none ↦ zero_time
  | some parts ↦ time_of parts.0 (fraction_of parts.1)
]
