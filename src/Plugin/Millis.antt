-- ===== src/Plugin/Millis.antt =====
-- The latencies of internal/plugin/app.go: nanosToMillis, durationMillis, numericMillis and the fields
-- that a latency is looked for in. An int64 keeps its wrap-around.
pub mod Bounds
use cpa_access_manager.Base.{
  ℕ, zero, suc, ◌+◌, ◌-◌, ◌*◌, ◌/◌, ◌^◌, ◌≤◌, ◌<◌, ◌≡◌, refl, Bool, true, false, List, [], ◌∷◌,
  Option, none, some, All, arith, if◌then◌else◌, ◌==◌,
}
use cpa_access_manager.Base.Int.{ℤ, pos, negsuc, ltb_ℤ, ◌+ℤ◌, ◌<ℤ◌, ◌≤ℤ◌}
use cpa_access_manager.Base.Text.{Text, is_empty, trim_space}
use cpa_access_manager.Access.Prices.{of_bits, to_bits}
use cpa_access_manager.Plugin.Types.{
  Value, nil, int64, int, float64, json_number, string, Fields, Library,
}
use cpa_access_manager.Plugin.Values.{lookup}

-- The sum of two int64.
unfoldable pub add64 : ℤ → ℤ → ℤ
unfolding ◌+ℤ◌ of_bits to_bits
add64 a b = of_bits (to_bits (a +ℤ b))

-- Division towards zero.
abbrev pub quotient : ℤ → ℕ → ℤ
quotient (pos n) d = pos (n / d)
quotient (negsuc n) d = if (n + 1) / d == 0 then pos 0 else negsuc ((n + 1) / d - 1)

-- nanosToMillis
unfoldable pub nanos_to_millis : ℤ → ℤ
unfolding add64
nanos_to_millis nanos =
    let millis = quotient (add64 nanos (pos 500_000)) 1_000_000 in
    if ltb_ℤ (pos 0) nanos then (if ltb_ℤ (pos 0) millis then millis else pos 1) else pos 0

-- int64(v + 0.5) of a positive float64, in units of 10^-12.
unfoldable pub half_up : ℤ → ℤ
half_up (pos n) = pos ((n + 500_000_000_000) / 1_000_000_000_000)
half_up (negsuc n) = pos 0

positive_or_zero : Option ℤ → (ℤ → ℤ) → ℤ
positive_or_zero none f = pos 0
positive_or_zero (some v) f = if ltb_ℤ (pos 0) v then f v else pos 0

-- numericMillis
unfoldable pub numeric_millis : Library → Value → ℤ
unfolding half_up positive_or_zero
numeric_millis l (int64 v) = v
numeric_millis l (int v) = v
numeric_millis l (float64 v) = positive_or_zero (some v) half_up
numeric_millis l (json_number s) = positive_or_zero (some (l.float_value s)) half_up
numeric_millis l (string s) = positive_or_zero (l.parse_float (trim_space s)) half_up
numeric_millis l _ = pos 0

nanos_of : ℤ → ℤ
unfolding nanos_to_millis half_up
nanos_of v = nanos_to_millis (half_up v)

-- A json.Number: its Int64 if that is positive, else its Float64; errors are passed over.
number_millis : Library → Text → ℤ
unfolding nanos_to_millis nanos_of positive_or_zero
number_millis l s =
    let n = l.int_value s in
    if ltb_ℤ (pos 0) n
    then nanos_to_millis n
    else positive_or_zero (some (l.float_value s)) nanos_of

-- A string: a duration if it reads as one, else a float64.
string_millis : Library → Text → Option ℤ → ℤ
unfolding nanos_to_millis nanos_of positive_or_zero
string_millis l s none = positive_or_zero (l.parse_float s) nanos_of
string_millis l s (some d) = nanos_to_millis d

-- durationMillis
unfoldable pub duration_millis : Library → Value → ℤ
unfolding nanos_to_millis number_millis string_millis nanos_of positive_or_zero
duration_millis l (int64 v) = nanos_to_millis v
duration_millis l (int v) = nanos_to_millis v
duration_millis l (float64 v) = positive_or_zero (some v) nanos_of
duration_millis l (json_number s) = number_millis l s
duration_millis l (string s) =
    let s' = trim_space s in if is_empty s' then pos 0 else string_millis l s' (l.parse_duration s')
duration_millis l _ = pos 0

-- firstPositiveInt64
unfoldable pub first_positive : List ℤ → ℤ
first_positive [] = pos 0
first_positive (v ∷ values) =
    let rest = first_positive values in if ltb_ℤ (pos 0) v then v else rest

-- The loop of metadataMillis and metadataDurationMillis.
first_millis : (Value → ℤ) → Fields → List Text → ℤ
unfolding lookup positive_or_zero
first_millis f m [] = pos 0
first_millis f m (k ∷ keys) =
    let rest = first_millis f m keys in
    elim (lookup k m) [ none ↦ rest | some v ↦ (if ltb_ℤ (pos 0) (f v) then f v else rest) ]

-- metadataMillis
unfoldable pub metadata_millis : Library → Fields → List Text → ℤ
unfolding first_millis numeric_millis
metadata_millis l m keys = first_millis (numeric_millis l) m keys

-- metadataDurationMillis
unfoldable pub metadata_duration_millis : Library → Fields → List Text → ℤ
unfolding first_millis duration_millis
metadata_duration_millis l m keys = first_millis (duration_millis l) m keys
