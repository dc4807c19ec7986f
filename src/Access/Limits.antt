-- ===== src/Access/Limits.antt =====
-- The conversions and tests on limits of internal/access/types.go and store.go.
use cpa_access_manager.Base.{
  ℕ, ◌≡◌, refl, Bool, true, false, ◌&&◌, ◌||◌, not, Option, none, some, arith, if◌then◌else◌,
}
use cpa_access_manager.Base.Int.{ℤ, pos, ltb_ℤ}
use cpa_access_manager.Access.Types.{Limits}

-- positiveLimit
unfoldable pub positive_limit : Option ℤ → Bool
positive_limit none = false
positive_limit (some v) = ltb_ℤ (pos 0) v

-- Limits.Enabled
unfoldable pub limits_enabled : Limits → Bool
unfolding positive_limit
limits_enabled l =
    positive_limit l.five_hour_usd || positive_limit l.weekly_usd || positive_limit l.total_usd

-- nullFloat: a limit that is not positive is stored as NULL.
unfoldable pub null_float : Option ℤ → Option ℤ
null_float none = none
null_float (some v) = if ltb_ℤ (pos 0) v then some v else none

-- floatPtr
unfoldable pub float_ptr : Option ℤ → Option ℤ
float_ptr none = none
float_ptr (some v) = if ltb_ℤ (pos 0) v then some v else none

-- boolInt
unfoldable pub bool_int : Bool → ℕ
bool_int true = 1
bool_int false = 0

-- limitReached
unfoldable pub limit_reached : Option ℤ → ℤ → Bool
limit_reached none used = false
limit_reached (some limit) used = ltb_ℤ (pos 0) limit && not (ltb_ℤ used limit)

-- The limits that a stored row gives back: a limit that is not positive is no limit.
unfoldable pub stored_limits : Limits → Limits
unfolding null_float float_ptr
stored_limits l = record {
  five_hour_usd = float_ptr (null_float l.five_hour_usd);
  weekly_usd = float_ptr (null_float l.weekly_usd);
  total_usd = float_ptr (null_float l.total_usd);
}

pub limit_reached-stored :
    (l : Option ℤ) (used : ℤ) → limit_reached (float_ptr (null_float l)) used ≡ limit_reached l used
unfolding limit_reached float_ptr null_float
limit_reached-stored none used = refl
limit_reached-stored (some v) used = ground arith
