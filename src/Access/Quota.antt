-- ===== src/Access/Quota.antt =====
-- UsageSums and CheckQuota of internal/access/store.go.
pub mod Exact
use cpa_access_manager.Base.{
  ℕ, ◌*◌, Bool, true, false, ◌&&◌, List, [], ◌∷◌, Option, none, some, filter, if◌then◌else◌,
}
use cpa_access_manager.Base.Int.{ℤ, pos, ◌+ℤ◌}
use cpa_access_manager.Base.Text.{Text, text_eq, text_leb}
use cpa_access_manager.Access.Types.{Time, Key, UsageSums, Error, five_hour, weekly, total}
use cpa_access_manager.Access.Time.{is_zero, sub_seconds, format_time}
use cpa_access_manager.Access.Limits.{limit_reached}
use cpa_access_manager.Access.Db.{Result, ok, err, Db, ◌>>=◌, pure, fail, lift, attempt, query}
use cpa_access_manager.Access.Db.Schema.{Tables, UsageRow}

-- COALESCE(SUM(usd), 0)
unfoldable pub sum_usd : List UsageRow → ℤ
unfolding ◌+ℤ◌
sum_usd [] = pos 0
sum_usd (r ∷ rows) = r.usd +ℤ sum_usd rows

-- WHERE key_id = ? AND created_at >= ?
abbrev pub spent_since : Text → Text → UsageRow → Bool
spent_since key_id start r = text_eq r.key_id key_id && text_leb start r.created_at

unfoldable pub sum_since : Text → Text → Tables → ℤ
unfolding sum_usd filter
sum_since key_id start t = sum_usd (filter (spent_since key_id start) t.usage_ledger)

unfoldable pub sum_all : Text → Tables → ℤ
unfolding sum_usd filter
sum_all key_id t = sum_usd (filter (λ r. text_eq r.key_id key_id) t.usage_ledger)

abbrev pub zero_sums : UsageSums
zero_sums = record { five_hour_usd = pos 0; weekly_usd = pos 0; total_usd = pos 0 }

-- What UsageSums returns: the sums so far, with the error that stopped it.
abbrev pub Sums : Type 0
Sums = UsageSums × Option Error

unfoldable pub with_total : UsageSums → Result ℤ → Db Sums
with_total out (err e) = pure (out, some e)
with_total out (ok v) = pure (record out { total_usd = v }, none)

unfoldable pub with_weekly : Text → UsageSums → Result ℤ → Db Sums
unfolding with_total
with_weekly key_id out (err e) = pure (out, some e)
with_weekly key_id out (ok v) = do
  all ← attempt (query (sum_all key_id))
  with_total (record out { weekly_usd = v }) all

unfoldable pub with_five_hour : Text → Text → Result ℤ → Db Sums
unfolding with_weekly
with_five_hour key_id week_start (err e) = pure (zero_sums, some e)
with_five_hour key_id week_start (ok v) = do
  week ← attempt (query (sum_since key_id week_start))
  with_weekly key_id (record zero_sums { five_hour_usd = v }) week

-- UsageSums; `present` is time.Now().
unfoldable pub usage_sums : Text → Time → Time → Db Sums
unfolding with_five_hour
usage_sums key_id now present = do
  let at = if is_zero now then present else now
  let five_start = format_time present (sub_seconds at (5 * 3600))
  let week_start = format_time present (sub_seconds at (7 * 24 * 3600))
  five ← attempt (query (sum_since key_id five_start))
  with_five_hour key_id week_start five

-- The tests of CheckQuota, in its order.
unfoldable pub quota_verdict : Key → UsageSums → Option Error
quota_verdict key sums =
    if limit_reached key.limits.five_hour_usd sums.five_hour_usd
    then some (Error.quota_exceeded five_hour)
    else if limit_reached key.limits.weekly_usd sums.weekly_usd
    then some (Error.quota_exceeded weekly)
    else if limit_reached key.limits.total_usd sums.total_usd
    then some (Error.quota_exceeded total)
    else none

unfoldable pub error_or_unit : Option Error → Db (Unit {0})
error_or_unit none = pure tt
error_or_unit (some e) = fail e

unfoldable pub quota_of : Key → Sums → Db (Unit {0})
unfolding error_or_unit quota_verdict
quota_of key (sums, some e) = fail e
quota_of key (sums, none) = error_or_unit (quota_verdict key sums)

-- CheckQuota
unfoldable pub check_quota : Key → Time → Time → Db (Unit {0})
unfolding usage_sums quota_of
check_quota key now present = do sums ← usage_sums key.id now present; quota_of key sums
