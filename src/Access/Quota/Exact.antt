-- ===== src/Access/Quota/Exact.antt =====
-- What CheckQuota decides (internal/access/store.go).
use cpa_access_manager.Base.{
  ◌≡◌, refl, ◌⊎◌, inl, inr, true, false, [], Option, none, some, arith, if◌then◌else◌, ◌&&◌, not,
  subst, Bool-cases, ap, ◌∙◌, List, ◌∷◌, filter,
}
use cpa_access_manager.Base.Int.{ℤ, pos, ◌+ℤ◌, ◌≤ℤ◌, ◌<ℤ◌, ltb_ℤ}
use cpa_access_manager.Base.Text.{Text, text_eq, text_ltb}
use cpa_access_manager.Access.Types.{Time, Key, UsageSums, Error, five_hour, weekly, total}
use cpa_access_manager.Access.Limits.{limit_reached}
use cpa_access_manager.Access.Time.{is_zero, sub_seconds, format_time}
use cpa_access_manager.Access.Db.{Result, ok, err, State, ◌>>=◌, pure, fail, attempt, query}
use cpa_access_manager.Access.Db.Schema.{Tables, UsageRow}
use cpa_access_manager.Access.Quota.{
  sum_usd, spent_since, sum_since, sum_all, usage_sums, check_quota, quota_verdict, error_or_unit,
}

-- The amounts of the rows of a key whose stamp, as a text, is not below `start`.
unfoldable pub spent_from : Text → Text → List UsageRow → ℤ
spent_from key_id start [] = pos 0
spent_from key_id start (r ∷ rows) =
    let rest = spent_from key_id start rows in
    if text_eq r.key_id key_id
    then (if text_ltb r.created_at start then rest else r.usd +ℤ rest)
    else rest

-- The amounts of all the rows of a key.
unfoldable pub spent_ever : Text → List UsageRow → ℤ
spent_ever key_id [] = pos 0
spent_ever key_id (r ∷ rows) =
    let rest = spent_ever key_id rows in if text_eq r.key_id key_id then r.usd +ℤ rest else rest

-- What a key has spent in the rows whose stamp is not below that of the time five hours before `now`,
-- and of the time seven days before it, and in all. Stamps are compared as texts.
unfoldable pub spent : Text → Time → Time → Tables → UsageSums
unfolding spent_from spent_ever
spent key_id now present t =
    let at = if is_zero now then present else now in
    record {
      five_hour_usd = spent_from key_id (format_time present (sub_seconds at 18000)) t.usage_ledger;
      weekly_usd = spent_from key_id (format_time present (sub_seconds at 604800)) t.usage_ledger;
      total_usd = spent_ever key_id t.usage_ledger;
    }

sum_since-spent_from :
    (key_id start : Text) (rows : List UsageRow)
    → sum_usd (filter (spent_since key_id start) rows) ≡ spent_from key_id start rows
unfolding sum_usd filter spent_from
sum_since-spent_from key_id start [] = refl
sum_since-spent_from key_id start (r ∷ rows) =
    ground (arith, sum_since-spent_from key_id start rows)

pub sum_all-spent_ever :
    (key_id : Text) (rows : List UsageRow)
    → sum_usd (filter (λ r. text_eq r.key_id key_id) rows) ≡ spent_ever key_id rows
unfolding sum_usd filter spent_ever
sum_all-spent_ever key_id [] = refl
sum_all-spent_ever key_id (r ∷ rows) = ground (arith, sum_all-spent_ever key_id rows)

-- The three sums as the statements of UsageSums ask for them.
sums_of : Text → Time → Time → Tables → UsageSums
sums_of key_id now present t =
    let at = if is_zero now then present else now in
    record {
      five_hour_usd = sum_since key_id (format_time present (sub_seconds at 18000)) t;
      weekly_usd = sum_since key_id (format_time present (sub_seconds at 604800)) t;
      total_usd = sum_all key_id t;
    }

sums_of-spent :
    (key_id : Text) (now present : Time) (t : Tables)
    → sums_of key_id now present t ≡ spent key_id now present t
unfolding sums_of spent sum_since sum_all
sums_of-spent key_id now present t =
    let at = if is_zero now then present else now in
    rw
      (
        sum_since-spent_from key_id (format_time present (sub_seconds at 18000)) t.usage_ledger,
        sum_since-spent_from key_id (format_time present (sub_seconds at 604800)) t.usage_ledger,
        sum_all-spent_ever key_id t.usage_ledger,
      )
      refl

asked_ok :
    (key_id : Text) (now present : Time) (s : State) (sums : UsageSums) (s' : State)
    → usage_sums key_id now present s ≡ (ok (sums, none), s')
    → (sums ≡ sums_of key_id now present s.store.db) × (s'.store ≡ s.store)
unfolding usage_sums sums_of ◌>>=◌ attempt query pure
asked_ok key_id now present s sums s' h = ground arith

pub usage_sums_ok :
    (key_id : Text) (now present : Time) (s : State) (sums : UsageSums) (s' : State)
    → usage_sums key_id now present s ≡ (ok (sums, none), s')
    → (sums ≡ spent key_id now present s.store.db) × (s'.store ≡ s.store)
usage_sums_ok key_id now present s sums s' h =
    let (e, same) = asked_ok key_id now present s sums s' h in
    (e ∙ sums_of-spent key_id now present s.store.db, same)

asked_reliable :
    (key_id : Text) (now present : Time) (s : State)
    → s.faults ≡ []
    → usage_sums key_id now present s ≡ (ok (sums_of key_id now present s.store.db, none), s)
unfolding usage_sums sums_of ◌>>=◌ attempt query pure
asked_reliable key_id now present s h = ground arith

-- Reads that no fault stops give every sum.
pub usage_sums_reliable :
    (key_id : Text) (now present : Time) (s : State)
    → s.faults ≡ []
    → usage_sums key_id now present s ≡ (ok (spent key_id now present s.store.db, none), s)
usage_sums_reliable key_id now present s h =
    asked_reliable key_id now present s h
    ∙ ap (λ x. (ok (x, none), s)) (sums_of-spent key_id now present s.store.db)

verdict_ok :
    (key : Key) (now present : Time) (s s' : State)
    → check_quota key now present s ≡ (ok tt, s')
    → (quota_verdict key (sums_of key.id now present s.store.db) ≡ none) × (s'.store ≡ s.store)
unfolding check_quota usage_sums sums_of ◌>>=◌ attempt query pure fail
verdict_ok key now present s s' h = ground arith

pub check_quota_ok :
    (key : Key) (now present : Time) (s s' : State)
    → check_quota key now present s ≡ (ok tt, s')
    → (quota_verdict key (spent key.id now present s.store.db) ≡ none) × (s'.store ≡ s.store)
check_quota_ok key now present s s' h =
    let (e, same) = verdict_ok key now present s s' h in
    (subst (λ x. quota_verdict key x ≡ none) (sums_of-spent key.id now present s.store.db) e, same)

-- A limit that is positive, and that the amount reaches.
abbrev pub Reached : Option ℤ → ℤ → Type 0
Reached none used = ⊥
Reached (some limit) used = (pos 0 <ℤ limit) × (limit ≤ℤ used)

Reached-cases :
    (l : Option ℤ) (used : ℤ)
    → ((limit_reached l used ≡ true) × Reached l used)
      ⊎ ((limit_reached l used ≡ false) × (¬ Reached l used))
unfolding limit_reached
Reached-cases none used = inr (refl, λ h. h)
Reached-cases (some v) used = elim (Bool-cases (ltb_ℤ (pos 0) v && not (ltb_ℤ used v))) [
  | inl e ↦ inl (e, (ground arith, ground arith))
  | inr e ↦ inr (e, λ h. ground (arith, h.0, h.1))
]

-- How CheckQuota ends: it passes if no limit is reached, and otherwise names the first window, in the
-- order five hours, week, total, whose limit is reached.
pub data QuotaOutcome (key : Key) (used : UsageSums) : Option Error → Type 0 where
  passes :
      (¬ Reached key.limits.five_hour_usd used.five_hour_usd)
      → (¬ Reached key.limits.weekly_usd used.weekly_usd)
      → (¬ Reached key.limits.total_usd used.total_usd)
      → QuotaOutcome key used none
  five_hours_spent :
      Reached key.limits.five_hour_usd used.five_hour_usd
      → QuotaOutcome key used (some (Error.quota_exceeded five_hour))
  week_spent :
      (¬ Reached key.limits.five_hour_usd used.five_hour_usd)
      → Reached key.limits.weekly_usd used.weekly_usd
      → QuotaOutcome key used (some (Error.quota_exceeded weekly))
  total_spent :
      (¬ Reached key.limits.five_hour_usd used.five_hour_usd)
      → (¬ Reached key.limits.weekly_usd used.weekly_usd)
      → Reached key.limits.total_usd used.total_usd
      → QuotaOutcome key used (some (Error.quota_exceeded total))

verdict-QuotaOutcome :
    (key : Key) (used : UsageSums) → QuotaOutcome key used (quota_verdict key used)
unfolding quota_verdict
verdict-QuotaOutcome key used = elim (Reached-cases key.limits.five_hour_usd used.five_hour_usd) [
  | inl (e, r) ↦ rw e (five_hours_spent r)
  | inr (e, n) ↦ rw e (elim (Reached-cases key.limits.weekly_usd used.weekly_usd) [
    | inl (e', r) ↦ rw e' (week_spent n r)
    | inr (e', n') ↦ rw e' (elim (Reached-cases key.limits.total_usd used.total_usd) [
      | inl (e'', r) ↦ rw e'' (total_spent n n' r)
      | inr (e'', n'') ↦ rw e'' (passes n n' n'')
    ])
  ])
]

abbrev pub verdict_result : Option Error → Result (Unit {0})
verdict_result none = ok tt
verdict_result (some e) = err e

-- Without failing statements CheckQuota passes exactly if no limit is reached by what the rows of the key
-- cost whose stamp, compared as a text, is not below that of the start of the window, names the first
-- window whose limit is reached otherwise, and changes nothing.
pub check_quota_exact :
    (key : Key) (now present : Time) (s : State)
    → s.faults ≡ []
    → (o : Option Error) × (check_quota key now present s ≡ (verdict_result o, s))
      × QuotaOutcome key (spent key.id now present s.store.db) o
unfolding check_quota ◌>>=◌ pure fail
check_quota_exact key now present s h =
    let used = spent key.id now present s.store.db in
    (
      quota_verdict key used,
      rw (usage_sums_reliable key.id now present s h) (verdict_run (quota_verdict key used)),
      verdict-QuotaOutcome key used,
    )
  where
    verdict_run : (o : Option Error) → error_or_unit o s ≡ (verdict_result o, s)
    verdict_run none = refl
    verdict_run (some e) = refl

-- What CheckQuota lets pass has reached no limit, whatever else fails, and the store stays as it is.
pub check_quota_passes :
    (key : Key) (now present : Time) (s s' : State)
    → check_quota key now present s ≡ (ok tt, s')
    → QuotaOutcome key (spent key.id now present s.store.db) none × (s'.store ≡ s.store)
check_quota_passes key now present s s' h =
    let (v, same) = check_quota_ok key now present s s' h in
    (
      subst (QuotaOutcome key (spent key.id now present s.store.db)) v
          (verdict-QuotaOutcome key (spent key.id now present s.store.db)),
      same,
    )
