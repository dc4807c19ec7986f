-- ===== src/Access/Usage.antt =====
-- The usage ledger of internal/access/store.go: RecordUsage, the lists and the totals.
pub mod Kept
pub mod Ledger
pub mod Summary
use cpa_access_manager.Base.{
  ℕ, ◌+◌, Bool, true, false, ◌&&◌, ◌||◌, not, List, [], ◌∷◌, ◌++◌, Option, none, some, filter, any,
  take, length, if◌then◌else◌, ◌==◌,
}
use cpa_access_manager.Base.Int.{ℤ, pos, negsuc, ltb_ℤ, ◌+ℤ◌}
use cpa_access_manager.Base.Text.{
  Text, text_eq, text_ltb, text_leb, codes, is_empty, trim_space, to_lower,
}
use cpa_access_manager.Base.Sort.{sort_by}
use cpa_access_manager.Access.Types.{
  Time, UsageDetail, UsageEntry, UsageFilter, UsageAggregate, PriceRule, Error, inventory_auth_file,
}
use cpa_access_manager.Access.Time.{is_zero, stamp, format_time, parse_time}
use cpa_access_manager.Access.Normalize.{Platform, normalize_provider, provider_instance_id, has}
use cpa_access_manager.Access.Limits.{bool_int}
use cpa_access_manager.Access.Quota.{sum_usd}
use cpa_access_manager.Access.Bindings.{key_exists}
use cpa_access_manager.Access.Scope.{inventory_by_type}
use cpa_access_manager.Access.Prices.{
  normalized_cache_read_tokens, calculate_usd, find_price_rule, is_missing_price,
}
use cpa_access_manager.Access.Db.{
  Result, ok, err, Db, ◌>>=◌, ◌>>◌, pure, fail, attempt, query, statement,
}
use cpa_access_manager.Access.Db.Schema.{Tables, UsageRow, InventoryRow}

-- normalizeReasoningEffort
unfoldable pub normalize_reasoning_effort : Text → Text
normalize_reasoning_effort value =
    let v = to_lower (trim_space value) in if text_eq v (codes "higth") then codes "high" else v

unfoldable pub with_provider : UsageEntry → Option InventoryRow → UsageEntry
with_provider entry none = entry
with_provider entry (some item) = record entry { provider = item.provider }

-- The provider of the auth file, where the entry names none.
unfoldable pub infer_provider : UsageEntry → Db UsageEntry
unfolding with_provider inventory_by_type
infer_provider entry =
    if is_empty entry.provider && not (is_empty entry.auth_id)
    then (do
      item ← inventory_by_type inventory_auth_file entry.auth_id
      pure (with_provider entry item))
    else pure entry

unfoldable pub infer_instance : Platform → UsageEntry → UsageEntry
infer_instance p entry =
    if is_empty entry.provider_instance_id
      && (not (is_empty entry.provider) && not (is_empty entry.auth_id))
    then record entry {
      provider_instance_id =
          provider_instance_id p entry.provider entry.auth_id entry.auth_index [];
    }
    else entry

-- An entry with a price costs what CalculateUSD says; one without keeps the cost it came with.
unfoldable pub priced : UsageEntry → Result PriceRule → Db UsageEntry
unfolding is_missing_price calculate_usd
priced entry (ok rule) = pure (record entry { usd = calculate_usd rule entry.detail })
priced entry (err e) = if is_missing_price e then pure entry else fail e

unfoldable pub usage_row : ℕ → UsageEntry → Text → UsageRow
usage_row id entry created = record {
  id = id;
  key_id = entry.key_id;
  request_id = trim_space entry.request_id;
  request_resource = trim_space entry.request_resource;
  auth_id = entry.auth_id;
  auth_index = entry.auth_index;
  provider = entry.provider;
  provider_instance_id = entry.provider_instance_id;
  model = entry.model;
  alias = entry.alias;
  detail = record entry.detail {
    reasoning_effort = normalize_reasoning_effort entry.detail.reasoning_effort;
  };
  first_token_latency_ms = entry.first_token_latency_ms;
  total_latency_ms = entry.total_latency_ms;
  usd = entry.usd;
  failed = bool_int entry.failed;
  created_at = created;
}

-- The INSERT of RecordUsage returns LastInsertId; the key must exist.
unfoldable pub insert_usage : UsageEntry → Text → Tables → Result ℕ × Tables
unfolding usage_row key_exists
insert_usage entry created t =
    let id = t.usage_sequence + 1 in
    if key_exists entry.key_id t
    then (
      ok id,
      record t { usage_ledger = usage_row id entry created ∷ t.usage_ledger; usage_sequence = id },
    )
    else (err Error.constraint_failed, t)

-- RecordUsage; `present` is time.Now().
unfoldable pub record_usage : Platform → UsageEntry → Time → Db UsageEntry
unfolding infer_provider infer_instance priced insert_usage find_price_rule
record_usage p entry present = do
  let created = if is_zero entry.created_at then present else entry.created_at
  known ←
      infer_provider
        (record entry { created_at = created; provider = normalize_provider entry.provider })
  let placed = infer_instance p known
  let detailed = record placed {
    detail = record placed.detail {
      cache_read_tokens = normalized_cache_read_tokens placed.detail;
    };
  }
  rule ← attempt (find_price_rule detailed.provider detailed.model)
  final ← priced detailed rule
  id ← statement (insert_usage final (format_time present final.created_at))
  pure (record final { id = id })

-- escapeLikePattern
unfoldable pub escape_like_pattern : Text → Text
escape_like_pattern [] = []
escape_like_pattern (c ∷ s) =
    let rest = escape_like_pattern s in
    if c == b'\\' || (c == b'%' || c == b'_') then b'\\' ∷ c ∷ rest else c ∷ rest

abbrev percent : Text
percent = b'%' ∷ []

-- The condition on `resource_id`.
names_resource : Text → List InventoryRow → UsageRow → Bool
unfolding any
names_resource id items r =
    text_eq r.auth_id id
    || (text_eq r.auth_index id
        || (text_eq r.provider_instance_id id
            || any
                (λ i.
                  text_eq i.id id
                  && (text_eq r.provider_instance_id i.id
                      || (text_eq r.auth_id i.id
                          || ((not (is_empty i.auth_id) && text_eq r.auth_id i.auth_id)
                              || (not (is_empty i.auth_index)
                                  && text_eq r.auth_index i.auth_index)))))
                items))

-- usageFilterSQL, as the test that its conditions make: an empty or zero field asks for nothing.
unfoldable pub passes_filter : Platform → UsageFilter → Tables → UsageRow → Bool
unfolding names_resource escape_like_pattern
passes_filter p f t r =
    let key_id = trim_space f.key_id in
    let resource = trim_space f.request_resource in
    let id = trim_space f.resource_id in
    (is_empty key_id || text_eq r.key_id key_id)
    && ((is_empty resource
          || p.like (percent ++ (escape_like_pattern (to_lower resource) ++ percent))
              (to_lower r.request_resource))
        && ((is_empty id || names_resource id t.inventory_items r)
            && ((is_zero f.since || text_leb (stamp f.since) r.created_at)
                && (is_zero f.before || text_ltb r.created_at (stamp f.before)))))

unfoldable pub scan_usage : UsageRow → UsageEntry
scan_usage row = record {
  id = row.id;
  key_id = row.key_id;
  request_id = row.request_id;
  request_resource = row.request_resource;
  auth_id = row.auth_id;
  auth_index = row.auth_index;
  provider = row.provider;
  provider_instance_id = row.provider_instance_id;
  model = row.model;
  alias = row.alias;
  detail = row.detail;
  first_token_latency_ms = row.first_token_latency_ms;
  total_latency_ms = row.total_latency_ms;
  usd = row.usd;
  failed = not (row.failed == 0);
  created_at = parse_time row.created_at;
}

scan_usages : List UsageRow → List UsageEntry
unfolding scan_usage
scan_usages [] = []
scan_usages (row ∷ rows) = scan_usage row ∷ scan_usages rows

-- The limit of ListUsageFiltered: 100 unless it lies between 1 and 500.
unfoldable pub page_size : ℤ → ℕ
page_size (negsuc n) = 100
page_size (pos n) = if n == 0 || ltb_ℤ (pos 500) (pos n) then 100 else n

-- ListUsageFiltered: the newest entries first (ORDER BY id DESC).
unfoldable pub list_usage_filtered : Platform → UsageFilter → ℤ → Db (List UsageEntry)
unfolding scan_usages passes_filter page_size filter
list_usage_filtered p f limit =
    query (λ t. scan_usages (take (page_size limit) (filter (passes_filter p f t) t.usage_ledger)))

-- The tokens of an entry in UsageTotalsByKey.
billed_tokens : UsageDetail → ℤ
unfolding ◌+ℤ◌
billed_tokens d =
    if ltb_ℤ (pos 0) d.total_tokens
    then d.total_tokens
    else d.input_tokens +ℤ d.output_tokens +ℤ d.reasoning_tokens +ℤ d.cached_tokens

sum_tokens : List UsageRow → ℤ
unfolding billed_tokens
sum_tokens [] = pos 0
sum_tokens (r ∷ rows) = billed_tokens r.detail +ℤ sum_tokens rows

-- The keys of the rows, each once (GROUP BY key_id).
group_keys : List UsageRow → List Text
unfolding has
group_keys [] = []
group_keys (r ∷ rows) =
    let rest = group_keys rows in if has rest r.key_id then rest else r.key_id ∷ rest

aggregate : List UsageRow → Text → UsageAggregate
unfolding sum_tokens sum_usd filter
aggregate rows key_id =
    let own = filter (λ r. text_eq r.key_id key_id) rows in
    record {
      key_id = key_id;
      requests = length own;
      tokens = sum_tokens own;
      cost_usd = sum_usd own;
    }

aggregates : List UsageRow → List Text → List UsageAggregate
unfolding aggregate
aggregates rows [] = []
aggregates rows (k ∷ keys) = aggregate rows k ∷ aggregates rows keys

totals : List UsageRow → List UsageAggregate
unfolding aggregates group_keys sort_by
totals rows = aggregates rows (sort_by text_leb (group_keys rows))

-- UsageTotalsByKey
unfoldable pub usage_totals_by_key : Time → Time → Time → Db (List UsageAggregate)
unfolding totals filter
usage_totals_by_key since before present = query (λ t. totals (
    filter
      (λ r.
        text_leb (format_time present since) r.created_at
        && text_ltb r.created_at (format_time present before))
      t.usage_ledger))
