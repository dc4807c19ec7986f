-- ===== src/Access/Usage/Summary.antt =====
-- UsageSummary of internal/access/store.go: the sums that the usage page shows. SQLite's integers are
-- taken to hold them.
use cpa_access_manager.Base.{
  ℕ, ◌+◌, not, ◌&&◌, ◌≡◌, refl, ap, ◌∙◌, Bool, false, ◌||◌, List, [], ◌∷◌, length, filter, arith,
  if◌then◌else◌,
}
use cpa_access_manager.Base.Int.{ℤ, pos, ltb_ℤ, ◌+ℤ◌, ◌-ℤ◌}
use cpa_access_manager.Base.Text.{
  text_ltb, Text, text_eq, is_empty, trim_space, trim_left, trim_right,
}
use cpa_access_manager.Access.Types.{Time, UsageDetail, UsageFilter, Average, UsageSummary}
use cpa_access_manager.Access.Time.{is_zero, stamp}
use cpa_access_manager.Access.Normalize.{Platform}
use cpa_access_manager.Access.Usage.{passes_filter}
use cpa_access_manager.Access.Db.{ok, State, Db, query}
use cpa_access_manager.Access.Db.Success.{query_ok}
use cpa_access_manager.Access.Db.Schema.{Tables, UsageRow}

-- CASE WHEN cache_read_tokens > 0 THEN cache_read_tokens ELSE cached_tokens END
unfoldable pub read_tokens : UsageDetail → ℤ
read_tokens d = if ltb_ℤ (pos 0) d.cache_read_tokens then d.cache_read_tokens else d.cached_tokens

-- MAX(input_tokens - …, 0)
unfoldable pub uncached_tokens : UsageDetail → ℤ
unfolding read_tokens
uncached_tokens d =
    let left = d.input_tokens -ℤ read_tokens d in if ltb_ℤ left (pos 0) then pos 0 else left

unfoldable pub shown_tokens : UsageDetail → ℤ
unfolding uncached_tokens read_tokens
shown_tokens d =
    if ltb_ℤ (pos 0) d.total_tokens
    then d.total_tokens
    else uncached_tokens d +ℤ read_tokens d +ℤ d.output_tokens

-- COALESCE(SUM(…), 0)
unfoldable pub sum_of : (UsageRow → ℤ) → List UsageRow → ℤ
sum_of f [] = pos 0
sum_of f (r ∷ rows) = f r +ℤ sum_of f rows

abbrev is_nonzero : ℤ → Bool
is_nonzero v = ltb_ℤ v (pos 0) || ltb_ℤ (pos 0) v

-- COALESCE(AVG(NULLIF(…, 0)), 0)
unfoldable pub average_of : (UsageRow → ℤ) → List UsageRow → Average
unfolding sum_of filter
average_of f rows =
    let counted = filter (λ r. is_nonzero (f r)) rows in
    record { sum = sum_of f counted; count = length counted }

unfoldable pub summarize : List UsageRow → UsageSummary
unfolding sum_of average_of uncached_tokens read_tokens shown_tokens
summarize rows = record {
  requests = length rows;
  input_tokens = sum_of (λ r. uncached_tokens r.detail) rows;
  cache_read_tokens = sum_of (λ r. read_tokens r.detail) rows;
  output_tokens = sum_of (λ r. r.detail.output_tokens) rows;
  total_tokens = sum_of (λ r. shown_tokens r.detail) rows;
  cost_usd = sum_of (λ r. r.usd) rows;
  first_token_latency_ms = average_of (λ r. r.first_token_latency_ms) rows;
  total_latency_ms = average_of (λ r. r.total_latency_ms) rows;
}

-- UsageSummary
unfoldable pub usage_summary : Platform → UsageFilter → Db UsageSummary
unfolding summarize passes_filter filter
usage_summary p f = query (λ t. summarize (filter (passes_filter p f t) t.usage_ledger))

filter_same :
    (p q : UsageRow → Bool) (rows : List UsageRow)
    → ((r : UsageRow) → p r ≡ q r)
    → filter p rows ≡ filter q rows
unfolding filter
filter_same p q [] k = refl
filter_same p q (r ∷ rows) k = ground (arith, k r, filter_same p q rows k)

-- The filter of a request for one key and the time between two others.
abbrev pub key_filter : Text → Time → Time → UsageFilter
key_filter key_id since before = record {
  key_id = key_id;
  request_resource = [];
  resource_id = [];
  since = since;
  before = before;
}

-- The row is one of the key, and its stamp, as a text, is not below `start` and below `end`.
abbrev pub is_between : Text → Text → Text → UsageRow → Bool
is_between key_id start end r =
    text_eq r.key_id key_id && (not (text_ltb r.created_at start) && text_ltb r.created_at end)

-- The cost of these rows, and their number.
unfoldable pub cost_between : Text → Text → Text → List UsageRow → ℤ
cost_between key_id start end [] = pos 0
cost_between key_id start end (r ∷ rows) =
    let rest = cost_between key_id start end rows in
    if is_between key_id start end r then r.usd +ℤ rest else rest

unfoldable pub count_between : Text → Text → Text → List UsageRow → ℕ
count_between key_id start end [] = 0
count_between key_id start end (r ∷ rows) =
    let rest = count_between key_id start end rows in
    if is_between key_id start end r then rest + 1 else rest

key_filter_passes :
    (p : Platform) (key_id : Text) (since before : Time) (t : Tables) (r : UsageRow)
    → is_empty (trim_space key_id) ≡ false
    → is_zero since ≡ false
    → is_zero before ≡ false
    → passes_filter p (key_filter key_id since before) t r
      ≡ is_between (trim_space key_id) (stamp since) (stamp before) r
unfolding passes_filter trim_space trim_left trim_right
key_filter_passes p key_id since before t r h k m = ground (arith, h, k, m)

cost_of_between :
    (key_id start end : Text) (rows : List UsageRow)
    → sum_of (λ r. r.usd) (filter (is_between key_id start end) rows)
      ≡ cost_between key_id start end rows
unfolding sum_of filter cost_between
cost_of_between key_id start end [] = refl
cost_of_between key_id start end (r ∷ rows) = ground (arith, cost_of_between key_id start end rows)

count_of_between :
    (key_id start end : Text) (rows : List UsageRow)
    → length (filter (is_between key_id start end) rows) ≡ count_between key_id start end rows
unfolding filter count_between
count_of_between key_id start end [] = refl
count_of_between key_id start end (r ∷ rows) =
    ground (arith, count_of_between key_id start end rows)

-- The summary of a key that is not blank and two times, neither of them zero, has the cost and the number
-- of the rows of that key whose stamps, compared as texts, are not below that of the first time and below
-- that of the second.
pub usage_summary-cost :
    (p : Platform) (key_id : Text) (since before : Time) (s s' : State) (summary : UsageSummary)
    → is_empty (trim_space key_id) ≡ false
    → is_zero since ≡ false
    → is_zero before ≡ false
    → usage_summary p (key_filter key_id since before) s ≡ (ok summary, s')
    → (summary.cost_usd
        ≡ cost_between (trim_space key_id) (stamp since) (stamp before) s.store.db.usage_ledger)
      × (summary.requests
          ≡ count_between (trim_space key_id) (stamp since) (stamp before) s.store.db.usage_ledger)
unfolding usage_summary summarize
usage_summary-cost p key_id since before s s' summary given from_given to_given h =
    let t = s.store.db in
    let id = trim_space key_id in
    let asked = filter (passes_filter p (key_filter key_id since before) t) t.usage_ledger in
    let same : asked ≡ filter (is_between id (stamp since) (stamp before)) t.usage_ledger =
      filter_same _ _ t.usage_ledger
        (λ r. key_filter_passes p key_id since before t r given from_given to_given) in
    let e = (query_ok _ s summary s' h).0 in
    (
      ap (λ x. x.cost_usd) e
          ∙ (ap (sum_of (λ r. r.usd)) same
              ∙ cost_of_between id (stamp since) (stamp before) t.usage_ledger),
      ap (λ x. x.requests) e
          ∙ (ap length same ∙ count_of_between id (stamp since) (stamp before) t.usage_ledger),
    )
