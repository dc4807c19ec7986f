-- ===== src/Tests/Requests.antt =====
-- Authenticate, CheckQuota, RecordUsage and DeleteKey (internal/access/store.go) on a small store.
use cpa_access_manager.Base.{◌≡◌, ◌≢◌, refl, false, [], Option, none}
use cpa_access_manager.Base.Int.{pos, ◌+ℤ◌}
use cpa_access_manager.Base.Text.{
  codes, text_ltb, trim_space, text_discrete, replace_all, to_lower, trim_byte_end,
}
use cpa_access_manager.Access.Types.{UsageEntry, Error}
use cpa_access_manager.Access.Time.{stamp, parse_time, is_zero, format_time, sub_seconds}
use cpa_access_manager.Access.Normalize.{hash_token, normalize_provider, normalize_target_type}
use cpa_access_manager.Access.Quota.{check_quota, sum_all, sum_since}
use cpa_access_manager.Access.Quota.Exact.{
  QuotaOutcome, spent, verdict_result, check_quota_exact, check_quota_passes,
}
use cpa_access_manager.Access.Keys.{delete_key, scan_key}
use cpa_access_manager.Access.Limits.{limit_reached, float_ptr}
use cpa_access_manager.Access.Keys.Cascade.{IsGone, delete_key_cascades}
use cpa_access_manager.Access.Auth.{authenticate}
use cpa_access_manager.Access.Auth.Safety.{IsAdmitted, authenticate_safe}
use cpa_access_manager.Access.Usage.{record_usage}
use cpa_access_manager.Access.Usage.Ledger.{record_usage_spends}
use cpa_access_manager.Access.Db.{
  ◌>>=◌, query_row, or_zero, query, attempt, pure, gets, statement, exec,
}
use cpa_access_manager.Base.{[], ◌∷◌, none}
use cpa_access_manager.Access.Db.{
  Result, State, ◌>>=◌, query_row, or_zero, query, attempt, pure, gets, statement, exec,
}
use cpa_access_manager.Access.Keys.{scan_key}
use cpa_access_manager.Access.Limits.{float_ptr}
use cpa_access_manager.Access.Normalize.{hash_token}
use cpa_access_manager.Access.Quota.{sum_all}
use cpa_access_manager.Base.Text.{Text, codes, trim_space, text_discrete}
use cpa_access_manager.Access.Db.{lift}
use cpa_access_manager.Access.Bindings.{key_bindings}
use cpa_access_manager.Access.Quota.{usage_sums, sum_since}
use cpa_access_manager.Access.Time.{stamp, parse_time, format_time, sub_seconds}
use cpa_access_manager.Base.Text.{text_ltb, trim_byte_end}
use cpa_access_manager.Access.Keys.{rotate_key}
use cpa_access_manager.Access.Types.{Key}
use cpa_access_manager.Access.Keys.Rotation.{IsRotated, rotate_key_exclusive}
use cpa_access_manager.Base.{some}
use cpa_access_manager.Base.{filter}
use cpa_access_manager.Access.Types.{Time, UsageSummary}
use cpa_access_manager.Access.Usage.{passes_filter}
use cpa_access_manager.Access.Usage.Summary.{
  cost_between, count_between, key_filter, summarize, usage_summary, usage_summary-cost,
}
use cpa_access_manager.Access.Db.{ok}
use cpa_access_manager.Access.Keys.{key_by_id_or_presented_token}
use cpa_access_manager.Plugin.Types.{UsageHandleRequest, nil, none_left}
use cpa_access_manager.Plugin.Ledger.{key_identifier, report_usage}
use cpa_access_manager.Plugin.Ledger.Charged.{IsCharged, report_usage-IsCharged}
use cpa_access_manager.Tests.Host.{lib}
use cpa_access_manager.Tests.Fixtures.{usage, detail, key, noon, plat, state, tables, token}

authenticate_safe_example : IsAdmitted plat token noon noon tables key
unfolding authenticate ◌>>=◌ trim_space query_row text_discrete hash_token or_zero query attempt
    pure scan_key limit_reached float_ptr sum_all normalize_target_type replace_all to_lower gets
    exec sum_since parse_time text_ltb stamp format_time trim_byte_end sub_seconds
authenticate_safe_example =
    authenticate_safe plat token [] noon noon state (authenticate plat token [] noon noon state).1
      key refl

check_quota_exact_example :
    (o : Option Error) × (check_quota key noon noon state ≡ (verdict_result o, state))
    × QuotaOutcome key (spent key.id noon noon tables) o
check_quota_exact_example = check_quota_exact key noon noon state refl

check_quota_passes_example :
    QuotaOutcome key (spent key.id noon noon tables) none
    × ((check_quota key noon noon state).1.store ≡ state.store)
unfolding check_quota ◌>>=◌ attempt query pure limit_reached sum_all text_discrete
check_quota_passes_example =
    check_quota_passes key noon noon state (check_quota key noon noon state).1 refl

abbrev entry : UsageEntry
entry = record {
  id = 0;
  key_id = codes "k1";
  request_id = [];
  request_resource = [];
  auth_id = [];
  auth_index = [];
  provider = codes "OpenAI";
  provider_instance_id = [];
  model = codes "m";
  alias = [];
  detail = detail;
  first_token_latency_ms = pos 0;
  total_latency_ms = pos 0;
  usd = pos 0;
  failed = false;
  created_at = noon;
}

-- Three of the ten input tokens are cache reads: 7 at the rate 1, and 5 output tokens at the rate 2.
abbrev recorded : UsageEntry
recorded = record entry {
  id = 2;
  provider = codes "openai";
  usd = pos 17;
  detail = record detail { cache_read_tokens = pos 3 };
}

record_usage_spends_example :
    (sum_all (codes "k1") (record_usage plat entry noon state).1.store.db
      ≡ pos 17 +ℤ sum_all (codes "k1") tables)
    × (codes "k2" ≢ codes "k1"
        → sum_all (codes "k2") (record_usage plat entry noon state).1.store.db
          ≡ sum_all (codes "k2") tables)
unfolding record_usage ◌>>=◌ trim_space query_row text_discrete hash_token or_zero query attempt
    pure scan_key limit_reached float_ptr sum_all normalize_target_type replace_all to_lower gets
    normalize_provider is_zero
record_usage_spends_example =
    record_usage_spends plat entry recorded noon state (record_usage plat entry noon state).1
      (codes "k2") refl

delete_key_cascades_example :
    IsGone (trim_space (codes "k1 ")) tables (delete_key (codes "k1 ") state).1.store.db
unfolding delete_key ◌>>=◌ trim_space query_row text_discrete hash_token or_zero query attempt pure
    scan_key limit_reached float_ptr sum_all normalize_target_type replace_all to_lower gets
    statement
delete_key_cascades_example =
    delete_key_cascades (codes "k1 ") state (delete_key (codes "k1 ") state).1 refl

abbrev rotated : Result (Key × Text) × State
rotated = rotate_key plat (codes "k1") (some (1 ∷ 2 ∷ [])) noon state

abbrev rotated_key : Key
rotated_key = record key { key_prefix = codes "cam***QI"; plain_key = codes "cam_AQI" }

rotate_key_exclusive_example :
    IsRotated
      (trim_space (codes "k1"))
      (hash_token plat (codes "cam_AQI"))
      tables
      rotated.1.store.db
unfolding rotate_key ◌>>=◌ trim_space query_row text_discrete hash_token or_zero query attempt pure
    scan_key float_ptr sum_all statement lift key_bindings usage_sums sum_since parse_time text_ltb
    stamp format_time trim_byte_end sub_seconds
rotate_key_exclusive_example =
    rotate_key_exclusive plat (codes "k1") (some (1 ∷ 2 ∷ [])) noon state rotated.1 rotated_key
      (codes "cam_AQI") (refl, tt) refl

-- The day around noon.
abbrev morning : Time
morning = record { seconds = 63_899_971_200; nanos = 0 }

abbrev evening : Time
evening = record { seconds = 63_900_043_200; nanos = 0 }

abbrev own_usage : UsageSummary
own_usage =
    summarize
      (filter (passes_filter plat (key_filter (codes "k1") morning evening) tables) (usage ∷ []))

usage_summary-cost_example :
    (own_usage.cost_usd
      ≡ cost_between (trim_space (codes "k1")) (stamp morning) (stamp evening) (usage ∷ []))
    × (own_usage.requests
        ≡ count_between (trim_space (codes "k1")) (stamp morning) (stamp evening) (usage ∷ []))
unfolding usage_summary query trim_space is_zero
usage_summary-cost_example =
    usage_summary-cost plat (codes "k1") morning evening state state own_usage refl refl refl refl

abbrev report : UsageHandleRequest
report = record {
  provider = codes "OpenAI";
  executor_type = [];
  model = codes "m";
  alias = [];
  key_id = [];
  key_id_snake = [];
  principal = codes "k1";
  api_key = [];
  api_key_alt = [];
  auth_id = [];
  auth_id_alt = [];
  auth_index = [];
  auth_index_alt = [];
  auth_type = [];
  source = [];
  request_id = [];
  request_id_alt = [];
  request_resource = [];
  request_resource_alt = [];
  ttft = nil;
  ttft_alt = nil;
  latency = nil;
  latency_alt = nil;
  duration = nil;
  duration_alt = nil;
  first_token_latency_ms = pos 0;
  first_token_latency_ms_alt = pos 0;
  ttft_ms = pos 0;
  ttft_ms_alt = pos 0;
  total_latency_ms = pos 0;
  total_latency_ms_alt = pos 0;
  latency_ms = pos 0;
  latency_ms_alt = pos 0;
  duration_ms = pos 0;
  duration_ms_alt = pos 0;
  reasoning_effort = [];
  reasoning_effort_alt = [];
  failed = false;
  metadata = none_left;
  detail = record {
    input_tokens = pos 10;
    output_tokens = pos 5;
    reasoning_tokens = pos 0;
    reasoning_effort = [];
    cached_tokens = pos 4;
    cache_read_tokens = pos 0;
    cache_creation_tokens = pos 1;
    total_tokens = pos 15;
  };
}

abbrev reported : Result UsageEntry × State
reported = report_usage plat lib noon report state

report_usage-IsCharged_example :
    (found : Key) × (s1 : State) × (key_by_id_or_presented_token plat
        (key_identifier lib report)
        noon
        state
      ≡ (ok found, s1))
    × IsCharged found recorded state reported.1
unfolding report_usage ◌>>=◌ trim_space query_row text_discrete hash_token or_zero query attempt
    pure scan_key limit_reached float_ptr sum_all normalize_target_type replace_all to_lower gets
    normalize_provider is_zero key_bindings usage_sums
report_usage-IsCharged_example =
    report_usage-IsCharged plat lib noon report recorded state reported.1 refl
