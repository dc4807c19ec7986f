-- ===== src/Plugin/Ledger.antt =====
-- handleUsage of internal/plugin/app.go: the ledger entry of a usage report. Every reply is the empty
-- object, so that the App is all there is to see.
pub mod Charged
use cpa_access_manager.Base.{[], ◌∷◌, Option, none, some}
use cpa_access_manager.Base.Int.{ℤ, pos}
use cpa_access_manager.Base.Text.{Text, codes, trim_space}
use cpa_access_manager.Access.Types.{Time, Key, UsageEntry, UsageDetail}
use cpa_access_manager.Access.Time.{zero_time}
use cpa_access_manager.Access.Normalize.{Platform}
use cpa_access_manager.Access.Keys.{key_by_id_or_presented_token}
use cpa_access_manager.Access.Usage.{record_usage}
use cpa_access_manager.Access.Db.{State, Db, ◌>>=◌}
use cpa_access_manager.Plugin.Types.{App, Library, UsageHandleRequest}
use cpa_access_manager.Plugin.Values.{first_non_empty, key_id_from_metadata, metadata_string}
use cpa_access_manager.Plugin.Millis.{
  first_positive, duration_millis, metadata_millis, metadata_duration_millis,
}
use cpa_access_manager.Plugin.Handlers.{with_state}

unfoldable pub key_identifier : Library → UsageHandleRequest → Text
unfolding first_non_empty key_id_from_metadata
key_identifier l r = first_non_empty (
    r.key_id
    ∷ r.key_id_snake
    ∷ r.principal
    ∷ key_id_from_metadata l r.metadata
    ∷ r.api_key
    ∷ r.api_key_alt
    ∷ r.source
    ∷ [])

unfoldable pub first_token_latency : Library → UsageHandleRequest → ℤ
unfolding first_positive duration_millis metadata_millis metadata_duration_millis
first_token_latency l r = first_positive (
    r.first_token_latency_ms
    ∷ r.first_token_latency_ms_alt
    ∷ r.ttft_ms
    ∷ r.ttft_ms_alt
    ∷ duration_millis l r.ttft
    ∷ duration_millis l r.ttft_alt
    ∷ metadata_millis l r.metadata
        (codes "first_token_latency_ms" ∷ codes "ttft_ms" ∷ codes "first_token_ms" ∷ [])
    ∷ metadata_duration_millis l r.metadata (codes "TTFT" ∷ codes "ttft" ∷ [])
    ∷ [])

unfoldable pub total_latency : Library → UsageHandleRequest → ℤ
unfolding first_positive duration_millis metadata_millis metadata_duration_millis
total_latency l r = first_positive (
    r.total_latency_ms
    ∷ r.total_latency_ms_alt
    ∷ r.latency_ms
    ∷ r.latency_ms_alt
    ∷ r.duration_ms
    ∷ r.duration_ms_alt
    ∷ duration_millis l r.latency
    ∷ duration_millis l r.latency_alt
    ∷ duration_millis l r.duration
    ∷ duration_millis l r.duration_alt
    ∷ metadata_millis l r.metadata (
        codes "total_latency_ms"
        ∷ codes "latency_ms"
        ∷ codes "duration_ms"
        ∷ codes "elapsed_ms"
        ∷ [])
    ∷ metadata_duration_millis l r.metadata
        (codes "Latency" ∷ codes "latency" ∷ codes "Duration" ∷ codes "duration" ∷ [])
    ∷ [])

unfoldable pub usage_detail : Library → UsageHandleRequest → UsageDetail
unfolding first_non_empty metadata_string
usage_detail l r = record {
  input_tokens = r.detail.input_tokens;
  output_tokens = r.detail.output_tokens;
  reasoning_tokens = r.detail.reasoning_tokens;
  reasoning_effort = first_non_empty (
      r.detail.reasoning_effort
      ∷ r.reasoning_effort
      ∷ r.reasoning_effort_alt
      ∷ metadata_string l r.metadata
          (codes "reasoning_effort" ∷ codes "reasoningEffort" ∷ codes "ReasoningEffort" ∷ [])
      ∷ []);
  cached_tokens = r.detail.cached_tokens;
  cache_read_tokens = r.detail.cache_read_tokens;
  cache_creation_tokens = r.detail.cache_creation_tokens;
  total_tokens = r.detail.total_tokens;
}

-- The entry that handleUsage records for a key.
unfoldable pub usage_entry : Library → UsageHandleRequest → Key → UsageEntry
unfolding first_non_empty metadata_string first_token_latency total_latency usage_detail
usage_entry l r key = record {
  id = 0;
  key_id = key.id;
  request_id = first_non_empty (
      r.request_id
      ∷ r.request_id_alt
      ∷ metadata_string l r.metadata (codes "request_id" ∷ codes "id" ∷ codes "response_id" ∷ [])
      ∷ []);
  request_resource = first_non_empty (
      r.request_resource
      ∷ r.request_resource_alt
      ∷ metadata_string l r.metadata (
          codes "request_resource"
          ∷ codes "resource"
          ∷ codes "target"
          ∷ codes "path"
          ∷ codes "url"
          ∷ [])
      ∷ []);
  auth_id = trim_space (first_non_empty (r.auth_id ∷ r.auth_id_alt ∷ []));
  auth_index = trim_space (first_non_empty (r.auth_index ∷ r.auth_index_alt ∷ []));
  provider = r.provider;
  provider_instance_id = [];
  model = first_non_empty (r.model ∷ r.alias ∷ []);
  alias = r.alias;
  detail = usage_detail l r;
  first_token_latency_ms = first_token_latency l r;
  total_latency_ms = total_latency l r;
  usd = pos 0;
  failed = r.failed;
  created_at = zero_time;
}

-- The two calls of the store.
unfoldable pub report_usage : Platform → Library → Time → UsageHandleRequest → Db UsageEntry
unfolding key_identifier key_by_id_or_presented_token usage_entry record_usage
report_usage p l present r = do
  key ← key_by_id_or_presented_token p (key_identifier l r) present
  record_usage p (usage_entry l r key) present

unfoldable pub usage_decoded :
    Platform → Library → Time → App → State → Option UsageHandleRequest → App
unfolding report_usage
usage_decoded p l present a s none = a
usage_decoded p l present a s (some r) = with_state a (report_usage p l present r s).1

unfoldable pub usage_with : Platform → Library → Time → App → Text → Option State → App
unfolding usage_decoded
usage_with p l present a raw none = a
usage_with p l present a raw (some s) = usage_decoded p l present a s (l.decode_usage raw)

-- App.handleUsage
unfoldable pub handle_usage : Platform → Library → Time → App → Text → App
unfolding usage_with
handle_usage p l present a raw = usage_with p l present a raw a.store
