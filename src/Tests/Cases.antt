-- ===== src/Tests/Cases.antt =====
-- Cases of internal/plugin/*_test.go.
use cpa_access_manager.Base.{◌≡◌, refl, true, false, [], ◌∷◌, map}
use cpa_access_manager.Base.Int.{pos}
use cpa_access_manager.Base.Text.{Text, codes, trim_space, text_discrete, to_lower, has_prefix}
use cpa_access_manager.Access.Types.{PriceRule}
use cpa_access_manager.Plugin.Types.{none_left, field, string}
use cpa_access_manager.Plugin.Values.{routing_session_hash}
use cpa_access_manager.Plugin.PriceSync.{PriceSpec, lite_llm_price_rules}
use cpa_access_manager.Plugin.Management.Paths.{
  normalized_plugin_path, is_api_key_resource, is_usage_resource,
}
use cpa_access_manager.Plugin.Inventory.{mask_secret}
use cpa_access_manager.Plugin.Update.{host_path, is_docker_db_path}
use cpa_access_manager.Plugin.Types.{nil}
use cpa_access_manager.Plugin.Handlers.{request_key}
use cpa_access_manager.Tests.Host.{lib, login_request, machine, named}
use cpa_access_manager.Base.Text.{trim_byte_end, trim_right_byte}
use cpa_access_manager.Access.Calendar.{date_and_time}
use cpa_access_manager.Access.Time.{stamp, parse_time}
use cpa_access_manager.Tests.Fixtures.{noon, plat, state}

-- A null under the first name of a key is read as a key, before the other names and the headers.
null_key :
    request_key plat lib noon
      (field (codes "cpa_toolkit_key_id") nil named)
      login_request.headers
      state
    ≡ (codes "<nil>", state)
unfolding request_key trim_space text_discrete
null_key = refl

exact_path :
    normalized_plugin_path (codes "/v0/management/plugins/cpa-toolkit/keys/rotate")
    ≡ codes "/plugins/cpa-toolkit/keys/rotate"
unfolding normalized_plugin_path has_prefix trim_space
exact_path = refl

other_path : normalized_plugin_path (codes "/v0/management/other") ≡ codes "/other"
unfolding normalized_plugin_path has_prefix trim_space
other_path = refl

key_page : is_api_key_resource (codes "/v0/resource/plugins/cpa-toolkit/01-apikey.html") ≡ true
unfolding is_api_key_resource has_prefix trim_space
key_page = refl

usage_page :
    is_usage_resource (codes "/v0/resource/plugins/cpa-toolkit/usage-statistics.html") ≡ true
unfolding is_usage_resource has_prefix trim_space
usage_page = refl

no_page : is_usage_resource (codes "/v0/management/plugins/cpa-toolkit/usage") ≡ false
unfolding is_usage_resource has_prefix trim_space
no_page = refl

docker_path : is_docker_db_path (codes "/CLIProxyAPI/plugins/cpa-toolkit.db") ≡ true
unfolding is_docker_db_path has_prefix trim_space
docker_path = refl

local_path : is_docker_db_path (codes "/opt/cli-proxy-api/plugins/cpa-toolkit.db") ≡ false
unfolding is_docker_db_path has_prefix trim_space
local_path = refl

path_in_container :
    host_path machine (codes "/workspace") (codes "/CLIProxyAPI/plugins") ≡ codes "plugins"
unfolding host_path has_prefix trim_space
path_in_container = refl

masked : mask_secret (codes "sk-openai-compatible") ≡ codes "sk-o******ible"
unfolding mask_secret trim_space
masked = refl

session_headers_first :
    routing_session_hash plat lib
      (field (codes "execution_session_id") (string (codes "e")) none_left)
      ((codes "X-Session-ID", codes "h" ∷ []) ∷ (codes "Session_id", codes "u" ∷ []) ∷ [])
    ≡ codes "h"
unfolding routing_session_hash text_discrete to_lower trim_space
session_headers_first = refl

session_in_lower_case :
    routing_session_hash plat lib none_left ((codes "session-id", codes "same" ∷ []) ∷ [])
    ≡ codes "same"
unfolding routing_session_hash text_discrete to_lower trim_space
session_in_lower_case = refl

abbrev spec : Text → PriceSpec
spec provider = record {
  provider = provider;
  input_cost_per_token = pos 5;
  output_cost_per_token = pos 30;
  cache_read_input_cost_token = pos 0;
}

abbrev names : PriceRule → Text × Text
names r = (r.provider, r.model)

official_only :
    map names (
      lite_llm_price_rules (
        (codes "gpt-5.5", spec (codes "openai"))
        ∷ (codes "azure/gpt-5.5", spec (codes "azure"))
        ∷ (codes "anthropic/claude-test", spec (codes "anthropic"))
        ∷ (codes "gemini/gemini-test", spec (codes "gemini"))
        ∷ (codes "vertex_ai/gemini-test", spec (codes "vertex_ai"))
        ∷ (codes "vertex_ai/anthropic/claude-test", spec (codes "vertex_ai"))
        ∷ []))
    ≡ (codes "openai", codes "gpt-5.5")
      ∷ (codes "anthropic", codes "anthropic/claude-test")
      ∷ (codes "anthropic", codes "claude-test")
      ∷ (codes "gemini", codes "gemini/gemini-test")
      ∷ (codes "gemini", codes "gemini-test")
      ∷ (codes "vertex", codes "vertex_ai/gemini-test")
      ∷ (codes "vertex", codes "gemini-test")
      ∷ []
unfolding lite_llm_price_rules has_prefix trim_space to_lower text_discrete
official_only = refl

-- A leap day, the last day of a leap century, and the stamp of noon.
leap_day : date_and_time 63_844_847_999 ≡ codes "2024-02-29T23:59:59"
unfolding date_and_time
leap_day = refl

last_of_century : date_and_time 63_113_817_600 ≡ codes "2000-12-31T00:00:00"
unfolding date_and_time
last_of_century = refl

first_day : stamp (record { seconds = 0; nanos = 500_000_000 }) ≡ codes "0001-01-01T00:00:00.5Z"
unfolding stamp trim_right_byte trim_byte_end
first_day = refl

stamp_of_noon : stamp noon ≡ codes "2025-11-29T12:00:00.25Z"
unfolding stamp trim_right_byte trim_byte_end
stamp_of_noon = refl

read_noon : parse_time (codes " 2025-11-29T12:00:00.25Z") ≡ noon
unfolding parse_time trim_space
read_noon = refl

no_such_day : parse_time (codes "2025-02-29T00:00:00Z") ≡ record { seconds = 0; nanos = 0 }
unfolding parse_time trim_space
no_such_day = refl
