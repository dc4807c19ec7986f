-- ===== src/Tests/Fixtures.antt =====
-- A store with a key, a binding, a price and a usage row, for the tests.
use cpa_access_manager.Base.{true, false, List, [], ◌∷◌, none, some}
use cpa_access_manager.Base.Int.{pos}
use cpa_access_manager.Base.Text.{Text, codes}
use cpa_access_manager.Access.Types.{
  Time, Key, Limits, Binding, UsageDetail, PriceRule, binding_auth_id,
}
use cpa_access_manager.Access.Time.{stamp}
use cpa_access_manager.Access.Normalize.{Platform}
use cpa_access_manager.Access.Db.{State}
use cpa_access_manager.Access.Db.Schema.{Tables, KeyRow, PriceRow, UsageRow}

-- A platform whose hash is the text itself.
abbrev pub plat : Platform
plat = record {
  sha256_hex = λ t. t;
  parse_url = λ t. none;
  print_url = λ u. u.path;
  like = λ pattern t. true;
}

abbrev pub noon : Time
noon = record { seconds = 63_900_014_400; nanos = 250_000_000 }

abbrev pub no_limits : Limits
no_limits = record { five_hour_usd = none; weekly_usd = none; total_usd = some (pos 100) }

abbrev pub key_row : KeyRow
key_row = record {
  id = codes "k1";
  name = codes "team";
  key_hash = codes "tok";
  key_prefix = codes "tok";
  key_plain = codes "tok";
  enabled = 1;
  five_hour_limit_usd = none;
  weekly_limit_usd = none;
  total_limit_usd = some (pos 100);
  created_at = stamp noon;
  updated_at = stamp noon;
  last_used_at = none;
}

abbrev pub detail : UsageDetail
detail = record {
  input_tokens = pos 10;
  output_tokens = pos 5;
  reasoning_tokens = pos 0;
  reasoning_effort = [];
  cached_tokens = pos 4;
  cache_read_tokens = pos 0;
  cache_creation_tokens = pos 1;
  total_tokens = pos 15;
}

abbrev pub usage : UsageRow
usage = record {
  id = 1;
  key_id = codes "k1";
  request_id = [];
  request_resource = [];
  auth_id = [];
  auth_index = [];
  provider = codes "openai";
  provider_instance_id = [];
  model = codes "m";
  alias = [];
  detail = detail;
  first_token_latency_ms = pos 0;
  total_latency_ms = pos 0;
  usd = pos 7;
  failed = 0;
  created_at = stamp noon;
}

abbrev pub price : PriceRow
price = record {
  provider = codes "openai";
  model = codes "m";
  input_usd_per_million = pos 1;
  output_usd_per_million = pos 2;
  cache_read_usd_per_million = pos 0;
  updated_at = stamp noon;
}

abbrev pub binding : Binding
binding = record { key_id = codes "k1"; target_type = binding_auth_id; target_id = codes "a1" }

abbrev pub tables : Tables
tables = record {
  keys = key_row ∷ [];
  groups = [];
  group_members = [];
  key_bindings = binding ∷ [];
  inventory_items = [];
  price_rules = price ∷ [];
  usage_ledger = usage ∷ [];
  usage_sequence = 1;
  routing_sessions = [];
}

abbrev pub state : State
state = record {
  store = record { db = tables; allow_unpriced = false; routing_cursor = λ k. 3 };
  faults = [];
}

abbrev pub key : Key
key = record {
  id = codes "k1";
  name = codes "team";
  key_prefix = codes "tok";
  plain_key = codes "tok";
  enabled = true;
  limits = no_limits;
  bindings = binding ∷ [];
  usage = record { five_hour_usd = pos 7; weekly_usd = pos 7; total_usd = pos 7 };
  created_at = noon;
  updated_at = noon;
  last_used_at = none;
}

abbrev pub token : Text
token = codes " tok "

abbrev pub rules : List PriceRule
rules =
    record {
      provider = codes " Claude ";
      model = codes "m";
      input_usd_per_million = pos 3;
      output_usd_per_million = pos 4;
      cache_read_usd_per_million = pos 0;
      updated_at = noon;
    }
    ∷ []
