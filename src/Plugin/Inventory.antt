-- ===== src/Plugin/Inventory.antt =====
-- The provider instances that the configuration of the host names: internal/plugin/provider_inventory.go.
-- `present` is what time.Now() returns. The lists of models go through as the JSON that they are.
pub mod Mask
use cpa_access_manager.Base.{
  ℕ, zero, suc, ◌+◌, ◌-◌, Bool, true, false, ◌||◌, not, List, [], ◌∷◌, ◌++◌, Option, none, some,
  take, drop, length, if◌then◌else◌, ◌==◌, leb,
}
use cpa_access_manager.Base.Int.{ℤ}
use cpa_access_manager.Base.Text.{Text, codes, is_empty, trim_space, to_lower, has_prefix, text_eq}
use cpa_access_manager.Access.Types.{
  Time, InventoryItem, Value, text, number, other, inventory_provider_instance,
}
use cpa_access_manager.Access.Normalize.{Platform, provider_instance_id}

pub record ApiKeyConfigEntry : Type 0 where
  pub api_key : Text
  pub priority : ℤ
  pub prefix : Text
  pub base_url : Text
  pub proxy_url : Text
  pub websockets : Bool
  pub auth_index : Text
  pub models : Text

pub record OpenAiCompatKeyEntry : Type 0 where
  pub api_key : Text
  pub proxy_url : Text
  pub auth_index : Text

pub record OpenAiCompatEntry : Type 0 where
  pub name : Text
  pub priority : ℤ
  pub disabled : Bool
  pub prefix : Text
  pub base_url : Text
  pub api_key_entries : List OpenAiCompatKeyEntry
  pub models : Text
  pub headers : List (Text × Text)
  pub auth_index : Text

unfoldable pub stars : ℕ → Text
stars zero = []
stars (suc n) = b'*' ∷ stars n

-- maskSecret
unfoldable pub mask_secret : Text → Text
unfolding stars
mask_secret value =
    let v = trim_space value in
    if is_empty v
    then []
    else if leb (length v) 10
    then stars (length v)
    else take 4 v ++ (stars 6 ++ drop (length v - 4) v)

-- The bytes that stableAuthID hashes after its kind.
unfoldable pub hashed_parts : List Text → Text
hashed_parts [] = []
hashed_parts (v ∷ parts) = 0 ∷ (trim_space v ++ hashed_parts parts)

-- stableAuthID; the digest has 64 digits, so that it is never padded.
unfoldable pub stable_auth_id : Platform → Text → List Text → Text
unfolding hashed_parts
stable_auth_id p kind parts =
    trim_space kind ++ (b':' ∷ take 12 (p.sha256_hex (trim_space kind ++ hashed_parts parts)))

-- openAICompatibleProviderKey
unfoldable pub open_ai_compatible_provider_key : Text → Text
open_ai_compatible_provider_key name =
    let n = to_lower (trim_space name) in
    if is_empty n
    then codes "openai-compatibility"
    else if text_eq n (codes "openai-compatibility") || has_prefix n (codes "openai-compatible-")
    then n
    else codes "openai-compatible-" ++ n

-- providerDisplayName
unfoldable pub provider_display_name : Text → Text
provider_display_name provider =
    let v = to_lower (trim_space provider) in
    if text_eq v (codes "codex")
    then codes "Codex"
    else if text_eq v (codes "claude")
    then codes "Claude"
    else if text_eq v (codes "gemini")
    then codes "Gemini"
    else if text_eq v (codes "vertex")
    then codes "Vertex"
    else trim_space provider

-- compatLabel
unfoldable pub compat_label : Text → Text → Text
compat_label name base_url =
    let label = if is_empty (trim_space name) then codes "OpenAI Compatible" else trim_space name in
    if is_empty (trim_space base_url) then label else label ++ (codes " - " ++ trim_space base_url)

flag : Bool → Value
flag b = other (if b then codes "true" else codes "false")

-- apiKeyEntryInventoryItem, `none` for an entry without a key
unfoldable pub api_key_entry_inventory_item :
    Platform → Time → Text → Text → ApiKeyConfigEntry → Option InventoryItem
unfolding stable_auth_id provider_display_name mask_secret flag
api_key_entry_inventory_item p present provider kind e =
    let api_key = trim_space e.api_key in
    let base_url = trim_space e.base_url in
    let proxy_url = trim_space e.proxy_url in
    let parts =
      api_key ∷ base_url ∷ (if text_eq provider (codes "vertex") then proxy_url ∷ [] else []) in
    let auth_id = stable_auth_id p kind parts in
    let named = provider_display_name provider ++ codes " API Key" in
    let label = if is_empty base_url then named else named ++ (codes " - " ++ base_url) in
    if is_empty api_key
    then none
    else some (record {
      id = provider_instance_id p provider auth_id e.auth_index base_url;
      type = inventory_provider_instance;
      provider = provider;
      auth_id = auth_id;
      auth_index = trim_space e.auth_index;
      name = label;
      label = label;
      email = [];
      base_url = base_url;
      snapshot =
          (codes "source", text (codes "config:" ++ (provider ++ codes "-api-key")))
          ∷ (codes "api_key", text (mask_secret api_key))
          ∷ (codes "base_url", text base_url)
          ∷ (codes "proxy_url", text proxy_url)
          ∷ (codes "prefix", text (trim_space e.prefix))
          ∷ (codes "models", other e.models)
          ∷ (codes "websockets", flag e.websockets)
          ∷ (codes "priority", number e.priority)
          ∷ [];
      updated_at = present;
    })

-- openAICompatSnapshot
unfoldable pub open_ai_compat_snapshot :
    OpenAiCompatEntry → List (Text × Value) → List (Text × Value)
open_ai_compat_snapshot e own =
    (codes "source", text (codes "config:openai-compatibility"))
    ∷ (codes "name", text (trim_space e.name))
    ∷ (codes "base_url", text (trim_space e.base_url))
    ∷ (codes "prefix", text (trim_space e.prefix))
    ∷ (codes "models", other e.models)
    ∷ (codes "priority", number e.priority)
    ∷ own

unfoldable pub key_snapshot : OpenAiCompatKeyEntry → List (Text × Value)
unfolding mask_secret
key_snapshot k =
    (codes "api_key", text (mask_secret k.api_key))
    ∷ (codes "proxy_url", text (trim_space k.proxy_url))
    ∷ []

abbrev compat_name : OpenAiCompatEntry → Text
compat_name e =
    if is_empty (to_lower (trim_space e.name))
    then codes "openai-compatibility"
    else to_lower (trim_space e.name)

compat_item :
    Platform → Time → OpenAiCompatEntry → List Text → Text → List (Text × Value) → InventoryItem
unfolding stable_auth_id open_ai_compatible_provider_key compat_label open_ai_compat_snapshot
compat_item p present e parts auth_index own =
    let provider = open_ai_compatible_provider_key (compat_name e) in
    let base_url = trim_space e.base_url in
    let auth_id = stable_auth_id p (codes "openai-compatibility:" ++ compat_name e) parts in
    record {
      id = provider_instance_id p provider auth_id auth_index base_url;
      type = inventory_provider_instance;
      provider = provider;
      auth_id = auth_id;
      auth_index = trim_space auth_index;
      name = compat_label e.name base_url;
      label = compat_label e.name base_url;
      email = [];
      base_url = base_url;
      snapshot = open_ai_compat_snapshot e own;
      updated_at = present;
    }

compat_key_items :
    Platform → Time → OpenAiCompatEntry → List OpenAiCompatKeyEntry → List InventoryItem
unfolding compat_item key_snapshot
compat_key_items p present e [] = []
compat_key_items p present e (k ∷ keys) =
    compat_item p present e
      (trim_space k.api_key ∷ trim_space e.base_url ∷ trim_space k.proxy_url ∷ []) k.auth_index
      (key_snapshot k)
    ∷ compat_key_items p present e keys

compat_items : Platform → Time → OpenAiCompatEntry → List OpenAiCompatKeyEntry → List InventoryItem
unfolding compat_item compat_key_items
compat_items p present e [] =
    compat_item p present e (trim_space e.base_url ∷ []) e.auth_index [] ∷ []
compat_items p present e (k ∷ keys) = compat_key_items p present e (k ∷ keys)

-- openAICompatInventoryItems
unfoldable pub open_ai_compat_inventory_items :
    Platform → Time → OpenAiCompatEntry → List InventoryItem
unfolding compat_items
open_ai_compat_inventory_items p present e =
    if e.disabled then [] else compat_items p present e e.api_key_entries

items_of_keys : Platform → Time → Text → Text → List ApiKeyConfigEntry → List InventoryItem
unfolding api_key_entry_inventory_item
items_of_keys p present provider kind [] = []
items_of_keys p present provider kind (e ∷ entries) =
    let rest = items_of_keys p present provider kind entries in
    elim (api_key_entry_inventory_item p present provider kind e) [
      | none ↦ rest
      | some item ↦ item ∷ rest
    ]

items_of_source :
    Platform → Time → (Text → Option (List ApiKeyConfigEntry)) → Text → List InventoryItem
unfolding items_of_keys
items_of_source p present fetch provider = elim (fetch (provider ++ codes "-api-key")) [
  | none ↦ []
  | some entries ↦ items_of_keys p present provider (provider ++ codes ":apikey") entries
]

items_of_compat : Platform → Time → List OpenAiCompatEntry → List InventoryItem
unfolding open_ai_compat_inventory_items
items_of_compat p present [] = []
items_of_compat p present (e ∷ entries) =
    open_ai_compat_inventory_items p present e ++ items_of_compat p present entries

-- hostProviderInventory once there is a token: `fetch` asks the host for a list of keys by its name,
-- `compat` is what it answers for openai-compatibility, and a failure of either is passed over.
unfoldable pub host_provider_inventory :
    Platform
    → Time
    → (Text → Option (List ApiKeyConfigEntry))
    → Option (List OpenAiCompatEntry)
    → List InventoryItem
unfolding items_of_source items_of_compat
host_provider_inventory p present fetch compat =
    items_of_source p present fetch (codes "gemini")
    ++ (items_of_source p present fetch (codes "claude")
        ++ (items_of_source p present fetch (codes "codex")
            ++ (items_of_source p present fetch (codes "vertex")
                ++ elim compat [ none ↦ [] | some entries ↦ items_of_compat p present entries ])))
