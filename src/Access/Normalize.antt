-- ===== src/Access/Normalize.antt =====
-- The normalisations of internal/access/store.go: providers, target types, base URLs and the
-- identifiers made from them. `Url` is what net/url parses; the parser and the printer of that
-- package, SHA-256 and the LIKE of SQLite are the parameter `Platform`.
pub mod Laws
use cpa_access_manager.Base.{
  ℕ, Bool, true, false, ◌&&◌, ◌||◌, not, List, [], ◌∷◌, ◌++◌, Option, none, some, if◌then◌else◌,
  any, find,
}
use cpa_access_manager.Base.Text.{
  Text, codes, text_eq, is_empty, trim_space, to_lower, replace_all, trim_right_byte,
  trim_left_byte,
}
use cpa_access_manager.Access.Types.{
  binding_group, binding_auth_id, binding_provider_instance, inventory_auth_file,
}

pub record Url : Type 0 where
  pub scheme : Text
  pub host : Text
  pub path : Text
  pub rest : Text

-- What the package calls in other packages on texts.
pub record Platform : Type 0 where
  -- hex.EncodeToString of sha256.Sum256
  pub sha256_hex : Text → Text
  -- url.Parse, `none` for an error
  pub parse_url : Text → Option Url
  -- Url.String
  pub print_url : Url → Text
  -- SQLite's `text LIKE pattern ESCAPE '\'`, the pattern first
  pub like : Text → Text → Bool

-- normalizeTargetType: both branches of the switch return the text.
unfoldable pub normalize_target_type : Text → Text
normalize_target_type v = replace_all (to_lower (trim_space v)) b'-' b'_'

-- normalizeProvider
unfoldable pub normalize_provider : Text → Text
normalize_provider v = to_lower (trim_space v)

parsed_base_url : Platform → Text → Option Url → Text
parsed_base_url p v none = trim_right_byte b'/' v
parsed_base_url p v (some u) =
    if is_empty u.scheme || is_empty u.host
    then trim_right_byte b'/' v
    else p.print_url (record u { host = to_lower u.host; path = trim_right_byte b'/' u.path })

-- normalizeBaseURL
unfoldable pub normalize_base_url : Platform → Text → Text
unfolding parsed_base_url
normalize_base_url p v =
    let t = trim_space v in if is_empty t then [] else parsed_base_url p t (p.parse_url t)

abbrev colon : Text
colon = b':' ∷ []

-- ProviderInstanceID
unfoldable pub provider_instance_id : Platform → Text → Text → Text → Text → Text
provider_instance_id p provider auth_id auth_index base_url =
    let provider' = normalize_provider provider in
    let auth_id' = trim_space auth_id in
    let auth_index' = trim_space auth_index in
    let base_url' = normalize_base_url p base_url in
    if not (is_empty provider') && not (is_empty auth_id')
    then provider' ++ (colon ++ auth_id')
    else if not (is_empty provider') && not (is_empty auth_index')
    then provider' ++ (codes ":idx:" ++ auth_index')
    else if not (is_empty provider') && not (is_empty base_url')
    then provider' ++ (codes ":url:" ++ base_url')
    else trim_right_byte b':' (
        trim_left_byte b':'
          (provider' ++ (colon ++ (auth_id' ++ (colon ++ (auth_index' ++ (colon ++ base_url')))))))

-- A lookup in a map of texts; a missing key reads as the empty text.
unfoldable pub attribute : Text → List (Text × Text) → Text
attribute k [] = []
attribute k ((j, v) ∷ attrs) = if text_eq j k then v else attribute k attrs

-- firstAttr
unfoldable pub first_attr : List (Text × Text) → List Text → Text
unfolding attribute
first_attr attrs [] = []
first_attr attrs (k ∷ keys) =
    let value = trim_space (attribute k attrs) in
    let rest = first_attr attrs keys in if not (is_empty value) then value else rest

-- firstNonEmpty of the package access: the value is returned as it stands.
unfoldable pub first_non_empty : List Text → Text
first_non_empty [] = []
first_non_empty (v ∷ values) =
    let rest = first_non_empty values in if not (is_empty (trim_space v)) then v else rest

-- A set of texts, the keys of a `map[string]struct{}`.
unfoldable pub has : List Text → Text → Bool
has seen v = any (λ s. text_eq s v) seen

-- The loop of uniqueNonEmpty over the values left and those seen.
unfoldable pub unique_from : List Text → List Text → List Text
unfolding has
unique_from seen [] = []
unique_from seen (v ∷ values) =
    let t = trim_space v in
    let rest = unique_from (t ∷ seen) values in
    let skip = unique_from seen values in
    if is_empty t then skip else if has seen t then skip else t ∷ rest

-- uniqueNonEmpty
unfoldable pub unique_non_empty : List Text → List Text
unfolding unique_from
unique_non_empty values = unique_from [] values

-- stringSet: the normalised values, each once.
unfoldable pub string_set : List Text → List Text
string_set [] = []
string_set (v ∷ values) =
    let t = normalize_provider v in
    let rest = string_set values in
    if is_empty t then rest else if has rest t then rest else t ∷ rest

-- hashToken
unfoldable pub hash_token : Platform → Text → Text
hash_token p token = p.sha256_hex (trim_space token)
