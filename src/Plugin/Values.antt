-- ===== src/Plugin/Values.antt =====
-- Reading headers, metadata and bodies: the helpers of internal/plugin/app.go and
-- internal/plugin/routing_session.go.
use cpa_access_manager.Base.{
  Bool, ◌&&◌, not, List, [], ◌∷◌, Option, none, some, drop, if◌then◌else◌,
}
use cpa_access_manager.Base.Text.{Text, text_eq, codes, is_empty, trim_space, to_lower, has_prefix}
use cpa_access_manager.Access.Normalize.{Platform}
use cpa_access_manager.Plugin.Types.{Value, Fields, nil, string, none_left, field, Headers, Library}

-- firstNonEmpty of the package plugin: the value is trimmed.
unfoldable pub first_non_empty : List Text → Text
first_non_empty [] = []
first_non_empty (v ∷ values) =
    let rest = first_non_empty values in
    if not (is_empty (trim_space v)) then trim_space v else rest

-- `value, ok := m[key]`
unfoldable pub lookup : Text → Fields → Option Value
lookup k none_left = none
lookup k (field j v m) = let rest = lookup k m in if text_eq j k then some v else rest

-- fmt.Sprint
unfoldable pub sprint : Library → Value → Text
sprint l nil = codes "<nil>"
sprint l (string s) = s
sprint l v = l.sprint v

unfoldable pub given_or : Library → Option Value → Text → Text
unfolding sprint
given_or l none rest = rest
given_or l (some v) rest = let s = trim_space (sprint l v) in if not (is_empty s) then s else rest

-- The loop of keyIDFromMetadata.
unfoldable pub first_printed : Library → Fields → List Text → Text
unfolding given_or lookup
first_printed l m [] = []
first_printed l m (k ∷ keys) = given_or l (lookup k m) (first_printed l m keys)

abbrev pub key_names : List Text
key_names =
    codes "cpa_toolkit_key_id"
    ∷ codes "cpa_access_manager_key_id"
    ∷ codes "key_id"
    ∷ codes "api_key"
    ∷ codes "principal"
    ∷ []

-- keyIDFromMetadata
unfoldable pub key_id_from_metadata : Library → Fields → Text
unfolding first_printed
key_id_from_metadata l m = first_printed l m key_names

not_nil_or : Library → Option Value → Text → Text
unfolding sprint
not_nil_or l none rest = rest
not_nil_or l (some v) rest =
    let s = trim_space (sprint l v) in
    if not (is_empty s) && not (text_eq s (codes "<nil>")) then s else rest

-- metadataString
unfoldable pub metadata_string : Library → Fields → List Text → Text
unfolding not_nil_or lookup
metadata_string l m [] = []
metadata_string l m (k ∷ keys) = not_nil_or l (lookup k m) (metadata_string l m keys)

-- m[key] of a map of lists; a missing key reads as nil.
unfoldable pub values_of : Text → Headers → List Text
values_of k [] = []
values_of k ((j, vs) ∷ m) = let rest = values_of k m in if text_eq j k then vs else rest

-- http.Header.Values and Get
unfoldable pub header_values : Library → Headers → Text → List Text
unfolding values_of
header_values l h name = values_of (l.canonical name) h

first_or_empty : List Text → Text
first_or_empty [] = []
first_or_empty (v ∷ values) = v

unfoldable pub header_get : Library → Headers → Text → Text
unfolding header_values first_or_empty
header_get l h name = first_or_empty (header_values l h name)

abbrev bearer_prefix : Text
bearer_prefix = codes "bearer "

-- The token of one value of an Authorization header, `none` where the loop goes on.
unfoldable pub bearer_of : Text → Option Text
bearer_of v =
    let value = trim_space v in
    if has_prefix (to_lower value) bearer_prefix
    then some (trim_space (drop 7 value))
    else if not (is_empty value)
    then some value
    else none

or_next : Option Text → Option Text → Option Text
or_next none rest = rest
or_next (some t) rest = some t

bearer_in : List Text → Option Text
unfolding bearer_of or_next
bearer_in [] = none
bearer_in (v ∷ values) = or_next (bearer_of v) (bearer_in values)

or_empty : Option Text → Text → Text
or_empty none rest = rest
or_empty (some t) rest = t

-- The second loop of bearerToken.
unfoldable pub api_key_header : Library → Headers → List Text → Text
unfolding header_get
api_key_header l h [] = []
api_key_header l h (name ∷ names) =
    let value = trim_space (header_get l h name) in
    let rest = api_key_header l h names in if not (is_empty value) then value else rest

-- bearerToken
unfoldable pub bearer_token : Library → Headers → Text
unfolding bearer_in or_next or_empty api_key_header header_values
bearer_token l h =
    or_empty
      (or_next (bearer_in (header_values l h (codes "Authorization")))
        (bearer_in (header_values l h (codes "authorization"))))
      (api_key_header l h (codes "X-API-Key" ∷ codes "x-api-key" ∷ codes "api-key" ∷ []))

-- `payload["model"].(string)`
model_field : Option Value → Option Text
model_field (some (string s)) = some (trim_space s)
model_field _ = none

model_of_body : Library → Text → Option Text
unfolding model_field lookup
model_of_body l [] = none
model_of_body l (c ∷ body) = elim (l.decode_object (c ∷ body)) [
  | none ↦ none
  | some payload ↦ model_field (lookup (codes "model") payload)
]

model_of_query : Headers → List Text → Text
unfolding values_of
model_of_query q [] = []
model_of_query q (k ∷ keys) =
    let rest = model_of_query q keys in elim (values_of k q) [ [] ↦ rest | v ∷ vs ↦ trim_space v ]

-- requestedModel
unfoldable pub requested_model : Library → Text → Headers → Text
unfolding model_of_body model_of_query or_empty
requested_model l body query =
    or_empty (model_of_body l body)
      (model_of_query query (codes "model" ∷ codes "requested_model" ∷ []))

-- strings.EqualFold(strings.TrimSpace(key), name)
unfoldable pub same_name : Text → Text → Bool
same_name key name = text_eq (to_lower (trim_space key)) (to_lower name)

-- A nil value is passed over, as the `||` of the loop says.
text_unless_nil : Library → Value → Text → Text
unfolding sprint
text_unless_nil l nil rest = rest
text_unless_nil l v rest = trim_space (sprint l v)

-- routingMetadataString
unfoldable pub routing_metadata_string : Library → Fields → Text → Text
unfolding text_unless_nil same_name
routing_metadata_string l none_left name = []
routing_metadata_string l (field k v m) name =
    let rest = routing_metadata_string l m name in
    let here = text_unless_nil l v rest in if same_name k name then here else rest

-- The first value that is not blank, and the rest of the loop otherwise.
value_or : List Text → Text → Text
value_or [] rest = rest
value_or (v ∷ values) rest =
    let next = value_or values rest in if not (is_empty (trim_space v)) then trim_space v else next

-- headerValue
unfoldable pub header_value : Headers → Text → Text
unfolding value_or same_name
header_value [] name = []
header_value ((k, vs) ∷ h) name =
    let rest = header_value h name in
    let here = value_or vs rest in if same_name k name then here else rest

-- hashRoutingSession
unfoldable pub hash_routing_session : Platform → Text → Text
hash_routing_session p v = p.sha256_hex (trim_space v)

unfoldable pub headers_in : Headers → List Text → List Text
unfolding header_value
headers_in h [] = []
headers_in h (n ∷ names) = header_value h n ∷ headers_in h names

unfoldable pub metadata_in : Library → Fields → List Text → List Text
unfolding routing_metadata_string
metadata_in l m [] = []
metadata_in l m (n ∷ names) = routing_metadata_string l m n ∷ metadata_in l m names

abbrev pub session_headers : List Text
session_headers = codes "X-Session-ID" ∷ codes "Session-Id" ∷ codes "Session_id" ∷ []

abbrev pub session_fields : List Text
session_fields =
    codes "session_id"
    ∷ codes "sessionId"
    ∷ codes "conversation_id"
    ∷ codes "conversationId"
    ∷ codes "prompt_cache_key"
    ∷ []

-- The hash of the first value that there is, else the empty text.
unfoldable pub hash_first : Platform → List Text → Text → Text
unfolding hash_routing_session
hash_first p [] rest = rest
hash_first p (v ∷ values) rest =
    let next = hash_first p values rest in
    if not (is_empty v) then hash_routing_session p v else next

-- routingSessionHash
unfoldable pub routing_session_hash : Platform → Library → Fields → Headers → Text
unfolding hash_first headers_in metadata_in header_value routing_metadata_string
routing_session_hash p l m h = hash_first p (headers_in h session_headers) (
    hash_first p (metadata_in l m session_fields) (
      hash_first p (routing_metadata_string l m (codes "execution_session_id") ∷ [])
        (hash_first p (header_value h (codes "X-Client-Request-Id") ∷ []) [])))
