-- ===== src/Plugin/Management/Responses.antt =====
-- How the management API answers: jsonOrError, statusFromError, decodeJSON and hasAnyJSONField of
-- internal/plugin/management.go. A handler is a computation on the store that does not fail: it turns
-- the errors of the store into responses.
use cpa_access_manager.Base.{
  ℕ, ◌-◌, Bool, false, ◌&&◌, List, [], ◌∷◌, Option, none, some, any, if◌then◌else◌, leb,
}
use cpa_access_manager.Base.Text.{Text, is_empty, trim_space, text_eq}
use cpa_access_manager.Access.Types.{Time, Error}
use cpa_access_manager.Access.Normalize.{has}
use cpa_access_manager.Access.Db.{Result, ok, err, Db, ◌>>=◌, pure, attempt}
use cpa_access_manager.Plugin.Types.{Headers}
use cpa_access_manager.Plugin.Values.{values_of}
use cpa_access_manager.Plugin.Management.Types.{
  Payload, failure, ManagementResponse, json_management, bad_request, Outside,
}

-- What the clock and the random source give a request.
pub record Inputs : Type 0 where
  pub present : Time
  pub token_read : Option Text
  pub id_read : Option Text

upper : ℕ → ℕ
upper c = if leb 97 c && leb c 122 then c - 32 else c

-- strings.ToUpper
unfoldable pub to_upper : Text → Text
unfolding upper
to_upper [] = []
to_upper (c ∷ s) = upper c ∷ to_upper s

abbrev pub is_method : Text → Text → Bool
is_method name method = text_eq (to_upper method) name

head_or_empty : List Text → Text
head_or_empty [] = []
head_or_empty (v ∷ values) = v

-- url.Values.Get
unfoldable pub query_get : Text → Headers → Text
unfolding head_or_empty values_of
query_get k q = head_or_empty (values_of k q)

-- statusFromError
unfoldable pub status_from_error : Error → ℕ
status_from_error Error.key_not_found = 404
status_from_error Error.no_rows = 404
status_from_error _ = 400

unfoldable pub json_or_error : {A : Type 0} → (A → Payload) → Result A → ManagementResponse
unfolding status_from_error
json_or_error f (ok a) = json_management 200 (f a)
json_or_error f (err e) = json_management (status_from_error e) (failure e)

-- The response of a call of the store: jsonOrError.
unfoldable pub answer : {A : Type 0} → (A → Payload) → Db A → Db ManagementResponse
unfolding json_or_error
answer f m = do r ← attempt m; pure (json_or_error f r)

unfoldable pub coded : {A : Type 0} → ℕ → (A → Payload) → Result A → ManagementResponse
coded code f (ok a) = json_management code (f a)
coded code f (err e) = json_management 400 (failure e)

-- The same where every error is a bad request, and success has a code of its own.
unfoldable pub answer_coded : {A : Type 0} → ℕ → (A → Payload) → Db A → Db ManagementResponse
unfolding coded
answer_coded code f m = do r ← attempt m; pure (coded code f r)

-- decodeJSON: an empty body is an error.
unfoldable pub decode_json : {A : Type 0} → (Text → Option A) → Text → Option A
decode_json f body = if is_empty (trim_space body) then none else f body

-- The response to a body that does not decode, else what is made of it.
unfoldable pub with_body :
    {A : Type 0} → Option A → (A → Db ManagementResponse) → Db ManagementResponse
with_body none f = pure bad_request
with_body (some body) f = f body

any_field : Option (List Text) → List Text → Bool
unfolding any has
any_field none names = false
any_field (some fields) names = any (has fields) names

-- hasAnyJSONField
unfoldable pub has_any_json_field : Outside → Text → List Text → Bool
unfolding any_field
has_any_json_field o [] names = false
has_any_json_field o (c ∷ body) names = any_field (o.field_names (c ∷ body)) names
