-- ===== src/Plugin/Session.antt =====
-- Which identifier routingSessionHash of internal/plugin/routing_session.go takes: the conversation of
-- the client wins over execution_session_id.
use cpa_access_manager.Base.{
  ◌≡◌, refl, ap, ◌∙◌, Bool, true, false, not, ◌||◌, List, [], ◌∷◌, any, arith,
}
use cpa_access_manager.Base.Text.{Text, codes, is_empty}
use cpa_access_manager.Access.Normalize.{Platform}
use cpa_access_manager.Plugin.Types.{Fields, Headers, Library}
use cpa_access_manager.Plugin.Values.{
  hash_first, headers_in, metadata_in, session_headers, session_fields, routing_session_hash,
  routing_metadata_string, header_value,
}

abbrev is_given : Text → Bool
is_given v = not (is_empty v)

-- Where one of the values is there, what comes after them is not looked at.
hash_first-rest :
    (p : Platform) (values : List Text) (r r' : Text)
    → any is_given values ≡ true
    → hash_first p values r ≡ hash_first p values r'
unfolding hash_first any
hash_first-rest p [] r r' h = absurd (cc)
hash_first-rest p (v ∷ values) r r' h = ground (arith, hash_first-rest p values r r')

-- The identifiers of the conversation: those of the headers, then those of the metadata.
abbrev pub names_conversation : Library → Fields → Headers → Bool
names_conversation l m h =
    any is_given (headers_in h session_headers) || any is_given (metadata_in l m session_fields)

hash_cases :
    (p : Platform) (hs ms : List Text) (r r' : Text)
    → any is_given hs || any is_given ms ≡ true
    → hash_first p hs (hash_first p ms r) ≡ hash_first p hs (hash_first p ms r')
hash_cases p hs ms r r' h = split (any is_given hs) refl
  where
    split :
        (b : Bool)
        → any is_given hs ≡ b
        → hash_first p hs (hash_first p ms r) ≡ hash_first p hs (hash_first p ms r')
    split true e = hash_first-rest p hs (hash_first p ms r) (hash_first p ms r') e
    split false e = ap (hash_first p hs) (hash_first-rest p ms r r' (ground (arith, e, h)))

-- What is looked at after them.
later_hash : Platform → Library → Fields → Headers → Text
later_hash p l m h =
    hash_first p (routing_metadata_string l m (codes "execution_session_id") ∷ [])
      (hash_first p (header_value h (codes "X-Client-Request-Id") ∷ []) [])

-- Two requests with the same headers and the same conversation fields, of which one is given, have the
-- same session hash, whatever execution_session_id they come with.
pub routing_session_hash-conversation :
    (p : Platform) (l : Library) (m m' : Fields) (h : Headers)
    → metadata_in l m session_fields ≡ metadata_in l m' session_fields
    → names_conversation l m h ≡ true
    → routing_session_hash p l m h ≡ routing_session_hash p l m' h
unfolding routing_session_hash later_hash
routing_session_hash-conversation p l m m' h same given =
    let hs = headers_in h session_headers in
    hash_cases p hs (metadata_in l m session_fields) _ (later_hash p l m' h) given
    ∙ ap (λ ms. hash_first p hs (hash_first p ms (later_hash p l m' h))) same
