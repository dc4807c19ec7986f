-- ===== src/Access/Keys/Token.antt =====
-- newPlainKey, newID and maskToken of internal/access/store.go, with the encoding
-- base64.RawURLEncoding.
use cpa_access_manager.Base.{
  ℕ, ◌+◌, ◌-◌, ◌*◌, ◌/◌, ◌%◌, [], ◌∷◌, ◌++◌, Option, none, some, leb, ltb, if◌then◌else◌, length,
  take, drop,
}
use cpa_access_manager.Base.Text.{Text, codes, is_empty, trim_space}
use cpa_access_manager.Access.Types.{Error}
use cpa_access_manager.Access.Normalize.{Platform, hash_token}
use cpa_access_manager.Access.Db.{Result, ok, err}

-- The letter of six bits.
unfoldable pub base64_letter : ℕ → ℕ
base64_letter n =
    if ltb n 26
    then 65 + n
    else if ltb n 52
    then 97 + (n - 26)
    else if ltb n 62
    then 48 + (n - 52)
    else if ltb n 63
    then b'-'
    else b'_'

-- base64.RawURLEncoding.EncodeToString
unfoldable pub base64_url : Text → Text
unfolding base64_letter
base64_url [] = []
base64_url (a ∷ []) = base64_letter (a / 4) ∷ base64_letter (a % 4 * 16) ∷ []
base64_url (a ∷ b ∷ []) =
    base64_letter (a / 4) ∷ base64_letter (a % 4 * 16 + b / 16) ∷ base64_letter (b % 16 * 4) ∷ []
base64_url (a ∷ b ∷ c ∷ rest) =
    base64_letter (a / 4)
    ∷ base64_letter (a % 4 * 16 + b / 16)
    ∷ base64_letter (b % 16 * 4 + c / 64)
    ∷ base64_letter (c % 64)
    ∷ base64_url rest

-- maskToken
unfoldable pub mask_token : Text → Text
mask_token value =
    let v = trim_space value in
    let n = length v in
    if is_empty v
    then []
    else if leb n 8
    then (if leb n 4 then v else take 3 v ++ (codes "***" ++ drop (n - 2) v))
    else take 8 v ++ (codes "******" ++ drop (n - 4) v)

pub record NewToken : Type 0 where
  pub plain : Text
  pub hash : Text
  pub prefix : Text

-- newPlainKey; the argument is what rand.Read fills the 32 bytes with, `none` if it fails.
unfoldable pub new_plain_key : Platform → Option Text → Result NewToken
unfolding base64_url mask_token
new_plain_key p none = err Error.fault
new_plain_key p (some bytes) =
    let plain = codes "cam_" ++ base64_url bytes in
    ok (record { plain = plain; hash = hash_token p plain; prefix = mask_token plain })

-- newID, over 10 bytes
unfoldable pub new_id : Text → Option Text → Result Text
unfolding base64_url
new_id prefix none = err Error.fault
new_id prefix (some bytes) = ok (prefix ++ (b'_' ∷ base64_url bytes))
