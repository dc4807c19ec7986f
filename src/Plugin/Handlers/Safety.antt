-- ===== src/Plugin/Handlers/Safety.antt =====
-- What the handlers of internal/plugin/app.go let through.
use cpa_access_manager.Base.{
  ◌≡◌, refl, sym, ap, subst, Bool, true, false, not, Option, none, some, ◌⊎◌, inl, inr, arith,
  if◌then◌else◌,
}
use cpa_access_manager.Base.Text.{Text}
use cpa_access_manager.Access.Types.{Time, Key}
use cpa_access_manager.Access.Normalize.{Platform}
use cpa_access_manager.Access.Auth.{authenticate}
use cpa_access_manager.Access.Auth.Safety.{IsAdmitted, authenticate_safe}
use cpa_access_manager.Access.Db.{Result, ok, err, State}
use cpa_access_manager.Plugin.Types.{App, Library, FrontendAuthRequest, FrontendAuthResponse}
use cpa_access_manager.Plugin.Values.{bearer_token, requested_model}
use cpa_access_manager.Plugin.Handlers.{
  Reply, reply, not_authenticated, auth_metadata, auth_reply, auth_token, auth_request, auth_with,
  handle_auth,
}

module _ {A : Type 0} (P : A → Type 0) where
  answer_of : (x y : A) (a a' : App) → ◌≡◌ {A = Reply A × App} (reply x, a) (reply y, a') → x ≡ y
  answer_of x y a a' h = cc

  -- A guard whose answer has not the property that the response has was false.
  pub unless_answer :
      (b : Bool) (a : App) (m : Reply A × App) (denied r : A) (a' : App)
      → (if b then (reply denied, a) else m) ≡ (reply r, a')
      → (P denied → ⊥)
      → P r
      → (b ≡ false) × (m ≡ (reply r, a'))
  unless_answer true a m denied r a' h not_denied given =
      absurd (not_denied (subst P (sym (answer_of denied r a a' h)) given))
  unless_answer false a m denied r a' h not_denied given = (refl, h)

-- The plugin is enabled, has a store, and the store admits the token of the request: the response
-- names the key.
pub record IsLetIn (p : Platform) (l : Library) (now present : Time) (a : App) (raw : Text)
    (r : FrontendAuthResponse) : Type 0 where
  pub enabled : a.cfg.enabled ≡ true
  pub state : State
  pub opened : a.store ≡ some state
  pub request : FrontendAuthRequest
  pub decoded : l.decode_auth raw ≡ some request
  pub key : Key
  pub admitted : IsAdmitted p (bearer_token l request.headers) now present state.store.db key
  pub principal : r.principal ≡ key.id
  pub metadata : r.metadata ≡ auth_metadata key (requested_model l request.body request.query)

auth_reply_ok :
    (model : Text) (o : Result Key) (r : FrontendAuthResponse)
    → auth_reply model o ≡ reply r
    → r.authenticated ≡ true
    → (key : Key) × (o ≡ ok key) × ((r.principal ≡ key.id) × (r.metadata ≡ auth_metadata key model))
unfolding auth_reply
auth_reply_ok model (ok key) r h given = (key, refl, ground arith)
auth_reply_ok model (err e) r h given = absurd (ground arith)

pub with_result : {A : Type 0} (r : Result A × State) (x : A) → r.0 ≡ ok x → r ≡ (ok x, r.1)
with_result r x e = ap (λ y. (y, r.1)) e

token_cases :
    (p : Platform) (now present : Time) (a a' : App) (s : State) (token model : Text)
    (r : FrontendAuthResponse)
    → auth_token p now present a s token model ≡ (reply r, a')
    → (r ≡ not_authenticated)
      ⊎ (auth_reply model (authenticate p token model now present s).0 ≡ reply r)
unfolding auth_token
token_cases p now present a a' s token model r h = ground arith

auth_token_ok :
    (p : Platform) (now present : Time) (a a' : App) (s : State) (token model : Text)
    (r : FrontendAuthResponse)
    → auth_token p now present a s token model ≡ (reply r, a')
    → r.authenticated ≡ true
    → (key : Key) × IsAdmitted p token now present s.store.db key
      × ((r.principal ≡ key.id) × (r.metadata ≡ auth_metadata key model))
unfolding auth_token
auth_token_ok p now present a a' s token model r h given =
    elim (token_cases p now present a a' s token model r h) [
      | inl same ↦ absurd (ground (arith, same))
      | inr found ↦
          let (key, e, said) = auth_reply_ok model _ r found given in
          (key, authenticate_safe p token model now present s _ key (with_result _ key e), said)
    ]

auth_request_ok :
    (p : Platform) (l : Library) (now present : Time) (a a' : App) (s : State) (raw : Text)
    (o : Option FrontendAuthRequest) (r : FrontendAuthResponse)
    → a.cfg.enabled ≡ true
    → a.store ≡ some s
    → l.decode_auth raw ≡ o
    → auth_request p l now present a s o ≡ (reply r, a')
    → r.authenticated ≡ true
    → IsLetIn p l now present a raw r
unfolding auth_request
auth_request_ok p l now present a a' s raw none r on opened decoded h given = absurd (cc)
auth_request_ok p l now present a a' s raw (some req) r on opened decoded h given =
    let (key, admitted, said) =
      auth_token_ok p now present a a' s (bearer_token l req.headers)
        (requested_model l req.body req.query) r h given in
    record {
      enabled = on;
      state = s;
      opened = opened;
      request = req;
      decoded = decoded;
      key = key;
      admitted = admitted;
      principal = said.0;
      metadata = said.1;
    }

auth_with_ok :
    (p : Platform) (l : Library) (now present : Time) (a a' : App) (raw : Text) (o : Option State)
    (r : FrontendAuthResponse)
    → a.store ≡ o
    → auth_with p l now present a raw o ≡ (reply r, a')
    → r.authenticated ≡ true
    → IsLetIn p l now present a raw r
unfolding auth_with
auth_with_ok p l now present a a' raw none r opened h given = absurd (ground (arith, h, given))
auth_with_ok p l now present a a' raw (some s) r opened h given =
    let (on, done) =
      unless_answer (λ x. x.authenticated ≡ true) (not a.cfg.enabled) a _ not_authenticated r a' h
        (λ x. absurd (ground (arith, x))) given in
    auth_request_ok p l now present a a' s raw (l.decode_auth raw) r (ground (arith, on)) opened
      refl done given

-- When the plugin answers a request with Authenticated, it is enabled and has a store, the token of
-- the headers is that of a stored key which is enabled and within its limits, and the principal and
-- the metadata of the response name that key.
pub handle_auth_safe :
    (p : Platform) (l : Library) (now present : Time) (a a' : App) (raw : Text)
    (r : FrontendAuthResponse)
    → handle_auth p l now present a raw ≡ (reply r, a')
    → r.authenticated ≡ true
    → IsLetIn p l now present a raw r
unfolding handle_auth
handle_auth_safe p l now present a a' raw r h given =
    auth_with_ok p l now present a a' raw a.store r refl h given
