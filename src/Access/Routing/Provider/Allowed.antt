-- ===== src/Access/Routing/Provider/Allowed.antt =====
-- The tests that a provider passes in ChooseProviderRouted of internal/access/routing.go.
use cpa_access_manager.Base.{
  ◌≡◌, refl, sym, ap, ◌∙◌, subst, ◌⊎◌, inl, inr, Bool, true, false, ◌&&◌, ◌||◌, not, List, [], ◌∷◌,
  In, arith, if◌then◌else◌,
}
use cpa_access_manager.Base.Text.{Text, is_empty, trim_space}
use cpa_access_manager.Access.Types.{Key}
use cpa_access_manager.Access.Normalize.{has}
use cpa_access_manager.Access.Limits.{limits_enabled}
use cpa_access_manager.Access.Prices.{find_price_rule}
use cpa_access_manager.Access.Auth.{is_ok}
use cpa_access_manager.Access.Clean.Reads.{provider_passes-ReadsOnly}
use cpa_access_manager.Access.Routing.Provider.{is_nil, provider_passes, allowed_providers}
use cpa_access_manager.Access.Db.{Result, ok, State, Store, Db, ◌>>=◌, pure, attempt}
use cpa_access_manager.Access.Db.Reads.{read_same}
use cpa_access_manager.Access.Db.Success.{bind_ok, pure_ok}

-- A run of PriceRule on the store finds a price.
pub record HasPrice (v model : Text) (s : Store) : Type 0 where
  pub at : State
  pub same : at.store ≡ s
  pub found : is_ok (find_price_rule v model at).0 ≡ true

-- The provider may serve: it is offered, and has a price where the key has a limit.
pub record MayServe (key : Key) (model : Text) (allow_unpriced : Bool) (available : List Text)
    (s : Store) (v : Text) : Type 0 where
  pub named : is_empty v ≡ false
  pub offered : is_nil available || has available v ≡ true
  pub priced :
      limits_enabled key.limits && (not allow_unpriced && not (is_empty (trim_space model))) ≡ true
      → HasPrice v model s

attempt_ok :
    {A : Type 0} (m : Db A) (s t : State) (r : Result A) → attempt m s ≡ (ok r, t) → (m s).0 ≡ r
unfolding attempt
attempt_ok m s t r h = ground arith

priced_passes :
    (v model : Text) (s s' : State)
    → (attempt (find_price_rule v model) >>= λ rule. pure (is_ok rule)) s ≡ (ok true, s')
    → HasPrice v model s.store
priced_passes v model s s' h =
    let (r, t, found, h1) = bind_ok _ _ s true s' h in
    record {
      at = s;
      same = refl;
      found =
          ap is_ok (attempt_ok (find_price_rule v model) s t r found)
          ∙ sym (pure_ok (is_ok r) t true s' h1).0;
    }

-- A test that ends with `false` did not apply where the operation gave `true`.
unless_true :
    (b : Bool) (m : Db Bool) (s s' : State)
    → (if b then pure false else m) s ≡ (ok true, s')
    → (b ≡ false) × (m s ≡ (ok true, s'))
unfolding pure
unless_true true m s s' h = absurd (cc)
unless_true false m s s' h = (refl, h)

when_true :
    (b : Bool) (m : Db Bool) (s s' : State)
    → (if b then m else pure true) s ≡ (ok true, s')
    → b ≡ true
    → m s ≡ (ok true, s')
when_true true m s s' h e = h
when_true false m s s' h e = absurd (cc)

provider_passes_ok :
    (key : Key) (model : Text) (b : Bool) (available : List Text) (v : Text) (s s' : State)
    → provider_passes key model b available v s ≡ (ok true, s')
    → MayServe key model b available s.store v
unfolding provider_passes
provider_passes_ok key model b available v s s' h =
    let (named, h1) = unless_true (is_empty v) _ s s' h in
    let (offered, h2) = unless_true (not (is_nil available) && not (has available v)) _ s s' h1 in
    record {
      named = named;
      offered = ground arith;
      priced = λ e. priced_passes v model s s' (when_true _ _ s s' h2 e);
    }

pub allowed_providers_ok :
    (key : Key) (model : Text) (b : Bool) (available providers : List Text) (s s' : State)
    (vs : List Text) (v : Text)
    → allowed_providers key model b available providers s ≡ (ok vs, s')
    → In v vs
    → In v providers × MayServe key model b available s.store v
unfolding allowed_providers
allowed_providers_ok key model b available [] s s' vs v h m =
    absurd (subst (λ l. In v l) (pure_ok [] s vs s' h).0 m)
allowed_providers_ok key model b available (x ∷ xs) s s' vs v h m =
    let (passes, t, tested, h1) = bind_ok (provider_passes key model b available x) _ s vs s' h in
    let (rest, t', others, h2) =
      bind_ok (allowed_providers key model b available xs) _ t vs s' h1 in
    let same =
      read_same s t (ok passes) (provider_passes-ReadsOnly key model b available x) tested in
    elim (kept passes rest (subst (λ l. In v l) (pure_ok _ t' vs s' h2).0 m)) [
      | inl (p, e) ↦ (
        inl e,
        subst (λ y. MayServe key model b available s.store y) (sym e)
            (provider_passes_ok key model b available x s t
              (subst (λ p. provider_passes key model b available x s ≡ (ok p, t)) p tested)),
      )
      | inr n ↦
          let (i, k) = allowed_providers_ok key model b available xs t t' rest v others n in
          (inr i, subst (λ y. MayServe key model b available y v) same k)
    ]
  where
    kept :
        (p : Bool) (rest : List Text)
        → In v (if p then x ∷ rest else rest)
        → ((p ≡ true) × (v ≡ x)) ⊎ In v rest
    kept true rest (inl e) = inl (refl, e)
    kept true rest (inr n) = inr n
    kept false rest n = inr n
