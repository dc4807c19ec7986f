-- ===== src/Access/Normalize/Laws.antt =====
-- Laws of the normalisations (internal/access/store.go).
use cpa_access_manager.Base.{ℕ, ◌≡◌, refl, ◌∙◌, ap, [], ◌∷◌, arith, if◌then◌else◌, ◌==◌}
use cpa_access_manager.Base.Text.{
  Text, to_lower, to_lower_idem, trim_space, trim_space_idem, trim_space-to_lower, replace_all,
  trim_left, trim_right, trim_end,
}
use cpa_access_manager.Access.Normalize.{normalize_provider, normalize_target_type}

-- A normalized provider is its own normal form.
pub normalize_provider_idem :
    (v : Text) → normalize_provider (normalize_provider v) ≡ normalize_provider v
unfolding normalize_provider
normalize_provider_idem v =
    ap to_lower (trim_space-to_lower (trim_space v))
    ∙ to_lower_idem (trim_space (trim_space v))
    ∙ ap to_lower (trim_space_idem v)

pub trim_space-normalize_provider :
    (v : Text) → trim_space (normalize_provider v) ≡ normalize_provider v
unfolding normalize_provider
trim_space-normalize_provider v =
    trim_space-to_lower (trim_space v) ∙ ap to_lower (trim_space_idem v)

-- The dash becomes an underscore.
abbrev underscored : Text → Text
underscored s = replace_all s b'-' b'_'

underscored_idem : (s : Text) → underscored (underscored s) ≡ underscored s
unfolding replace_all
underscored_idem [] = refl
underscored_idem (c ∷ s) = ground (arith, underscored_idem s)

to_lower-underscored : (s : Text) → to_lower (underscored s) ≡ underscored (to_lower s)
unfolding replace_all to_lower
to_lower-underscored [] = refl
to_lower-underscored (c ∷ s) = ground (arith, to_lower-underscored s)

trim_left-underscored : (s : Text) → trim_left (underscored s) ≡ underscored (trim_left s)
unfolding replace_all trim_left
trim_left-underscored [] = refl
trim_left-underscored (c ∷ s) = ground (arith, trim_left-underscored s)

trim_end-underscored :
    (c : ℕ) (r : Text)
    → trim_end (if c == b'-' then b'_' else c) (underscored r) ≡ underscored (trim_end c r)
unfolding replace_all trim_end
trim_end-underscored c [] = ground arith
trim_end-underscored c (d ∷ r) = refl

trim_right-underscored : (s : Text) → trim_right (underscored s) ≡ underscored (trim_right s)
unfolding replace_all trim_right
trim_right-underscored [] = refl
trim_right-underscored (c ∷ s) =
    rw (trim_right-underscored s) (trim_end-underscored c (trim_right s))

trim_space-underscored : (s : Text) → trim_space (underscored s) ≡ underscored (trim_space s)
unfolding trim_space
trim_space-underscored s = rw (trim_left-underscored s) (trim_right-underscored (trim_left s))

-- A normalized target type is its own normal form.
pub normalize_target_type_idem :
    (v : Text) → normalize_target_type (normalize_target_type v) ≡ normalize_target_type v
unfolding normalize_target_type
normalize_target_type_idem v =
    let w = to_lower (trim_space v) in
    ap (λ x. underscored (to_lower x))
      (trim_space-underscored w
        ∙ ap underscored (trim_space-to_lower (trim_space v) ∙ ap to_lower (trim_space_idem v)))
    ∙ ap underscored (to_lower-underscored w ∙ ap underscored (to_lower_idem (trim_space v)))
    ∙ underscored_idem w
