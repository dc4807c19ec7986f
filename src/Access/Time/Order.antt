-- ===== src/Access/Time/Order.antt =====
-- The order of stamps, by which the statements of internal/access/store.go compare times.
use cpa_access_manager.Base.{ℕ, refl, [], ◌∷◌, ◌++◌, ◌∙◌, ◌<◌, ◌≡◌, true, arith}
use cpa_access_manager.Base.Text.{Text, text_ltb}
use cpa_access_manager.Access.Types.{Time}
use cpa_access_manager.Access.Time.{fraction, stamp, after}
use cpa_access_manager.Access.Calendar.{date_and_time}

same_start : (p s t : Text) → text_ltb (p ++ s) (p ++ t) ≡ text_ltb s t
unfolding text_ltb
same_start [] s t = refl
same_start (c ∷ p) s t = ground (arith, same_start p s t)

fraction_first : (n : ℕ) → 0 < n → text_ltb (fraction n) (fraction 0) ≡ true
unfolding text_ltb fraction
fraction_first n h = ground arith

-- Within one second, a time with a fraction is after the whole second, and its stamp is the smaller
-- text.
pub text_ltb-stamp_reversed :
    (t u : Time)
    → t.seconds ≡ u.seconds
    → t.nanos ≡ 0
    → 0 < u.nanos
    → (after u t ≡ true) × (text_ltb (stamp u) (stamp t) ≡ true)
unfolding stamp after
text_ltb-stamp_reversed t u same whole part = (
  ground arith,
  rw (same, whole)
      (same_start (date_and_time u.seconds) (fraction u.nanos) (fraction 0)
        ∙ fraction_first u.nanos part),
)
