-- ===== src/Base/Text/Order.antt =====
-- The order of texts byte by byte (Go's `<` on strings and SQLite's BINARY collation).
use cpa_access_manager.Base.{
  ◌≡◌, refl, inl, inr, Bool, true, false, Bool-cases, [], ◌∷◌, arith, ltb, ◌==◌, if◌then◌else◌,
}
use cpa_access_manager.Base.Text.Trim.{Text}

-- s < t
unfoldable pub text_ltb : Text → Text → Bool
text_ltb s [] = false
text_ltb [] (d ∷ t) = true
text_ltb (c ∷ s) (d ∷ t) = if ltb c d then true else if c == d then text_ltb s t else false

-- s <= t
abbrev pub text_leb : Text → Text → Bool
text_leb s t = if text_ltb t s then false else true

pub text_ltb_irrefl : (s : Text) → text_ltb s s ≡ false
unfolding text_ltb
text_ltb_irrefl [] = refl
text_ltb_irrefl (c ∷ s) = ground (arith, text_ltb_irrefl s)

pub text_ltb_trans :
    (s t u : Text) → text_ltb s t ≡ true → text_ltb t u ≡ true → text_ltb s u ≡ true
unfolding text_ltb
text_ltb_trans s t [] h k = cc
text_ltb_trans s [] (e ∷ u) h k = absurd (cc)
text_ltb_trans [] (d ∷ t) (e ∷ u) h k = refl
text_ltb_trans (c ∷ s) (d ∷ t) (e ∷ u) h k = ground (arith, text_ltb_trans s t u)

-- Two texts that neither order puts first are the same text.
pub text_ltb_connected : (s t : Text) → text_ltb s t ≡ false → text_ltb t s ≡ false → s ≡ t
unfolding text_ltb
text_ltb_connected [] [] h k = refl
text_ltb_connected [] (d ∷ t) h k = absurd (cc)
text_ltb_connected (c ∷ s) [] h k = absurd (cc)
text_ltb_connected (c ∷ s) (d ∷ t) h k = ground (arith, text_ltb_connected s t)

-- `text_ltb s t ≡ false` says t <= s.
pub text_leb_trans :
    (s t u : Text) → text_ltb t s ≡ false → text_ltb u t ≡ false → text_ltb u s ≡ false
text_leb_trans s t u h k = elim (Bool-cases (text_ltb u s)) [
  | inr e ↦ e
  | inl e ↦ elim (Bool-cases (text_ltb t u)) [
    | inl l ↦ absurd (let b = text_ltb_trans t u s l e in cc)
    | inr l ↦ absurd (let b = text_ltb_connected u t k l in cc)
  ]
]
