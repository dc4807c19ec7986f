-- ===== src/Plugin/Update/Quote.antt =====
-- shellQuote of internal/plugin/cpa_update.go against the rules of the shell for quoted words.
use mathlib.Core.List.{append_assoc}
use cpa_access_manager.Base.{
  ℕ, ◌≡◌, refl, ap, ◌∙◌, Bool, true, false, ◌||◌, [], ◌∷◌, ◌++◌, Option, none, some, arith,
  if◌then◌else◌, ◌==◌,
}
use cpa_access_manager.Base.Text.{Text}
use cpa_access_manager.Plugin.Update.{quoted, shell_quote}

-- Where the shell stands in a word.
pub data Mode : Type 0 where
  plain : Mode
  single : Mode
  double : Mode

put : ℕ → Option (Text × Text) → Option (Text × Text)
put c none = none
put c (some (word, rest)) = some (c ∷ word, rest)

-- A word of quoted parts, and what follows it: between single quotes every byte stands for itself,
-- between double quotes all but the dollar, the backquote and the backslash do. A quote that is not
-- closed is no word. Outside of quotes a blank ends the word, and nothing else is read.
unfoldable pub read_word : Mode → Text → Option (Text × Text)
unfolding put
read_word plain [] = some ([], [])
read_word single [] = none
read_word double [] = none
read_word plain (c ∷ s) =
    let in_single = read_word single s in
    let in_double = read_word double s in
    if c == b'\''
    then in_single
    else if c == b'"'
    then in_double
    else if c == b' '
    then some ([], c ∷ s)
    else none
read_word single (c ∷ s) =
    let out = read_word plain s in
    let more = read_word single s in if c == b'\'' then out else put c more
read_word double (c ∷ s) =
    let out = read_word plain s in
    let more = read_word double s in
    if c == b'"' then out else if c == b'$' || (c == b'`' || c == b'\\') then none else put c more

-- What follows a word on the command line: nothing, or a blank.
abbrev pub EndsWord : Text → Type 0
EndsWord rest = read_word plain rest ≡ some ([], rest)

same_code : (c d : ℕ) → c == d ≡ true → d ≡ c
same_code c d h = ground arith

quoted_step :
    (b : Bool) (c : ℕ) (q : Text)
    → c == b'\'' ≡ b
    → read_word single (if b then b'\'' ∷ b'"' ∷ b'\'' ∷ b'"' ∷ b'\'' ∷ q else c ∷ q)
      ≡ put c (read_word single q)
unfolding read_word put
quoted_step true c q e = ap (λ d. put d (read_word single q)) (same_code c b'\'' e)
quoted_step false c q e = rw e refl

append_if :
    (b : Bool) (c : ℕ) (q tail : Text)
    → (if b then b'\'' ∷ b'"' ∷ b'\'' ∷ b'"' ∷ b'\'' ∷ q else c ∷ q) ++ tail
      ≡ (if b then b'\'' ∷ b'"' ∷ b'\'' ∷ b'"' ∷ b'\'' ∷ (q ++ tail) else c ∷ (q ++ tail))
append_if true c q tail = refl
append_if false c q tail = refl

read_end : (rest : Text) → EndsWord rest → read_word single (b'\'' ∷ rest) ≡ some ([], rest)
unfolding read_word
read_end rest h = h

read_quoted :
    (v rest : Text) → EndsWord rest → read_word single (quoted v ++ (b'\'' ∷ rest)) ≡ some (v, rest)
unfolding quoted put
read_quoted [] rest h = read_end rest h
read_quoted (c ∷ v) rest h =
    ap (read_word single) (append_if (c == b'\'') c (quoted v) (b'\'' ∷ rest))
    ∙ (quoted_step (c == b'\'') c (quoted v ++ (b'\'' ∷ rest)) refl
        ∙ ap (put c) (read_quoted v rest h))

-- The shell reads the text that shellQuote makes as one word, the value itself, and stands where the
-- quoted text ends; whatever bytes the value has.
pub shell_quote-read_word :
    (v rest : Text) → EndsWord rest → read_word plain (shell_quote v ++ rest) ≡ some (v, rest)
unfolding shell_quote read_word
shell_quote-read_word v rest h =
    ap (read_word single) (append_assoc (quoted v) (b'\'' ∷ []) rest) ∙ read_quoted v rest h
