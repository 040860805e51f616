-- ===== src/Gate/Tokens.antt =====
-- The text searches of tools/clearwright_gate.py: `id_token_present` and `phrase_authorizes`.
-- `str.lower` and the regular expressions' `\w` are parameters.
use Prim.Native.Char.{code}
use Prim.Native.String.{[], ◌∷◌}
use mathlib.Core.List.{List}
use clear_wright.Prelude.{
  ℕ, suc, String, ◌-◌, ◌%◌, Bool, true, false, not, ◌&&◌, ◌||◌, any, leb, ◌==◌, if◌then◌else◌,
  is_blank, text_length, starts_with, take_text, drop_text,
}

-- One of `A-Za-z0-9:_-`.
unfoldable pub is_id_char : ℕ → Bool
is_id_char c =
    (leb 48 c && leb c 58)
    || (leb 65 c && leb c 90)
    || (leb 97 c && leb c 122)
    || c == 95
    || c == 45

-- No character of the class stands at the front of the text.
abbrev bounded : (ℕ → Bool) → String → Bool
bounded inside [] = true
bounded inside (c ∷ s) = not (inside (code c))

-- The text starts with the token, and the token ends there.
abbrev token_here : (ℕ → Bool) → String → String → Bool
token_here inside [] s = bounded inside s
token_here inside (a ∷ t) [] = false
token_here inside (a ∷ t) (c ∷ s) = code a == code c && token_here inside t s

-- The token stands somewhere in the text, bounded on both sides; `free` says whether the character
-- before the text is outside the class.
unfoldable pub token_in : (ℕ → Bool) → Bool → String → String → Bool
token_in inside free t [] = false
token_in inside free t (c ∷ s) =
    (free && token_here inside t (c ∷ s)) || token_in inside (not (inside (code c))) t s

unfoldable pub id_token_present : String → String → Bool
id_token_present body token = if is_blank token then false else token_in is_id_char true token body

unfoldable pub count_code : ℕ → String → ℕ
count_code n [] = 0
count_code n (c ∷ s) = let rest = count_code n s in if code c == n then suc rest else rest

abbrev odd : ℕ → Bool
odd n = n % 2 == 1

module _ (is_word : ℕ → Bool) (negations : List String) (body low : String) where
  -- The phrase that stands at `start` is neither quoted nor negated shortly before.
  intended : ℕ → Bool
  intended start =
      let prefix = take_text start body in
      let window = drop_text (start - 24) (take_text start low) in
      not (odd (count_code 34 prefix) || odd (count_code 39 prefix))
      && not (any (λ t. token_in is_word true t window) negations)

  skipped : Bool → ℕ → ℕ → ℕ
  skipped true n skip = n - 1
  skipped false n skip = skip - 1

  -- `re.finditer` over the rest of the text from `start`; `skip` characters belong to the match
  -- before.
  unfoldable pub phrase_from : String → ℕ → ℕ → String → Bool
  unfolding intended skipped
  phrase_from phrase start skip [] = false
  phrase_from phrase start skip (c ∷ s) =
      let here = skip == 0 && starts_with phrase (c ∷ s) in
      (here && intended start)
      || phrase_from phrase (suc start) (skipped here (text_length phrase) skip) s
