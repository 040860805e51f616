-- ===== src/Work/Iso.antt =====
-- Times as the records hold them: `_parse_iso` and `_age_seconds` of tools/clearwright_work.py.
use Prim.Native.Char.{code}
use Prim.Native.String.{[], ◌∷◌}
use clear_wright.Prelude.{
  ℕ, String, ◌-◌, ◌*◌, Bool, false, Option, none, some, if◌then◌else◌, ◌==◌, is_blank, concat,
  strip, leb, has_char, take_text, text_length, ends_with,
}
use clear_wright.Json.{Value, str}
use clear_wright.Work.{Python}

-- The text before the first full stop, and the text behind it.
before_point : String → String
before_point [] = []
before_point (c ∷ s) = let rest = before_point s in if code c == 46 then [] else c ∷ rest

after_point : String → String
after_point [] = []
after_point (c ∷ s) = let rest = after_point s in if code c == 46 then s else rest

-- The digits at the front of a text, and the text behind them.
leading_digits : (ℕ → Bool) → String → String
leading_digits digit [] = []
leading_digits digit (c ∷ s) =
    let rest = leading_digits digit s in if digit (code c) then c ∷ rest else []

behind_digits : (ℕ → Bool) → String → String
behind_digits digit [] = []
behind_digits digit (c ∷ s) =
    let rest = behind_digits digit s in if digit (code c) then rest else c ∷ s

or_zero : String → String
or_zero s = if is_blank s then "0" else s

-- At most six digits of a fraction are kept.
unfoldable pub six_digits : (ℕ → Bool) → String → String
unfolding before_point after_point leading_digits behind_digits or_zero
six_digits digit s =
    if has_char 46 s
    then concat (before_point s) (
        concat "." (
          concat (or_zero (take_text 6 (leading_digits digit (after_point s))))
            (behind_digits digit (after_point s))))
    else s

with_offset : String → String
with_offset s = if ends_with "Z" s then concat (take_text (text_length s - 1) s) "+00:00" else s

unfoldable pub parse_time : Python → Value → Option ℕ
unfolding six_digits with_offset
parse_time py (str s) =
    if is_blank s then none else py.from_iso (six_digits py.is_digit (with_offset (strip s)))
parse_time py _ = none

or_time : Option ℕ → Option ℕ → Option ℕ
or_time none b = b
or_time (some t) b = some t

since : ℕ → Option ℕ → Option ℕ
since now none = none
since now (some t) = some (now - t)

-- `_age_seconds` in microseconds; no age is the infinite one.
unfoldable pub age : Python → ℕ → Value → Value → Option ℕ
unfolding or_time since
age py now activity created = since now (or_time (parse_time py activity) (parse_time py created))

-- `age <= seconds`
unfoldable pub is_within : ℕ → Option ℕ → Bool
is_within seconds none = false
is_within seconds (some micros) = leb micros (seconds * 1000000)
