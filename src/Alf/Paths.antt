-- ===== src/Alf/Paths.antt =====
-- The names that may become parts of a path (`safe_id` and `safe_rel` of tools/clearwright_alf.py).
use Prim.Native.Char.{Char, code}
use clear_wright.Prelude.{
  ℕ, String, zero, suc, Bool, true, false, not, ◌&&◌, ◌||◌, List, [], ◌∷◌, Option, none, some,
  if◌then◌else◌, ◌==◌, leb, is_blank, has_char, has_text, starts_with, elem, all,
}

unfoldable pub is_alnum : ℕ → Bool
is_alnum n = (leb 48 n && leb n 57) || ((leb 65 n && leb n 90) || (leb 97 n && leb n 122))

-- A letter, a digit, a dot, an underscore or a dash.
unfoldable pub is_name_char : ℕ → Bool
unfolding is_alnum
is_name_char n = is_alnum n || (n == 46 || (n == 95 || n == 45))

-- `[A-Za-z0-9._-]{0,room}$`, whose `$` also stands before a newline at the end.
unfoldable pub id_tail : ℕ → String → Bool
id_tail room String.[] = true
id_tail zero (String.◌∷◌ c s) = code c == 10 && is_blank s
id_tail (suc room) (String.◌∷◌ c s) =
    let rest = id_tail room s in (code c == 10 && is_blank s) || (is_name_char (code c) && rest)

unfoldable pub matches_id : String → Bool
unfolding is_alnum id_tail
matches_id String.[] = false
matches_id (String.◌∷◌ c s) = is_alnum (code c) && id_tail 190 s

unfoldable pub safe_id : String → Bool
unfolding matches_id
safe_id s = not (has_text ".." s) && matches_id s

unfoldable pub with_char : Char → List String → List String
with_char c [] = []
with_char c (p ∷ ps) = String.◌∷◌ c p ∷ ps

-- `rel.split("/")`
unfoldable pub components : String → List String
unfolding with_char
components String.[] = "" ∷ []
components (String.◌∷◌ c s) =
    let rest = components s in if code c == 47 then "" ∷ rest else with_char c rest

unfoldable pub is_component : String → Bool
is_component p = not (elem p ("" ∷ ("." ∷ (".." ∷ [])))) && safe_id p

unfoldable pub safe_rel : String → Option (List String)
unfolding is_component
safe_rel rel =
    if is_blank rel
      || (starts_with "/" rel || (has_char 92 rel || (has_char 58 rel || has_char 0 rel)))
    then none
    else if all is_component (components rel)
    then some (components rel)
    else none
