-- ===== src/Prelude/Text.antt =====
-- Python's text operations, over the native strings by their characters.
use Prim.Native.Nat.{ℕ}
use Prim.Native.Char.{Char, code}
use Prim.Native.String.{String, [], ◌∷◌}
use mathlib.Core.Path.{◌≡◌, refl}
use mathlib.Core.Bool.{Bool, true, false, not, ◌&&◌, ◌||◌}
use native.Mathlib.Omega.{arith}
use clear_wright.Prelude.Tests.{leb, ◌==◌, if◌then◌else◌}

-- `s + t`
abbrev pub concat : String → String → String
concat [] t = t
concat (c ∷ s) t = c ∷ concat s t

-- `not s`
abbrev pub is_blank : String → Bool
is_blank [] = true
is_blank (c ∷ s) = false

-- `str.isspace` of one character
unfoldable pub is_space : ℕ → Bool
is_space c =
    (leb 9 c && leb c 13)
    || (leb 28 c && leb c 32)
    || c == 0x85
    || c == 0xa0
    || c == 0x1680
    || (leb 0x2000 c && leb c 0x200a)
    || (leb 0x2028 c && leb c 0x2029)
    || c == 0x202f
    || c == 0x205f
    || c == 0x3000

lstrip : String → String
lstrip [] = []
lstrip (c ∷ s) = let rest = lstrip s in if is_space (code c) then rest else c ∷ s

cons_unless_blank : Char → String → String
cons_unless_blank c s = if is_space (code c) && is_blank s then [] else c ∷ s

rstrip : String → String
rstrip [] = []
rstrip (c ∷ s) = cons_unless_blank c (rstrip s)

-- `s.strip()`
unfoldable pub strip : String → String
unfolding is_space lstrip cons_unless_blank rstrip
strip s = rstrip (lstrip s)

-- No character is white space.
abbrev pub is_solid : String → Bool
is_solid [] = true
is_solid (c ∷ s) = not (is_space (code c)) && is_solid s

rstrip_solid : (s : String) → is_solid s ≡ true → rstrip s ≡ s
unfolding rstrip cons_unless_blank
rstrip_solid [] h = refl
rstrip_solid (c ∷ s) h = ground (arith, rstrip_solid s)

lstrip_solid : (s : String) → is_solid s ≡ true → lstrip s ≡ s
unfolding lstrip
lstrip_solid [] h = refl
lstrip_solid (c ∷ s) h = ground arith

pub strip_solid : (s : String) → is_solid s ≡ true → strip s ≡ s
unfolding strip
strip_solid s h = rw (lstrip_solid s h) (rstrip_solid s h)

pub solid-concat :
    (s t : String) → is_solid s ≡ true → is_solid t ≡ true → is_solid (concat s t) ≡ true
solid-concat [] t a b = b
solid-concat (c ∷ s) t a b = ground (arith, solid-concat s t)
