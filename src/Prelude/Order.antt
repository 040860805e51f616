-- ===== src/Prelude/Order.antt =====
-- Python's order on texts, by code points. A test `lt a b` says that `a` comes strictly before `b`.
use Prim.Native.Nat.{ℕ}
use Prim.Native.Char.{code}
use Prim.Native.String.{String}
use mathlib.Core.Path.{◌≡◌, refl, ap₂}
use mathlib.Core.Bool.{Bool, true, false, ◌&&◌, ◌||◌}
use mathlib.Core.List.{List, [], ◌∷◌}
use native.Mathlib.Omega.{arith}
use text.Mathlib.TextEquality.{Char-path}
use clear_wright.Prelude.Tests.{ltb, ◌==◌}

-- The code points of a text.
abbrev pub codes : String → List ℕ
codes String.[] = []
codes (String.◌∷◌ c s) = code c ∷ codes s

unfoldable pub codes_ltb : List ℕ → List ℕ → Bool
codes_ltb [] [] = false
codes_ltb [] (d ∷ t) = true
codes_ltb (c ∷ s) [] = false
codes_ltb (c ∷ s) (d ∷ t) = ltb c d || (c == d && codes_ltb s t)

-- `s < t`
unfoldable pub text_ltb : String → String → Bool
text_ltb s t = codes_ltb (codes s) (codes t)

pub codes_ltb_irrefl : (s : List ℕ) → codes_ltb s s ≡ false
unfolding codes_ltb
codes_ltb_irrefl [] = refl
codes_ltb_irrefl (c ∷ s) = ground (arith, codes_ltb_irrefl s)

pub codes_ltb_trans :
    (s t u : List ℕ) → codes_ltb s t ≡ true → codes_ltb t u ≡ true → codes_ltb s u ≡ true
unfolding codes_ltb
codes_ltb_trans [] [] u a b = cc
codes_ltb_trans s (d ∷ t) [] a b = cc
codes_ltb_trans [] (d ∷ t) (e ∷ u) a b = refl
codes_ltb_trans (c ∷ s) [] u a b = cc
codes_ltb_trans (c ∷ s) (d ∷ t) (e ∷ u) a b = ground (arith, codes_ltb_trans s t u)

pub codes_ltb_total : (s t : List ℕ) → codes_ltb s t ≡ false → codes_ltb t s ≡ false → s ≡ t
unfolding codes_ltb
codes_ltb_total [] [] a b = refl
codes_ltb_total [] (d ∷ t) a b = cc
codes_ltb_total (c ∷ s) [] a b = cc
codes_ltb_total (c ∷ s) (d ∷ t) a b = ground (arith, codes_ltb_total s t)

codes_injective : (s t : String) → codes s ≡ codes t → s ≡ t
codes_injective String.[] String.[] h = refl
codes_injective String.[] (String.◌∷◌ d t) h = cc
codes_injective (String.◌∷◌ c s) String.[] h = cc
codes_injective (String.◌∷◌ c s) (String.◌∷◌ d t) h =
    let first : code c ≡ code d = cc in
    let rest : codes s ≡ codes t = cc in
    ap₂ String.◌∷◌ (Char-path c d first) (codes_injective s t rest)

pub text_ltb_irrefl : (s : String) → text_ltb s s ≡ false
unfolding text_ltb
text_ltb_irrefl s = codes_ltb_irrefl (codes s)

pub text_ltb_trans :
    (s t u : String) → text_ltb s t ≡ true → text_ltb t u ≡ true → text_ltb s u ≡ true
unfolding text_ltb
text_ltb_trans s t u = codes_ltb_trans (codes s) (codes t) (codes u)

pub text_ltb_total : (s t : String) → text_ltb s t ≡ false → text_ltb t s ≡ false → s ≡ t
unfolding text_ltb
text_ltb_total s t a b = codes_injective s t (codes_ltb_total (codes s) (codes t) a b)
