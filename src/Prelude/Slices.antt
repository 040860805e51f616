-- ===== src/Prelude/Slices.antt =====
-- Prefixes, suffixes and slices of texts, character by character.
use Prim.Native.Nat.{ℕ, zero, suc, ◌+◌}
use Prim.Native.Char.{code}
use Prim.Native.String.{String, [], ◌∷◌}
use mathlib.Core.Bool.{Bool, true, false, ◌&&◌, ◌||◌}
use mathlib.Core.Path.{◌≡◌, refl}
use native.Mathlib.Omega.{arith}
use clear_wright.Prelude.Tests.{◌==◌}
use clear_wright.Prelude.Text.{concat}

-- `len(s)`
abbrev pub text_length : String → ℕ
text_length [] = 0
text_length (c ∷ s) = suc (text_length s)

-- `s.startswith(t)`
abbrev pub starts_with : String → String → Bool
starts_with [] s = true
starts_with (a ∷ t) [] = false
starts_with (a ∷ t) (c ∷ s) = code a == code c && starts_with t s

-- The two texts have the same characters.
abbrev pub same_text : String → String → Bool
same_text [] [] = true
same_text [] (c ∷ s) = false
same_text (a ∷ t) [] = false
same_text (a ∷ t) (c ∷ s) = code a == code c && same_text t s

-- `s.endswith(t)`
abbrev pub ends_with : String → String → Bool
ends_with t [] = same_text t []
ends_with t (c ∷ s) = same_text t (c ∷ s) || ends_with t s

-- `s[n:]`
abbrev pub drop_text : ℕ → String → String
drop_text zero s = s
drop_text (suc n) [] = []
drop_text (suc n) (c ∷ s) = drop_text n s

-- `s[:n]`
abbrev pub take_text : ℕ → String → String
take_text zero s = []
take_text (suc n) [] = []
take_text (suc n) (c ∷ s) = c ∷ take_text n s

-- `t in s` for a single character
abbrev pub has_char : ℕ → String → Bool
has_char n [] = false
has_char n (c ∷ s) = code c == n || has_char n s

-- `t in s`
abbrev pub has_text : String → String → Bool
has_text t [] = starts_with t []
has_text t (c ∷ s) = starts_with t (c ∷ s) || has_text t s

pub same_text_refl : (s : String) → same_text s s ≡ true
same_text_refl [] = refl
same_text_refl (c ∷ s) = ground (arith, same_text_refl s)

pub ends_with-concat : (s t : String) → ends_with t (concat s t) ≡ true
ends_with-concat [] [] = refl
ends_with-concat [] (a ∷ t) = ground (arith, same_text_refl t)
ends_with-concat (c ∷ s) t = ground (arith, ends_with-concat s t)

pub ends_with-concat_more :
    (s t u : String) → ends_with t u ≡ true → ends_with t (concat s u) ≡ true
ends_with-concat_more [] t u h = h
ends_with-concat_more (c ∷ s) t u h = ground (arith, ends_with-concat_more s t u h)

pub take-concat : (s t : String) (n : ℕ) → n ≡ text_length s → take_text n (concat s t) ≡ s
take-concat [] t zero e = refl
take-concat [] t (suc n) e = ground arith
take-concat (c ∷ s) t zero e = ground arith
take-concat (c ∷ s) t (suc n) e = rw (take-concat s t n (omega (arith, e)))

pub length-concat : (s t : String) → text_length (concat s t) ≡ text_length s + text_length t
length-concat [] t = omega arith
length-concat (c ∷ s) t = omega (arith, length-concat s t)
