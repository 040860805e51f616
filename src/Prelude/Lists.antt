-- ===== src/Prelude/Lists.antt =====
-- Lists measured by native numbers, tests over their elements, and predicates by recursion.
use Prim.Native.Nat.{ℕ, suc, ◌+◌}
use Prim.Native.String.{String}
use mathlib.Core.Path.{◌≡◌, refl, subst}
use mathlib.Core.Logic.{◌⊎◌, inl, inr, ◌↔◌}
use mathlib.Core.Bool.{Bool, true, false, ◌&&◌, ◌||◌}
use mathlib.Core.List.{List, [], ◌∷◌, ◌++◌, map}
use native.Mathlib.Omega.{arith}
use text.Mathlib.Text.{◌==◌}
use text.Mathlib.TextEquality.{eq_iff}

module _ {ℓ} {A : Type ℓ} where
  abbrev pub length : List A → ℕ
  length [] = 0
  length (x ∷ xs) = suc (length xs)

  abbrev pub is_empty : List A → Bool
  is_empty [] = true
  is_empty (x ∷ xs) = false

  abbrev pub any : (A → Bool) → List A → Bool
  any p [] = false
  any p (x ∷ xs) = p x || any p xs

  abbrev pub all : (A → Bool) → List A → Bool
  all p [] = true
  all p (x ∷ xs) = p x && all p xs

  pub length-append : (xs ys : List A) → length (xs ++ ys) ≡ length xs + length ys
  length-append [] ys = omega arith
  length-append (x ∷ xs) ys = omega (arith, length-append xs ys)

  pub is_empty-nil : (xs : List A) → is_empty xs ≡ true → xs ≡ []
  is_empty-nil [] h = refl
  is_empty-nil (x ∷ xs) h = cc

  pub append-eq-nil : (xs ys : List A) → ((xs ++ ys) ≡ []) ↔ ((xs ≡ []) × (ys ≡ []))
  append-eq-nil [] ys = (λ h. (refl, h), λ h. h.1)
  append-eq-nil (x ∷ xs) ys = (λ h. cc, λ h. cc (h.0))

-- Every element satisfies `P`; some element satisfies `P`.
module _ {ℓ} {A : Type ℓ} (P : A → Type 0) where
  abbrev pub All : List A → Type 0
  All [] = Unit
  All (x ∷ xs) = P x × All xs

  abbrev pub Any : List A → Type 0
  Any [] = ⊥
  Any (x ∷ xs) = P x ⊎ Any xs

module _ {A : Type 0} (P : A → Type 0) where
  -- What holds of all elements holds of one of them.
  pub All_at : (a : A) (xs : List A) → All P xs → Any (λ x. x ≡ a) xs → P a
  All_at a [] p m = elim m [ ]
  All_at a (x ∷ xs) p m = elim m [ inl e ↦ subst P e p.0 | inr m ↦ All_at a xs p.1 m ]

module _ {A : Type 0} where
  pub All-append_last :
      (P : A → Type 0) (xs : List A) (x : A) → All P xs → P x → All P (xs ++ (x ∷ []))
  All-append_last P [] x h p = (p, tt)
  All-append_last P (y ∷ ys) x h p = (h.0, All-append_last P ys x h.1 p)

  pub Any-append_last : (P : A → Type 0) (xs : List A) (x : A) → P x → Any P (xs ++ (x ∷ []))
  Any-append_last P [] x p = inl p
  Any-append_last P (y ∷ ys) x p = inr (Any-append_last P ys x p)

  pub Any-append : (P : A → Type 0) (xs ys : List A) → Any P xs → Any P (xs ++ ys)
  Any-append P [] ys h = elim h [ ]
  Any-append P (x ∷ xs) ys h = elim h [ inl p ↦ inl p | inr t ↦ inr (Any-append P xs ys t) ]

  pub any-append_last :
      (p : A → Bool) (xs : List A) (x : A) → p x ≡ true → any p (xs ++ (x ∷ [])) ≡ true
  any-append_last p [] x h = ground arith
  any-append_last p (y ∷ ys) x h = ground (arith, any-append_last p ys x h)

  pub All-weaken : (P Q : A → Type 0) (xs : List A) → ((x : A) → P x → Q x) → All P xs → All Q xs
  All-weaken P Q [] h p = tt
  All-weaken P Q (x ∷ xs) h p = (h x p.0, All-weaken P Q xs h p.1)

  module _ {B : Type 0} (f : A → B) (P : B → Type 0) where
    pub All-map : (xs : List A) → All P (map f xs) ↔ All (λ x. P (f x)) xs
    All-map [] = (λ h. h, λ h. h)
    All-map (x ∷ xs) = let (to, back) = All-map xs in (λ h. (h.0, to h.1), λ h. (h.0, back h.1))

    pub Any-map : (xs : List A) → Any (λ x. P (f x)) xs → Any P (map f xs)
    Any-map [] m = m
    Any-map (x ∷ xs) m = elim m [ inl p ↦ inl p | inr n ↦ inr (Any-map xs n) ]

-- Python's `s in (…)` on texts.
abbrev pub elem : String → List String → Bool
elem s [] = false
elem s (x ∷ xs) = x == s || elem s xs

pub Any-elem : (s : String) (xs : List String) → elem s xs ≡ true → Any (λ x. s ≡ x) xs
Any-elem s [] h = cc
Any-elem s (x ∷ xs) h = ground (arith, eq_iff x s, Any-elem s xs)

pub elem-Any : (s : String) (xs : List String) → Any (λ x. s ≡ x) xs → elem s xs ≡ true
elem-Any s [] h = elim h [ ]
elem-Any s (x ∷ xs) h = ground (arith, eq_iff x s, elem-Any s xs)
