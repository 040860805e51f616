-- ===== src/Prelude/Sorting.antt =====
-- Python's stable sort, and lists whose elements are in the order of a test.
use Prim.Native.Nat.{suc}
use mathlib.Core.Path.{◌≡◌, refl, ap}
use mathlib.Core.Logic.{◌↔◌, ◌⊎◌, inl, inr, ∥∥₁_map}
use mathlib.Core.Bool.{Bool, true, false}
use mathlib.Core.List.{List, [], ◌∷◌, map, Perm, Permᴰ}
use mathlib.Core.List.Perm
use native.Mathlib.Omega.{arith}
use clear_wright.Prelude.Tests.{if◌then◌else◌, Bool-cases}
use clear_wright.Prelude.Lists.{All, Any, length}

module _ {A : Type 0} (lt : A → A → Bool) where
  -- `a` goes before the first element that is not strictly before it.
  unfoldable insert : A → List A → List A
  insert a [] = a ∷ []
  insert a (b ∷ bs) = let rest = insert a bs in if lt b a then b ∷ rest else a ∷ b ∷ bs

  -- `list.sort`, for a key that `lt` compares
  unfoldable pub sort_by : List A → List A
  unfolding insert
  sort_by [] = []
  sort_by (a ∷ bs) = insert a (sort_by bs)

  -- No element comes strictly before an earlier one.
  abbrev pub IsInOrder : List A → Type 0
  IsInOrder [] = Unit
  IsInOrder (a ∷ bs) = All (λ b. lt b a ≡ false) bs × IsInOrder bs

  insert-Perm : (a : A) (bs : List A) → Perm (a ∷ bs) (insert a bs)
  unfolding insert
  insert-Perm a [] = Perm.rfl
  insert-Perm a (b ∷ bs) = elim (Bool-cases (lt b a)) [
    | inl h ↦ rw (h) (Perm.trans (Perm.swap b a bs) (Perm.cons b (insert-Perm a bs)))
    | inr h ↦ rw (h) Perm.rfl
  ]

  pub sort_by-Perm : (bs : List A) → Perm bs (sort_by bs)
  unfolding sort_by
  sort_by-Perm [] = Perm.rfl
  sort_by-Perm (a ∷ bs) = Perm.trans (Perm.cons a (sort_by-Perm bs)) (insert-Perm a (sort_by bs))

  module _ (P : A → Type 0) where
    All-insert_iff : (a : A) (bs : List A) → (P a × All P bs) ↔ All P (insert a bs)
    unfolding insert
    All-insert_iff a [] = (λ h. h, λ h. h)
    All-insert_iff a (b ∷ bs) =
        let (to, back) = All-insert_iff a bs in
        elim (Bool-cases (lt b a)) [
          | inl h ↦
              rw (h)
                (λ p. (p.1.0, to (p.0, p.1.1)), λ p. let (pa, rest) = back p.1 in (pa, (p.0, rest)))
          | inr h ↦ rw (h) (λ p. p, λ p. p)
        ]

    -- What holds of all elements holds of all elements of the sorted list, and back.
    pub All-sort_by : (bs : List A) → All P bs ↔ All P (sort_by bs)
    unfolding sort_by
    All-sort_by [] = (λ h. h, λ h. h)
    All-sort_by (a ∷ bs) =
        let (to, back) = All-insert_iff a (sort_by bs) in
        let (sorted, unsorted) = All-sort_by bs in
        (λ p. to (p.0, sorted p.1), λ p. let (pa, rest) = back p in (pa, unsorted rest))

    Any-insert : (a : A) (bs : List A) → P a ⊎ Any P bs → Any P (insert a bs)
    unfolding insert
    Any-insert a [] m = m
    Any-insert a (b ∷ bs) m = elim (Bool-cases (lt b a)) [
      | inl h ↦ rw (h) (elim m [
        | inl p ↦ inr (Any-insert a bs (inl p))
        | inr n ↦ elim n [ inl q ↦ inl q | inr r ↦ inr (Any-insert a bs (inr r)) ]
      ])
      | inr h ↦ rw (h) m
    ]

    pub Any-sort_by : (bs : List A) → Any P bs → Any P (sort_by bs)
    unfolding sort_by
    Any-sort_by [] m = m
    Any-sort_by (a ∷ bs) m =
        Any-insert a (sort_by bs) (elim m [ inl p ↦ inl p | inr n ↦ inr (Any-sort_by bs n) ])

  length-insert : (a : A) (bs : List A) → length (insert a bs) ≡ suc (length bs)
  unfolding insert
  length-insert a [] = refl
  length-insert a (b ∷ bs) = ground (arith, length-insert a bs)

  pub length-sort_by : (bs : List A) → length (sort_by bs) ≡ length bs
  unfolding sort_by
  length-sort_by [] = refl
  length-sort_by (a ∷ bs) = ground (arith, length-insert a (sort_by bs), length-sort_by bs)

  module _ (not_before : (a b c : A) → lt b a ≡ false → lt c b ≡ false → lt c a ≡ false)
      (asymmetric : (a b : A) → lt b a ≡ true → lt a b ≡ false) where
    All-below :
        (a b : A) (cs : List A)
        → lt b a ≡ false
        → All (λ c. lt c b ≡ false) cs
        → All (λ c. lt c a ≡ false) cs
    All-below a b [] h p = tt
    All-below a b (c ∷ cs) h p = (not_before a b c h p.0, All-below a b cs h p.1)

    All-insert :
        (a b : A) (cs : List A)
        → lt a b ≡ false
        → All (λ c. lt c b ≡ false) cs
        → All (λ c. lt c b ≡ false) (insert a cs)
    unfolding insert
    All-insert a b [] h p = (h, tt)
    All-insert a b (c ∷ cs) h p = elim (Bool-cases (lt c a)) [
      | inl e ↦ rw (e) (p.0, All-insert a b cs h p.1)
      | inr e ↦ rw (e) (h, p)
    ]

    insert-IsInOrder : (a : A) (bs : List A) → IsInOrder bs → IsInOrder (insert a bs)
    unfolding insert
    insert-IsInOrder a [] p = (tt, tt)
    insert-IsInOrder a (b ∷ bs) p = elim (Bool-cases (lt b a)) [
      | inl h ↦ rw (h) (All-insert a b bs (asymmetric a b h) p.0, insert-IsInOrder a bs p.1)
      | inr h ↦ rw (h) ((h, All-below a b bs h p.0), p)
    ]

    pub sort_by-IsInOrder : (bs : List A) → IsInOrder (sort_by bs)
    unfolding sort_by
    sort_by-IsInOrder [] = tt
    sort_by-IsInOrder (a ∷ bs) = insert-IsInOrder a (sort_by bs) (sort_by-IsInOrder bs)

map-Permᴰ : {A B : Type 0} (f : A → B) {xs ys : List A} → Permᴰ xs ys → Permᴰ (map f xs) (map f ys)
map-Permᴰ f Permᴰ.nil = Permᴰ.nil
map-Permᴰ f (Permᴰ.cons e d) = Permᴰ.cons (ap f e) (map-Permᴰ f d)
map-Permᴰ f (Permᴰ.swap p q) = Permᴰ.swap (ap f p) (ap f q)
map-Permᴰ f (Permᴰ.trans d e) = Permᴰ.trans (map-Permᴰ f d) (map-Permᴰ f e)

pub map-Perm : {A B : Type 0} (f : A → B) {xs ys : List A} → Perm xs ys → Perm (map f xs) (map f ys)
map-Perm f {xs} {ys} p = ∥∥₁_map {B = Permᴰ (map f xs) (map f ys)} p (map-Permᴰ f)
