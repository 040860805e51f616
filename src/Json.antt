-- ===== src/Json.antt =====
-- JSON values as Python's `json` hands them to the tools, and the `dict` operations on objects.
-- A number with a fraction is a decimal: `real n e` is n / 10^e, `neg_real n e` its negative.
-- The order of the keys of an object is kept; no tool depends on it.
use clear_wright.Prelude.{
  ℕ, suc, String, ◌≡◌, refl, Bool, true, false, not, arith, str_eq, eq_iff, if◌then◌else◌, ◌==◌,
  is_blank, eq_refl, elem, all, List, [], ◌∷◌, ◌∙◌,
}

mutual
  pub data Value : Type 0 where
    null : Value
    bool : Bool → Value
    int : ℕ → Value
    neg_int : ℕ → Value
    real neg_real : ℕ → ℕ → Value
    str : String → Value
    arr : Items → Value
    obj : Fields → Value

  pub data Fields : Type 0 where
    end : Fields
    field : String → Value → Fields → Fields

  pub data Items : Type 0 where
    nil : Items
    cons : Value → Items → Items

-- `d.get(key)`: a missing key reads as `None`.
unfoldable pub get : Fields → String → Value
get end k = null
get (field j v fs) k = if str_eq j k then v else get fs k

-- `d[key] = v`
unfoldable pub set : Fields → String → Value → Fields
set end k v = field k v end
set (field j w fs) k v = if str_eq j k then field j v fs else field j w (set fs k v)

pub get-set :
    (fs : Fields) (k : String) (v : Value) (j : String)
    → get (set fs k v) j ≡ (if str_eq k j then v else get fs j)
unfolding get set
get-set end k v j = refl
get-set (field i w fs) k v j = ground (arith, eq_iff k j, eq_iff i k, eq_iff i j, get-set fs k v j)

-- The test `value is None`.
abbrev pub is_null : Value → Bool
is_null null = true
is_null _ = false

-- The test `value is None or value == ""`.
abbrev pub is_missing : Value → Bool
is_missing null = true
is_missing (str s) = is_blank s
is_missing _ = false

-- `bool(value)`
abbrev pub truthy : Value → Bool
truthy null = false
truthy (bool b) = b
truthy (int n) = not (n == 0)
truthy (neg_int n) = not (n == 0)
truthy (real n e) = not (n == 0)
truthy (neg_real n e) = not (n == 0)
truthy (str s) = not (is_blank s)
truthy (arr nil) = false
truthy (arr (cons x xs)) = true
truthy (obj end) = false
truthy (obj (field k v fs)) = true

-- `isinstance(value, (dict, list))`
abbrev pub is_container : Value → Bool
is_container (arr xs) = true
is_container (obj fs) = true
is_container _ = false

abbrev pub append_item : Items → Value → Items
append_item nil v = cons v nil
append_item (cons x xs) v = cons x (append_item xs v)

abbrev pub count_items : Items → ℕ
count_items nil = 0
count_items (cons x xs) = suc (count_items xs)

pub get-set_ne :
    (fs : Fields) (k : String) (v : Value) (j : String)
    → str_eq k j ≡ false
    → get (set fs k v) j ≡ get fs j
get-set_ne fs k v j h = rw (get-set, h)

pub get-set_self : (fs : Fields) (k : String) (v : Value) → get (set fs k v) k ≡ v
get-set_self fs k v = rw (get-set, eq_refl)

-- The two objects have the same value at every key that is not listed.
pub record AgreeOff (ks : List String) (p q : Fields) : Type 0 where
  pub at : (f : String) → elem f ks ≡ false → get q f ≡ get p f

pub AgreeOff-refl : (ks : List String) (p : Fields) → AgreeOff ks p p
AgreeOff-refl ks p = record { at = λ f h. refl }

elem_apart :
    (k f : String) (ks : List String) → elem k ks ≡ true → elem f ks ≡ false → str_eq k f ≡ false
elem_apart k f [] a b = cc
elem_apart k f (x ∷ ks) a b = ground (arith, eq_iff x k, eq_iff x f, eq_iff k f, elem_apart k f ks)

pub AgreeOff-set :
    (ks : List String) {p q : Fields} (k : String) (v : Value)
    → elem k ks ≡ true
    → AgreeOff ks p q
    → AgreeOff ks p (set q k v)
AgreeOff-set ks {q = q} k v a agree = record {
  at = λ f h. get-set_ne q k v f (elem_apart k f ks a h) ∙ agree.at f h;
}

elem-sub :
    (f : String) (ks ls : List String)
    → all (λ k. elem k ls) ks ≡ true
    → elem f ls ≡ false
    → elem f ks ≡ false
elem-sub f [] ls s h = refl
elem-sub f (k ∷ ks) ls s h = ground (arith, elem_apart k f ls, elem-sub f ks ls)

pub AgreeOff-mono :
    {ks ls : List String} {p q : Fields}
    → all (λ k. elem k ls) ks ≡ true
    → AgreeOff ks p q
    → AgreeOff ls p q
AgreeOff-mono {ks = ks} {ls = ls} s agree = record { at = λ f h. agree.at f (elem-sub f ks ls s h) }
