-- ===== src/Alf/Lines.antt =====
-- Files of lines: what of a JSONL file is whole, and what a crash has torn (`_heal_torn_tail` and
-- `_read_valid_lines` of tools/clearwright_alf.py).
use Prim.Native.Char.{Char, code}
use clear_wright.Prelude.{
  String, ◌≡◌, refl, ap, arith, true, false, ◌||◌, List, [], ◌∷◌, ◌++◌, Option, none, some,
  is_blank, if◌then◌else◌, ◌==◌, concat, has_char, is_empty, Option-cases, Bool-cases, inl, inr,
  length,
}
use clear_wright.Json.{Fields}

-- Up to the last newline.
unfoldable pub whole_part : String → String
whole_part String.[] = ""
whole_part (String.◌∷◌ c s) =
    let w = whole_part s in if has_char 10 (String.◌∷◌ c s) then String.◌∷◌ c w else ""

with_first : Char → List String → List String
with_first c [] = []
with_first c (l ∷ ls) = String.◌∷◌ c l ∷ ls

-- The lines that end in a newline.
unfoldable pub complete_lines : String → List String
unfolding with_first
complete_lines String.[] = []
complete_lines (String.◌∷◌ c s) =
    let rest = complete_lines s in if code c == 10 then "" ∷ rest else with_first c rest

-- The records of the lines before the first that cannot be parsed.
unfoldable pub valid_records : (String → Option Fields) → List String → List Fields
valid_records parse [] = []
valid_records parse (l ∷ ls) =
    let rest = valid_records parse ls in elim (parse l) [ none ↦ [] | some r ↦ r ∷ rest ]

-- `canonical_line`, of the canonical bytes
unfoldable pub line_bytes : String → String
line_bytes l = concat l "\n"

-- Every byte belongs to a complete line.
abbrev pub IsWhole : String → Type 0
IsWhole s = whole_part s ≡ s

pub whole_part_torn : (s : String) → has_char 10 s ≡ false → whole_part s ≡ ""
unfolding whole_part
whole_part_torn String.[] h = refl
whole_part_torn (String.◌∷◌ c s) h = rw h

has_char-concat : (s t : String) → has_char 10 t ≡ false → has_char 10 (concat s t) ≡ has_char 10 s
has_char-concat String.[] t h = h
has_char-concat (String.◌∷◌ c s) t h = ap (λ b. code c == 10 || b) (has_char-concat s t h)

-- What is torn behind whole lines is cut off.
pub whole_part-concat :
    (s t : String) → has_char 10 t ≡ false → whole_part (concat s t) ≡ whole_part s
unfolding whole_part
whole_part-concat String.[] t h = whole_part_torn t h
whole_part-concat (String.◌∷◌ c s) t h = rw (has_char-concat s t h, whole_part-concat s t h)

has_char-whole_part : (s : String) → has_char 10 (whole_part s) ≡ has_char 10 s
unfolding whole_part
has_char-whole_part String.[] = refl
has_char-whole_part (String.◌∷◌ c s) = elim (Bool-cases (has_char 10 (String.◌∷◌ c s))) [
  | inl h ↦ rw (h, has_char-whole_part s, h)
  | inr h ↦ rw h
]

pub whole_part-IsWhole : (s : String) → IsWhole (whole_part s)
unfolding whole_part
whole_part-IsWhole String.[] = refl
whole_part-IsWhole (String.◌∷◌ c s) = elim (Bool-cases (has_char 10 (String.◌∷◌ c s))) [
  | inl h ↦ rw (h, has_char-whole_part s, h, whole_part-IsWhole s)
  | inr h ↦ rw h
]

tail_IsWhole :
    (c : Char) (s : String)
    → IsWhole (String.◌∷◌ c s)
    → (has_char 10 (String.◌∷◌ c s) ≡ true) × IsWhole s
unfolding whole_part
tail_IsWhole c s w = elim (Bool-cases (has_char 10 (String.◌∷◌ c s))) [
  | inl h ↦ (h, (let v = rw h at w in ground arith))
  | inr h ↦
      let blank : true ≡ is_blank (String.◌∷◌ c s) = ap is_blank (rw h at w) in
      let bad : ⊥ = ground arith in elim bad [ ]
]

is_empty-with_first : (c : Char) (ls : List String) → is_empty (with_first c ls) ≡ is_empty ls
unfolding with_first
is_empty-with_first c [] = refl
is_empty-with_first c (l ∷ ls) = refl

some_line : (s : String) → has_char 10 s ≡ true → is_empty (complete_lines s) ≡ false
unfolding complete_lines with_first
some_line String.[] h = ground arith
some_line (String.◌∷◌ c s) h =
    let ih : has_char 10 s ≡ true → is_empty (complete_lines s) ≡ false = some_line s in
    elim (Bool-cases (code c == 10)) [
      | inl e ↦ rw e
      | inr e ↦ let g = rw e at h in rw (e, is_empty-with_first c (complete_lines s), ih g)
    ]

with_first-append :
    (c : Char) (ls : List String) (l : String)
    → is_empty ls ≡ false
    → with_first c (ls ++ (l ∷ [])) ≡ (with_first c ls ++ (l ∷ []))
unfolding with_first
with_first-append c [] l h = ground arith
with_first-append c (k ∷ ls) l h = refl

one_line : (l : String) → has_char 10 l ≡ false → complete_lines (concat l "\n") ≡ (l ∷ [])
unfolding complete_lines with_first
one_line String.[] h = refl
one_line (String.◌∷◌ c l) h =
    let fst : (code c == 10) ≡ false = ground arith in
    let snd : has_char 10 l ≡ false = ground arith in rw (fst, one_line l snd)

-- A line behind whole lines is one line more.
pub complete_lines-concat :
    (s l : String)
    → IsWhole s
    → has_char 10 l ≡ false
    → complete_lines (concat s (line_bytes l)) ≡ (complete_lines s ++ (l ∷ []))
unfolding whole_part complete_lines line_bytes
complete_lines-concat String.[] l w h = one_line l h
complete_lines-concat (String.◌∷◌ c s) l w h =
    let tail = tail_IsWhole c s w in
    let ih = complete_lines-concat s l tail.1 h in
    elim (Bool-cases (code c == 10)) [
      | inl e ↦ rw (e, ih)
      | inr e ↦ rw (e, ih, with_first-append c (complete_lines s) l (some_line s (rw e at tail.0)))
    ]

-- Every line can be parsed.
abbrev pub AreParsed : (String → Option Fields) → List String → Type 0
AreParsed parse ls = length (valid_records parse ls) ≡ length ls

valid_records_more :
    (parse : String → Option Fields) (k : String) (ls : List String) (q : Fields)
    → parse k ≡ some q
    → valid_records parse (k ∷ ls) ≡ (q ∷ valid_records parse ls)
unfolding valid_records
valid_records_more parse k ls q n = rw (n, valid_records)

pub valid_records-append :
    (parse : String → Option Fields) (ls : List String) (l : String) (r : Fields)
    → AreParsed parse ls
    → parse l ≡ some r
    → valid_records parse (ls ++ (l ∷ [])) ≡ (valid_records parse ls ++ (r ∷ []))
unfolding valid_records
valid_records-append parse [] l r h e = rw e
valid_records-append parse (k ∷ ls) l r h e = elim (Option-cases (parse k)) [
  | inl n ↦ let g = rw (n, valid_records) at h in let bad : ⊥ = omega arith in elim bad [ ]
  | inr (q, n) ↦
      let g = rw (n, valid_records) at h in
      rw (
        valid_records_more parse k (ls ++ (l ∷ [])) q n,
        valid_records_more parse k ls q n,
        valid_records-append parse ls l r (omega arith) e,
      )
]

has_char-line_bytes : (s l : String) → has_char 10 (concat s (line_bytes l)) ≡ true
unfolding line_bytes
has_char-line_bytes String.[] String.[] = refl
has_char-line_bytes String.[] (String.◌∷◌ c l) =
    let ih = has_char-line_bytes String.[] l in ground arith
has_char-line_bytes (String.◌∷◌ c s) l = let ih = has_char-line_bytes s l in ground arith

pub line_bytes-IsWhole : (s l : String) → IsWhole (concat s (line_bytes l))
unfolding line_bytes whole_part
line_bytes-IsWhole String.[] String.[] = refl
line_bytes-IsWhole String.[] (String.◌∷◌ c l) =
    rw (has_char-line_bytes String.[] (String.◌∷◌ c l), line_bytes-IsWhole String.[] l)
line_bytes-IsWhole (String.◌∷◌ c s) l =
    rw (has_char-line_bytes (String.◌∷◌ c s) l, line_bytes-IsWhole s l)
