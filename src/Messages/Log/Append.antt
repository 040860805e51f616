-- ===== src/Messages/Log/Append.antt =====
-- The log is append-only, and what is written is read.
use mathlib.Core.List.{Perm}
use mathlib.Core.List.Perm
use clear_wright.Prelude.{
  ℕ, String, ◌==◌, ends_with-concat, ends_with-concat_more, map-Perm, zero, suc, ◌≡◌, inl, inr,
  refl, subst, arith, true, false, List, [], ◌∷◌, ◌++◌, Option, none, some, ends_with, concat,
  Result, ok, err, Option-cases, Bool-cases, sort_by-Perm,
}
use clear_wright.Json.{Value, null, str, Fields, get}
use clear_wright.Messages.Log.{
  text_or_empty, LogFile, LogFaults, WriteError, is_taken, candidate_name, free_name, created,
  allocated, write_message, Row, rows, add_row, row_before, all_messages, most_recent,
  read_messages, filtered,
}

module _ (decimal : ℕ → String) where
  free_name_free :
      (files : List LogFile) (base : String) (attempt left : ℕ) (name : String)
      → free_name decimal files base attempt left ≡ some name
      → is_taken name files ≡ false
  unfolding free_name
  free_name_free files base attempt zero name h = cc
  free_name_free files base attempt (suc left) name h =
      elim (Bool-cases (is_taken (candidate_name decimal base attempt) files)) [
        | inl t ↦ free_name_free files base (suc attempt) left name (rw (t, free_name) at h)
        | inr t ↦ ground arith
      ]

  candidate_name_json :
      (base : String) (attempt : ℕ) → ends_with ".json" (candidate_name decimal base attempt) ≡ true
  unfolding candidate_name
  candidate_name_json base attempt = elim (Bool-cases (attempt == 0)) [
    | inl a ↦ rw (a) (ends_with-concat base ".json")
    | inr a ↦ rw (a) (
        ends_with-concat_more base ".json" (concat "-" (concat (decimal attempt) ".json")) (
          ends_with-concat_more "-" ".json" (concat (decimal attempt) ".json")
            (ends_with-concat (decimal attempt) ".json")))
  ]

  free_name_json :
      (files : List LogFile) (base : String) (attempt left : ℕ) (name : String)
      → free_name decimal files base attempt left ≡ some name
      → ends_with ".json" name ≡ true
  unfolding free_name
  free_name_json files base attempt zero name h = cc
  free_name_json files base attempt (suc left) name h =
      elim (Bool-cases (is_taken (candidate_name decimal base attempt) files)) [
        | inl t ↦ free_name_json files base (suc attempt) left name (rw (t, free_name) at h)
        | inr t ↦
            let same : candidate_name decimal base attempt ≡ name = ground arith in
            subst (λ n. ends_with ".json" n ≡ true) same (candidate_name_json base attempt)
      ]

  -- The outcome and the files behind it: one that is written, or one that is left by an interrupted
  -- write or a failure behind it, under a name that no file had, or nothing.
  pub data IsAppended (files : List LogFile) (m : Fields)
      : Result WriteError String × List LogFile → Type 0 where
    unchanged : (e : WriteError) → IsAppended files m (err e, files)
    partial :
        (e : WriteError) (name : String)
        → is_taken name files ≡ false
        → IsAppended files m (err e, files ++ (record { name = name; message = none } ∷ []))
    unsynced :
        (e : WriteError) (name : String)
        → is_taken name files ≡ false
        → ends_with ".json" name ≡ true
        → IsAppended files m (err e, files ++ (record { name = name; message = some m } ∷ []))
    written :
        (name : String)
        → is_taken name files ≡ false
        → IsAppended files m (ok name, files ++ (record { name = name; message = some m } ∷ []))

  created-IsAppended :
      (files : List LogFile) (faults : LogFaults) (m : Fields) (n : Option String)
      → ((name : String)
          → n ≡ some name
          → (is_taken name files ≡ false) × (ends_with ".json" name ≡ true))
      → IsAppended files m (created decimal files faults m n)
  unfolding created
  created-IsAppended files faults m none h = unchanged _
  created-IsAppended files faults m (some name) h = elim (Bool-cases faults.write) [
    | inl w ↦ rw (w) (partial _ name (h name refl).0)
    | inr w ↦ elim (Bool-cases faults.sync) [
      | inl y ↦ rw (w, y) (unsynced _ name (h name refl).0 (h name refl).1)
      | inr y ↦ rw (w, y) (written name (h name refl).0)
    ]
  ]

  allocated-IsAppended :
      (files : List LogFile) (faults : LogFaults) (m : Fields) (v : Value)
      → IsAppended files m (allocated decimal files faults m v)
  unfolding allocated
  allocated-IsAppended files faults m (str base) = elim (Bool-cases faults.in_maintenance) [
    | inl a ↦ rw (a) (unchanged _)
    | inr a ↦ elim (Bool-cases faults.create) [
      | inl b ↦ rw (a, b) (unchanged _)
      | inr b ↦
          rw (a, b)
            (created-IsAppended files faults m (free_name decimal files base 0 1000) (λ name e.
              (free_name_free files base 0 1000 name e, free_name_json files base 0 1000 name e)))
    ]
  ]
  allocated-IsAppended files faults m v = unchanged _

  -- Whatever fails, a write leaves every file as it is and adds at most one, under a name that no
  -- file had: the message if it succeeds, and after a failure nothing, what cannot be parsed, or the message.
  pub write_message-IsAppended :
      (files : List LogFile) (faults : LogFaults) (m : Fields)
      → IsAppended files m (write_message decimal files faults m)
  unfolding write_message
  write_message-IsAppended files faults m = allocated-IsAppended files faults m (get m "message_id")

  pub written_name :
      (files : List LogFile) (faults : LogFaults) (m : Fields) (v : Value) (name : String)
      (left : List LogFile)
      → allocated decimal files faults m v ≡ (ok name, left)
      → (ends_with ".json" name ≡ true)
        × (left ≡ (files ++ (record { name = name; message = some m } ∷ [])))
  unfolding allocated created
  written_name files faults m (str base) name left h =
      elim (Option-cases (free_name decimal files base 0 1000)) [
        | inl n ↦ let bad : ⊥ = ground arith in elim bad [ ]
        | inr (k, n) ↦
            let same : k ≡ name = ground arith in
            (
              subst (λ n. ends_with ".json" n ≡ true) same (free_name_json files base 0 1000 k n),
              ground arith,
            )
      ]
  written_name files faults m v name left h = let bad : ⊥ = ground arith in elim bad [ ]

append_last : (r : Row) (rs : List Row) → Perm (r ∷ rs) (rs ++ (r ∷ []))
append_last r [] = Perm.rfl
append_last r (s ∷ rs) = Perm.trans (Perm.swap s r rs) (Perm.cons s (append_last r rs))

pub rows_append :
    (files : List LogFile) (name : String) (m : Fields)
    → ends_with ".json" name ≡ true
    → rows (files ++ (record { name = name; message = some m } ∷ []))
      ≡ (rows files ++ (record { at = text_or_empty (get m "at"); name = name; message = m } ∷ []))
unfolding rows add_row
rows_append [] name m h = rw (h) refl
rows_append (f ∷ fs) name m h = ground (arith, rows_append fs name m h)

-- What is written is read: after a write that succeeds the messages that are read, in whatever
-- order, are those of before and the new one.
pub write_message-read_messages :
    (decimal : ℕ → String) (files : List LogFile) (faults : LogFaults) (m : Fields) (name : String)
    (left : List LogFile)
    → write_message decimal files faults m ≡ (ok name, left)
    → Perm (m ∷ read_messages files null null none) (read_messages left null null none)
unfolding write_message read_messages filtered most_recent all_messages
write_message-read_messages decimal files faults m name left h =
    let (json, eq) = written_name decimal files faults m (get m "message_id") name left h in
    let row : Row = record { at = text_or_empty (get m "at"); name = name; message = m } in
    let end =
      Perm.trans (Perm.cons row (Perm.symm (sort_by-Perm row_before (rows files))))
        (append_last row (rows files)) in
    let all = Perm.trans end (sort_by-Perm row_before (rows files ++ (row ∷ []))) in
    rw (eq, rows_append files name m json) (map-Perm (λ r. r.message) all)

pub rows_partial :
    (files : List LogFile) (name : String)
    → rows (files ++ (record { name = name; message = none } ∷ [])) ≡ rows files
unfolding rows add_row
rows_partial [] name = refl
rows_partial (f ∷ fs) name = rw (rows_partial fs name)
