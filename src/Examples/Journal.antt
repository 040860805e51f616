-- ===== src/Examples/Journal.antt =====
-- A crash between the replacement of a document and the end of an append to a log.
use clear_wright.Prelude.{
  String, ◌≡◌, ◌++◌, ◌≢◌, refl, arith, List, [], ◌∷◌, none, some, ok, if◌then◌else◌, is_blank,
  strip, is_space, str_eq, ap, true, false, concat, length,
}
use clear_wright.Json.{str, end, field, get}
use clear_wright.Messages.Log.{same_value}
use clear_wright.Alf.Findings.{at_entry}
use clear_wright.Alf.Lines.{whole_part, complete_lines, valid_records, line_bytes}
use clear_wright.Alf.Journal.{
  Codec, Staged, append_line, replace_file, Files, content, hash_of, nth, stands, head_hash,
  records, is_appended, appended, replaced, is_replaced, matches_old, new_content, with_content,
  apply_staged_write, apply_staged_writes,
}
use clear_wright.Alf.Paths.{
  safe_id, safe_rel, components, is_component, with_char, matches_id, id_tail, is_name_char,
  is_alnum,
}
use clear_wright.Alf.Journal.Recover.{
  Begin, JournalEvent, op_begin, op_commit, Staging, over, in_chain, staged_of, commits,
  is_committed, begins, is_unsafe, recover,
}
use clear_wright.Alf.Journal.Recover.Complete.{IsIntact, recover-Crashed}
use clear_wright.Alf.Journal.Recovery.{Crashed, torn, after, IsLine}

-- A line without the blanks at its ends is its own hash.
abbrev codec : Codec
codec = record {
  parse = λ l. if is_blank (strip l) then none else some (field "line_sha256" (str (strip l)) end);
  sha256 = λ s. s;
}

abbrev before : Files
before = λ p. if str_eq p "doc" then some "old" else if str_eq p "log" then some "a\n" else none

abbrev replaced_doc : Files
replaced_doc = at_entry before "doc" (some "new")

abbrev writes : List Staged
writes = replace_file "doc" "new" (some "old") ∷ (append_line "log" "b\n" 1 "a" ∷ [])

abbrev cut : Files
cut = at_entry replaced_doc "log" (some (concat (whole_part (content (replaced_doc "log"))) "b"))

abbrev finished : Files
finished = at_entry replaced_doc "log" (some "a\nb\n")

abbrev doc : String
doc = "doc"

abbrev log : String
log = "log"

apart : doc ≢ log
apart = λ e. let bad : true ≡ str_eq doc log = ap (λ t. str_eq doc t) e in ground (arith, bad)

crashed : Crashed codec writes before cut
unfolding apply_staged_write with_content new_content replaced is_replaced matches_old
crashed =
    after (replace_file "doc" "new" (some "old")) (append_line "log" "b\n" 1 "a" ∷ []) before
      replaced_doc cut refl (torn "log" "b\n" 1 "a" [] replaced_doc "b" refl)

went_through : apply_staged_writes codec before writes ≡ ok finished
unfolding apply_staged_writes apply_staged_write with_content new_content replaced is_replaced
    matches_old appended is_appended records valid_records complete_lines whole_part content
    at_entry nth stands head_hash hash_of same_value get strip
went_through = refl

lines_parsed :
    length (valid_records codec.parse (complete_lines (whole_part (content (before "log"))))) ≡ 1
unfolding valid_records complete_lines whole_part content strip
lines_parsed = refl

b-IsLine : IsLine codec "b\n" "b"
unfolding line_bytes stands hash_of same_value get strip is_space
b-IsLine = record { ended = refl; single = refl; same = refl }

abbrev staging : Staging
staging = λ id name.
    if str_eq name "0-new" then some "new" else if str_eq name "1-b" then some "b\n" else none

-- An operation that is committed, and the one that was cut off.
abbrev earlier : List JournalEvent
earlier = op_begin (record { op_id = "op-1"; staged_writes = [] }) ∷ (op_commit "op-1" ∷ [])

abbrev cut_off : Begin
cut_off = record {
  op_id = "op-2";
  staged_writes =
      record {
        target_path = "doc";
        staged_file = "0-new";
        content_sha256 = "new";
        expected = over (some "old");
      }
      ∷ (record {
        target_path = "log";
        staged_file = "1-b";
        content_sha256 = "b\n";
        expected = in_chain 1 "a";
      }
          ∷ []);
}

earlier_settled : is_committed (earlier ++ (op_begin cut_off ∷ [])) "op-1" ≡ true
unfolding is_committed commits
earlier_settled = refl

still_open : is_committed (earlier ++ (op_begin cut_off ∷ [])) "op-2" ≡ false
unfolding is_committed commits
still_open = refl

doc-IsIntact :
    IsIntact codec staging "op-2"
      (record {
        target_path = "doc";
        staged_file = "0-new";
        content_sha256 = "new";
        expected = over (some "old");
      })
      (replace_file "doc" "new" (some "old"))
unfolding safe_id safe_rel components is_unsafe staged_of is_component with_char matches_id id_tail
    is_name_char is_alnum
doc-IsIntact = record {
  bytes = "new";
  held = refl;
  same = refl;
  safe_file = refl;
  safe_target = refl;
  write = refl;
}

log-IsIntact :
    IsIntact codec staging "op-2"
      (record {
        target_path = "log";
        staged_file = "1-b";
        content_sha256 = "b\n";
        expected = in_chain 1 "a";
      })
      (append_line "log" "b\n" 1 "a")
unfolding safe_id safe_rel components is_unsafe staged_of is_component with_char matches_id id_tail
    is_name_char is_alnum
log-IsIntact = record {
  bytes = "b\n";
  held = refl;
  same = refl;
  safe_file = refl;
  safe_target = refl;
  write = refl;
}

recover-Crashed_example :
    recover codec staging cut (earlier ++ (op_begin cut_off ∷ []))
    ≡ ok
        (finished, (((earlier ++ (op_begin cut_off ∷ [])) ++ (op_commit "op-2" ∷ [])), "op-2" ∷ []))
unfolding begins valid_records complete_lines whole_part content
recover-Crashed_example =
    recover-Crashed codec staging earlier cut_off writes before cut finished (earlier_settled, tt)
      still_open (doc-IsIntact, (log-IsIntact, tt)) (((apart, tt)), (tt, tt))
      (tt, ((lines_parsed, ("b", b-IsLine)), tt)) went_through crashed
