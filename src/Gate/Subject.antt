-- ===== src/Gate/Subject.antt =====
-- The canonical subject of a work item, `canonical_subject` of tools/clearwright_gate.py.
pub mod Alias
use clear_wright.Prelude.{
  ℕ, String, ◌+◌, ◌-◌, Bool, true, false, not, ◌&&◌, if◌then◌else◌, concat, is_blank, strip,
  text_length, starts_with, ends_with, drop_text, take_text, has_char,
}

-- `wid[start:-end]`
abbrev pub slice : ℕ → ℕ → String → String
slice start stop s = take_text (text_length s - stop - start) (drop_text start s)

-- The subject of an id that is already stripped.
unfoldable pub subject_of : String → String
subject_of wid =
    if is_blank wid
    then ""
    else if starts_with "message:" wid
    then wid
    else if starts_with "packet:" wid && ends_with ":cta" wid
    then concat "packet:" (slice 7 4 wid)
    else if starts_with "in_progress:" wid
    then concat "packet:" (drop_text 12 wid)
    else if starts_with "rfi:" wid
    then concat "packet:" (drop_text 4 wid)
    else if starts_with "packet:" wid
    then concat "packet:" (drop_text 7 wid)
    else if not (has_char 58 wid)
    then concat "packet:" wid
    else wid

-- `canonical_subject`; no id is the empty text.
unfoldable pub canonical_subject : String → String
unfolding subject_of
canonical_subject wid = subject_of (strip wid)
