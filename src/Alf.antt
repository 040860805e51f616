-- ===== src/Alf.antt =====
-- The lessons store: tools/clearwright_alf.py, tools/clearwright_alf_synth.py and
-- tools/clearwright_alf_review.py. Its counters and impact axes are natural numbers: a finding that
-- holds a negative number, a fraction, a text or `None` there, where the source may raise TypeError
-- or ValueError, is read as holding 0.
pub mod Score
pub mod Findings
pub mod Lines
pub mod Paths
pub mod Journal
use clear_wright.Prelude.{ℕ, String, Bool, true, false, str_eq, if◌then◌else◌}
use clear_wright.Json.{Value, bool, int, str, Fields, get}

-- `int(finding.get(key, 0))` and `int(finding.get(key, 0) or 0)`, where `True` counts as 1
unfoldable pub number_at : Fields → String → ℕ
number_at f k = number (get f k)
  where
    number : Value → ℕ
    number (int n) = n
    number (bool b) = if b then 1 else 0
    number _ = 0

-- `value == text`
unfoldable pub is_text : Value → String → Bool
is_text (str s) t = str_eq s t
is_text _ t = false
