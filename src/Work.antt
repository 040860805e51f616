-- ===== src/Work.antt =====
-- The derived work items of tools/clearwright_work.py: what the durable records of a queue say of
-- each work item, and how the console orders and counts them. `datetime.fromisoformat` with a time
-- without a zone taken as UTC, `str` of a value that is no text, and `str.casefold` are parameters.
-- An instant is a number of microseconds.
pub mod Iso
pub mod Activity
pub mod State
pub mod Runner
pub mod Presentation
pub mod View
pub mod Items
pub mod Ids
pub mod Acts
use clear_wright.Prelude.{
  ℕ, String, Bool, true, false, Option, none, some, str_eq, if◌then◌else◌, strip,
}
use clear_wright.Json.{Value, str, Fields, get, truthy}

pub record Python : Type 0 where
  pub from_iso : String → Option ℕ
  pub str_of : Value → String
  pub casefold : String → String
  pub is_digit : ℕ → Bool

-- `value == text`
unfoldable pub is_text : Value → String → Bool
is_text (str s) t = str_eq s t
is_text _ t = false

-- `str(value or "")`
unfoldable pub shown : Python → Value → String
shown py (str s) = s
shown py v = if truthy v then py.str_of v else ""

-- `clearwright_identity._casefold`
unfoldable pub folded_value : Python → Value → String
unfolding shown
folded_value py v = py.casefold (strip (shown py v))
