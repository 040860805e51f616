-- ===== src/Messages/Text.antt =====
-- The text of a message: `canonical_content` of tools/clearwright_message.py, and its length in bytes.
use Prim.Native.Char.{code}
use Prim.Native.String.{[], ◌∷◌}
use clear_wright.Prelude.{
  ℕ, String, ◌+◌, ◌&&◌, if◌then◌else◌, ltb, ◌==◌, starts_with, strip, concat,
}

-- `s.replace("\r\n", "\n")`
replace_crlf : String → String
replace_crlf [] = []
replace_crlf (c ∷ s) =
    let rest = replace_crlf s in if code c == 13 && starts_with "\n" s then rest else c ∷ rest

-- `s.replace("\r", "\n")`
replace_cr : String → String
replace_cr [] = []
replace_cr (c ∷ s) = let rest = replace_cr s in if code c == 13 then concat "\n" rest else c ∷ rest

unfoldable pub canonical_content : String → String
unfolding replace_crlf replace_cr
canonical_content s = strip (replace_cr (replace_crlf s))

abbrev char_bytes : ℕ → ℕ
char_bytes c = if ltb c 128 then 1 else if ltb c 2048 then 2 else if ltb c 65536 then 3 else 4

-- `len(s.encode("utf-8"))`
unfoldable pub byte_length : String → ℕ
byte_length [] = 0
byte_length (c ∷ s) = char_bytes (code c) + byte_length s
