-- ===== src/Dom/Writer.antt =====
-- yarte_dom/src/serializer.rs: the state of the HTML serializer, and the escaping of texts. The
-- writer is the list of bytes written so far; writing to it does not fail.
pub mod Escape
use yarte.Base.{
  ℕ, Bool, true, false, not, ◌&&◌, List, [], ◌∷◌, ◌++◌, Option, none, some, ◌==◌, if◌then◌else◌,
  Str, codes,
}

pub record ElemInfo : Type 0 where
  pub html_name : Option Str
  pub ignore_children : Bool

-- `Ws`: what stands for white space that comes next, nothing or one space.
pub data Skip : Type 0 where
  skip collapse : Skip

-- `HtmlSerializer`; the first of `stack` is the last of the source's vector.
pub record Serializer : Type 0 where
  pub writer : Str
  pub stack : List ElemInfo
  pub skip_ws : Option Skip
  pub next_ws : Option Str
  pub wasm : Bool

-- `HtmlSerializer::new`, with an empty writer.
unfoldable pub new : Bool → Serializer
new wasm = record {
  writer = [];
  stack = record { html_name = none; ignore_children = false } ∷ [];
  skip_ws = none;
  next_ws = none;
  wasm = wasm;
}

abbrev pub write : Serializer → Str → Serializer
write s t = record s { writer = s.writer ++ t }

-- The arms of `write_escaped` for a character of one byte.
unfoldable pub escape_char : Bool → ℕ → Str
escape_char attr_mode c =
    if c == b'&'
    then codes "&amp;"
    else if c == b'"' && attr_mode
    then codes "&quot;"
    else if c == b'<' && not attr_mode
    then codes "&lt;"
    else if c == b'>' && not attr_mode
    then codes "&gt;"
    else c ∷ []

-- The two bytes are the character U+00A0.
abbrev pub is_nbsp : ℕ → ℕ → Bool
is_nbsp c d = c == 0xC2 && d == 0xA0

-- `write_escaped`. A byte of a longer character is written as it is, so the loop over characters
-- is one over bytes that looks for both bytes of U+00A0.
unfoldable pub write_escaped : Serializer → Str → Bool → Serializer
unfolding escape_char
write_escaped s [] attr_mode = s
write_escaped s (c ∷ []) attr_mode = write s (escape_char attr_mode c)
write_escaped s (c ∷ d ∷ text) attr_mode = elim (is_nbsp c d) [
  | true ↦ write_escaped (write s (codes "&nbsp;")) text attr_mode
  | false ↦ write_escaped (write s (escape_char attr_mode c)) (d ∷ text) attr_mode
]
