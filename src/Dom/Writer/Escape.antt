-- ===== src/Dom/Writer/Escape.antt =====
-- `write_escaped` against the reader of character references.
use yarte.Base.{
  ℕ, Bool, true, false, ◌||◌, [], ◌∷◌, ◌++◌, Option, none, some, ◌≡◌, refl, sym, ap, ◌∙◌, arith,
  if◌then◌else◌, Bool-cases, ◌==◌, append_assoc, append-nil, Str, codes, str_eq, inl, inr,
}
use yarte.Dom.Writer.{Serializer, write, escape_char, is_nbsp, write_escaped}

-- The text that the name of a character reference stands for.
abbrev pub reference : Str → Str
reference name =
    if str_eq name (codes "amp")
    then codes "&"
    else if str_eq name (codes "nbsp")
    then 0xC2 ∷ 0xA0 ∷ []
    else if str_eq name (codes "quot")
    then codes "\""
    else if str_eq name (codes "lt")
    then codes "<"
    else if str_eq name (codes "gt")
    then codes ">"
    else []

-- The text that HTML stands for: `some name` is behind `&` and the part `name` of a name.
unfoldable pub read_text : Option Str → Str → Str
read_text _ [] = []
read_text none (c ∷ s) = elim (c == b'&') [
  | true ↦ read_text (some []) s
  | false ↦ c ∷ read_text none s
]
read_text (some name) (c ∷ s) = elim (c == b';') [
  | true ↦ reference name ++ read_text none s
  | false ↦ read_text (some (name ++ c ∷ [])) s
]

-- A byte that would end the text or the attribute's value.
abbrev pub ends : Bool → ℕ → Bool
ends true c = c == b'"'
ends false c = c == b'<' || c == b'>'

abbrev pub Inside : Bool → Str → Type 0
Inside m [] = Unit
Inside m (c ∷ s) = (ends m c ≡ false) × Inside m s

Inside-append : (m : Bool) (s t : Str) → Inside m s → Inside m t → Inside m (s ++ t)
Inside-append m [] t p q = q
Inside-append m (c ∷ s) t (h, p) q = (h, Inside-append m s t p q)

escape_char-Inside : (m : Bool) (c : ℕ) → Inside m (escape_char m c)
unfolding escape_char
escape_char-Inside true c = ground arith
escape_char-Inside false c = ground arith

read_text-escape_char :
    (m : Bool) (c : ℕ) (e : Str) → read_text none (escape_char m c ++ e) ≡ c ∷ read_text none e
unfolding escape_char read_text
read_text-escape_char m c e = ground arith

-- The call writes a text that reads as `t` and ends nothing.
abbrev Escapes : Bool → Serializer → Str → Serializer → Type 0
Escapes m s t s' = (e : Str) × (s' ≡ write s e) × Inside m e × (read_text none e ≡ t)

Escapes-cons :
    (m : Bool) (s : Serializer) (a t t' : Str) (s' : Serializer)
    → Inside m a
    → ((e : Str) → read_text none (a ++ e) ≡ t' ++ read_text none e)
    → Escapes m (write s a) t s'
    → Escapes m s (t' ++ t) s'
Escapes-cons m s a t t' s' inside reads (e, w, i, r) = (
  a ++ e,
  w ∙ ap (λ o. record s { writer = o }) (append_assoc s.writer a e),
  Inside-append m a e inside i,
  reads e ∙ ap (λ u. t' ++ u) r,
)

is_nbsp-bytes : (c d : ℕ) (t : Str) → is_nbsp c d ≡ true → c ∷ d ∷ t ≡ 0xC2 ∷ 0xA0 ∷ t
is_nbsp-bytes c d t h = ground arith

-- `write_escaped` appends to the output a text that a reader of HTML's character references turns
-- back into the text given. Outside of attributes the text appended holds no `<` and no `>`; in an
-- attribute, where those are written as they are, it holds no `"`.
pub write_escaped-Escapes :
    (t : Str) (s : Serializer) (attr_mode : Bool)
    → (e : Str) × (write_escaped s t attr_mode ≡ write s e)
      × Inside attr_mode e
      × (read_text none e ≡ t)
unfolding write_escaped read_text
write_escaped-Escapes [] s m =
    ([], ap (λ o. record s { writer = o }) (sym (append-nil s.writer)), tt, refl)
write_escaped-Escapes (c ∷ []) s m = (
  escape_char m c,
  refl,
  escape_char-Inside m c,
  ap (read_text none) (sym (append-nil (escape_char m c))) ∙ read_text-escape_char m c [],
)
write_escaped-Escapes (c ∷ d ∷ t) s m = elim (Bool-cases (is_nbsp c d)) [
  | inl h ↦
      rw (write_escaped, h, is_nbsp-bytes c d t h)
        (Escapes-cons m s (codes "&nbsp;") t (0xC2 ∷ 0xA0 ∷ [])
          (write_escaped (write s (codes "&nbsp;")) t m)
          (elim m as (λ b. Inside b (codes "&nbsp;")) [
            | true ↦ ground arith
            | false ↦ ground arith
          ])
          (λ e. refl) (write_escaped-Escapes t (write s (codes "&nbsp;")) m))
  | inr h ↦
      rw (write_escaped, h)
        (Escapes-cons m s (escape_char m c) (d ∷ t) (c ∷ []) _ (escape_char-Inside m c)
          (read_text-escape_char m c) (write_escaped-Escapes (d ∷ t) (write s (escape_char m c)) m))
]
