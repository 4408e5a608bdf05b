-- ===== src/Parser/Tags.antt =====
-- yarte_parser/src/lib.rs: names, paths, comments and the ends of tags.
pub mod Sound
pub mod Comment
use yarte.Base.{
  ℕ, zero, suc, ◌+◌, Bool, true, false, not, ◌&&◌, ◌||◌, List, [], ◌∷◌, Option, none, some, ltb,
  leb, ◌==◌, if◌then◌else◌, length, Str, codes, starts_with, position,
}
use yarte.Parser.Result.{Result, ok, err, panic, out_of_fuel, next, fail, ◌>>=◌}
use yarte.Parser.Cursor.{
  Cursor, u32, slice_from, slice_to, adv, adv_find, adv_starts_with, take_while, is_ws, ws, skip_ws,
  is_empty,
}
use yarte.Parser.Syntax.{Syn, Span, S, Node, comment}

abbrev pub PResult : Type 0 → Type 0
PResult A = Result (Cursor × A)

-- What a search finds, if anything.
abbrev pub found_or {ℓ} : {A : Type ℓ} → Option ℕ → A → (ℕ → A) → A
found_or none x f = x
found_or (some j) x f = f j

-- The loop of `comment`: `ch` and `tail` are the first character of the closing tag and the rest.
unfoldable pub comment_loop :
    {Expr Local : Type 0} → ℕ → Cursor → ℕ → Str → ℕ → PResult (Node Expr Local)
comment_loop zero c ch tail at = out_of_fuel
comment_loop (suc f) c ch tail at = do
  j? ← adv_find c at ch
  found_or j? (err next) λ j. do
    closes ← adv_starts_with c (at + j + 1) tail
    let again = comment_loop f c ch tail (at + (j + 1))
    if closes
        then (do
          c' ← adv c (at + j + suc (length tail))
          t ← slice_to c.rest (at + j)
          ok (c', comment t))
        else again

-- `comment`: `{{!-- … --!}}` or `{{! … !}}`, from behind the `!`.
unfoldable pub eat_comment : {Expr Local : Type 0} → Cursor → PResult (Node Expr Local)
unfolding comment_loop
eat_comment c =
    if starts_with c.rest (codes "--")
    then (do c' ← adv c 2; comment_loop (suc (length c'.rest)) c' b'-' (codes "-!}}") 0)
    else comment_loop (suc (length c.rest)) c b'!' (codes "}}") 0

-- The flag of the tag's right side: `.. }}` or `.. ~}}`.
unfoldable pub end_expr : Cursor → PResult Bool
end_expr c = do
  i ← skip_ws c
  if starts_with i.rest (codes "~}}")
      then (do c' ← adv i 3; ok (c', true))
      else if starts_with i.rest (codes "}}")
      then (do c' ← adv i 2; ok (c', false))
      else err fail

module _ {Expr Local : Type 0} (syn : Syn Expr Local) where
  abbrev pub is_ident_start : ℕ → Bool
  is_ident_start c =
      (leb b'a' c && leb c b'z')
      || (leb b'A' c && leb c b'Z')
      || c == b'_'
      || (ltb 0x7f c && syn.is_xid_start c)

  abbrev pub is_ident_continue : ℕ → Bool
  is_ident_continue c =
      (leb b'a' c && leb c b'z')
      || (leb b'A' c && leb c b'Z')
      || c == b'_'
      || (leb b'0' c && leb c b'9')
      || (ltb 0x7f c && syn.is_xid_continue c)

  -- From the third character on.
  unfoldable pub ident_rest : Cursor → Str → PResult Str
  ident_rest i s =
      found_or (position (λ c. not (is_ident_continue c)) s)
        (do c ← adv i (length i.rest); ok (c, i.rest))
        λ j. do c ← adv i (j + 2); t ← slice_to i.rest (j + 2); ok (c, t)

  unfoldable pub ident_second : Cursor → Str → PResult Str
  unfolding ident_rest
  ident_second i [] = do c ← adv i 1; t ← slice_to i.rest 1; ok (c, t)
  ident_second i (d ∷ s) =
      if is_ident_continue d
      then ident_rest i s
      else (do c ← adv i 1; t ← slice_to i.rest 1; ok (c, t))

  unfoldable pub ident_first : Cursor → Str → PResult Str
  unfolding ident_second
  ident_first i [] = err next
  ident_first i (c ∷ s) = if is_ident_start c then ident_second i s else err next

  unfoldable pub identifier : Cursor → PResult Str
  unfolding ident_first
  identifier i = ident_first i i.rest

-- `path`: up to the next white space, and never empty.
unfoldable pub path : Cursor → PResult Str
path i = do (c, s) ← take_while i (λ c. not (is_ws c)); if is_empty s then err fail else ok (c, s)

-- `spanned` of yarte_parser/src/source_map.rs.
unfoldable pub spanned : {T : Type 0} → Cursor → (Cursor → PResult T) → PResult (S T)
spanned i f = do
  input ← skip_ws i
  (a, b) ← f input
  ok (a, record { t = b; span = record { lo = input.off; hi = a.off } })
