-- ===== src/Parser/Expressions.antt =====
-- yarte_parser/src/lib.rs: tags that hold Rust expressions.
pub mod Sound
use yarte.Base.{
  ℕ, zero, suc, ◌+◌, ◌-◌, Bool, true, false, List, [], Option, none, some, ltb, if◌then◌else◌,
  length, Str, codes, starts_with,
}
use yarte.Parser.Result.{Result, ok, err, panic, out_of_fuel, next, ◌>>=◌}
use yarte.Parser.Cursor.{Cursor, slice_from, slice_to, adv, adv_find, adv_starts_with, ws, skip_ws}
use yarte.Parser.Trim.{trim}
use yarte.Parser.Syntax.{Syn, Span, S, Node, expr, safe, local, Partial, Ws, from_len, or_fail}
use yarte.Parser.Tags.{PResult, found_or, end_expr, path, spanned}

-- A test that is made only behind another.
abbrev pub and_then : Bool → Result Bool → Result Bool
and_then true r = r
and_then false r = ok false

-- The value of the trimmed text `s`, spanned from behind the white space at `i`.
unfoldable pub read_trimmed : {T : Type 0} → (Str → Result T) → Cursor → Str → Result (S T)
read_trimmed fun i s = do
  (_, s, _) ← trim s
  e ← fun s
  k ← skip_ws i
  ok (record { t = e; span = from_len k (length s) })

-- `make_argument!`.
unfoldable pub argument_loop : {T : Type 0} → (Str → Result T) → ℕ → Cursor → ℕ → PResult (S T)
argument_loop fun zero i at = out_of_fuel
argument_loop fun (suc f) i at = do
  j? ← adv_find i at b'}'
  found_or j? (err next) λ j. do
    trims ← and_then (ltb 0 j) (adv_starts_with i (at + j - 1) (codes "~}}"))
    let again = argument_loop fun f i (at + (j + 1))
    let plain = do
      closes ← adv_starts_with i (j + 1) (codes "}")
      if closes
          then (do s ← slice_to i.rest j; e ← read_trimmed fun i s; c ← adv i (at + j); ok (c, e))
          else again
    if trims
        then (do
          s ← slice_to i.rest (j - 1)
          e ← read_trimmed fun i s
          c ← adv i (at + j - 1)
          ok (c, e))
        else plain

unfoldable pub argument : {T : Type 0} → (Str → Result T) → Cursor → PResult (S T)
unfolding argument_loop
argument fun i = argument_loop fun (suc (length i.rest)) i 0

-- The loop of `safe`: the cursor behind the tag, the flag of its right side, and the text.
unfoldable pub safe_loop : ℕ → Cursor → ℕ → Result (Cursor × Bool × Str)
safe_loop zero i at = out_of_fuel
safe_loop (suc f) i at = do
  j? ← adv_find i at b'}'
  found_or j? (err next) λ j. do
    n ← slice_from i.rest (at + j + 1)
    let again = safe_loop f i (at + (j + 1))
    if starts_with n (codes "~}}")
        then (do c ← adv i (at + j + 4); s ← slice_to i.rest (at + j); ok (c, true, s))
        else if starts_with n (codes "}}")
        then (do c ← adv i (at + j + 3); s ← slice_to i.rest (at + j); ok (c, false, s))
        else again

-- The loop of `expr`.
unfoldable pub expr_loop : ℕ → Cursor → ℕ → Result (Cursor × Bool × Str)
expr_loop zero i at = out_of_fuel
expr_loop (suc f) i at = do
  j? ← adv_find i at b'}'
  found_or j? (err next) λ j. do
    trims ← and_then (ltb 0 (at + j)) (adv_starts_with i (at + j - 1) (codes "~}}"))
    let again = expr_loop f i (at + (j + 1))
    let plain = do
      closes ← adv_starts_with i (at + j + 1) (codes "}")
      if closes
          then (do c ← adv i (at + j + 2); s ← slice_to i.rest (at + j); ok (c, false, s))
          else again
    if trims
        then (do c ← adv i (at + j + 2); s ← slice_to i.rest (at + j - 1); ok (c, true, s))
        else plain

-- `Result::or_else`.
abbrev pub or_else : {A : Type 0} → Result A → Result A → Result A
or_else (ok a) r = ok a
or_else (err _) r = r
or_else panic r = panic
or_else out_of_fuel r = out_of_fuel

module _ {Expr Local : Type 0} (syn : Syn Expr Local) where
  unfoldable pub arguments : Cursor → PResult (S Expr)
  unfolding argument
  arguments = argument (λ s. or_fail (syn.parse_expr s))

  unfoldable pub args_list : Cursor → PResult (S (List Expr))
  unfolding argument
  args_list = argument (λ s. or_fail (syn.parse_expr_list s))

  unfoldable pub eat_safe : Cursor → Bool → PResult (Node Expr Local)
  unfolding safe_loop read_trimmed
  eat_safe i lws = do
    (c, rws, s) ← safe_loop (suc (length i.rest)) i 0
    e ← read_trimmed (λ s. or_fail (syn.parse_expr s)) i s
    ok (c, Node.safe (lws, rws) e)

  -- The text of `eat_expression` as a `let` statement, if it begins so.
  unfoldable pub as_local : Cursor → Cursor → Str → PResult (Node Expr Local)
  as_local i c s =
      if starts_with s (codes "let ")
      then (do
        e ← or_fail (syn.parse_local s)
        k ← skip_ws i
        ok (c, Node.local (record { t = e; span = from_len k (length s) })))
      else err next

  -- `expr`.
  unfoldable pub eat_expression : Cursor → Bool → PResult (Node Expr Local)
  unfolding expr_loop as_local
  eat_expression i lws = do
    (c, rws, s) ← expr_loop (suc (length i.rest)) i 0
    (_, s, _) ← trim s
    or_else (as_local i c s) (do
      e ← or_fail (syn.parse_expr s)
      k ← skip_ws i
      ok (c, Node.expr (lws, rws) (record { t = e; span = from_len k (length s) })))

  -- `partial`.
  unfoldable pub eat_partial : Cursor → Bool → PResult (Partial Expr)
  unfolding args_list
  eat_partial i lws = do
    (i, _) ← ws i
    (i, ident) ← spanned i path
    (i, args) ← args_list i
    (i, rws) ← end_expr i
    ok (i, record { ws = (lws, rws); path = ident; args = args })
