-- ===== src/Parser/PrePartials.antt =====
-- yarte_parser/src/pre_partials.rs: the partials that a template names, found without reading the
-- rest of it.
pub mod Sound
use yarte.Base.{
  ℕ, zero, suc, ◌+◌, Bool, true, false, List, [], ◌∷◌, ◌++◌, Option, none, some, ◌==◌,
  if◌then◌else◌, length, Str, find,
}
use yarte.Parser.Result.{Result, ok, err, panic, out_of_fuel, fail, next, ◌>>=◌}
use yarte.Parser.Cursor.{Cursor, slice_from, adv, is_empty}
use yarte.Parser.Syntax.{Syn, Partial, Node}
use yarte.Parser.Tags.{PResult, found_or, eat_comment}
use yarte.Parser.Expressions.{eat_partial}
use yarte.Parser.Raw.{eat_raw}

module _ {Expr Local : Type 0} (syn : Syn Expr Local) where
  -- The `match` on what `partial`, `raw` or `comment` returns, from cursor `i`.
  abbrev pub after_partial :
      Cursor → List (Partial Expr) → PResult (Partial Expr) → PResult (List (Partial Expr))
  after_partial i nodes (ok (c, n)) = ok (c, nodes ++ n ∷ [])
  after_partial i nodes (err fail) = err fail
  after_partial i nodes (err next) = ok (i, nodes)
  after_partial i nodes panic = panic
  after_partial i nodes out_of_fuel = out_of_fuel

  abbrev pub after_raw :
      Cursor → List (Partial Expr) → PResult (Node Expr Local) → PResult (List (Partial Expr))
  after_raw i nodes (ok (c, _)) = ok (c, nodes)
  after_raw i nodes (err fail) = err fail
  after_raw i nodes (err next) = ok (i, nodes)
  after_raw i nodes panic = panic
  after_raw i nodes out_of_fuel = out_of_fuel

  abbrev pub after_comment :
      Cursor → List (Partial Expr) → PResult (Node Expr Local) → PResult (List (Partial Expr))
  after_comment i nodes (ok (c, _)) = ok (c, nodes)
  after_comment i nodes (err _) = ok (i, nodes)
  after_comment i nodes panic = panic
  after_comment i nodes out_of_fuel = out_of_fuel

  -- `_switch!`: where to go on, and with which partials.
  unfoldable pub pre_switch :
      Cursor → List (Partial Expr) → ℕ → ℕ → ℕ → Bool → PResult (List (Partial Expr))
  pre_switch i nodes j n t lws =
      if n == b'>'
      then (do c ← adv i (j + 3 + t); after_partial c nodes (eat_partial syn c lws))
      else if n == b'R'
      then (do c ← adv i (j + 3 + t); after_raw c nodes (eat_raw c lws))
      else if n == b'!'
      then (do c ← adv i (j + 3); after_comment c nodes (eat_comment c))
      else (do c ← adv i (j + 2 + t); ok (c, nodes))

  unfoldable pub pre_brace : Cursor → List (Partial Expr) → ℕ → Str → PResult (List (Partial Expr))
  unfolding pre_switch
  pre_brace i nodes j (a ∷ b ∷ c ∷ _) =
      if a == b'{'
      then (if b == b'~' then pre_switch i nodes j c 1 true else pre_switch i nodes j b 0 false)
      else (do c ← adv i (j + 1); ok (c, nodes))
  pre_brace i nodes j _ = do c ← adv i (j + 1); ok (c, nodes)

  unfoldable pub eat_partials : ℕ → Cursor → List (Partial Expr) → PResult (List (Partial Expr))
  unfolding pre_brace
  eat_partials zero i nodes = out_of_fuel
  eat_partials (suc f) i nodes =
      found_or (find b'{' i.rest) (do c ← adv i (length i.rest); ok (c, nodes))
        λ j. do
          n ← slice_from i.rest (j + 1)
          (c, more) ← pre_brace i nodes j n
          eat_partials f c more

  -- The `match` of `parse_partials`.
  unfoldable pub partials_read : PResult (List (Partial Expr)) → Result (List (Partial Expr))
  partials_read (ok (l, res)) = if is_empty l.rest then ok res else panic
  partials_read (err _) = panic
  partials_read panic = panic
  partials_read out_of_fuel = out_of_fuel

  unfoldable pub parse_partials : Str → Result (List (Partial Expr))
  unfolding eat_partials partials_read
  parse_partials rest =
      partials_read (eat_partials (suc (length rest)) (record { rest = rest; off = 0 }) [])
