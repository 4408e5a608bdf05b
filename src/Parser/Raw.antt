-- ===== src/Parser/Raw.antt =====
-- yarte_parser/src/lib.rs: `raw`, the text between `{{R}}` and `{{/R}}`.
pub mod Sound
use yarte.Base.{
  ℕ, zero, suc, ◌+◌, Bool, true, false, [], ◌∷◌, Option, none, some, ◌==◌, if◌then◌else◌, length,
  Str, codes,
}
use yarte.Parser.Result.{Result, ok, err, panic, out_of_fuel, fail, ◌>>=◌, opt}
use yarte.Parser.Cursor.{Cursor, u32, slice_to, adv, adv_find, tag}
use yarte.Parser.Trim.{trim}
use yarte.Parser.Syntax.{Node, Ws, S}
use yarte.Parser.Tags.{PResult, found_or, end_expr}

-- `opt!(tag!("~"))`, and whether the mark was there.
unfoldable pub tilde : Cursor → PResult Bool
tilde i = opt (tag i (codes "~")) (λ (c, _). ok (c, true)) (ok (i, false))

abbrev pub opens : Str → Bool
opens [] = false
opens (c ∷ _) = c == b'{'

-- `opt!(tag!("~")) >> tag!("/R") >> end_expr`.
unfoldable pub raw_close : Cursor → PResult Ws
unfolding tilde
raw_close n = do
  (n, lws) ← tilde n
  (n, _) ← tag n (codes "/R")
  (n, rws) ← end_expr n
  ok (n, (lws, rws))

unfoldable pub raw_loop : ℕ → Cursor → ℕ → Result (Cursor × Str × Ws)
unfolding raw_close
raw_loop zero i at = out_of_fuel
raw_loop (suc f) i at = do
  j? ← adv_find i at b'{'
  found_or j? (err fail) λ j. do
    n ← adv i (at + j + 1)
    let behind = raw_loop f i (at + (j + 4))
    let again = raw_loop f i (at + (j + 1))
    let close = do
      m ← adv n 1
      opt (raw_close m) (λ (c, w). do t ← slice_to i.rest (at + j); ok (c, t, w)) behind
    if opens n.rest then close else again

unfoldable pub eat_raw : {Expr Local : Type 0} → Cursor → Bool → PResult (Node Expr Local)
unfolding raw_loop
eat_raw i a_lws = do
  (i, a_rws) ← end_expr i
  (c, j, b_ws) ← raw_loop (suc (length i.rest)) i 0
  (l, v, r) ← trim j
  let lo = u32 (i.off + u32 (length l))
  let hi = u32 (lo + u32 (length v))
  ok (c, Node.raw (a_lws, a_rws) b_ws l (record { t = v; span = record { lo = lo; hi = hi } }) r)
