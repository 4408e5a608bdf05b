-- ===== src/Parser/Eater.antt =====
-- yarte_parser/src/lib.rs: the eaters of a block of a template, helpers and `if`, and `parse`.
-- Each function is written over the ones that it calls; `eater`, `hel`, `if_else` and `if_loop` tie
-- the knot with fuel, one unit for each call.
pub mod Covers
pub mod Literals
pub mod Step
pub mod Helpers
pub mod Fuel
pub mod Parsed
use yarte.Base.{
  ℕ, zero, suc, ◌+◌, ◌-◌, Bool, true, false, ◌&&◌, [], ◌∷◌, none, some, ◌==◌, if◌then◌else◌, length,
  Str, codes, starts_with, str_eq,
}
use yarte.Parser.Result.{Result, ok, err, panic, out_of_fuel, fail, next, ◌>>=◌, opt, map_fail}
use yarte.Parser.Cursor.{
  Cursor, u32, slice_from, slice_to, adv, adv_find, tag, ws, skip_ws, is_empty,
}
use yarte.Parser.Trim.{trim}
use yarte.Parser.Syntax.{
  Syn, Span, S, Ws, from_cursor, Node, Helper, Nodes, Branches, Else, no_branch, no_else,
  else_block, push, push_branch,
}
use yarte.Parser.Tags.{PResult, found_or, eat_comment, end_expr, identifier, spanned}
use yarte.Parser.Expressions.{arguments, eat_safe, eat_expression, eat_partial}
use yarte.Parser.Raw.{tilde, eat_raw}

module _ {Expr Local : Type 0} where
  -- `eat_lit`.
  unfoldable pub eat_lit : Nodes Expr Local → Cursor → ℕ → Result (Nodes Expr Local)
  eat_lit nodes i len = do
    lit ← slice_to i.rest len
    if is_empty lit then ok nodes else (do
      (l, m, r) ← trim lit
      let ins : Span = record {
        lo = u32 (i.off + u32 (length l));
        hi = u32 (i.off + u32 (len - length r));
      }
      let out : Span = record { lo = i.off; hi = u32 (i.off + u32 len) }
      ok (push nodes (Node.lit l (record { t = m; span = ins }) r) out))

  -- `kill!`.
  unfoldable pub kill : Nodes Expr Local → Cursor → ℕ → Cursor → PResult (Nodes Expr Local)
  unfolding eat_lit
  kill nodes i len c = do buf ← eat_lit nodes i len; ok (c, buf)

  -- `Helper` by its name.
  abbrev pub named : Str → Ws → Ws → S Expr → Nodes Expr Local → Helper Expr Local
  named name above below args block =
      if str_eq name (codes "each")
      then Helper.each above below args block
      else if str_eq name (codes "with")
      then Helper.with_scope above below args block
      else if str_eq name (codes "unless")
      then Helper.unless above below args block
      else Helper.defined above below name args block

module _ {Expr Local : Type 0} (syn : Syn Expr Local) where
  -- What the eaters call: the helper reader, and the eater itself from another place.
  module _ (hel : Cursor → Bool → PResult (Node Expr Local))
      (again : Cursor → ℕ → Nodes Expr Local → PResult (Nodes Expr Local)) (special : Bool)
      (i : Cursor) (buf : Nodes Expr Local) where
    -- `try_eat!`, with the literal in front of position `p`.
    unfoldable pub try_eat : ℕ → PResult (Node Expr Local) → PResult (Nodes Expr Local)
    try_eat p (ok (c, n)) = do
      nodes ← eat_lit buf i p
      start ← adv i p
      again c 0 (push nodes n (from_cursor start c))
    try_eat p (err fail) = err fail
    try_eat p (err next) = again i (p + 1) buf
    try_eat p panic = panic
    try_eat p out_of_fuel = out_of_fuel

    -- `$callback!`: `is_else!` in `eat_if`, nothing in `eat`.
    unfoldable pub stops : ℕ → ℕ → Result Bool
    stops p t =
        if special
        then (do c ← adv i (p + 2 + t); k ← skip_ws c; ok (starts_with k.rest (codes "else")))
        else ok false

    -- `_switch!`: `n` is the byte behind `{{` or `{{~`.
    unfoldable pub switch : ℕ → ℕ → ℕ → Bool → PResult (Nodes Expr Local)
    unfolding try_eat stops kill
    switch p n t lws =
        if n == b'{'
        then try_eat p (do c ← adv i (p + 3 + t); eat_safe syn c lws)
        else if n == b'!'
        then try_eat p (do c ← adv i (p + 3 + t); eat_comment c)
        else if n == b'#'
        then try_eat p (do c ← adv i (p + 3 + t); hel c lws)
        else if n == b'>'
        then try_eat p
            (do c ← adv i (p + 3 + t); (c, x) ← eat_partial syn c lws; ok (c, Node.partial x))
        else if n == b'R'
        then try_eat p (do c ← adv i (p + 3 + t); eat_raw c lws)
        else if n == b'/'
        then (do c ← adv i (p + 2); kill buf i p c)
        else (do
          stop ← stops p t
          if stop
              then (do c ← adv i (p + 2); kill buf i p c)
              else try_eat p (do c ← adv i (p + 2 + t); eat_expression syn c lws))

    -- On the bytes behind a `{` at position `p`: a tag wants three of them, the first another `{`.
    unfoldable pub behind_brace : ℕ → Str → PResult (Nodes Expr Local)
    unfolding switch
    behind_brace p (a ∷ b ∷ c ∷ _) =
        if a == b'{'
        then (if b == b'~' then switch p c 1 true else switch p b 0 false)
        else again i (p + 1) buf
    behind_brace p _ = again i (p + 1) buf

    -- One round of the loop of `make_eater!`.
    unfoldable pub eater_step : ℕ → PResult (Nodes Expr Local)
    unfolding behind_brace
    eater_step at = do
      j? ← adv_find i at b'{'
      found_or j? (do c ← adv i (length i.rest); kill buf i (length i.rest) c)
          λ j. do n ← slice_from i.rest (at + j + 1); behind_brace (at + j) n

  -- The header of a helper: its name, its arguments and the flags of its tag.
  unfoldable pub header : Cursor → Bool → PResult (Ws × S Str × S Expr)
  header i a_lws = do
    (i, _) ← ws i
    (i, ident) ← spanned i (identifier syn)
    (i, args) ← arguments syn i
    (i, rws) ← end_expr i
    ok (i, ((a_lws, rws), ident, args))

  -- The closing tag of a helper, from behind `{{`.
  unfoldable pub closing : Cursor → PResult (Ws × S Str)
  closing i = do
    (i, lws) ← tilde i
    (i, _) ← tag i (codes "/")
    (i, _) ← ws i
    (i, c_ident) ← spanned i (identifier syn)
    (i, rws) ← end_expr i
    ok (i, ((lws, rws), c_ident))

  -- `hel`.
  unfoldable pub hel_step :
      (Cursor → PResult (Nodes Expr Local))
      → (Ws → Cursor → S Expr → PResult (Node Expr Local))
      → Cursor
      → Bool
      → PResult (Node Expr Local)
  unfolding header closing
  hel_step eat if_else i a_lws = do
    (i, (above, ident, args)) ← header i a_lws
    if str_eq ident.t (codes "if") then if_else above i args else (do
      (i, block) ← eat i
      (c, (below, c_ident)) ← closing i
      if str_eq ident.t c_ident.t
          then ok (c, Node.helper (named ident.t above below args block))
          else err fail)

  -- `{{ else`, from behind the braces.
  unfoldable pub else_tag : Cursor → PResult Bool
  else_tag i = do (i, lws) ← tilde i; (i, _) ← ws i; (i, _) ← tag i (codes "else"); ok (i, lws)

  -- `{{/ if`, from behind the braces.
  unfoldable pub end_if_tag : Cursor → PResult Bool
  end_if_tag i = do
    (i, lws) ← tilde i
    (i, _) ← tag i (codes "/")
    (i, _) ← ws i
    (i, _) ← tag i (codes "if")
    ok (i, lws)

  module _ (eat eat_if : Cursor → PResult (Nodes Expr Local)) where
    -- The rest of `{{ else if … }}` and its block.
    unfoldable pub else_if_block : Cursor → Bool → PResult (Ws × S Expr × Nodes Expr Local)
    else_if_block c lws = do
      (c, _) ← ws c
      (c, args) ← arguments syn c
      (c, rws) ← end_expr c
      (c, block) ← eat_if c
      ok (c, ((lws, rws), args, block))

    -- The rest of `{{ else }}` and its block.
    unfoldable pub else_rest : Cursor → Bool → PResult (Ws × Nodes Expr Local)
    else_rest c lws = do (c, rws) ← end_expr c; (c, block) ← eat c; ok (c, ((lws, rws), block))

    -- One round of the loop of `if_else`.
    unfoldable pub if_loop_step :
        (Cursor → Branches Expr Local → Else Expr Local → PResult (Node Expr Local))
        → Ws
        → S Expr
        → Nodes Expr Local
        → Cursor
        → Branches Expr Local
        → Else Expr Local
        → PResult (Node Expr Local)
    unfolding else_tag end_if_tag else_if_block else_rest
    if_loop_step again above args first i nodes tail =
        opt (else_tag i)
          (λ (c, lws). do
            k ← skip_ws c
            opt (tag k (codes "if"))
                (λ (c, _). do
                  (c, (w, e, block)) ← map_fail (else_if_block c lws)
                  again c (push_branch nodes w e block) tail)
                (do
                  (c, (w, block)) ← map_fail (else_rest c lws)
                  again c nodes (else_block w block)))
          (opt (end_if_tag i)
            (λ (c, lws). do
              (c, rws) ← end_expr c
              ok (c, Node.helper (Helper.if_else above (lws, rws) args first nodes tail)))
            (err fail))

  unfoldable mutual
    -- `eat`, and with `special` `eat_if`.
    pub eater : ℕ → Bool → Cursor → ℕ → Nodes Expr Local → PResult (Nodes Expr Local)
    eater zero special i at buf = out_of_fuel
    eater (suc f) special i at buf = eater_step (hel f) (eater f special) special i buf at

    pub hel : ℕ → Cursor → Bool → PResult (Node Expr Local)
    hel zero i lws = out_of_fuel
    hel (suc f) i lws = hel_step (λ c. eater f false c 0 Nodes.nil) (if_else f) i lws

    pub if_else : ℕ → Ws → Cursor → S Expr → PResult (Node Expr Local)
    if_else zero above i args = out_of_fuel
    if_else (suc f) above i args =
        eater f true i 0 Nodes.nil >>= λ (c, first). if_loop f above args first c no_branch no_else

    pub if_loop :
        ℕ
        → Ws
        → S Expr
        → Nodes Expr Local
        → Cursor
        → Branches Expr Local
        → Else Expr Local
        → PResult (Node Expr Local)
    if_loop zero above args first i nodes tail = out_of_fuel
    if_loop (suc f) above args first i nodes tail =
        if_loop_step (λ c. eater f false c 0 Nodes.nil) (λ c. eater f true c 0 Nodes.nil)
          (if_loop f above args first) above args first i nodes tail

  unfoldable pub eat : Cursor → PResult (Nodes Expr Local)
  eat i = eater (suc (length i.rest)) false i 0 Nodes.nil

  -- The `match` of `parse`: anything but a template read to its end is a panic.
  unfoldable pub parsed : PResult (Nodes Expr Local) → Result (Nodes Expr Local)
  parsed (ok (l, res)) = if is_empty l.rest then ok res else panic
  parsed (err _) = panic
  parsed panic = panic
  parsed out_of_fuel = out_of_fuel

  unfoldable pub parse : Cursor → Result (Nodes Expr Local)
  unfolding eat parsed
  parse c = parsed (eat c)
