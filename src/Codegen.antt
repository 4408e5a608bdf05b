-- ===== src/Codegen.antt =====
-- yarte_codegen/src/lib.rs, html.rs and text.rs: the Rust code that renders an intermediate form. The
-- token stream is the list of the pieces that are quoted; the expressions are syn's.
pub mod Runs
mod Tests
use yarte.Base.{Bool, true, false, Str}
use yarte.Hir.Generator.{Hir, Hirs, IfElses, no_more, more, Els, no_els, els}

mutual
  -- `#local`, `_fmt.write_str(s)?;`, `Display::fmt(&(e), _fmt)?;`, `Render::render(&(e), _fmt)?;`,
  -- `for e in args { … }`, `if e { … }`, `else if e { … }` and `else { … }`.
  pub data Piece (Expr Local : Type 0) : Type 0 where
    declare : Local → Piece Expr Local
    write_str : Str → Piece Expr Local
    display : Expr → Piece Expr Local
    render : Expr → Piece Expr Local
    for_in : Expr → Expr → Tokens Expr Local → Piece Expr Local
    if_block : Expr → Tokens Expr Local → Piece Expr Local
    else_if : Expr → Tokens Expr Local → Piece Expr Local
    else_block : Tokens Expr Local → Piece Expr Local

  pub data Tokens (Expr Local : Type 0) : Type 0 where
    nil : Tokens Expr Local
    cons : Piece Expr Local → Tokens Expr Local → Tokens Expr Local

-- `HTMLCodeGen` and `TextCodeGen`.
pub data CodeGen : Type 0 where
  html text : CodeGen

module _ {Expr Local : Type 0} where
  -- `tokens.extend`.
  abbrev pub extend : Tokens Expr Local → Tokens Expr Local → Tokens Expr Local
  extend nil us = us
  extend (cons t ts) us = cons t (extend ts us)

  abbrev pub gen_expr : CodeGen → Expr → Piece Expr Local
  gen_expr html e = render e
  gen_expr text e = display e

  unfoldable mutual
    -- `gen`: the loop over the form.
    pub gen : CodeGen → Hirs Expr Local → Tokens Expr Local
    gen c Hirs.nil = nil
    gen c (Hirs.cons h hs) = extend (gen_node c h) (gen c hs)

    pub gen_node : CodeGen → Hir Expr Local → Tokens Expr Local
    gen_node c (Hir.local l) = cons (declare l) nil
    gen_node c (Hir.lit s) = cons (write_str s) nil
    gen_node c (Hir.safe e) = cons (display e) nil
    gen_node c (Hir.expr e) = cons (gen_expr c e) nil
    -- `gen_each` and `gen_if_else`.
    gen_node c (Hir.each args body e) = cons (for_in e args (gen c body)) nil
    gen_node c (Hir.if_else cond body ifs block) =
        cons (if_block cond (gen c body)) (extend (gen_ifs c ifs) (gen_els c block))

    pub gen_ifs : CodeGen → IfElses Expr Local → Tokens Expr Local
    gen_ifs c no_more = nil
    gen_ifs c (more cond body ifs) = cons (else_if cond (gen c body)) (gen_ifs c ifs)

    pub gen_els : CodeGen → Els Expr Local → Tokens Expr Local
    gen_els c no_els = nil
    gen_els c (els body) = cons (else_block (gen c body)) nil
