-- ===== src/Hir/Chain.antt =====
-- yarte_hir/src/lib.rs, `visit_if`: what is known of a chain of conditions while it is read.
use yarte.Base.{Bool, List, [], ◌∷◌, ◌++◌, Option, none, some}
use yarte.Hir.Generator.{
  Hir, Hirs, IfElses, no_more, more, no_els, els, Generator, push, write_buf_writable,
}

-- The variables of `visit_if`: the generator and `buf`, then `last`, `o_ifs`, `if_else`, `o_els`.
pub record Chain (Expr Local : Type 0) : Type 0 where
  pub g : Generator Expr
  pub buf : Hirs Expr Local
  pub last : Bool
  pub o_ifs : Option (Expr × Hirs Expr Local)
  pub if_else : List (Expr × Hirs Expr Local)
  pub o_els : Option (Hirs Expr Local)

abbrev pub emptied : {Expr : Type 0} → Generator Expr → Generator Expr
emptied g = record g { buf_w = [] }

module _ {Expr Local : Type 0} where
  -- `write_buf_writable` into the body of the last pair.
  abbrev pub write_last :
      Generator Expr → List (Expr × Hirs Expr Local) → List (Expr × Hirs Expr Local)
  write_last g [] = []
  write_last g ((e, body) ∷ []) = (e, (write_buf_writable g body).1) ∷ []
  write_last g (p ∷ q ∷ ps) = p ∷ write_last g (q ∷ ps)

  abbrev pub write_option :
      Generator Expr → Option (Expr × Hirs Expr Local) → Option (Expr × Hirs Expr Local)
  write_option g none = none
  write_option g (some (e, body)) = some (e, (write_buf_writable g body).1)

  -- What is to be written goes to the block that was read last: to that of `o_els`, of the last of
  -- `if_else` or of `o_ifs`. Where there is none it stays.
  abbrev pub write_block :
      Chain Expr Local
      → Option (Hirs Expr Local)
      → List (Expr × Hirs Expr Local)
      → Option (Expr × Hirs Expr Local)
      → Chain Expr Local
  write_block c (some body) ps o = record c {
    g = emptied c.g;
    o_els = some (write_buf_writable c.g body).1;
  }
  write_block c none (p ∷ ps) o = record c { g = emptied c.g; if_else = write_last c.g (p ∷ ps) }
  write_block c none [] (some p) = record c { g = emptied c.g; o_ifs = write_option c.g (some p) }
  write_block c none [] none = c

  unfoldable pub write_chain : Chain Expr Local → Chain Expr Local
  write_chain c = write_block c c.o_els c.if_else c.o_ifs

  -- A further condition that is read at run time, with its block.
  abbrev pub add_block :
      Expr → Hirs Expr Local → Option (Expr × Hirs Expr Local) → Chain Expr Local → Chain Expr Local
  add_block cond body none c = record c { o_ifs = some (cond, body) }
  add_block cond body (some p) c = record c { if_else = c.if_else ++ (cond, body) ∷ [] }

  abbrev pub to_if_elses : List (Expr × Hirs Expr Local) → IfElses Expr Local
  to_if_elses [] = no_more
  to_if_elses ((e, body) ∷ ps) = more e body (to_if_elses ps)

  -- The end of `visit_if`, with the value of `els`.
  abbrev pub finish :
      Chain Expr Local
      → Option (Expr × Hirs Expr Local)
      → List (Expr × Hirs Expr Local)
      → Option (Hirs Expr Local)
      → Generator Expr × Hirs Expr Local
  finish c none ps e = (c.g, c.buf)
  finish c (some (cond, body)) ps (some e) = (
    emptied c.g,
    push c.buf (Hir.if_else cond body (to_if_elses ps) (els (write_buf_writable c.g e).1)),
  )
  finish c (some (cond, body)) (p ∷ ps) none = (
    emptied c.g,
    push c.buf (Hir.if_else cond body (to_if_elses (write_last c.g (p ∷ ps))) no_els),
  )
  finish c (some (cond, body)) [] none =
      (emptied c.g, push c.buf (Hir.if_else cond (write_buf_writable c.g body).1 no_more no_els))

  unfoldable pub finish_if :
      Chain Expr Local → Option (Hirs Expr Local) → Generator Expr × Hirs Expr Local
  finish_if c e = finish c c.o_ifs c.if_else e
