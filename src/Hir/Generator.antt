-- ===== src/Hir/Generator.antt =====
-- yarte_hir/src/lib.rs: the intermediate form, the state of the generator, its white space and its
-- buffer of what is to be written.
use yarte.Base.{
  Bool, true, false, not, ◌&&◌, List, [], ◌∷◌, ◌++◌, Option, none, some, Str, if◌then◌else◌,
}
use yarte.Parser.Cursor.{is_empty}
use yarte.Parser.Syntax.{Ws}
use yarte.Hir.Rust.{Names}
use yarte.Hir.Validator.{ErrorMessage}

-- `HIR`; `Hirs` is `Vec<HIR>`, `IfElses` and `Els` are the last two fields of `IfElse`.
mutual
  pub data Hir (Expr Local : Type 0) : Type 0 where
    lit : Str → Hir Expr Local
    expr : Expr → Hir Expr Local
    safe : Expr → Hir Expr Local
    each : Expr → Hirs Expr Local → Expr → Hir Expr Local
    if_else : Expr → Hirs Expr Local → IfElses Expr Local → Els Expr Local → Hir Expr Local
    local : Local → Hir Expr Local

  pub data Hirs (Expr Local : Type 0) : Type 0 where
    nil : Hirs Expr Local
    cons : Hir Expr Local → Hirs Expr Local → Hirs Expr Local

  pub data IfElses (Expr Local : Type 0) : Type 0 where
    no_more : IfElses Expr Local
    more : Expr → Hirs Expr Local → IfElses Expr Local → IfElses Expr Local

  pub data Els (Expr Local : Type 0) : Type 0 where
    no_els : Els Expr Local
    els : Hirs Expr Local → Els Expr Local

pub data Writable (Expr : Type 0) : Type 0 where
  lit : Str → Writable Expr
  lit_p : Str → Writable Expr
  expr : Expr → Bool → Writable Expr

-- `Generator`, without the parts that never change.
pub record Generator (Expr : Type 0) : Type 0 where
  pub names : Names Expr
  pub buf_w : List (Writable Expr)
  pub errors : List ErrorMessage
  pub on_path : Str
  pub next_ws : Option Str
  pub skip_ws : Bool

module _ {Expr Local : Type 0} where
  -- `Vec::push`.
  abbrev pub push : Hirs Expr Local → Hir Expr Local → Hirs Expr Local
  push nil h = cons h nil
  push (cons k hs) h = cons k (push hs h)

  -- The literal read so far, if it holds anything.
  abbrev pub push_lit : Hirs Expr Local → Str → Hirs Expr Local
  push_lit buf [] = buf
  push_lit buf (c ∷ s) = push buf (Hir.lit (c ∷ s))

  -- The loop of `write_buf_writable`, with `buf_lit`.
  unfoldable pub written : Str → List (Writable Expr) → Hirs Expr Local → Hirs Expr Local
  written buf_lit [] buf = push_lit buf buf_lit
  written buf_lit (Writable.lit s ∷ ws) buf = written (buf_lit ++ s) ws buf
  written buf_lit (lit_p s ∷ ws) buf = written (buf_lit ++ s) ws buf
  written buf_lit (Writable.expr e wrapped ∷ ws) buf =
      written [] ws (push (push_lit buf buf_lit) (if wrapped then Hir.safe e else Hir.expr e))

module _ {Expr : Type 0} where
  abbrev pub push_w : Generator Expr → Writable Expr → Generator Expr
  push_w g w = record g { buf_w = g.buf_w ++ w ∷ [] }

  abbrev pub skip_ws : Generator Expr → Generator Expr
  skip_ws g = record g { next_ws = none; skip_ws = true }

  -- What `flush_ws` adds to the buffer.
  abbrev pub flushed : Option Str → Bool → List (Writable Expr)
  flushed none trims = []
  flushed (some val) trims = if not trims && not (is_empty val) then Writable.lit val ∷ [] else []

  unfoldable pub flush_ws : Generator Expr → Ws → Generator Expr
  flush_ws g ws = record g { buf_w = g.buf_w ++ flushed g.next_ws ws.0; next_ws = none }

  abbrev pub prepare_ws : Generator Expr → Ws → Generator Expr
  prepare_ws g ws = record g { skip_ws = ws.1 }

  unfoldable pub handle_ws : Generator Expr → Ws → Generator Expr
  unfolding flush_ws
  handle_ws g ws = prepare_ws (flush_ws g ws) ws

  -- `visit_lit`, on the white space in front, on the text, and on the white space behind.
  abbrev pub lit_left : Generator Expr → Str → Str → Generator Expr
  lit_left g lws text =
      if is_empty lws
      then g
      else if g.skip_ws
      then record g { skip_ws = false }
      else if is_empty text
      then record g { next_ws = some lws }
      else push_w g (Writable.lit lws)

  abbrev pub lit_text : Generator Expr → Str → Generator Expr
  lit_text g text = if is_empty text then g else push_w g (Writable.lit text)

  abbrev pub lit_right : Generator Expr → Str → Generator Expr
  lit_right g rws = if is_empty rws then g else record g { next_ws = some rws }

  unfoldable pub visit_lit : Generator Expr → Str → Str → Str → Generator Expr
  visit_lit g lws text rws = lit_right (lit_text (lit_left g lws text) text) rws

  module _ {Local : Type 0} where
    -- `write_buf_writable`.
    unfoldable pub write_buf_writable :
        Generator Expr → Hirs Expr Local → Generator Expr × Hirs Expr Local
    unfolding written
    write_buf_writable g buf = (record g { buf_w = [] }, written [] g.buf_w buf)
