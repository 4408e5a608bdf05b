-- ===== src/Parser/Eater/Fuel.antt =====
-- The eaters end within their fuel, and what they return covers the source that they have read.
use yarte.Base.{ℕ, zero, suc, ◌+◌, ◌-◌, ◌≤◌, ◌<◌, refl, Bool, true, false, arith, length}
use yarte.Parser.Result.{Ensures-bind, Ensures-weaken}
use yarte.Parser.Cursor.{Cursor}
use yarte.Parser.Advances.{Advances-trans, Advances-weaken, Advances-Fits, Advances-length, Fits}
use yarte.Parser.Syntax.{Syn, S, Ws, Nodes, Branches, Else, no_branch, no_else}
use yarte.Parser.Tags.{PResult}
use yarte.Parser.Raw.Sound.{MayPanic}
use yarte.Parser.Eater.Covers.{Covers}
use yarte.Parser.Eater.Step.{Eaten, Eaten-Advances, eater_step-Ensures}
use yarte.Parser.Eater.Helpers.{Runs, hel_step-Ensures, if_loop_step-Ensures}
use yarte.Parser.Eater.{eater, hel, if_else, if_loop, eat}

module _ {Expr Local : Type 0} where
  -- An eater that begins at `c` with no node.
  fresh : {c : Cursor} {r : PResult (Nodes Expr Local)} → Fits c → MayPanic (Eaten c) r → Runs 0 c r
  fresh fits = Ensures-weaken (λ x. x) (λ r e. Eaten-Advances r fits e)

mutual
  unfolding eater hel if_else if_loop

  eater-Ensures :
      {Expr Local : Type 0} (syn : Syn Expr Local) (f : ℕ) (special : Bool) (o i : Cursor) (at : ℕ)
      (buf : Nodes Expr Local)
      → Fits i
      → Covers o buf i
      → at ≤ length i.rest
      → length i.rest - at < f
      → MayPanic (Eaten o) (eater syn f special i at buf)
  eater-Ensures syn zero special o i at buf fits cov h lt = absurd (omega arith)
  eater-Ensures syn (suc f) special o i at buf fits cov h lt =
      eater_step-Ensures syn special o i buf f fits cov (hel-Ensures syn f)
        (λ c at' ns. eater-Ensures syn f special o c at' ns) at h (omega arith)

  hel-Ensures :
      {Expr Local : Type 0} (syn : Syn Expr Local) (f : ℕ) (i : Cursor) (lws : Bool)
      → Fits i
      → length i.rest < f
      → Runs 0 i (hel syn f i lws)
  hel-Ensures syn zero i lws fits lt = absurd (omega arith)
  hel-Ensures syn (suc f) i lws fits lt =
      hel_step-Ensures syn f i lws fits (omega arith)
        (λ c fc lc.
          fresh fc (eater-Ensures syn f false c c 0 Nodes.nil fc refl (omega arith) (omega arith)))
        (if_else-Ensures syn f)

  if_else-Ensures :
      {Expr Local : Type 0} (syn : Syn Expr Local) (f : ℕ) (above : Ws) (i : Cursor) (args : S Expr)
      → Fits i
      → length i.rest + 1 < f
      → Runs 0 i (if_else syn f above i args)
  if_else-Ensures syn zero above i args fits lt = absurd (omega arith)
  if_else-Ensures syn (suc f) above i args fits lt =
      Ensures-bind
        (fresh fits
          (eater-Ensures syn f true i i 0 Nodes.nil fits refl (omega arith) (omega arith)))
        λ (c, first) a.
          Ensures-weaken (λ x. x) (λ r b. Advances-weaken (omega arith) (Advances-trans a b))
            (if_loop-Ensures syn f above args first c no_branch no_else (Advances-Fits a)
              (omega (arith, Advances-length a)))

  if_loop-Ensures :
      {Expr Local : Type 0} (syn : Syn Expr Local) (f : ℕ) (above : Ws) (args : S Expr)
      (first : Nodes Expr Local) (i : Cursor) (nodes : Branches Expr Local) (tail : Else Expr Local)
      → Fits i
      → length i.rest < f
      → Runs 0 i (if_loop syn f above args first i nodes tail)
  if_loop-Ensures syn zero above args first i nodes tail fits lt = absurd (omega arith)
  if_loop-Ensures syn (suc f) above args first i nodes tail fits lt =
      if_loop_step-Ensures syn f
        (λ c fc lc.
          fresh fc (eater-Ensures syn f false c c 0 Nodes.nil fc refl (omega arith) (omega arith)))
        (λ c fc lc.
          fresh fc (eater-Ensures syn f true c c 0 Nodes.nil fc refl (omega arith) (omega arith)))
        above args first i nodes tail fits (omega arith) (if_loop-Ensures syn f above args first)

pub eat-Ensures :
    {Expr Local : Type 0} (syn : Syn Expr Local) (i : Cursor)
    → Fits i
    → MayPanic (Eaten i) (eat syn i)
unfolding eat
eat-Ensures syn i fits =
    eater-Ensures syn (suc (length i.rest)) false i i 0 Nodes.nil fits refl (omega arith)
      (omega arith)
