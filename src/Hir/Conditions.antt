-- ===== src/Hir/Conditions.antt =====
-- yarte_hir/src/lib.rs, `visit_if`: its conditions and the `else` block, around the walk over the
-- nodes of a block, `block`.
use yarte.Base.{Bool, true, false, not, [], Option, none, some, if◌then◌else◌}
use yarte.Parser.Result.{Result, ok, ◌>>=◌}
use yarte.Parser.Syntax.{Ws, S}
use yarte.Hir.Rust.{Rust}
use yarte.Hir.Validator
use yarte.Hir.Generator.{Hirs, Generator, handle_ws, write_buf_writable}
use yarte.Hir.Constants.{eval_bool}
use yarte.Hir.Chain.{Chain, add_block, write_chain}
use yarte.Hir.Blocks.{State, visit_expr, report, scoped, push_names, pop_names}

module _ {Expr Local : Type 0} (rust : Rust Expr Local) where
  -- The first condition of `visit_if`.
  unfoldable pub first_by :
      (State Expr Local → Result (State Expr Local))
      → S Expr
      → Expr
      → Option Bool
      → State Expr Local
      → Result (Chain Expr Local)
  first_by block scond cond (some val) (g, buf) = do
    (g, buf) ← if val then block (g, buf) else ok (g, buf)
    ok (record { g = g; buf = buf; last = val; o_ifs = none; if_else = []; o_els = none })
  first_by block scond cond none (g, buf) = do
    let (g, buf) = write_buf_writable (report g (Validator.ifs rust scond)) buf
    (g, body) ← block (g, Hirs.nil)
    ok (record {
      g = g;
      buf = buf;
      last = false;
      o_ifs = some (cond, body);
      if_else = [];
      o_els = none;
    })

  -- The block of a further condition that is constantly true; it is the last block where another
  -- condition is read at run time.
  unfoldable pub branch_true :
      (State Expr Local → Result (State Expr Local))
      → Bool
      → Option (Expr × Hirs Expr Local)
      → Chain Expr Local
      → Result (Chain Expr Local)
  branch_true block is_last none c = do
    (g, buf) ← block (c.g, c.buf)
    ok (record c { g = g; buf = buf; last = not is_last })
  branch_true block is_last (some p) c = do
    (g, body) ← block (c.g, Hirs.nil)
    ok (record c { g = g; o_els = some body; last = not is_last })

  -- A further condition of `visit_if`, by its value.
  unfoldable pub branch_by :
      (State Expr Local → Result (State Expr Local))
      → S Expr
      → Expr
      → Bool
      → Option Bool
      → Chain Expr Local
      → Result (Chain Expr Local)
  unfolding branch_true
  branch_by block scond cond is_last (some false) c = ok c
  branch_by block scond cond is_last (some true) c = branch_true block is_last c.o_ifs c
  branch_by block scond cond is_last none c = do
    (g, body) ← block (report c.g (Validator.ifs rust scond), Hirs.nil)
    ok (add_block cond body c.o_ifs (record c { g = g }))

  abbrev pub chain_names :
      Chain Expr Local → (Generator Expr → Result (Generator Expr)) → Result (Chain Expr Local)
  chain_names c f = do g ← f c.g; ok (record c { g = g })

  -- The body of the loop over the further conditions, where the loop goes on.
  unfoldable pub take_branch :
      (State Expr Local → Result (State Expr Local))
      → S Expr
      → Bool
      → Chain Expr Local
      → Result (Chain Expr Local)
  unfolding branch_by
  take_branch block scond is_last c = do
    (g, cond) ← visit_expr rust (push_names c.g []) scond.t
    c ← branch_by block scond cond is_last (eval_bool rust cond) (record c { g = g })
    chain_names c pop_names

  -- The `else` block: the chain, and the value of `els`.
  unfoldable pub else_by :
      (State Expr Local → Result (State Expr Local))
      → Option (Hirs Expr Local)
      → Option (Expr × Hirs Expr Local)
      → Chain Expr Local
      → Result (Chain Expr Local × Option (Hirs Expr Local))
  else_by block (some body) o c = ok (c, some body)
  else_by block none (some p) c = do
    (g, body) ← scoped rust block [] (c.g, Hirs.nil)
    ok (record c { g = g }, some body)
  else_by block none none c = do
    (g, buf) ← scoped rust block [] (c.g, c.buf)
    ok (record c { g = g; buf = buf }, none)

  -- The closure for the `else` block.
  unfoldable pub take_else :
      (State Expr Local → Result (State Expr Local))
      → Ws
      → Chain Expr Local
      → Result (Chain Expr Local × Option (Hirs Expr Local))
  unfolding else_by
  take_else block ws c =
      let c' = write_chain (record c { g = handle_ws c.g ws }) in
      if c.last then ok (c, none) else else_by block c'.o_els c'.o_ifs c'
