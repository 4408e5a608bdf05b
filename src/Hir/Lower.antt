-- ===== src/Hir/Lower.antt =====
-- yarte_hir/src/lib.rs: the generator's walk over the nodes of a template. A partial takes one unit
-- of fuel.
use yarte.Base.{
  ℕ, zero, suc, Bool, true, false, List, [], ◌∷◌, Option, none, some, length, Str, codes,
  if◌then◌else◌,
}
use yarte.Parser.Result.{Result, ok, panic, out_of_fuel, ◌>>=◌}
use yarte.Parser.Syntax.{
  Ws, S, Partial, Node, Helper, Nodes, nil, cons, Branches, no_branch, branch, Else, no_else,
  else_block,
}
use yarte.Hir.Scope.{new}
use yarte.Hir.Rust.{Names, Rust, Input}
use yarte.Hir.Validator
use yarte.Hir.Generator.{
  Hirs, Generator, Writable, skip_ws, flush_ws, prepare_ws, handle_ws, visit_lit, push_w,
}
use yarte.Hir.Constants.{const_eval, eval_iter, eval_bool}
use yarte.Hir.Chain.{Chain, write_chain, finish_if}
use yarte.Hir.Blocks.{
  State, push_names, pop_names, visit_expr, scoped, read_attributes, report, visit_with,
  visit_unless, each_by, push_local,
}
use yarte.Hir.Conditions.{first_by, take_branch, take_else}

module _ {Expr Local : Type 0} (rust : Rust Expr Local) (input : Input Expr Local) where
  -- The text of a constant, if it has one, or else the expression, to be written at run time.
  abbrev pub or_expr :
      Option (Generator Expr) → Bool → S Expr → Expr → Generator Expr → Generator Expr
  or_expr (some g') wrapped sexpr e g = g'
  or_expr none wrapped sexpr e g =
      push_w (report g (Validator.expression rust sexpr)) (Writable.expr e wrapped)

  -- An expression that is written, `wrapped` where it is safe.
  unfoldable pub visit_written : Bool → Ws → S Expr → Generator Expr → Result (Generator Expr)
  visit_written wrapped ws sexpr g = do
    (g, e) ← visit_expr rust (handle_ws g ws) sexpr.t
    _ ← if wrapped then read_attributes (rust.has_attributes e) else ok tt
    ok (or_expr (const_eval rust input.text_mode g e wrapped) wrapped sexpr e g)

  -- `visit_expr_mut` of the arguments of a partial, in the order of their names.
  unfoldable pub visit_args :
      List (Str × Expr) → Generator Expr → Result (Generator Expr × List (Str × Expr))
  visit_args [] g = ok (g, [])
  visit_args ((k, e) ∷ args) g = do
    (g, e) ← visit_expr rust g e
    (g, args) ← visit_args args g
    ok (g, (k, e) ∷ args)

  abbrev pub with_partial : Generator Expr → List (Str × Expr) → ℕ → Generator Expr
  with_partial g cur level = record g { names = record g.names { partial = some (cur, level) } }

  -- The nodes of a partial in the scope that its arguments make.
  unfoldable pub in_scope :
      (State Expr Local → Result (State Expr Local))
      → List (Str × Expr)
      → Option Expr
      → State Expr Local
      → Result (State Expr Local)
  in_scope block cur (some scope) (g, buf) = do
    (g, scope) ← visit_expr rust g scope
    let parent = g.names
    let inner : Names Expr = record {
      scp = new scope g.names.scp.count;
      on = [];
      partial = some (cur, 0);
    }
    (g, buf) ← block (record g { names = inner }, buf)
    ok (
      record g { names = record parent { scp = record parent.scp { count = g.names.scp.count } } },
      buf,
    )
  in_scope block cur none (g, buf) = do
    let last = g.names.partial
    (g, buf) ← scoped rust block [] (with_partial g cur (length g.names.on), buf)
    ok (record g { names = record g.names { partial = last } }, buf)

  unfoldable pub partial_args :
      (State Expr Local → Result (State Expr Local))
      → List Expr
      → State Expr Local
      → Result (State Expr Local)
  unfolding visit_args in_scope
  partial_args block [] s = scoped rust block [] s
  partial_args block (e ∷ es) (g, buf) = do
    (no_visited, scope) ← input.visit_partial (e ∷ es)
    (g, cur) ← visit_args no_visited g
    in_scope block cur scope (g, buf)

  -- `visit_partial` at the file `path`, whose nodes are looked up; `deeper` is `handle` at them.
  unfoldable pub partial_at :
      (Nodes Expr Local → State Expr Local → Result (State Expr Local))
      → Partial Expr
      → Str
      → Option (Nodes Expr Local)
      → State Expr Local
      → Result (State Expr Local)
  unfolding partial_args
  partial_at deeper p path none s = panic
  partial_at deeper p path (some nodes) (g, buf) = do
    let parent = g.on_path
    (g, buf) ←
        partial_args (deeper nodes) p.args.t (flush_ws (record g { on_path = path }) p.ws, buf)
    ok (record (prepare_ws g p.ws) { on_path = parent }, buf)

  unfoldable pub visit_partial :
      (Nodes Expr Local → State Expr Local → Result (State Expr Local))
      → Partial Expr
      → State Expr Local
      → Result (State Expr Local)
  unfolding partial_at
  visit_partial deeper p (g, buf) =
      let path = input.resolve_partial g.on_path p.path.t in
      partial_at deeper p path (input.ctx path) (g, buf)

  module _ (deeper : Nodes Expr Local → State Expr Local → Result (State Expr Local)) where
    unfoldable mutual
      pub handle_with : Nodes Expr Local → State Expr Local → Result (State Expr Local)
      handle_with nil s = ok s
      handle_with (cons n _ ns) s = visit_node n s >>= handle_with ns

      -- The body of the loop in `handle`.
      pub visit_node : Node Expr Local → State Expr Local → Result (State Expr Local)
      visit_node (Node.local e) s = push_local rust e.t s
      visit_node (Node.safe ws e) (g, buf) = do g ← visit_written true ws e g; ok (g, buf)
      visit_node (Node.expr ws e) (g, buf) = do g ← visit_written false ws e g; ok (g, buf)
      visit_node (Node.lit l s r) (g, buf) = ok (visit_lit g l s.t r, buf)
      visit_node (Node.helper h) s = visit_helper h s
      visit_node (Node.partial p) s = visit_partial deeper p s
      visit_node (Node.comment _) (g, buf) = ok (skip_ws g, buf)
      visit_node (Node.raw ws0 ws1 l s r) (g, buf) =
          ok (handle_ws (visit_lit (handle_ws g ws0) l s.t r) ws1, buf)

      pub visit_helper : Helper Expr Local → State Expr Local → Result (State Expr Local)
      visit_helper (Helper.each ws0 ws1 e b) (g, buf) = do
        loop_var ← input.find_loop_var g.on_path b
        (g, args) ← visit_expr rust g e.t
        each_by rust (handle_with b) ws0 ws1 e args loop_var (eval_iter rust args) (g, buf)
      visit_helper (Helper.if_else ws0 ws1 e b ifs els) (g, buf) = do
        (g, cond) ← visit_expr rust (push_names g []) e.t
        c ← first_by rust (handle_with b) e cond (eval_bool rust cond) (handle_ws g ws0, buf)
        g ← pop_names c.g
        c ← visit_ifs ifs (record c { g = g })
        (c, e) ← visit_els els c
        ok (finish_if (record c { g = handle_ws c.g ws1 }) e)
      visit_helper (Helper.with_scope ws0 ws1 e b) s = visit_with rust (handle_with b) ws0 ws1 e s
      visit_helper (Helper.unless ws0 ws1 e b) s = visit_unless rust (handle_with b) ws0 ws1 e s
      visit_helper (Helper.defined _ _ _ _ _) s = panic

      -- The loop over the further conditions in `visit_if`.
      pub visit_ifs : Branches Expr Local → Chain Expr Local → Result (Chain Expr Local)
      visit_ifs no_branch c = ok c
      visit_ifs (branch ws e b no_branch) c =
          let c = write_chain (record c { g = handle_ws c.g ws }) in
          if c.last then ok c else take_branch rust (handle_with b) e true c
      visit_ifs (branch ws e b (branch ws' e' b' rest)) c =
          let c = write_chain (record c { g = handle_ws c.g ws }) in
          let next =
            take_branch rust (handle_with b) e false c >>= visit_ifs (branch ws' e' b' rest) in
          if c.last then ok c else next

      pub visit_els :
          Else Expr Local → Chain Expr Local → Result (Chain Expr Local × Option (Hirs Expr Local))
      visit_els no_else c = ok (c, none)
      visit_els (else_block ws b) c = take_else rust (handle_with b) ws c

  -- `handle`.
  unfoldable pub handle : ℕ → Nodes Expr Local → State Expr Local → Result (State Expr Local)
  unfolding handle_with
  handle zero nodes s = handle_with (λ _ _. out_of_fuel) nodes s
  handle (suc f) nodes s = handle_with (handle f) nodes s

  -- `Generator::new`.
  unfoldable pub start : Str → Generator Expr
  start path = record {
    names = record { scp = new (rust.ident (codes "self")) 0; on = []; partial = none };
    buf_w = [];
    errors = [];
    on_path = path;
    next_ws = none;
    skip_ws = false;
  }
