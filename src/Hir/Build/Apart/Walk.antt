-- ===== src/Hir/Build/Apart/Walk.antt =====
-- The walk over the nodes keeps the buffer closed.
use yarte.Base.{ℕ, zero, suc, true, false, List, [], ◌∷◌, Option, none, some, Str, ◌≡◌, refl}
use yarte.Parser.Result.{Result, ok, out_of_fuel}
use yarte.Parser.Syntax.{
  Partial, Node, Helper, Nodes, nil, cons, Branches, no_branch, branch, Else, no_else, else_block,
}
use yarte.Hir.Rust.{Rust, Input}
use yarte.Hir.Generator.{Hirs, Generator, handle_ws, write_buf_writable}
use yarte.Hir.Constants.{eval_bool, eval_iter}
use yarte.Hir.Chain.{Chain, write_chain}
use yarte.Hir.Blocks.{State, visit_expr, push_names, pop_names}
use yarte.Hir.Lower.{
  visit_written, visit_args, in_scope, partial_args, partial_at, visit_partial, handle_with,
  visit_node, visit_helper, visit_ifs, visit_els, handle, start,
}
use yarte.Hir.Build.{apart, or_empty, result, build}
use yarte.Hir.Build.Apart.Buffer.{nil-Closed, written-apart, or_empty-apart}
use yarte.Hir.Build.Apart.Helpers.{
  Keeps, ClosedChain, write_chain-Held, finish_if-Closed, scoped-Keeps, each_by-Keeps,
  push_local-Keeps, visit_with-Keeps, visit_unless-Keeps, first_by-Held, take_branch-Held,
  take_else-Held,
}
use yarte.Hir.Yields.{
  Yields, yields, panicked, starved, Yields-bind, Yields-then, Yields-if, Yields-ok,
}

module _ {Expr Local : Type 0} (rust : Rust Expr Local) (input : Input Expr Local) where
  in_scope-Keeps :
      (block : State Expr Local → Result (State Expr Local)) (cur : List (Str × Expr))
      (o : Option Expr)
      → Keeps block
      → Keeps (in_scope rust input block cur o)
  unfolding in_scope
  in_scope-Keeps block cur (some scope) keeps (g, buf) c =
      Yields-then (visit_expr rust g scope) λ r. Yields-bind (keeps (_, buf) c) λ s d. yields d
  in_scope-Keeps block cur none keeps (g, buf) c =
      Yields-bind (scoped-Keeps rust block keeps [] (_, buf) c) λ s d. yields d

  partial_args-Keeps :
      (block : State Expr Local → Result (State Expr Local)) (args : List Expr)
      → Keeps block
      → Keeps (partial_args rust input block args)
  unfolding partial_args
  partial_args-Keeps block [] keeps s c = scoped-Keeps rust block keeps [] s c
  partial_args-Keeps block (e ∷ es) keeps (g, buf) c =
      Yields-then (input.visit_partial (e ∷ es)) λ (r : List (Str × Expr) × Option Expr).
        Yields-then (visit_args rust input r.0 g) λ (q : Generator Expr × List (Str × Expr)).
          in_scope-Keeps block q.1 r.1 keeps (q.0, buf) c

  partial_at-Keeps :
      (deeper : Nodes Expr Local → State Expr Local → Result (State Expr Local)) (p : Partial Expr)
      (path : Str) (o : Option (Nodes Expr Local))
      → ((nodes : Nodes Expr Local) → Keeps (deeper nodes))
      → Keeps (partial_at rust input deeper p path o)
  unfolding partial_at
  partial_at-Keeps deeper p path none keeps s c = panicked
  partial_at-Keeps deeper p path (some nodes) keeps (g, buf) c =
      Yields-bind (partial_args-Keeps (deeper nodes) p.args.t (keeps nodes) (_, buf) c)
        λ s d. yields d

  visit_partial-Keeps :
      (deeper : Nodes Expr Local → State Expr Local → Result (State Expr Local)) (p : Partial Expr)
      → ((nodes : Nodes Expr Local) → Keeps (deeper nodes))
      → Keeps (visit_partial rust input deeper p)
  unfolding visit_partial
  visit_partial-Keeps deeper p keeps (g, buf) c = partial_at-Keeps deeper p _ _ keeps (g, buf) c

  module _ (deeper : Nodes Expr Local → State Expr Local → Result (State Expr Local))
      (deep : (nodes : Nodes Expr Local) → Keeps (deeper nodes)) where
    mutual
      unfolding handle_with visit_node visit_helper visit_ifs visit_els

      handle_with-Keeps : (ns : Nodes Expr Local) → Keeps (handle_with rust input deeper ns)
      handle_with-Keeps nil s c = yields c
      handle_with-Keeps (cons n _ ns) s c =
          Yields-bind (visit_node-Keeps n s c) λ s' d. handle_with-Keeps ns s' d

      visit_node-Keeps : (n : Node Expr Local) → Keeps (visit_node rust input deeper n)
      visit_node-Keeps (Node.local e) s c =
          push_local-Keeps rust (λ s. ok s) (λ s c. yields c) e.t s c
      visit_node-Keeps (Node.safe ws e) (g, buf) c =
          Yields-then (visit_written rust input true ws e g) λ g'. yields c
      visit_node-Keeps (Node.expr ws e) (g, buf) c =
          Yields-then (visit_written rust input false ws e g) λ g'. yields c
      visit_node-Keeps (Node.lit l s r) s' c = yields c
      visit_node-Keeps (Node.helper h) s c = visit_helper-Keeps h s c
      visit_node-Keeps (Node.partial p) s c = visit_partial-Keeps deeper p deep s c
      visit_node-Keeps (Node.comment _) s c = yields c
      visit_node-Keeps (Node.raw ws0 ws1 l s r) s' c = yields c

      visit_helper-Keeps : (h : Helper Expr Local) → Keeps (visit_helper rust input deeper h)
      visit_helper-Keeps (Helper.each ws0 ws1 e b) (g, buf) c =
          Yields-then (input.find_loop_var g.on_path b) λ loop_var.
            Yields-then (visit_expr rust g e.t) λ (r : Generator Expr × Expr).
              each_by-Keeps rust (handle_with rust input deeper b) (handle_with-Keeps b) ws0 ws1 e
                r.1 loop_var (eval_iter rust r.1) (r.0, buf) c
      visit_helper-Keeps (Helper.if_else ws0 ws1 e b ifs els) (g, buf) c =
          Yields-then (visit_expr rust (push_names g []) e.t) λ (r : Generator Expr × Expr).
            Yields-bind
              (first_by-Held rust (handle_with rust input deeper b) (handle_with-Keeps b) e r.1
                (eval_bool rust r.1) (handle_ws r.0 ws0, buf) c)
              λ k d. Yields-then (pop_names k.g) λ g'.
                Yields-bind (visit_ifs-Held ifs (record k { g = g' }) d) λ k d.
                  Yields-bind (visit_els-Held els k d)
                    λ q d. yields (finish_if-Closed (record q.0 { g = handle_ws q.0.g ws1 }) q.1 d)
      visit_helper-Keeps (Helper.with_scope ws0 ws1 e b) s c =
          visit_with-Keeps rust (handle_with rust input deeper b) (handle_with-Keeps b) ws0 ws1 e s
            c
      visit_helper-Keeps (Helper.unless ws0 ws1 e b) s c =
          visit_unless-Keeps rust (handle_with rust input deeper b) (handle_with-Keeps b) ws0 ws1 e
            s c
      visit_helper-Keeps (Helper.defined _ _ _ _ _) s c = panicked

      visit_ifs-Held :
          (ifs : Branches Expr Local) (c : Chain Expr Local)
          → ClosedChain c
          → Yields ClosedChain (visit_ifs rust input deeper ifs c)
      visit_ifs-Held no_branch c h = yields h
      visit_ifs-Held (branch ws e b no_branch) c h =
          let c' = write_chain (record c { g = handle_ws c.g ws }) in
          let h' = write_chain-Held (record c { g = handle_ws c.g ws }) h in
          Yields-if c'.last (yields h') (
            take_branch-Held rust (handle_with rust input deeper b) (handle_with-Keeps b) e true c'
              h')
      visit_ifs-Held (branch ws e b (branch ws' e' b' rest)) c h =
          let c' = write_chain (record c { g = handle_ws c.g ws }) in
          let h' = write_chain-Held (record c { g = handle_ws c.g ws }) h in
          Yields-if c'.last (yields h') (
            Yields-bind
              (take_branch-Held rust (handle_with rust input deeper b) (handle_with-Keeps b) e false
                c' h')
              λ k d. visit_ifs-Held (branch ws' e' b' rest) k d)

      visit_els-Held :
          (e : Else Expr Local) (c : Chain Expr Local)
          → ClosedChain c
          → Yields (λ r. ClosedChain r.0) (visit_els rust input deeper e c)
      visit_els-Held no_else c h = yields h
      visit_els-Held (else_block ws b) c h =
          take_else-Held rust (handle_with rust input deeper b) (handle_with-Keeps b) ws c h

  handle-Keeps : (f : ℕ) (ns : Nodes Expr Local) → Keeps (handle rust input f ns)
  unfolding handle
  handle-Keeps zero ns = handle_with-Keeps (λ _ _. out_of_fuel) (λ _ _ _. starved) ns
  handle-Keeps (suc f) ns = handle_with-Keeps (handle rust input f) (handle-Keeps f) ns

  -- The assertion at the end of `build` never fails: where the walk returns, no two literals stand
  -- side by side at the top of the form, and `build` returns it, or the errors if there are any.
  pub build-apart :
      (f : ℕ) (path : Str) (nodes : Nodes Expr Local) (g : Generator Expr) (buf : Hirs Expr Local)
      → handle rust input f nodes (start rust input path, Hirs.nil) ≡ ok (g, buf)
      → (apart (or_empty (write_buf_writable g buf).1) ≡ true)
        × (build rust input f path nodes
            ≡ ok (result g.errors (or_empty (write_buf_writable g buf).1)))
  unfolding build write_buf_writable
  build-apart f path nodes g buf e =
      let c = Yields-ok (handle-Keeps f nodes (start rust input path, Hirs.nil) nil-Closed) e in
      let a = or_empty-apart (write_buf_writable g buf).1 (written-apart [] g.buf_w buf c) in
      (a, rw (e, a) refl)
