-- ===== src/Hir/Build/Balanced/Walk.antt =====
-- The walk over the nodes keeps the scopes, the helpers that are entered and the file.
use yarte.Base.{
  ℕ, zero, suc, Bool, true, false, List, [], ◌∷◌, Option, none, some, Str, codes, length, ◌≡◌, refl,
  sym, ◌∙◌, subst, if◌then◌else◌,
}
use yarte.Parser.Result.{Result, ok, out_of_fuel}
use yarte.Parser.Cursor.{is_empty}
use yarte.Parser.Syntax.{
  Ws, S, Partial, Node, Helper, Nodes, nil, cons, Branches, no_branch, branch, Else, no_else,
  else_block,
}
use yarte.Hir.Scope.{root}
use yarte.Hir.Rust.{Rust, Input, Names}
use yarte.Hir.Generator.{Hirs, Generator, flush_ws, handle_ws, visit_lit, lit_left, lit_text}
use yarte.Hir.Constants.{const_eval, pushed, text_of, eval_bool, eval_iter}
use yarte.Hir.Chain.{Chain, write_chain}
use yarte.Hir.Blocks.{State, push_names}
use yarte.Hir.Lower.{
  or_expr, visit_written, visit_args, in_scope, partial_args, partial_at, visit_partial,
  handle_with, visit_node, visit_helper, visit_ifs, visit_els, handle, start, with_partial,
}
use yarte.Hir.Build.Balanced.At.{
  KeepsScopes, At, Keeps, At-self, pop_names-At, write_chain-At, finish_if-At,
}
use yarte.Hir.Build.Balanced.Helpers.{
  visit_expr-At, push_local-At, scoped-At, each_by-At, visit_with-At, visit_unless-At, first_by-At,
  take_branch-At, take_else-At,
}
use yarte.Hir.Extends.{counted-Extends, Extends, Extends-then}
use yarte.Hir.Yields.{
  Yields, yields, panicked, starved, Yields-bind, Yields-then, Yields-if, Yields-ok,
}

module _ {Expr : Type 0} (m : Names Expr) (path : Str) where
  At-if :
      (b : Bool) {g h : Generator Expr} → At m path g → At m path h → At m path (if b then g else h)
  At-if true a b = a
  At-if false a b = b

  -- A generator with the names and the file of another.
  kept-At :
      (g h : Generator Expr) → h.names ≡ g.names → h.on_path ≡ g.on_path → At m path g → At m path h
  kept-At g h e q a = record { names = subst (Extends m) (sym e) a.names; path_is = q ∙ a.path_is }

  lit_left-At :
      (g : Generator Expr) (lws text : Str) → At m path g → At m path (lit_left g lws text)
  lit_left-At g lws text a = At-if (is_empty lws) a (
      At-if g.skip_ws (kept-At g _ refl refl a)
        (At-if (is_empty text) (kept-At g _ refl refl a) (kept-At g _ refl refl a)))

  -- A literal declares no name.
  visit_lit-At :
      (g : Generator Expr) (lws text rws : Str) → At m path g → At m path (visit_lit g lws text rws)
  unfolding visit_lit
  visit_lit-At g lws text rws a =
      let b = lit_left-At g lws text a in
      let c : At m path (lit_text (lit_left g lws text) text) =
        At-if (is_empty text) b (kept-At (lit_left g lws text) _ refl refl b) in
      At-if (is_empty rws) c (kept-At (lit_text (lit_left g lws text) text) _ refl refl c)

module _ {Expr Local : Type 0} (rust : Rust Expr Local) (input : Input Expr Local)
    (law : KeepsScopes rust) where
  written-At :
      (o : Option Str) (wrapped : Bool) (sexpr : S Expr) (e : Expr) (m : Names Expr) (path : Str)
      (g : Generator Expr)
      → At m path g
      → At m path (or_expr rust input (pushed rust input.text_mode g o) wrapped sexpr e g)
  written-At none wrapped sexpr e m path g a = kept-At m path g _ refl refl a
  written-At (some s) wrapped sexpr e m path g a =
      At-if m path (is_empty s) a (kept-At m path g _ refl refl a)

  visit_written-At :
      (wrapped : Bool) (ws : Ws) (e : S Expr) (m : Names Expr) (path : Str) (g : Generator Expr)
      → At m path g
      → Yields (At m path) (visit_written rust input wrapped ws e g)
  unfolding visit_written const_eval handle_ws
  visit_written-At wrapped ws e m path g a =
      Yields-bind
        (visit_expr-At rust law m path (handle_ws g ws) e.t (kept-At m path g _ refl refl a))
        λ (r : Generator Expr × Expr) h. Yields-then _ λ _. yields (
          written-At (text_of rust input.text_mode (rust.eval r.1) wrapped) wrapped e r.1 m path r.0
            h)

  visit_args-At :
      (args : List (Str × Expr)) (m : Names Expr) (path : Str) (g : Generator Expr)
      → At m path g
      → Yields (λ r. At m path r.0) (visit_args rust input args g)
  unfolding visit_args
  visit_args-At [] m path g a = yields a
  visit_args-At ((k, e) ∷ args) m path g a =
      Yields-bind (visit_expr-At rust law m path g e a)
        λ r h. Yields-bind (visit_args-At args m path r.0 h) λ q k. yields k

  in_scope-At :
      (block : State Expr Local → Result (State Expr Local)) (cur : List (Str × Expr))
      (o : Option Expr)
      → Keeps block
      → Keeps (in_scope rust input block cur o)
  unfolding in_scope
  in_scope-At block cur (some scope) keeps m path (g, buf) a =
      Yields-bind (visit_expr-At rust law m path g scope a) λ r h.
        Yields-bind (keeps _ path (_, buf) (At-self path _ h.path_is)) λ s k. yields (record {
          names =
              Extends-then h.names
                (counted-Extends r.0.names s.0.names.scp.count k.names.scp_extends.count_le);
          path_is = k.path_is;
        })
  in_scope-At block cur none keeps m path (g, buf) a =
      Yields-bind
        (scoped-At rust law block keeps [] _ path
          (with_partial rust input g cur (length g.names.on), buf) (At-self path _ a.path_is))
        λ s h. yields (record {
          names = Extends-then a.names (record {
            on_is = h.names.on_is;
            partial_is = refl;
            scp_extends = h.names.scp_extends;
          });
          path_is = h.path_is;
        })

  partial_args-At :
      (block : State Expr Local → Result (State Expr Local)) (args : List Expr)
      → Keeps block
      → Keeps (partial_args rust input block args)
  unfolding partial_args
  partial_args-At block [] keeps m path s a = scoped-At rust law block keeps [] m path s a
  partial_args-At block (e ∷ es) keeps m path (g, buf) a =
      Yields-then (input.visit_partial (e ∷ es)) λ (r : List (Str × Expr) × Option Expr).
        Yields-bind (visit_args-At r.0 m path g a) λ (q : Generator Expr × List (Str × Expr)) h.
          in_scope-At block q.1 r.1 keeps m path (q.0, buf) h

  partial_at-At :
      (deeper : Nodes Expr Local → State Expr Local → Result (State Expr Local)) (p : Partial Expr)
      (file : Str) (o : Option (Nodes Expr Local))
      → ((nodes : Nodes Expr Local) → Keeps (deeper nodes))
      → Keeps (partial_at rust input deeper p file o)
  unfolding partial_at flush_ws
  partial_at-At deeper p file none keeps m path s a = panicked
  partial_at-At deeper p file (some nodes) keeps m path (g, buf) a =
      Yields-bind
        (partial_args-At (deeper nodes) p.args.t (keeps nodes) m file (_, buf)
          (record { names = a.names; path_is = refl }))
        λ s h. yields (record { names = h.names; path_is = a.path_is })

  visit_partial-At :
      (deeper : Nodes Expr Local → State Expr Local → Result (State Expr Local)) (p : Partial Expr)
      → ((nodes : Nodes Expr Local) → Keeps (deeper nodes))
      → Keeps (visit_partial rust input deeper p)
  unfolding visit_partial
  visit_partial-At deeper p keeps m path (g, buf) a =
      partial_at-At deeper p _ _ keeps m path (g, buf) a

  module _ (deeper : Nodes Expr Local → State Expr Local → Result (State Expr Local))
      (deep : (nodes : Nodes Expr Local) → Keeps (deeper nodes)) where
    mutual
      unfolding handle_with visit_node visit_helper visit_ifs visit_els handle_ws

      handle_with-At : (ns : Nodes Expr Local) → Keeps (handle_with rust input deeper ns)
      handle_with-At nil m path s a = yields a
      handle_with-At (cons n _ ns) m path s a =
          Yields-bind (visit_node-At n m path s a) λ s' b. handle_with-At ns m path s' b

      visit_node-At : (n : Node Expr Local) → Keeps (visit_node rust input deeper n)
      visit_node-At (Node.local e) m path s a = push_local-At rust law e.t m path s a
      visit_node-At (Node.safe ws e) m path (g, buf) a =
          Yields-bind (visit_written-At true ws e m path g a) λ g' b. yields b
      visit_node-At (Node.expr ws e) m path (g, buf) a =
          Yields-bind (visit_written-At false ws e m path g a) λ g' b. yields b
      visit_node-At (Node.lit l s r) m path (g, buf) a = yields (visit_lit-At m path g l s.t r a)
      visit_node-At (Node.helper h) m path s a = visit_helper-At h m path s a
      visit_node-At (Node.partial p) m path s a = visit_partial-At deeper p deep m path s a
      visit_node-At (Node.comment _) m path (g, buf) a = yields (kept-At m path g _ refl refl a)
      visit_node-At (Node.raw ws0 ws1 l s r) m path (g, buf) a = yields (
          kept-At m path (visit_lit (handle_ws g ws0) l s.t r) _ refl refl
            (visit_lit-At m path (handle_ws g ws0) l s.t r (kept-At m path g _ refl refl a)))

      visit_helper-At : (h : Helper Expr Local) → Keeps (visit_helper rust input deeper h)
      visit_helper-At (Helper.each ws0 ws1 e b) m path (g, buf) a =
          Yields-then (input.find_loop_var g.on_path b) λ loop_var.
            Yields-bind (visit_expr-At rust law m path g e.t a) λ (r : Generator Expr × Expr) h.
              each_by-At rust law (handle_with rust input deeper b) (handle_with-At b) ws0 ws1 e r.1
                loop_var (eval_iter rust r.1) m path (r.0, buf) h
      visit_helper-At (Helper.if_else ws0 ws1 e b ifs els) m path (g, buf) a =
          Yields-bind
            (visit_expr-At rust law _ path (push_names g []) e.t (At-self path _ a.path_is))
            λ (r : Generator Expr × Expr) h.
              Yields-bind
                (first_by-At rust law (handle_with rust input deeper b) (handle_with-At b) e r.1
                  (eval_bool rust r.1) _ path (handle_ws r.0 ws0, buf)
                  (kept-At _ path r.0 _ refl refl h))
                λ c k. Yields-bind (pop_names-At m path g.names [] c.g a.names k) λ g' l.
                  Yields-bind (visit_ifs-At ifs m path (record c { g = g' }) l) λ c' o.
                    Yields-bind (visit_els-At els m path c' o) λ q w. yields (
                      finish_if-At m path (record q.0 { g = handle_ws q.0.g ws1 }) q.1
                        (kept-At m path q.0.g _ refl refl w))
      visit_helper-At (Helper.with_scope ws0 ws1 e b) m path s a =
          visit_with-At rust law (handle_with rust input deeper b) (handle_with-At b) ws0 ws1 e m
            path s a
      visit_helper-At (Helper.unless ws0 ws1 e b) m path s a =
          visit_unless-At rust law (handle_with rust input deeper b) (handle_with-At b) ws0 ws1 e m
            path s a
      visit_helper-At (Helper.defined _ _ _ _ _) m path s a = panicked

      visit_ifs-At :
          (ifs : Branches Expr Local) (m : Names Expr) (path : Str) (c : Chain Expr Local)
          → At m path c.g
          → Yields (λ (k : Chain Expr Local). At m path k.g) (visit_ifs rust input deeper ifs c)
      visit_ifs-At no_branch m path c a = yields a
      visit_ifs-At (branch ws e b no_branch) m path c a =
          let c' = write_chain (record c { g = handle_ws c.g ws }) in
          let a' =
            write_chain-At m path (record c { g = handle_ws c.g ws })
              (kept-At m path c.g _ refl refl a) in
          Yields-if c'.last (yields a') (
            take_branch-At rust law (handle_with rust input deeper b) (handle_with-At b) e true m
              path c' a')
      visit_ifs-At (branch ws e b (branch ws' e' b' rest)) m path c a =
          let c' = write_chain (record c { g = handle_ws c.g ws }) in
          let a' =
            write_chain-At m path (record c { g = handle_ws c.g ws })
              (kept-At m path c.g _ refl refl a) in
          Yields-if c'.last (yields a') (
            Yields-bind
              (take_branch-At rust law (handle_with rust input deeper b) (handle_with-At b) e false
                m path c' a')
              λ k d. visit_ifs-At (branch ws' e' b' rest) m path k d)

      visit_els-At :
          (e : Else Expr Local) (m : Names Expr) (path : Str) (c : Chain Expr Local)
          → At m path c.g
          → Yields (λ r. At m path (r.0).g) (visit_els rust input deeper e c)
      visit_els-At no_else m path c a = yields a
      visit_els-At (else_block ws b) m path c a =
          take_else-At rust law (handle_with rust input deeper b) (handle_with-At b) ws m path c a

  handle-At : (f : ℕ) (ns : Nodes Expr Local) → Keeps (handle rust input f ns)
  unfolding handle
  handle-At zero ns = handle_with-At (λ _ _. out_of_fuel) (λ _ _ _ _ _. starved) ns
  handle-At (suc f) ns = handle_with-At (handle rust input f) (handle-At f) ns

  -- Where the visitor of names only declares names in the innermost scope and the walk over a template
  -- returns, every scope that a helper pushed is popped, every helper that was entered is left, no
  -- partial's arguments stay, the file is that of the template, and the root is still the first of the
  -- scopes' vector.
  pub handle-balanced :
      (f : ℕ) (path : Str) (nodes : Nodes Expr Local) (g : Generator Expr) (buf : Hirs Expr Local)
      → handle rust input f nodes (start rust input path, Hirs.nil) ≡ ok (g, buf)
      → (g.names.scp.level ≡ [])
        × (g.names.on ≡ [])
        × (g.names.partial ≡ none)
        × (g.on_path ≡ path)
        × (root g.names.scp ≡ ok (rust.ident (codes "self")))
  unfolding start root
  handle-balanced f path nodes g buf e =
      let a =
        Yields-ok
          (handle-At f nodes (start rust input path).names path (start rust input path, Hirs.nil)
            (At-self path (start rust input path) refl))
          e in
      (
        a.names.scp_extends.level_is,
        a.names.on_is,
        a.names.partial_is,
        a.path_is,
        rw (a.names.scp_extends.scope_is) refl,
      )
