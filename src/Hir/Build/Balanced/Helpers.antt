-- ===== src/Hir/Build/Balanced/Helpers.antt =====
-- The helpers keep the scopes if the walk over their blocks does.
use yarte.Base.{
  Bool, true, false, List, [], ◌∷◌, Option, none, some, Str, refl, arith, append_assoc,
}
use yarte.Parser.Result.{Result}
use yarte.Parser.Syntax.{Ws, S}
use yarte.Hir.Scope.{len, push_scope, push_ident}
use yarte.Hir.Rust.{Rust, Value, On, Names}
use yarte.Hir.Generator.{Generator, Hirs, flush_ws, prepare_ws, handle_ws, write_buf_writable}
use yarte.Hir.Constants.{eval_bool, rounds}
use yarte.Hir.Chain.{Chain, write_chain}
use yarte.Hir.Blocks.{
  State, visit_expr, scoped, push_names, pop_on, declare, const_rounds, const_iter, each_loop,
  visit_with, unless_by, visit_unless, each_by, push_local,
}
use yarte.Hir.Conditions.{first_by, branch_true, branch_by, take_branch, else_by, take_else}
use yarte.Hir.Extends.{Extends, Extends-then}
use yarte.Hir.Yields.{Yields, yields, Yields-bind, Yields-then, Yields-if}
use yarte.Hir.Build.Balanced.At.{
  KeepsScopes, At, Keeps, At-self, pop_names-At, pop_on-At, write_chain-At, add_block-At,
}

module _ {Expr Local : Type 0} where
  module _ (rust : Rust Expr Local) (law : KeepsScopes rust) where
    pub visit_expr-At :
        (m : Names Expr) (path : Str) (g : Generator Expr) (e : Expr)
        → At m path g
        → Yields (λ r. At m path r.0) (visit_expr rust g e)
    visit_expr-At m path g e a =
        Yields-bind (law.exprs g.names e)
          λ r h. yields (record { names = Extends-then a.names h; path_is = a.path_is })

    pub push_local-At : (e : Local) → Keeps (push_local rust e)
    unfolding push_local write_buf_writable
    push_local-At e m path (g, buf) a =
        Yields-bind (law.locals g.names e)
          λ r h. yields (record { names = Extends-then a.names h; path_is = a.path_is })

    module _ (block : State Expr Local → Result (State Expr Local)) (keeps : Keeps block) where
      pub scoped-At : (t : List Expr) → Keeps (scoped rust block t)
      scoped-At t m path (g, buf) a =
          Yields-bind (keeps _ path (push_names g t, buf) (At-self path (push_names g t) a.path_is))
            λ s h. Yields-bind (pop_names-At m path g.names t s.0 a.names h) λ g' k. yields k

      const_rounds-At :
          (ws0 ws1 : Ws) (ts : List (List Expr)) → Keeps (const_rounds rust block ws0 ws1 ts)
      unfolding const_rounds flush_ws
      const_rounds-At ws0 ws1 [] m path s a = yields a
      const_rounds-At ws0 ws1 (t ∷ ts) m path (g, buf) a =
          Yields-bind
            (scoped-At t m path (prepare_ws g ws0, buf)
              (record { names = a.names; path_is = a.path_is }))
            λ s h.
              const_rounds-At ws0 ws1 ts m path (flush_ws s.0 ws1, s.1)
                (record { names = h.names; path_is = h.path_is })

      pub const_iter-At :
          (ws0 ws1 : Ws) (ts : List (List Expr)) → Keeps (const_iter rust block ws0 ws1 ts)
      unfolding const_iter flush_ws
      const_iter-At ws0 ws1 ts m path (g, buf) a =
          Yields-bind (const_rounds-At ws0 ws1 ts _ path (_, buf) (At-self path _ a.path_is)) λ s h.
            let k = pop_on-At g.names path _ s.0 h in
            yields (record { names = Extends-then a.names k.names; path_is = k.path_is })

      declare-Extends :
          (loop_var : Bool) (n : Names Expr)
          → Extends n (record n { scp = (declare rust n.scp loop_var).0 })
      unfolding push_ident
      declare-Extends true n = record {
        on_is = refl;
        partial_is = refl;
        scp_extends = record {
          level_is = refl;
          added = _;
          scope_is = append_assoc n.scp.scope _ _;
          count_le = omega arith;
        };
      }
      declare-Extends false n = record {
        on_is = refl;
        partial_is = refl;
        scp_extends = record {
          level_is = refl;
          added = _;
          scope_is = refl;
          count_le = omega arith;
        };
      }

      -- The names in the block of a loop, in front of its variables.
      abbrev in_loop : Names Expr → Names Expr
      in_loop n = record n { scp = push_scope n.scp []; on = On.each (len n.scp) ∷ n.on }

      pub each_loop-At :
          (ws0 ws1 : Ws) (sargs : S Expr) (args : Expr) (loop_var : Bool)
          → Keeps (each_loop rust block ws0 ws1 sargs args loop_var)
      unfolding each_loop handle_ws write_buf_writable
      each_loop-At ws0 ws1 sargs args loop_var m path (g, buf) a =
          Yields-bind (keeps _ path (_, Hirs.nil) (At-self path _ a.path_is)) λ s h.
            let left = (write_buf_writable (handle_ws s.0 ws1) s.1).0 in
            Yields-bind
              (pop_names-At m path g.names [] (pop_on left) a.names (
                pop_on-At (record g.names { scp = push_scope g.names.scp [] }) path
                  (On.each (len g.names.scp)) left
                  (record {
                    names = Extends-then (declare-Extends loop_var (in_loop g.names)) h.names;
                    path_is = h.path_is;
                  })))
              λ g' l. yields (record { names = l.names; path_is = l.path_is })

      pub each_by-At :
          (ws0 ws1 : Ws) (sargs : S Expr) (args : Expr) (loop_var : Bool) (o : Option (List Value))
          → Keeps (each_by rust block ws0 ws1 sargs args loop_var o)
      unfolding each_by
      each_by-At ws0 ws1 sargs args loop_var none m path s a =
          each_loop-At ws0 ws1 sargs args loop_var m path s a
      each_by-At ws0 ws1 sargs args loop_var (some vs) m path s a =
          Yields-then (rounds rust loop_var 0 vs) λ ts. const_iter-At ws0 ws1 ts m path s a

      pub visit_with-At :
          (ws0 ws1 : Ws) (sargs : S Expr) → Keeps (visit_with rust block ws0 ws1 sargs)
      unfolding visit_with handle_ws
      visit_with-At ws0 ws1 sargs m path (g, buf) a =
          Yields-bind
            (visit_expr-At m path _ sargs.t (record { names = a.names; path_is = a.path_is }))
            λ r h. Yields-bind (keeps _ path (_, buf) (At-self path _ h.path_is)) λ s k.
              Yields-bind
                (pop_names-At m path r.0.names (r.1 ∷ []) (pop_on s.0) h.names
                  (pop_on-At _ path _ s.0 k))
                λ g' l. yields (record { names = l.names; path_is = l.path_is })

      unless_by-At :
          (ws1 : Ws) (scond : S Expr) (cond : Expr) (o : Option Bool)
          → Keeps (unless_by rust block ws1 scond cond o)
      unfolding unless_by handle_ws write_buf_writable
      unless_by-At ws1 scond cond (some true) m path s a = yields a
      unless_by-At ws1 scond cond (some false) m path s a =
          Yields-bind (scoped-At [] m path s a)
            λ s' h. yields (record { names = h.names; path_is = h.path_is })
      unless_by-At ws1 scond cond none m path (g, buf) a =
          Yields-bind
            (scoped-At [] m path (_, Hirs.nil) (record { names = a.names; path_is = a.path_is }))
            λ s' h. yields (record { names = h.names; path_is = h.path_is })

      pub visit_unless-At :
          (ws0 ws1 : Ws) (scond : S Expr) → Keeps (visit_unless rust block ws0 ws1 scond)
      unfolding visit_unless handle_ws
      visit_unless-At ws0 ws1 scond m path (g, buf) a =
          Yields-bind
            (visit_expr-At m path _ scond.t (record { names = a.names; path_is = a.path_is }))
            λ r h. unless_by-At ws1 scond r.1 (eval_bool rust r.1) m path (r.0, buf) h

      pub first_by-At :
          (scond : S Expr) (cond : Expr) (o : Option Bool) (m : Names Expr) (path : Str)
          (s : State Expr Local)
          → At m path s.0
          → Yields (λ (c : Chain Expr Local). At m path c.g) (first_by rust block scond cond o s)
      unfolding first_by write_buf_writable
      first_by-At scond cond (some true) m path s a =
          Yields-bind (keeps m path s a) λ s' h. yields h
      first_by-At scond cond (some false) m path s a = yields a
      first_by-At scond cond none m path (g, buf) a =
          Yields-bind (keeps m path (_, Hirs.nil) (record { names = a.names; path_is = a.path_is }))
            λ s' h. yields h

      branch_true-At :
          (l : Bool) (o : Option (Expr × Hirs Expr Local)) (m : Names Expr) (path : Str)
          (c : Chain Expr Local)
          → At m path c.g
          → Yields (λ (k : Chain Expr Local). At m path k.g) (branch_true rust block l o c)
      unfolding branch_true
      branch_true-At l none m path c a = Yields-bind (keeps m path (c.g, c.buf) a) λ s h. yields h
      branch_true-At l (some p) m path c a =
          Yields-bind (keeps m path (c.g, Hirs.nil) a) λ s h. yields h

      branch_by-At :
          (scond : S Expr) (cond : Expr) (l : Bool) (v : Option Bool) (m : Names Expr) (path : Str)
          (c : Chain Expr Local)
          → At m path c.g
          → Yields (λ (k : Chain Expr Local). At m path k.g) (branch_by rust block scond cond l v c)
      unfolding branch_by
      branch_by-At scond cond l (some false) m path c a = yields a
      branch_by-At scond cond l (some true) m path c a = branch_true-At l c.o_ifs m path c a
      branch_by-At scond cond l none m path c a =
          Yields-bind (keeps m path (_, Hirs.nil) (record { names = a.names; path_is = a.path_is }))
            λ s h. yields (add_block-At m path cond s.1 c.o_ifs (record c { g = s.0 }) h)

      pub take_branch-At :
          (scond : S Expr) (l : Bool) (m : Names Expr) (path : Str) (c : Chain Expr Local)
          → At m path c.g
          → Yields (λ (k : Chain Expr Local). At m path k.g) (take_branch rust block scond l c)
      unfolding take_branch
      take_branch-At scond l m path c a =
          Yields-bind (visit_expr-At _ path (push_names c.g []) scond.t (At-self path _ a.path_is))
            λ r h.
              Yields-bind
                (branch_by-At scond r.1 l (eval_bool rust r.1) _ path (record c { g = r.0 }) h)
                λ k i. Yields-bind (pop_names-At m path c.g.names [] k.g a.names i) λ g j. yields j

      else_by-At :
          (b : Option (Hirs Expr Local)) (o : Option (Expr × Hirs Expr Local)) (m : Names Expr)
          (path : Str) (c : Chain Expr Local)
          → At m path c.g
          → Yields (λ r. At m path (r.0).g) (else_by rust block b o c)
      unfolding else_by
      else_by-At (some body) o m path c a = yields a
      else_by-At none (some p) m path c a =
          Yields-bind (scoped-At [] m path (c.g, Hirs.nil) a) λ s h. yields h
      else_by-At none none m path c a =
          Yields-bind (scoped-At [] m path (c.g, c.buf) a) λ s h. yields h

      pub take_else-At :
          (ws : Ws) (m : Names Expr) (path : Str) (c : Chain Expr Local)
          → At m path c.g
          → Yields (λ r. At m path (r.0).g) (take_else rust block ws c)
      unfolding take_else handle_ws
      take_else-At ws m path c a =
          let c' = write_chain (record c { g = handle_ws c.g ws }) in
          Yields-if c.last (yields a) (
            else_by-At c'.o_els c'.o_ifs m path c' (
              write_chain-At m path (record c { g = handle_ws c.g ws })
                (record { names = a.names; path_is = a.path_is })))
