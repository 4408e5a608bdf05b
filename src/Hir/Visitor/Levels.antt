-- ===== src/Hir/Visitor/Levels.antt =====
-- The visitor keeps the scopes: it only declares names in the innermost one.
use yarte.Base.{true, false, List, [], Str, ◌≡◌, refl, arith}
use yarte.Parser.Result.{ok}
use yarte.Hir.Scope.{pop, push_ident}
use yarte.Hir.Rust.{Names}
use yarte.Hir.Resolve.{Quote, resolve_path}
use yarte.Hir.Yields.{Yields, Yields-ok, yields, panicked, Yields-bind, Yields-then}
use yarte.Hir.Extends.{
  Extends, Extends-self, Extends-then, Extends-extend, pops-extended, Extends-restored,
}
use yarte.Hir.Visitor.{
  Syntax, path, assign, assign_op, call, closure, for_loop, if_expr, let_expr, arm, block, local,
  pat_ident, refused, node, Parts, nil, cons, pushed, popped, popped_all, expected, found, declared,
  visit, visit_all,
}

-- Names as they were in front of a push, with what else is yielded.
abbrev After : {A : Type 0} → Names Syntax → Names Syntax × A → Type 0
After m r = Extends m r.0

pops_all-After :
    (m n : Names Syntax) (xs : List Syntax)
    → Extends (pushed m xs) n
    → Yields (After m) (popped_all n)
unfolding popped_all
pops_all-After m n xs h =
    rw ((pops-extended m.scp n.scp xs h.scp_extends).1) (yields (Extends-restored m n xs h))

popped-After :
    (m n : Names Syntax) (xs : List Syntax)
    → Extends (pushed m xs) n
    → Yields (Extends m) (popped n)
unfolding popped pop
popped-After m n xs h =
    rw ((pops-extended m.scp n.scp xs h.scp_extends).1) (yields (Extends-restored m n xs h))

module _ (quote : Quote Syntax) (ident : Str → Syntax) where
  declared-After : (m : Names Syntax) (s : Str) → Extends m (declared quote ident m s).0
  unfolding declared push_ident
  declared-After m s = record {
    on_is = refl;
    partial_is = refl;
    scp_extends = record { level_is = refl; added = _; scope_is = refl; count_le = omega arith };
  }

  mutual
    unfolding visit visit_all

    pub visit-After : (m : Names Syntax) (t : Syntax) → Yields (After m) (visit quote ident m t)
    visit-After m (path p) =
        Yields-then (resolve_path quote m p)
          λ o. Yields-then (expected o) λ e. yields (Extends-self m)
    visit-After m (assign left right) =
        Yields-then (expected (found quote ident m left))
          λ l. Yields-bind (visit-After m right) λ r h. yields h
    visit-After m (assign_op op left right) =
        Yields-then (expected (found quote ident m left))
          λ l. Yields-bind (visit-After m right) λ r h. yields h
    visit-After m (call func args) = Yields-bind (visit_all-After m args) λ r h. yields h
    visit-After m (closure true inputs body) = panicked
    visit-After m (closure false inputs body) =
        Yields-bind (visit_all-After (pushed m []) inputs) λ r h.
          Yields-bind (visit-After r.0 body)
            λ q k. Yields-bind (popped-After m q.0 [] (Extends-then h k)) λ n l. yields l
    visit-After m (for_loop pat e body) = Yields-bind (visit-After (pushed m []) pat) λ r h.
        Yields-bind (pops_all-After m r.0 [] h) λ q k. Yields-bind (visit-After q.0 e) λ s l.
          Yields-bind (visit-After (pushed s.0 q.1) body) λ u o.
            Yields-bind (popped-After s.0 u.0 q.1 o)
              λ n w. yields (Extends-then k (Extends-then l w))
    visit-After m (if_expr cond then_branch else_branch) =
        Yields-bind (visit-After (pushed m []) cond) λ r h.
          Yields-bind (visit-After r.0 then_branch) λ q k.
            Yields-bind (popped-After m q.0 [] (Extends-then h k))
              λ n l. Yields-bind (visit_all-After n else_branch) λ s o. yields (Extends-then l o)
    visit-After m (let_expr pat e) = Yields-bind (visit-After (pushed m []) pat) λ r h.
        Yields-bind (pops_all-After m r.0 [] h) λ q k.
          Yields-bind (visit-After q.0 e)
            λ s l. yields (Extends-then k (Extends-then l (Extends-extend s.0 q.1)))
    visit-After m (arm pat guard body) = Yields-bind (visit-After (pushed m []) pat) λ r h.
        Yields-bind (visit_all-After r.0 guard) λ q k. Yields-bind (visit-After q.0 body) λ s l.
          Yields-bind (popped-After m s.0 [] (Extends-then h (Extends-then k l))) λ n o. yields o
    visit-After m (block stmts) =
        Yields-bind (visit_all-After (pushed m []) stmts)
          λ r h. Yields-bind (popped-After m r.0 [] h) λ n k. yields k
    visit-After m (local pat init) = Yields-bind (visit-After (pushed m []) pat) λ r h.
        Yields-bind (pops_all-After m r.0 [] h) λ q k.
          Yields-bind (visit_all-After q.0 init)
            λ s l. yields (Extends-then k (Extends-then l (Extends-extend s.0 q.1)))
    visit-After m (pat_ident s true) = panicked
    visit-After m (pat_ident s false) = yields (declared-After m s)
    visit-After m refused = panicked
    visit-After m (node kind parts) = Yields-bind (visit_all-After m parts) λ r h. yields h

    visit_all-After :
        (m : Names Syntax) (ts : Parts) → Yields (After m) (visit_all quote ident m ts)
    visit_all-After m nil = yields (Extends-self m)
    visit_all-After m (cons t ts) =
        Yields-bind (visit-After m t)
          λ r h. Yields-bind (visit_all-After r.0 ts) λ q k. yields (Extends-then h k)

  -- Where the visitor returns, it has only declared names in the innermost scope: the levels, the
  -- helpers that are entered and the arguments of the partial are as they were, what the vector of
  -- scopes held is still its beginning, and the count of names did not decrease.
  pub visit-Extends :
      (names : Names Syntax) (t : Syntax) (names' : Names Syntax) (t' : Syntax)
      → visit quote ident names t ≡ ok (names', t')
      → Extends names names'
  visit-Extends names t names' t' e = Yields-ok (visit-After names t) e
