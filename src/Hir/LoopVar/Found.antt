-- ===== src/Hir/LoopVar/Found.antt =====
-- `find_loop_var` against the same search without its state and its early ends.
use yarte.Base.{
  ℕ, zero, suc, Bool, true, false, not, ◌&&◌, ◌||◌, List, [], ◌∷◌, Option, none, some, Str,
  if◌then◌else◌, ◌≡◌, refl, ap, ◌∙◌, subst,
}
use yarte.Parser.Result.{Result, ok, out_of_fuel, ◌>>=◌}
use yarte.Parser.Syntax.{
  Node, Helper, Nodes, nil, cons, Branches, no_branch, branch, Else, no_else, else_block,
}
use yarte.Hir.LoopVar.{
  Reader, visit_expr, visit_exprs, has_scope, assigned, find_partial, go_on, unless_found,
  find_with, find_node, find_helper, find_branches, find_else, find, find_loop_var,
}
use yarte.Hir.LoopVar.Mentions.{
  any_var, any_of, partial_mentions, leaves, mentions_with, node_mentions, helper_mentions,
  branches_mention, else_mentions, mentions, Held, held, Refused, NodesReadable, NodeReadable,
  HelperReadable, BranchesReadable, ElseReadable, Readable, HasNames,
}
use yarte.Hir.Yields.{Gives, gives, Gives-bind, Gives-ok}
use yarte.Hir.LoopVar.Says.{Says, or_false, or_assoc, visit_paths-Says, from-Says, after-Says}

module _ {Expr Local : Type 0} (reader : Reader Expr Local) (names : HasNames reader) where
  visit_exprs-Says :
      (on : ℕ) (es : List Expr) (found : Bool)
      → Says (found || any_of reader on es) (visit_exprs reader on es found)
  unfolding visit_exprs any_of
  visit_exprs-Says on [] found = gives (or_false found)
  visit_exprs-Says on (e ∷ es) found =
      subst (λ y. Says y (visit_exprs reader on (e ∷ es) found))
        (or_assoc found (any_var on (reader.paths e)) (any_of reader on es))
        (Gives-bind (visit_paths-Says on (reader.paths e) found (names.exprs e)) λ x q.
          after-Says _ (any_of reader on es) x _ q (λ k.
            subst (λ y. Says (y || any_of reader on es) (visit_exprs reader on es x)) k
              (visit_exprs-Says on es x)))

  go_on-Says :
      (b c : Bool) (s : Bool × Bool) (l : Bool) (rest : Result Bool)
      → (s.0 ≡ b) × (s.1 ≡ l)
      → Says c rest
      → Says (b || (not l && c)) (go_on reader s rest)
  go_on-Says true c (true, left) l rest e h = gives refl
  go_on-Says false c (true, left) l rest e h = let q = e.0 in cc
  go_on-Says true c (false, left) l rest e h = let q = e.0 in cc
  go_on-Says false c (false, true) true rest e h = gives refl
  go_on-Says false c (false, true) false rest e h = let q = e.1 in cc
  go_on-Says false c (false, false) true rest e h = let q = e.1 in cc
  go_on-Says false c (false, false) false rest e h = h

  abbrev NodeSays : Bool → Bool → Result (Bool × Bool) → Type 0
  NodeSays b l r = Gives (λ s. (s.0 ≡ b) × (s.1 ≡ l)) r

  stay-Says :
      (b : Bool) (r : Result Bool) → Says b r → NodeSays b false (do found ← r; ok (found, false))
  stay-Says b r h = Gives-bind h λ x e. gives (e, refl)

  scope-Says :
      (b c d found : Bool) (l : Bool) (r : Result Bool)
      → found ≡ (b || c)
      → Says (found || d) r
      → NodeSays
          (b || (c || (not l && d)))
          l
          (if l then ok (found, true) else (do found ← r; ok (found, false)))
  scope-Says b c d found true r e h = gives (e ∙ ap (λ x. b || x) (or_false c), refl)
  scope-Says b c d found false r e h =
      stay-Says (b || (c || d)) r (subst (λ x. Says x r) (ap (λ x. x || d) e ∙ or_assoc b c d) h)

  find_partial-Says :
      (read : Nodes Expr Local → Bool → Result Bool) (says : Nodes Expr Local → Bool) (on : ℕ)
      (args : List Expr) (o : Option (Nodes Expr Local)) (found : Bool)
      → Held reader (λ ns. (found : Bool) → Says (found || says ns) (read ns found)) o
      → NodeSays
          (found || partial_mentions reader says on args o)
          (has_scope reader args)
          (find_partial reader read on args o found)
  unfolding find_partial partial_mentions
  find_partial-Says read says on args none found h = elim h [ ]
  find_partial-Says read says on args (some nodes) found (held h) =
      Gives-bind (visit_exprs-Says on (assigned reader args) found) λ x e.
        scope-Says found (any_of reader on (assigned reader args)) (says nodes) x
          (has_scope reader args) (read nodes x) e (h x)

  module _ (read : ℕ → Str → Nodes Expr Local → Bool → Result Bool)
      (says : ℕ → Str → Nodes Expr Local → Bool) (Deep : Str → Nodes Expr Local → Type 0)
      (agree : (on : ℕ) (path : Str) (ns : Nodes Expr Local) (found : Bool)
        → Deep path ns
        → Says (found || says on path ns) (read on path ns found)) where
    assoc-Says : (a b c : Bool) {r : Result Bool} → Says ((a || b) || c) r → Says (a || (b || c)) r
    assoc-Says a b c {r} h = subst (λ x. Says x r) (or_assoc a b c) h

    -- An expression that is visited, and then what stands behind it.
    expr-Says :
        (on : ℕ) (e : Expr) (c found : Bool) (rest : Result Bool)
        → Says c rest
        → Says
            (found || (any_var on (reader.paths e) || c))
            (do x ← visit_expr reader on e found; unless_found x rest)
    expr-Says on e c found rest h = assoc-Says found (any_var on (reader.paths e)) c (
        Gives-bind (visit_paths-Says on (reader.paths e) found (names.exprs e))
          λ x q. after-Says _ c x rest q (λ _. h))

    Held-agree :
        (on : ℕ) (path : Str) {o : Option (Nodes Expr Local)}
        → Held reader (Deep path) o
        → Held reader
            (λ ns. (found : Bool) → Says (found || says on path ns) (read on path ns found))
            o
    Held-agree on path (held {ns} h) = held (λ found. agree on path ns found h)

    mutual
      unfolding find_with find_node find_helper find_branches find_else mentions_with node_mentions
          helper_mentions branches_mention else_mentions NodesReadable NodeReadable HelperReadable
          BranchesReadable ElseReadable

      find_with-Says :
          (on : ℕ) (path : Str) (ns : Nodes Expr Local) (found : Bool)
          → NodesReadable reader Deep path ns
          → Says
              (found || mentions_with reader says on path ns)
              (find_with reader read on path ns found)
      find_with-Says on path nil found h = gives (or_false found)
      find_with-Says on path (cons n _ ns) found (k, h) =
          assoc-Says found (node_mentions reader says on path n)
            (not (leaves reader n) && mentions_with reader says on path ns)
            (Gives-bind (find_node-Says on path n found k) λ s e.
              go_on-Says _ (mentions_with reader says on path ns) s (leaves reader n) _ e
                (find_with-Says on path ns false h))

      find_node-Says :
          (on : ℕ) (path : Str) (n : Node Expr Local) (found : Bool)
          → NodeReadable reader Deep path n
          → NodeSays
              (found || node_mentions reader says on path n)
              (leaves reader n)
              (find_node reader read on path n found)
      find_node-Says on path (Node.local e) found k =
          stay-Says _ _ (visit_paths-Says on (reader.local_paths e.t) found (names.locals e.t))
      find_node-Says on path (Node.expr _ e) found k =
          stay-Says _ _ (visit_paths-Says on (reader.paths e.t) found (names.exprs e.t))
      find_node-Says on path (Node.safe _ e) found k =
          stay-Says _ _ (visit_paths-Says on (reader.paths e.t) found (names.exprs e.t))
      find_node-Says on path (Node.helper h) found k =
          stay-Says _ _ (find_helper-Says on path h found k)
      find_node-Says on path (Node.partial p) found k =
          let inner = reader.resolve_partial path p.path.t in
          find_partial-Says (read on inner) (says on inner) on p.args.t (reader.ctx inner) found
            (Held-agree on inner k)
      find_node-Says on path (Node.lit _ _ _) found k = gives (or_false found, refl)
      find_node-Says on path (Node.comment _) found k = gives (or_false found, refl)
      find_node-Says on path (Node.raw _ _ _ _ _) found k = gives (or_false found, refl)

      find_helper-Says :
          (on : ℕ) (path : Str) (h : Helper Expr Local) (found : Bool)
          → HelperReadable reader Deep path h
          → Says
              (found || helper_mentions reader says on path h)
              (find_helper reader read on path h found)
      find_helper-Says on path (Helper.if_else _ _ e b ifs els) found (k, l, m) =
          expr-Says on e.t _ found _ (
            Gives-bind (find_with-Says on path b false k) λ x q. from-Says _ _ x q (
              assoc-Says x (branches_mention reader says on path ifs)
                (else_mentions reader says on path els)
                (Gives-bind (find_branches-Says on path ifs x l)
                  λ y r. after-Says _ _ y _ r (λ _. find_else-Says on path els m))))
      find_helper-Says on path (Helper.with_scope _ _ e b) found k =
          expr-Says on e.t _ found _ (find_with-Says (suc on) path b false k)
      find_helper-Says on path (Helper.unless _ _ e b) found k =
          expr-Says on e.t _ found _ (find_with-Says on path b false k)
      find_helper-Says on path (Helper.each _ _ e b) found k =
          expr-Says on e.t _ found _ (find_with-Says (suc on) path b false k)
      find_helper-Says on path (Helper.defined _ _ _ _ _) found k = elim k [ ]

      find_branches-Says :
          (on : ℕ) (path : Str) (ifs : Branches Expr Local) (found : Bool)
          → BranchesReadable reader Deep path ifs
          → Says
              (found || branches_mention reader says on path ifs)
              (find_branches reader read on path ifs found)
      find_branches-Says on path no_branch found k = gives (or_false found)
      find_branches-Says on path (branch _ e b rest) true k = gives refl
      find_branches-Says on path (branch _ e b rest) false (k, l) = expr-Says on e.t _ false _ (
          Gives-bind (find_with-Says on path b false k)
            λ x q. from-Says _ _ x q (find_branches-Says on path rest x l))

      find_else-Says :
          (on : ℕ) (path : Str) (els : Else Expr Local)
          → ElseReadable reader Deep path els
          → Says (else_mentions reader says on path els) (find_else reader read on path els)
      find_else-Says on path no_else k = gives refl
      find_else-Says on path (else_block _ b) k = find_with-Says on path b false k

  find-Says :
      (f on : ℕ) (path : Str) (ns : Nodes Expr Local) (found : Bool)
      → Readable reader f path ns
      → Says (found || mentions reader f on path ns) (find reader f on path ns found)
  unfolding find mentions Readable
  find-Says zero on path ns found h =
      find_with-Says (λ _ _ _ _. out_of_fuel) (λ _ _ _. false) (λ _ _. Refused)
        (λ _ _ _ _ k. elim k [ ]) on path ns found h
  find-Says (suc f) on path ns found h =
      find_with-Says (find reader f) (mentions reader f) (Readable reader f) (find-Says f) on path
        ns found h

  -- The search against the test that it applies, without its state.
  pub find_loop_var-mentions :
      (f : ℕ) (path : Str) (ns : Nodes Expr Local)
      → Readable reader f path ns
      → find_loop_var reader f path ns ≡ ok (mentions reader f 0 path ns)
  unfolding find_loop_var
  find_loop_var-mentions f path ns h =
      let (b, e, q) = Gives-ok (find-Says f 0 path ns false h) in e ∙ ap (λ b. ok b) q
