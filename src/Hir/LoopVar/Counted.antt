-- ===== src/Hir/LoopVar/Counted.antt =====
-- `find_loop_var` against the list of the paths that the block mentions.
use yarte.Base.{
  ℕ, zero, suc, Bool, true, false, not, ◌&&◌, ◌||◌, List, [], ◌∷◌, ◌++◌, Option, none, some, Str,
  Bool-cases, inl, inr, ◌≡◌, refl, ap, sym, ◌∙◌,
}
use yarte.Parser.Syntax.{
  Node, Helper, Nodes, nil, cons, Branches, no_branch, branch, Else, no_else, else_block,
}
use yarte.Hir.Scope.{split_last}
use yarte.Hir.Rust.{Kind, assign}
use yarte.Hir.Path.{ExprPath}
use yarte.Hir.LoopVar.{Reader, is_assign, has_scope}
use yarte.Hir.LoopVar.Says.{or_false}
use yarte.Hir.LoopVar.Mentions.{
  is_var, any_var, any_of, partial_mentions, leaves, mentions_with, node_mentions, helper_mentions,
  branches_mention, else_mentions, mentions,
}
use yarte.Hir.LoopVar.Mentioned.{
  Mention, any, inside, is_scope, all_inside, partial_mentioned, behind_args, behind_node,
  mentioned_with, node_mentioned, helper_mentioned, branches_mentioned, else_mentioned, mentioned,
}

-- The test that the search applies.
abbrev pub counted : ℕ → List Str → Bool
counted on ss = is_var on (split_last ss)

abbrev any_counted : List Mention → Bool
any_counted ms = any counted ms

or_assoc : (a b c : Bool) → (a || (b || c)) ≡ ((a || b) || c)
or_assoc true b c = refl
or_assoc false b c = refl

any-append :
    (test : ℕ → List Str → Bool) (ms ns : List Mention)
    → any test (ms ++ ns) ≡ (any test ms || any test ns)
unfolding any
any-append test [] ns = refl
any-append test (m ∷ ms) ns =
    ap (λ b. test m.0 m.1.segments || b) (any-append test ms ns)
    ∙ or_assoc (test m.0 m.1.segments) (any test ms) (any test ns)

any-inside : (on : ℕ) (ps : List ExprPath) → any_var on ps ≡ any_counted (inside on ps)
unfolding any any_var
any-inside on [] = refl
any-inside on (p ∷ ps) = ap (λ b. is_var on (split_last p.segments) || b) (any-inside on ps)

-- What is mentioned in two parts.
any_counted-two :
    {b c : Bool} (ms ns : List Mention)
    → b ≡ any_counted ms
    → c ≡ any_counted ns
    → (b || c) ≡ any_counted (ms ++ ns)
any_counted-two {c} ms ns e f =
    ap (λ x. x || c) e ∙ ap (λ x. any_counted ms || x) f ∙ sym (any-append counted ms ns)

is_assign-is_scope : (k : Kind) → is_assign k ≡ not (is_scope k)
is_assign-is_scope assign = refl
is_assign-is_scope _ = refl

module _ {Expr Local : Type 0} (reader : Reader Expr Local) where
  any_of-inside :
      (on : ℕ) (es : List Expr) → any_of reader on es ≡ any_counted (all_inside reader on es)
  unfolding any any_of
  any_of-inside on [] = refl
  any_of-inside on (e ∷ es) =
      any_counted-two (inside on (reader.paths e)) (all_inside reader on es)
        (any-inside on (reader.paths e)) (any_of-inside on es)

  partial-any_counted :
      (says : Nodes Expr Local → Bool) (deeper : Nodes Expr Local → List Mention)
      → ((ns : Nodes Expr Local) → says ns ≡ any_counted (deeper ns))
      → (on : ℕ) (args : List Expr) (o : Option (Nodes Expr Local))
      → partial_mentions reader says on args o
        ≡ any_counted (partial_mentioned reader deeper on args o)
  unfolding any any_of partial_mentions partial_mentioned
  partial-any_counted says deeper h on args none = refl
  partial-any_counted says deeper h on [] (some nodes) = h nodes
  partial-any_counted says deeper h on (e ∷ es) (some nodes) =
      elim (Bool-cases (is_scope (reader.kind e))) [
        | inl t ↦
            rw (is_assign-is_scope (reader.kind e), t)
              (sym (or_false (any_of reader on es)) ∙ any_of-inside on es)
        | inr t ↦
            rw (is_assign-is_scope (reader.kind e), t)
              (any_counted-two (all_inside reader on (e ∷ es)) (deeper nodes)
                (any_of-inside on (e ∷ es)) (h nodes))
      ]

  behind_args-any_counted :
      (args : List Expr) (b : Bool) (ms : List Mention)
      → b ≡ any_counted ms
      → (not (has_scope reader args) && b) ≡ any_counted (behind_args reader args ms)
  unfolding any
  behind_args-any_counted [] b ms h = h
  behind_args-any_counted (e ∷ es) b ms h = elim (Bool-cases (is_scope (reader.kind e))) [
    | inl t ↦ rw (is_assign-is_scope (reader.kind e), t) refl
    | inr t ↦ rw (is_assign-is_scope (reader.kind e), t) h
  ]

  behind-any_counted :
      (n : Node Expr Local) (b : Bool) (ms : List Mention)
      → b ≡ any_counted ms
      → (not (leaves reader n) && b) ≡ any_counted (behind_node reader n ms)
  behind-any_counted (Node.partial p) b ms h = behind_args-any_counted p.args.t b ms h
  behind-any_counted (Node.local e) b ms h = h
  behind-any_counted (Node.expr _ e) b ms h = h
  behind-any_counted (Node.safe _ e) b ms h = h
  behind-any_counted (Node.helper k) b ms h = h
  behind-any_counted (Node.lit _ _ _) b ms h = h
  behind-any_counted (Node.comment _) b ms h = h
  behind-any_counted (Node.raw _ _ _ _ _) b ms h = h

  module _ (says : ℕ → Str → Nodes Expr Local → Bool)
      (deeper : ℕ → Str → Nodes Expr Local → List Mention)
      (agree : (on : ℕ) (path : Str) (ns : Nodes Expr Local)
        → says on path ns ≡ any_counted (deeper on path ns)) where
    -- An expression, and what stands behind it.
    expr-any_counted :
        (on : ℕ) (e : Expr) (ms : List Mention) {b : Bool}
        → b ≡ any_counted ms
        → (any_var on (reader.paths e) || b) ≡ any_counted (inside on (reader.paths e) ++ ms)
    expr-any_counted on e ms h =
        any_counted-two (inside on (reader.paths e)) ms (any-inside on (reader.paths e)) h

    mutual
      unfolding any mentions_with node_mentions helper_mentions branches_mention else_mentions
          mentioned_with node_mentioned helper_mentioned branches_mentioned else_mentioned

      with-any_counted :
          (on : ℕ) (path : Str) (ns : Nodes Expr Local)
          → mentions_with reader says on path ns
            ≡ any_counted (mentioned_with reader deeper on path ns)
      with-any_counted on path nil = refl
      with-any_counted on path (cons n _ ns) =
          any_counted-two (node_mentioned reader deeper on path n)
            (behind_node reader n (mentioned_with reader deeper on path ns))
            (node-any_counted on path n)
            (behind-any_counted n (mentions_with reader says on path ns)
              (mentioned_with reader deeper on path ns) (with-any_counted on path ns))

      node-any_counted :
          (on : ℕ) (path : Str) (n : Node Expr Local)
          → node_mentions reader says on path n
            ≡ any_counted (node_mentioned reader deeper on path n)
      node-any_counted on path (Node.local e) = any-inside on (reader.local_paths e.t)
      node-any_counted on path (Node.expr _ e) = any-inside on (reader.paths e.t)
      node-any_counted on path (Node.safe _ e) = any-inside on (reader.paths e.t)
      node-any_counted on path (Node.helper h) = helper-any_counted on path h
      node-any_counted on path (Node.partial p) =
          let inner = reader.resolve_partial path p.path.t in
          partial-any_counted (says on inner) (deeper on inner) (agree on inner) on p.args.t
            (reader.ctx inner)
      node-any_counted on path (Node.lit _ _ _) = refl
      node-any_counted on path (Node.comment _) = refl
      node-any_counted on path (Node.raw _ _ _ _ _) = refl

      helper-any_counted :
          (on : ℕ) (path : Str) (h : Helper Expr Local)
          → helper_mentions reader says on path h
            ≡ any_counted (helper_mentioned reader deeper on path h)
      helper-any_counted on path (Helper.if_else _ _ e b ifs els) =
          let bs = branches_mentioned reader deeper on path ifs in
          let es = else_mentioned reader deeper on path els in
          expr-any_counted on e.t (mentioned_with reader deeper on path b ++ (bs ++ es)) (
            any_counted-two (mentioned_with reader deeper on path b) (bs ++ es)
              (with-any_counted on path b)
              (any_counted-two bs es (branches-any_counted on path ifs)
                (else-any_counted on path els)))
      helper-any_counted on path (Helper.with_scope _ _ e b) =
          expr-any_counted on e.t (mentioned_with reader deeper (suc on) path b)
            (with-any_counted (suc on) path b)
      helper-any_counted on path (Helper.unless _ _ e b) =
          expr-any_counted on e.t (mentioned_with reader deeper on path b)
            (with-any_counted on path b)
      helper-any_counted on path (Helper.each _ _ e b) =
          expr-any_counted on e.t (mentioned_with reader deeper (suc on) path b)
            (with-any_counted (suc on) path b)
      helper-any_counted on path (Helper.defined _ _ _ _ _) = refl

      branches-any_counted :
          (on : ℕ) (path : Str) (ifs : Branches Expr Local)
          → branches_mention reader says on path ifs
            ≡ any_counted (branches_mentioned reader deeper on path ifs)
      branches-any_counted on path no_branch = refl
      branches-any_counted on path (branch _ e b rest) =
          let bs = branches_mentioned reader deeper on path rest in
          expr-any_counted on e.t (mentioned_with reader deeper on path b ++ bs) (
            any_counted-two (mentioned_with reader deeper on path b) bs (with-any_counted on path b)
              (branches-any_counted on path rest))

      else-any_counted :
          (on : ℕ) (path : Str) (els : Else Expr Local)
          → else_mentions reader says on path els
            ≡ any_counted (else_mentioned reader deeper on path els)
      else-any_counted on path no_else = refl
      else-any_counted on path (else_block _ b) = with-any_counted on path b

  pub mentions-any_counted :
      (f on : ℕ) (path : Str) (ns : Nodes Expr Local)
      → mentions reader f on path ns ≡ any_counted (mentioned reader f on path ns)
  unfolding any mentions mentioned
  mentions-any_counted zero on path ns =
      with-any_counted (λ _ _ _. false) (λ _ _ _. []) (λ _ _ _. refl) on path ns
  mentions-any_counted (suc f) on path ns =
      with-any_counted (mentions reader f) (mentioned reader f) (mentions-any_counted f) on path ns
