-- ===== src/Hir/LoopVar/Mentions.antt =====
-- The search of `find_loop_var` without its state and its early ends, and the templates it reads.
use yarte.Base.{
  ℕ, zero, suc, Bool, true, false, not, ◌&&◌, ◌||◌, ◌==◌, List, [], ◌∷◌, Option, none, some, Str,
  length, ◌≡◌, refl,
}
use yarte.Parser.Syntax.{
  Node, Helper, Nodes, nil, cons, Branches, no_branch, branch, Else, no_else, else_block,
}
use yarte.Hir.Scope.{split_last}
use yarte.Hir.Path.{ExprPath, all_super}
use yarte.Hir.LoopVar.{Reader, is_loop_var, has_scope, assigned}

-- The test that the search applies to a path inside `on` helpers: the name of a variable, alone or
-- behind `on` times `super::`.
abbrev pub is_var : ℕ → Option (List Str × Str) → Bool
is_var on none = false
is_var on (some ([], ident)) = is_loop_var ident
is_var on (some (s ∷ ss, ident)) =
    all_super (s ∷ ss) && (length (s ∷ ss) == on) && is_loop_var ident

unfoldable pub any_var : ℕ → List ExprPath → Bool
any_var on [] = false
any_var on (p ∷ ps) = is_var on (split_last p.segments) || any_var on ps

-- A path has a segment, as every path of syn has.
pub data Named : ExprPath → Type 0 where
  named : {p : ExprPath} {s : Str} {ss : List Str} → p.segments ≡ s ∷ ss → Named p

pub data AllNamed : List ExprPath → Type 0 where
  none_left : AllNamed []
  next_named : {p : ExprPath} {ps : List ExprPath} → Named p → AllNamed ps → AllNamed (p ∷ ps)

or_false : (b : Bool) → b ≡ (b || false)
or_false true = refl
or_false false = refl

or_assoc : (a b c : Bool) → ((a || b) || c) ≡ (a || (b || c))
or_assoc true b c = refl
or_assoc false b c = refl

-- What is not read: a helper `defined`, and partials nested deeper than the fuel.
pub data Refused : Type 0 where

module _ {Expr Local : Type 0} (reader : Reader Expr Local) where
  unfoldable pub any_of : ℕ → List Expr → Bool
  any_of on [] = false
  any_of on (e ∷ es) = any_var on (reader.paths e) || any_of on es

  -- What the nodes of a partial mention, and whether the loop over the nodes around it is left: the
  -- nodes are not read where the first argument is a scope.
  unfoldable pub partial_mentions :
      (Nodes Expr Local → Bool) → ℕ → List Expr → Option (Nodes Expr Local) → Bool
  unfolding any_of
  partial_mentions deeper on args none = false
  partial_mentions deeper on args (some nodes) =
      any_of on (assigned reader args) || (not (has_scope reader args) && deeper nodes)

  -- A partial whose first argument is a scope: the nodes behind it are not read.
  abbrev pub leaves : Node Expr Local → Bool
  leaves (Node.partial p) = has_scope reader p.args.t
  leaves _ = false

  module _ (deeper : ℕ → Str → Nodes Expr Local → Bool) where
    unfoldable mutual
      pub mentions_with : ℕ → Str → Nodes Expr Local → Bool
      mentions_with on path nil = false
      mentions_with on path (cons n _ ns) =
          node_mentions on path n || (not (leaves n) && mentions_with on path ns)

      pub node_mentions : ℕ → Str → Node Expr Local → Bool
      node_mentions on path (Node.local e) = any_var on (reader.local_paths e.t)
      node_mentions on path (Node.expr _ e) = any_var on (reader.paths e.t)
      node_mentions on path (Node.safe _ e) = any_var on (reader.paths e.t)
      node_mentions on path (Node.helper h) = helper_mentions on path h
      node_mentions on path (Node.partial p) =
          let path = reader.resolve_partial path p.path.t in
          partial_mentions (deeper on path) on p.args.t (reader.ctx path)
      node_mentions on path (Node.lit _ _ _) = false
      node_mentions on path (Node.comment _) = false
      node_mentions on path (Node.raw _ _ _ _ _) = false

      pub helper_mentions : ℕ → Str → Helper Expr Local → Bool
      helper_mentions on path (Helper.if_else _ _ e b ifs els) =
          any_var on (reader.paths e.t)
          || (mentions_with on path b
              || (branches_mention on path ifs || else_mentions on path els))
      helper_mentions on path (Helper.with_scope _ _ e b) =
          any_var on (reader.paths e.t) || mentions_with (suc on) path b
      helper_mentions on path (Helper.unless _ _ e b) =
          any_var on (reader.paths e.t) || mentions_with on path b
      helper_mentions on path (Helper.each _ _ e b) =
          any_var on (reader.paths e.t) || mentions_with (suc on) path b
      helper_mentions on path (Helper.defined _ _ _ _ _) = false

      pub branches_mention : ℕ → Str → Branches Expr Local → Bool
      branches_mention on path no_branch = false
      branches_mention on path (branch _ e b rest) =
          any_var on (reader.paths e.t)
          || (mentions_with on path b || branches_mention on path rest)

      pub else_mentions : ℕ → Str → Else Expr Local → Bool
      else_mentions on path no_else = false
      else_mentions on path (else_block _ b) = mentions_with on path b

  -- Whether a path of the nodes passes the test.
  unfoldable pub mentions : ℕ → ℕ → Str → Nodes Expr Local → Bool
  unfolding mentions_with
  mentions zero on path ns = mentions_with (λ _ _ _. false) on path ns
  mentions (suc f) on path ns = mentions_with (mentions f) on path ns

  pub data Held (P : Nodes Expr Local → Type 0) : Option (Nodes Expr Local) → Type 0 where
    held : {ns : Nodes Expr Local} → P ns → Held P (some ns)

  -- The nodes hold no `defined`, and every partial in them is there and `deeper` at its nodes.
  module _ (deeper : Str → Nodes Expr Local → Type 0) where
    unfoldable mutual
      pub NodesReadable : Str → Nodes Expr Local → Type 0
      NodesReadable path nil = Unit {0}
      NodesReadable path (cons n _ ns) = NodeReadable path n × NodesReadable path ns

      pub NodeReadable : Str → Node Expr Local → Type 0
      NodeReadable path (Node.helper h) = HelperReadable path h
      NodeReadable path (Node.partial p) =
          let path = reader.resolve_partial path p.path.t in Held (deeper path) (reader.ctx path)
      NodeReadable path _ = Unit {0}

      pub HelperReadable : Str → Helper Expr Local → Type 0
      HelperReadable path (Helper.if_else _ _ e b ifs els) =
          NodesReadable path b × BranchesReadable path ifs × ElseReadable path els
      HelperReadable path (Helper.with_scope _ _ e b) = NodesReadable path b
      HelperReadable path (Helper.unless _ _ e b) = NodesReadable path b
      HelperReadable path (Helper.each _ _ e b) = NodesReadable path b
      HelperReadable path (Helper.defined _ _ _ _ _) = Refused

      pub BranchesReadable : Str → Branches Expr Local → Type 0
      BranchesReadable path no_branch = Unit {0}
      BranchesReadable path (branch _ e b rest) = NodesReadable path b × BranchesReadable path rest

      pub ElseReadable : Str → Else Expr Local → Type 0
      ElseReadable path no_else = Unit {0}
      ElseReadable path (else_block _ b) = NodesReadable path b

  -- The nodes and those of the partials in them hold no `defined`, every partial is there, and
  -- partials are nested no deeper than the fuel.
  unfoldable pub Readable : ℕ → Str → Nodes Expr Local → Type 0
  unfolding NodesReadable
  Readable zero path ns = NodesReadable (λ _ _. Refused) path ns
  Readable (suc f) path ns = NodesReadable (Readable f) path ns

  -- Every path that syn's visitor comes to has a segment.
  pub record HasNames : Type 0 where
    pub exprs : (e : Expr) → AllNamed (reader.paths e)
    pub locals : (e : Local) → AllNamed (reader.local_paths e)
