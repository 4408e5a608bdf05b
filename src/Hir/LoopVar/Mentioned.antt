-- ===== src/Hir/LoopVar/Mentioned.antt =====
-- The paths that the block of a loop mentions, each with the number of helpers around it, and which
-- of them are variables of the loop.
use yarte.Base.{
  ℕ, zero, suc, ◌==◌, Bool, true, false, ◌&&◌, ◌||◌, List, [], ◌∷◌, ◌++◌, Option, none, some, Str,
  codes, str_eq, if◌then◌else◌,
}
use yarte.Parser.Syntax.{
  Node, Helper, Nodes, nil, cons, Branches, no_branch, branch, Else, no_else, else_block,
}
use yarte.Hir.Rust.{Kind, assign}
use yarte.Hir.Path.{ExprPath, is_digit}
use yarte.Hir.LoopVar.{Reader}

-- Whether a text begins with the first one, and a digit stands behind that.
abbrev pub digit_behind : Str → Str → Bool
digit_behind [] [] = false
digit_behind [] (c ∷ s) = is_digit c
digit_behind (d ∷ p) [] = false
digit_behind (d ∷ p) (c ∷ s) = c == d && digit_behind p s

-- The names under which the code that a loop generates counts: `index`, `index0`, `first`, and those
-- that begin with `_index_` and a digit.
unfoldable pub counts : Str → Bool
counts s =
    str_eq s (codes "index")
    || str_eq s (codes "index0")
    || str_eq s (codes "first")
    || digit_behind (codes "_index_") s

-- A variable of the loop that is `on` helpers further out: `on` times `super::`, and its name.
unfoldable pub of_loop : ℕ → List Str → Bool
of_loop zero (ident ∷ []) = counts ident
of_loop (suc on) (s ∷ ss) = str_eq s (codes "super") && of_loop on ss
of_loop _ _ = false

-- A bare name of such a variable inside a further helper, where it is not one of the loop.
unfoldable pub of_inner : ℕ → List Str → Bool
of_inner (suc on) (ident ∷ []) = counts ident
of_inner _ _ = false

-- A path, with the number of helpers of the block around it.
abbrev pub Mention : Type 0
Mention = ℕ × ExprPath

unfoldable pub any : (ℕ → List Str → Bool) → List Mention → Bool
any test [] = false
any test (m ∷ ms) = test m.0 m.1.segments || any test ms

abbrev pub inside : ℕ → List ExprPath → List Mention
inside on [] = []
inside on (p ∷ ps) = (on, p) ∷ inside on ps

-- Whether an argument is a scope: it is none where it is an assignment.
abbrev pub is_scope : Kind → Bool
is_scope assign = false
is_scope _ = true

module _ {Expr Local : Type 0} (reader : Reader Expr Local) where
  abbrev pub all_inside : ℕ → List Expr → List Mention
  all_inside on [] = []
  all_inside on (e ∷ es) = inside on (reader.paths e) ++ all_inside on es

  -- What a partial mentions: by its assignments and its nodes; where the first argument is a scope,
  -- neither by that nor by the nodes.
  unfoldable pub partial_mentioned :
      (Nodes Expr Local → List Mention) → ℕ → List Expr → Option (Nodes Expr Local) → List Mention
  partial_mentioned deeper on args none = []
  partial_mentioned deeper on [] (some nodes) = deeper nodes
  partial_mentioned deeper on (e ∷ es) (some nodes) =
      if is_scope (reader.kind e) then all_inside on es else all_inside on (e ∷ es) ++ deeper nodes

  -- What stands behind a node is not read where that is a partial whose first argument is a scope.
  abbrev pub behind_args : List Expr → List Mention → List Mention
  behind_args [] ms = ms
  behind_args (e ∷ _) ms = if is_scope (reader.kind e) then [] else ms

  abbrev pub behind_node : Node Expr Local → List Mention → List Mention
  behind_node (Node.partial p) ms = behind_args p.args.t ms
  behind_node _ ms = ms

  module _ (deeper : ℕ → Str → Nodes Expr Local → List Mention) where
    unfoldable mutual
      pub mentioned_with : ℕ → Str → Nodes Expr Local → List Mention
      mentioned_with on path nil = []
      mentioned_with on path (cons n _ ns) =
          node_mentioned on path n ++ behind_node n (mentioned_with on path ns)

      pub node_mentioned : ℕ → Str → Node Expr Local → List Mention
      node_mentioned on path (Node.local e) = inside on (reader.local_paths e.t)
      node_mentioned on path (Node.expr _ e) = inside on (reader.paths e.t)
      node_mentioned on path (Node.safe _ e) = inside on (reader.paths e.t)
      node_mentioned on path (Node.helper h) = helper_mentioned on path h
      node_mentioned on path (Node.partial p) =
          let path = reader.resolve_partial path p.path.t in
          partial_mentioned (deeper on path) on p.args.t (reader.ctx path)
      node_mentioned on path (Node.lit _ _ _) = []
      node_mentioned on path (Node.comment _) = []
      node_mentioned on path (Node.raw _ _ _ _ _) = []

      pub helper_mentioned : ℕ → Str → Helper Expr Local → List Mention
      helper_mentioned on path (Helper.if_else _ _ e b ifs els) =
          inside on (reader.paths e.t)
          ++ (mentioned_with on path b
              ++ (branches_mentioned on path ifs ++ else_mentioned on path els))
      helper_mentioned on path (Helper.with_scope _ _ e b) =
          inside on (reader.paths e.t) ++ mentioned_with (suc on) path b
      helper_mentioned on path (Helper.unless _ _ e b) =
          inside on (reader.paths e.t) ++ mentioned_with on path b
      helper_mentioned on path (Helper.each _ _ e b) =
          inside on (reader.paths e.t) ++ mentioned_with (suc on) path b
      helper_mentioned on path (Helper.defined _ _ _ _ _) = []

      pub branches_mentioned : ℕ → Str → Branches Expr Local → List Mention
      branches_mentioned on path no_branch = []
      branches_mentioned on path (branch _ e b rest) =
          inside on (reader.paths e.t)
          ++ (mentioned_with on path b ++ branches_mentioned on path rest)

      pub else_mentioned : ℕ → Str → Else Expr Local → List Mention
      else_mentioned on path no_else = []
      else_mentioned on path (else_block _ b) = mentioned_with on path b

  -- What the nodes mention inside `on` helpers, with partials nested no deeper than the fuel.
  unfoldable pub mentioned : ℕ → ℕ → Str → Nodes Expr Local → List Mention
  unfolding mentioned_with
  mentioned zero on path ns = mentioned_with (λ _ _ _. []) on path ns
  mentioned (suc f) on path ns = mentioned_with (mentioned f) on path ns
