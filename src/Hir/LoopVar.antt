-- ===== src/Hir/LoopVar.antt =====
-- yarte_hir/src/visit_each.rs: `find_loop_var`, whether the block of a loop uses the loop's variables.
-- The paths of an expression, in the order in which syn's visitor comes to them, are a parameter.
pub mod Says
pub mod Found
pub mod Mentions
pub mod Mentioned
pub mod Counted
pub mod Variables
mod Tests
use yarte.Base.{
  ℕ, zero, suc, ◌+◌, ◌-◌, Bool, true, false, not, ◌&&◌, ◌||◌, ◌==◌, ltb, leb, List, [], ◌∷◌, Option,
  none, some, Str, codes, str_eq, if◌then◌else◌, length, take, drop, get_elem?, starts_with,
}
use yarte.Parser.Result.{Result, ok, panic, out_of_fuel, ◌>>=◌}
use yarte.Parser.Syntax.{
  S, Partial, Node, Helper, Nodes, nil, cons, Branches, no_branch, branch, Else, no_else,
  else_block,
}
use yarte.Hir.Rust.{Kind, assign}
use yarte.Hir.Path.{ExprPath, is_super, is_digit}

-- What `FindEach` reads: syn's expressions, the lookup of partials and the parsed files.
pub record Reader (Expr Local : Type 0) : Type 0 where
  pub kind : Expr → Kind
  pub paths : Expr → List ExprPath
  pub local_paths : Local → List ExprPath
  pub resolve_partial : Str → Str → Str
  pub ctx : Str → Option (Nodes Expr Local)

abbrev pub is_assign : Kind → Bool
is_assign assign = true
is_assign _ = false

-- `search!`: whether an identifier is a loop's variable.
unfoldable pub is_loop_var : Str → Bool
is_loop_var ident =
    str_eq ident (codes "index")
    || str_eq ident (codes "index0")
    || str_eq ident (codes "first")
    || (ltb 7 (length ident)
        && str_eq (take 7 ident) (codes "_index_")
        && elim (get_elem? ident 7) [ none ↦ false | some c ↦ is_digit c ])

abbrev pub super_var : ℕ → Option (ℕ × Str) → Bool
super_var on none = false
super_var on (some (j, ident)) = (j == on) && is_loop_var ident

-- `visit_expr_path`, with the number of helpers `on` inside the loop.
unfoldable pub path_var : ℕ → List Str → Result Bool
unfolding is_loop_var
path_var on (ident ∷ []) = ok (is_loop_var ident)
path_var on ss = if ltb 0 on then (do o ← is_super ss; ok (super_var on o)) else ok false

-- The visitor on the paths of an expression; `found` is `loop_var`.
unfoldable pub visit_paths : ℕ → List ExprPath → Bool → Result Bool
unfolding path_var
visit_paths on [] found = ok found
visit_paths on (p ∷ ps) true = visit_paths on ps true
visit_paths on (p ∷ ps) false = path_var on p.segments >>= visit_paths on ps

-- What follows, unless a variable is found.
abbrev pub unless_found : Bool → Result Bool → Result Bool
unless_found true rest = ok true
unless_found false rest = rest

module _ {Expr Local : Type 0} (reader : Reader Expr Local) where
  abbrev pub visit_expr : ℕ → Expr → Bool → Result Bool
  visit_expr on e found = visit_paths on (reader.paths e) found

  -- The arguments of a partial.
  unfoldable pub visit_exprs : ℕ → List Expr → Bool → Result Bool
  unfolding visit_paths
  visit_exprs on [] found = ok found
  visit_exprs on (e ∷ es) found = do
    found ← visit_expr on e found
    unless_found found (visit_exprs on es found)

  -- Whether the first argument is the scope, so that `at` is 1.
  abbrev pub has_scope : List Expr → Bool
  has_scope [] = false
  has_scope (e ∷ _) = not (is_assign (reader.kind e))

  -- `&expr[at..]`.
  abbrev pub assigned : List Expr → List Expr
  assigned [] = []
  assigned (e ∷ es) = if is_assign (reader.kind e) then e ∷ es else es

  -- A partial at `path`, whose nodes are looked up. The second component is whether the loop over
  -- the nodes around it is left.
  unfoldable pub find_partial :
      (Nodes Expr Local → Bool → Result Bool)
      → ℕ
      → List Expr
      → Option (Nodes Expr Local)
      → Bool
      → Result (Bool × Bool)
  unfolding visit_exprs
  find_partial deeper on args none found = panic
  find_partial deeper on args (some nodes) found = do
    found ← visit_exprs on (assigned args) found
    let inner = do found ← deeper nodes found; ok (found, false)
    if has_scope args then ok (found, true) else inner

  -- What follows a node in the loop: nothing where a variable is found or the loop is left.
  abbrev pub go_on : Bool × Bool → Result Bool → Result Bool
  go_on (true, left) rest = ok true
  go_on (false, true) rest = ok false
  go_on (false, false) rest = rest

  module _ (deeper : ℕ → Str → Nodes Expr Local → Bool → Result Bool) where
    unfoldable mutual
      -- `find`, in the file `path`, inside `on` helpers.
      pub find_with : ℕ → Str → Nodes Expr Local → Bool → Result Bool
      find_with on path nil found = ok found
      find_with on path (cons n _ ns) found = do
        s ← find_node on path n found
        go_on s (find_with on path ns false)

      pub find_node : ℕ → Str → Node Expr Local → Bool → Result (Bool × Bool)
      find_node on path (Node.local e) found = do
        found ← visit_paths on (reader.local_paths e.t) found
        ok (found, false)
      find_node on path (Node.expr _ e) found = do
        found ← visit_expr on e.t found
        ok (found, false)
      find_node on path (Node.safe _ e) found = do
        found ← visit_expr on e.t found
        ok (found, false)
      find_node on path (Node.helper h) found = do
        found ← find_helper on path h found
        ok (found, false)
      find_node on path (Node.partial p) found =
          let path = reader.resolve_partial path p.path.t in
          find_partial (deeper on path) on p.args.t (reader.ctx path) found
      find_node on path (Node.lit _ _ _) found = ok (found, false)
      find_node on path (Node.comment _) found = ok (found, false)
      find_node on path (Node.raw _ _ _ _ _) found = ok (found, false)

      pub find_helper : ℕ → Str → Helper Expr Local → Bool → Result Bool
      find_helper on path (Helper.if_else _ _ e b ifs els) found = do
        found ← visit_expr on e.t found
        unless_found found (do
          found ← find_with on path b false
          found ← find_branches on path ifs found
          unless_found found (find_else on path els))
      find_helper on path (Helper.with_scope _ _ e b) found = do
        found ← visit_expr on e.t found
        unless_found found (find_with (suc on) path b false)
      find_helper on path (Helper.unless _ _ e b) found = do
        found ← visit_expr on e.t found
        unless_found found (find_with on path b false)
      find_helper on path (Helper.each _ _ e b) found = do
        found ← visit_expr on e.t found
        unless_found found (find_with (suc on) path b false)
      find_helper on path (Helper.defined _ _ _ _ _) found = panic

      pub find_branches : ℕ → Str → Branches Expr Local → Bool → Result Bool
      find_branches on path no_branch found = ok found
      find_branches on path (branch _ e b rest) true = ok true
      find_branches on path (branch _ e b rest) false = do
        found ← visit_expr on e.t false
        unless_found found (do found ← find_with on path b false; find_branches on path rest found)

      pub find_else : ℕ → Str → Else Expr Local → Result Bool
      find_else on path no_else = ok false
      find_else on path (else_block _ b) = find_with on path b false

  -- `FindEach::find`; a partial takes one unit of fuel.
  unfoldable pub find : ℕ → ℕ → Str → Nodes Expr Local → Bool → Result Bool
  unfolding find_with
  find zero on path ns found = find_with (λ _ _ _ _. out_of_fuel) on path ns found
  find (suc f) on path ns found = find_with (find f) on path ns found

  -- `find_loop_var`.
  unfoldable pub find_loop_var : ℕ → Str → Nodes Expr Local → Result Bool
  unfolding find
  find_loop_var f path nodes = find f 0 path nodes false
