-- ===== src/Hir/Whole.antt =====
-- The lowering of yarte_hir, with its visitors in place: the generator of lib.rs over the visitor of
-- visits.rs, `find_loop_var` of visit_each.rs and `visit_partial` of visit_partial.rs.
mod Tests
use yarte.Base.{ℕ, List, [], ◌∷◌, ◌++◌, Str}
use yarte.Parser.Syntax.{Nodes}
use yarte.Hir.Rust.{Rust, Input, Names}
use yarte.Hir.Path.{ExprPath}
use yarte.Hir.Resolve.{Quote}
use yarte.Hir.LoopVar.{Reader, find_loop_var}
use yarte.Hir.PartialArgs.{Argument, visit_partial}
use yarte.Hir.Visitor.{
  Syntax, path, assign, assign_op, call, closure, for_loop, if_expr, let_expr, arm, block, local,
  pat_ident, refused, node, Parts, nil, cons, visit,
}
use yarte.Hir.Visitor.Levels.{visit-After}
use yarte.Hir.Build.Balanced.At.{KeepsScopes}

unfoldable mutual
  -- The paths that syn's visitor comes to.
  pub paths : Syntax → List ExprPath
  paths (path p) = p ∷ []
  paths (assign left right) = paths left ++ paths right
  paths (assign_op _ left right) = paths left ++ paths right
  paths (call func args) = paths func ++ all_paths args
  paths (closure _ inputs body) = all_paths inputs ++ paths body
  paths (for_loop pat e body) = paths pat ++ (paths e ++ paths body)
  paths (if_expr cond then_branch else_branch) =
      paths cond ++ (paths then_branch ++ all_paths else_branch)
  paths (let_expr pat e) = paths pat ++ paths e
  paths (arm pat guard body) = paths pat ++ (all_paths guard ++ paths body)
  paths (block stmts) = all_paths stmts
  paths (local pat init) = paths pat ++ all_paths init
  paths (pat_ident _ _) = []
  paths refused = []
  paths (node _ parts) = all_paths parts

  pub all_paths : Parts → List ExprPath
  all_paths nil = []
  all_paths (cons t ts) = paths t ++ all_paths ts

-- How the arguments of a partial are read.
abbrev pub argument : Syntax → Argument Syntax
argument (assign left right) = Argument.assign left right
argument (path p) = Argument.path p
argument _ = Argument.other

-- The functions of syn, with the visitor.
abbrev pub visited : Rust Syntax Syntax → Quote Syntax → Rust Syntax Syntax
visited rust quote = record rust {
  visit_expr = visit quote rust.ident;
  visit_local = visit quote rust.ident;
}

abbrev pub reader_of : Rust Syntax Syntax → Input Syntax Syntax → Reader Syntax Syntax
reader_of rust input = record {
  kind = rust.kind;
  paths = paths;
  local_paths = paths;
  resolve_partial = input.resolve_partial;
  ctx = input.ctx;
}

-- The rest of what a generator reads; the fuel is that of `find_loop_var`.
abbrev pub joined : Rust Syntax Syntax → Input Syntax Syntax → ℕ → Input Syntax Syntax
joined rust input f = record input {
  find_loop_var = find_loop_var (reader_of rust input) f;
  visit_partial = visit_partial rust.kind argument;
}

pub visited-KeepsScopes :
    (rust : Rust Syntax Syntax) (quote : Quote Syntax) → KeepsScopes (visited rust quote)
visited-KeepsScopes rust quote = record {
  exprs = visit-After quote rust.ident;
  locals = visit-After quote rust.ident;
}
