-- ===== src/Hir/Visitor.antt =====
-- yarte_hir/src/visits.rs: the visitor that replaces the names in an expression.
pub mod Levels
use yarte.Base.{ℕ, Bool, true, false, List, [], ◌∷◌, Option, none, some, Str, if◌then◌else◌}
use yarte.Parser.Result.{Result, ok, panic, ◌>>=◌}
use yarte.Hir.Scope.{Scope, pop, pops, extend, push_scope, push_ident, get_by}
use yarte.Hir.Rust.{Names}
use yarte.Hir.Path.{ExprPath}
use yarte.Hir.Resolve.{Quote, resolve_path}

-- syn's syntax, as far as the visitor tells it apart: expressions, patterns, statements, blocks and
-- arms are of one type. `refused` is what the visitor panics at: async, try and yield blocks, items,
-- and the patterns that are literals, macros, ranges and structs. `node` is anything else, with its
-- parts in the order in which syn's visitor comes to them.
mutual
  pub data Syntax : Type 0 where
    path : ExprPath → Syntax
    assign : Syntax → Syntax → Syntax
    assign_op : ℕ → Syntax → Syntax → Syntax
    call : Syntax → Parts → Syntax
    closure : Bool → Parts → Syntax → Syntax
    for_loop : Syntax → Syntax → Syntax → Syntax
    if_expr : Syntax → Syntax → Parts → Syntax
    let_expr : Syntax → Syntax → Syntax
    arm : Syntax → Parts → Syntax → Syntax
    block : Parts → Syntax
    local : Syntax → Parts → Syntax
    pat_ident : Str → Bool → Syntax
    refused : Syntax
    node : ℕ → Parts → Syntax

  -- The arguments, inputs and statements; also what may be missing: an `else`, a guard, an `init`.
  pub data Parts : Type 0 where
    nil : Parts
    cons : Syntax → Parts → Parts

abbrev pub with_scp : Names Syntax → Scope Syntax → Names Syntax
with_scp names scp = record names { scp = scp }

abbrev pub pushed : Names Syntax → List Syntax → Names Syntax
pushed names t = with_scp names (push_scope names.scp t)

abbrev pub extended : Names Syntax → List Syntax → Names Syntax
extended names t = with_scp names (extend names.scp t)

unfoldable pub popped : Names Syntax → Result (Names Syntax)
popped names = do scp ← pop names.scp; ok (with_scp names scp)

unfoldable pub popped_all : Names Syntax → Result (Names Syntax × List Syntax)
popped_all names = do (scp, last) ← pops names.scp; ok (with_scp names scp, last)

abbrev pub expected : Option Syntax → Result Syntax
expected none = panic
expected (some e) = ok e

-- `subpat` and `asyncness` must not be there.
abbrev pub unless_there : {A : Type 0} → Bool → Result A → Result A
unless_there true r = panic
unless_there false r = r

module _ (quote : Quote Syntax) (ident : Str → Syntax) where
  -- The last expression of the scopes that is printed as this one.
  abbrev pub found : Names Syntax → Syntax → Option Syntax
  found names e = get_by quote.print names.scp (quote.print e)

  -- The function that is called: a name in scope, or as it is.
  abbrev pub func_of : Option Syntax → Syntax → Syntax
  func_of (some e) func = e
  func_of none func = func

  -- `visit_pat_ident_mut`.
  unfoldable pub declared : Names Syntax → Str → Names Syntax × Syntax
  declared names s =
      let (scp, name) = push_ident ident names.scp s in (with_scp names scp, pat_ident name false)

  unfoldable mutual
    pub visit : Names Syntax → Syntax → Result (Names Syntax × Syntax)
    visit names (path p) = do o ← resolve_path quote names p; e ← expected o; ok (names, e)
    visit names (assign left right) = do
      left ← expected (found names left)
      (names, right) ← visit names right
      ok (names, assign left right)
    visit names (assign_op op left right) = do
      left ← expected (found names left)
      (names, right) ← visit names right
      ok (names, assign_op op left right)
    visit names (call func args) = do
      let func = func_of (found names func) func
      (names, args) ← visit_all names args
      ok (names, call func args)
    visit names (closure is_async inputs body) = unless_there is_async (do
      (names, inputs) ← visit_all (pushed names []) inputs
      (names, body) ← visit names body
      names ← popped names
      ok (names, closure is_async inputs body))
    visit names (for_loop pat e body) = do
      (names, pat) ← visit (pushed names []) pat
      (names, last) ← popped_all names
      (names, e) ← visit names e
      (names, body) ← visit (pushed names last) body
      names ← popped names
      ok (names, for_loop pat e body)
    visit names (if_expr cond then_branch else_branch) = do
      (names, cond) ← visit (pushed names []) cond
      (names, then_branch) ← visit names then_branch
      names ← popped names
      (names, else_branch) ← visit_all names else_branch
      ok (names, if_expr cond then_branch else_branch)
    visit names (let_expr pat e) = do
      (names, pat) ← visit (pushed names []) pat
      (names, last) ← popped_all names
      (names, e) ← visit names e
      ok (extended names last, let_expr pat e)
    visit names (arm pat guard body) = do
      (names, pat) ← visit (pushed names []) pat
      (names, guard) ← visit_all names guard
      (names, body) ← visit names body
      names ← popped names
      ok (names, arm pat guard body)
    visit names (block stmts) = do
      (names, stmts) ← visit_all (pushed names []) stmts
      names ← popped names
      ok (names, block stmts)
    visit names (local pat init) = do
      (names, pat) ← visit (pushed names []) pat
      (names, scope) ← popped_all names
      (names, init) ← visit_all names init
      ok (extended names scope, local pat init)
    visit names (pat_ident s subpat) = unless_there subpat (ok (declared names s))
    visit names refused = panic
    visit names (node kind parts) = do
      (names, parts) ← visit_all names parts
      ok (names, node kind parts)

    pub visit_all : Names Syntax → Parts → Result (Names Syntax × Parts)
    visit_all names nil = ok (names, nil)
    visit_all names (cons t ts) = do
      (names, t) ← visit names t
      (names, ts) ← visit_all names ts
      ok (names, cons t ts)
