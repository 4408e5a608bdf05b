-- ===== src/Hir/Whole/Tests.antt =====
-- Templates with a loop and with a `with`, lowered.
mod Said
use yarte.Base.{Bool, false, List, [], ◌∷◌, none, some, Str, codes, leb, ◌&&◌, inl, ◌≡◌, refl}
use yarte.Parser.Result.{Result, ok, panic}
use yarte.Parser.Syntax.{S, Span, Node, Helper, Nodes}
use yarte.Hir.Scope.{root}
use yarte.Hir.Rust.{Kind, Rust, Input, Names}
use yarte.Hir.Path.{ExprPath}
use yarte.Hir.Resolve.{Quote}
use yarte.Hir.Visitor.{
  Syntax, path, let_expr, local, block, pat_ident, node, Parts, nil, cons, visit,
}
use yarte.Hir.Visitor.Levels.{visit-Extends}
use yarte.Hir.Extends.{Extends}
use yarte.Hir.Generator.{Generator, Hir, Hirs}
use yarte.Hir.Blocks.{State}
use yarte.Hir.Lower.{handle, start}
use yarte.Hir.Build.{build}
use yarte.Hir.Build.Balanced.Walk.{handle-balanced}
use yarte.Hir.Whole.{visited, joined, visited-KeepsScopes}

abbrev pub plain_path : List Str → Syntax
plain_path ss =
    path (record { qself = false; attributes = false; leading_colon = false; segments = ss })

abbrev name : Str → Syntax
name s = plain_path (s ∷ [])

abbrev pub one : Syntax → Parts
one e = cons e nil

abbrev two : Syntax → Syntax → Parts
two e f = cons e (cons f nil)

abbrev first_of : List Str → Str
first_of [] = []
first_of (s ∷ _) = s

abbrev print : Syntax → Str
print (path p) = first_of p.segments
print _ = codes "?"

abbrev kind : Syntax → Kind
kind (path _) = Kind.path
kind (node _ _) = Kind.field
kind _ = Kind.other

abbrev starts_uppercase : Str → Bool
starts_uppercase [] = false
starts_uppercase (c ∷ _) = leb b'A' c && leb c b'Z'

-- The kinds of nodes: 0 a field, 1 `+ 1`, 2 `== 0`, and so on.
abbrev pub quote : Quote Syntax
quote = record {
  print = print;
  starts_uppercase = starts_uppercase;
  path = path;
  ident = λ s. some (name s);
  field = λ e s. some (node 0 (two e (name s)));
  index_field = λ e n. some (node n (one e));
  plus_one = λ e. some (node 1 (one e));
  equals_zero = λ e. some (node 2 (one e));
}

abbrev pub rust : Rust Syntax Syntax
rust = record {
  kind = kind;
  has_attributes = λ _. false;
  visit_expr = λ names e. panic;
  visit_local = λ names e. panic;
  eval = λ _. none;
  escape = λ s. s;
  parse_value = λ _. panic;
  parse_index = λ i. node i nil;
  ident = name;
  negate = λ e. node 3 (one e);
  enumerate_range = λ e. node 4 (one e);
  enumerate = λ e. node 5 (one e);
  into_iter = λ e. node 6 (one e);
  pair = λ a b. node 7 (two a b);
}

abbrev pub input : Input Syntax Syntax
input = record {
  resolve_partial = λ _ s. s;
  ctx = λ _. none;
  text_mode = false;
  find_loop_var = λ _ _. panic;
  visit_partial = λ _. panic;
}

abbrev pub at_zero : Span
at_zero = record { lo = 0; hi = 0 }

abbrev pub plain : Bool × Bool
plain = (false, false)

abbrev pub at : Syntax → S Syntax
at e = record { t = e; span = at_zero }

abbrev written : Syntax → Nodes Syntax Syntax
written e = Nodes.cons (Node.expr plain (at e)) at_zero Nodes.nil

-- `{{# each xs }}{{ index }}{{/each}}`.
abbrev loop_text : Nodes Syntax Syntax
loop_text =
    Nodes.cons
      (Node.helper
        (Helper.each plain plain (at (name (codes "xs"))) (written (name (codes "index")))))
      at_zero Nodes.nil

abbrev key : Syntax
key = name (codes "__key___0x00000000")

abbrev counter : Syntax
counter = name (codes "__index___0x00000001")

-- `for (counter, key) in (&(self.xs)).into_iter().enumerate() { counter + 1 }`.
loop_text-build :
    build (visited rust quote) (joined rust input 0) 0 [] loop_text
    ≡ ok (
        inl (
          Hirs.cons
            (Hir.each
              (node 5 (one (node 0 (two (name (codes "self")) (name (codes "xs"))))))
              (Hirs.cons (Hir.expr (node 1 (one counter))) Hirs.nil)
              (node 7 (two counter key)))
            Hirs.nil))
unfolding build yarte.Hir.LoopVar.find_loop_var yarte.Hir.LoopVar.visit_paths yarte.Hir.Whole.paths
    visit yarte.Hir.Resolve.resolve_path yarte.Hir.Scope.get_by yarte.Hir.Path.is_tuple_index root
    yarte.Hir.Blocks.each_by yarte.Hir.Constants.eval_iter yarte.Hir.Lower.visit_written
    yarte.Hir.Generator.handle_ws yarte.Hir.Generator.write_buf_writable yarte.Hir.Scope.push_ident
    yarte.Hir.Scope.push_scope yarte.Hir.Scope.numbered yarte.Hir.Scope.get yarte.Hir.Scope.pop
    yarte.Hir.Constants.const_eval yarte.Hir.Scope.find_last yarte.Hir.Validator.each
    yarte.Hir.Validator.expression yarte.Hir.Blocks.each_loop
loop_text-build = refl

abbrev first_state : State Syntax Syntax
first_state = (start (visited rust quote) (joined rust input 0) [], Hirs.nil)

abbrev reached : Result (State Syntax Syntax) → State Syntax Syntax
reached (ok s) = s
reached _ = first_state

abbrev last_state : State Syntax Syntax
last_state = reached (handle (visited rust quote) (joined rust input 0) 0 loop_text first_state)

handle-balanced_example :
    ((last_state.0).names.scp.level ≡ [])
    × ((last_state.0).names.on ≡ [])
    × ((last_state.0).names.partial ≡ none)
    × ((last_state.0).on_path ≡ [])
    × (root (last_state.0).names.scp ≡ ok (name (codes "self")))
unfolding handle start yarte.Hir.LoopVar.find_loop_var yarte.Hir.LoopVar.visit_paths
    yarte.Hir.Whole.paths visit yarte.Hir.Resolve.resolve_path yarte.Hir.Scope.get_by
    yarte.Hir.Path.is_tuple_index root yarte.Hir.Blocks.each_by yarte.Hir.Constants.eval_iter
    yarte.Hir.Lower.visit_written yarte.Hir.Generator.handle_ws
    yarte.Hir.Generator.write_buf_writable yarte.Hir.Scope.push_ident yarte.Hir.Scope.push_scope
    yarte.Hir.Scope.numbered yarte.Hir.Scope.get yarte.Hir.Scope.pop yarte.Hir.Constants.const_eval
    yarte.Hir.Scope.find_last yarte.Hir.Validator.each yarte.Hir.Validator.expression
    yarte.Hir.Blocks.each_loop
handle-balanced_example =
    handle-balanced (visited rust quote) (joined rust input 0) (visited-KeepsScopes rust quote) 0 []
      loop_text last_state.0 last_state.1 refl

-- `let x = y`, in the names of the template.
abbrev names : Names Syntax
names = record {
  scp = record { scope = name (codes "self") ∷ []; level = []; count = 0 };
  on = [];
  partial = none;
}

abbrev let_text : Syntax
let_text = let_expr (pat_ident (codes "x") false) (name (codes "y"))

abbrev let_names : Names Syntax
let_names = record names {
  scp = record {
    scope = name (codes "self") ∷ name (codes "x__0x00000000") ∷ [];
    level = [];
    count = 1;
  };
}

abbrev let_visited : Syntax
let_visited =
    let_expr (pat_ident (codes "x__0x00000000") false)
      (node 0 (two (name (codes "self")) (name (codes "y"))))

visit-Extends_example : Extends names let_names
unfolding visit yarte.Hir.Resolve.resolve_path yarte.Hir.Scope.get_by yarte.Hir.Path.is_tuple_index
    root yarte.Hir.Scope.push_ident yarte.Hir.Scope.push_scope yarte.Hir.Scope.numbered
    yarte.Hir.Scope.pops yarte.Hir.Visitor.popped_all yarte.Hir.Visitor.declared
visit-Extends_example = visit-Extends quote name names let_text let_names let_visited refl
