-- ===== src/Hir/Build/Tests.antt =====
-- Concrete templates, whose expressions are numbers: 0 is the constant `false`, 1 the constant
-- `true`, and the others are not constant.
use yarte.Base.{
  ℕ, zero, suc, Bool, true, false, inl, List, [], Option, none, some, ◌≡◌, refl, Str, codes, ◌⊎◌,
}
use yarte.Parser.Result.{Result, ok}
use yarte.Parser.Syntax.{
  S, Span, Node, Helper, Nodes, nil, cons, no_branch, branch, no_else, else_block,
}
use yarte.Hir.Rust.{path, Value, bool, Rust, Input}
use yarte.Hir.Generator.{Hir, Hirs, IfElses, no_more, more, Els, no_els, els}
use yarte.Hir.Validator
use yarte.Hir.Constants.{eval_bool, text_of}
use yarte.Hir.Generator.{write_buf_writable}
use yarte.Hir.Lower.{start}
use yarte.Hir.Build.{build, apart, or_empty, result}
use yarte.Hir.Build.Apart.Walk.{build-apart}

abbrev constant : ℕ → Option Value
constant zero = some (bool false)
constant (suc zero) = some (bool true)
constant (suc (suc n)) = none

abbrev rust : Rust ℕ ℕ
rust = record {
  kind = λ _. path;
  has_attributes = λ _. false;
  visit_expr = λ names e. ok (names, e);
  visit_local = λ names e. ok (names, e);
  eval = constant;
  escape = λ s. s;
  parse_value = λ _. ok 2;
  parse_index = λ i. i;
  ident = λ _. 9;
  negate = λ e. suc e;
  enumerate_range = λ e. e;
  enumerate = λ e. e;
  into_iter = λ e. e;
  pair = λ a b. a;
}

abbrev input : Input ℕ ℕ
input = record {
  resolve_partial = λ _ s. s;
  ctx = λ _. none;
  text_mode = false;
  find_loop_var = λ _ _. ok false;
  visit_partial = λ _. ok ([], none);
}

abbrev at_zero : Span
at_zero = record { lo = 0; hi = 0 }

abbrev e : ℕ → S ℕ
e n = record { t = n; span = at_zero }

abbrev text : Str → Nodes ℕ ℕ → Nodes ℕ ℕ
text s ns = cons (Node.lit [] (record { t = s; span = at_zero }) []) at_zero ns

abbrev lowered : Nodes ℕ ℕ → Result (Hirs ℕ ℕ ⊎ List Validator.ErrorMessage)
lowered ns = build rust input 0 [] ns

abbrev plain : Bool × Bool
plain = (false, false)

-- `x{{# if f}}a{{else if t}}b{{else}}c{{/if}}`, for two conditions.
abbrev if_text : ℕ → ℕ → Nodes ℕ ℕ
if_text f t = text (codes "x") (
    cons
      (Node.helper (
        Helper.if_else plain plain (e f) (text (codes "a") nil)
          (branch plain (e t) (text (codes "b") nil) no_branch)
          (else_block plain (text (codes "c") nil))))
      at_zero nil)

abbrev if_form : Hirs ℕ ℕ
if_form = Hirs.cons (Hir.lit (codes "x")) (
    Hirs.cons
      (Hir.if_else 2 (Hirs.cons (Hir.lit (codes "a")) Hirs.nil)
        (more 3 (Hirs.cons (Hir.lit (codes "b")) Hirs.nil) no_more)
        (els (Hirs.cons (Hir.lit (codes "c")) Hirs.nil)))
      Hirs.nil)

build-apart_example :
    (apart {Expr = ℕ} {Local = ℕ} (or_empty (write_buf_writable (start rust input []) if_form).1)
      ≡ true)
    × (build rust input 0 [] (if_text 2 3)
        ≡ ok (result [] (or_empty (write_buf_writable (start rust input []) if_form).1)))
unfolding build yarte.Hir.Validator.ifs yarte.Hir.Conditions.first_by yarte.Hir.Constants.eval_bool
    yarte.Hir.Scope.pop yarte.Hir.Generator.handle_ws yarte.Hir.Scope.push_scope
    yarte.Hir.Generator.visit_lit yarte.Hir.Chain.write_chain yarte.Hir.Conditions.take_branch
    yarte.Hir.Conditions.take_else yarte.Hir.Generator.write_buf_writable yarte.Hir.Chain.finish_if
    yarte.Hir.Conditions.branch_by
build-apart_example = build-apart rust input 0 [] (if_text 2 3) (start rust input []) if_form refl

-- `x{{# if false }}a{{else if true}}b{{else}}c{{/if}}` renders both blocks.
if_text-build :
    build rust input 0 [] (if_text 0 1) ≡ ok (inl (Hirs.cons (Hir.lit (codes "xbc")) Hirs.nil))
unfolding build yarte.Hir.Conditions.first_by yarte.Hir.Constants.eval_bool yarte.Hir.Scope.pop
    yarte.Hir.Generator.handle_ws yarte.Hir.Scope.push_scope yarte.Hir.Generator.visit_lit
    yarte.Hir.Chain.write_chain yarte.Hir.Conditions.take_branch yarte.Hir.Conditions.take_else
    yarte.Hir.Generator.write_buf_writable yarte.Hir.Chain.finish_if yarte.Hir.Conditions.branch_by
if_text-build = refl

-- `x{{# if false }}a{{else if v}}b{{/if}}`: the text in front of the helper is in the body.
abbrev behind_false : Nodes ℕ ℕ
behind_false = text (codes "x") (
    cons
      (Node.helper (
        Helper.if_else plain plain (e 0) (text (codes "a") nil)
          (branch plain (e 2) (text (codes "b") nil) no_branch) no_else))
      at_zero nil)

behind_false-build :
    build rust input 0 [] behind_false
    ≡ ok (
        inl (
          Hirs.cons
            (Hir.if_else 2 (Hirs.cons (Hir.lit (codes "xb")) Hirs.nil) no_more no_els)
            Hirs.nil))
unfolding build yarte.Hir.Validator.ifs yarte.Hir.Conditions.first_by yarte.Hir.Constants.eval_bool
    yarte.Hir.Scope.pop yarte.Hir.Generator.handle_ws yarte.Hir.Scope.push_scope
    yarte.Hir.Generator.visit_lit yarte.Hir.Chain.write_chain yarte.Hir.Conditions.take_branch
    yarte.Hir.Conditions.take_else yarte.Hir.Generator.write_buf_writable yarte.Hir.Chain.finish_if
    yarte.Hir.Conditions.branch_by
behind_false-build = refl

-- `x{{# if v }}a{{else if true}}b{{/if}}`: the text of the last block is in the first.
abbrev last_true : Nodes ℕ ℕ
last_true = text (codes "x") (
    cons
      (Node.helper (
        Helper.if_else plain plain (e 2) (text (codes "a") nil)
          (branch plain (e 1) (text (codes "b") nil) no_branch) no_else))
      at_zero nil)

last_true-build :
    build rust input 0 [] last_true
    ≡ ok (
        inl (
          Hirs.cons (Hir.lit (codes "x")) (
            Hirs.cons
              (Hir.if_else 2
                (Hirs.cons (Hir.lit (codes "a")) (Hirs.cons (Hir.lit (codes "b")) Hirs.nil))
                no_more
                no_els)
              Hirs.nil)))
unfolding build yarte.Hir.Validator.ifs yarte.Hir.Conditions.first_by yarte.Hir.Constants.eval_bool
    yarte.Hir.Scope.pop yarte.Hir.Generator.handle_ws yarte.Hir.Scope.push_scope
    yarte.Hir.Generator.visit_lit yarte.Hir.Chain.write_chain yarte.Hir.Conditions.take_branch
    yarte.Hir.Conditions.take_else yarte.Hir.Generator.write_buf_writable yarte.Hir.Chain.finish_if
    yarte.Hir.Conditions.branch_by
last_true-build = refl
