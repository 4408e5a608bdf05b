-- ===== src/Hir/Whole/Tests/Said.antt =====
-- A template whose expressions name nothing of the data, lowered with the visitors in place, against
-- what it renders.
use yarte.Base.{
  Bool, true, false, not, List, [], ◌∷◌, ◌++◌, Option, none, some, Str, codes, ◌≡◌, refl,
}
use yarte.Parser.Result.{ok}
use yarte.Parser.Syntax.{
  Node, Helper, Nodes, nil, cons, Branches, no_branch, branch, no_else, else_block,
}
use yarte.Hir.Rust.{Rust, Value, bool}
use yarte.Hir.Generator.{Hirs}
use yarte.Hir.Validator.{ErrorMessage}
use yarte.Hir.Constants.{eval_bool, text_of}
use yarte.Hir.Build.{build, result}
use yarte.Hir.Meaning.{Run, outs, said, trailing}
use yarte.Hir.Meaning.Simple.{
  Left, Agrees, Simple, simple_nil, simple_lit, simple_expr, simple_unless, simple_const, simple_if,
  simple_branch, simple_no_branch, simple_no_else, simple_else_block,
}
use yarte.Hir.Meaning.Preserved.{build-said}
use yarte.Hir.Meaning.Constant.{chosen, condition, no_condition}
use yarte.Hir.Meaning.Chosen.{constant_if, rendered, build-rendered}
use yarte.Hir.Visitor.{Syntax, Parts, path, node, visit}
use yarte.Hir.Whole.{visited, joined}
use yarte.Hir.Whole.Tests.{plain_path, quote, rust, input, at_zero, plain, at}

-- A node without parts is the constant `true`, one with two parts `false`, and one with a single part
-- a negation.
abbrev constant : Syntax → Option Value
constant (node n Parts.nil) = some (bool true)
constant (node n (Parts.cons a (Parts.cons b Parts.nil))) = some (bool false)
constant _ = none

abbrev constants : Rust Syntax Syntax
constants = record (visited rust quote) { eval = constant }

abbrev holds_at : List Str → Bool
holds_at (_ ∷ _ ∷ []) = false
holds_at _ = true

-- A path of two segments does not hold, and one of three does.
abbrev holds : Syntax → Bool
holds (path p) = holds_at p.segments
holds (node n Parts.nil) = true
holds (node n (Parts.cons e Parts.nil)) = not (holds e)
holds (node n (Parts.cons a (Parts.cons b Parts.nil))) = false
holds _ = true

abbrev run_text : Syntax → Bool → Str
run_text (node n Parts.nil) safe = codes "true"
run_text (node n (Parts.cons a (Parts.cons b Parts.nil))) safe = codes "false"
run_text _ safe = codes "v"

abbrev run : Run Syntax
run = record { truth = holds; text = run_text }

constant_truth : (e : Syntax) (b : Bool) → eval_bool constants e ≡ some b → holds e ≡ b
unfolding eval_bool
constant_truth (node n Parts.nil) b q = cc
constant_truth (node n (Parts.cons x (Parts.cons y Parts.nil))) b q = cc
constant_truth _ b q = cc

constant_text :
    (e : Syntax) (safe : Bool) (s : Str)
    → text_of constants false (constant e) safe ≡ some s
    → run_text e safe ≡ s
unfolding yarte.Hir.Constants.const_text
constant_text (node n Parts.nil) safe s q = cc
constant_text (node n (Parts.cons x (Parts.cons y Parts.nil))) safe s q = cc
constant_text _ safe s q = cc

agrees : Agrees constants false run
agrees = record {
  constant_truth = constant_truth;
  constant_text = constant_text;
  negated = λ e. refl;
}

-- `crate::a` and `crate::b::c`.
abbrev down : Syntax
down = plain_path (codes "crate" ∷ codes "a" ∷ [])

abbrev up : Syntax
up = plain_path (codes "crate" ∷ codes "b" ∷ codes "c" ∷ [])

abbrev sure : Syntax
sure = node 8 Parts.nil

down-Left : Left constants down
unfolding visit yarte.Hir.Resolve.resolve_path yarte.Hir.Path.is_super
down-Left = record { visited = λ names. refl; bare = refl }

up-Left : Left constants up
unfolding visit yarte.Hir.Resolve.resolve_path yarte.Hir.Path.is_super
up-Left = record { visited = λ names. refl; bare = refl }

sure-Left : Left constants sure
unfolding visit
sure-Left = record { visited = λ names. refl; bare = refl }

abbrev Text : Type 0
Text = Nodes Syntax Syntax

abbrev text : Str → Text
text s = cons (Node.lit [] (record { t = s; span = at_zero }) []) at_zero nil

abbrev helper : Helper Syntax Syntax → Text → Text
helper h ns = cons (Node.helper h) at_zero ns

text-Simple : (s : Str) → Simple constants true (text s)
text-Simple s = simple_lit (λ _. refl) simple_nil

-- `{{# unless crate::a }}y{{/unless}}{{ crate::a }}{{# if true }}z{{/if}}` and then
-- `{{# if crate::a }}a{{else if crate::b::c}}b{{else}}c{{/if}}`.
abbrev full_text : Text
full_text = helper (Helper.unless plain plain (at down) (text (codes "y"))) (
    cons (Node.expr plain (at down)) at_zero (
      helper (Helper.if_else plain plain (at sure) (text (codes "z")) no_branch no_else) (
        helper
          (Helper.if_else plain plain (at down) (text (codes "a"))
            (branch plain (at up) (text (codes "b")) no_branch)
            (else_block plain (text (codes "c"))))
          nil)))

full_text-Simple : Simple constants true full_text
unfolding eval_bool
full_text-Simple = simple_unless down-Left (text-Simple (codes "y")) (
    simple_expr down-Left (
      simple_const sure-Left refl (text-Simple (codes "z")) simple_no_else (
        simple_if down-Left refl (text-Simple (codes "a"))
          (simple_branch up-Left refl (text-Simple (codes "b")) simple_no_branch)
          (simple_else_block (text-Simple (codes "c"))) simple_nil)))

build-said_example :
    (errors : List ErrorMessage) × (form : Hirs Syntax Syntax) × (build constants
        (joined rust input 0)
        0
        []
        full_text
      ≡ ok (result errors form))
    × (outs run form ++ trailing [] full_text ≡ said run full_text)
build-said_example =
    build-said run constants (joined rust input 0) agrees 0 [] full_text full_text-Simple

-- It renders what the conditions pick.
full_text-said : said run full_text ≡ codes "yvzb"
unfolding said
full_text-said = refl

-- `{{# if false }}a{{else if true}}b{{else}}c{{/if}}`, where a node with two parts is `false`.
abbrev never : Syntax
never = node 9 (Parts.cons sure (Parts.cons sure Parts.nil))

never-Left : Left constants never
unfolding visit
never-Left = record { visited = λ names. refl; bare = refl }

abbrev further : Branches Syntax Syntax
further = branch plain (at sure) (text (codes "b")) no_branch

build-rendered_example :
    (errors : List ErrorMessage) × (form : Hirs Syntax Syntax) × (build constants
        (joined rust input 0)
        0
        []
        (constant_if
          (at never)
          (text (codes "a"))
          further
          (else_block plain (text (codes "c")))
          at_zero)
      ≡ ok (result errors form))
    × (outs run form
        ≡ rendered run constants false
            (text (codes "a"))
            further
            (else_block plain (text (codes "c"))))
unfolding eval_bool
build-rendered_example =
    build-rendered run constants (joined rust input 0) agrees (at never) false (text (codes "a"))
      further (else_block plain (text (codes "c"))) never-Left refl (text-Simple (codes "a"))
      (condition sure-Left refl (text-Simple (codes "b")) no_condition)
      (simple_else_block (text-Simple (codes "c"))) at_zero 0 []

-- It renders the blocks of the last condition and of `else`.
further-rendered :
    rendered run constants false (text (codes "a")) further (else_block plain (text (codes "c")))
    ≡ codes "bc"
unfolding said chosen eval_bool
further-rendered = refl
