-- ===== src/Hir/Validator.antt =====
-- yarte_hir/src/validator.rs: the expressions that a template may hold, place by place.
use yarte.Base.{Bool, true, false, List, [], ◌∷◌, ◌++◌, Str, codes}
use yarte.Parser.Syntax.{S, Span}
use yarte.Hir.Rust.{
  Kind, binary, call, field, if_expr, index, let_expr, lit, loop_expr, macro_call, match_expr,
  method_call, negation, paren, path, range, reference, try_expr, unary, unsafe, Rust,
}

-- `ErrorMessage`.
pub record ErrorMessage : Type 0 where
  pub message : Str
  pub span : Span

abbrev pub report : Bool → Str → Span → List ErrorMessage → List ErrorMessage
report true message span out = out
report false message span out = out ++ record { message = message; span = span } ∷ []

-- The kinds that pass each function without an error.
abbrev pub in_expression : Kind → Bool
in_expression binary = true
in_expression call = true
in_expression method_call = true
in_expression index = true
in_expression field = true
in_expression path = true
in_expression paren = true
in_expression macro_call = true
in_expression lit = true
in_expression try_expr = true
in_expression unary = true
in_expression negation = true
in_expression unsafe = true
in_expression if_expr = true
in_expression loop_expr = true
in_expression match_expr = true
in_expression _ = false

abbrev pub in_ifs : Kind → Bool
in_ifs let_expr = true
in_ifs k = in_expression k

abbrev pub in_each : Kind → Bool
in_each call = true
in_each method_call = true
in_each index = true
in_each field = true
in_each path = true
in_each paren = true
in_each macro_call = true
in_each try_expr = true
in_each unsafe = true
in_each if_expr = true
in_each loop_expr = true
in_each match_expr = true
in_each range = true
in_each reference = true
in_each _ = false

abbrev pub in_unless : Kind → Bool
in_unless binary = true
in_unless call = true
in_unless method_call = true
in_unless index = true
in_unless field = true
in_unless path = true
in_unless paren = true
in_unless macro_call = true
in_unless lit = true
in_unless try_expr = true
in_unless match_expr = true
in_unless unary = true
in_unless _ = false

abbrev pub unless_message : Kind → Str
unless_message negation = codes "Unary negate operator in `unless helper`, use `if helper` instead"
unless_message _ = codes "Not available Rust expression in a template `unless helper` expression"

abbrev pub in_scope : Kind → Bool
in_scope path = true
in_scope field = true
in_scope index = true
in_scope _ = false

module _ {Expr Local : Type 0} (rust : Rust Expr Local) where
  unfoldable pub expression : S Expr → List ErrorMessage → List ErrorMessage
  expression e out =
      report (in_expression (rust.kind e.t))
        (codes "Not available Rust expression in a template expression") e.span out

  unfoldable pub ifs : S Expr → List ErrorMessage → List ErrorMessage
  ifs e out =
      report (in_ifs (rust.kind e.t))
        (codes "Not available Rust expression in a template `if helper` arguments") e.span out

  unfoldable pub each : S Expr → List ErrorMessage → List ErrorMessage
  each e out =
      report (in_each (rust.kind e.t))
        (codes "Not available Rust expression in a template `each helper` argument") e.span out

  unfoldable pub unless : S Expr → List ErrorMessage → List ErrorMessage
  unless e out = report (in_unless (rust.kind e.t)) (unless_message (rust.kind e.t)) e.span out

  unfoldable pub scope : S Expr → List ErrorMessage → List ErrorMessage
  scope e out =
      report (in_scope (rust.kind e.t)) (codes "Not available Rust expression in scope argument")
        e.span out
