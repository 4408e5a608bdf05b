-- ===== src/Hir/Rust.antt =====
-- What yarte_hir uses of syn, quote, v_eval and v_htmlescape. Their expressions are a type
-- parameter; the rest is a record of functions.
use yarte.Base.{ℕ, Bool, List, Option, Str}
use yarte.Parser.Result.{Result}
use yarte.Parser.Syntax.{Nodes}
use yarte.Hir.Scope.{Scope}

-- The variants of `syn::Expr` that the source tells apart. `negation` is a `Unary` with `UnOp::Not`.
pub data Kind : Type 0 where
  array assign assign_op binary call field if_expr index let_expr lit loop_expr macro_call : Kind
  match_expr method_call negation paren path range reference try_expr unary unsafe other : Kind

-- `v_eval::Value`; a number is its text, which is all that the source uses of it.
mutual
  pub data Value : Type 0 where
    int : Str → Value
    float : Str → Value
    bool : Bool → Value
    str : Str → Value
    vec : Values → Value
    range : List Str → Value
    other : Value

  pub data Values : Type 0 where
    nil : Values
    cons : Value → Values → Values

-- `On`.
pub data On : Type 0 where
  each : ℕ → On
  with_scope : ℕ → On

-- The fields of `Generator` by which an expression's names are resolved: `scp`, `on`, `partial`.
-- The first of `on` is the last of the source's vector.
pub record Names (Expr : Type 0) : Type 0 where
  pub scp : Scope Expr
  pub on : List On
  pub partial : Option (List (Str × Expr) × ℕ)

pub record Rust (Expr Local : Type 0) : Type 0 where
  pub kind : Expr → Kind
  pub has_attributes : Expr → Bool
  -- The visitor of visits.rs, which may declare names.
  pub visit_expr : Names Expr → Expr → Result (Names Expr × Expr)
  pub visit_local : Names Expr → Local → Result (Names Expr × Local)
  pub eval : Expr → Option Value
  pub escape : Str → Str
  -- `parse_str(&v.to_string())` of a value and of a number, and the identifier of a text.
  pub parse_value : Value → Result Expr
  pub parse_index : ℕ → Expr
  pub ident : Str → Expr
  -- `!(cond)`, `((args).enumerate())`, `((&(args)).into_iter().enumerate())`,
  -- `((&(args)).into_iter())` and `(i, v)`.
  pub negate : Expr → Expr
  pub enumerate_range : Expr → Expr
  pub enumerate : Expr → Expr
  pub into_iter : Expr → Expr
  pub pair : Expr → Expr → Expr

-- The rest of what a generator reads: `Config::resolve_partial` at the file and the name, the parsed
-- files, whether the mode is `Text`, and the results of visit_each.rs and visit_partial.rs.
pub record Input (Expr Local : Type 0) : Type 0 where
  pub resolve_partial : Str → Str → Str
  pub ctx : Str → Option (Nodes Expr Local)
  pub text_mode : Bool
  pub find_loop_var : Str → Nodes Expr Local → Result Bool
  pub visit_partial : List Expr → Result (List (Str × Expr) × Option Expr)
