-- ===== src/Parser/Syntax.antt =====
-- yarte_parser/src/lib.rs and source_map.rs: the nodes of a template, with their spans.
-- The Rust expressions inside a template are syn's: their types and their parsers are parameters.
use yarte.Base.{ℕ, ◌+◌, Bool, List, Option, none, some, Str}
use yarte.Parser.Result.{Result, ok, err, fail}
use yarte.Parser.Cursor.{Cursor, u32}

-- `syn::parse_str` at `Expr`, `StmtLocal` and `ExprList`, and the tests of unicode_xid.
pub record Syn (Expr Local : Type 0) : Type 0 where
  pub parse_expr : Str → Option Expr
  pub parse_local : Str → Option Local
  pub parse_expr_list : Str → Option (List Expr)
  pub is_xid_start : ℕ → Bool
  pub is_xid_continue : ℕ → Bool

pub record Span : Type 0 where
  pub lo : ℕ
  pub hi : ℕ

-- `S`: a value with its span.
pub record S (T : Type 0) : Type 0 where
  pub t : T
  pub span : Span

unfoldable pub from_cursor : Cursor → Cursor → Span
from_cursor a b = record { lo = a.off; hi = b.off }

unfoldable pub from_len : Cursor → ℕ → Span
from_len i n = record { lo = i.off; hi = u32 (i.off + u32 n) }

-- `Ws`: whether a tag trims the white space on its left and on its right.
abbrev pub Ws : Type 0
Ws = Bool × Bool

pub record Partial (Expr : Type 0) : Type 0 where
  pub ws : Ws
  pub path : S Str
  pub args : S (List Expr)

-- `Nodes` is `Vec<SNode>`; `Branches` and `Else` are the last two fields of `Helper::If`.
mutual
  pub data Node (Expr Local : Type 0) : Type 0 where
    comment : Str → Node Expr Local
    expr : Ws → S Expr → Node Expr Local
    helper : Helper Expr Local → Node Expr Local
    lit : Str → S Str → Str → Node Expr Local
    local : S Local → Node Expr Local
    partial : Partial Expr → Node Expr Local
    raw : Ws → Ws → Str → S Str → Str → Node Expr Local
    safe : Ws → S Expr → Node Expr Local

  pub data Helper (Expr Local : Type 0) : Type 0 where
    each : Ws → Ws → S Expr → Nodes Expr Local → Helper Expr Local
    if_else :
        Ws
        → Ws
        → S Expr
        → Nodes Expr Local
        → Branches Expr Local
        → Else Expr Local
        → Helper Expr Local
    with_scope : Ws → Ws → S Expr → Nodes Expr Local → Helper Expr Local
    unless : Ws → Ws → S Expr → Nodes Expr Local → Helper Expr Local
    defined : Ws → Ws → Str → S Expr → Nodes Expr Local → Helper Expr Local

  pub data Nodes (Expr Local : Type 0) : Type 0 where
    nil : Nodes Expr Local
    cons : Node Expr Local → Span → Nodes Expr Local → Nodes Expr Local

  pub data Branches (Expr Local : Type 0) : Type 0 where
    no_branch : Branches Expr Local
    branch : Ws → S Expr → Nodes Expr Local → Branches Expr Local → Branches Expr Local

  pub data Else (Expr Local : Type 0) : Type 0 where
    no_else : Else Expr Local
    else_block : Ws → Nodes Expr Local → Else Expr Local

module _ {Expr Local : Type 0} where
  -- `Vec::push`.
  abbrev pub push : Nodes Expr Local → Node Expr Local → Span → Nodes Expr Local
  push nil n s = cons n s nil
  push (cons m r ns) n s = cons m r (push ns n s)

  abbrev pub push_branch :
      Branches Expr Local → Ws → S Expr → Nodes Expr Local → Branches Expr Local
  push_branch no_branch w e b = branch w e b no_branch
  push_branch (branch w' e' b' bs) w e b = branch w' e' b' (push_branch bs w e b)

-- `eat_expr`, `eat_local`, `eat_expr_list`: any error of syn stops the parser.
abbrev pub or_fail : {A : Type 0} → Option A → Result A
or_fail none = err fail
or_fail (some a) = ok a
