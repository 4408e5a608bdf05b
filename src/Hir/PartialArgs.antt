-- ===== src/Hir/PartialArgs.antt =====
-- yarte_hir/src/visit_partial.rs and `partial_assign` of validator.rs: the arguments of a partial.
-- The map from names to expressions is a list in the order of the names, as `BTreeMap` keeps it.
pub mod Order
pub mod Lookup
pub mod Assigned
mod Tests
use yarte.Base.{
  ℕ, Bool, true, false, not, ◌||◌, ◌==◌, ltb, List, [], ◌∷◌, Option, none, some, Str, codes, str_eq,
  if◌then◌else◌,
}
use yarte.Parser.Result.{Result, ok, panic, ◌>>=◌}
use yarte.Hir.Rust.{Kind, field, index, lit, reference, array, range}
use yarte.Parser.Cursor.{is_empty}
use yarte.Hir.Path.{ExprPath, is_tuple_index}

-- How `visit_partial` reads an expression: as `left = right`, as a path, or as another one.
pub data Argument (Expr : Type 0) : Type 0 where
  assign : Expr → Expr → Argument Expr
  path : ExprPath → Argument Expr
  other : Argument Expr

-- `validator::partial_assign` panics on the other kinds.
unfoldable pub partial_assign : Kind → Result (Unit {0})
partial_assign Kind.path = ok tt
partial_assign field = ok tt
partial_assign index = ok tt
partial_assign lit = ok tt
partial_assign reference = ok tt
partial_assign array = ok tt
partial_assign range = ok tt
partial_assign _ = panic

-- `str` in its order.
unfoldable pub str_lt : Str → Str → Bool
str_lt [] [] = false
str_lt [] (d ∷ t) = true
str_lt (c ∷ s) [] = false
str_lt (c ∷ s) (d ∷ t) = ltb c d || (if c == d then str_lt s t else false)

-- `RESERVED_WORDS.contains`.
abbrev pub is_reserved : Str → Bool
is_reserved s = str_eq s (codes "self") || str_eq s (codes "super")

-- The one segment of a path that can be a name.
abbrev pub name_of : List Str → Result Str
name_of (ident ∷ []) = if is_reserved ident || is_tuple_index ident then panic else ok ident
name_of _ = panic

module _ {Expr : Type 0} where
  -- `BTreeMap::insert` where the key is new, and none where it is not.
  unfoldable pub insert : Str → Expr → List (Str × Expr) → Option (List (Str × Expr))
  unfolding str_lt
  insert k e [] = some ((k, e) ∷ [])
  insert k e ((l, d) ∷ es) =
      let rest = insert k e es in
      if str_eq k l
      then none
      else if str_lt k l
      then some ((k, e) ∷ (l, d) ∷ es)
      else elim rest [ none ↦ none | some r ↦ some ((l, d) ∷ r) ]

  module _ (kind : Expr → Kind) (argument : Expr → Argument Expr) where
    -- `visit_expr`: the name in `ident`, where none is there yet.
    abbrev pub name : Str → Argument Expr → Result Str
    name ident (Argument.path p) =
        if p.qself
        then panic
        else if p.leading_colon
        then panic
        else if not (is_empty ident)
        then panic
        else name_of p.segments
    name ident _ = panic

    abbrev pub inserted : Option (List (Str × Expr)) → Result (List (Str × Expr))
    inserted none = panic
    inserted (some ctx) = ok ctx

    -- `visit_expr_assign`, on the map `ctx`; `ident` is empty in front of it and behind it.
    unfoldable pub visit_expr_assign : Expr → Expr → List (Str × Expr) → Result (List (Str × Expr))
    unfolding insert partial_assign
    visit_expr_assign left right ctx = do
      _ ← partial_assign (kind right)
      ident ← name [] (argument left)
      inserted (insert ident right ctx)

    abbrev pub rest_arg : Argument Expr → List (Str × Expr) → Result (List (Str × Expr))
    rest_arg (Argument.assign left right) ctx = visit_expr_assign left right ctx
    rest_arg _ ctx = panic

    -- The loop of `build`.
    unfoldable pub visit_rest : List Expr → List (Str × Expr) → Result (List (Str × Expr))
    unfolding visit_expr_assign
    visit_rest [] ctx = ok ctx
    visit_rest (e ∷ es) ctx = rest_arg (argument e) ctx >>= visit_rest es

    abbrev pub first_arg : Expr → Argument Expr → Result (List (Str × Expr) × Option Expr)
    first_arg e (Argument.assign left right) = do
      ctx ← visit_expr_assign left right []
      ok (ctx, none)
    first_arg e (Argument.path _) = ok ([], some e)
    first_arg e Argument.other = panic

    -- `visit_partial`.
    unfoldable pub visit_partial : List Expr → Result (List (Str × Expr) × Option Expr)
    unfolding visit_rest
    visit_partial [] = panic
    visit_partial (e ∷ es) = do
      (ctx, scope) ← first_arg e (argument e)
      ctx ← visit_rest es ctx
      ok (ctx, scope)
