-- ===== src/Hir/Resolve.antt =====
-- yarte_hir/src/lib.rs: `resolve_path`, what a path in an expression of a template stands for.
pub mod Places
pub mod LookedUp
pub mod Enter
pub mod Loop
mod Tests
use yarte.Base.{
  ℕ, zero, suc, ◌-◌, Bool, true, false, ◌||◌, ◌==◌, ltb, List, [], ◌∷◌, Option, none, some, Str,
  codes, str_eq, if◌then◌else◌, length, drop, get_elem?,
}
use yarte.Parser.Result.{Result, ok, panic, ◌>>=◌}
use yarte.Hir.Scope.{Scope, get, root, get_by}
use yarte.Hir.Rust.{On, Names}
use yarte.Hir.Path.{ExprPath, is_super, is_tuple_index, from_digits}

-- What the source makes of syn's expressions. The results of `parse2` are options.
pub record Quote (Expr : Type 0) : Type 0 where
  -- `quote!(#e).to_string()`, and whether the first character of a text is upper case.
  pub print : Expr → Str
  pub starts_uppercase : Str → Bool
  pub path : ExprPath → Expr
  pub ident : Str → Option Expr
  -- `#e.#field`, with a name and with a number, `(#e + 1)` and `(#e == 0)`.
  pub field : Expr → Str → Option Expr
  pub index_field : Expr → ℕ → Option Expr
  pub plus_one : Expr → Option Expr
  pub equals_zero : Expr → Option Expr

module _ {Expr : Type 0} where
  abbrev pub or_panic : Option Expr → Result Expr
  or_panic none = panic
  or_panic (some e) = ok e

  -- `xs[i]`, in a scope that there is.
  abbrev pub at : Option (List Expr) → ℕ → Result Expr
  at none i = panic
  at (some xs) i = or_panic (get_elem? xs i)

  -- `self.scp[j][i]`.
  unfoldable pub scope_at : Scope Expr → ℕ → ℕ → Result Expr
  scope_at s j i = do o ← get s j; at o i

  -- `partial.get(ident)`.
  unfoldable pub arg_of : Str → List (Str × Expr) → Option Expr
  arg_of ident [] = none
  arg_of ident ((k, e) ∷ es) = if str_eq k ident then some e else arg_of ident es

  -- `partial_var!`, with what follows it.
  unfoldable pub partial_var :
      Option (List (Str × Expr) × ℕ) → Str → ℕ → Result (Option Expr) → Result (Option Expr)
  unfolding arg_of
  partial_var none ident on otherwise = otherwise
  partial_var (some (partial, level)) ident on otherwise =
      if level == on
      then elim (arg_of ident partial) [ some e ↦ ok (some e) | none ↦ otherwise ]
      else otherwise

  module _ (quote : Quote Expr) where
    abbrev pub index_field : Option ℕ → Result Expr → Result (Option Expr)
    index_field none base = panic
    index_field (some n) base = do e ← base; ok (quote.index_field e n)

    -- `index_var!`, and the field with that name where it is not one.
    unfoldable pub field_var : Str → Result Expr → Result (Option Expr)
    field_var ident base =
        if is_tuple_index ident
        then index_field (from_digits 0 (drop 1 ident)) base
        else (do e ← base; ok (quote.field e ident))

    -- `each_var!`.
    unfoldable pub each_var : Scope Expr → Str → ℕ → Result (Option Expr)
    unfolding scope_at field_var
    each_var s ident j =
        if str_eq ident (codes "index0")
        then (do e ← scope_at s j 1; ok (some e))
        else if str_eq ident (codes "index")
        then (do e ← scope_at s j 1; ok (quote.plus_one e))
        else if str_eq ident (codes "first")
        then (do e ← scope_at s j 1; ok (quote.equals_zero e))
        else if str_eq ident (codes "this")
        then (do e ← scope_at s j 0; ok (some e))
        else field_var ident (scope_at s j 0)

    -- `with_var!`.
    unfoldable pub with_var : Scope Expr → Str → ℕ → Result (Option Expr)
    unfolding scope_at field_var
    with_var s ident j = field_var ident (scope_at s j 0)

    -- `self_var!`: the tuple index looks in the first scope, and a name at the root.
    unfoldable pub self_var : Scope Expr → Str → Result (Option Expr)
    unfolding field_var
    self_var s ident = field_var ident (if is_tuple_index ident then scope_at s 0 0 else root s)

    -- The helper that a name is looked up in, if there is one.
    unfoldable pub on_var : Scope Expr → Str → Option On → Result (Option Expr)
    unfolding each_var with_var self_var
    on_var s ident none = self_var s ident
    on_var s ident (some (On.each j)) = each_var s ident j
    on_var s ident (some (On.with_scope j)) = with_var s ident j

    -- A path that is one identifier.
    unfoldable pub resolve_ident : Names Expr → Str → Result (Option Expr)
    unfolding partial_var on_var
    resolve_ident names ident =
        if quote.starts_uppercase ident
        then ok (quote.ident ident)
        else partial_var names.partial ident (length names.on)
            (elim (get_by quote.print names.scp ident) [
              | some e ↦ ok (some e)
              | none ↦
                  if str_eq ident (codes "self")
                  then (do e ← root names.scp; ok (some e))
                  else on_var names.scp ident (get_elem? names.on 0)
            ])

    -- The first of `on` is the last of the source's vector, so `self.on[self.on.len() - j - 1]` is
    -- its element `j`.
    abbrev pub on_at : Scope Expr → Str → Option On → Result (Option Expr)
    on_at s ident none = panic
    on_at s ident (some on) = on_var s ident (some on)

    -- An identifier behind `j` times `super::`.
    unfoldable pub resolve_super : Names Expr → ℕ → Str → Result (Option Expr)
    unfolding partial_var on_var
    resolve_super names j ident =
        if length names.on == 0
        then panic
        else if length names.on == j
        then partial_var names.partial ident j (self_var names.scp ident)
        else if ltb j (length names.on)
        then partial_var names.partial ident j (on_at names.scp ident (get_elem? names.on j))
        else panic

    abbrev pub super_or_path : Names Expr → ExprPath → Option (ℕ × Str) → Result (Option Expr)
    super_or_path names p (some (j, ident)) = resolve_super names j ident
    super_or_path names p none =
        ok (some (quote.path (record p { qself = false; attributes = false })))

    abbrev pub resolve_segments : Names Expr → ExprPath → List Str → Result (Option Expr)
    resolve_segments names p (ident ∷ []) = resolve_ident names ident
    resolve_segments names p ss = do o ← is_super ss; super_or_path names p o

    -- `resolve_path`; none is its `Err`.
    unfoldable pub resolve_path : Names Expr → ExprPath → Result (Option Expr)
    unfolding resolve_ident resolve_super
    resolve_path names p =
        if p.qself || p.attributes then ok none else resolve_segments names p p.segments
