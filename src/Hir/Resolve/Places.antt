-- ===== src/Hir/Resolve/Places.antt =====
-- What `resolve_path` looks up, with the helpers around a name as a list of what they bind.
use yarte.Base.{
  ℕ, zero, suc, false, List, [], ◌∷◌, Option, none, some, Str, codes, str_eq, if◌then◌else◌, drop,
  get_elem?, ◌≡◌,
}
use yarte.Parser.Result.{Result, ok, panic}
use yarte.Hir.Scope.{get_by}
use yarte.Hir.Rust.{On, Names}
use yarte.Hir.Path.{ExprPath, is_tuple_index, from_digits}
use yarte.Hir.Resolve.{Quote}

-- `super::` so many times, and an identifier.
abbrev pub behind_supers : ℕ → Str → List Str
behind_supers zero ident = ident ∷ []
behind_supers (suc j) ident = codes "super" ∷ behind_supers j ident

abbrev pub supers : ℕ → List Str
supers zero = []
supers (suc j) = codes "super" ∷ supers j

abbrev pub plain_path : List Str → ExprPath
plain_path ss = record { qself = false; attributes = false; leading_colon = false; segments = ss }

-- What a helper binds: `each` the element and, where its block uses it, the index; `with` a value.
pub data Place (Expr : Type 0) : Type 0 where
  in_each : Expr → Option Expr → Place Expr
  in_with : Expr → Place Expr

module _ {Expr : Type 0} where
  -- The scopes at which `on` stands begin with what the helpers bind.
  pub data Stands (scopes : List (List Expr)) : List On → List (Place Expr) → Type 0 where
    nowhere : Stands scopes [] []
    each_on :
        {j : ℕ} {v : Expr} {rest : List Expr} {on : List On} {ps : List (Place Expr)}
        → get_elem? scopes j ≡ some (v ∷ rest)
        → Stands scopes on ps
        → Stands scopes (On.each j ∷ on) (in_each v (get_elem? rest 0) ∷ ps)
    with_on :
        {j : ℕ} {v : Expr} {rest : List Expr} {on : List On} {ps : List (Place Expr)}
        → get_elem? scopes j ≡ some (v ∷ rest)
        → Stands scopes on ps
        → Stands scopes (On.with_scope j ∷ on) (in_with v ∷ ps)

  module _ (quote : Quote Expr) where
    -- The field of a value with a name, or with a number where the name is `_` and digits.
    abbrev pub field_of : Expr → Str → Result (Option Expr)
    field_of e ident =
        if is_tuple_index ident
        then elim (from_digits 0 (drop 1 ident)) [
          | none ↦ panic
          | some n ↦ ok (quote.index_field e n)
        ]
        else ok (quote.field e ident)

    abbrev pub of_index : Option Expr → (Expr → Option Expr) → Result (Option Expr)
    of_index none f = panic
    of_index (some e) f = ok (f e)

    -- What an identifier is in one helper.
    abbrev pub in_place : Place Expr → Str → Result (Option Expr)
    in_place (in_with e) ident = field_of e ident
    in_place (in_each e i) ident =
        if str_eq ident (codes "index0")
        then of_index i (λ e. some e)
        else if str_eq ident (codes "index")
        then of_index i quote.plus_one
        else if str_eq ident (codes "first")
        then of_index i quote.equals_zero
        else if str_eq ident (codes "this")
        then ok (some e)
        else field_of e ident

    -- What an identifier is behind so many `super::`, the innermost helper first: the root is around
    -- the outermost, and there is nothing around the root.
    abbrev pub looked_up : Expr → List (Place Expr) → ℕ → Str → Result (Option Expr)
    looked_up r [] zero ident = field_of r ident
    looked_up r [] (suc j) ident = panic
    looked_up r (p ∷ ps) zero ident = in_place p ident
    looked_up r (p ∷ ps) (suc j) ident = looked_up r ps j ident

    -- An identifier that is no constant or type, is not declared in the scope and is not `self`.
    pub record IsFree (names : Names Expr) (ident : Str) : Type 0 where
      pub lower : quote.starts_uppercase ident ≡ false
      pub undeclared : get_by quote.print names.scp ident ≡ none
      pub not_self : str_eq ident (codes "self") ≡ false
