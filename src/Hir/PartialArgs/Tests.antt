-- ===== src/Hir/PartialArgs/Tests.antt =====
-- Concrete arguments.
use yarte.Base.{true, false, ◌||◌, List, [], ◌∷◌, none, some, Str, codes, ◌≡◌, refl}
use yarte.Parser.Result.{panic}
use yarte.Hir.Rust.{Kind}
use yarte.Hir.Path.{is_tuple_index}
use yarte.Hir.Resolve.{arg_of}
use yarte.Hir.PartialArgs.{Argument, assign, path, other, is_reserved, visit_partial}
use yarte.Hir.PartialArgs.Lookup.{Sorted}
use yarte.Hir.PartialArgs.Assigned.{assigned_to, scope_of, visit_partial-assigned}

-- A name, an assignment of a name to a name, or a literal.
data Arg : Type 0 where
  name : Str → Arg
  assigns : Str → Str → Arg
  literal : Arg

abbrev kind : Arg → Kind
kind (name _) = Kind.path
kind (assigns _ _) = Kind.assign
kind literal = Kind.lit

abbrev argument : Arg → Argument Arg
argument (name s) =
    path (record { qself = false; attributes = false; leading_colon = false; segments = s ∷ [] })
argument (assigns s t) = assign (name s) (name t)
argument literal = other

-- `{{> p this, b = x, a = y}}`.
abbrev args : List Arg
args = name (codes "this") ∷ assigns (codes "b") (codes "x") ∷ assigns (codes "a") (codes "y") ∷ []

abbrev taken : List (Str × Arg)
taken = (codes "a", name (codes "y")) ∷ (codes "b", name (codes "x")) ∷ []

visit_partial-assigned_example :
    Sorted taken
    × ((l : Str) → arg_of l taken ≡ assigned_to kind argument l args)
    × ((l : Str) → (is_reserved l || is_tuple_index l) ≡ true → arg_of l taken ≡ none)
    × (some (name (codes "this")) ≡ scope_of kind argument args)
unfolding visit_partial is_tuple_index
visit_partial-assigned_example =
    visit_partial-assigned kind argument args taken (some (name (codes "this"))) refl

-- One name twice.
twice-panic :
    visit_partial kind argument
      (assigns (codes "a") (codes "x") ∷ assigns (codes "a") (codes "y") ∷ [])
    ≡ panic
unfolding visit_partial is_tuple_index
twice-panic = refl
