-- ===== src/Hir/Resolve/Tests.antt =====
-- Concrete names. An expression is its text.
use yarte.Base.{
  Bool, true, false, List, [], ◌∷◌, ◌++◌, none, some, Str, codes, leb, ◌&&◌, ◌≡◌, refl,
}
use yarte.Parser.Result.{ok, panic}
use yarte.Hir.Scope.{Scope}
use yarte.Hir.Scope.Frames.{Holds}
use yarte.Hir.Rust.{On, Names}
use yarte.Hir.Resolve.{Quote, resolve_path}
use yarte.Hir.Resolve.LookedUp.{resolve_path-looked_up}
use yarte.Hir.Resolve.Places.{
  Place, in_each, Stands, nowhere, each_on, IsFree, looked_up, behind_supers, plain_path,
}
use yarte.Hir.Rust.{Rust}
use yarte.Hir.Resolve.Loop.{in_loop, element, loop_counter, resolve_path-in_loop}
use yarte.Hir.Resolve.Enter.{entered, on_of, resolve_path-super}

abbrev first_of : List Str → Str
first_of [] = []
first_of (s ∷ _) = s

abbrev starts_uppercase : Str → Bool
starts_uppercase [] = false
starts_uppercase (c ∷ _) = leb b'A' c && leb c b'Z'

abbrev quote : Quote Str
quote = record {
  print = λ e. e;
  starts_uppercase = starts_uppercase;
  path = λ p. first_of p.segments;
  ident = λ s. some s;
  field = λ e s. some (e ++ codes "." ++ s);
  index_field = λ e n. some (e ++ codes "." ++ (b'0' ∷ []));
  plus_one = λ e. some (e ++ codes " + 1");
  equals_zero = λ e. some (e ++ codes " == 0");
}

-- In a loop: the element `v` and the index `i`.
abbrev loop_names : Names Str
loop_names = record {
  scp = record { scope = codes "self" ∷ codes "v" ∷ codes "i" ∷ []; level = 1 ∷ []; count = 2 };
  on = On.each 1 ∷ [];
  partial = none;
}

loop_names-Holds : Holds loop_names.scp (codes "self" ∷ []) ((codes "v" ∷ codes "i" ∷ []) ∷ [])
loop_names-Holds = record { scope_is = refl; level_is = refl }

abbrev loop_places : List (Place Str)
loop_places = in_each (codes "v") (some (codes "i")) ∷ []

loop_names-Stands :
    Stands ((codes "self" ∷ []) ∷ (codes "v" ∷ codes "i" ∷ []) ∷ []) loop_names.on loop_places
loop_names-Stands = each_on {j = 1} {rest = codes "i" ∷ []} refl nowhere

free : IsFree quote loop_names (codes "index")
unfolding yarte.Hir.Scope.get_by
free = record { lower = refl; undeclared = refl; not_self = refl }

resolve_path-looked_up_example :
    resolve_path quote loop_names (plain_path (behind_supers 0 (codes "index")))
    ≡ looked_up quote (codes "self") loop_places 0 (codes "index")
resolve_path-looked_up_example =
    resolve_path-looked_up quote loop_names (codes "self") [] ((codes "v" ∷ codes "i" ∷ []) ∷ [])
      loop_places 0 (codes "index") loop_names-Holds loop_names-Stands refl (λ _. free)

looked_up-index :
    looked_up quote (codes "self") loop_places 0 (codes "index") ≡ ok (some (codes "i + 1"))
looked_up-index = refl

-- In a `with` of that loop.
resolve_path-super_example :
    resolve_path quote
      (entered loop_names (on_of false) (codes "w" ∷ []))
      (plain_path (codes "super" ∷ behind_supers 0 (codes "index")))
    ≡ resolve_path quote loop_names (plain_path (behind_supers 0 (codes "index")))
resolve_path-super_example =
    resolve_path-super quote loop_names (codes "self") [] ((codes "v" ∷ codes "i" ∷ []) ∷ [])
      loop_places false (codes "w") [] 0 (codes "index") loop_names-Holds loop_names-Stands refl
      (λ _. free)

abbrev rust : Rust Str Str
rust = record {
  kind = λ _. yarte.Hir.Rust.Kind.path;
  has_attributes = λ _. false;
  visit_expr = λ names e. panic;
  visit_local = λ names e. panic;
  eval = λ _. none;
  escape = λ s. s;
  parse_value = λ _. panic;
  parse_index = λ i. codes "i";
  ident = λ s. s;
  negate = λ e. e;
  enumerate_range = λ e. e;
  enumerate = λ e. e;
  into_iter = λ e. e;
  pair = λ a b. a;
}

IsFree-inside : IsFree quote (in_loop rust true loop_names) (codes "index")
unfolding yarte.Hir.Scope.get_by yarte.Hir.Scope.push_scope yarte.Hir.Scope.push_ident
    yarte.Hir.Scope.numbered
IsFree-inside = record { lower = refl; undeclared = refl; not_self = refl }

-- The index of a loop in a loop.
resolve_path-in_loop_example :
    resolve_path quote (in_loop rust true loop_names) (plain_path (behind_supers 0 (codes "index")))
    ≡ looked_up quote
        (codes "self")
        (in_each (element rust loop_names) (loop_counter rust true loop_names) ∷ loop_places)
        0
        (codes "index")
resolve_path-in_loop_example =
    resolve_path-in_loop rust quote loop_names (codes "self") [] ((codes "v" ∷ codes "i" ∷ []) ∷ [])
      loop_places true 0 (codes "index") loop_names-Holds loop_names-Stands refl
      (λ _. IsFree-inside)

-- Without the counter the index is a panic.
no_counter-index :
    looked_up quote
      (codes "self")
      (in_each (element rust loop_names) (loop_counter rust false loop_names) ∷ loop_places)
      0
      (codes "index")
    ≡ panic
no_counter-index = refl
