-- ===== src/Hir/Scope/Tests.antt =====
-- Concrete scopes, of numbers in place of expressions.
use yarte.Base.{ℕ, [], ◌∷◌, Str, codes, arith, some, ◌≡◌, refl}
use yarte.Parser.Result.{ok}
use yarte.Hir.Scope.{Scope, pops, extend, push_scope, get, push_ident, get_by}
use yarte.Hir.Scope.Named.{push_ident-injective, get_by-push_ident}
use yarte.Hir.Scope.Frames.{Holds, get-frames, pops-push_scope, push_scope-Holds}

-- The scopes [1], [2, 3] and [4].
abbrev three : Scope ℕ
three = record { scope = 1 ∷ 2 ∷ 3 ∷ 4 ∷ []; level = 1 ∷ 3 ∷ []; count = 0 }

three-Holds : Holds three (1 ∷ []) ((2 ∷ 3 ∷ []) ∷ (4 ∷ []) ∷ [])
three-Holds = record { scope_is = refl; level_is = refl }

get-frames_example : get three 1 ≡ ok (some (2 ∷ 3 ∷ []))
get-frames_example = get-frames three (1 ∷ []) ((2 ∷ 3 ∷ []) ∷ (4 ∷ []) ∷ []) 1 three-Holds

pops-push_scope_example :
    pops (extend (push_scope three (5 ∷ [])) (6 ∷ [])) ≡ ok (three, 5 ∷ 6 ∷ [])
pops-push_scope_example = pops-push_scope three (5 ∷ []) (6 ∷ [])

push_scope-Holds_example :
    Holds (push_scope three (5 ∷ [])) (1 ∷ []) ((2 ∷ 3 ∷ []) ∷ (4 ∷ []) ∷ (5 ∷ []) ∷ [])
push_scope-Holds_example =
    push_scope-Holds three (1 ∷ []) ((2 ∷ 3 ∷ []) ∷ (4 ∷ []) ∷ []) (5 ∷ []) three-Holds

-- A scope of names, in which a loop has declared one.
abbrev named_scope : Scope Str
named_scope = record { scope = codes "self" ∷ codes "v" ∷ []; level = []; count = 5 }

abbrev other_scope : Scope Str
other_scope = record { scope = []; level = []; count = 5 }

push_ident-injective_example : named_scope.count ≡ other_scope.count
unfolding push_ident
push_ident-injective_example =
    push_ident-injective (λ name. name) named_scope other_scope (codes "v") (omega arith)
      (omega arith) refl

-- `w` is declared behind `v`.
get_by-push_ident_example :
    get_by
      (λ name. name)
      (push_ident
        (λ name. name)
        (push_ident (λ name. name) named_scope (codes "v")).0
        (codes "w")).0
      (codes "v")
    ≡ some (push_ident (λ name. name) named_scope (codes "v")).1
get_by-push_ident_example =
    get_by-push_ident (λ name. name) (λ name. name) named_scope (codes "v") (codes "w" ∷ [])
      (λ name. refl) (omega arith) (refl, refl, tt)

-- A count beyond eight digits has nine.
long_name :
    (push_ident (λ name. name) (record named_scope { count = 4294967296 }) []).1
    ≡ codes "__0x100000000"
unfolding push_ident yarte.Hir.Scope.numbered
long_name = refl
