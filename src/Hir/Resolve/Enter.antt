-- ===== src/Hir/Resolve/Enter.antt =====
-- What the names of a block stand for once `visit_with` or `const_iter` has pushed its scope.
use yarte.Base.{
  ℕ, Bool, true, false, codes, zero, suc, ◌+◌, List, [], ◌∷◌, ◌++◌, none, some, Str, length,
  get_elem?, ◌≡◌, refl, ap, ◌∙◌, sym, arith,
}
use yarte.Hir.Scope.{len, push_scope}
use yarte.Hir.Scope.Frames.{Holds, push_scope-Holds, bounds}
use yarte.Hir.Rust.{On, Names}
use yarte.Hir.Resolve.{Quote, resolve_path}
use yarte.Hir.Resolve.LookedUp.{resolve_path-looked_up}
use yarte.Hir.Resolve.Places.{
  Place, in_each, in_with, Stands, nowhere, each_on, with_on, IsFree, looked_up, behind_supers,
  plain_path,
}

-- `each` or `with`, and what its scope binds.
abbrev pub on_of : Bool → ℕ → On
on_of true j = On.each j
on_of false j = On.with_scope j

get_elem?-append :
    {A : Type 0} (xs ys : List A) (j : ℕ) (x : A)
    → get_elem? xs j ≡ some x
    → get_elem? (xs ++ ys) j ≡ some x
get_elem?-append [] ys j x h = cc
get_elem?-append (y ∷ xs) ys zero x h = h
get_elem?-append (y ∷ xs) ys (suc j) x h = get_elem?-append xs ys j x h

get_elem?-last : {A : Type 0} (xs : List A) (x : A) → get_elem? (xs ++ x ∷ []) (length xs) ≡ some x
get_elem?-last [] x = refl
get_elem?-last (y ∷ xs) x = get_elem?-last xs x

module _ {Expr : Type 0} where
  length-bounds : (n : ℕ) (frames : List (List Expr)) → length (bounds n frames) ≡ length frames
  length-bounds n [] = refl
  length-bounds n (f ∷ fs) = ap (λ k. suc k) (length-bounds (n + length f) fs)

  -- The names of a block for which a scope is pushed and a helper is entered.
  abbrev pub entered : Names Expr → (ℕ → On) → List Expr → Names Expr
  entered names on t = record names {
    scp = push_scope names.scp t;
    on = on (len names.scp) ∷ names.on;
  }

  abbrev pub place_of : Bool → Expr → List Expr → Place Expr
  place_of true v rest = in_each v (get_elem? rest 0)
  place_of false v rest = in_with v

  module _ (names : Names Expr) (first : List Expr) (frames : List (List Expr))
      (holds : Holds names.scp first frames) where
    pub pushed-last :
        (t : List Expr) → get_elem? (first ∷ (frames ++ t ∷ [])) (len names.scp) ≡ some t
    pushed-last t =
        let e : len names.scp ≡ suc (length frames) =
          ap (λ l. length l + 1) holds.level_is
          ∙ (ap (λ n. n + 1) (length-bounds (length first) frames) ∙ omega arith) in
        rw (e) (get_elem?-last frames t)

    pub pushed-Stands :
        (t : List Expr) {on : List On} {ps : List (Place Expr)}
        → Stands (first ∷ frames) on ps
        → Stands (first ∷ (frames ++ t ∷ [])) on ps
    pushed-Stands t nowhere = nowhere
    pushed-Stands t (each_on h s) =
        each_on (get_elem?-append (first ∷ frames) (t ∷ []) _ _ h) (pushed-Stands t s)
    pushed-Stands t (with_on h s) =
        with_on (get_elem?-append (first ∷ frames) (t ∷ []) _ _ h) (pushed-Stands t s)

    entered-Stands :
        (loops : Bool) (v : Expr) (rest : List Expr) (ps : List (Place Expr))
        → Stands (first ∷ frames) names.on ps
        → Stands
            (first ∷ (frames ++ (v ∷ rest) ∷ []))
            (entered names (on_of loops) (v ∷ rest)).on
            (place_of loops v rest ∷ ps)
    entered-Stands true v rest ps s = each_on (pushed-last (v ∷ rest)) (pushed-Stands (v ∷ rest) s)
    entered-Stands false v rest ps s = with_on (pushed-last (v ∷ rest)) (pushed-Stands (v ∷ rest) s)

  module _ (quote : Quote Expr) (names : Names Expr) (r : Expr) (first : List Expr)
      (frames : List (List Expr)) (ps : List (Place Expr)) (loops : Bool) (v : Expr)
      (rest : List Expr) where
    -- Outside a partial with arguments, once the scope of `with` or of a round of `each` is pushed and
    -- the helper entered, an identifier stands for what it is in that helper, and behind `super::` for
    -- what it is in the helpers around it. Without a `super::` it must be free.
    pub resolve_path-entered :
        (j : ℕ) (ident : Str)
        → Holds names.scp (r ∷ first) frames
        → Stands ((r ∷ first) ∷ frames) names.on ps
        → names.partial ≡ none
        → (j ≡ 0 → IsFree quote (entered names (on_of loops) (v ∷ rest)) ident)
        → resolve_path quote
            (entered names (on_of loops) (v ∷ rest))
            (plain_path (behind_supers j ident))
          ≡ looked_up quote r (place_of loops v rest ∷ ps) j ident
    resolve_path-entered j ident holds s h free =
        resolve_path-looked_up quote (entered names (on_of loops) (v ∷ rest)) r first
          (frames ++ (v ∷ rest) ∷ []) (place_of loops v rest ∷ ps) j ident
          (push_scope-Holds names.scp (r ∷ first) frames (v ∷ rest) holds)
          (entered-Stands names (r ∷ first) frames holds loops v rest ps s) h free

    -- Outside a partial with arguments, entering `with` or a round of `each` is undone by one more
    -- `super::`: behind it, a path that starts with `super::`, or else with a free identifier, stands
    -- for what it stood for outside the helper.
    pub resolve_path-super :
        (j : ℕ) (ident : Str)
        → Holds names.scp (r ∷ first) frames
        → Stands ((r ∷ first) ∷ frames) names.on ps
        → names.partial ≡ none
        → (j ≡ 0 → IsFree quote names ident)
        → resolve_path quote
            (entered names (on_of loops) (v ∷ rest))
            (plain_path (codes "super" ∷ behind_supers j ident))
          ≡ resolve_path quote names (plain_path (behind_supers j ident))
    resolve_path-super j ident holds s h free =
        resolve_path-entered (suc j) ident holds s h (λ e. cc)
        ∙ sym (resolve_path-looked_up quote names r first frames ps j ident holds s h free)
