-- ===== src/Hir/Resolve/Loop.antt =====
-- What the names of the block of a loop stand for.
use yarte.Base.{
  ℕ, ◌+◌, Bool, true, false, List, [], ◌∷◌, ◌++◌, Option, none, some, Str, codes, ◌≡◌, refl, ◌∙◌,
  ap, append_assoc, append-nil,
}
use yarte.Hir.Scope.{len, push_scope, push_ident, numbered}
use yarte.Hir.Scope.Frames.{Holds, push_scope-Holds}
use yarte.Hir.Rust.{Rust, On, Names}
use yarte.Hir.Blocks.{declare}
use yarte.Hir.Resolve.{Quote, resolve_path}
use yarte.Hir.Resolve.LookedUp.{resolve_path-looked_up}
use yarte.Hir.Resolve.Places.{
  Place, in_each, Stands, each_on, IsFree, looked_up, behind_supers, plain_path,
}
use yarte.Hir.Resolve.Enter.{pushed-last, pushed-Stands}

module _ {Expr Local : Type 0} (rust : Rust Expr Local) where
  -- The names with which `visit_each` walks over the block of a loop.
  abbrev pub in_loop : Bool → Names Expr → Names Expr
  in_loop loop_var names = record names {
    scp = (declare rust (push_scope names.scp []) loop_var).0;
    on = On.each (len names.scp) ∷ names.on;
  }

  -- The variables of the loop.
  unfoldable pub element : Names Expr → Expr
  element names = rust.ident (numbered (codes "__key_") names.scp.count)

  unfoldable pub counter : Names Expr → Expr
  counter names = rust.ident (numbered (codes "__index_") (names.scp.count + 1))

  abbrev pub loop_scope : Bool → Names Expr → List Expr
  loop_scope true names = element names ∷ counter names ∷ []
  loop_scope false names = element names ∷ []

  abbrev pub loop_counter : Bool → Names Expr → Option Expr
  loop_counter true names = some (counter names)
  loop_counter false names = none

  loop_scope-in_loop :
      (loop_var : Bool) (names : Names Expr)
      → ((in_loop loop_var names).scp.scope
          ≡ (push_scope names.scp (loop_scope loop_var names)).scope)
        × ((in_loop loop_var names).scp.level
            ≡ (push_scope names.scp (loop_scope loop_var names)).level)
  unfolding push_scope push_ident element counter
  loop_scope-in_loop true names = (
    ap (λ x. (x ++ element names ∷ []) ++ counter names ∷ []) (append-nil names.scp.scope)
        ∙ append_assoc names.scp.scope (element names ∷ []) (counter names ∷ []),
    refl,
  )
  loop_scope-in_loop false names =
      (ap (λ x. x ++ element names ∷ []) (append-nil names.scp.scope), refl)

  module _ (quote : Quote Expr) (names : Names Expr) (r : Expr) (first : List Expr)
      (frames : List (List Expr)) (ps : List (Place Expr)) where
    in_loop-Stands :
        (loop_var : Bool)
        → Holds names.scp (r ∷ first) frames
        → Stands ((r ∷ first) ∷ frames) names.on ps
        → Stands
            ((r ∷ first) ∷ (frames ++ loop_scope loop_var names ∷ []))
            (in_loop loop_var names).on
            (in_each (element names) (loop_counter loop_var names) ∷ ps)
    in_loop-Stands true h s =
        each_on (pushed-last names (r ∷ first) frames h (loop_scope true names))
          (pushed-Stands names (r ∷ first) frames h (loop_scope true names) s)
    in_loop-Stands false h s =
        each_on (pushed-last names (r ∷ first) frames h (loop_scope false names))
          (pushed-Stands names (r ∷ first) frames h (loop_scope false names) s)

    -- Outside a partial with arguments, in the block of a loop that is run at run time, an identifier
    -- stands for what it is in the loop: `this` is the variable of the element, a field that of the
    -- element, and `index`, `index0` and `first` are made of the counter where `find_loop_var` was true;
    -- where it was false they are a panic. Behind `super::` an identifier stands for what it is in the
    -- helpers around the loop. Without a `super::` it must be free.
    pub resolve_path-in_loop :
        (loop_var : Bool) (j : ℕ) (ident : Str)
        → Holds names.scp (r ∷ first) frames
        → Stands ((r ∷ first) ∷ frames) names.on ps
        → names.partial ≡ none
        → (j ≡ 0 → IsFree quote (in_loop loop_var names) ident)
        → resolve_path quote (in_loop loop_var names) (plain_path (behind_supers j ident))
          ≡ looked_up quote r (in_each (element names) (loop_counter loop_var names) ∷ ps) j ident
    resolve_path-in_loop loop_var j ident h s p free =
        let (e, l) = loop_scope-in_loop loop_var names in
        let held = push_scope-Holds names.scp (r ∷ first) frames (loop_scope loop_var names) h in
        resolve_path-looked_up quote (in_loop loop_var names) r first
          (frames ++ loop_scope loop_var names ∷ [])
          (in_each (element names) (loop_counter loop_var names) ∷ ps) j ident
          (record { scope_is = e ∙ held.scope_is; level_is = l ∙ held.level_is })
          (in_loop-Stands loop_var h s) p free
