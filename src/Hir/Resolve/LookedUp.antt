-- ===== src/Hir/Resolve/LookedUp.antt =====
-- `resolve_path` looks a name up among what the helpers around it bind.
use yarte.Base.{
  ℕ, zero, suc, Bool, true, false, ◌==◌, ltb, List, [], ◌∷◌, Option, none, some, Str, if◌then◌else◌,
  length, drop, get_elem?, ◌≡◌, refl, ap, ◌∙◌, sym, arith,
}
use yarte.Parser.Result.{Result, ok, panic, ◌>>=◌}
use yarte.Hir.Scope.{root, split_last}
use yarte.Hir.Scope.Frames.{Holds, get-frames}
use yarte.Hir.Rust.{On, Names}
use yarte.Hir.Path.{ExprPath, is_super, all_super, is_tuple_index, from_digits}
use yarte.Hir.Resolve.{
  Quote, or_panic, scope_at, partial_var, index_field, field_var, each_var, with_var, self_var,
  on_var, on_at, resolve_ident, resolve_super, resolve_segments, resolve_path,
}
use yarte.Hir.Resolve.Places.{
  behind_supers, supers, plain_path, Place, Stands, nowhere, each_on, with_on, field_of, of_index,
  in_place, looked_up, IsFree,
}

module _ {Expr : Type 0} (quote : Quote Expr) where
  index_field-of :
      (o : Option ℕ) (base : Result Expr) (e : Expr)
      → base ≡ ok e
      → index_field quote o base ≡ elim o [ none ↦ panic | some n ↦ ok (quote.index_field e n) ]
  index_field-of none base e h = refl
  index_field-of (some n) base e h = rw (h) refl

  field_var-of :
      (ident : Str) (base : Result Expr) (e : Expr)
      → base ≡ ok e
      → field_var quote ident base ≡ field_of quote e ident
  unfolding field_var
  field_var-of ident base e h = rw (index_field-of (from_digits 0 (drop 1 ident)) base e h, h) refl

  Bool-both : (b : Bool) {x y z : Result Expr} → x ≡ z → y ≡ z → (if b then x else y) ≡ z
  Bool-both true h k = h
  Bool-both false h k = k

  module _ (names : Names Expr) (r : Expr) (first : List Expr) (frames : List (List Expr))
      (holds : Holds names.scp (r ∷ first) frames) where
    scope_at-frame :
        (j i : ℕ) (xs : List Expr) (e : Expr)
        → get_elem? ((r ∷ first) ∷ frames) j ≡ some xs
        → get_elem? xs i ≡ some e
        → scope_at names.scp j i ≡ ok e
    unfolding scope_at
    scope_at-frame j i xs e h k =
        rw (get-frames names.scp (r ∷ first) frames j holds, h) (ap or_panic k)

    root-first : root names.scp ≡ ok r
    unfolding root
    root-first = rw (holds.scope_is) refl

    self_var-of : (ident : Str) → self_var quote names.scp ident ≡ field_of quote r ident
    unfolding self_var
    self_var-of ident =
        let h : scope_at names.scp 0 0 ≡ ok r = scope_at-frame 0 0 (r ∷ first) r refl refl in
        field_var-of ident _ r (Bool-both (is_tuple_index ident) h root-first)

    index_at :
        (o : Option Expr) (f : Expr → Option Expr)
        → (do e ← or_panic o; ok (f e)) ≡ of_index quote o f
    index_at none f = refl
    index_at (some e) f = refl

    of_index-at :
        (j : ℕ) (v : Expr) (rest : List Expr) (f : Expr → Option Expr)
        → get_elem? ((r ∷ first) ∷ frames) j ≡ some (v ∷ rest)
        → (do e ← scope_at names.scp j 1; ok (f e)) ≡ of_index quote (get_elem? rest 0) f
    unfolding scope_at
    of_index-at j v rest f h =
        rw (get-frames names.scp (r ∷ first) frames j holds, h) (index_at (get_elem? rest 0) f)

    on_var-place :
        (on : On) (ons : List On) (p : Place Expr) (ps : List (Place Expr)) (ident : Str)
        → Stands ((r ∷ first) ∷ frames) (on ∷ ons) (p ∷ ps)
        → on_var quote names.scp ident (some on) ≡ in_place quote p ident
    unfolding on_var each_var with_var
    on_var-place (On.each j) ons p ps ident (each_on {v} {rest} h s) =
        rw
          (
            of_index-at j v rest (λ e. some e) h,
            of_index-at j v rest quote.plus_one h,
            of_index-at j v rest quote.equals_zero h,
            scope_at-frame j 0 (v ∷ rest) v h refl,
            field_var-of ident (ok v) v refl,
          )
          refl
    on_var-place (On.with_scope j) ons p ps ident (with_on {v} {rest} h s) =
        field_var-of ident _ v (scope_at-frame j 0 (v ∷ rest) v h refl)

    -- The tests of `resolve_super`, on the helpers alone.
    abbrev by_depth : List On → ℕ → Str → Result (Option Expr)
    by_depth on j ident =
        if length on == j
        then field_of quote r ident
        else if ltb j (length on)
        then on_at quote names.scp ident (get_elem? on j)
        else panic

    by_depth-nil : (j : ℕ) (ident : Str) → by_depth [] (suc j) ident ≡ panic
    by_depth-nil j ident =
        let h : (0 == suc j) ≡ false = ground arith in
        let k : ltb (suc j) 0 ≡ false = ground arith in rw (h, k) refl

    by_depth-zero :
        (on : On) (ons : List On) (ident : Str)
        → by_depth (on ∷ ons) zero ident ≡ on_var quote names.scp ident (some on)
    by_depth-zero on ons ident =
        let h : (suc (length ons) == 0) ≡ false = ground arith in
        let k : ltb 0 (suc (length ons)) ≡ true = ground arith in rw (h, k) refl

    by_depth-suc :
        (on : On) (ons : List On) (j : ℕ) (ident : Str)
        → by_depth (on ∷ ons) (suc j) ident ≡ by_depth ons j ident
    by_depth-suc on ons j ident =
        let h : (suc (length ons) == suc j) ≡ (length ons == j) = ground arith in
        let k : ltb (suc j) (suc (length ons)) ≡ ltb j (length ons) = ground arith in rw (h, k) refl

    by_depth-top :
        (on : List On) (j : ℕ) (ident : Str)
        → (if length on == 0 then panic else by_depth on (suc j) ident) ≡ by_depth on (suc j) ident
    by_depth-top [] j ident = sym (by_depth-nil j ident)
    by_depth-top (on ∷ ons) j ident =
        let h : (suc (length ons) == 0) ≡ false = ground arith in rw (h) refl

    by_depth-looked_up :
        (on : List On) (ps : List (Place Expr)) (j : ℕ) (ident : Str)
        → Stands ((r ∷ first) ∷ frames) on ps
        → by_depth on j ident ≡ looked_up quote r ps j ident
    by_depth-looked_up [] [] zero ident nowhere = refl
    by_depth-looked_up [] [] (suc j) ident nowhere = by_depth-nil j ident
    by_depth-looked_up (on ∷ ons) (p ∷ ps) zero ident s =
        by_depth-zero on ons ident ∙ on_var-place on ons p ps ident s
    by_depth-looked_up (On.each k ∷ ons) (p ∷ ps) (suc j) ident (each_on h s) =
        by_depth-suc (On.each k) ons j ident ∙ by_depth-looked_up ons ps j ident s
    by_depth-looked_up (On.with_scope k ∷ ons) (p ∷ ps) (suc j) ident (with_on h s) =
        by_depth-suc (On.with_scope k) ons j ident ∙ by_depth-looked_up ons ps j ident s
    by_depth-looked_up [] (p ∷ ps) j ident s = elim s [ ]
    by_depth-looked_up (on ∷ ons) [] j ident s = elim s [ ]

    resolve_super-looked_up :
        (ps : List (Place Expr)) (j : ℕ) (ident : Str)
        → names.partial ≡ none
        → Stands ((r ∷ first) ∷ frames) names.on ps
        → resolve_super quote names (suc j) ident ≡ looked_up quote r ps (suc j) ident
    unfolding resolve_super partial_var
    resolve_super-looked_up ps j ident h s =
        rw (h, self_var-of ident)
          (by_depth-top names.on j ident ∙ by_depth-looked_up names.on ps (suc j) ident s)

    on_var-looked_up :
        (on : List On) (ps : List (Place Expr)) (ident : Str)
        → Stands ((r ∷ first) ∷ frames) on ps
        → on_var quote names.scp ident (get_elem? on 0) ≡ looked_up quote r ps 0 ident
    unfolding on_var
    on_var-looked_up [] [] ident nowhere = self_var-of ident
    on_var-looked_up (On.each k ∷ ons) (p ∷ ps) ident (each_on h s) =
        on_var-place (On.each k) ons p ps ident (each_on h s)
    on_var-looked_up (On.with_scope k ∷ ons) (p ∷ ps) ident (with_on h s) =
        on_var-place (On.with_scope k) ons p ps ident (with_on h s)
    on_var-looked_up [] (p ∷ ps) ident s = elim s [ ]
    on_var-looked_up (On.each k ∷ ons) [] ident s = elim s [ ]
    on_var-looked_up (On.with_scope k ∷ ons) [] ident s = elim s [ ]

  split_last-supers :
      (j : ℕ) (ident : Str) → split_last (behind_supers j ident) ≡ some (supers j, ident)
  split_last-supers zero ident = refl
  split_last-supers (suc zero) ident = refl
  split_last-supers (suc (suc j)) ident = rw (split_last-supers (suc j) ident) refl

  all_super-supers : (j : ℕ) → (all_super (supers j) ≡ true) × (length (supers j) ≡ j)
  unfolding all_super
  all_super-supers zero = (refl, refl)
  all_super-supers (suc j) = ((all_super-supers j).0, ap (λ n. suc n) (all_super-supers j).1)

  pub is_super-supers :
      (j : ℕ) (ident : Str) → is_super (behind_supers j ident) ≡ ok (some (j, ident))
  unfolding is_super
  is_super-supers j ident =
      rw (split_last-supers j ident, (all_super-supers j).0, (all_super-supers j).1) refl

  resolve_segments-supers :
      (names : Names Expr) (p : ExprPath) (j : ℕ) (ident : Str)
      → resolve_segments quote names p (behind_supers (suc j) ident)
        ≡ resolve_super quote names (suc j) ident
  resolve_segments-supers names p zero ident = rw (is_super-supers (suc zero) ident) refl
  resolve_segments-supers names p (suc j) ident = rw (is_super-supers (suc (suc j)) ident) refl

  -- Outside a partial with arguments, a path that is an identifier behind any number of `super::`
  -- stands for what it is in the helper that is so many helpers further out than the innermost, where
  -- the root is around the outermost helper: the element of the loop, its index, or a field of what
  -- the helper binds. It is a panic where there is no such helper. Without a `super::` the
  -- identifier must be free: the program takes it for a constant, a declared name or the root first.
  pub resolve_path-looked_up :
      (names : Names Expr) (r : Expr) (first : List Expr) (frames : List (List Expr))
      (ps : List (Place Expr)) (j : ℕ) (ident : Str)
      → Holds names.scp (r ∷ first) frames
      → Stands ((r ∷ first) ∷ frames) names.on ps
      → names.partial ≡ none
      → (j ≡ 0 → IsFree quote names ident)
      → resolve_path quote names (plain_path (behind_supers j ident)) ≡ looked_up quote r ps j ident
  unfolding resolve_path resolve_ident partial_var
  resolve_path-looked_up names r first frames ps zero ident holds s h free =
      let f = free refl in
      rw (f.lower, h, f.undeclared, f.not_self)
        (on_var-looked_up names r first frames holds names.on ps ident s)
  resolve_path-looked_up names r first frames ps (suc j) ident holds s h free =
      resolve_segments-supers names (plain_path (behind_supers (suc j) ident)) j ident
      ∙ resolve_super-looked_up names r first frames holds ps j ident h s
