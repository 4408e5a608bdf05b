-- ===== src/Hir/Extends.antt =====
-- Names that were declared in the innermost scope: the scopes around it are the same.
use yarte.Base.{
  ℕ, ◌≤◌, true, List, [], ◌++◌, leb, length, ◌≡◌, refl, sym, ap, ◌∙◌, arith, append_assoc,
  append-nil, length-append, le→leb, drop-append_length,
}
use yarte.Parser.Result.{ok}
use yarte.Hir.Scope.{Scope, drain, pops, extend, push_scope}
use yarte.Hir.Scope.Frames.{split_last-append, take-append_length}
use yarte.Hir.Rust.{Names}

module _ {Expr : Type 0} where
  -- What stays of a scope, and what was pushed behind it.
  pub record ScopeExtends (s t : Scope Expr) : Type 0 where
    pub level_is : t.level ≡ s.level
    pub added : List Expr
    pub scope_is : t.scope ≡ s.scope ++ added
    pub count_le : s.count ≤ t.count

  pub record Extends (m n : Names Expr) : Type 0 where
    pub on_is : n.on ≡ m.on
    pub partial_is : n.partial ≡ m.partial
    pub scp_extends : ScopeExtends m.scp n.scp

  ScopeExtends-self : (s : Scope Expr) → ScopeExtends s s
  ScopeExtends-self s = record {
    level_is = refl;
    added = [];
    scope_is = sym (append-nil s.scope);
    count_le = omega arith;
  }

  ScopeExtends-then : (s t u : Scope Expr) → ScopeExtends s t → ScopeExtends t u → ScopeExtends s u
  ScopeExtends-then s t u h k = record {
    level_is = k.level_is ∙ h.level_is;
    added = h.added ++ k.added;
    scope_is =
        k.scope_is ∙ (ap (λ x. x ++ k.added) h.scope_is ∙ append_assoc s.scope h.added k.added);
    count_le = let a = h.count_le in let b = k.count_le in omega (arith, a, b);
  }

  pub Extends-self : (n : Names Expr) → Extends n n
  Extends-self n = record { on_is = refl; partial_is = refl; scp_extends = ScopeExtends-self n.scp }

  pub Extends-then : {m n k : Names Expr} → Extends m n → Extends n k → Extends m k
  Extends-then {m} {n} {k} h l = record {
    on_is = l.on_is ∙ h.on_is;
    partial_is = l.partial_is ∙ h.partial_is;
    scp_extends = ScopeExtends-then m.scp n.scp k.scp h.scp_extends l.scp_extends;
  }

  pub Extends-extend :
      (m : Names Expr) (t : List Expr) → Extends m (record m { scp = extend m.scp t })
  Extends-extend m t = record {
    on_is = refl;
    partial_is = refl;
    scp_extends = record { level_is = refl; added = t; scope_is = refl; count_le = omega arith };
  }

  -- A scope as it was, with another count.
  abbrev pub counted : Scope Expr → ℕ → Scope Expr
  counted s count = record s { count = count }

  -- What was pushed and extended is taken out again by `pops`.
  pub pops-extended :
      (s t : Scope Expr) (xs : List Expr)
      → ScopeExtends (push_scope s xs) t
      → (last : List Expr) × (pops t ≡ ok (counted s t.count, last))
  unfolding pops drain push_scope
  pops-extended s t xs h =
      let q : t.scope ≡ s.scope ++ (xs ++ h.added) = h.scope_is ∙ append_assoc s.scope xs h.added in
      let k : leb (length s.scope) (length (s.scope ++ (xs ++ h.added))) ≡ true =
        le→leb _ _ (omega (arith, length-append s.scope (xs ++ h.added))) in
      (
        xs ++ h.added,
        rw
            (
              h.level_is,
              split_last-append s.level (length s.scope),
              q,
              k,
              take-append_length s.scope (xs ++ h.added),
              drop-append_length s.scope (xs ++ h.added),
            )
            refl,
      )

  pub counted-Extends :
      (n : Names Expr) (count : ℕ)
      → n.scp.count ≤ count
      → Extends n (record n { scp = counted n.scp count })
  counted-Extends n count h = record {
    on_is = refl;
    partial_is = refl;
    scp_extends = record {
      level_is = refl;
      added = [];
      scope_is = sym (append-nil n.scp.scope);
      count_le = h;
    };
  }

  -- The names once the scope that was pushed is popped.
  abbrev pub restored : Names Expr → Names Expr → Names Expr
  restored m n = record n { scp = counted m.scp n.scp.count }

  pub Extends-restored :
      (m n : Names Expr) (xs : List Expr)
      → Extends (record m { scp = push_scope m.scp xs }) n
      → Extends m (restored m n)
  unfolding push_scope
  Extends-restored m n xs h = record {
    on_is = h.on_is;
    partial_is = h.partial_is;
    scp_extends = record {
      level_is = refl;
      added = [];
      scope_is = sym (append-nil m.scp.scope);
      count_le = h.scp_extends.count_le;
    };
  }
