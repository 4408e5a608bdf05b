-- ===== src/Hir/PartialArgs/Assigned.antt =====
-- The arguments of a partial against the list of its assignments.
use yarte.Base.{
  Bool, true, false, ◌||◌, List, [], ◌∷◌, Option, none, some, Str, str_eq, str_eq_iff,
  if◌then◌else◌, ◌≡◌, refl, sym, ap, ◌∙◌, subst, Bool-cases, inl, inr,
}
use yarte.Parser.Result.{ok, panic}
use yarte.Hir.Rust.{Kind}
use yarte.Hir.Path.{is_tuple_index}
use yarte.Hir.Resolve.{arg_of}
use yarte.Hir.Yields.{
  Yields, yields, panicked, Yields-bind, Yields-then, Yields-ok, Yields-map, Yields-if,
}
use yarte.Hir.PartialArgs.{
  Argument, assign, path, other, partial_assign, is_reserved, name_of, name, inserted,
  visit_expr_assign, rest_arg, visit_rest, first_arg, visit_partial,
}
use yarte.Hir.PartialArgs.Lookup.{Sorted, sorted_nil, Inserted, is_new, insert-Inserted}

abbrev pub is_one : Str → List Str → Bool
is_one k (s ∷ []) = str_eq s k
is_one k _ = false

-- A name that is not reserved, and no other.
abbrev Named : (Str → Bool) → Str → Type 0
Named is_name k =
    ((l : Str) → is_name l ≡ str_eq k l) × ((is_reserved k || is_tuple_index k) ≡ false)

reserved-Named :
    (b : Bool) (s : Str)
    → (is_reserved s || is_tuple_index s) ≡ b
    → Yields (Named (λ l. is_one l (s ∷ []))) (if b then panic else ok s)
reserved-Named true s h = panicked
reserved-Named false s h = yields ((λ l. refl), h)

name_of-Named : (ss : List Str) → Yields (Named (λ l. is_one l ss)) (name_of ss)
name_of-Named [] = panicked
name_of-Named (s ∷ t ∷ ss) = panicked
name_of-Named (s ∷ []) = reserved-Named (is_reserved s || is_tuple_index s) s refl

module _ {Expr : Type 0} where
  -- Whether an expression is a name, as the one segment of a path.
  abbrev pub names : Str → Argument Expr → Bool
  names k (path p) = is_one k p.segments
  names k _ = false

  abbrev pub or_else : Option Expr → Option Expr → Option Expr
  or_else none o = o
  or_else (some e) o = some e

  or_none : (o : Option Expr) → o ≡ or_else o none
  or_none none = refl
  or_none (some e) = refl

  or_assoc : (o p q : Option Expr) → or_else (or_else o p) q ≡ or_else o (or_else p q)
  or_assoc none p q = refl
  or_assoc (some e) p q = refl

  abbrev pub if_path : Expr → Argument Expr → Option Expr
  if_path e (path _) = some e
  if_path e _ = none

  module _ (kind : Expr → Kind) (argument : Expr → Argument Expr) where
    abbrev pub value_for : Str → Argument Expr → Option Expr
    value_for k (assign left right) = if names k (argument left) then some right else none
    value_for k _ = none

    -- The first expression that is assigned to a name.
    unfoldable pub assigned_to : Str → List Expr → Option Expr
    assigned_to k [] = none
    assigned_to k (e ∷ es) = or_else (value_for k (argument e)) (assigned_to k es)

    -- The first argument, where it is a path.
    abbrev pub scope_of : List Expr → Option Expr
    scope_of [] = none
    scope_of (e ∷ es) = if_path e (argument e)

    -- What the arguments `es` make of the map `ctx`.
    pub record Taken (ctx : List (Str × Expr)) (es : List Expr) (ctx' : List (Str × Expr))
        : Type 0 where
      pub sorted : Sorted ctx'
      pub found : (l : Str) → arg_of l ctx' ≡ or_else (arg_of l ctx) (assigned_to l es)
      pub kept :
          (l : Str) → (is_reserved l || is_tuple_index l) ≡ true → arg_of l ctx' ≡ arg_of l ctx

    name-Named : (a : Argument Expr) → Yields (Named (λ l. names l a)) (name kind argument [] a)
    name-Named (path p) =
        Yields-if p.qself panicked (Yields-if p.leading_colon panicked (name_of-Named p.segments))
    name-Named (assign left right) = panicked
    name-Named other = panicked

    -- One assignment: the value is found by its name, which was not there.
    record Assigns (left right : Expr) (ctx ctx' : List (Str × Expr)) : Type 0 where
      sorted : Sorted ctx'
      found :
          (l : Str)
          → arg_of l ctx'
            ≡ or_else (arg_of l ctx) (if names l (argument left) then some right else none)
      kept : (l : Str) → (is_reserved l || is_tuple_index l) ≡ true → arg_of l ctx' ≡ arg_of l ctx

    found-or :
        (k l : Str) (e : Expr) (ctx : List (Str × Expr))
        → arg_of k ctx ≡ none
        → (if str_eq k l then some e else arg_of l ctx)
          ≡ or_else (arg_of l ctx) (if str_eq k l then some e else none)
    found-or k l e ctx h = elim (Bool-cases (str_eq k l)) [
      | inl q ↦
          let r : arg_of l ctx ≡ none = subst (λ m. arg_of m ctx ≡ none) ((str_eq_iff k l).0 q) h in
          rw (q, r) refl
      | inr q ↦ rw (q) (or_none (arg_of l ctx))
    ]

    kept-or :
        (k l : Str) (e : Expr) (o : Option Expr)
        → (is_reserved k || is_tuple_index k) ≡ false
        → (is_reserved l || is_tuple_index l) ≡ true
        → (if str_eq k l then some e else o) ≡ o
    kept-or k l e o h r = elim (Bool-cases (str_eq k l)) [
      | inl q ↦ let same = (str_eq_iff k l).0 q in cc
      | inr q ↦ rw (q) refl
    ]

    inserted-Assigns :
        (left right : Expr) (ctx : List (Str × Expr)) (k : Str) (o : Option (List (Str × Expr)))
        → Sorted ctx
        → Named (λ l. names l (argument left)) k
        → Inserted k right ctx o
        → Yields (Assigns left right ctx) (inserted kind argument o)
    inserted-Assigns left right ctx k none s n i = panicked
    inserted-Assigns left right ctx k (some ctx') s n (is_new i) = yields (record {
      sorted = i.sorted s;
      found = λ l. rw (n.0 l) (i.found l ∙ found-or k l right ctx (i.fresh s));
      kept = λ l r. i.found l ∙ kept-or k l right (arg_of l ctx) n.1 r;
    })

    visit_expr_assign-Assigns :
        (left right : Expr) (ctx : List (Str × Expr))
        → Sorted ctx
        → Yields (Assigns left right ctx) (visit_expr_assign kind argument left right ctx)
    unfolding visit_expr_assign
    visit_expr_assign-Assigns left right ctx s = Yields-then (partial_assign (kind right)) λ _.
        Yields-bind (name-Named (argument left))
          λ k n. inserted-Assigns left right ctx k _ s n (insert-Inserted k right ctx)

    rest_arg-Taken :
        (e : Expr) (a : Argument Expr) (ctx : List (Str × Expr))
        → argument e ≡ a
        → Sorted ctx
        → Yields (Taken ctx (e ∷ [])) (rest_arg kind argument a ctx)
    unfolding assigned_to
    rest_arg-Taken e (assign left right) ctx h s =
        Yields-map
          (λ ctx' t. record {
            sorted = t.sorted;
            found = λ l. rw (h) (t.found l ∙ ap (or_else (arg_of l ctx)) (or_none _));
            kept = t.kept;
          })
          (visit_expr_assign-Assigns left right ctx s)
    rest_arg-Taken e (path p) ctx h s = panicked
    rest_arg-Taken e other ctx h s = panicked

    Taken-both :
        (e : Expr) (es : List Expr) (ctx mid ctx' : List (Str × Expr))
        → Taken ctx (e ∷ []) mid
        → Taken mid es ctx'
        → Taken ctx (e ∷ es) ctx'
    unfolding assigned_to
    Taken-both e es ctx mid ctx' t u = record {
      sorted = u.sorted;
      found = λ l.
          u.found l
          ∙ (ap (λ o. or_else o (assigned_to l es)) (t.found l)
              ∙ (or_assoc (arg_of l ctx) _ (assigned_to l es)
                  ∙ ap (λ o. or_else (arg_of l ctx) (or_else o (assigned_to l es)))
                      (sym (or_none (value_for l (argument e))))));
      kept = λ l r. u.kept l r ∙ t.kept l r;
    }

    visit_rest-Taken :
        (es : List Expr) (ctx : List (Str × Expr))
        → Sorted ctx
        → Yields (Taken ctx es) (visit_rest kind argument es ctx)
    unfolding visit_rest assigned_to
    visit_rest-Taken [] ctx s =
        yields (record { sorted = s; found = λ l. or_none (arg_of l ctx); kept = λ l r. refl })
    visit_rest-Taken (e ∷ es) ctx s =
        Yields-bind (rest_arg-Taken e (argument e) ctx refl s) λ mid t.
          Yields-map (λ ctx' u. Taken-both e es ctx mid ctx' t u) (visit_rest-Taken es mid t.sorted)

    pub record Reads (es : List Expr) (r : List (Str × Expr) × Option Expr) : Type 0 where
      pub taken : Taken [] es r.0
      pub scope_is : r.1 ≡ scope_of es

    first_arg-Reads :
        (e : Expr) (a : Argument Expr)
        → argument e ≡ a
        → Yields (Reads (e ∷ [])) (first_arg kind argument e a)
    unfolding assigned_to arg_of
    first_arg-Reads e (assign left right) h =
        Yields-bind (visit_expr_assign-Assigns left right [] sorted_nil) λ ctx t. yields (record {
          taken = record {
            sorted = t.sorted;
            found = λ l. rw (h) (t.found l ∙ or_none _);
            kept = t.kept;
          };
          scope_is = rw (h) refl;
        })
    first_arg-Reads e (path p) h = yields (record {
      taken = record { sorted = sorted_nil; found = λ l. rw (h) refl; kept = λ l r. refl };
      scope_is = rw (h) refl;
    })
    first_arg-Reads e other h = panicked

    visit_partial-Reads : (es : List Expr) → Yields (Reads es) (visit_partial kind argument es)
    unfolding visit_partial
    visit_partial-Reads [] = panicked
    visit_partial-Reads (e ∷ es) =
        Yields-bind (first_arg-Reads e (argument e) refl) λ (r : List (Str × Expr) × Option Expr) t.
          Yields-bind (visit_rest-Taken es r.0 t.taken.sorted) λ ctx u.
            yields (record { taken = Taken-both e es [] r.0 ctx t.taken u; scope_is = t.scope_is })

    -- Where `visit_partial` returns, the names of its map are in strict order, each name stands for
    -- the first expression that is assigned to it among the arguments, no reserved word and no tuple
    -- index is a name, and the scope is the first argument if that is a path, or else none.
    pub visit_partial-assigned :
        (es : List Expr) (ctx : List (Str × Expr)) (scope : Option Expr)
        → visit_partial kind argument es ≡ ok (ctx, scope)
        → Sorted ctx
          × ((l : Str) → arg_of l ctx ≡ assigned_to l es)
          × ((l : Str) → (is_reserved l || is_tuple_index l) ≡ true → arg_of l ctx ≡ none)
          × (scope ≡ scope_of es)
    unfolding arg_of
    visit_partial-assigned es ctx scope e =
        let r = Yields-ok (visit_partial-Reads es) e in
        (r.taken.sorted, r.taken.found, r.taken.kept, r.scope_is)
