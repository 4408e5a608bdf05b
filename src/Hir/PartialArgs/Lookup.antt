-- ===== src/Hir/PartialArgs/Lookup.antt =====
-- What the arguments of a partial are, by name.
use yarte.Base.{
  Bool, true, false, List, [], ◌∷◌, Option, none, some, Str, str_eq, str_eq_iff, if◌then◌else◌, ◌≡◌,
  refl, ap, ◌∙◌, arith,
}
use yarte.Hir.Resolve.{arg_of}
use yarte.Hir.PartialArgs.{str_lt, insert}
use yarte.Hir.PartialArgs.Order.{str_lt_asym, str_lt_trans, str_lt_total}

module _ {Expr : Type 0} where
  -- Every name is behind `k`, and each name is behind those in front of it.
  pub data Above (k : Str) : List (Str × Expr) → Type 0 where
    above_nil : Above k []
    above_cons :
        {l : Str} {e : Expr} {es : List (Str × Expr)}
        → str_lt k l ≡ true
        → Above k es
        → Above k ((l, e) ∷ es)

  pub data Sorted : List (Str × Expr) → Type 0 where
    sorted_nil : Sorted []
    sorted_cons :
        {k : Str} {e : Expr} {es : List (Str × Expr)}
        → Above k es
        → Sorted es
        → Sorted ((k, e) ∷ es)

  Above-below : (k l : Str) (es : List (Str × Expr)) → str_lt k l ≡ true → Above l es → Above k es
  Above-below k l [] h above_nil = above_nil
  Above-below k l ((m, e) ∷ es) h (above_cons p a) =
      above_cons (str_lt_trans k l m h p) (Above-below k l es h a)

  Above-fresh : (k : Str) (es : List (Str × Expr)) → Above k es → arg_of k es ≡ none
  unfolding arg_of
  Above-fresh k [] above_nil = refl
  Above-fresh k ((l, e) ∷ es) (above_cons h a) =
      let r = Above-fresh k es a in ground (arith, h, r, str_eq_iff l k, str_lt_asym k k)

  Sorted-behind : (k : Str) (e : Expr) (es : List (Str × Expr)) → Sorted ((k, e) ∷ es) → Sorted es
  Sorted-behind k e es (sorted_cons a s) = s

  fresh_behind :
      (k l : Str) (d : Expr) (es : List (Str × Expr))
      → str_eq k l ≡ false
      → arg_of k es ≡ none
      → arg_of k ((l, d) ∷ es) ≡ none
  unfolding arg_of
  fresh_behind k l d es h r = ground (arith, h, r, str_eq_iff k l, str_eq_iff l k)

  -- What `insert` makes of a map: the old names and the new one, which was not there.
  pub record Inserts (k : Str) (e : Expr) (es es' : List (Str × Expr)) : Type 0 where
    pub fresh : Sorted es → arg_of k es ≡ none
    pub sorted : Sorted es → Sorted es'
    pub above : (l : Str) → str_lt l k ≡ true → Above l es → Above l es'
    pub found : (l : Str) → arg_of l es' ≡ (if str_eq k l then some e else arg_of l es)

  pub data Inserted (k : Str) (e : Expr) (es : List (Str × Expr))
      : Option (List (Str × Expr)) → Type 0 where
    is_new : {es' : List (Str × Expr)} → Inserts k e es es' → Inserted k e es (some es')
    is_old : Inserted k e es none

  Above-first :
      (k l : Str) (d : Expr) (es : List (Str × Expr))
      → str_lt k l ≡ true
      → Sorted ((l, d) ∷ es)
      → Above k ((l, d) ∷ es)
  Above-first k l d es h (sorted_cons a s) = above_cons h (Above-below k l es h a)

  Sorted-first :
      (k l : Str) (e d : Expr) (es r : List (Str × Expr))
      → Inserts k e es r
      → str_lt l k ≡ true
      → Sorted ((l, d) ∷ es)
      → Sorted ((l, d) ∷ r)
  Sorted-first k l e d es r i h (sorted_cons a s) = sorted_cons (i.above l h a) (i.sorted s)

  Above-both :
      (k l : Str) (e d : Expr) (es r : List (Str × Expr))
      → Inserts k e es r
      → (m : Str) → str_lt m k ≡ true
      → Above m ((l, d) ∷ es)
      → Above m ((l, d) ∷ r)
  Above-both k l e d es r i m h (above_cons p a) = above_cons p (i.above m h a)

  -- The two tests of `arg_of` can change their places where the names differ.
  arg_of-swap :
      (k l m : Str) (e d : Expr) (o : Option Expr)
      → str_eq k l ≡ false
      → (if str_eq l m then some d else if str_eq k m then some e else o)
        ≡ (if str_eq k m then some e else if str_eq l m then some d else o)
  arg_of-swap k l m e d o h = ground (arith, h, str_eq_iff k l, str_eq_iff l m, str_eq_iff k m)

  insert-behind :
      (k l : Str) (e d : Expr) (es : List (Str × Expr)) (same less : Bool)
      (o : Option (List (Str × Expr)))
      → str_eq k l ≡ same
      → str_lt k l ≡ less
      → Inserted k e es o
      → Inserted k e ((l, d) ∷ es) (
          if same
          then none
          else if less
          then some ((k, e) ∷ (l, d) ∷ es)
          else elim o [ none ↦ none | some r ↦ some ((l, d) ∷ r) ])
  unfolding arg_of
  insert-behind k l e d es true less o p q i = is_old
  insert-behind k l e d es false true o p q i = is_new (record {
    fresh = λ s. Above-fresh k ((l, d) ∷ es) (Above-first k l d es q s);
    sorted = λ s. sorted_cons (Above-first k l d es q s) s;
    above = λ m h a. above_cons h a;
    found = λ m. refl;
  })
  insert-behind k l e d es false false none p q i = is_old
  insert-behind k l e d es false false (some r) p q (is_new i) = is_new (record {
    fresh = λ s. fresh_behind k l d es p (i.fresh (Sorted-behind l d es s));
    sorted = λ s. Sorted-first k l e d es r i (str_lt_total k l p q) s;
    above = λ m h a. Above-both k l e d es r i m h a;
    found = λ m.
        ap (λ x. if str_eq l m then some d else x) (i.found m)
        ∙ arg_of-swap k l m e d (arg_of m es) p;
  })

  pub insert-Inserted :
      (k : Str) (e : Expr) (es : List (Str × Expr)) → Inserted k e es (insert k e es)
  unfolding insert arg_of
  insert-Inserted k e [] = is_new (record {
    fresh = λ s. refl;
    sorted = λ s. sorted_cons above_nil sorted_nil;
    above = λ l h a. above_cons h above_nil;
    found = λ l. refl;
  })
  insert-Inserted k e ((l, d) ∷ es) =
      insert-behind k l e d es (str_eq k l) (str_lt k l) (insert k e es) refl refl
        (insert-Inserted k e es)
