-- ===== src/Hir/LoopVar/Variables.antt =====
-- `find_loop_var` finds the variables of the loop.
use yarte.Base.{
  ℕ, zero, suc, ◌==◌, Bool, true, false, ◌&&◌, ◌||◌, ltb, List, [], ◌∷◌, none, some, Str, codes,
  str_eq, take, length, get_elem?, ◌≡◌, refl, ap, sym, ◌∙◌, arith,
}
use yarte.Parser.Result.{ok}
use yarte.Parser.Syntax.{Nodes}
use yarte.Hir.Scope.{split_last}
use yarte.Hir.Path.{all_super, is_digit}
use yarte.Hir.LoopVar.{Reader, is_loop_var, find_loop_var}
use yarte.Hir.LoopVar.Says.{or_false}
use yarte.Hir.LoopVar.Found.{find_loop_var-mentions}
use yarte.Hir.LoopVar.Mentions.{HasNames, Readable}
use yarte.Hir.LoopVar.Mentioned.{digit_behind, counts, of_loop, of_inner, Mention, any, mentioned}
use yarte.Hir.LoopVar.Counted.{counted, mentions-any_counted}

digit_behind_lem :
    (p s : Str)
    → (ltb (length p) (length s)
        && str_eq (take (length p) s) p
        && elim (get_elem? s (length p)) [ none ↦ false | some c ↦ is_digit c ])
      ≡ digit_behind p s
digit_behind_lem [] [] = refl
digit_behind_lem [] (c ∷ s) = ground arith
digit_behind_lem (d ∷ p) [] = ground arith
digit_behind_lem (d ∷ p) (c ∷ s) =
    let l : ltb (suc (length p)) (suc (length s)) ≡ ltb (length p) (length s) = ground arith in
    rw (l, ← digit_behind_lem p s)
      (shuffle (ltb (length p) (length s)) (c == d) (str_eq (take (length p) s) p)
        (elim (get_elem? s (length p)) [ none ↦ false | some c ↦ is_digit c ]))
  where
    shuffle : (a e t g : Bool) → (a && (e && t) && g) ≡ (e && (a && t && g))
    shuffle true true t g = refl
    shuffle true false t g = refl
    shuffle false true t g = refl
    shuffle false false t g = refl

counts_lem : (s : Str) → is_loop_var s ≡ counts s
unfolding is_loop_var counts
counts_lem s =
    ap (λ b. str_eq s (codes "index") || str_eq s (codes "index0") || str_eq s (codes "first") || b)
      (digit_behind_lem (codes "_index_") s)

-- What `is_super` says of a path, against the loop that the path is of.
abbrev Split : List Str → List Str × Str → Type 0
Split ss q = (on : ℕ) → of_loop on ss ≡ (all_super q.0 && (length q.0 == on) && counts q.1)

Split-cons :
    (s t : Str) (ss : List Str) (q : List Str × Str)
    → Split (t ∷ ss) q
    → Split (s ∷ t ∷ ss) (s ∷ q.0, q.1)
unfolding of_loop all_super
Split-cons s t ss q h zero = ground arith
Split-cons s t ss q h (suc on) =
    let l : (suc (length q.0) == suc on) ≡ (length q.0 == on) = ground arith in
    rw (l, h on) (assoc (str_eq s (codes "super")) (all_super q.0) (length q.0 == on) (counts q.1))
  where
    assoc : (a b c d : Bool) → (a && (b && c && d)) ≡ ((a && b) && c && d)
    assoc true b c d = refl
    assoc false b c d = refl

of_loop-nil : (on : ℕ) → of_loop on [] ≡ false
unfolding of_loop
of_loop-nil zero = refl
of_loop-nil (suc on) = refl

and_false : (b : Bool) → (b && false) ≡ false
and_false true = refl
and_false false = refl

split_last-Split :
    (s : Str) (ss : List Str)
    → (q : List Str × Str) × (split_last (s ∷ ss) ≡ some q) × Split (s ∷ ss) q
unfolding of_loop all_super
split_last-Split s [] = (([], s), refl, last)
  where
    last : Split (s ∷ []) ([], s)
    last zero = refl
    last (suc on) =
        let z : (0 == suc on) ≡ false = ground arith in
        rw (of_loop-nil on, and_false (str_eq s (codes "super")), z) refl
split_last-Split s (t ∷ ss) =
    let (q, e, h) = split_last-Split t ss in
    (
      (s ∷ q.0, q.1),
      ap (λ o. elim o [ none ↦ none | some r ↦ some (s ∷ r.0, r.1) ]) e,
      Split-cons s t ss q h,
    )

of_inner-two : (on : ℕ) (s t : Str) (ss : List Str) → of_inner on (s ∷ t ∷ ss) ≡ false
unfolding of_inner
of_inner-two zero s t ss = refl
of_inner-two (suc on) s t ss = refl

counted_lem : (on : ℕ) (ss : List Str) → counted on ss ≡ (of_loop on ss || of_inner on ss)
unfolding of_loop of_inner
counted_lem zero [] = refl
counted_lem (suc on) [] = refl
counted_lem zero (s ∷ []) = counts_lem s ∙ or_false (counts s)
counted_lem (suc on) (s ∷ []) =
    rw (of_loop-nil on, and_false (str_eq s (codes "super"))) (counts_lem s)
counted_lem on (s ∷ t ∷ ss) =
    let (q, e, h) = split_last-Split t ss in
    let c = Split-cons s t ss q h on in
    rw (e, of_inner-two on s t ss)
      (ap (λ b. all_super (s ∷ q.0) && (length (s ∷ q.0) == on) && b) (counts_lem q.1)
        ∙ sym c
        ∙ or_false (of_loop on (s ∷ t ∷ ss)))

any-or :
    (p q r : ℕ → List Str → Bool) (ms : List Mention)
    → ((on : ℕ) (ss : List Str) → p on ss ≡ (q on ss || r on ss))
    → any p ms ≡ (any q ms || any r ms)
unfolding any
any-or p q r [] h = refl
any-or p q r (m ∷ ms) h =
    rw (h m.0 m.1.segments, any-or p q r ms h)
      (shuffle (q m.0 m.1.segments) (r m.0 m.1.segments) (any q ms) (any r ms))
  where
    shuffle : (a b c d : Bool) → ((a || b) || (c || d)) ≡ ((a || c) || (b || d))
    shuffle true b c d = refl
    shuffle false true true d = refl
    shuffle false false true d = refl
    shuffle false b false d = refl

module _ {Expr Local : Type 0} (reader : Reader Expr Local) (names : HasNames reader) where
  -- Where the nodes hold no `defined`, every partial is there, partials are nested no deeper than the
  -- fuel, and every path has a segment, `find_loop_var` returns true exactly where one of the paths
  -- that the block mentions is a variable of the loop, `on` times `super::` and its name inside `on`
  -- helpers, or inside a helper the bare name of one, which there is not the loop's. The block
  -- mentions the paths in its expressions, declarations, conditions and assignments to arguments of
  -- partials, in the blocks of the helpers and in the nodes of partials, but for three omissions: an
  -- argument of a partial that is its scope, the nodes of that partial, and those behind it in its
  -- list.
  pub find_loop_var-mentioned :
      (f : ℕ) (path : Str) (ns : Nodes Expr Local)
      → Readable reader f path ns
      → find_loop_var reader f path ns
        ≡ ok (
            any of_loop (mentioned reader f 0 path ns)
            || any of_inner (mentioned reader f 0 path ns))
  find_loop_var-mentioned f path ns h =
      find_loop_var-mentions reader names f path ns h
      ∙ ap (λ b. ok b)
          (mentions-any_counted reader f 0 path ns
            ∙ any-or counted of_loop of_inner (mentioned reader f 0 path ns) counted_lem)
