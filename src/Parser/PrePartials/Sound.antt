-- ===== src/Parser/PrePartials/Sound.antt =====
-- The search for partials ends, and it reads the source to its end.
use yarte.Base.{
  ℕ, zero, suc, ◌+◌, ◌-◌, ◌≤◌, ◌<◌, ◌≡◌, ◌≢◌, Bool, true, false, List, [], ◌∷◌, arith, length,
  drop-length, Str, find, length-drop, ◌==◌,
}
use yarte.Parser.Result.{
  ok, fail, next, out_of_fuel, ◌>>=◌, holds, raised, panicked, Ensures-bind, Ensures-if,
  Ensures-weaken,
}
use yarte.Parser.Cursor.{Cursor, adv}
use yarte.Parser.Advances.{
  Advances, Advances-trans, Advances-weaken, Advances-Fits, Advances-length, slice_from-Ensures,
  find-Found_zero,
}
use yarte.Parser.Syntax.{Syn, Partial, Node}
use yarte.Parser.Tags.{PResult}
use yarte.Parser.Tags.Sound.{Ensures-found_or, adv-bind, eat_comment-Ensures}
use yarte.Parser.Expressions.Sound.{eat_partial-Ensures}
use yarte.Parser.Raw.Sound.{MayPanic, Safe-MayPanic, eat_raw-Ensures}
use yarte.Parser.PrePartials.{
  after_partial, after_raw, after_comment, pre_switch, pre_brace, eat_partials, partials_read,
  parse_partials,
}

module _ {Expr Local : Type 0} (syn : Syn Expr Local) where
  -- At least one byte further.
  abbrev Further : Cursor → PResult (List (Partial Expr)) → Type 0
  Further i r = MayPanic (λ x. Advances 1 i x.0) r

  after_partial-Further :
      {i c : Cursor} (nodes : List (Partial Expr)) {r : PResult (Partial Expr)}
      → Advances 1 i c
      → MayPanic (λ x. Advances 0 c x.0) r
      → Further i (after_partial syn c nodes r)
  after_partial-Further nodes a (holds b) =
      holds (Advances-weaken (omega arith) (Advances-trans a b))
  after_partial-Further nodes a (raised {e = fail}) = raised
  after_partial-Further nodes a (raised {e = next}) = holds a
  after_partial-Further nodes a (panicked x) = panicked x

  after_raw-Further :
      {i c : Cursor} (nodes : List (Partial Expr)) {r : PResult (Node Expr Local)}
      → Advances 1 i c
      → MayPanic (λ x. Advances 0 c x.0) r
      → Further i (after_raw syn c nodes r)
  after_raw-Further nodes a (holds b) = holds (Advances-weaken (omega arith) (Advances-trans a b))
  after_raw-Further nodes a (raised {e = fail}) = raised
  after_raw-Further nodes a (raised {e = next}) = holds a
  after_raw-Further nodes a (panicked x) = panicked x

  after_comment-Further :
      {i c : Cursor} (nodes : List (Partial Expr)) {r : PResult (Node Expr Local)}
      → Advances 1 i c
      → MayPanic (λ x. Advances 0 c x.0) r
      → Further i (after_comment syn c nodes r)
  after_comment-Further nodes a (holds b) =
      holds (Advances-weaken (omega arith) (Advances-trans a b))
  after_comment-Further nodes a raised = holds a
  after_comment-Further nodes a (panicked x) = panicked x

  pre_switch-Further :
      (i : Cursor) (nodes : List (Partial Expr)) (j n t : ℕ) (lws : Bool)
      → t ≤ 1
      → j + 4 ≤ length i.rest
      → Further i (pre_switch syn i nodes j n t lws)
  unfolding pre_switch
  pre_switch-Further i nodes j n t lws t1 h =
      Ensures-if (n == b'>')
        (λ _. adv-bind i (j + 3 + t) (omega arith) λ c a _.
          after_partial-Further nodes (Advances-weaken (omega arith) a) (
            Ensures-weaken absurd (λ r x. Advances-weaken (omega arith) x)
              (eat_partial-Ensures syn c lws (Advances-Fits a))))
        λ _.
          Ensures-if (n == b'R')
            (λ _. adv-bind i (j + 3 + t) (omega arith) λ c a _.
              after_raw-Further nodes (Advances-weaken (omega arith) a) (
                Ensures-weaken (λ x. x) (λ r x. Advances-weaken (omega arith) x)
                  (eat_raw-Ensures c lws (Advances-Fits a))))
            λ _.
              Ensures-if (n == b'!')
                (λ _. adv-bind i (j + 3) (omega arith) λ c a _.
                  after_comment-Further nodes (Advances-weaken (omega arith) a)
                    (Ensures-weaken absurd (λ r x. x) (eat_comment-Ensures c (Advances-Fits a))))
                λ _.
                  adv-bind i (j + 2 + t) (omega arith)
                    λ c a _. holds (Advances-weaken (omega arith) a)

  step_over :
      (i : Cursor) (nodes : List (Partial Expr)) (j : ℕ)
      → j < length i.rest
      → Further i (do c ← adv i (j + 1); ok (c, nodes))
  step_over i nodes j lt =
      adv-bind i (j + 1) (omega arith) λ c a _. holds (Advances-weaken (omega arith) a)

  pre_brace-Further :
      (i : Cursor) (nodes : List (Partial Expr)) (j : ℕ) (s : Str)
      → j < length i.rest
      → length s + j + 1 ≡ length i.rest
      → Further i (pre_brace syn i nodes j s)
  unfolding pre_brace
  pre_brace-Further i nodes j [] lt e = step_over i nodes j lt
  pre_brace-Further i nodes j (a ∷ []) lt e = step_over i nodes j lt
  pre_brace-Further i nodes j (a ∷ b ∷ []) lt e = step_over i nodes j lt
  pre_brace-Further i nodes j (a ∷ b ∷ c ∷ s) lt e =
      Ensures-if (a == b'{')
        (λ _.
          Ensures-if (b == b'~')
            (λ _. pre_switch-Further i nodes j c 1 true (omega arith) (omega arith))
            λ _. pre_switch-Further i nodes j b 0 false (omega arith) (omega arith))
        λ _. step_over i nodes j lt

  eat_partials-Ensures :
      (f : ℕ) (i : Cursor) (nodes : List (Partial Expr))
      → length i.rest < f
      → MayPanic (λ r. r.0.rest ≡ []) (eat_partials syn f i nodes)
  unfolding eat_partials
  eat_partials-Ensures zero i nodes h = absurd (omega arith)
  eat_partials-Ensures (suc f) i nodes h =
      Ensures-found_or 0 b'{' i.rest (find b'{' i.rest) (find-Found_zero b'{' i.rest)
        (adv-bind i (length i.rest) (omega arith) λ c a e. holds (rw (e, drop-length i.rest)))
        λ j lt e.
          Ensures-bind
            (Safe-MayPanic (
              slice_from-Ensures {P = λ s. length s ≡ length i.rest - (j + 1)} i.rest (j + 1)
                (omega arith) (length-drop (j + 1) i.rest)))
            λ n en.
              Ensures-bind (pre_brace-Further i nodes j n (omega arith) (omega arith))
                λ (c, more) a. eat_partials-Ensures f c more (omega (arith, Advances-length a))

  partials_read_ends :
      {r : PResult (List (Partial Expr))}
      → MayPanic (λ x. x.0.rest ≡ []) r
      → partials_read syn r ≢ out_of_fuel
  unfolding partials_read
  partials_read_ends (holds {a = (c, ps)} e) = ground arith
  partials_read_ends raised = cc
  partials_read_ends (panicked x) = cc

  -- The search for partials ends on every source: the fuel that the model gives it is enough.
  pub parse_partials-ne-out_of_fuel : (src : Str) → parse_partials syn src ≢ out_of_fuel
  unfolding parse_partials
  parse_partials-ne-out_of_fuel src =
      partials_read_ends
        (eat_partials-Ensures (suc (length src)) (record { rest = src; off = 0 }) [] (omega arith))
