-- ===== src/Parser/Expressions/Sound.antt =====
-- The tags that hold Rust expressions are read without a panic and within their fuel.
use yarte.Base.{
  ℕ, zero, suc, ◌+◌, ◌-◌, ◌≤◌, ◌<◌, ◌≡◌, refl, sym, ap, ◌∙◌, Bool, true, false, Option, none, some,
  arith, length, drop, ltb, ltb→lt, length-drop, Str, codes, starts_with,
}
use yarte.Parser.Result.{
  Result, ok, ◌>>=◌, holds, raised, panicked, Ensures-bind, Ensures-if, Ensures-weaken,
}
use yarte.Parser.Cursor.{Cursor, slice_to, adv}
use yarte.Parser.Advances.{
  Advances, Advances-trans, Advances-weaken, Advances-Fits, Fits, Safe, slice_to-Ensures,
  slice_from-Ensures, adv_find-Ensures, adv_starts_with-Ensures,
}
use yarte.Parser.Advances.Reads.{skip_ws-Ensures, ws-Ensures, starts_with-length}
use yarte.Parser.Trim.{trim}
use yarte.Parser.Trim.Sound.{trim-IsTrim}
use yarte.Parser.Syntax.{Syn, S, or_fail}
use yarte.Parser.Tags.Sound.{
  Ensures-found_or, adv-bind, end_expr-Ensures, path-Ensures, spanned-Ensures,
}
use yarte.Parser.Expressions.{
  and_then, read_trimmed, argument_loop, argument, safe_loop, expr_loop, or_else, arguments,
  args_list, eat_safe, as_local, eat_expression, eat_partial,
}

abbrev Any : {A : Type 0} → A → Type 0
Any _ = Unit

pub trim-Ensures : (s : Str) → Safe Any (trim s)
trim-Ensures s = let (l, v, r, e, _) = trim-IsTrim s in rw e (holds tt)

or_fail-Ensures : {A : Type 0} (o : Option A) → Safe Any (or_fail o)
or_fail-Ensures none = raised
or_fail-Ensures (some a) = holds tt

and_then-Ensures {ℓ} :
    (b : Bool) {P : Bool → Type ℓ} {r : Result Bool}
    → (b ≡ true → Safe P r)
    → Safe (λ x. x ≡ true → (b ≡ true) × P x) (and_then b r)
and_then-Ensures true h = Ensures-weaken (λ x. x) (λ x p _. (refl, p)) (h refl)
and_then-Ensures false h = holds (λ e. cc)

or_else-Ensures {ℓ} :
    {A : Type 0} {P : A → Type ℓ} {r s : Result A} → Safe P r → Safe P s → Safe P (or_else r s)
or_else-Ensures (holds h) k = holds h
or_else-Ensures raised k = k
or_else-Ensures (panicked p) k = absurd p

-- A prefix that stands at `n` ends within the text.
prefix_bound :
    (n : ℕ) (s p : Str) {b : Bool}
    → b ≡ starts_with (drop n s) p
    → b ≡ true
    → length p ≤ length s - n
prefix_bound n s p e h = omega (arith, length-drop n s, starts_with-length (drop n s) p (sym e ∙ h))

slice_to-bind {ℓ} :
    {A : Type 0} {P : A → Type ℓ} (s : Str) (n : ℕ) {f : Str → Result A}
    → n ≤ length s
    → ((t : Str) → Safe P (f t))
    → Safe P (slice_to s n >>= f)
slice_to-bind s n h k = Ensures-bind (slice_to-Ensures {P = Any} s n h tt) λ t _. k t

module _ {T : Type 0} {fun : Str → Result T} (total : (s : Str) → Safe Any (fun s)) where
  read_trimmed-Ensures : (i : Cursor) (s : Str) → Fits i → Safe Any (read_trimmed fun i s)
  unfolding read_trimmed
  read_trimmed-Ensures i s fits = Ensures-bind (trim-Ensures s) λ (_, t, _) _.
      Ensures-bind (total t) λ e _. Ensures-bind (skip_ws-Ensures i fits) λ k _. holds tt

  argument_to :
      (i : Cursor) (n k : ℕ)
      → Fits i
      → n ≤ length i.rest
      → k ≤ length i.rest
      → Safe {A = Cursor × S T}
          (λ r. Advances 0 i r.0)
          (do s ← slice_to i.rest n; e ← read_trimmed fun i s; c ← adv i k; ok (c, e))
  argument_to i n k fits hn hk = slice_to-bind i.rest n hn λ s.
      Ensures-bind (read_trimmed-Ensures i s fits)
        λ x _. adv-bind i k hk λ c a _. holds (Advances-weaken (omega arith) a)

  argument_loop-Ensures :
      (f : ℕ) (i : Cursor) (at : ℕ)
      → Fits i
      → at ≤ length i.rest
      → length i.rest - at < f
      → Safe (λ r. Advances 0 i r.0) (argument_loop fun f i at)
  unfolding argument_loop
  argument_loop-Ensures zero i at fits h m = absurd (omega arith)
  argument_loop-Ensures (suc f) i at fits h m =
      Ensures-bind (adv_find-Ensures i at b'}' h) λ o found.
        Ensures-found_or at b'}' i.rest o found raised λ j lt e.
          Ensures-bind
            (and_then-Ensures (ltb 0 j)
              λ b. adv_starts_with-Ensures i (at + j - 1) (codes "~}}") (omega arith))
            λ t _.
              Ensures-if t
                (λ _. argument_to i (j - 1) (at + j - 1) fits (omega arith) (omega arith))
                λ _.
                  Ensures-bind (adv_starts_with-Ensures i (j + 1) (codes "}") (omega arith)) λ b _.
                    Ensures-if b (λ _. argument_to i j (at + j) fits (omega arith) (omega arith))
                      λ _. argument_loop-Ensures f i (at + (j + 1)) fits (omega arith) (omega arith)

  argument-Ensures : (i : Cursor) → Fits i → Safe (λ r. Advances 0 i r.0) (argument fun i)
  unfolding argument
  argument-Ensures i fits =
      argument_loop-Ensures (suc (length i.rest)) i 0 fits (omega arith) (omega arith)

safe_loop-Ensures :
    (f : ℕ) (i : Cursor) (at : ℕ)
    → at ≤ length i.rest
    → length i.rest - at < f
    → Safe (λ r. Advances 3 i r.0) (safe_loop f i at)
unfolding safe_loop
safe_loop-Ensures zero i at h m = absurd (omega arith)
safe_loop-Ensures (suc f) i at h m = Ensures-bind (adv_find-Ensures i at b'}' h) λ o found.
    Ensures-found_or at b'}' i.rest o found raised λ j lt e.
      Ensures-bind
        (slice_from-Ensures {P = λ n. n ≡ drop (at + j + 1) i.rest} i.rest (at + j + 1)
          (omega arith) refl)
        λ n en.
          Ensures-if (starts_with n (codes "~}}"))
            (λ b.
              let bound =
                prefix_bound (at + j + 1) i.rest (codes "~}}")
                  (ap (λ x. starts_with x (codes "~}}")) en) b in
              adv-bind i (at + j + 4) (omega arith) λ c a _.
                slice_to-bind i.rest (at + j) (omega arith)
                  λ s. holds (Advances-weaken (omega arith) a))
            λ _.
              Ensures-if (starts_with n (codes "}}"))
                (λ b.
                  let bound =
                    prefix_bound (at + j + 1) i.rest (codes "}}")
                      (ap (λ x. starts_with x (codes "}}")) en) b in
                  adv-bind i (at + j + 3) (omega arith) λ c a _.
                    slice_to-bind i.rest (at + j) (omega arith)
                      λ s. holds (Advances-weaken (omega arith) a))
                λ _. safe_loop-Ensures f i (at + (j + 1)) (omega arith) (omega arith)

expression_to :
    (i : Cursor) (n k : ℕ) (rws : Bool)
    → n ≤ length i.rest
    → k ≤ length i.rest
    → 2 ≤ k
    → Safe {A = Cursor × Bool × Str}
        (λ r. Advances 2 i r.0)
        (do c ← adv i k; s ← slice_to i.rest n; ok (c, rws, s))
expression_to i n k rws hn hk two =
    adv-bind i k hk λ c a _. slice_to-bind i.rest n hn λ s. holds (Advances-weaken two a)

expr_loop-Ensures :
    (f : ℕ) (i : Cursor) (at : ℕ)
    → at ≤ length i.rest
    → length i.rest - at < f
    → Safe (λ r. Advances 2 i r.0) (expr_loop f i at)
unfolding expr_loop
expr_loop-Ensures zero i at h m = absurd (omega arith)
expr_loop-Ensures (suc f) i at h m = Ensures-bind (adv_find-Ensures i at b'}' h) λ o found.
    Ensures-found_or at b'}' i.rest o found raised λ j lt e.
      Ensures-bind
        (and_then-Ensures (ltb 0 (at + j))
          λ b. adv_starts_with-Ensures i (at + j - 1) (codes "~}}") (omega arith))
        λ t et.
          Ensures-if t
            (λ b.
              let (pos, es) = et b in
              let bound = prefix_bound (at + j - 1) i.rest (codes "~}}") es b in
              let p = ltb→lt 0 (at + j) pos in
              expression_to i (at + j - 1) (at + j + 2) true (omega arith) (omega arith)
                (omega arith))
            λ _.
              Ensures-bind (adv_starts_with-Ensures i (at + j + 1) (codes "}") (omega arith))
                λ b eb.
                  Ensures-if b
                    (λ hb.
                      let bound = prefix_bound (at + j + 1) i.rest (codes "}") eb hb in
                      expression_to i (at + j) (at + j + 2) false (omega arith) (omega arith)
                        (omega arith))
                    λ _. expr_loop-Ensures f i (at + (j + 1)) (omega arith) (omega arith)

module _ {Expr Local : Type 0} (syn : Syn Expr Local) where
  pub arguments-Ensures : (i : Cursor) → Fits i → Safe (λ r. Advances 0 i r.0) (arguments syn i)
  unfolding arguments
  arguments-Ensures = argument-Ensures (λ s. or_fail-Ensures (syn.parse_expr s))

  pub args_list-Ensures : (i : Cursor) → Fits i → Safe (λ r. Advances 0 i r.0) (args_list syn i)
  unfolding args_list
  args_list-Ensures = argument-Ensures (λ s. or_fail-Ensures (syn.parse_expr_list s))

  pub eat_safe-Ensures :
      (i : Cursor) (lws : Bool) → Fits i → Safe (λ r. Advances 0 i r.0) (eat_safe syn i lws)
  unfolding eat_safe
  eat_safe-Ensures i lws fits =
      Ensures-bind (safe_loop-Ensures (suc (length i.rest)) i 0 (omega arith) (omega arith))
        λ (c, rws, s) a.
          Ensures-bind (read_trimmed-Ensures (λ s. or_fail-Ensures (syn.parse_expr s)) i s fits)
            λ e _. holds (Advances-weaken (omega arith) a)

  as_local-Ensures :
      (i c : Cursor) (s : Str)
      → Fits i
      → Advances 0 i c
      → Safe (λ r. Advances 0 i r.0) (as_local syn i c s)
  unfolding as_local
  as_local-Ensures i c s fits a =
      Ensures-if (starts_with s (codes "let "))
        (λ _.
          Ensures-bind (or_fail-Ensures (syn.parse_local s))
            λ e _. Ensures-bind (skip_ws-Ensures i fits) λ k _. holds a)
        λ _. raised

  pub eat_expression-Ensures :
      (i : Cursor) (lws : Bool) → Fits i → Safe (λ r. Advances 0 i r.0) (eat_expression syn i lws)
  unfolding eat_expression
  eat_expression-Ensures i lws fits =
      Ensures-bind (expr_loop-Ensures (suc (length i.rest)) i 0 (omega arith) (omega arith))
        λ (c, rws, _) a.
          let a' = Advances-weaken {j = 0} (omega arith) a in
          Ensures-bind (trim-Ensures _) λ (_, s, _) _.
            or_else-Ensures (as_local-Ensures i c s fits a') (
              Ensures-bind (or_fail-Ensures (syn.parse_expr s))
                λ e _. Ensures-bind (skip_ws-Ensures i fits) λ k _. holds a')

  pub eat_partial-Ensures :
      (i : Cursor) (lws : Bool) → Fits i → Safe (λ r. Advances 3 i r.0) (eat_partial syn i lws)
  unfolding eat_partial
  eat_partial-Ensures i lws fits = Ensures-bind (ws-Ensures i fits) λ r a.
      Ensures-bind (spanned-Ensures 1 r.0 (Advances-Fits a) path-Ensures) λ p b.
        Ensures-bind (args_list-Ensures p.0 (Advances-Fits b)) λ q c.
          Ensures-bind (end_expr-Ensures q.0 (Advances-Fits c)) λ e d. holds (
            Advances-weaken (omega arith)
              (Advances-trans a (Advances-trans b (Advances-trans c d))))
