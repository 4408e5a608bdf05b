-- ===== src/Parser/Tags/Sound.antt =====
-- What the readers of names, comments and tag ends leave behind. None of them panics or runs out
-- of fuel.
use yarte.Base.{
  ℕ, zero, suc, ◌+◌, ◌-◌, ◌≤◌, ◌<◌, ◌≡◌, refl, sym, ◌∙◌, true, false, not, [], ◌∷◌, ◌++◌, Option,
  none, some, arith, length, drop, inl, inr, Option-cases, length-drop, Str, codes, starts_with,
  position,
}
use yarte.Parser.Result.{
  Result, ok, Ensures, holds, raised, Ensures-bind, Ensures-if, Ensures-weaken, ◌>>=◌,
}
use yarte.Parser.Cursor.{Cursor, slice_to, adv, is_ws, is_empty}
use yarte.Parser.Advances.{
  Advances, Advances-trans, Advances-weaken, Advances-Fits, Fits, Safe, Found, adv-Ensures,
  slice_to-Ensures, adv_find-Ensures, adv_starts_with-Ensures,
}
use yarte.Parser.Advances.Reads.{
  skip_ws-Ensures, take_while-Ensures, position_bound, starts_with-length,
}
use yarte.Parser.Syntax.{Syn}
use yarte.Parser.Tags.{
  PResult, found_or, comment_loop, eat_comment, end_expr, is_ident_start, is_ident_continue,
  ident_rest, ident_second, ident_first, identifier, path, spanned,
}

module _ {ℓ} {A : Type 0} {P : A → Type ℓ} {Panics : Type 0} where
  -- After a search, the two ways on.
  pub Ensures-found_or :
      (at p : ℕ) (s : Str) (o : Option ℕ) {x : Result A} {f : ℕ → Result A}
      → Found at p s o
      → Ensures Panics P x
      → ((j : ℕ)
          → at + j < length s
          → drop (at + j) s ≡ p ∷ drop (suc (at + j)) s
          → Ensures Panics P (f j))
      → Ensures Panics P (found_or o x f)
  Ensures-found_or at p s none h hx hf = hx
  Ensures-found_or at p s (some j) (lt, e) hx hf = hf j lt e

  pub adv-bind :
      (c : Cursor) (n : ℕ) {f : Cursor → Result A}
      → n ≤ length c.rest
      → ((c' : Cursor) → Advances n c c' → c'.rest ≡ drop n c.rest → Ensures Panics P (f c'))
      → Ensures Panics P (adv c n >>= f)
  adv-bind c n h k =
      Ensures-bind (Ensures-weaken absurd (λ _ x. x) (adv-Ensures c n h)) λ c' (a, e). k c' a e

pub starts_with-eq : (s p : Str) → starts_with s p ≡ true → s ≡ p ++ drop (length p) s
starts_with-eq s [] h = refl
starts_with-eq [] (c ∷ p) h = cc
starts_with-eq (d ∷ s) (c ∷ p) h = ground (arith, starts_with-eq s p)

module _ {Expr Local : Type 0} where
  comment_loop-Ensures :
      (f : ℕ) (c : Cursor) (ch : ℕ) (tail : Str) (at : ℕ)
      → at ≤ length c.rest
      → length c.rest - at < f
      → Safe (λ r. Advances 0 c r.0) (comment_loop {Expr = Expr} {Local = Local} f c ch tail at)
  unfolding comment_loop
  comment_loop-Ensures zero c ch tail at h m = absurd (omega arith)
  comment_loop-Ensures (suc f) c ch tail at h m =
      Ensures-bind (adv_find-Ensures c at ch h) λ o found.
        Ensures-found_or at ch c.rest o found raised λ j lt e.
          Ensures-bind (adv_starts_with-Ensures c (at + j + 1) tail (omega arith)) λ b eb.
            Ensures-if b
              (λ bt.
                let n1 : at + j + 1 ≡ suc (at + j) = omega arith in
                let hit : starts_with (drop (suc (at + j)) c.rest) tail ≡ true =
                  rw (← n1) (sym eb ∙ bt) in
                let bound = starts_with-length _ tail hit in
                adv-bind c (at + j + suc (length tail))
                  (omega (arith, length-drop (suc (at + j)) c.rest))
                  λ c' a _.
                    Ensures-bind
                      (slice_to-Ensures {P = λ _. Unit {0}} c.rest (at + j) (omega arith) tt)
                      λ _ _. holds (Advances-weaken (omega arith) a))
              λ _. comment_loop-Ensures f c ch tail (at + (j + 1)) (omega arith) (omega arith)

  pub eat_comment-Ensures :
      (c : Cursor)
      → Fits c
      → Safe (λ r. Advances 0 c r.0) (eat_comment {Expr = Expr} {Local = Local} c)
  unfolding eat_comment
  eat_comment-Ensures c fits =
      Ensures-if (starts_with c.rest (codes "--"))
        (λ h. adv-bind c 2 (starts_with-length c.rest (codes "--") h) λ c' a _.
          Ensures-weaken (λ x. x) (λ r b. Advances-weaken (omega arith) (Advances-trans a b))
            (comment_loop-Ensures (suc (length c'.rest)) c' b'-' (codes "-!}}") 0 (omega arith)
              (omega arith)))
        λ _.
          comment_loop-Ensures (suc (length c.rest)) c b'!' (codes "}}") 0 (omega arith)
            (omega arith)

pub end_expr-Ensures : (c : Cursor) → Fits c → Safe (λ r. Advances 2 c r.0) (end_expr c)
unfolding end_expr
end_expr-Ensures c fits = Ensures-bind (skip_ws-Ensures c fits) λ i a.
    Ensures-if (starts_with i.rest (codes "~}}"))
      (λ h.
        adv-bind i 3 (starts_with-length i.rest (codes "~}}") h)
          λ c' b _. holds (Advances-weaken (omega arith) (Advances-trans a b)))
      λ _.
        Ensures-if (starts_with i.rest (codes "}}"))
          (λ h.
            adv-bind i 2 (starts_with-length i.rest (codes "}}") h)
              λ c' b _. holds (Advances-weaken (omega arith) (Advances-trans a b)))
          λ _. raised

pub path-Ensures : (c : Cursor) → Fits c → Safe (λ r. Advances 1 c r.0) (path c)
unfolding path
path-Ensures c fits = Ensures-bind (take_while-Ensures c (λ x. not (is_ws x)) fits) λ (d, s) a.
    Ensures-if (is_empty s) (λ _. raised) λ h. holds (Advances-weaken (is_empty-length s h) a)
  where
    is_empty-length : (s : Str) → is_empty s ≡ false → 1 ≤ length s
    is_empty-length [] h = cc
    is_empty-length (x ∷ s) h = omega arith

module _ {Expr Local : Type 0} (syn : Syn Expr Local) where
  one_char :
      (i : Cursor)
      → 1 ≤ length i.rest
      → Safe {A = Cursor × Str}
          (λ r. Advances 1 i r.0)
          (do c ← adv i 1; t ← slice_to i.rest 1; ok (c, t))
  one_char i h =
      adv-bind i 1 h
        λ c a _. Ensures-bind (slice_to-Ensures {P = λ _. Unit {0}} i.rest 1 h tt) λ t _. holds a

  ident_rest-Ensures :
      (i : Cursor) (s : Str)
      → length i.rest ≡ suc (suc (length s))
      → Safe (λ r. Advances 1 i r.0) (ident_rest syn i s)
  unfolding ident_rest
  ident_rest-Ensures i s h = elim (Option-cases (position (λ c. not (is_ident_continue syn c)) s)) [
    | inl e ↦
        rw (e, found_or)
          (adv-bind i (length i.rest) (omega arith)
            λ c a _. holds (Advances-weaken (omega arith) a))
    | inr (j, e) ↦
        let bound = position_bound (λ c. not (is_ident_continue syn c)) s e in
        rw (e, found_or)
          (adv-bind i (j + 2) (omega arith) λ c a _.
            Ensures-bind (slice_to-Ensures {P = λ _. Unit {0}} i.rest (j + 2) (omega arith) tt)
              λ t _. holds (Advances-weaken (omega arith) a))
  ]

  ident_second-Ensures :
      (i : Cursor) (s : Str)
      → length i.rest ≡ suc (length s)
      → Safe (λ r. Advances 1 i r.0) (ident_second syn i s)
  unfolding ident_second
  ident_second-Ensures i [] h = one_char i (omega arith)
  ident_second-Ensures i (d ∷ s) h =
      Ensures-if (is_ident_continue syn d) (λ _. ident_rest-Ensures i s (omega arith))
        λ _. one_char i (omega arith)

  ident_first-Ensures :
      (i : Cursor) (s : Str)
      → length i.rest ≡ length s
      → Safe (λ r. Advances 1 i r.0) (ident_first syn i s)
  unfolding ident_first
  ident_first-Ensures i [] h = raised
  ident_first-Ensures i (c ∷ s) h =
      Ensures-if (is_ident_start syn c) (λ _. ident_second-Ensures i s (omega arith)) λ _. raised

  pub identifier-Ensures : (i : Cursor) → Safe (λ r. Advances 1 i r.0) (identifier syn i)
  unfolding identifier
  identifier-Ensures i = ident_first-Ensures i i.rest refl

pub spanned-Ensures :
    {Panics : Type 0} {T : Type 0} (k : ℕ) (i : Cursor) {f : Cursor → PResult T}
    → Fits i
    → ((c : Cursor) → Fits c → Ensures Panics (λ r. Advances k c r.0) (f c))
    → Ensures Panics (λ r. Advances k i r.0) (spanned i f)
unfolding spanned
spanned-Ensures k i {f} fits h =
    Ensures-bind (Ensures-weaken absurd (λ _ x. x) (skip_ws-Ensures i fits)) λ c a.
      Ensures-bind (h c (Advances-Fits a))
        λ r b. holds (Advances-weaken (omega arith) (Advances-trans a b))
