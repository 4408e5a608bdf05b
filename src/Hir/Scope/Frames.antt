-- ===== src/Hir/Scope/Frames.antt =====
-- The scopes are a stack of lists.
use yarte.Base.{
  ℕ, zero, suc, ◌+◌, ◌-◌, true, List, [], ◌∷◌, ◌++◌, some, leb, length, take, get_elem?, ◌≡◌, refl,
  sym, ap, ◌∙◌, arith, append_assoc, append-nil, length-append, le→leb, drop-append_length, subst,
}
use yarte.Parser.Result.{ok}
use yarte.Hir.Scope.{
  Scope, split_last, drain, pops, extend, push_scope, slice, tail_from, between, get_first, get,
}

pub split_last-append : (ns : List ℕ) (n : ℕ) → split_last (ns ++ n ∷ []) ≡ some (ns, n)
split_last-append [] n = refl
split_last-append (m ∷ []) n = refl
split_last-append (m ∷ k ∷ ns) n = rw (split_last-append (k ∷ ns) n) refl

module _ {Expr : Type 0} where
  abbrev concat : List (List Expr) → List Expr
  concat [] = []
  concat (f ∷ fs) = f ++ concat fs

  -- Where the scopes begin, the first of them at `n`.
  abbrev pub bounds : ℕ → List (List Expr) → List ℕ
  bounds n [] = []
  bounds n (f ∷ fs) = n ∷ bounds (n + length f) fs

  -- The scopes are `first` and then `frames`.
  pub record Holds (s : Scope Expr) (first : List Expr) (frames : List (List Expr)) : Type 0 where
    pub scope_is : s.scope ≡ first ++ concat frames
    pub level_is : s.level ≡ bounds (length first) frames

  pub take-append_length : (xs ys : List Expr) → take (length xs) (xs ++ ys) ≡ xs
  take-append_length [] ys = refl
  take-append_length (x ∷ xs) ys = ap (λ t. x ∷ t) (take-append_length xs ys)

  between-frames :
      (frames : List (List Expr)) (pre : List Expr) (n : ℕ)
      → between
          (pre ++ concat frames)
          (get_elem? (bounds (length pre) frames) n)
          (get_elem? (bounds (length pre) frames) (suc n))
        ≡ ok (get_elem? frames n)
  unfolding between slice tail_from
  between-frames [] pre n = refl
  between-frames (f ∷ []) pre zero =
      let h : leb (length pre) (length (pre ++ (f ++ []))) ≡ true =
        le→leb _ _ (omega (arith, length-append pre (f ++ []))) in
      rw h (ap (λ t. ok (some t)) (drop-append_length pre (f ++ []) ∙ append-nil f))
  between-frames (f ∷ g ∷ fs) pre zero =
      let h : leb (length pre) (length pre + length f) ≡ true = le→leb _ _ (omega arith) in
      let k : leb (length pre + length f) (length (pre ++ (f ++ concat (g ∷ fs)))) ≡ true =
        le→leb _ _ (
          omega
            (arith, length-append pre (f ++ concat (g ∷ fs)), length-append f (concat (g ∷ fs)))) in
      let d : (length pre + length f) - length pre ≡ length f = omega arith in
      rw
        (
          h,
          k,
          d,
          drop-append_length pre (f ++ concat (g ∷ fs)),
          take-append_length f (concat (g ∷ fs)),
        )
        refl
  between-frames (f ∷ fs) pre (suc n) =
      subst
        (λ m.
          between (pre ++ (f ++ concat fs)) (get_elem? (bounds m fs) n)
            (get_elem? (bounds m fs) (suc n))
          ≡ ok (get_elem? fs n))
        (length-append pre f)
        (subst
          (λ x.
            between x (get_elem? (bounds (length (pre ++ f)) fs) n)
              (get_elem? (bounds (length (pre ++ f)) fs) (suc n))
            ≡ ok (get_elem? fs n))
          (append_assoc pre f (concat fs)) (between-frames fs (pre ++ f) n))

  get_first-frames :
      (frames : List (List Expr)) (first : List Expr)
      → get_first (first ++ concat frames) (get_elem? (bounds (length first) frames) 0)
        ≡ ok (some first)
  unfolding get_first slice
  get_first-frames [] first = ap (λ x. ok (some x)) (append-nil first)
  get_first-frames (f ∷ fs) first =
      let h : leb 0 (length first) ≡ true = le→leb 0 (length first) (omega arith) in
      let k : leb (length first) (length (first ++ (f ++ concat fs))) ≡ true =
        le→leb _ _ (omega (arith, length-append first (f ++ concat fs))) in
      let d : length first - 0 ≡ length first = omega arith in
      rw (h, k, d) (ap (λ x. ok (some x)) (take-append_length first (f ++ concat fs)))

  -- Where the vector and the positions are those of a list of scopes, `get` does not panic: it
  -- returns the scope with the number given, the first being 0, and none where there are fewer.
  pub get-frames :
      (s : Scope Expr) (first : List Expr) (frames : List (List Expr)) (n : ℕ)
      → Holds s first frames
      → get s n ≡ ok (get_elem? (first ∷ frames) n)
  unfolding get
  get-frames s first frames zero h =
      ap (λ x. get_first x (get_elem? s.level 0)) h.scope_is
      ∙ (ap (λ l. get_first (first ++ concat frames) (get_elem? l 0)) h.level_is
          ∙ get_first-frames frames first)
  get-frames s first frames (suc n) h =
      ap (λ x. between x (get_elem? s.level n) (get_elem? s.level (suc n))) h.scope_is
      ∙ (ap (λ l. between (first ++ concat frames) (get_elem? l n) (get_elem? l (suc n))) h.level_is
          ∙ between-frames frames first n)

  -- After a scope was pushed and extended, `pops` takes out all of it and leaves the scopes as they
  -- were in front of the push. It does not panic.
  pub pops-push_scope :
      (s : Scope Expr) (t u : List Expr) → pops (extend (push_scope s t) u) ≡ ok (s, t ++ u)
  unfolding pops push_scope drain
  pops-push_scope s t u =
      let k : leb (length s.scope) (length ((s.scope ++ t) ++ u)) ≡ true =
        le→leb _ _ (omega (arith, length-append (s.scope ++ t) u, length-append s.scope t)) in
      rw
        (
          split_last-append s.level (length s.scope),
          k,
          append_assoc s.scope t u,
          take-append_length s.scope (t ++ u),
          drop-append_length s.scope (t ++ u),
        )
        refl

  concat-append : (fs : List (List Expr)) (t : List Expr) → concat (fs ++ t ∷ []) ≡ concat fs ++ t
  concat-append [] t = append-nil t
  concat-append (f ∷ fs) t =
      ap (λ x. f ++ x) (concat-append fs t) ∙ sym (append_assoc f (concat fs) t)

  bounds-append :
      (fs : List (List Expr)) (t : List Expr) (n : ℕ)
      → bounds n (fs ++ t ∷ []) ≡ bounds n fs ++ (n + length (concat fs)) ∷ []
  bounds-append [] t n = ap (λ m. m ∷ []) {x = n} {y = n + 0} (omega arith)
  bounds-append (f ∷ fs) t n =
      ap (λ l. n ∷ l)
        (bounds-append fs t (n + length f)
          ∙ ap (λ m. bounds (n + length f) fs ++ m ∷ []) {x = (n + length f) + length (concat fs)}
              {y = n + length (f ++ concat fs)} (omega (arith, length-append f (concat fs))))

  -- Where the vector and the positions are those of a list of scopes, pushing one makes them those
  -- of the list with the new scope at its end.
  pub push_scope-Holds :
      (s : Scope Expr) (first : List Expr) (frames : List (List Expr)) (t : List Expr)
      → Holds s first frames
      → Holds (push_scope s t) first (frames ++ t ∷ [])
  unfolding push_scope
  push_scope-Holds s first frames t h = record {
    scope_is =
        ap (λ x. x ++ t) h.scope_is
        ∙ (append_assoc first (concat frames) t
            ∙ ap (λ x. first ++ x) (sym (concat-append frames t)));
    level_is =
        ap (λ l. l ++ length s.scope ∷ []) h.level_is
        ∙ (ap (λ x. bounds (length first) frames ++ x ∷ [])
              (ap length h.scope_is ∙ length-append first (concat frames))
            ∙ sym (bounds-append frames t (length first)));
  }
