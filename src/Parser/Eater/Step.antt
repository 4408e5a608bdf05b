-- ===== src/Parser/Eater/Step.antt =====
-- One round of the loop of `make_eater!`, over what it calls.
use yarte.Base.{
  ℕ, suc, ◌+◌, ◌-◌, ◌≤◌, ◌<◌, ◌≡◌, ◌⊎◌, inl, inr, refl, sym, ap, ◌∙◌, subst, Bool, true, false, [],
  ◌∷◌, ◌++◌, arith, length, take, drop, ◌==◌, length-take, length-drop, take-drop, drop-drop, Str,
}
use yarte.Parser.Result.{
  fail, next, ◌>>=◌, holds, raised, panicked, Ensures-bind, Ensures-if, Ensures-weaken,
}
use yarte.Parser.Cursor.{Cursor, adv, tag}
use yarte.Parser.Advances.{
  Advances, Advances-refl, Advances-trans, Advances-weaken, Advances-Fits, Advances-length, Fits,
  slice_from-Ensures, adv_find-Ensures,
}
use yarte.Parser.Advances.Reads.{skip_ws-Ensures}
use yarte.Parser.Syntax.{Syn, Node, Nodes}
use yarte.Parser.Tags.{PResult}
use yarte.Parser.Tags.Sound.{Ensures-found_or, adv-bind, eat_comment-Ensures}
use yarte.Parser.Expressions.Sound.{eat_safe-Ensures, eat_expression-Ensures, eat_partial-Ensures}
use yarte.Parser.Raw.Sound.{MayPanic, Safe-MayPanic, eat_raw-Ensures}
use yarte.Parser.Eater.Covers.{moved, moved-bind, IsTag, Covers, Covers-push, Covers-Advances}
use yarte.Parser.Eater.Literals.{eat_lit-Ensures}
use yarte.Parser.Eater.{kill, try_eat, stops, switch, behind_brace, eater_step}

-- Where an eater stops, in front of `k`: at the end of the text, or behind the `{{` at `k`, with
-- something left to read.
abbrev pub Stops : Cursor → Cursor → Type 0
Stops k c = ((k ≡ c) × (c.rest ≡ [])) ⊎ (Advances 2 k c × (1 ≤ length c.rest))

-- The nodes cover the source from `o` to the place where the eater stopped.
abbrev pub Eaten : {Expr Local : Type 0} → Cursor → Cursor × Nodes Expr Local → Type 0
Eaten o (c, ns) = (k : Cursor) × Covers o ns k × Stops k c

pub Stops-Advances : {k c : Cursor} → Fits k → Stops k c → Advances 0 k c
Stops-Advances {k} fits (inl (e, _)) = subst (Advances 0 k) e (Advances-refl fits)
Stops-Advances fits (inr (a, _)) = Advances-weaken (omega arith) a

pub Eaten-Advances :
    {Expr Local : Type 0} {o : Cursor} (r : Cursor × Nodes Expr Local)
    → Fits o
    → Eaten o r
    → Advances 0 o r.0
Eaten-Advances {o = o} (c, ns) fits (k, cov, st) =
    let a = Covers-Advances o ns fits cov in
    Advances-weaken (omega arith) (Advances-trans a (Stops-Advances (Advances-Fits a) st))

moved_on :
    (i : Cursor) (p n : ℕ) → p ≤ n → n ≤ length i.rest → Advances (n - p) (moved i p) (moved i n)
moved_on i p n h k =
    let e : drop n i.rest ≡ drop (n - p) (drop p i.rest) =
      ap (λ x. drop x i.rest) {x = n} {y = p + (n - p)} (omega arith)
      ∙ sym (drop-drop (n - p) p i.rest) in
    let len : length (take (n - p) (drop p i.rest)) ≡ n - p =
      length-take (n - p) (drop p i.rest) (omega (arith, length-drop p i.rest)) in
    record {
      text = take (n - p) (drop p i.rest);
      splits =
          sym (take-drop (n - p) (drop p i.rest))
          ∙ ap (λ x. take (n - p) (drop p i.rest) ++ x) (sym e);
      off_is = omega (arith, len);
      least = omega (arith, len);
    }

nil_of_length : (s : Str) → length s ≡ 0 → s ≡ []
nil_of_length [] h = refl
nil_of_length (c ∷ s) h = absurd (omega arith)

module _ {Expr Local : Type 0} (syn : Syn Expr Local)
    {hel : Cursor → Bool → PResult (Node Expr Local)}
    {again : Cursor → ℕ → Nodes Expr Local → PResult (Nodes Expr Local)} (special : Bool)
    (o i : Cursor) (buf : Nodes Expr Local) (m : ℕ) (fits : Fits i) (cov : Covers o buf i)
    (hel_ok : (c : Cursor) (lws : Bool)
      → Fits c
      → length c.rest < m
      → MayPanic (λ r. Advances 0 c r.0) (hel c lws))
    (again_ok : (c : Cursor) (at : ℕ) (ns : Nodes Expr Local)
      → Fits c
      → Covers o ns c
      → at ≤ length c.rest
      → length c.rest - at < m
      → MayPanic (Eaten o) (again c at ns)) where
  try_eat-Ensures :
      (p : ℕ) {r : PResult (Node Expr Local)}
      → p < length i.rest
      → length i.rest - p ≤ m
      → IsTag (moved i p)
      → MayPanic (λ x. Advances 2 (moved i p) x.0) r
      → MayPanic (Eaten o) (try_eat syn hel again special i buf p r)
  unfolding try_eat
  try_eat-Ensures p lt le t (holds {a = (c, n)} a) =
      Ensures-bind (Safe-MayPanic (eat_lit-Ensures o i buf p fits (omega arith) cov)) λ ns cov'.
        moved-bind i p (omega arith) λ start e. rw e (
          again_ok c 0 _ (Advances-Fits a)
            (Covers-push o ns n cov' (Advances-weaken (omega arith) a) (inr t)) (omega arith)
            (omega (arith, Advances-length a, length-drop p i.rest)))
  try_eat-Ensures p lt le t (raised {e = fail}) = raised
  try_eat-Ensures p lt le t (raised {e = next}) =
      again_ok i (p + 1) buf fits cov (omega arith) (omega arith)
  try_eat-Ensures p lt le t (panicked x) = panicked tt

  -- A reader from position `n`, behind `{{` at `p`.
  from-Ensures :
      (p n : ℕ) {f : Cursor → PResult (Node Expr Local)}
      → p < length i.rest
      → length i.rest - p ≤ m
      → p + 2 ≤ n
      → n ≤ length i.rest
      → ((c : Cursor) → Fits c → length c.rest < m → MayPanic (λ r. Advances 0 c r.0) (f c))
      → MayPanic (λ x. Advances 2 (moved i p) x.0) (adv i n >>= f)
  from-Ensures p n lt le two h read = moved-bind i n h λ c e. rw e (
      Ensures-weaken (λ x. x)
        (λ r a. Advances-weaken (omega arith) (Advances-trans (moved_on i p n (omega arith) h) a))
        (read (moved i n) (omega arith) (omega (arith, length-drop n i.rest))))

  -- Stopping behind the `{{` at `p`.
  kill-Ensures :
      (p : ℕ) → p + 3 ≤ length i.rest → MayPanic (Eaten o) (do c ← adv i (p + 2); kill buf i p c)
  unfolding kill
  kill-Ensures p h = moved-bind i (p + 2) (omega arith) λ c e. rw e (
      Ensures-bind (Safe-MayPanic (eat_lit-Ensures o i buf p fits (omega arith) cov)) λ ns cov'.
        holds (
          moved i p,
          cov',
          inr (
            Advances-weaken (omega arith) (moved_on i p (p + 2) (omega arith) (omega arith)),
            omega (arith, length-drop (p + 2) i.rest),
          ),
        ))

  kill_end-Ensures : MayPanic (Eaten o) (do c ← adv i (length i.rest); kill buf i (length i.rest) c)
  unfolding kill
  kill_end-Ensures = moved-bind i (length i.rest) (omega arith) λ c e. rw e (
      Ensures-bind (Safe-MayPanic (eat_lit-Ensures o i buf (length i.rest) fits (omega arith) cov))
        λ ns cov'. holds (
          moved i (length i.rest),
          cov',
          inl (refl, nil_of_length _ (omega (arith, length-drop (length i.rest) i.rest))),
        ))

  stops-Ensures :
      (p t : ℕ)
      → p + 2 + t ≤ length i.rest
      → MayPanic (λ _. Unit {0}) (stops syn hel again special i buf p t)
  unfolding stops
  stops-Ensures p t h =
      Ensures-if special
        (λ _. adv-bind i (p + 2 + t) h λ c a _.
          Ensures-bind (Safe-MayPanic (skip_ws-Ensures c (Advances-Fits a))) λ k _. holds tt)
        λ _. holds tt

  switch-Ensures :
      (p n t : ℕ) (lws : Bool)
      → t ≤ 1
      → p + 4 ≤ length i.rest
      → length i.rest - p ≤ m
      → IsTag (moved i p)
      → MayPanic (Eaten o) (switch syn hel again special i buf p n t lws)
  unfolding switch
  switch-Ensures p n t lws t1 h le tag =
      Ensures-if (n == b'{') (λ _. inside λ c fc _. Safe-MayPanic (eat_safe-Ensures syn c lws fc))
        λ _.
          Ensures-if (n == b'!')
            (λ _. inside λ c fc _. Ensures-weaken absurd (λ r x. x) (eat_comment-Ensures c fc))
            λ _.
              Ensures-if (n == b'#') (λ _. inside λ c fc lc. hel_ok c lws fc lc)
                λ _.
                  Ensures-if (n == b'>')
                    (λ _. inside λ c fc _.
                      Ensures-bind (Safe-MayPanic (eat_partial-Ensures syn c lws fc))
                        λ r a. holds (Advances-weaken (omega arith) a))
                    λ _.
                      Ensures-if (n == b'R')
                        (λ _. inside λ c fc _.
                          Ensures-weaken (λ x. x) (λ r a. Advances-weaken (omega arith) a)
                            (eat_raw-Ensures c lws fc))
                        λ _.
                          Ensures-if (n == b'/') (λ _. kill-Ensures p (omega arith))
                            λ _. Ensures-bind (stops-Ensures p t (omega arith)) λ stop _.
                              Ensures-if stop (λ _. kill-Ensures p (omega arith))
                                λ _. try_eat-Ensures p (omega arith) le tag (
                                  from-Ensures p (p + 2 + t) (omega arith) le (omega arith)
                                    (omega arith)
                                    λ c fc _. Safe-MayPanic (eat_expression-Ensures syn c lws fc))
    where
      inside :
          {f : Cursor → PResult (Node Expr Local)}
          → ((c : Cursor) → Fits c → length c.rest < m → MayPanic (λ r. Advances 0 c r.0) (f c))
          → MayPanic (Eaten o) (try_eat syn hel again special i buf p (adv i (p + 3 + t) >>= f))
      inside read =
          try_eat-Ensures p (omega arith) le tag
            (from-Ensures p (p + 3 + t) (omega arith) le (omega arith) (omega arith) read)

  behind_brace-Ensures :
      (p : ℕ) (s : Str)
      → p < length i.rest
      → length i.rest - p ≤ m
      → drop p i.rest ≡ b'{' ∷ s
      → MayPanic (Eaten o) (behind_brace syn hel again special i buf p s)
  unfolding behind_brace
  behind_brace-Ensures p [] lt le e = again_ok i (p + 1) buf fits cov (omega arith) (omega arith)
  behind_brace-Ensures p (a ∷ []) lt le e =
      again_ok i (p + 1) buf fits cov (omega arith) (omega arith)
  behind_brace-Ensures p (a ∷ b ∷ []) lt le e =
      again_ok i (p + 1) buf fits cov (omega arith) (omega arith)
  behind_brace-Ensures p (a ∷ b ∷ c ∷ s) lt le e =
      let len = ap length e in
      let room : p + 4 ≤ length i.rest = omega (arith, len, length-drop p i.rest) in
      Ensures-if (a == b'{')
        (λ h.
          let tag : IsTag (moved i p) =
            (b ∷ c ∷ s, e ∙ ap (λ x. b'{' ∷ x ∷ b ∷ c ∷ s) (ground arith)) in
          Ensures-if (b == b'~') (λ _. switch-Ensures p c 1 true (omega arith) room le tag)
            λ _. switch-Ensures p b 0 false (omega arith) room le tag)
        λ _. again_ok i (p + 1) buf fits cov (omega arith) (omega arith)

  pub eater_step-Ensures :
      (at : ℕ)
      → at ≤ length i.rest
      → length i.rest - at ≤ m
      → MayPanic (Eaten o) (eater_step syn hel again special i buf at)
  unfolding eater_step
  eater_step-Ensures at h le =
      Ensures-bind (Safe-MayPanic (adv_find-Ensures i at b'{' h)) λ x found.
        Ensures-found_or at b'{' i.rest x found kill_end-Ensures λ j lt e.
          Ensures-bind
            (Safe-MayPanic (
              slice_from-Ensures {P = λ s. s ≡ drop (at + j + 1) i.rest} i.rest (at + j + 1)
                (omega arith) refl))
            λ s es. behind_brace-Ensures (at + j) s lt (omega arith) (
              e
              ∙ ap (λ x. b'{' ∷ x)
                  (ap (λ k. drop k i.rest) {x = suc (at + j)} (omega arith) ∙ sym es))
