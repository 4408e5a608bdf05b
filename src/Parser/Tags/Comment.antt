-- ===== src/Parser/Tags/Comment.antt =====
-- `comment` of yarte_parser/src/lib.rs against the first occurrence of the closing tag.
use yarte.Base.{
  ℕ, zero, suc, ◌+◌, ◌-◌, ◌≤◌, ◌<◌, ◌≡◌, refl, ap, ◌∙◌, subst, true, Bool-cases, [], ◌∷◌, Option,
  none, some, arith, leb, ◌==◌, if◌then◌else◌, length, take, drop, inl, inr, Option-cases,
  length-drop, drop-drop, Str, codes, starts_with, find,
}
use yarte.Parser.Result.{ok, err, next}
use yarte.Parser.Cursor.{Cursor, u32, slice_to, slice_from, adv, adv_find, adv_starts_with}
use yarte.Parser.Advances.Reads.{starts_with-length}
use yarte.Parser.Syntax.{Node, comment}
use yarte.Parser.Tags.{PResult, comment_loop, eat_comment}

-- The position of the first occurrence of `close` in a text, counted from `at` on.
unfoldable pub first_from : ℕ → Str → Str → Option ℕ
first_from at close [] = none
first_from at close (c ∷ s) =
    let rest = first_from (suc at) close s in if starts_with (c ∷ s) close then some at else rest

-- The cursor `n` bytes on.
abbrev pub skip : ℕ → Cursor → Cursor
skip n c = record { rest = drop n c.rest; off = u32 (c.off + u32 n) }

module _ {Expr Local : Type 0} where
  -- The comment that ends at the position given, where `close` stands; an error where it is nowhere.
  abbrev pub closed_at : Cursor → Str → Option ℕ → PResult (Node Expr Local)
  closed_at c close none = err next
  closed_at c close (some j) = ok (skip (j + length close) c, comment (take j c.rest))

  -- The comment up to the first occurrence of `close`.
  abbrev pub up_to : Str → Cursor → PResult (Node Expr Local)
  up_to close c = closed_at c close (first_from 0 close c.rest)

first_from-none : (at ch : ℕ) (tail s : Str) → find ch s ≡ none → first_from at (ch ∷ tail) s ≡ none
unfolding first_from
first_from-none at ch tail [] h = refl
first_from-none at ch tail (c ∷ s) h = ground (arith, h, first_from-none (suc at) ch tail s)

first_from-some :
    (at ch : ℕ) (tail s : Str) (j : ℕ)
    → find ch s ≡ some j
    → first_from at (ch ∷ tail) s ≡ (
        if starts_with (drop (suc j) s) tail
        then some (at + j)
        else first_from (at + suc j) (ch ∷ tail) (drop (suc j) s))
unfolding first_from
first_from-some at ch tail [] j h = cc
first_from-some at ch tail (c ∷ s) j h = elim (Bool-cases (c == ch)) [
  | inl e ↦
      let j0 : 0 ≡ j = ground (arith, h, e) in
      subst
        (λ j. first_from at (ch ∷ tail) (c ∷ s) ≡ (
          if starts_with (drop j s) tail
          then some (at + j)
          else first_from (at + suc j) (ch ∷ tail) (drop j s)))
        j0
        (let z0 : at + 0 ≡ at = omega arith in
          let z1 : at + 1 ≡ suc at = omega arith in rw (e, z0, z1) refl)
  | inr e ↦ elim (Option-cases (find ch s)) [
    | inl n ↦ absurd (ground (arith, h, e, n))
    | inr (k, f) ↦
        let jk : suc k ≡ j = ground (arith, h, e, f) in
        let ih = first_from-some (suc at) ch tail s k f in
        subst
          (λ j. first_from at (ch ∷ tail) (c ∷ s) ≡ (
            if starts_with (drop j s) tail
            then some (at + j)
            else first_from (at + suc j) (ch ∷ tail) (drop j s)))
          jk
          (let a : suc at + k ≡ at + suc k = omega arith in
            let b : suc at + suc k ≡ at + suc (suc k) = omega arith in rw (e, ← a, ← b) ih)
  ]
]

adv-skip : (c : Cursor) (n : ℕ) → n ≤ length c.rest → adv c n ≡ ok (skip n c)
unfolding adv slice_from
adv-skip c n h = let l : leb n (length c.rest) ≡ true = ground arith in rw (l) refl

slice_from-drop : (s : Str) (n : ℕ) → n ≤ length s → slice_from s n ≡ ok (drop n s)
unfolding slice_from
slice_from-drop s n h = let l : leb n (length s) ≡ true = ground arith in rw (l) refl

slice_to-take : (s : Str) (n : ℕ) → n ≤ length s → slice_to s n ≡ ok (take n s)
unfolding slice_to
slice_to-take s n h = let l : leb n (length s) ≡ true = ground arith in rw (l) refl

find_bound : (ch : ℕ) (s : Str) (j : ℕ) → find ch s ≡ some j → j < length s
find_bound ch [] j h = cc
find_bound ch (c ∷ s) j h = elim (Option-cases (find ch s)) [
  | inl n ↦ ground (arith, h, n)
  | inr (k, f) ↦ let b = find_bound ch s k f in ground (arith, h, f, b)
]

module _ {Expr Local : Type 0} where
  comment_loop-closed_at :
      (f : ℕ) (c : Cursor) (ch : ℕ) (tail : Str) (at : ℕ)
      → at ≤ length c.rest
      → length c.rest - at < f
      → comment_loop {Expr = Expr} {Local = Local} f c ch tail at
        ≡ closed_at c (ch ∷ tail) (first_from at (ch ∷ tail) (drop at c.rest))
  unfolding comment_loop adv_find adv_starts_with
  comment_loop-closed_at zero c ch tail at h m = absurd (omega arith)
  comment_loop-closed_at (suc f) c ch tail at h m =
      rw (slice_from-drop c.rest at h) (elim (Option-cases (find ch (drop at c.rest))) [
        | inl n ↦ rw (n, first_from-none at ch tail (drop at c.rest) n) refl
        | inr (j, e) ↦
            let b = find_bound ch (drop at c.rest) j e in
            let l = length-drop at c.rest in
            let r : at + j + 1 ≤ length c.rest = omega arith in
            let p : at + suc j ≡ at + j + 1 = omega arith in
            let q : at + (j + 1) ≡ at + j + 1 = omega arith in
            let d : drop (suc j) (drop at c.rest) ≡ drop (at + j + 1) c.rest =
              drop-drop (suc j) at c.rest ∙ ap (λ n. drop n c.rest) p in
            rw
              (
                e,
                first_from-some at ch tail (drop at c.rest) j e,
                slice_from-drop c.rest (at + j + 1) r,
                d,
                p,
                q,
              )
              (elim (Bool-cases (starts_with (drop (at + j + 1) c.rest) tail)) [
                | inl t ↦
                    let k = starts_with-length (drop (at + j + 1) c.rest) tail t in
                    let l = length-drop (at + j + 1) c.rest in
                    rw
                      (
                        t,
                        adv-skip c (at + j + suc (length tail)) (omega arith),
                        slice_to-take c.rest (at + j) (omega arith),
                      )
                      refl
                | inr t ↦ rw (t) (comment_loop-closed_at f c ch tail (at + j + 1) r (omega arith))
              ])
      ])

  -- `eat_comment` on any text, which begins behind `{{!`: where that begins with `--`, the result is
  -- the comment up to the first `--!}}` behind the dashes, and otherwise the one up to the first
  -- `!}}`. The comment is the text in front of the closing tag, unchanged, and the cursor ends right
  -- behind the tag; where there is no such tag the result is the error `next`.
  pub eat_comment-up_to :
      (c : Cursor)
      → eat_comment {Expr = Expr} {Local = Local} c ≡ (
          if starts_with c.rest (codes "--")
          then up_to (codes "--!}}") (skip 2 c)
          else up_to (codes "!}}") c)
  unfolding eat_comment
  eat_comment-up_to c = elim (Bool-cases (starts_with c.rest (codes "--"))) [
    | inl h ↦
        rw (h, adv-skip c 2 (starts_with-length c.rest (codes "--") h))
          (comment_loop-closed_at (suc (length (drop 2 c.rest))) (skip 2 c) b'-' (codes "-!}}") 0
            (omega arith) (omega arith))
    | inr h ↦ rw (h) (
        comment_loop-closed_at (suc (length c.rest)) c b'!' (codes "}}") 0 (omega arith)
          (omega arith))
  ]
