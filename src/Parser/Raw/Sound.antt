-- ===== src/Parser/Raw/Sound.antt =====
-- `raw` ends within its fuel. It may panic: see `eat_raw_panics`.
use yarte.Base.{
  ℕ, zero, suc, ◌+◌, ◌-◌, ◌≤◌, ◌<◌, ◌≡◌, ◌++◌, find, leb, leb→le, Bool-cases, inl, inr, refl, sym,
  ap, ◌∙◌, Bool, true, false, [], ◌∷◌, none, some, arith, drop-drop, drop-append_length, le→leb,
  length-append, length, drop, Str, codes,
}
use yarte.Parser.Result.{
  Result, ok, err, panic, ◌>>=◌, next, Ensures, holds, raised, panicked, Ensures-bind, Ensures-if,
  Ensures-opt, next, Ensures-weaken,
}
use yarte.Parser.Cursor.{Cursor, slice_from, slice_to, adv, adv_find, tag, u32}
use yarte.Parser.Advances.{
  Advances, Advances-trans, Advances-refl, Advances-weaken, Advances-Fits, Fits, Safe,
  slice_to-Ensures, adv_find-Ensures,
}
use yarte.Parser.Advances.Reads.{tag-Ensures}
use yarte.Parser.Tags.{found_or}
use yarte.Parser.Tags.Sound.{Ensures-found_or, adv-bind, end_expr-Ensures}
use yarte.Parser.Expressions.Sound.{trim-Ensures}
use yarte.Parser.Raw.{tilde, opens, raw_close, raw_loop, eat_raw}

-- A run that may panic.
abbrev pub MayPanic {ℓ} : {A : Type 0} → (A → Type ℓ) → Result A → Type ℓ
MayPanic = Ensures (Unit {0})

pub Safe-MayPanic {ℓ} : {A : Type 0} {P : A → Type ℓ} {r : Result A} → Safe P r → MayPanic P r
Safe-MayPanic = Ensures-weaken absurd (λ _ x. x)

pub tilde-Ensures : (i : Cursor) → Fits i → Safe (λ r. Advances 0 i r.0) (tilde i)
unfolding tilde
tilde-Ensures i fits =
    Ensures-opt (tag-Ensures i (codes "~")) (λ r a. holds (Advances-weaken (omega arith) a))
      (holds (Advances-refl fits))

raw_close-Ensures : (i : Cursor) → Fits i → Safe (λ r. Advances 4 i r.0) (raw_close i)
unfolding raw_close
raw_close-Ensures i fits = Ensures-bind (tilde-Ensures i fits) λ r a.
    Ensures-bind (tag-Ensures r.0 (codes "/R")) λ s b.
      Ensures-bind (end_expr-Ensures s.0 (Advances-Fits b))
        λ t c. holds (Advances-weaken (omega arith) (Advances-trans a (Advances-trans b c)))

opens-length : (s : Str) → opens s ≡ true → 1 ≤ length s
opens-length [] h = cc
opens-length (c ∷ s) h = omega arith

-- A search from beyond the end is a panic.
raw_loop_beyond :
    (f : ℕ) (i : Cursor) (at : ℕ) → 0 < f → leb at (length i.rest) ≡ false → raw_loop f i at ≡ panic
unfolding raw_loop adv_find slice_from
raw_loop_beyond zero i at p h = absurd (omega arith)
raw_loop_beyond (suc f) i at p h = rw (h, ◌>>=◌)

raw_loop-Ensures :
    (f : ℕ) (i : Cursor) (at : ℕ)
    → Fits i
    → at ≤ length i.rest
    → length i.rest - at < f
    → MayPanic (λ r. Advances 0 i r.0) (raw_loop f i at)
unfolding raw_loop
raw_loop-Ensures zero i at fits h m = absurd (omega arith)
raw_loop-Ensures (suc f) i at fits h m =
    Ensures-bind (Safe-MayPanic (adv_find-Ensures i at b'{' h)) λ o found.
      Ensures-found_or at b'{' i.rest o found raised λ j lt e.
        adv-bind i (at + j + 1) (omega arith) λ n a en.
          Ensures-if (opens n.rest)
            (λ op. adv-bind n 1 (opens-length n.rest op) λ m' b em.
              Ensures-opt (Safe-MayPanic (raw_close-Ensures m' (Advances-Fits b)))
                (λ r c.
                  Ensures-bind
                    (Safe-MayPanic
                      (slice_to-Ensures {P = λ _. Unit {0}} i.rest (at + j) (omega arith) tt))
                    λ t _.
                      holds (Advances-weaken (omega arith) (Advances-trans a (Advances-trans b c))))
                (elim (Bool-cases (leb (at + (j + 4)) (length i.rest))) [
                  | inl le ↦ raw_loop-Ensures f i (at + (j + 4)) fits (leb→le _ _ le) (omega arith)
                  | inr gt ↦ rw (raw_loop_beyond f i (at + (j + 4)) (omega arith) gt) (panicked tt)
                ]))
            λ _. raw_loop-Ensures f i (at + (j + 1)) fits (omega arith) (omega arith)

-- `raw` ends, within its fuel, in a node behind a part of its text, in an error, or in a panic.
pub eat_raw-Ensures :
    {Expr Local : Type 0} (i : Cursor) (a_lws : Bool)
    → Fits i
    → MayPanic (λ r. Advances 2 i r.0) (eat_raw {Expr = Expr} {Local = Local} i a_lws)
unfolding eat_raw
eat_raw-Ensures i a_lws fits = Ensures-bind (Safe-MayPanic (end_expr-Ensures i fits)) λ r a.
    Ensures-bind
      (raw_loop-Ensures (suc (length r.0.rest)) r.0 0 (Advances-Fits a) (omega arith) (omega arith))
      λ (c, j, w) b.
        Ensures-bind (Safe-MayPanic (trim-Ensures j))
          λ t _. holds (Advances-weaken (omega arith) (Advances-trans a b))

no_close_at :
    (s : Str) (off : ℕ) → length s < 2 → raw_close (record { rest = s; off = off }) ≡ err next
unfolding raw_close tilde tag adv slice_from slice_to
no_close_at [] off h = refl
no_close_at (c ∷ []) off h = ground arith
no_close_at (c ∷ d ∷ s) off h = absurd (omega arith)

adv-eq :
    (c : Cursor) (n : ℕ)
    → n ≤ length c.rest
    → adv c n ≡ ok (record { rest = drop n c.rest; off = u32 (c.off + u32 n) })
unfolding adv slice_from
adv-eq c n h = rw (le→leb n (length c.rest) h)

pub adv_find-zero : (c : Cursor) (p : ℕ) → adv_find c 0 p ≡ ok (find p c.rest)
unfolding adv_find slice_from
adv_find-zero c p = rw (le→leb 0 (length c.rest) (omega arith))

find-append : (p : ℕ) (s t : Str) → find p s ≡ none → find p (s ++ p ∷ t) ≡ some (length s)
find-append p [] t h = ground arith
find-append p (c ∷ s) t h = ground (arith, find-append p s t)

-- The search goes on four bytes behind a `{{` that closes nothing, also where the text ends before:
-- where the first `{` stands in a `{{` with fewer than two bytes behind it, the program panics
-- instead of reporting the missing end of the block.
pub raw_loop_panics :
    (f : ℕ) (off : ℕ) (before after : Str)
    → find b'{' before ≡ none
    → length after < 2
    → raw_loop (suc (suc f)) (record { rest = before ++ b'{' ∷ b'{' ∷ after; off = off }) 0 ≡ panic
unfolding raw_loop
raw_loop_panics f off before after h lt =
    rw
      (
        adv_find-zero,
        find-append b'{' before (b'{' ∷ after) h,
        found_or,
        adv-eq src _ fits,
        opens_here,
        adv-eq behind _ one,
        no_close_at _ _ short,
      )
      (raw_loop_beyond (suc f) _ _ (omega arith) beyond)
  where
    src : Cursor
    src = record { rest = before ++ b'{' ∷ b'{' ∷ after; off = off }

    behind : Cursor
    behind = record {
      rest = drop (0 + length before + 1) src.rest;
      off = u32 (off + u32 (0 + length before + 1));
    }

    whole : Str
    whole = before ++ b'{' ∷ b'{' ∷ after

    len : length whole ≡ length before + suc (suc (length after))
    len = length-append before (b'{' ∷ b'{' ∷ after)

    fits : 0 + length before + 1 ≤ length whole
    fits = omega (arith, len)

    rest_is : drop (0 + length before + 1) whole ≡ b'{' ∷ after
    rest_is =
        ap (λ k. drop k whole) {x = 0 + length before + 1} {y = length before + 1} (omega arith)
        ∙ sym (drop-drop 1 (length before) whole)
        ∙ ap (drop 1) (drop-append_length before (b'{' ∷ b'{' ∷ after))

    opens_here : opens (drop (0 + length before + 1) whole) ≡ true
    opens_here = rw rest_is

    one : 1 ≤ length (drop (0 + length before + 1) whole)
    one = rw rest_is (omega arith)

    short : length (drop 1 (drop (0 + length before + 1) whole)) < 2
    short = rw rest_is lt

    beyond : leb (0 + (length before + 4)) (length whole) ≡ false
    beyond = ground (arith, len)
