-- ===== src/Parser/Advances/Reads.antt =====
-- White space, tags and runs of characters are read without a panic.
use yarte.Base.{
  ℕ, zero, suc, ◌≤◌, ◌<◌, ◌≡◌, inl, inr, Option-cases, Bool, true, not, [], ◌∷◌, some, arith,
  length, ◌==◌, length-take, Str, starts_with, position,
}
use yarte.Parser.Result.{Result, holds, raised, panicked, Ensures-bind, Ensures-if}
use yarte.Parser.Cursor.{Cursor, taken, take_while, tag, ws, skip_ws, is_ws, is_empty, rest_or}
use yarte.Parser.Advances.{
  Advances, Advances-weaken, Advances-refl, Fits, Safe, adv-Ensures, slice_to-Ensures,
}

pub position_bound : (f : ℕ → Bool) (s : Str) {n : ℕ} → position f s ≡ some n → n < length s
position_bound f [] h = cc
position_bound f (c ∷ s) {n = zero} h = omega arith
position_bound f (c ∷ s) {n = suc n} h = omega (arith, position_bound f s {n = n} (ground arith))

pub taken_bound : (f : ℕ → Bool) (s : Str) → taken f s ≤ length s
taken_bound f s = elim (Option-cases (position (λ c. not (f c)) s)) [
  | inl e ↦ rw (e, taken) (omega arith)
  | inr (n, e) ↦ rw (e, taken) (omega (arith, position_bound (λ c. not (f c)) s e))
]

pub starts_with-length : (s p : Str) → starts_with s p ≡ true → length p ≤ length s
starts_with-length s [] h = omega arith
starts_with-length [] (c ∷ p) h = cc
starts_with-length (d ∷ s) (c ∷ p) h = omega (arith, starts_with-length s p (ground arith))

pub take_while-Ensures :
    (i : Cursor) (f : ℕ → Bool) → Fits i → Safe (λ r. Advances (length r.1) i r.0) (take_while i f)
unfolding take_while
take_while-Ensures i f fits =
    Ensures-if (length i.rest == 0) (λ _. holds (Advances-refl fits))
      λ _. Ensures-bind (adv-Ensures i (taken f i.rest) (taken_bound f i.rest)) λ c (a, _).
        Ensures-bind
          (slice_to-Ensures {P = λ s. length s ≡ taken f i.rest} i.rest (taken f i.rest)
            (taken_bound f i.rest) (length-take (taken f i.rest) i.rest (taken_bound f i.rest)))
          λ s e. holds (rw e a)

pub tag-Ensures : (i : Cursor) (t : Str) → Safe (λ r. Advances (length t) i r.0) (tag i t)
unfolding tag
tag-Ensures i t =
    Ensures-if (starts_with i.rest t)
      (λ h. Ensures-bind (adv-Ensures i (length t) (starts_with-length i.rest t h)) λ c (a, _).
        Ensures-bind
          (slice_to-Ensures {P = λ _. Unit {0}} i.rest (length t) (starts_with-length i.rest t h)
            tt)
          λ s _. holds a)
      λ _. raised

pub ws-Ensures : (i : Cursor) → Fits i → Safe (λ r. Advances 0 i r.0) (ws i)
unfolding ws
ws-Ensures i fits =
    Ensures-if (is_empty i.rest) (λ _. raised)
      λ _.
        Ensures-bind (take_while-Ensures i is_ws fits)
          λ r a. holds (Advances-weaken (omega arith) a)

rest_or-Ensures :
    {i : Cursor} {r : Result (Cursor × Unit {0})}
    → Fits i
    → Safe (λ x. Advances 0 i x.0) r
    → Safe (λ c. Advances 0 i c) (rest_or i r)
rest_or-Ensures fits (holds a) = holds a
rest_or-Ensures fits raised = holds (Advances-refl fits)
rest_or-Ensures fits (panicked p) = panicked p

pub skip_ws-Ensures : (i : Cursor) → Fits i → Safe (λ c. Advances 0 i c) (skip_ws i)
unfolding skip_ws
skip_ws-Ensures i fits = rest_or-Ensures fits (ws-Ensures i fits)
