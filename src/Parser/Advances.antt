-- ===== src/Parser/Advances.antt =====
-- A cursor that has gone on over part of its text, and the reads that move it.
pub mod Reads
use yarte.Base.{
  ℕ, zero, suc, ◌+◌, inl, inr, ◌==◌, Bool-cases, ◌≤◌, ◌<◌, ◌≡◌, refl, sym, ap, ◌∙◌, [], ◌∷◌, ◌++◌,
  Option, none, some, append_assoc, arith, le→leb, length, take, drop, length-append, length-take,
  take-drop, Str, starts_with, find,
}
use mathlib.Core.Option
use yarte.Parser.Result.{Result, Ensures, holds, Ensures-bind}
use yarte.Parser.Cursor.{Cursor, u32, slice_from, slice_to, adv, adv_find, adv_starts_with}

-- `c` is `i` after at least `k` bytes, `text`.
pub record Advances (k : ℕ) (i c : Cursor) : Type 0 where
  pub text : Str
  pub splits : i.rest ≡ text ++ c.rest
  pub off_is : c.off ≡ u32 (i.off + length text)
  pub least : k ≤ length text

pub Advances-trans :
    {j k : ℕ} {a b c : Cursor} → Advances j a b → Advances k b c → Advances (j + k) a c
Advances-trans p q = record {
  text = p.text ++ q.text;
  splits = p.splits ∙ ap (λ s. p.text ++ s) q.splits ∙ sym (append_assoc p.text q.text _);
  off_is = omega (arith, length-append p.text q.text, p.off_is, q.off_is);
  least = omega (arith, length-append p.text q.text, p.least, q.least);
}

pub Advances-weaken : {j k : ℕ} {a b : Cursor} → j ≤ k → Advances k a b → Advances j a b
Advances-weaken h p = record {
  text = p.text;
  splits = p.splits;
  off_is = p.off_is;
  least = omega arith;
}

-- The cursor's offset has been reduced already.
abbrev pub Fits : Cursor → Type 0
Fits c = c.off < 4294967296

pub Advances-refl : {i : Cursor} → Fits i → Advances 0 i i
Advances-refl f = record { text = []; splits = refl; off_is = omega arith; least = omega arith }

pub Advances-Fits : {k : ℕ} {i c : Cursor} → Advances k i c → Fits c
Advances-Fits p = omega (arith, p.off_is)

pub Advances-length : {k : ℕ} {i c : Cursor} → Advances k i c → k + length c.rest ≤ length i.rest
Advances-length {k} {i} {c} p =
    omega (arith, ap length p.splits, length-append p.text c.rest, p.least)

abbrev pub Safe {ℓ} : {A : Type 0} → (A → Type ℓ) → Result A → Type ℓ
Safe = Ensures (⊥)

module _ {ℓ} {P : Str → Type ℓ} where
  pub slice_from-Ensures : (s : Str) (n : ℕ) → n ≤ length s → P (drop n s) → Safe P (slice_from s n)
  unfolding slice_from
  slice_from-Ensures s n h p = rw (le→leb n (length s) h) (holds p)

  pub slice_to-Ensures : (s : Str) (n : ℕ) → n ≤ length s → P (take n s) → Safe P (slice_to s n)
  unfolding slice_to
  slice_to-Ensures s n h p = rw (le→leb n (length s) h) (holds p)

pub adv-Ensures :
    (c : Cursor) (n : ℕ)
    → n ≤ length c.rest
    → Safe (λ c'. Advances n c c' × (c'.rest ≡ drop n c.rest)) (adv c n)
unfolding adv
adv-Ensures c n h =
    Ensures-bind (slice_from-Ensures {P = λ s. s ≡ drop n c.rest} c.rest n h refl) λ rest e. holds (
      record {
        text = take n c.rest;
        splits = sym (take-drop n c.rest) ∙ ap (λ s. take n c.rest ++ s) (sym e);
        off_is = omega (arith, length-take n c.rest h);
        least = omega (arith, length-take n c.rest h);
      },
      e,
    )

pub adv_starts_with-Ensures :
    (c : Cursor) (n : ℕ) (s : Str)
    → n ≤ length c.rest
    → Safe (λ b. b ≡ starts_with (drop n c.rest) s) (adv_starts_with c n s)
unfolding adv_starts_with slice_from
adv_starts_with-Ensures c n s h = rw (le→leb n (length c.rest) h) (holds refl)

-- What a search from position `at` says: where it finds, the character stands in the text.
abbrev pub Found : ℕ → ℕ → Str → Option ℕ → Type 0
Found at p s none = Unit
Found at p s (some j) = (at + j < length s) × (drop (at + j) s ≡ p ∷ drop (suc (at + j)) s)

abbrev FoundFirst : ℕ → Str → Option ℕ → Type 0
FoundFirst p s none = Unit
FoundFirst p s (some j) = (j < length s) × (drop j s ≡ p ∷ drop (suc j) s)

FoundFirst-suc :
    (p c : ℕ) (s : Str) (o : Option ℕ) → FoundFirst p s o → FoundFirst p (c ∷ s) (Option.map suc o)
FoundFirst-suc p c s none f = tt
FoundFirst-suc p c s (some j) (lt, e) = (omega arith, e)

find-FoundFirst : (p : ℕ) (s : Str) → FoundFirst p s (find p s)
find-FoundFirst p [] = tt
find-FoundFirst p (c ∷ s) = elim (Bool-cases (c == p)) [
  | inl e ↦ rw (e, find) (omega arith, ap (λ x. x ∷ s) (ground arith))
  | inr e ↦ rw (e, find) (FoundFirst-suc p c s (find p s) (find-FoundFirst p s))
]

FoundFirst-Found : (p : ℕ) (s : Str) (o : Option ℕ) → FoundFirst p s o → Found 0 p s o
FoundFirst-Found p s none f = tt
FoundFirst-Found p s (some j) (lt, e) = let k : 0 + j ≡ j = omega arith in rw k (lt, e)

pub find-Found_zero : (p : ℕ) (s : Str) → Found 0 p s (find p s)
find-Found_zero p s = FoundFirst-Found p s (find p s) (find-FoundFirst p s)

find-Found-drop : (at p : ℕ) (s : Str) → at ≤ length s → Found at p s (find p (drop at s))
find-Found-drop zero p s h = FoundFirst-Found p s (find p s) (find-FoundFirst p s)
find-Found-drop (suc at) p [] h = absurd (omega arith)
find-Found-drop (suc at) p (c ∷ s) h =
    Found-step (find p (drop at s)) (find-Found-drop at p s (omega arith))
  where
    Found-step : (o : Option ℕ) → Found at p s o → Found (suc at) p (c ∷ s) o
    Found-step none f = tt
    Found-step (some j) (lt, e) =
        let k : suc at + j ≡ suc (at + j) = omega arith in rw k (omega arith, e)

pub adv_find-Ensures :
    (c : Cursor) (at p : ℕ) → at ≤ length c.rest → Safe (Found at p c.rest) (adv_find c at p)
unfolding adv_find slice_from
adv_find-Ensures c at p h = rw (le→leb at (length c.rest) h) (holds (find-Found-drop at p c.rest h))
