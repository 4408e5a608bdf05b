-- ===== src/Parser/Trim/Sound.antt =====
-- `trim` splits every text, and what it leaves in the middle begins and ends with no white space.
use yarte.Base.{
  ℕ, zero, suc, ◌+◌, ◌-◌, ◌≤◌, ◌<◌, true, false, [], ◌∷◌, ◌++◌, none, some, ◌≡◌, ◌⊎◌, inl, inr,
  refl, sym, ap, ◌∙◌, take, drop, take-drop, drop-drop, Str, position, arith, append-nil,
  Option-cases,
}
use yarte.Parser.Result.{ok}
use yarte.Parser.Cursor.{is_ws}
use yarte.Parser.Trim.{rposition, is_text, cut, trim}

-- Every byte is white space.
abbrev pub Blank : Str → Type 0
Blank [] = Unit
Blank (c ∷ s) = (is_ws c ≡ true) × Blank s

abbrev pub StartsWithText : Str → Type 0
StartsWithText s = (c : ℕ) × (w : Str) × (s ≡ c ∷ w) × (is_ws c ≡ false)

abbrev pub EndsWithText : Str → Type 0
EndsWithText s = (w : Str) × (c : ℕ) × (s ≡ w ++ c ∷ []) × (is_ws c ≡ false)

pub record IsTrim (s l v r : Str) : Type 0 where
  pub splits : s ≡ l ++ (v ++ r)
  pub left : Blank l
  pub right : Blank r
  pub middle : (v ≡ []) ⊎ (StartsWithText v × EndsWithText v)

position-none : (s : Str) → position is_text s ≡ none → Blank s
position-none [] h = tt
position-none (c ∷ s) h = ground (arith, position-none s)

position-some :
    (s : Str) (n : ℕ) → position is_text s ≡ some n → Blank (take n s) × StartsWithText (drop n s)
position-some [] n h = cc
position-some (c ∷ s) zero h = (tt, (c, s, refl, ground arith))
position-some (c ∷ s) (suc n) h =
    let (b, t) = position-some s n (ground arith) in ((ground arith, b), t)

rposition_exists :
    (s : Str) (n : ℕ)
    → position is_text s ≡ some n
    → (m : ℕ) × (rposition is_text s ≡ some m) × (n ≤ m)
rposition_exists [] n h = cc
rposition_exists (c ∷ s) zero h = elim (Option-cases (rposition is_text s)) [
  | inl e ↦ (0, ground arith, omega arith)
  | inr (m, e) ↦ (suc m, ground arith, omega arith)
]
rposition_exists (c ∷ s) (suc n) h =
    let (m, e, le) = rposition_exists s n (ground arith) in (suc m, rw e, omega arith)

rposition-none : (s : Str) → rposition is_text s ≡ none → Blank s
rposition-none [] h = tt
rposition-none (c ∷ s) h = ground (arith, rposition-none s)

rposition-Blank : (s : Str) (n : ℕ) → rposition is_text s ≡ some n → Blank (drop (suc n) s)
rposition-Blank [] n h = cc
rposition-Blank (c ∷ s) zero h = rposition-none s (ground arith)
rposition-Blank (c ∷ s) (suc n) h = rposition-Blank s n (ground arith)

-- The text up to its last byte that is no white space, and that byte.
take-rposition : (s : Str) (n : ℕ) → rposition is_text s ≡ some n → EndsWithText (take (suc n) s)
take-rposition [] n h = cc
take-rposition (c ∷ s) zero h = ([], c, refl, ground arith)
take-rposition (c ∷ s) (suc n) h =
    let (w, d, e, t) = take-rposition s n (ground arith) in (c ∷ w, d, ap (◌∷◌ c) e, t)

rposition_ends :
    (k n : ℕ) (s : Str)
    → rposition is_text s ≡ some n
    → k ≤ n
    → EndsWithText (take (suc n - k) (drop k s))
rposition_ends zero n s h le =
    let e : suc n - 0 ≡ suc n = omega arith in rw e (take-rposition s n h)
rposition_ends (suc k) zero s h le = absurd (omega arith)
rposition_ends (suc k) (suc n) [] h le = cc
rposition_ends (suc k) (suc n) (c ∷ s) h le =
    let e : suc (suc n) - suc k ≡ suc n - k = omega arith in
    rw e (rposition_ends k n s (ground arith) (omega arith))

take-StartsWithText : (k : ℕ) (s : Str) → 0 < k → StartsWithText s → StartsWithText (take k s)
take-StartsWithText zero s h t = absurd (omega arith)
take-StartsWithText (suc k) s h (c, w, e, t) = (c, take k w, rw e, t)

cut_splits : (s : Str) (a b : ℕ) → a ≤ b → s ≡ take a s ++ (take (b - a) (drop a s) ++ drop b s)
cut_splits s a b h =
    let e : drop b s ≡ drop (b - a) (drop a s) =
      ap (λ k. drop k s) {x = b} {y = a + (b - a)} (omega arith) ∙ sym (drop-drop (b - a) a s) in
    rw (e, take-drop (b - a) (drop a s), take-drop a s)

-- `trim` never panics. It splits any text into white space, a middle and white space, and the
-- middle is empty or begins and ends with a byte that is no white space.
pub trim-IsTrim :
    (s : Str) → (l : Str) × (v : Str) × (r : Str) × (trim s ≡ ok (l, v, r)) × IsTrim s l v r
unfolding trim
trim-IsTrim [] =
    ([], [], [], refl, record { splits = refl; left = tt; right = tt; middle = inl refl })
trim-IsTrim (c ∷ s) = elim (Option-cases (position is_text (c ∷ s))) [
  | inl e ↦ (
    c ∷ s,
    [],
    [],
    rw (e, cut),
    record {
      splits = sym (append-nil (c ∷ s));
      left = position-none (c ∷ s) e;
      right = tt;
      middle = inl refl;
    },
  )
  | inr (a, e) ↦
      let (b, e', le) = rposition_exists (c ∷ s) a e in
      let (left, starts) = position-some (c ∷ s) a e in
      (
        take a (c ∷ s),
        take (suc b - a) (drop a (c ∷ s)),
        drop (suc b) (c ∷ s),
        rw (e, e', cut),
        record {
          splits = cut_splits (c ∷ s) a (suc b) (omega arith);
          left = left;
          right = rposition-Blank (c ∷ s) b e';
          middle = inr (
            take-StartsWithText (suc b - a) _ (omega arith) starts,
            rposition_ends a b (c ∷ s) e' le,
          );
        },
      )
]
