-- ===== src/Parser/SourceMap/Lines.antt =====
-- The line and column of an offset are those that a reader of the text counts.
use yarte.Base.{
  ℕ, zero, suc, ◌+◌, ◌-◌, ◌≤◌, ◌<◌, true, false, List, [], ◌∷◌, ◌++◌, Option, none, some, ◌==◌,
  if◌then◌else◌, length, get_elem?, find, Str, drop, take, ◌≡◌, refl, sym, ap, ◌∙◌, arith,
  append_assoc, inl, inr, Bool-cases, append-nil, le→leb, length-drop, drop-drop,
}
use mathlib.Core.Option
use yarte.Parser.Result.{Result, ok}
use yarte.Parser.Cursor.{slice_from}
use yarte.Parser.SourceMap.{
  LineColumn, lines_loop, lines_offsets, Search, found, missing, later, binary_search, located,
  line_at,
}

-- The line and column behind a text that is read from `lc` on: a line feed starts a line.
abbrev pub read_on : LineColumn → Str → LineColumn
read_on lc [] = lc
read_on lc (c ∷ s) =
    read_on
      (if c == b'\n'
        then record { line = suc lc.line; column = 0 }
        else record lc { column = suc lc.column })
      s

-- The offsets behind the line feeds of a text that stands at `p`.
abbrev pub offsets : ℕ → Str → List ℕ
offsets p [] = []
offsets p (c ∷ s) = let rest = offsets (suc p) s in if c == b'\n' then suc p ∷ rest else rest

-- What the first line feed, if there is one, says of the offsets.
abbrev Splits : ℕ → Str → Option ℕ → Type 0
Splits p s none = offsets p s ≡ []
Splits p s (some n) =
    (offsets p s ≡ (p + (n + 1)) ∷ offsets (p + (n + 1)) (drop (n + 1) s)) × (n < length s)

Splits-suc :
    (p c : ℕ) (s : Str) (o : Option ℕ)
    → (c == b'\n') ≡ false
    → Splits (suc p) s o
    → Splits p (c ∷ s) (Option.map suc o)
Splits-suc p c s none e h = rw (offsets, e) h
Splits-suc p c s (some n) e (h, l) =
    let k : suc p + (n + 1) ≡ p + (suc n + 1) = omega arith in
    let d : suc n + 1 ≡ suc (n + 1) = omega arith in
    (
      rw (offsets, e)
          (h
            ∙ ap (λ q. q ∷ offsets q (drop (n + 1) s)) k
            ∙ ap (λ m. (p + (suc n + 1)) ∷ offsets (p + (suc n + 1)) (drop m (c ∷ s))) (sym d)),
      omega arith,
    )

Splits-zero : (p c : ℕ) (s : Str) → (c == b'\n') ≡ true → Splits p (c ∷ s) (some 0)
Splits-zero p c s e =
    let k : suc p ≡ p + (0 + 1) = omega arith in
    (rw (offsets, e) (ap (λ q. q ∷ offsets q s) k), omega arith)

find-Splits : (s : Str) (p : ℕ) → Splits p s (find b'\n' s)
find-Splits [] p = refl
find-Splits (c ∷ s) p = elim (Bool-cases (c == b'\n')) [
  | inl e ↦ rw (find, e) (Splits-zero p c s e)
  | inr e ↦ rw (find, e) (Splits-suc p c s (find b'\n' s) e (find-Splits s (suc p)))
]

-- The offsets from a line feed on, in the whole text.
offsets-append :
    (s : Str) (prev n : ℕ) (lines : List ℕ)
    → Splits prev (drop prev s) (some n)
    → (lines ++ (prev + (n + 1)) ∷ []) ++ offsets (prev + (n + 1)) (drop (prev + (n + 1)) s)
      ≡ lines ++ offsets prev (drop prev s)
offsets-append s prev n lines (e, _) =
    append_assoc lines ((prev + (n + 1)) ∷ []) _
    ∙ ap (λ x. lines ++ x)
        (ap (λ x. (prev + (n + 1)) ∷ offsets (prev + (n + 1)) x) (sym (drop-drop (n + 1) prev s))
          ∙ sym e)

lines_loop-offsets :
    (f : ℕ) (s : Str) (prev : ℕ) (lines : List ℕ)
    → prev ≤ length s
    → length s < f + prev
    → lines_loop f s prev lines ≡ ok (lines ++ offsets prev (drop prev s))
unfolding lines_loop slice_from
lines_loop-offsets zero s prev lines h k = absurd (omega arith)
lines_loop-offsets (suc f) s prev lines h k = rw (le→leb prev (length s) h) (
    after
      (λ n split.
        lines_loop-offsets f s (prev + (n + 1)) (lines ++ (prev + (n + 1)) ∷ [])
          (omega (arith, length-drop prev s, split.1)) (omega arith)
        ∙ ap ok (offsets-append s prev n lines split))
      (find b'\n' (drop prev s)) (find-Splits (drop prev s) prev))
  where
    after :
        ((n : ℕ)
          → Splits prev (drop prev s) (some n)
          → lines_loop f s (prev + (n + 1)) (lines ++ (prev + (n + 1)) ∷ [])
            ≡ ok (lines ++ offsets prev (drop prev s)))
        → (o : Option ℕ) → Splits prev (drop prev s) o
        → elim o [
          | none ↦ ok lines
          | some len ↦ lines_loop f s (prev + (len + 1)) (lines ++ (prev + (len + 1)) ∷ [])
        ]
          ≡ ok (lines ++ offsets prev (drop prev s))
    after go none e = ap ok (sym (ap (λ x. lines ++ x) e ∙ append-nil lines))
    after go (some n) split = go n split

-- `lines_offsets` ends, and its result is 0 and the offset behind each line feed.
pub lines_offsets-offsets : (s : Str) → lines_offsets s ≡ ok (0 ∷ offsets 0 s)
unfolding lines_offsets
lines_offsets-offsets s =
    lines_loop-offsets (suc (length s)) s 0 (0 ∷ []) (omega arith) (omega arith)

-- Search among lines.
abbrev pub locate : List ℕ → ℕ → Result LineColumn
locate lines t = located lines t (binary_search lines t)

abbrev next_line : Result LineColumn → Result LineColumn
next_line (ok lc) = ok (record lc { line = suc lc.line })
next_line r = r

search-after :
    (x t : ℕ) (xs : List ℕ) → x < t → binary_search (x ∷ xs) t ≡ later (binary_search xs t)
unfolding binary_search
search-after x t xs h = ground arith

line_at-next : (i t : ℕ) (o : Option ℕ) → line_at (suc i) t o ≡ next_line (line_at i t o)
line_at-next i t none = refl
line_at-next i t (some n) = refl

located-later :
    (b x t : ℕ) (xs : List ℕ) (r : Search)
    → x < t
    → located (b ∷ x ∷ xs) t (later (later r)) ≡ next_line (located (x ∷ xs) t (later r))
unfolding located
located-later b x t xs (found i) h = refl
located-later b x t xs (missing i) h = line_at-next i t (get_elem? (x ∷ xs) i)

search-here : (x t : ℕ) (xs : List ℕ) → (x == t) ≡ true → binary_search (x ∷ xs) t ≡ found 0
unfolding binary_search
search-here x t xs e = rw e refl

-- A line that ends in front of the offset only counts.
locate-next :
    (b x t : ℕ) (xs : List ℕ)
    → b < x
    → x ≤ t
    → locate (b ∷ x ∷ xs) t ≡ next_line (locate (x ∷ xs) t)
unfolding located
locate-next b x t xs h k =
    ap (located (b ∷ x ∷ xs) t) (search-after b t (x ∷ xs) (omega arith))
    ∙ elim (Bool-cases (x == t)) [
      | inl e ↦ rw (search-here x t xs e) refl
      | inr e ↦
          (let l : x < t = grind arith in
            rw (search-after x t xs l) (located-later b x t xs (binary_search xs t) l))
    ]

search-offsets : (s : Str) (p t : ℕ) → t ≤ p → binary_search (offsets p s) t ≡ missing 0
unfolding binary_search
search-offsets [] p t h = refl
search-offsets (c ∷ s) p t h = elim (Bool-cases (c == b'\n')) [
  | inl e ↦ rw (offsets, e) (ground arith)
  | inr e ↦ rw (offsets, e) (search-offsets s (suc p) t (omega arith))
]

locate-first :
    (s : Str) (p base : ℕ)
    → base ≤ p
    → locate (base ∷ offsets p s) p ≡ ok (record { line = 1; column = p - base })
unfolding located
locate-first s p base h = elim (Bool-cases (base == p)) [
  | inl e ↦
      (let z : 0 ≡ p - base = grind arith in
        rw (search-here base p (offsets p s) e) (ap (λ n. ok (record { line = 1; column = n })) z))
  | inr e ↦
      (let l : base < p = grind arith in
        rw (search-after base p (offsets p s) l, search-offsets s p p (omega arith)) refl)
]

read_on-next :
    (s : Str) (l c : ℕ)
    → read_on (record { line = suc l; column = c }) s
      ≡ record (read_on (record { line = l; column = c }) s) {
        line = suc (read_on (record { line = l; column = c }) s).line;
      }
read_on-next [] l c = refl
read_on-next (a ∷ s) l c = elim (Bool-cases (a == b'\n')) [
  | inl e ↦ rw (read_on, e) (read_on-next s (suc l) 0)
  | inr e ↦ rw (read_on, e) (read_on-next s l (suc c))
]

column-suc : (p base : ℕ) → base ≤ p → suc p - base ≡ suc (p - base)
column-suc p base h = omega arith

feed-read_on :
    (s : Str) (p : ℕ)
    → record (read_on (record { line = 1; column = suc p - suc p }) s) {
      line = suc (read_on (record { line = 1; column = suc p - suc p }) s).line;
    }
      ≡ read_on (record { line = 2; column = 0 }) s
feed-read_on s p = let z : suc p - suc p ≡ 0 = omega arith in rw z (sym (read_on-next s 1 0))

-- The search among the offsets of the lines finds the line and the column at which a reader of the
-- text is behind `k` bytes.
pub locate-read_on :
    (k : ℕ) (s : Str) (p base : ℕ)
    → base ≤ p
    → k ≤ length s
    → locate (base ∷ offsets p s) (p + k)
      ≡ ok (read_on (record { line = 1; column = p - base }) (take k s))
locate-read_on zero s p base h k = let z : p + 0 ≡ p = omega arith in rw z (locate-first s p base h)
locate-read_on (suc k) [] p base h l = absurd (omega arith)
locate-read_on (suc k) (c ∷ s) p base h l =
    let z : p + suc k ≡ suc p + k = omega arith in
    elim (Bool-cases (c == b'\n')) [
      | inl e ↦
          rw (offsets, read_on, e, z)
            (locate-next base (suc p) (suc p + k) (offsets (suc p) s) (omega arith) (omega arith)
              ∙ (ap next_line (locate-read_on k s (suc p) (suc p) (omega arith) (omega arith))
                  ∙ ap ok (feed-read_on (take k s) p)))
      | inr e ↦
          rw (offsets, read_on, e, z)
            (locate-read_on k s (suc p) base (omega arith) (omega arith)
              ∙ ap (λ n. ok (read_on (record { line = 1; column = n }) (take k s)))
                  (column-suc p base h))
    ]
