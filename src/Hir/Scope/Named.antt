-- ===== src/Hir/Scope/Named.antt =====
-- The variables of loops: each has a name of its own, and is found by the name it is declared with.
use yarte.Base.{
  ℕ, zero, suc, ◌+◌, ◌*◌, ◌/◌, ◌%◌, ◌<◌, ◌==◌, Bool, true, ◌||◌, List, [], ◌∷◌, ◌++◌, some, length,
  take, drop, Str, codes, str_eq, str_eq_iff, ◌≡◌, refl, ap, sym, ◌∙◌, arith, false, Bool-cases,
  inl, inr, length-append, drop-append_length,
}
use yarte.Hir.Scope.{
  Scope, hex_digit, hex_digits, significant, numbered, push_ident, is_ascii_hexdigit, all_hex,
  find_last, is_numbered, is_named, get_by,
}

-- `16 ^ k`.
abbrev pub bound : ℕ → ℕ
bound zero = 1
bound (suc k) = 16 * bound k

hex_digit-hex : (d : ℕ) → d < 16 → is_ascii_hexdigit (hex_digit d) ≡ true
hex_digit-hex d h = ground (arith, h)

hex_digit_injective : (c d : ℕ) → c < 16 → d < 16 → hex_digit c ≡ hex_digit d → c ≡ d
hex_digit_injective c d hc hd e = ground (arith, hc, hd, e)

all_hex-append : (s t : Str) → all_hex s ≡ true → all_hex t ≡ true → all_hex (s ++ t) ≡ true
unfolding all_hex
all_hex-append [] t h k = k
all_hex-append (c ∷ s) t h k = ground (arith, all_hex-append s t)

all_hex-hex_digits : (k n : ℕ) → all_hex (hex_digits k n) ≡ true
unfolding all_hex
all_hex-hex_digits zero n = refl
all_hex-hex_digits (suc k) n =
    all_hex-append (hex_digits k (n / 16)) (hex_digit (n % 16) ∷ []) (all_hex-hex_digits k (n / 16))
      (rw (hex_digit-hex (n % 16) (omega arith)) refl)

length-hex_digits : (k n : ℕ) → length (hex_digits k n) ≡ k
length-hex_digits zero n = refl
length-hex_digits (suc k) n =
    rw
      (
        length-append (hex_digits k (n / 16)) (hex_digit (n % 16) ∷ []),
        length-hex_digits k (n / 16),
      )
      (omega arith)

last_injective : (s t : Str) (c d : ℕ) → s ++ c ∷ [] ≡ t ++ d ∷ [] → (s ≡ t) × (c ≡ d)
last_injective [] [] c d e = (refl, cc)
last_injective [] (x ∷ []) c d e = cc
last_injective [] (x ∷ y ∷ t) c d e = cc
last_injective (x ∷ []) [] c d e = cc
last_injective (x ∷ y ∷ s) [] c d e = cc
last_injective (x ∷ s) (y ∷ t) c d e =
    let r : s ++ c ∷ [] ≡ t ++ d ∷ [] = cc in
    let h : x ≡ y = cc in let p = last_injective s t c d r in (let q = p.0 in cc, p.1)

hex_digits_injective :
    (k m n : ℕ) → m < bound k → n < bound k → hex_digits k m ≡ hex_digits k n → m ≡ n
hex_digits_injective zero m n hm hn e = omega (arith, hm, hn)
hex_digits_injective (suc k) m n hm hn e =
    let p =
      last_injective (hex_digits k (m / 16)) (hex_digits k (n / 16)) (hex_digit (m % 16))
        (hex_digit (n % 16)) e in
    let q : m / 16 ≡ n / 16 =
      hex_digits_injective k (m / 16) (n / 16) (omega (arith, hm)) (omega (arith, hn)) p.0 in
    let r : m % 16 ≡ n % 16 =
      hex_digit_injective (m % 16) (n % 16) (omega arith) (omega arith) p.1 in
    omega (arith, q, r)

append_injective : (s x y : Str) → s ++ x ≡ s ++ y → x ≡ y
append_injective [] x y e = e
append_injective (c ∷ s) x y e = append_injective s x y (cc)

take-append_length : (s t : Str) → take (length s) (s ++ t) ≡ s
take-append_length [] t = refl
take-append_length (c ∷ s) t = ap (◌∷◌ c) (take-append_length s t)

str_eq_self : (s : Str) → str_eq s s ≡ true
str_eq_self s = ground (arith, str_eq_iff s s)

drop-suffix : (s t : Str) (n : ℕ) → drop (length s + n) (s ++ t) ≡ drop n t
drop-suffix [] t n = ap (λ k. drop k t) {x = 0 + n} {y = n} (omega arith)
drop-suffix (c ∷ s) t n =
    ap (λ k. drop k (c ∷ (s ++ t))) {x = suc (length s) + n} {y = suc (length s + n)} (omega arith)
    ∙ drop-suffix s t n

suffix-length : (s t : Str) (n : ℕ) → length t ≡ n → (length s + n == length (s ++ t)) ≡ true
suffix-length s t n h = let e = length-append s t in ground (arith, e, h)

-- A count of eight digits has none in front of them.
eight_digits :
    (count : ℕ)
    → count < bound 8
    → significant 8 (count / 4294967296) ++ hex_digits 8 count ≡ hex_digits 8 count
eight_digits count h = let z : count / 4294967296 ≡ 0 = omega (arith, h) in rw (z) refl

numbered_small :
    (ident : Str) (count : ℕ)
    → count < bound 8
    → numbered ident count ≡ ident ++ (codes "__0x" ++ hex_digits 8 count)
unfolding numbered
numbered_small ident count h = ap (λ x. ident ++ (codes "__0x" ++ x)) (eight_digits count h)

numbered_lem :
    (ident : Str) (count : ℕ) → count < bound 8 → is_numbered ident (numbered ident count) ≡ true
numbered_lem ident count small =
    let tail = codes "__0x" ++ hex_digits 8 count in
    let l : length tail ≡ 12 = ap (λ n. suc (suc (suc (suc n)))) (length-hex_digits 8 count) in
    let a : (length ident + 12 == length (ident ++ tail)) ≡ true = suffix-length ident tail 12 l in
    rw
      (
        numbered_small ident count small,
        a,
        take-append_length ident tail,
        str_eq_self ident,
        drop-append_length ident tail,
        drop-suffix ident tail 4,
        all_hex-hex_digits 8 count,
      )
      refl

numbered_named :
    (ident : Str) (count : ℕ)
    → count < bound 8
    → (str_eq (numbered ident count) ident || is_numbered ident (numbered ident count)) ≡ true
numbered_named ident count h = ground (arith, numbered_lem ident count h)

not_same :
    (ident other : Str) (count : ℕ)
    → count < bound 8
    → is_numbered other ident ≡ false
    → str_eq (numbered other count) ident ≡ false
not_same ident other count small plain = elim (Bool-cases (str_eq (numbered other count) ident)) [
  | inl same ↦ absurd (
      let e = (str_eq_iff (numbered other count) ident).0 same in
      let n = ap (is_numbered other) e in let t = numbered_lem other count small in cc)
  | inr differs ↦ differs
]

-- A numbered name of another identifier is none of `ident`, unless `ident` is itself one of those.
numbered_other :
    (ident other : Str) (count : ℕ)
    → count < bound 8
    → str_eq ident other ≡ false
    → is_numbered other ident ≡ false
    → (str_eq (numbered other count) ident || is_numbered ident (numbered other count)) ≡ false
numbered_other ident other count small differs plain =
    let digits = codes "__0x" ++ hex_digits 8 count in
    rw (not_same ident other count small plain) (
      rw (numbered_small other count small)
        (elim (Bool-cases (length ident + 12 == length (other ++ digits))) [
          | inl same ↦
              let a = length-append other digits in
              let d : length digits ≡ 12 =
                ap (λ n. suc (suc (suc (suc n)))) (length-hex_digits 8 count) in
              let l : length ident ≡ length other = ground (arith, same, a, d) in
              let t : take (length ident) (other ++ digits) ≡ other =
                ap (λ n. take n (other ++ digits)) l ∙ take-append_length other digits in
              rw (same, t, differs) refl
          | inr longer ↦ rw (longer) refl
        ]))

module _ {Expr : Type 0} (ident_expr : Str → Expr) where
  -- While the count has eight digits in base 16, `push_ident` gives a name under one identifier
  -- only once: two calls that give one name have one count.
  pub push_ident-injective :
      (s t : Scope Expr) (ident : Str)
      → s.count < bound 8
      → t.count < bound 8
      → (push_ident ident_expr s ident).1 ≡ (push_ident ident_expr t ident).1
      → s.count ≡ t.count
  unfolding push_ident
  push_ident-injective s t ident hs ht e = hex_digits_injective 8 s.count t.count hs ht (
      append_injective (codes "__0x") (hex_digits 8 s.count) (hex_digits 8 t.count) (
        append_injective ident _ _
          (sym (numbered_small ident s.count hs) ∙ e ∙ numbered_small ident t.count ht)))

  find_last-append :
      (p : Expr → Bool) (es : List Expr) (e : Expr)
      → p e ≡ true
      → find_last p (es ++ e ∷ []) ≡ some e
  unfolding find_last
  find_last-append p [] e h = rw (h) refl
  find_last-append p (x ∷ es) e h = rw (find_last-append p es e h) refl

  find_last-skip :
      (p : Expr → Bool) (es : List Expr) (e : Expr)
      → p e ≡ false
      → find_last p (es ++ e ∷ []) ≡ find_last p es
  unfolding find_last
  find_last-skip p [] e h = rw (h) refl
  find_last-skip p (x ∷ es) e h = rw (find_last-skip p es e h) refl

  -- Variables declared one after the other.
  abbrev pub declare_all : Scope Expr → List Str → Scope Expr
  declare_all s [] = s
  declare_all s (other ∷ others) = declare_all (push_ident ident_expr s other).0 others

  -- Identifiers other than `ident` of which `ident` is no numbered name.
  abbrev pub Others : Str → List Str → Type 0
  Others ident [] = Unit
  Others ident (other ∷ others) =
      (str_eq ident other ≡ false) × (is_numbered other ident ≡ false) × Others ident others

  module _ (print : Expr → Str) (printed : (name : Str) → print (ident_expr name) ≡ name) where
    get_by-declare_all :
        (s : Scope Expr) (ident : Str) (others : List Str)
        → s.count + length others < bound 8
        → Others ident others
        → get_by print (declare_all s others) ident ≡ get_by print s ident
    unfolding get_by is_named push_ident
    get_by-declare_all s ident [] room h = refl
    get_by-declare_all s ident (other ∷ others) room (differs, plain, h) =
        get_by-declare_all (push_ident ident_expr s other).0 ident others (omega (arith, room)) h
        ∙ find_last-skip (is_named print ident) s.scope (ident_expr (numbered other s.count)) (
            rw (printed (numbered other s.count))
              (numbered_other ident other s.count (omega (arith, room)) differs plain))

  -- The variable that was declared last under an identifier is found by it, whatever variables are
  -- declared behind it under other identifiers. The counts have eight digits in base 16, an
  -- identifier is printed as its text, and the identifier is no numbered name of the other ones.
  pub get_by-push_ident :
      (print : Expr → Str) (s : Scope Expr) (ident : Str) (others : List Str)
      → ((name : Str) → print (ident_expr name) ≡ name)
      → s.count + length others + 1 < bound 8
      → Others ident others
      → get_by print (declare_all (push_ident ident_expr s ident).0 others) ident
        ≡ some (ident_expr (push_ident ident_expr s ident).1)
  unfolding get_by is_named push_ident
  get_by-push_ident print s ident others printed room h =
      get_by-declare_all print printed (push_ident ident_expr s ident).0 ident others
        (omega (arith, room)) h
      ∙ find_last-append (is_named print ident) s.scope (ident_expr (numbered ident s.count)) (
          rw (printed (numbered ident s.count))
            (numbered_named ident s.count (omega (arith, room))))
