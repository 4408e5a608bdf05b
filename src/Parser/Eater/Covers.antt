-- ===== src/Parser/Eater/Covers.antt =====
-- Nodes that stand for a stretch of the source, one behind the other.
use yarte.Base.{
  ℕ, ◌+◌, ◌≤◌, ◌≡◌, ◌⊎◌, refl, sym, ◌∷◌, ◌++◌, arith, le→leb, length, take, drop, length-take,
  take-drop, Str,
}
use yarte.Parser.Result.{Result, ok, ◌>>=◌, Ensures}
use yarte.Parser.Cursor.{Cursor, u32, slice_from, adv}
use yarte.Parser.Advances.{Advances, Advances-refl, Advances-trans, Advances-weaken, Fits}
use yarte.Parser.Trim.Sound.{IsTrim}
use yarte.Parser.Syntax.{Span, from_cursor, Node, Nodes, push}

-- The cursor `n` bytes on.
abbrev pub moved : Cursor → ℕ → Cursor
moved i n = record { rest = drop n i.rest; off = u32 (i.off + u32 n) }

pub adv-moved : (i : Cursor) (n : ℕ) → n ≤ length i.rest → adv i n ≡ ok (moved i n)
unfolding adv slice_from
adv-moved i n h = rw (le→leb n (length i.rest) h)

pub moved-Advances : (i : Cursor) (n : ℕ) → n ≤ length i.rest → Advances n i (moved i n)
moved-Advances i n h = record {
  text = take n i.rest;
  splits = sym (take-drop n i.rest);
  off_is = omega (arith, length-take n i.rest h);
  least = omega (arith, length-take n i.rest h);
}

pub moved-bind {ℓ} :
    {Panics : Type 0} {A : Type 0} {P : A → Type ℓ} (i : Cursor) (n : ℕ) {f : Cursor → Result A}
    → n ≤ length i.rest
    → ((c : Cursor) → c ≡ moved i n → Ensures Panics P (f c))
    → Ensures Panics P (adv i n >>= f)
moved-bind i n h k = rw (adv-moved i n h) (k (moved i n) refl)

-- The source at `i` is a tag.
abbrev pub IsTag : Cursor → Type 0
IsTag i = (t : Str) × (i.rest ≡ b'{' ∷ b'{' ∷ t)

module _ {Expr Local : Type 0} where
  -- A literal from `i` to `m`: its three parts are the source between them, split by `trim`, and
  -- the span inside is that of the middle.
  pub record IsLit (i m : Cursor) (n : Node Expr Local) : Type 0 where
    pub left : Str
    pub middle : Str
    pub right : Str
    pub ins : Span
    pub text : Str
    pub node_is : n ≡ Node.lit left (record { t = middle; span = ins }) right
    pub source : i.rest ≡ text ++ m.rest
    pub trims : IsTrim text left middle right
    pub lo_is : ins.lo ≡ u32 (i.off + length left)
    pub hi_is : ins.hi ≡ u32 (ins.lo + length middle)

  -- The nodes stand for the source from `i` to `k`: each has the span of its own stretch, none is
  -- empty, the first begins at `i`, each other where the one before it ends, and the last ends at
  -- `k`. Each is a literal that spells its stretch, or its stretch begins with `{{`.
  abbrev pub Covers : Cursor → Nodes Expr Local → Cursor → Type 0
  Covers i Nodes.nil k = i ≡ k
  Covers i (Nodes.cons n s ns) k =
      (m : Cursor) × Advances 1 i m
      × (s ≡ from_cursor i m)
      × (IsLit i m n ⊎ IsTag i)
      × Covers m ns k

  pub Covers-push :
      (i : Cursor) (ns : Nodes Expr Local) {j k : Cursor} (n : Node Expr Local)
      → Covers i ns j
      → Advances 1 j k
      → IsLit j k n ⊎ IsTag j
      → Covers i (push ns n (from_cursor j k)) k
  Covers-push i Nodes.nil {j} {k} n e a l = rw e (k, a, refl, l, refl)
  Covers-push i (Nodes.cons x s ns) n (m, a, e, l, c) b l' = (m, a, e, l, Covers-push m ns n c b l')

  pub Covers-Advances :
      (i : Cursor) (ns : Nodes Expr Local) {k : Cursor} → Fits i → Covers i ns k → Advances 0 i k
  Covers-Advances i Nodes.nil fits e = rw (← e) (Advances-refl fits)
  Covers-Advances i (Nodes.cons x s ns) fits (m, a, e, l, c) =
      Advances-weaken (omega arith)
        (Advances-trans a (Covers-Advances m ns (omega (arith, a.off_is)) c))
