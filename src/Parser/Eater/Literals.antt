-- ===== src/Parser/Eater/Literals.antt =====
-- What `eat_lit` pushes covers the source up to the position that it is given.
use yarte.Base.{
  ℕ, ◌+◌, ◌-◌, ◌≤◌, ◌≡◌, inl, refl, sym, ap, ◌∙◌, subst, true, false, [], ◌∷◌, ◌++◌, arith, length,
  take, drop, length-append, length-take, take-drop, Str,
}
use yarte.Parser.Result.{holds, Ensures-bind, Ensures-if}
use yarte.Parser.Cursor.{Cursor, u32, is_empty}
use yarte.Parser.Advances.{Advances-weaken, Fits, Safe, slice_to-Ensures}
use yarte.Parser.Trim.{trim}
use yarte.Parser.Trim.Sound.{trim-IsTrim, IsTrim}
use yarte.Parser.Syntax.{from_cursor, Nodes}
use yarte.Parser.Eater.Covers.{moved, moved-Advances, Covers, Covers-push}
use yarte.Parser.Eater.{eat_lit}

trim-Ensures_IsTrim : (s : Str) → Safe (λ (l, v, r). IsTrim s l v r) (trim s)
trim-Ensures_IsTrim s = let (l, v, r, e, t) = trim-IsTrim s in rw e (holds t)

pub moved-zero : (i : Cursor) → Fits i → i ≡ moved i 0
moved-zero i fits =
    let e : i.off ≡ u32 (i.off + u32 0) = omega arith in λ k. record { rest = i.rest; off = e k }

length-is_empty : (s : Str) → is_empty s ≡ true → length s ≡ 0
length-is_empty [] h = refl
length-is_empty (c ∷ s) h = cc

length-is_empty_not : (s : Str) → is_empty s ≡ false → 1 ≤ length s
length-is_empty_not [] h = cc
length-is_empty_not (c ∷ s) h = omega arith

module _ {Expr Local : Type 0} where
  pub eat_lit-Ensures :
      (o i : Cursor) (buf : Nodes Expr Local) (p : ℕ)
      → Fits i
      → p ≤ length i.rest
      → Covers o buf i
      → Safe (λ ns. Covers o ns (moved i p)) (eat_lit buf i p)
  unfolding eat_lit from_cursor
  eat_lit-Ensures o i buf p fits h c =
      Ensures-bind (slice_to-Ensures {P = λ t. t ≡ take p i.rest} i.rest p h refl) λ lit e.
        let len : length lit ≡ p = ap length e ∙ length-take p i.rest h in
        Ensures-if (is_empty lit)
          (λ b.
            let z : 0 ≡ p = omega (arith, length-is_empty lit b) in
            holds (subst (Covers o buf) (moved-zero i fits ∙ ap (moved i) z) c))
          λ b. Ensures-bind (trim-Ensures_IsTrim lit) λ (l, m, r) t.
            let whole = ap length t.splits ∙ length-append l (m ++ r) in
            let tail = length-append m r in
            holds (
              Covers-push o buf _ c
                (Advances-weaken (omega (arith, length-is_empty_not lit b)) (moved-Advances i p h))
                (inl (record {
                  left = l;
                  middle = m;
                  right = r;
                  ins = record {
                    lo = u32 (i.off + u32 (length l));
                    hi = u32 (i.off + u32 (p - length r));
                  };
                  text = lit;
                  node_is = refl;
                  source = sym (take-drop p i.rest) ∙ ap (λ x. x ++ drop p i.rest) (sym e);
                  trims = t;
                  lo_is = omega arith;
                  hi_is = omega arith;
                })))
