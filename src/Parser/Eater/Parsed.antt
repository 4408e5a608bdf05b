-- ===== src/Parser/Eater/Parsed.antt =====
-- `parse`: it ends, and the nodes of a parsed template cover its source.
use yarte.Base.{
  ◌+◌, ◌-◌, ◌≡◌, ◌≢◌, inl, inr, refl, ap, ◌∙◌, subst, true, false, [], ◌∷◌, none, arith, le→leb,
  take-length, drop-length, length, Str, find,
}
use yarte.Parser.Result.{ok, out_of_fuel, holds, raised, panicked}
use yarte.Parser.Cursor.{Cursor, u32, is_empty, slice_to}
use yarte.Parser.Advances.{Fits}
use yarte.Parser.Trim.Sound.{trim-IsTrim, IsTrim}
use yarte.Parser.Syntax.{Syn, Node, Nodes}
use yarte.Parser.Tags.{PResult, found_or}
use yarte.Parser.Raw.Sound.{MayPanic, adv_find-zero}
use yarte.Parser.Eater.Covers.{Covers, adv-moved}
use yarte.Parser.Eater.Step.{Eaten}
use yarte.Parser.Eater.Fuel.{eat-Ensures}
use yarte.Parser.Eater.{parse, parsed, eat, eater, eater_step, eat_lit, kill}

slice_whole : (s : Str) → slice_to s (length s) ≡ ok s
unfolding slice_to
slice_whole s = rw (le→leb (length s) (length s) (omega arith), take-length s)

not_empty : (s : Str) → s ≢ [] → is_empty s ≡ false
not_empty [] ne = absurd (ne refl)
not_empty (c ∷ s) ne = refl

module _ {Expr Local : Type 0} (syn : Syn Expr Local) where
  parsed_inversion :
      (d : Cursor) (ms : Nodes Expr Local) {ns : Nodes Expr Local}
      → parsed syn (ok (d, ms)) ≡ ok ns
      → (is_empty d.rest ≡ true) × (ms ≡ ns)
  unfolding parsed
  parsed_inversion d ms h = ground arith

  is_empty-length : (s : Str) → is_empty s ≡ true → length s ≡ 0
  is_empty-length [] h = refl
  is_empty-length (c ∷ s) h = cc

  parsed-Covers :
      (c : Cursor) {r : PResult (Nodes Expr Local)} {ns : Nodes Expr Local}
      → MayPanic (Eaten c) r
      → parsed syn r ≡ ok ns
      → (k : Cursor) × Covers c ns k × (k.rest ≡ [])
  unfolding parsed
  parsed-Covers c (holds {a = (d, ms)} (k, cov, inl (e, end))) h = (
    k,
    subst (λ x. Covers c x k) (parsed_inversion d ms h).1 cov,
    ap (λ (x : Cursor). x.rest) e ∙ end,
  )
  parsed-Covers c (holds {a = (d, ms)} (k, cov, inr (a, left))) h =
      absurd (omega (arith, is_empty-length d.rest (parsed_inversion d ms h).0))
  parsed-Covers c raised h = cc
  parsed-Covers c (panicked x) h = cc

  -- The nodes of a parsed template cover its source: each node has the span of a stretch of its own
  -- that is not empty, the stretches follow one another from the first byte to the last, and each
  -- is either a literal, whose three parts are its stretch as `trim` splits it and whose inner span
  -- is that of the middle part, or begins with `{{`. The cursor's offset has to be a `u32`.
  pub parse-Covers :
      (c : Cursor) {ns : Nodes Expr Local}
      → Fits c
      → parse syn c ≡ ok ns
      → (k : Cursor) × Covers c ns k × (k.rest ≡ [])
  unfolding parse
  parse-Covers c fits h = parsed-Covers c (eat-Ensures syn c fits) h

  parsed_ends :
      {P : Cursor × Nodes Expr Local → Type 0} {r : PResult (Nodes Expr Local)}
      → MayPanic P r
      → parsed syn r ≢ out_of_fuel
  unfolding parsed
  parsed_ends (holds {a = (d, ms)} p) = ground arith
  parsed_ends raised = cc
  parsed_ends (panicked x) = cc

  -- The parser ends on every source: the fuel that the model gives it is always enough.
  pub parse-ne-out_of_fuel : (c : Cursor) → Fits c → parse syn c ≢ out_of_fuel
  unfolding parse
  parse-ne-out_of_fuel c fits = parsed_ends (eat-Ensures syn c fits)

  -- A source with no `{`, not empty, is one literal: its parts are those of `trim`, its outer span
  -- is the whole source and its inner span the middle part.
  pub parse_plain :
      (c : Cursor)
      → Fits c
      → find b'{' c.rest ≡ none
      → c.rest ≢ []
      → (l : Str) × (v : Str) × (r : Str) × (parse syn c
          ≡ ok (
              Nodes.cons
                (Node.lit l
                  (record {
                    t = v;
                    span = record {
                      lo = u32 (c.off + u32 (length l));
                      hi = u32 (c.off + u32 (length c.rest - length r));
                    };
                  })
                  r)
                (record { lo = c.off; hi = u32 (c.off + u32 (length c.rest)) })
                Nodes.nil))
        × IsTrim c.rest l v r
  unfolding parse parsed eat eater eater_step eat_lit kill
  parse_plain c fits h ne =
      let (l, v, r, e, t) = trim-IsTrim c.rest in
      (
        l,
        v,
        r,
        rw
            (
              adv_find-zero,
              h,
              found_or,
              adv-moved c (length c.rest) (omega arith),
              slice_whole c.rest,
              not_empty c.rest ne,
              e,
              drop-length c.rest,
            )
            refl,
        t,
      )
