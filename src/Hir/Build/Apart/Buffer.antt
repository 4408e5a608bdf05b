-- ===== src/Hir/Build/Apart/Buffer.antt =====
-- Buffers in which no two literals stand side by side.
use yarte.Base.{Bool, true, false, ◌&&◌, List, [], ◌∷◌, ◌++◌, Str, ◌≡◌, refl, ◌∙◌, arith}
use yarte.Hir.Generator.{
  Hir, Hirs, nil, cons, Writable, lit_p, push, push_lit, written, Generator, write_buf_writable,
}
use yarte.Hir.Build.{is_lit, apart, or_empty}

module _ {Expr Local : Type 0} where
  abbrev pub ends_with_lit : Hirs Expr Local → Bool
  ends_with_lit nil = false
  ends_with_lit (cons h nil) = is_lit h
  ends_with_lit (cons h (cons k hs)) = ends_with_lit (cons k hs)

  -- No two literals side by side, and none at the end: what comes next may be a literal.
  pub record Closed (buf : Hirs Expr Local) : Type 0 where
    pub keeps : apart buf ≡ true
    pub open_end : ends_with_lit buf ≡ false

  pub nil-Closed : Closed nil
  unfolding apart
  nil-Closed = record { keeps = refl; open_end = refl }

  apart-push :
      (buf : Hirs Expr Local) (h : Hir Expr Local)
      → apart buf ≡ true
      → (ends_with_lit buf && is_lit h) ≡ false
      → (apart (push buf h) ≡ true) × (ends_with_lit (push buf h) ≡ is_lit h)
  unfolding apart
  apart-push nil h a e = (ground arith, refl)
  apart-push (cons k nil) h a e = (ground arith, refl)
  apart-push (cons k (cons l hs)) h a e = ground (arith, apart-push (cons l hs) h)

  -- What is no literal may always come next, and closes the buffer.
  pub push-Closed :
      (buf : Hirs Expr Local) (h : Hir Expr Local)
      → apart buf ≡ true
      → is_lit h ≡ false
      → Closed (push buf h)
  push-Closed buf h a e =
      let p = apart-push buf h a (ground arith) in record { keeps = p.0; open_end = p.1 ∙ e }

  push_lit-apart : (buf : Hirs Expr Local) (s : Str) → Closed buf → apart (push_lit buf s) ≡ true
  push_lit-apart buf [] c = c.keeps
  push_lit-apart buf (x ∷ s) c =
      (apart-push buf (Hir.lit (x ∷ s)) c.keeps (ground (arith, c.open_end))).0

  pub written-apart :
      (s : Str) (ws : List (Writable Expr)) (buf : Hirs Expr Local)
      → Closed buf
      → apart (written s ws buf) ≡ true
  unfolding written
  written-apart s [] buf c = push_lit-apart buf s c
  written-apart s (Writable.lit t ∷ ws) buf c = written-apart (s ++ t) ws buf c
  written-apart s (lit_p t ∷ ws) buf c = written-apart (s ++ t) ws buf c
  written-apart s (Writable.expr e true ∷ ws) buf c =
      written-apart [] ws (push (push_lit buf s) (Hir.safe e))
        (push-Closed (push_lit buf s) (Hir.safe e) (push_lit-apart buf s c) refl)
  written-apart s (Writable.expr e false ∷ ws) buf c =
      written-apart [] ws (push (push_lit buf s) (Hir.expr e))
        (push-Closed (push_lit buf s) (Hir.expr e) (push_lit-apart buf s c) refl)

  -- What is written and then followed by something else.
  pub write-push-Closed :
      (g : Generator Expr) (buf : Hirs Expr Local) (h : Hir Expr Local)
      → Closed buf
      → is_lit h ≡ false
      → Closed (push (write_buf_writable g buf).1 h)
  unfolding write_buf_writable
  write-push-Closed g buf h c e =
      push-Closed (written [] g.buf_w buf) h (written-apart [] g.buf_w buf c) e

  pub or_empty-apart : (buf : Hirs Expr Local) → apart buf ≡ true → apart (or_empty buf) ≡ true
  unfolding apart
  or_empty-apart nil a = refl
  or_empty-apart (cons h hs) a = a
