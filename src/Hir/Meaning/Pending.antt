-- ===== src/Hir/Meaning/Pending.antt =====
-- What waits in the generator, and what writing it into a buffer adds to the buffer's text.
use yarte.Base.{
  true, false, List, [], ◌∷◌, ◌++◌, append_assoc, append-nil, Option, none, some, Str, ◌≡◌, refl,
  ap, sym, ◌∙◌,
}
use yarte.Hir.Generator.{
  Hir, Hirs, nil, cons, Writable, lit_p, Generator, push, push_lit, written, flushed, handle_ws,
  write_buf_writable,
}
use yarte.Hir.Meaning.{Run, out, outs}
use yarte.Hir.Meaning.Simple.{untrimmed}

abbrev pub waiting : Option Str → Str
waiting none = []
waiting (some s) = s

module _ {Expr : Type 0} (run : Run Expr) where
  unfoldable pub pend : List (Writable Expr) → Str
  pend [] = []
  pend (Writable.lit s ∷ ws) = s ++ pend ws
  pend (lit_p s ∷ ws) = s ++ pend ws
  pend (Writable.expr e wrapped ∷ ws) = run.text e wrapped ++ pend ws

  -- What the generator has read and not yet put into a buffer.
  unfoldable pub tail : Generator Expr → Str
  unfolding pend
  tail g = pend g.buf_w ++ waiting g.next_ws

  pub pend-append : (xs ys : List (Writable Expr)) → pend (xs ++ ys) ≡ pend xs ++ pend ys
  unfolding pend
  pend-append [] ys = refl
  pend-append (Writable.lit s ∷ xs) ys =
      rw (pend-append xs ys, append_assoc s (pend xs) (pend ys)) refl
  pend-append (lit_p s ∷ xs) ys = rw (pend-append xs ys, append_assoc s (pend xs) (pend ys)) refl
  pend-append (Writable.expr e w ∷ xs) ys =
      rw (pend-append xs ys, append_assoc (run.text e w) (pend xs) (pend ys)) refl

  pend-flushed : (o : Option Str) → pend (flushed o false) ≡ waiting o
  unfolding pend
  pend-flushed none = refl
  pend-flushed (some []) = refl
  pend-flushed (some (c ∷ s)) = append-nil (c ∷ s)

  -- Without a `~`, the white space that waits is kept, and nothing waits behind it.
  pub pend-handle_ws : (g : Generator Expr) → pend (handle_ws g untrimmed).buf_w ≡ tail g
  unfolding handle_ws tail
  pend-handle_ws g = rw (pend-append g.buf_w (flushed g.next_ws false), pend-flushed g.next_ws) refl

  module _ {Local : Type 0} where
    pub outs-push :
        (buf : Hirs Expr Local) (h : Hir Expr Local)
        → outs run (push buf h) ≡ outs run buf ++ out run h
    unfolding outs
    outs-push nil h = append-nil (out run h)
    outs-push (cons k hs) h =
        rw (outs-push hs h, append_assoc (out run k) (outs run hs) (out run h)) refl

    outs-push_lit :
        (buf : Hirs Expr Local) (s : Str) → outs run (push_lit buf s) ≡ outs run buf ++ s
    unfolding out
    outs-push_lit buf [] = sym (append-nil (outs run buf))
    outs-push_lit buf (c ∷ s) = outs-push buf (Hir.lit (c ∷ s))

    pub outs-written :
        (s : Str) (ws : List (Writable Expr)) (buf : Hirs Expr Local)
        → outs run (written s ws buf) ≡ outs run buf ++ (s ++ pend ws)
    unfolding written pend out
    outs-written s [] buf = outs-push_lit buf s ∙ ap (λ t. outs run buf ++ t) (sym (append-nil s))
    outs-written s (Writable.lit t ∷ ws) buf =
        rw (outs-written (s ++ t) ws buf, append_assoc s t (pend ws)) refl
    outs-written s (lit_p t ∷ ws) buf =
        rw (outs-written (s ++ t) ws buf, append_assoc s t (pend ws)) refl
    outs-written s (Writable.expr e true ∷ ws) buf =
        rw
          (
            outs-written [] ws (push (push_lit buf s) (Hir.safe e)),
            outs-push (push_lit buf s) (Hir.safe e),
            outs-push_lit buf s,
            append_assoc (outs run buf ++ s) (run.text e true) (pend ws),
            append_assoc (outs run buf) s (run.text e true ++ pend ws),
          )
          refl
    outs-written s (Writable.expr e false ∷ ws) buf =
        rw
          (
            outs-written [] ws (push (push_lit buf s) (Hir.expr e)),
            outs-push (push_lit buf s) (Hir.expr e),
            outs-push_lit buf s,
            append_assoc (outs run buf ++ s) (run.text e false) (pend ws),
            append_assoc (outs run buf) s (run.text e false ++ pend ws),
          )
          refl

    -- `write_buf_writable` adds what waits in the buffer of the generator.
    pub outs-write :
        (g : Generator Expr) (buf : Hirs Expr Local)
        → outs run (write_buf_writable g buf).1 ≡ outs run buf ++ pend g.buf_w
    unfolding write_buf_writable
    outs-write g buf = outs-written [] g.buf_w buf
