-- ===== src/Hir/Meaning/Preserved.antt =====
-- The form that `build` returns renders what the template renders.
use yarte.Base.{ℕ, zero, suc, true, List, [], ◌++◌, append_assoc, Str, ◌≡◌, refl, ap, sym, ◌∙◌}
use yarte.Parser.Result.{ok, out_of_fuel}
use yarte.Parser.Syntax.{Nodes}
use yarte.Hir.Rust.{Rust, Input}
use yarte.Hir.Generator.{Hirs, nil, cons, Generator, write_buf_writable}
use yarte.Hir.Blocks.{State}
use yarte.Hir.Lower.{handle, start}
use yarte.Hir.Validator.{ErrorMessage}
use yarte.Hir.Build.{or_empty, result, build}
use yarte.Hir.Build.Apart.Walk.{build-apart}
use yarte.Hir.Meaning.{Run, out, outs, said, trailing}
use yarte.Hir.Meaning.Simple.{Agrees, Simple}
use yarte.Hir.Meaning.Pending.{pend, tail, outs-write}
use yarte.Hir.Meaning.Steps.{Ready}
use yarte.Hir.Meaning.Walk.{Reads, handle_with-Reads}
use yarte.Hir.Yields.{Gives, Gives-ok}

module _ {Expr Local : Type 0} (run : Run Expr) where
  pub outs-or_empty : (buf : Hirs Expr Local) → outs run (or_empty buf) ≡ outs run buf
  unfolding out
  outs-or_empty nil = refl
  outs-or_empty (cons h hs) = refl

module _ {Expr Local : Type 0} (run : Run Expr) (rust : Rust Expr Local) (input : Input Expr Local)
    (agrees : Agrees rust input.text_mode run) where
  handle-Reads :
      (f : ℕ) (ns : Nodes Expr Local)
      → Simple rust true ns
      → (s : State Expr Local) → Ready true s.0
      → Gives (Reads run s ns) (handle rust input f ns s)
  unfolding handle
  handle-Reads zero ns p s r =
      handle_with-Reads run rust input agrees (λ _ _. out_of_fuel) true ns p s r
  handle-Reads (suc f) ns p s r =
      handle_with-Reads run rust input agrees (handle rust input f) true ns p s r

  form_lem :
      (path : Str) (ns : Nodes Expr Local) (g : Generator Expr) (buf : Hirs Expr Local)
      → Reads run (start rust input path, Hirs.nil) ns (g, buf)
      → outs run (or_empty (write_buf_writable g buf).1) ++ trailing [] ns ≡ said run ns
  unfolding start tail pend outs
  form_lem path ns g buf d =
      ap (λ x. x ++ trailing [] ns)
        (outs-or_empty run (write_buf_writable g buf).1 ∙ outs-write run g buf)
      ∙ append_assoc (outs run buf) (pend run g.buf_w) (trailing [] ns)
      ∙ ap (λ w. outs run buf ++ (pend run g.buf_w ++ w)) (sym d.waits)
      ∙ d.done.reads

  -- A template of literals, expressions, raw blocks, `if`, `unless` and `with`, without `~`, is
  -- lowered with any fuel: `build` returns a form, or the errors if the walk reported some, and the
  -- form renders the text of the template but for the white space at its very end, which is dropped.
  -- Each expression of the template has no attributes and is one that the visitor leaves as it is;
  -- constants have their value at run time, and a negated condition has the opposite one; the first
  -- condition of an `if` is not constant and no further one is, or it is constant and there is no
  -- further one but `else`; no literal stands behind a literal.
  pub build-said :
      (f : ℕ) (path : Str) (ns : Nodes Expr Local)
      → Simple rust true ns
      → (errors : List ErrorMessage) × (form : Hirs Expr Local) × (build rust input f path ns
          ≡ ok (result errors form))
        × (outs run form ++ trailing [] ns ≡ said run ns)
  unfolding start
  build-said f path ns p =
      let begin : State Expr Local = (start rust input path, Hirs.nil) in
      let r = Gives-ok (handle-Reads f ns p begin (record { kept = refl; empty = λ _. refl })) in
      let g = r.0.0 in
      let buf = r.0.1 in
      (
        g.errors,
        or_empty (write_buf_writable g buf).1,
        (build-apart rust input f path ns g buf r.1).1,
        form_lem path ns g buf r.2,
      )
