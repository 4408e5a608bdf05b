-- ===== src/Hir/Meaning/Values.antt =====
-- What an expression that is written adds to the text read so far.
use yarte.Base.{
  Bool, true, false, [], ◌∷◌, append-nil, Option, none, some, Str, ◌≡◌, refl, sym, ◌∙◌,
  if◌then◌else◌,
}
use yarte.Parser.Result.{ok}
use yarte.Parser.Syntax.{S}
use yarte.Hir.Rust.{Rust, Input}
use yarte.Hir.Generator.{Hirs, Writable, lit_p, Generator, handle_ws}
use yarte.Hir.Constants.{text_of, pushed, const_eval}
use yarte.Hir.Validator
use yarte.Hir.Blocks.{report, visit_expr, read_attributes}
use yarte.Hir.Lower.{or_expr, visit_written}
use yarte.Hir.Meaning.{Run}
use yarte.Hir.Meaning.Simple.{untrimmed, Agrees, Left}
use yarte.Hir.Meaning.Pending.{pend, tail}
use yarte.Hir.Yields.{Gives, gives, Gives-at}
use yarte.Hir.Meaning.Steps.{
  Ready, Done, Done-then, Done-as, stay-Done, push_w-Done, handle_ws-Done,
}

module _ {Expr Local : Type 0} (run : Run Expr) (rust : Rust Expr Local) (input : Input Expr Local)
    (agrees : Agrees rust input.text_mode run) where
  pub visit_expr_lem :
      (g : Generator Expr) (e : Expr) → Left rust e → visit_expr rust g e ≡ ok (g, e)
  visit_expr_lem g e left = rw (left.visited g.names) refl

  attributes :
      (wrapped : Bool) (e : Expr)
      → Left rust e
      → (if wrapped then read_attributes (rust.has_attributes e) else ok tt) ≡ ok tt
  attributes true e left = rw (left.bare) refl
  attributes false e left = refl

  or_expr-Done :
      (o : Option Str) (wrapped : Bool) (sexpr : S Expr) (g : Generator Expr)
      (buf : Hirs Expr Local) (e : Expr)
      → text_of rust input.text_mode (rust.eval e) wrapped ≡ o
      → Ready true g
      → Done run true
          (g, buf)
          (run.text e wrapped)
          (or_expr rust input (pushed rust input.text_mode g o) wrapped sexpr e g, buf)
  unfolding pend tail
  or_expr-Done none wrapped sexpr g buf e eq r =
      let d =
        push_w-Done run (report g (Validator.expression rust sexpr)) buf (Writable.expr e wrapped)
          (run.text e wrapped) (record { kept = r.kept; empty = r.empty })
          (append-nil (run.text e wrapped)) in
      record { names = d.names; ready = d.ready; reads = d.reads }
  or_expr-Done (some []) wrapped sexpr g buf e eq r =
      Done-as run (sym (agrees.constant_text e wrapped [] eq)) (stay-Done run g buf r)
  or_expr-Done (some (c ∷ s)) wrapped sexpr g buf e eq r =
      push_w-Done run g buf (lit_p (c ∷ s)) (run.text e wrapped) r
        (append-nil (c ∷ s) ∙ sym (agrees.constant_text e wrapped (c ∷ s) eq))

  pub visit_written-Done :
      (wrapped : Bool) (sexpr : S Expr) (g : Generator Expr) (buf : Hirs Expr Local)
      → Left rust sexpr.t
      → Gives
          (λ g'. Done run true (g, buf) (run.text sexpr.t wrapped) (g', buf))
          (visit_written rust input wrapped untrimmed sexpr g)
  unfolding visit_written const_eval
  visit_written-Done wrapped sexpr g buf left =
      let d = handle_ws-Done run g buf in
      let h = handle_ws g untrimmed in
      Gives-at _ (visit_expr_lem h sexpr.t left) (
        Gives-at _ (attributes wrapped sexpr.t left) (
          gives (
            Done-then run d (
              or_expr-Done (text_of rust input.text_mode (rust.eval sexpr.t) wrapped) wrapped sexpr
                h buf sexpr.t refl d.ready))))
