-- ===== src/Hir/Meaning/Chosen.antt =====
-- A template that is one `if` with constant conditions, lowered.
use yarte.Base.{
  ℕ, zero, suc, Bool, true, false, some, none, List, [], ◌++◌, append-nil, Str, ◌≡◌, refl, ap, sym,
  ◌∙◌, if◌then◌else◌,
}
use yarte.Parser.Result.{Result, ok, out_of_fuel, ◌>>=◌}
use yarte.Parser.Syntax.{S, Span, Node, Helper, Nodes, nil, cons, Branches, Else}
use yarte.Hir.Rust.{Rust, Input}
use yarte.Hir.Constants.{eval_bool}
use yarte.Hir.Generator.{Hirs, Generator, handle_ws, write_buf_writable}
use yarte.Hir.Blocks.{State, push_names}
use yarte.Hir.Chain.{Chain, finish_if}
use yarte.Hir.Lower.{handle_with, visit_ifs, visit_els, visit_node, visit_helper, handle, start}
use yarte.Hir.Validator.{ErrorMessage}
use yarte.Hir.Build.{or_empty, result, build}
use yarte.Hir.Build.Apart.Walk.{build-apart}
use yarte.Hir.Meaning.{Run, outs, said, said_els}
use yarte.Hir.Meaning.Simple.{untrimmed, Left, Agrees, Simple, SimpleEls}
use yarte.Hir.Meaning.Pending.{pend, tail, waiting, outs-write}
use yarte.Hir.Meaning.Steps.{Ready, Done, handle_ws-Done}
use yarte.Hir.Meaning.Values.{visit_expr_lem}
use yarte.Hir.Meaning.Ifs.{IsConstant, first_by-IsConstant, closed-IsConstant}
use yarte.Hir.Meaning.Walk.{visit_els-IsConstant}
use yarte.Hir.Meaning.Preserved.{outs-or_empty}
use yarte.Hir.Meaning.Constant.{chosen, ConstantIfs, body-Writes, visit_ifs-true, visit_ifs-false}
use yarte.Hir.Yields.{Gives, gives, Gives-bind, Gives-at, Gives-ok}

module _ {Expr Local : Type 0} where
  -- A template that is one `if`, none of whose outer tags has a `~`.
  abbrev pub constant_if :
      S Expr → Nodes Expr Local → Branches Expr Local → Else Expr Local → Span → Nodes Expr Local
  constant_if e body ifs els sp =
      cons (Node.helper (Helper.if_else untrimmed untrimmed e body ifs els)) sp nil

module _ {Expr Local : Type 0} (run : Run Expr) (rust : Rust Expr Local) where
  -- What an `if` renders whose first condition is constantly `v`.
  abbrev pub rendered : Bool → Nodes Expr Local → Branches Expr Local → Else Expr Local → Str
  rendered true body ifs els = said run body
  rendered false body ifs els =
      if (chosen run rust ifs).1
      then (chosen run rust ifs).0
      else (chosen run rust ifs).0 ++ said_els run els

  form-Done :
      (input : Input Expr Local) (path : Str) (g : Generator Expr) (buf : Hirs Expr Local) (t : Str)
      → Done run true (start rust input path, Hirs.nil) t (g, buf)
      → outs run (or_empty (write_buf_writable g buf).1) ≡ t
  unfolding start tail pend outs
  form-Done input path g buf t d =
      outs-or_empty run (write_buf_writable g buf).1
      ∙ outs-write run g buf
      ∙ ap (λ x. outs run buf ++ x)
          (let n : g.next_ws ≡ none = d.ready.empty refl in
            let w : pend run g.buf_w ++ waiting g.next_ws ≡ pend run g.buf_w =
              rw (n) (append-nil (pend run g.buf_w)) in
            sym w)
      ∙ d.reads

  module _ (input : Input Expr Local) (agrees : Agrees rust input.text_mode run) (e : S Expr)
      (v : Bool) (body : Nodes Expr Local) (ifs : Branches Expr Local) (els : Else Expr Local)
      (left : Left rust e.t) (q : eval_bool rust e.t ≡ some v) (p : Simple rust true body)
      (i : ConstantIfs run rust ifs) (o : SimpleEls rust els) (sp : Span) where
    -- The further conditions and the `else` block.
    ended :
        (deeper : Nodes Expr Local → State Expr Local → Result (State Expr Local))
        (s : State Expr Local) (v : Bool) (c : Chain Expr Local)
        → IsConstant run rust s (if v then said run body else []) v c
        → Gives (Done run true s (rendered v body ifs els)) (do
          c ← visit_ifs rust input deeper ifs c
          r ← visit_els rust input deeper els c
          ok (finish_if (record r.0 { g = handle_ws r.0.g untrimmed }) r.1))
    ended deeper s true c k =
        Gives-bind (visit_ifs-true run rust input agrees deeper ifs i s (said run body) c k)
          λ c k. visit_els-IsConstant run rust input agrees deeper els o s (said run body) true c k
    ended deeper s false c k =
        Gives-bind (visit_ifs-false run rust input agrees deeper ifs i s [] c k) λ c k.
          visit_els-IsConstant run rust input agrees deeper els o s (chosen run rust ifs).0
            (chosen run rust ifs).1 c k

    handle-rendered :
        (deeper : Nodes Expr Local → State Expr Local → Result (State Expr Local))
        (s : State Expr Local)
        → Ready true s.0
        → Gives
            (Done run true s (rendered v body ifs els))
            (handle_with rust input deeper (constant_if e body ifs els sp) s)
    unfolding handle_with visit_node visit_helper
    handle-rendered deeper (g, buf) r =
        let opened = push_names g [] in
        let w = handle_ws-Done run opened buf in
        Gives-bind
          (Gives-at _ (visit_expr_lem run rust input agrees opened e.t left) (
            rw (q) (
              Gives-bind
                (first_by-IsConstant run rust (handle_with rust input deeper body) (said run body)
                  (body-Writes run rust input agrees deeper body p) e e.t v
                  (handle_ws opened untrimmed, buf) w.ready)
                λ k s.
                  let z = closed-IsConstant run rust g buf _ v k s in
                  Gives-at _ z.0 (ended deeper (g, buf) v _ z.1))))
          λ s d. gives d

    handle-rendered_any :
        (f : ℕ) (s : State Expr Local)
        → Ready true s.0
        → Gives
            (Done run true s (rendered v body ifs els))
            (handle rust input f (constant_if e body ifs els sp) s)
    unfolding handle
    handle-rendered_any zero s r = handle-rendered (λ _ _. out_of_fuel) s r
    handle-rendered_any (suc f) s r = handle-rendered (handle rust input f) s r

    -- A template that is one `if`, whose conditions are all constant, is lowered with any fuel:
    -- `build` returns a form, or the errors if the walk reported some, and the form renders the
    -- block of the first condition that is true. Where none is, it renders the `else` block; and
    -- where the first that is true is that of the last `else if`, it renders the `else` block as
    -- well, behind the block of the condition. The tags of the template have no `~`; each condition
    -- has no attributes and is left as it is by the visitor; the blocks are templates without `~`
    -- in which no literal stands behind a literal, of literals, raw blocks, expressions without
    -- attributes that the visitor leaves as they are, and `if`, `unless` and `with` over such
    -- expressions, where no condition of an `if` is constant, or the only one is; constants have
    -- their value at run time, and a negated condition the opposite one.
    pub build-rendered :
        (f : ℕ) (path : Str)
        → (errors : List ErrorMessage) × (form : Hirs Expr Local) × (build rust input f path
              (constant_if e body ifs els sp)
            ≡ ok (result errors form))
          × (outs run form ≡ rendered v body ifs els)
    unfolding start
    build-rendered f path =
        let begin : State Expr Local = (start rust input path, Hirs.nil) in
        let r =
          Gives-ok (handle-rendered_any f begin (record { kept = refl; empty = λ _. refl })) in
        let g = r.0.0 in
        let buf = r.0.1 in
        (
          g.errors,
          or_empty (write_buf_writable g buf).1,
          (build-apart rust input f path (constant_if e body ifs els sp) g buf r.1).1,
          form-Done input path g buf (rendered v body ifs els) r.2,
        )
