-- ===== src/Hir/Meaning/Bodies.antt =====
-- What a helper that holds one block adds to the text read so far.
use yarte.Base.{
  Bool, true, false, not, List, [], ◌∷◌, ◌++◌, append-nil, Option, none, some, Str, ◌≡◌, refl, ap,
  ◌∙◌, if◌then◌else◌,
}
use yarte.Parser.Result.{Result, ok}
use yarte.Parser.Syntax.{S}
use yarte.Hir.Scope.{len, pop}
use yarte.Hir.Rust.{On, Names, Rust, Input}
use yarte.Hir.Validator
use yarte.Hir.Generator.{Hir, Hirs, nil, Generator, push, handle_ws, write_buf_writable}
use yarte.Hir.Constants.{eval_bool}
use yarte.Hir.Chain.{emptied}
use yarte.Hir.Blocks.{
  State, report, push_names, pop_names, scoped, unless_by, visit_unless, visit_with, push_on,
  pop_on, tail_on,
}
use yarte.Hir.Meaning.{Run, out, outs}
use yarte.Hir.Meaning.Simple.{untrimmed, Agrees, Left}
use yarte.Hir.Meaning.Pending.{pend, tail, pend-handle_ws, outs-push, outs-written, outs-write}
use yarte.Hir.Meaning.Steps.{
  Ready, stay-Done, pop-push_scope, Done, Done-then, Done-as, handle_ws-Done,
}
use yarte.Hir.Meaning.Values.{visit_expr_lem}
use yarte.Hir.Yields.{Gives, gives, Gives-bind, Gives-at, Gives-map}

pub pop_names-back :
    {Expr : Type 0} (g g' : Generator Expr) (t : List Expr)
    → g'.names ≡ (push_names g t).names
    → pop_names g' ≡ ok (record g' { names = g.names })
pop_names-back g g' t e =
    let p : pop g'.names.scp ≡ ok g.names.scp =
      ap (λ (n : Names _). pop n.scp) e ∙ pop-push_scope g.names.scp t in
    let back : record g'.names { scp = g.names.scp } ≡ g.names =
      ap (λ (n : Names _). record n { scp = g.names.scp }) e in
    rw (p, back) refl

negated_if : (b : Bool) (t : Str) → (if not b then t else []) ≡ (if b then [] else t)
negated_if true t = refl
negated_if false t = refl

module _ {Expr Local : Type 0} (run : Run Expr) where
  -- The walk over a block, which reads the text `t`.
  abbrev pub Writes : (State Expr Local → Result (State Expr Local)) → Str → Type 0
  Writes block t = (s : State Expr Local) → Ready true s.0 → Gives (Done run false s t) (block s)

  -- Writing the buffer leaves the text as it is.
  pub write-Done :
      (g : Generator Expr) (buf : Hirs Expr Local)
      → Ready true g
      → Done run true (g, buf) [] (write_buf_writable g buf)
  unfolding write_buf_writable tail pend
  write-Done g buf r = record {
    names = refl;
    ready = record { kept = r.kept; empty = r.empty };
    reads =
        rw
          (
            outs-written run [] g.buf_w buf,
            r.empty refl,
            append-nil (outs run buf ++ pend run g.buf_w),
            append-nil (pend run g.buf_w),
            append-nil (outs run buf ++ pend run g.buf_w),
          )
          refl;
  }

  pub push-Done :
      (g g' : Generator Expr) (buf : Hirs Expr Local) (h : Hir Expr Local) (t : Str)
      → Ready true g
      → Ready true g'
      → g'.names ≡ g.names
      → out run h ≡ t
      → Done run true (emptied g, buf) t (emptied g', push buf h)
  unfolding tail pend
  push-Done g g' buf h t r r' e o = record {
    names = e;
    ready = record { kept = r'.kept; empty = r'.empty };
    reads =
        rw
          (
            outs-push run buf h,
            o,
            r.empty refl,
            r'.empty refl,
            append-nil (outs run buf),
            append-nil (outs run buf ++ t),
          )
          refl;
  }

  -- A body that is begun empty and ended by the mark of what comes behind it.
  pub body_lem :
      (g : Generator Expr) (t : Str) (s : State Expr Local)
      → Ready true g
      → Done run false (emptied g, nil) t s
      → outs run s.1 ++ tail run s.0 ≡ t
  unfolding tail pend outs
  body_lem g t s r d = d.reads ∙ rw (r.empty refl) refl

  pub ended_lem :
      (t : Str) (s : State Expr Local)
      → outs run s.1 ++ tail run s.0 ≡ t
      → outs run (write_buf_writable (handle_ws s.0 untrimmed) s.1).1 ≡ t
  ended_lem t s e =
      outs-write run (handle_ws s.0 untrimmed) s.1
      ∙ ap (λ u. outs run s.1 ++ u) (pend-handle_ws run s.0)
      ∙ e

  module _ (rust : Rust Expr Local) (block : State Expr Local → Result (State Expr Local)) (t : Str)
      (writes : Writes block t) where
    pub scoped-Writes : (ts : List Expr) → Writes (scoped rust block ts) t
    unfolding tail
    scoped-Writes ts (g, buf) r =
        Gives-bind (writes (push_names g ts, buf) (record { kept = r.kept; empty = r.empty }))
          λ s d. Gives-at _ (pop_names-back g s.0 ts d.names) (
            gives (record {
              names = refl;
              ready = record { kept = d.ready.kept; empty = d.ready.empty };
              reads = d.reads;
            }))

    unless_by-Done :
        (input : Input Expr Local) (agrees : Agrees rust input.text_mode run) (e : S Expr)
        (o : Option Bool) (s : State Expr Local)
        → eval_bool rust e.t ≡ o
        → Ready true s.0
        → Gives
            (Done run true s (if run.truth e.t then [] else t))
            (unless_by rust block untrimmed e e.t o s)
    unfolding unless_by write_buf_writable tail out outs
    unless_by-Done input agrees e (some true) s q r =
        gives (Done-as run (rw (agrees.constant_truth e.t true q) refl) (stay-Done run s.0 s.1 r))
    unless_by-Done input agrees e (some false) s q r = Gives-bind (scoped-Writes [] s r) λ s' d.
        gives (
          Done-as run (append-nil t ∙ rw (agrees.constant_truth e.t false q) refl)
            (Done-then run d (handle_ws-Done run s'.0 s'.1)))
    unless_by-Done input agrees e none (g, buf) q r =
        let h = report g (Validator.unless rust e) in
        let rh : Ready true h = record { kept = r.kept; empty = r.empty } in
        let w = write-Done h buf rh in
        let start = write_buf_writable h buf in
        Gives-bind (scoped-Writes [] (start.0, Hirs.nil) w.ready) λ s d.
          let b = ended_lem t s (body_lem h t s rh d) in
          let k = handle_ws-Done run s.0 s.1 in
          let p =
            push-Done h (handle_ws s.0 untrimmed) start.1 _ (if run.truth e.t then [] else t) rh
              k.ready (k.names ∙ d.names)
              (rw (agrees.negated e.t, b) (negated_if (run.truth e.t) t)) in
          let q = Done-then run w p in
          gives (record { names = q.names; ready = q.ready; reads = q.reads })

    pub visit_unless-Done :
        (input : Input Expr Local) (agrees : Agrees rust input.text_mode run) (e : S Expr)
        (g : Generator Expr) (buf : Hirs Expr Local)
        → Left rust e.t
        → Gives
            (Done run true (g, buf) (if run.truth e.t then [] else t))
            (visit_unless rust block untrimmed untrimmed e (g, buf))
    unfolding visit_unless
    visit_unless-Done input agrees e g buf left =
        let h = handle_ws g untrimmed in
        let d = handle_ws-Done run g buf in
        Gives-at _ (visit_expr_lem run rust input agrees h e.t left) (
          Gives-map (λ s f. Done-then run d f)
            (unless_by-Done input agrees e (eval_bool rust e.t) (h, buf) refl d.ready))

    pub visit_with-Done :
        (input : Input Expr Local) (agrees : Agrees rust input.text_mode run) (e : S Expr)
        (g : Generator Expr) (buf : Hirs Expr Local)
        → Left rust e.t
        → Gives (Done run true (g, buf) t) (visit_with rust block untrimmed untrimmed e (g, buf))
    unfolding visit_with tail
    visit_with-Done input agrees e g buf left =
        let k = report g (Validator.scope rust e) in
        let h = handle_ws k untrimmed in
        let w = handle_ws-Done run k buf in
        let on = On.with_scope (len h.names.scp) in
        Gives-at _ (visit_expr_lem run rust input agrees h e.t left) (
          Gives-bind
            (writes (push_names (push_on h on) (e.t ∷ []), buf)
              (record { kept = w.ready.kept; empty = w.ready.empty }))
            λ s d.
              let names_back = ap (λ (n : Names Expr). record n { on = tail_on n.on }) d.names in
              let f = handle_ws-Done run (record s.0 { names = h.names }) s.1 in
              let m : Done run false (h, buf) t (record s.0 { names = h.names }, s.1) = record {
                names = refl;
                ready = record { kept = d.ready.kept; empty = d.ready.empty };
                reads = d.reads;
              } in
              let q = Done-as run (append-nil t) (Done-then run (Done-then run w m) f) in
              Gives-at _ (pop_names-back h (pop_on s.0) (e.t ∷ []) names_back)
                (gives (record { names = q.names; ready = q.ready; reads = q.reads })))
