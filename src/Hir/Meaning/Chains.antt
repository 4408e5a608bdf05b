-- ===== src/Hir/Meaning/Chains.antt =====
-- A chain of conditions that are all read at run time, while it is read.
use yarte.Base.{
  Bool, true, false, List, [], ◌∷◌, ◌++◌, Option, none, some, Str, ◌≡◌, refl, ap, subst, ◌∙◌,
  if◌then◌else◌,
}
use yarte.Parser.Result.{Result}
use yarte.Parser.Syntax.{S}
use yarte.Hir.Rust.{Names, Rust, Input}
use yarte.Hir.Validator
use yarte.Hir.Generator.{Hirs, Generator, handle_ws}
use yarte.Hir.Constants.{eval_bool}
use yarte.Hir.Chain.{Chain, emptied, write_last, write_chain, to_if_elses, finish_if}
use yarte.Hir.Blocks.{State, report, push_names, pop_names}
use yarte.Hir.Conditions.{chain_names, branch_by, take_branch, else_by, take_else}
use yarte.Hir.Meaning.{Run, out, outs, out_more}
use yarte.Hir.Meaning.Simple.{untrimmed, Agrees, Left}
use yarte.Hir.Meaning.Pending.{pend, tail, pend-handle_ws, outs-write}
use yarte.Hir.Meaning.Steps.{Ready, Done, handle_ws-Done}
use yarte.Hir.Meaning.Values.{visit_expr_lem}
use yarte.Hir.Meaning.Bodies.{pop_names-back, Writes, push-Done, body_lem, ended_lem, scoped-Writes}
use yarte.Hir.Yields.{Gives, gives, Gives-bind, Gives-at}

module _ {Expr Local : Type 0} where
  abbrev pub chain :
      Generator Expr
      → Hirs Expr Local
      → Expr × Hirs Expr Local
      → List (Expr × Hirs Expr Local)
      → Chain Expr Local
  chain g buf p ps = record {
    g = g;
    buf = buf;
    last = false;
    o_ifs = some p;
    if_else = ps;
    o_els = none;
  }

module _ {Expr Local : Type 0} (run : Run Expr) where
  -- The body of the first condition that holds, or else the text given.
  unfoldable pub branches : List (Expr × Hirs Expr Local) → Str → Str
  branches [] rest = rest
  branches ((e, body) ∷ ps) rest = if run.truth e then outs run body else branches ps rest

  -- The same, with `t` behind the last body.
  unfoldable pub held : Str → Expr × Hirs Expr Local → List (Expr × Hirs Expr Local) → Str → Str
  held t (e, body) [] rest = if run.truth e then outs run body ++ t else rest
  held t (e, body) (q ∷ ps) rest = if run.truth e then outs run body else held t q ps rest

  out_more-to_if_elses :
      (ps : List (Expr × Hirs Expr Local)) (rest : Str)
      → out_more run (to_if_elses ps) rest ≡ branches ps rest
  unfolding out_more branches
  out_more-to_if_elses [] rest = refl
  out_more-to_if_elses ((e, body) ∷ ps) rest = rw (out_more-to_if_elses ps rest) refl

  held-write_last :
      (g : Generator Expr) (p : Expr × Hirs Expr Local) (ps : List (Expr × Hirs Expr Local))
      (rest : Str)
      → branches (write_last g (p ∷ ps)) rest ≡ held (pend run g.buf_w) p ps rest
  unfolding branches held
  held-write_last g (e, body) [] rest = rw (outs-write run g body) refl
  held-write_last g (e, body) (q ∷ ps) rest = rw (held-write_last g q ps rest) refl

  held-append :
      (t : Str) (p : Expr × Hirs Expr Local) (ps : List (Expr × Hirs Expr Local)) (e : Expr)
      (body : Hirs Expr Local) (rest : Str)
      → held t p (ps ++ (e, body) ∷ []) rest
        ≡ branches (p ∷ ps) (if run.truth e then outs run body ++ t else rest)
  unfolding branches held
  held-append t (d, b) [] e body rest = refl
  held-append t (d, b) (q ∷ ps) e body rest = rw (held-append t q ps e body rest) refl

  -- The chain renders `f rest`, where `rest` is what its end renders.
  pub data Stands (buf : Hirs Expr Local) (names : Names Expr) (f : Str → Str)
      : Chain Expr Local → Type 0 where
    stands :
        (g : Generator Expr) (p : Expr × Hirs Expr Local) (ps : List (Expr × Hirs Expr Local))
        → g.names ≡ names
        → ((rest : Str) → held (tail run g) p ps rest ≡ f rest)
        → Stands buf names f (chain g buf p ps)

  -- The same, where what was read is written.
  pub data Written (buf : Hirs Expr Local) (names : Names Expr) (f : Str → Str)
      : Chain Expr Local → Type 0 where
    is_written :
        (g : Generator Expr) (p : Expr × Hirs Expr Local) (ps : List (Expr × Hirs Expr Local))
        → g.names ≡ names
        → Ready true g
        → ((rest : Str) → branches (p ∷ ps) rest ≡ f rest)
        → Written buf names f (chain (emptied g) buf p ps)

  pub write_chain-Written :
      (buf : Hirs Expr Local) (names : Names Expr) (f : Str → Str) (c : Chain Expr Local)
      → Stands buf names f c
      → Written buf names f (write_chain (record c { g = handle_ws c.g untrimmed }))
  unfolding write_chain
  write_chain-Written buf names f c (stands g (e, body) [] n h) =
      let d = handle_ws-Done run g buf in
      is_written (handle_ws g untrimmed) _ [] (d.names ∙ n) d.ready λ rest.
        held-write_last (handle_ws g untrimmed) (e, body) [] rest
        ∙ ap (λ t. held t (e, body) [] rest) (pend-handle_ws run g)
        ∙ h rest
  write_chain-Written buf names f c (stands g (e, body) (q ∷ ps) n h) =
      let d = handle_ws-Done run g buf in
      is_written (handle_ws g untrimmed) _ _ (d.names ∙ n) d.ready λ rest.
        held-write_last (handle_ws g untrimmed) (e, body) (q ∷ ps) rest
        ∙ ap (λ t. held t (e, body) (q ∷ ps) rest) (pend-handle_ws run g)
        ∙ h rest

  pub Written-last :
      {buf : Hirs Expr Local} {names : Names Expr} {f : Str → Str} {c : Chain Expr Local}
      → Written buf names f c
      → c.last ≡ false
  Written-last (is_written g p ps n r h) = refl

  -- The chain with the body of its `else` block, if it has one; it renders `u`.
  pub data Ended (buf : Hirs Expr Local) (names : Names Expr) (u : Str)
      : Chain Expr Local × Option (Hirs Expr Local) → Type 0 where
    without :
        (g : Generator Expr) (p : Expr × Hirs Expr Local) (ps : List (Expr × Hirs Expr Local))
        → g.names ≡ names
        → held (tail run g) p ps [] ≡ u
        → Ended buf names u (chain g buf p ps, none)
    with_body :
        (g : Generator Expr) (p : Expr × Hirs Expr Local) (ps : List (Expr × Hirs Expr Local))
        (body : Hirs Expr Local)
        → g.names ≡ names
        → branches (p ∷ ps) (outs run body ++ tail run g) ≡ u
        → Ended buf names u (chain g buf p ps, some body)

  pub Stands-Ended :
      (buf : Hirs Expr Local) (names : Names Expr) (f : Str → Str) (c : Chain Expr Local)
      → Stands buf names f c
      → Ended buf names (f []) (c, none)
  Stands-Ended buf names f c (stands g p ps n h) = without g p ps n (h [])

  -- The end of `visit_if` adds what the chain renders.
  pub finish_if-Done :
      (g : Generator Expr) (buf : Hirs Expr Local) (u : Str)
      (r : Chain Expr Local × Option (Hirs Expr Local))
      → Ready true g
      → Ended buf g.names u r
      → Done run true
          (emptied g, buf)
          u
          (finish_if (record r.0 { g = handle_ws r.0.g untrimmed }) r.1)
  unfolding finish_if out branches held
  finish_if-Done g buf u r k (without h (e, body) [] n q) =
      let d = handle_ws-Done run h buf in
      push-Done run g (handle_ws h untrimmed) buf _ u k d.ready (d.names ∙ n) (
        held-write_last (handle_ws h untrimmed) (e, body) [] []
        ∙ ap (λ t. held t (e, body) [] []) (pend-handle_ws run h)
        ∙ q)
  finish_if-Done g buf u r k (without h (e, body) (p ∷ ps) n q) =
      let d = handle_ws-Done run h buf in
      push-Done run g (handle_ws h untrimmed) buf _ u k d.ready (d.names ∙ n) (
        ap (λ x. if run.truth e then outs run body else x)
          (out_more-to_if_elses (write_last (handle_ws h untrimmed) (p ∷ ps)) []
            ∙ held-write_last (handle_ws h untrimmed) p ps []
            ∙ ap (λ t. held t p ps []) (pend-handle_ws run h))
        ∙ q)
  finish_if-Done g buf u r k (with_body h (e, body) ps body' n q) =
      let d = handle_ws-Done run h buf in
      push-Done run g (handle_ws h untrimmed) buf _ u k d.ready (d.names ∙ n) (
        ap (λ x. if run.truth e then outs run body else x)
          (out_more-to_if_elses ps _
            ∙ ap (branches ps) (ended_lem run (outs run body' ++ tail run h) (h, body') refl))
        ∙ q)

  module _ (rust : Rust Expr Local) where
    pop-Stands :
        (buf : Hirs Expr Local) (g : Generator Expr) (f : Str → Str) (c : Chain Expr Local)
        → Stands buf (push_names g []).names f c
        → Gives (Stands buf g.names f) (chain_names rust c pop_names)
    unfolding tail
    pop-Stands buf g f c (stands k p ps n h) =
        Gives-at _ (pop_names-back g k [] n)
          (gives (stands (record k { names = g.names }) p ps refl h))

  module _ (rust : Rust Expr Local) (input : Input Expr Local)
      (agrees : Agrees rust input.text_mode run)
      (block : State Expr Local → Result (State Expr Local)) (t : Str)
      (writes : Writes run block t) where
    branch_by-Stands :
        (g : Generator Expr) (buf : Hirs Expr Local) (p : Expr × Hirs Expr Local)
        (ps : List (Expr × Hirs Expr Local)) (f : Str → Str) (e : S Expr) (l : Bool)
        → Ready true g
        → ((rest : Str) → branches (p ∷ ps) rest ≡ f rest)
        → Gives
            (Stands buf g.names (λ rest. f (if run.truth e.t then t else rest)))
            (branch_by rust block e e.t l none (chain (emptied g) buf p ps))
    unfolding branch_by
    branch_by-Stands g buf p ps f e l r h =
        let k = report g (Validator.ifs rust e) in
        let rk : Ready true k = record { kept = r.kept; empty = r.empty } in
        Gives-bind (writes (emptied k, Hirs.nil) (record { kept = r.kept; empty = r.empty })) λ s d.
          let b = body_lem run k t s rk d in
          gives (
            stands s.0 p (ps ++ (e.t, s.1) ∷ []) d.names λ rest.
              held-append (tail run s.0) p ps e.t s.1 rest
              ∙ ap (λ u. branches (p ∷ ps) (if run.truth e.t then u else rest)) b
              ∙ h (if run.truth e.t then t else rest))

    pub take_branch-Stands :
        (buf : Hirs Expr Local) (names : Names Expr) (f : Str → Str) (c : Chain Expr Local)
        (e : S Expr) (l : Bool)
        → Left rust e.t
        → eval_bool rust e.t ≡ none
        → Written buf names f c
        → Gives
            (Stands buf names (λ rest. f (if run.truth e.t then t else rest)))
            (take_branch rust block e l c)
    unfolding take_branch
    take_branch-Stands buf names f c e l left q (is_written g p ps n r h) =
        subst
          (λ names.
            Gives (Stands buf names (λ rest. f (if run.truth e.t then t else rest)))
              (take_branch rust block e l (chain (emptied g) buf p ps)))
          n
          (Gives-at _ (visit_expr_lem run rust input agrees (push_names (emptied g) []) e.t left) (
            rw (q) (
              Gives-bind
                (branch_by-Stands (push_names g []) buf p ps f e l
                  (record { kept = r.kept; empty = r.empty }) h)
                λ c' s. pop-Stands rust buf (emptied g) _ c' s)))

    else_by-Ended :
        (buf : Hirs Expr Local) (names : Names Expr) (f : Str → Str) (c : Chain Expr Local)
        → Written buf names f c
        → Gives (Ended buf names (f t)) (else_by rust block c.o_els c.o_ifs c)
    unfolding else_by
    else_by-Ended buf names f c (is_written g p ps n r h) =
        Gives-bind
          (scoped-Writes run rust block t writes [] (emptied g, Hirs.nil)
            (record { kept = r.kept; empty = r.empty }))
          λ s d. gives (
            with_body s.0 p ps s.1 (d.names ∙ n)
              (ap (branches (p ∷ ps)) (body_lem run g t s r d) ∙ h t))

    pub take_else-Ended :
        (buf : Hirs Expr Local) (names : Names Expr) (f : Str → Str) (c : Chain Expr Local)
        → Stands buf names f c
        → Gives (Ended buf names (f t)) (take_else rust block untrimmed c)
    unfolding take_else
    take_else-Ended buf names f c (stands g p ps n h) =
        else_by-Ended buf names f _
          (write_chain-Written buf names f (chain g buf p ps) (stands g p ps n h))
