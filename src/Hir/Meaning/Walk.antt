-- ===== src/Hir/Meaning/Walk.antt =====
-- The walk adds to the text read so far what the nodes render.
use yarte.Base.{
  Bool, true, false, [], ◌++◌, append-nil, Str, ◌≡◌, refl, ap, sym, ◌∙◌, if◌then◌else◌,
}
use yarte.Parser.Result.{Result, ok, ◌>>=◌}
use yarte.Parser.Syntax.{Span, Node, Nodes, Branches, branch, Else}
use yarte.Hir.Rust.{Names, Rust, Input}
use yarte.Hir.Generator.{Hirs, handle_ws, visit_lit}
use yarte.Hir.Chain.{Chain, finish_if}
use yarte.Hir.Blocks.{State, push_names}
use yarte.Hir.Lower.{handle_with, visit_node, visit_helper, visit_ifs, visit_els}
use yarte.Hir.Meaning.{
  Run, said, said_node, said_helper, said_ifs, said_els, trailing_node, trailing,
}
use yarte.Hir.Meaning.Simple.{
  untrimmed, Agrees, Simple, simple_nil, simple_lit, simple_expr, simple_safe, simple_raw,
  simple_unless, simple_with, simple_const, simple_if, SimpleIfs, simple_no_branch, simple_branch,
  SimpleEls, simple_no_else, simple_else_block,
}
use yarte.Hir.Meaning.Pending.{waiting}
use yarte.Hir.Meaning.Steps.{
  Ready, so_far, Done, Done-then, Done-as, handle_ws-Done, visit_lit-Done, visit_lit-waits,
}
use yarte.Hir.Meaning.Values.{visit_expr_lem, visit_written-Done}
use yarte.Hir.Meaning.Bodies.{Writes, visit_unless-Done, visit_with-Done}
use yarte.Hir.Meaning.Chains.{
  Stands, Ended, Stands-Ended, Written-last, write_chain-Written, take_branch-Stands,
  take_else-Ended,
}
use yarte.Hir.Meaning.Ifs.{
  IsConstant, closed-Stands, closed-IsConstant, finish_if-IsConstant, whole-Done,
  first_by-IsConstant, first_by-Stands, take_else-IsConstant,
}
use yarte.Hir.Yields.{Gives, gives, Gives-bind, Gives-at, Gives-map, Gives-else}

else_text :
    (v : Bool) (t u : Str)
    → (if v then (if v then t else []) else ((if v then t else []) ++ u)) ≡ (if v then t else u)
else_text true t u = refl
else_text false t u = refl

module _ {Expr Local : Type 0} (run : Run Expr) where
  -- The nodes are read, and what waits then is the white space at their end.
  pub record Reads (s : State Expr Local) (ns : Nodes Expr Local) (s' : State Expr Local)
      : Type 0 where
    pub done : Done run false s (said run ns) s'
    pub waits : waiting s'.0.next_ws ≡ trailing (waiting s.0.next_ws) ns

  then-Reads :
      {s s' : State Expr Local} {n : Node Expr Local} {sp : Span} {b : Bool} {ns : Nodes Expr Local}
      {r : Result (State Expr Local)}
      → Done run b s (said_node run n) s'
      → waiting s'.0.next_ws ≡ trailing_node n
      → Gives (Reads s' ns) r
      → Gives (Reads s (Nodes.cons n sp ns)) r
  unfolding said trailing
  then-Reads {n} {ns} d w h =
      Gives-map
        (λ s'' e. record {
          done = Done-then run d e.done;
          waits = e.waits ∙ ap (λ w. trailing w ns) w;
        })
        h

  -- A node behind which nothing waits.
  node-Reads :
      {s : State Expr Local} {n : Node Expr Local} {sp : Span} {ns : Nodes Expr Local}
      {r : Result (State Expr Local)} (f : State Expr Local → Result (State Expr Local))
      → trailing_node n ≡ []
      → Gives (Done run true s (said_node run n)) r
      → ((s' : State Expr Local) → Ready true s'.0 → Gives (Reads s' ns) (f s'))
      → Gives (Reads s (Nodes.cons n sp ns)) (r >>= f)
  node-Reads f e h k =
      Gives-bind h λ s' d. then-Reads d (rw (d.ready.empty refl, e) refl) (k s' d.ready)

  pub as-Writes :
      (body : Nodes Expr Local) (block : State Expr Local → Result (State Expr Local))
      → ((s : State Expr Local) → Ready true s.0 → Gives (Reads s body) (block s))
      → Writes run block (said run body)
  as-Writes body block h s r = Gives-map (λ s' d. d.done) (h s r)

module _ {Expr Local : Type 0} (run : Run Expr) (rust : Rust Expr Local) (input : Input Expr Local)
    (agrees : Agrees rust input.text_mode run)
    (deeper : Nodes Expr Local → State Expr Local → Result (State Expr Local)) where
  mutual
    unfolding trailing handle_with visit_node visit_helper visit_ifs visit_els said said_node
        said_helper said_ifs said_els

    pub handle_with-Reads :
        (b : Bool) (ns : Nodes Expr Local)
        → Simple rust b ns
        → (s : State Expr Local) → Ready b s.0
        → Gives (Reads run s ns) (handle_with rust input deeper ns s)
    handle_with-Reads b ns simple_nil s r = gives (record {
      done = record {
        names = refl;
        ready = record { kept = r.kept; empty = λ e. cc };
        reads = sym (append-nil (so_far run s));
      };
      waits = refl;
    })
    handle_with-Reads b ns (simple_lit {l} {s} {r} {sp} {ns = rest} p q) (g, buf) k =
        let d = visit_lit-Done run g buf l s r p k in
        then-Reads run d (visit_lit-waits g l s r p k) (handle_with-Reads false rest q _ d.ready)
    handle_with-Reads b ns (simple_expr {e} {ns = rest} left q) (g, buf) k =
        node-Reads run _ refl
          (Gives-bind (visit_written-Done run rust input agrees false e g buf left) λ g' d. gives d)
          (handle_with-Reads true rest q)
    handle_with-Reads b ns (simple_safe {e} {ns = rest} left q) (g, buf) k =
        node-Reads run _ refl
          (Gives-bind (visit_written-Done run rust input agrees true e g buf left) λ g' d. gives d)
          (handle_with-Reads true rest q)
    handle_with-Reads b ns (simple_raw {l} {s} {r} {ns = rest} p q) (g, buf) k =
        let d = handle_ws-Done run g buf in
        let f = visit_lit-Done run (handle_ws g untrimmed) buf l s r p d.ready in
        let h = handle_ws-Done run (visit_lit (handle_ws g untrimmed) l s.t r) buf in
        let whole =
          Done-as run (append-nil (l ++ s.t ++ r)) (Done-then run (Done-then run d f) h) in
        then-Reads run whole (rw (h.ready.empty refl) refl)
          (handle_with-Reads true rest q _ h.ready)
    handle_with-Reads b ns (simple_unless {e} {body} {ns = rest} left p q) (g, buf) k =
        node-Reads run _ refl
          (visit_unless-Done run rust (handle_with rust input deeper body) (said run body)
            (as-Writes run body (handle_with rust input deeper body)
              (handle_with-Reads true body p))
            input agrees e g buf left)
          (handle_with-Reads true rest q)
    handle_with-Reads b ns (simple_with {e} {body} {ns = rest} left p q) (g, buf) k =
        node-Reads run _ refl
          (visit_with-Done run rust (handle_with rust input deeper body) (said run body)
            (as-Writes run body (handle_with rust input deeper body)
              (handle_with-Reads true body p))
            input agrees e g buf left)
          (handle_with-Reads true rest q)
    handle_with-Reads b ns (simple_const {e} {v} {body} {els} {ns = rest} left c p o q) (g, buf) k =
        let opened = push_names g [] in
        let w = handle_ws-Done run opened buf in
        node-Reads run _ refl
          (Gives-at _ (visit_expr_lem run rust input agrees opened e.t left) (
            rw (c, agrees.constant_truth e.t v c)
              (Gives-bind
                (first_by-IsConstant run rust (handle_with rust input deeper body) (said run body)
                  (as-Writes run body (handle_with rust input deeper body)
                    (handle_with-Reads true body p))
                  e e.t v (handle_ws opened untrimmed, buf) w.ready)
                λ k s.
                  let z = closed-IsConstant run rust g buf _ v k s in
                  Gives-at _ z.0 (
                    Gives-map
                      (λ s' d. Done-as run (else_text v (said run body) (said_els run els)) d)
                      (visit_els-IsConstant els o (g, buf) _ v _ z.1)))))
          (handle_with-Reads true rest q)
    handle_with-Reads b ns (simple_if {e} {body} {ifs} {els} {ns = rest} left c p i o q) (g, buf)
          k =
        let opened = push_names g [] in
        let w = handle_ws-Done run opened buf in
        node-Reads run _ refl
          (Gives-at _ (visit_expr_lem run rust input agrees opened e.t left) (
            rw (c) (
              Gives-bind
                (first_by-Stands run rust (handle_with rust input deeper body) (said run body)
                  (as-Writes run body (handle_with rust input deeper body)
                    (handle_with-Reads true body p))
                  e e.t (handle_ws opened untrimmed) buf w.ready)
                λ k s.
                  let z = closed-Stands run rust g _ _ _ k w.names s in
                  Gives-at _ z.0 (
                    Gives-bind (visit_ifs-Stands ifs i _ _ _ _ z.1) λ k s.
                      Gives-bind (visit_els-Ended els o _ _ _ k s)
                        λ r d. gives (whole-Done run rust g buf _ r d)))))
          (handle_with-Reads true rest q)

    visit_ifs-Stands :
        (ifs : Branches Expr Local)
        → SimpleIfs rust ifs
        → (buf : Hirs Expr Local) (names : Names Expr) (f : Str → Str) (c : Chain Expr Local)
        → Stands run buf names f c
        → Gives
            (Stands run buf names (λ rest. f (said_ifs run ifs rest)))
            (visit_ifs rust input deeper ifs c)
    visit_ifs-Stands ifs simple_no_branch buf names f c s = gives s
    visit_ifs-Stands ifs (simple_branch {e} {body} left q p simple_no_branch) buf names f c s =
        let w = write_chain-Written run buf names f c s in
        Gives-else _ _ _ (Written-last run w) (
          take_branch-Stands run rust input agrees (handle_with rust input deeper body)
            (said run body)
            (as-Writes run body (handle_with rust input deeper body)
              (handle_with-Reads true body p))
            buf names f _ e true left q w)
    visit_ifs-Stands ifs
          (simple_branch {e} {body} left q p
            (simple_branch {e = e'} {body = body'} {ifs = more} left' q' p' i))
          buf names f c s =
        let w = write_chain-Written run buf names f c s in
        Gives-else _ _ _ (Written-last run w) (
          Gives-bind
            (take_branch-Stands run rust input agrees (handle_with rust input deeper body)
              (said run body)
              (as-Writes run body (handle_with rust input deeper body)
                (handle_with-Reads true body p))
              buf names f _ e false left q w)
            λ k s.
              visit_ifs-Stands (branch untrimmed e' body' more) (simple_branch left' q' p' i) buf
                names _ k s)

    visit_els-Ended :
        (els : Else Expr Local)
        → SimpleEls rust els
        → (buf : Hirs Expr Local) (names : Names Expr) (f : Str → Str) (c : Chain Expr Local)
        → Stands run buf names f c
        → Gives (Ended run buf names (f (said_els run els))) (visit_els rust input deeper els c)
    visit_els-Ended els simple_no_else buf names f c s = gives (Stands-Ended run buf names f c s)
    visit_els-Ended els (simple_else_block {body} p) buf names f c s =
        take_else-Ended run rust input agrees (handle_with rust input deeper body) (said run body)
          (as-Writes run body (handle_with rust input deeper body) (handle_with-Reads true body p))
          buf names f c s

    pub visit_els-IsConstant :
        (els : Else Expr Local)
        → SimpleEls rust els
        → (s : State Expr Local) (u : Str) (v : Bool) (c : Chain Expr Local)
        → IsConstant run rust s u v c
        → Gives (Done run true s (if v then u else (u ++ said_els run els))) (
            visit_els rust input deeper els c >>= λ r.
            ok (finish_if (record r.0 { g = handle_ws r.0.g untrimmed }) r.1))
    visit_els-IsConstant els simple_no_else s u true c k =
        gives (finish_if-IsConstant run rust s u true c k)
    visit_els-IsConstant els simple_no_else s u false c k =
        gives (Done-as run (sym (append-nil u)) (finish_if-IsConstant run rust s u false c k))
    visit_els-IsConstant els (simple_else_block {body} p) s u v c k =
        Gives-bind
          (take_else-IsConstant run rust (handle_with rust input deeper body) (said run body)
            (as-Writes run body (handle_with rust input deeper body)
              (handle_with-Reads true body p))
            s u v c k)
          λ r d. gives d
