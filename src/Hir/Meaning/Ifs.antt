-- ===== src/Hir/Meaning/Ifs.antt =====
-- The first condition of `visit_if`: the chain that it begins, or the block that it picks.
use yarte.Base.{
  Bool, true, false, [], ◌++◌, append_assoc, append-nil, Option, none, some, Str, ◌≡◌, refl, ap,
  ◌∙◌, if◌then◌else◌,
}
use yarte.Parser.Result.{Result, ok}
use yarte.Parser.Syntax.{S}
use yarte.Hir.Rust.{Names, Rust}
use yarte.Hir.Validator
use yarte.Hir.Generator.{Hirs, Generator, handle_ws, write_buf_writable}
use yarte.Hir.Chain.{Chain, emptied, write_chain, finish_if}
use yarte.Hir.Blocks.{State, report, push_names, pop_names}
use yarte.Hir.Conditions.{first_by, else_by, take_else}
use yarte.Hir.Meaning.{Run}
use yarte.Hir.Meaning.Simple.{untrimmed}
use yarte.Hir.Meaning.Pending.{tail}
use yarte.Hir.Meaning.Steps.{
  Ready, so_far, Done, Done-then, Done-as, Done-loosen, stay-Done, handle_ws-Done,
}
use yarte.Hir.Meaning.Bodies.{pop_names-back, Writes, write-Done, body_lem, scoped-Writes}
use yarte.Hir.Meaning.Chains.{held, Stands, stands, Ended, finish_if-Done}
use yarte.Hir.Yields.{Gives, gives, Gives-bind}

module _ {Expr Local : Type 0} (run : Run Expr) (rust : Rust Expr Local) where
  -- The chain of a condition that is constantly `v`.
  abbrev pub constant : Bool → State Expr Local → Chain Expr Local
  constant v s = record { g = s.0; buf = s.1; last = v; o_ifs = none; if_else = []; o_els = none }

  pub data IsConstant (s : State Expr Local) (t : Str) (v : Bool) : Chain Expr Local → Type 0 where
    is_constant : (s' : State Expr Local) → Done run false s t s' → IsConstant s t v (constant v s')

  -- The scope of the first condition is left.
  pub closed-Done :
      (g : Generator Expr) (buf : Hirs Expr Local) (t : Str) (s : State Expr Local)
      → Done run false (handle_ws (push_names g []) untrimmed, buf) t s
      → (pop_names s.0 ≡ ok (record s.0 { names = g.names }))
        × Done run false (g, buf) t (record s.0 { names = g.names }, s.1)
  unfolding tail
  closed-Done g buf t s d =
      let w = handle_ws-Done run (push_names g []) buf in
      (
        pop_names-back g s.0 [] (d.names ∙ w.names),
        record {
          names = refl;
          ready = record { kept = d.ready.kept; empty = d.ready.empty };
          reads = (Done-then run w d).reads;
        },
      )

  pub closed-Stands :
      (g : Generator Expr) (buf : Hirs Expr Local) (names : Names Expr) (f : Str → Str)
      (c : Chain Expr Local)
      → names ≡ (push_names g []).names
      → Stands run buf names f c
      → (pop_names c.g ≡ ok (record c.g { names = g.names }))
        × Stands run buf g.names f (record c { g = record c.g { names = g.names } })
  unfolding tail
  closed-Stands g buf names f c e (stands k p ps n h) =
      (pop_names-back g k [] (n ∙ e), stands (record k { names = g.names }) p ps refl h)

  pub closed-IsConstant :
      (g : Generator Expr) (buf : Hirs Expr Local) (t : Str) (v : Bool) (c : Chain Expr Local)
      → IsConstant (handle_ws (push_names g []) untrimmed, buf) t v c
      → (pop_names c.g ≡ ok (record c.g { names = g.names }))
        × IsConstant (g, buf) t v (record c { g = record c.g { names = g.names } })
  closed-IsConstant g buf t v c (is_constant s d) =
      let z = closed-Done g buf t s d in
      (z.0, is_constant (record s.0 { names = g.names }, s.1) z.1)

  -- What the chain adds is added to what was read in front of it.
  pub whole-Done :
      (g : Generator Expr) (buf : Hirs Expr Local) (u : Str)
      (r : Chain Expr Local × Option (Hirs Expr Local))
      → Ended run (write_buf_writable (handle_ws (push_names g []) untrimmed) buf).1 g.names u r
      → Done run true (g, buf) u (finish_if (record r.0 { g = handle_ws r.0.g untrimmed }) r.1)
  unfolding tail write_buf_writable
  whole-Done g buf u r e =
      let k = handle_ws (push_names g []) untrimmed in
      let w = handle_ws-Done run (push_names g []) buf in
      let start = write-Done run k buf w.ready in
      let fin =
        finish_if-Done run (record k { names = g.names }) (write_buf_writable k buf).1 u r
          (record { kept = w.ready.kept; empty = w.ready.empty }) e in
      record {
        names = fin.names;
        ready = fin.ready;
        reads =
            fin.reads
            ∙ ap (λ x. x ++ u) (Done-then run w start).reads
            ∙ append_assoc (so_far run (g, buf)) [] u;
      }

  -- No `else` block behind a constant condition.
  pub finish_if-IsConstant :
      (s : State Expr Local) (u : Str) (v : Bool) (c : Chain Expr Local)
      → IsConstant s u v c
      → Done run true s u (finish_if (record c { g = handle_ws c.g untrimmed }) none)
  unfolding finish_if
  finish_if-IsConstant s u v c (is_constant s' d) =
      Done-as run (append-nil u) (Done-then run d (handle_ws-Done run s'.0 s'.1))

  module _ (block : State Expr Local → Result (State Expr Local)) (t : Str)
      (writes : Writes run block t) where
    pub first_by-IsConstant :
        (e : S Expr) (cond : Expr) (v : Bool) (s : State Expr Local)
        → Ready true s.0
        → Gives (IsConstant s (if v then t else []) v) (first_by rust block e cond (some v) s)
    unfolding first_by
    first_by-IsConstant e cond true (g, buf) r =
        Gives-bind (writes (g, buf) r) λ s d. gives (is_constant s d)
    first_by-IsConstant e cond false (g, buf) r =
        gives (is_constant (g, buf) (Done-loosen run (stay-Done run g buf r)))

    -- The chain of a condition that is read at run time.
    pub first_by-Stands :
        (e : S Expr) (cond : Expr) (g : Generator Expr) (buf : Hirs Expr Local)
        → Ready true g
        → Gives
            (Stands run
              (write_buf_writable g buf).1
              g.names
              (λ rest. if run.truth cond then t else rest))
            (first_by rust block e cond none (g, buf))
    unfolding first_by write_buf_writable held
    first_by-Stands e cond g buf r =
        let k = report g (Validator.ifs rust e) in
        let rk : Ready true k = record { kept = r.kept; empty = r.empty } in
        Gives-bind (writes (emptied k, Hirs.nil) (record { kept = r.kept; empty = r.empty })) λ s d.
          gives (
            stands s.0 (cond, s.1) [] d.names
              λ rest. ap (λ u. if run.truth cond then u else rest) (body_lem run k t s rk d))

    -- The `else` block behind a constant condition.
    pub take_else-IsConstant :
        (s : State Expr Local) (u : Str) (v : Bool) (c : Chain Expr Local)
        → IsConstant s u v c
        → Gives
            (λ r.
              Done run true s
                (if v then u else u ++ t)
                (finish_if (record r.0 { g = handle_ws r.0.g untrimmed }) r.1))
            (take_else rust block untrimmed c)
    unfolding take_else write_chain else_by finish_if
    take_else-IsConstant s u true c (is_constant s' d) =
        gives (Done-as run (append-nil u) (Done-then run d (handle_ws-Done run s'.0 s'.1)))
    take_else-IsConstant s u false c (is_constant s' d) =
        let w = handle_ws-Done run s'.0 s'.1 in
        Gives-bind
          (scoped-Writes run rust block t writes [] (handle_ws s'.0 untrimmed, s'.1) w.ready)
          λ k f. gives (
            Done-as run (rw (append-nil u, append-nil t) refl)
              (Done-then run (Done-then run d w) (Done-then run f (handle_ws-Done run k.0 k.1))))
