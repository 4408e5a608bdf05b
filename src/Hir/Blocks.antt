-- ===== src/Hir/Blocks.antt =====
-- yarte_hir/src/lib.rs: what the generator does for each helper, around the walk over the nodes of
-- its block, `block`.
use yarte.Base.{Bool, true, false, List, [], ◌∷◌, Option, none, some, codes, if◌then◌else◌}
use yarte.Parser.Result.{Result, ok, panic, ◌>>=◌}
use yarte.Parser.Syntax.{Ws, S}
use yarte.Hir.Scope.{Scope, len, pop, push_scope, push_ident}
use yarte.Hir.Rust.{Kind, range, Value, On, Names, Rust}
use yarte.Hir.Validator
use yarte.Hir.Validator.{ErrorMessage}
use yarte.Hir.Generator.{
  Hir, Hirs, no_more, no_els, Generator, push, skip_ws, flush_ws, prepare_ws, handle_ws,
  write_buf_writable,
}
use yarte.Hir.Constants.{eval_bool, rounds}

abbrev pub tail_on : List On → List On
tail_on [] = []
tail_on (_ ∷ on) = on

abbrev pub State : Type 0 → Type 0 → Type 0
State Expr Local = Generator Expr × Hirs Expr Local

-- `read_attributes` is a `todo!` where there are any.
abbrev pub read_attributes : Bool → Result (Unit {0})
read_attributes true = panic
read_attributes false = ok tt

abbrev pub is_range : Kind → Bool
is_range range = true
is_range _ = false

module _ {Expr : Type 0} where
  abbrev pub with_names : Generator Expr → Names Expr → Generator Expr
  with_names g names = record g { names = names }

  abbrev pub push_names : Generator Expr → List Expr → Generator Expr
  push_names g t = record g { names = record g.names { scp = push_scope g.names.scp t } }

  abbrev pub pop_names : Generator Expr → Result (Generator Expr)
  pop_names g = do scp ← pop g.names.scp; ok (record g { names = record g.names { scp = scp } })

  abbrev pub push_on : Generator Expr → On → Generator Expr
  push_on g on = record g { names = record g.names { on = on ∷ g.names.on } }

  abbrev pub pop_on : Generator Expr → Generator Expr
  pop_on g = record g { names = record g.names { on = tail_on g.names.on } }

  abbrev pub report : Generator Expr → (List ErrorMessage → List ErrorMessage) → Generator Expr
  report g add = record g { errors = add g.errors }

module _ {Expr Local : Type 0} (rust : Rust Expr Local) where
  -- `self.visit_expr_mut(&mut expr)`.
  abbrev pub visit_expr : Generator Expr → Expr → Result (Generator Expr × Expr)
  visit_expr g e = do (names, e) ← rust.visit_expr g.names e; ok (record g { names = names }, e)

  -- A block in a scope of its own.
  abbrev pub scoped :
      (State Expr Local → Result (State Expr Local))
      → List Expr
      → State Expr Local
      → Result (State Expr Local)
  scoped block t (g, buf) = do (g, buf) ← block (push_names g t, buf); g ← pop_names g; ok (g, buf)

  -- The pattern of a loop and the expression that it runs over, for the names `i` and `v`.
  abbrev pub loop_args : Bool → Bool → Expr → Expr
  loop_args true true args = rust.enumerate_range args
  loop_args true false args = rust.enumerate args
  loop_args false true args = args
  loop_args false false args = rust.into_iter args

  -- The loop variables that `visit_each` declares: the scope, and the pattern.
  abbrev pub declare : Scope Expr → Bool → Scope Expr × Expr
  declare s loop_var =
      let (s, v) = push_ident rust.ident s (codes "__key_") in
      let (s', i) = push_ident rust.ident s (codes "__index_") in
      if loop_var then (s', rust.pair (rust.ident i) (rust.ident v)) else (s, rust.ident v)

  -- `const_iter`, over the scopes of its rounds.
  unfoldable pub const_rounds :
      (State Expr Local → Result (State Expr Local))
      → Ws
      → Ws
      → List (List Expr)
      → State Expr Local
      → Result (State Expr Local)
  const_rounds block ws0 ws1 [] s = ok s
  const_rounds block ws0 ws1 (t ∷ ts) (g, buf) = do
    (g, buf) ← scoped block t (prepare_ws g ws0, buf)
    const_rounds block ws0 ws1 ts (flush_ws g ws1, buf)

  unfoldable pub const_iter :
      (State Expr Local → Result (State Expr Local))
      → Ws
      → Ws
      → List (List Expr)
      → State Expr Local
      → Result (State Expr Local)
  unfolding const_rounds
  const_iter block ws0 ws1 ts (g, buf) = do
    (g, buf) ←
        const_rounds block ws0 ws1 ts (flush_ws (push_on g (On.each (len g.names.scp))) ws0, buf)
    ok (pop_on (prepare_ws g ws1), buf)

  -- `visit_each` over an expression that is not constant, already visited.
  unfoldable pub each_loop :
      (State Expr Local → Result (State Expr Local))
      → Ws
      → Ws
      → S Expr
      → Expr
      → Bool
      → State Expr Local
      → Result (State Expr Local)
  each_loop block ws0 ws1 sargs args loop_var (g, buf) = do
    let (g, buf) = write_buf_writable (handle_ws (report g (Validator.each rust sargs)) ws0) buf
    let id = len g.names.scp
    let (scp, pattern) = declare (push_scope g.names.scp []) loop_var
    (g, body) ←
        block (push_on (record g { names = record g.names { scp = scp } }) (On.each id), Hirs.nil)
    let (g, body) = write_buf_writable (handle_ws g ws1) body
    g ← pop_names (pop_on g)
    ok (g, push buf (Hir.each (loop_args loop_var (is_range (rust.kind args)) args) body pattern))

  -- `visit_with`.
  unfoldable pub visit_with :
      (State Expr Local → Result (State Expr Local))
      → Ws
      → Ws
      → S Expr
      → State Expr Local
      → Result (State Expr Local)
  visit_with block ws0 ws1 sargs (g, buf) = do
    (g, args) ← visit_expr (handle_ws (report g (Validator.scope rust sargs)) ws0) sargs.t
    (g, buf) ← block (push_names (push_on g (On.with_scope (len g.names.scp))) (args ∷ []), buf)
    g ← pop_names (pop_on g)
    ok (handle_ws g ws1, buf)

  -- `visit_unless`, by the value of the condition.
  unfoldable pub unless_by :
      (State Expr Local → Result (State Expr Local))
      → Ws
      → S Expr
      → Expr
      → Option Bool
      → State Expr Local
      → Result (State Expr Local)
  unless_by block ws1 scond cond (some true) s = ok s
  unless_by block ws1 scond cond (some false) s = do
    (g, buf) ← scoped block [] s
    ok (handle_ws g ws1, buf)
  unless_by block ws1 scond cond none (g, buf) = do
    let (g, buf) = write_buf_writable (report g (Validator.unless rust scond)) buf
    (g, body) ← scoped block [] (g, Hirs.nil)
    let (g, body) = write_buf_writable (handle_ws g ws1) body
    ok (g, push buf (Hir.if_else (rust.negate cond) body no_more no_els))

  unfoldable pub visit_unless :
      (State Expr Local → Result (State Expr Local))
      → Ws
      → Ws
      → S Expr
      → State Expr Local
      → Result (State Expr Local)
  unfolding unless_by
  visit_unless block ws0 ws1 scond (g, buf) = do
    (g, cond) ← visit_expr (handle_ws g ws0) scond.t
    unless_by block ws1 scond cond (eval_bool rust cond) (g, buf)

  -- `visit_each`, over the rounds if the expression is constant.
  unfoldable pub each_by :
      (State Expr Local → Result (State Expr Local))
      → Ws
      → Ws
      → S Expr
      → Expr
      → Bool
      → Option (List Value)
      → State Expr Local
      → Result (State Expr Local)
  unfolding const_iter each_loop
  each_by block ws0 ws1 sargs args loop_var none s = each_loop block ws0 ws1 sargs args loop_var s
  each_by block ws0 ws1 sargs args loop_var (some vs) s = do
    ts ← rounds rust loop_var 0 vs
    const_iter block ws0 ws1 ts s

  -- A declaration: what was read goes in front of it.
  unfoldable pub push_local : Local → State Expr Local → Result (State Expr Local)
  push_local e (g, buf) = do
    let (g, buf) = write_buf_writable (skip_ws g) buf
    (names, l) ← rust.visit_local g.names e
    ok (with_names g names, push buf (Hir.local l))
