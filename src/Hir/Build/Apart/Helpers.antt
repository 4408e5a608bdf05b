-- ===== src/Hir/Build/Apart/Helpers.antt =====
-- The helpers keep the buffer closed if the walk over their blocks does.
use yarte.Base.{Bool, true, false, List, [], ◌∷◌, Option, none, some, ◌≡◌, refl, sym, subst}
use yarte.Parser.Result.{Result}
use yarte.Parser.Syntax.{Ws, S}
use yarte.Hir.Rust.{Rust, Value}
use yarte.Hir.Validator
use yarte.Hir.Generator.{Hirs, skip_ws, flush_ws, prepare_ws, handle_ws, write_buf_writable}
use yarte.Hir.Constants.{eval_bool, rounds}
use yarte.Hir.Chain.{Chain, add_block, write_block, write_chain, finish, finish_if}
use yarte.Hir.Blocks.{
  State, visit_expr, report, scoped, push_names, pop_names, const_rounds, const_iter, each_loop,
  visit_with, unless_by, visit_unless, each_by, push_local,
}
use yarte.Hir.Conditions.{first_by, branch_true, branch_by, take_branch, else_by, take_else}
use yarte.Hir.Build.{apart}
use yarte.Hir.Build.Apart.Buffer.{Closed, written-apart, push-Closed, write-push-Closed}
use yarte.Hir.Yields.{Yields, yields, Yields-bind, Yields-then, Yields-if}

module _ {Expr Local : Type 0} where
  abbrev pub ClosedState : State Expr Local → Type 0
  ClosedState s = Closed s.1

  abbrev pub Keeps : (State Expr Local → Result (State Expr Local)) → Type 0
  Keeps block = (s : State Expr Local) → Closed s.1 → Yields ClosedState (block s)

  -- The buffer of a chain: closed, unless a condition is read at run time, which is yet to be pushed.
  abbrev pub Held : Option (Expr × Hirs Expr Local) → Hirs Expr Local → Type 0
  Held none buf = Closed buf
  Held (some _) buf = apart buf ≡ true

  abbrev pub ClosedChain : Chain Expr Local → Type 0
  ClosedChain c = Held c.o_ifs c.buf

  Held-apart :
      (o : Option (Expr × Hirs Expr Local)) (buf : Hirs Expr Local) → Held o buf → apart buf ≡ true
  Held-apart none buf h = h.keeps
  Held-apart (some _) buf h = h

  pub write_block-Held :
      (c : Chain Expr Local) (a : Option (Hirs Expr Local)) (ps : List (Expr × Hirs Expr Local))
      (o : Option (Expr × Hirs Expr Local))
      → c.o_ifs ≡ o
      → ClosedChain c
      → ClosedChain (write_block c a ps o)
  write_block-Held c (some body) ps o e h = h
  write_block-Held c none (p ∷ ps) o e h = h
  write_block-Held c none [] (some (cond, body)) e h = Held-apart c.o_ifs c.buf h
  write_block-Held c none [] none e h = h

  pub write_chain-Held : (c : Chain Expr Local) → ClosedChain c → ClosedChain (write_chain c)
  unfolding write_chain
  write_chain-Held c h = write_block-Held c c.o_els c.if_else c.o_ifs refl h

  add_block-Held :
      (cond : Expr) (body : Hirs Expr Local) (o : Option (Expr × Hirs Expr Local))
      (c : Chain Expr Local)
      → c.o_ifs ≡ o
      → ClosedChain c
      → ClosedChain (add_block cond body o c)
  add_block-Held cond body none c e h = Held-apart c.o_ifs c.buf h
  add_block-Held cond body (some p) c e h = h

  finish-Closed :
      (c : Chain Expr Local) (o : Option (Expr × Hirs Expr Local))
      (ps : List (Expr × Hirs Expr Local)) (e : Option (Hirs Expr Local))
      → Held o c.buf
      → Closed (finish c o ps e).1
  finish-Closed c none ps e h = h
  finish-Closed c (some (cond, body)) ps (some e) h = push-Closed c.buf _ h refl
  finish-Closed c (some (cond, body)) (p ∷ ps) none h = push-Closed c.buf _ h refl
  finish-Closed c (some (cond, body)) [] none h = push-Closed c.buf _ h refl

  pub finish_if-Closed :
      (c : Chain Expr Local) (e : Option (Hirs Expr Local))
      → ClosedChain c
      → Closed (finish_if c e).1
  unfolding finish_if
  finish_if-Closed c e h = finish-Closed c c.o_ifs c.if_else e h

  module _ (rust : Rust Expr Local) (block : State Expr Local → Result (State Expr Local))
      (keeps : Keeps block) where
    pub scoped-Keeps : (t : List Expr) → Keeps (scoped rust block t)
    scoped-Keeps t (g, buf) c =
        Yields-bind (keeps (push_names g t, buf) c) λ s d. Yields-then (pop_names s.0) λ g. yields d

    const_rounds-Keeps :
        (ws0 ws1 : Ws) (ts : List (List Expr)) → Keeps (const_rounds rust block ws0 ws1 ts)
    unfolding const_rounds
    const_rounds-Keeps ws0 ws1 [] s c = yields c
    const_rounds-Keeps ws0 ws1 (t ∷ ts) (g, buf) c =
        Yields-bind (scoped-Keeps t (prepare_ws g ws0, buf) c)
          λ s d. const_rounds-Keeps ws0 ws1 ts (flush_ws s.0 ws1, s.1) d

    pub const_iter-Keeps :
        (ws0 ws1 : Ws) (ts : List (List Expr)) → Keeps (const_iter rust block ws0 ws1 ts)
    unfolding const_iter
    const_iter-Keeps ws0 ws1 ts (g, buf) c =
        Yields-bind (const_rounds-Keeps ws0 ws1 ts (_, buf) c) λ s d. yields d

    pub each_loop-Keeps :
        (ws0 ws1 : Ws) (sargs : S Expr) (args : Expr) (loop_var : Bool)
        → Keeps (each_loop rust block ws0 ws1 sargs args loop_var)
    unfolding each_loop
    each_loop-Keeps ws0 ws1 sargs args loop_var (g, buf) c = Yields-then (block _) λ s.
        Yields-then (pop_names _) λ g'.
          yields
            (write-push-Closed (handle_ws (report g (Validator.each rust sargs)) ws0) buf _ c refl)

    pub each_by-Keeps :
        (ws0 ws1 : Ws) (sargs : S Expr) (args : Expr) (loop_var : Bool) (o : Option (List Value))
        → Keeps (each_by rust block ws0 ws1 sargs args loop_var o)
    unfolding each_by
    each_by-Keeps ws0 ws1 sargs args loop_var none s c =
        each_loop-Keeps ws0 ws1 sargs args loop_var s c
    each_by-Keeps ws0 ws1 sargs args loop_var (some vs) s c =
        Yields-then (rounds rust loop_var 0 vs) λ ts. const_iter-Keeps ws0 ws1 ts s c

    pub push_local-Keeps : (e : Local) → Keeps (push_local rust e)
    unfolding push_local
    push_local-Keeps e (g, buf) c =
        Yields-then _ λ r. yields (write-push-Closed (skip_ws g) buf _ c refl)

    pub visit_with-Keeps :
        (ws0 ws1 : Ws) (sargs : S Expr) → Keeps (visit_with rust block ws0 ws1 sargs)
    unfolding visit_with
    visit_with-Keeps ws0 ws1 sargs (g, buf) c =
        Yields-then _
          λ r. Yields-bind (keeps (_, buf) c) λ s d. Yields-then (pop_names _) λ g'. yields d

    unless_by-Keeps :
        (ws1 : Ws) (scond : S Expr) (cond : Expr) (o : Option Bool)
        → Keeps (unless_by rust block ws1 scond cond o)
    unfolding unless_by
    unless_by-Keeps ws1 scond cond (some true) s c = yields c
    unless_by-Keeps ws1 scond cond (some false) s c =
        Yields-bind (scoped-Keeps [] s c) λ s' d. yields d
    unless_by-Keeps ws1 scond cond none (g, buf) c =
        Yields-then (scoped rust block [] _)
          λ s. yields (write-push-Closed (report g (Validator.unless rust scond)) buf _ c refl)

    pub visit_unless-Keeps :
        (ws0 ws1 : Ws) (scond : S Expr) → Keeps (visit_unless rust block ws0 ws1 scond)
    unfolding visit_unless
    visit_unless-Keeps ws0 ws1 scond (g, buf) c =
        Yields-then (visit_expr rust (handle_ws g ws0) scond.t)
          λ r. unless_by-Keeps ws1 scond r.1 (eval_bool rust r.1) (r.0, buf) c

    pub first_by-Held :
        (scond : S Expr) (cond : Expr) (o : Option Bool) (s : State Expr Local)
        → Closed s.1
        → Yields ClosedChain (first_by rust block scond cond o s)
    unfolding first_by write_buf_writable
    first_by-Held scond cond (some true) s c = Yields-bind (keeps s c) λ s' d. yields d
    first_by-Held scond cond (some false) s c = yields c
    first_by-Held scond cond none (g, buf) c =
        Yields-then (block _) λ s. yields (written-apart [] g.buf_w buf c)

    branch_true-Held :
        (l : Bool) (o : Option (Expr × Hirs Expr Local)) (c : Chain Expr Local)
        → c.o_ifs ≡ o
        → ClosedChain c
        → Yields ClosedChain (branch_true rust block l o c)
    unfolding branch_true
    branch_true-Held l none c e h =
        Yields-bind (keeps (c.g, c.buf) (subst (λ o. Held o c.buf) e h))
          λ s d. yields (subst (λ o. Held o s.1) (sym e) d)
    branch_true-Held l (some p) c e h = Yields-then (block _) λ s. yields h

    branch_by-Held :
        (scond : S Expr) (cond : Expr) (l : Bool) (v : Option Bool) (c : Chain Expr Local)
        → ClosedChain c
        → Yields ClosedChain (branch_by rust block scond cond l v c)
    unfolding branch_by
    branch_by-Held scond cond l (some false) c h = yields h
    branch_by-Held scond cond l (some true) c h = branch_true-Held l c.o_ifs c refl h
    branch_by-Held scond cond l none c h =
        Yields-then (block _)
          λ s. yields (add_block-Held cond s.1 c.o_ifs (record c { g = s.0 }) refl h)

    pub take_branch-Held :
        (scond : S Expr) (l : Bool) (c : Chain Expr Local)
        → ClosedChain c
        → Yields ClosedChain (take_branch rust block scond l c)
    unfolding take_branch
    take_branch-Held scond l c h = Yields-then (visit_expr rust (push_names c.g []) scond.t) λ r.
        Yields-bind (branch_by-Held scond r.1 l (eval_bool rust r.1) (record c { g = r.0 }) h)
          λ c' d. Yields-then (pop_names c'.g) λ g. yields d

    else_by-Held :
        (a : Option (Hirs Expr Local)) (o : Option (Expr × Hirs Expr Local)) (c : Chain Expr Local)
        → c.o_ifs ≡ o
        → ClosedChain c
        → Yields (λ r. ClosedChain r.0) (else_by rust block a o c)
    unfolding else_by
    else_by-Held (some body) o c e h = yields h
    else_by-Held none (some p) c e h = Yields-then (scoped rust block [] _) λ s. yields h
    else_by-Held none none c e h =
        Yields-bind (scoped-Keeps [] (c.g, c.buf) (subst (λ o. Held o c.buf) e h))
          λ s d. yields (subst (λ o. Held o s.1) (sym e) d)

    pub take_else-Held :
        (ws : Ws) (c : Chain Expr Local)
        → ClosedChain c
        → Yields (λ r. ClosedChain r.0) (take_else rust block ws c)
    unfolding take_else
    take_else-Held ws c h =
        let c' = write_chain (record c { g = handle_ws c.g ws }) in
        Yields-if c.last (yields h) (
          else_by-Held c'.o_els c'.o_ifs c' refl
            (write_chain-Held (record c { g = handle_ws c.g ws }) h))
