-- ===== src/Hir/Build/Balanced/At.antt =====
-- A generator whose names are those of another, with what was declared in the innermost scope.
use yarte.Base.{List, [], ◌∷◌, Option, none, some, Str, ◌≡◌, ap}
use yarte.Parser.Result.{Result}
use yarte.Hir.Scope.{pop, push_scope}
use yarte.Hir.Rust.{Rust, On, Names}
use yarte.Hir.Generator.{Generator, Hirs}
use yarte.Hir.Chain.{Chain, add_block, write_block, write_chain, finish, finish_if}
use yarte.Hir.Blocks.{State, pop_names, pop_on, tail_on}
use yarte.Hir.Extends.{Extends, Extends-self, Extends-then, pops-extended, Extends-restored}
use yarte.Hir.Yields.{Yields, yields}

-- The visitor of names declares them in the innermost scope only.
pub record KeepsScopes {Expr Local : Type 0} (rust : Rust Expr Local) : Type 0 where
  pub exprs : (m : Names Expr) (e : Expr) → Yields (λ r. Extends m r.0) (rust.visit_expr m e)
  pub locals : (m : Names Expr) (e : Local) → Yields (λ r. Extends m r.0) (rust.visit_local m e)

module _ {Expr : Type 0} where
  -- The names are those of `m`, with what was declared, and the file is `path`.
  pub record At (m : Names Expr) (path : Str) (g : Generator Expr) : Type 0 where
    pub names : Extends m g.names
    pub path_is : g.on_path ≡ path

  pub At-self : (path : Str) (g : Generator Expr) → g.on_path ≡ path → At g.names path g
  At-self path g e = record { names = Extends-self g.names; path_is = e }

  -- The scope that was pushed is popped.
  pub pop_names-At :
      (m : Names Expr) (path : Str) (n : Names Expr) (xs : List Expr) (h : Generator Expr)
      → Extends m n
      → At (record n { scp = push_scope n.scp xs }) path h
      → Yields (At m path) (pop_names h)
  unfolding pop
  pop_names-At m path n xs h e a = rw ((pops-extended n.scp h.names.scp xs a.names.scp_extends).1) (
      yields (record {
        names = Extends-then e (Extends-restored n h.names xs a.names);
        path_is = a.path_is;
      }))

  -- The helper that was entered is left.
  pub pop_on-At :
      (n : Names Expr) (path : Str) (o : On) (h : Generator Expr)
      → At (record n { on = o ∷ n.on }) path h
      → At n path (pop_on h)
  pop_on-At n path o h a = record {
    names = record {
      on_is = ap tail_on a.names.on_is;
      partial_is = a.names.partial_is;
      scp_extends = a.names.scp_extends;
    };
    path_is = a.path_is;
  }

module _ {Expr Local : Type 0} where
  abbrev pub Keeps : (State Expr Local → Result (State Expr Local)) → Type 0
  Keeps block =
      (m : Names Expr) (path : Str) (s : State Expr Local)
      → At m path s.0
      → Yields (λ r. At m path r.0) (block s)

  pub write_block-At :
      (m : Names Expr) (path : Str) (c : Chain Expr Local) (a : Option (Hirs Expr Local))
      (ps : List (Expr × Hirs Expr Local)) (o : Option (Expr × Hirs Expr Local))
      → At m path c.g
      → At m path (write_block c a ps o).g
  write_block-At m path c (some body) ps o h = record { names = h.names; path_is = h.path_is }
  write_block-At m path c none (p ∷ ps) o h = record { names = h.names; path_is = h.path_is }
  write_block-At m path c none [] (some p) h = record { names = h.names; path_is = h.path_is }
  write_block-At m path c none [] none h = h

  pub write_chain-At :
      (m : Names Expr) (path : Str) (c : Chain Expr Local)
      → At m path c.g
      → At m path (write_chain c).g
  unfolding write_chain
  write_chain-At m path c h = write_block-At m path c c.o_els c.if_else c.o_ifs h

  pub add_block-At :
      (m : Names Expr) (path : Str) (cond : Expr) (body : Hirs Expr Local)
      (o : Option (Expr × Hirs Expr Local)) (c : Chain Expr Local)
      → At m path c.g
      → At m path (add_block cond body o c).g
  add_block-At m path cond body none c h = h
  add_block-At m path cond body (some p) c h = h

  pub finish-At :
      (m : Names Expr) (path : Str) (c : Chain Expr Local) (o : Option (Expr × Hirs Expr Local))
      (ps : List (Expr × Hirs Expr Local)) (e : Option (Hirs Expr Local))
      → At m path c.g
      → At m path (finish c o ps e).0
  finish-At m path c none ps e h = h
  finish-At m path c (some p) ps (some e) h = record { names = h.names; path_is = h.path_is }
  finish-At m path c (some p) (q ∷ ps) none h = record { names = h.names; path_is = h.path_is }
  finish-At m path c (some p) [] none h = record { names = h.names; path_is = h.path_is }

  pub finish_if-At :
      (m : Names Expr) (path : Str) (c : Chain Expr Local) (e : Option (Hirs Expr Local))
      → At m path c.g
      → At m path (finish_if c e).0
  unfolding finish_if
  finish_if-At m path c e h = finish-At m path c c.o_ifs c.if_else e h
