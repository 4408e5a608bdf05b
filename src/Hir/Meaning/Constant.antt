-- ===== src/Hir/Meaning/Constant.antt =====
-- `visit_if` where every condition is constant.
use yarte.Base.{
  Bool, true, false, not, [], ◌++◌, append-nil, Option, some, Str, ◌≡◌, refl, sym, subst,
  if◌then◌else◌,
}
use yarte.Parser.Result.{Result}
use yarte.Parser.Syntax.{S, Nodes, Branches, no_branch, branch}
use yarte.Hir.Rust.{Rust, Input}
use yarte.Hir.Constants.{eval_bool}
use yarte.Hir.Generator.{Hirs, Generator, handle_ws}
use yarte.Hir.Chain.{Chain, write_chain}
use yarte.Hir.Blocks.{State, push_names, pop_names}
use yarte.Hir.Conditions.{chain_names, take_branch, branch_by, branch_true}
use yarte.Hir.Lower.{visit_ifs, handle_with}
use yarte.Hir.Meaning.{Run, said}
use yarte.Hir.Meaning.Simple.{untrimmed, Left, Agrees, Simple}
use yarte.Hir.Meaning.Pending.{tail}
use yarte.Hir.Meaning.Steps.{Done, Done-then, Done-as, Done-loosen, handle_ws-Done}
use yarte.Hir.Meaning.Values.{visit_expr_lem}
use yarte.Hir.Meaning.Bodies.{pop_names-back, Writes}
use yarte.Hir.Meaning.Ifs.{constant, IsConstant, is_constant}
use yarte.Hir.Meaning.Walk.{handle_with-Reads, as-Writes}
use yarte.Hir.Yields.{Gives, gives, Gives-bind, Gives-at, Gives-map}

module _ {Expr Local : Type 0} (run : Run Expr) (rust : Rust Expr Local) where
  -- What a further condition adds, by its value, and whether the rest of the chain is left out then.
  abbrev pub taken : Option Bool → Bool → Str → Str × Bool → Str × Bool
  taken (some true) stops t rest = (t, stops)
  taken _ stops t rest = rest

  -- The text of the first block whose condition is constantly true, and whether the `else` block is
  -- left out behind it: it is not where that block is the last one.
  unfoldable pub chosen : Branches Expr Local → Str × Bool
  chosen no_branch = ([], false)
  chosen (branch ws e b no_branch) = taken (eval_bool rust e.t) false (said run b) ([], false)
  chosen (branch ws e b (branch ws' e' b' rest)) =
      let later = chosen (branch ws' e' b' rest) in
      taken (eval_bool rust e.t) true (said run b) later

  pub data ConstantIfs : Branches Expr Local → Type 0 where
    no_condition : ConstantIfs no_branch
    condition :
        {e : S Expr} {v : Bool} {body : Nodes Expr Local} {ifs : Branches Expr Local}
        → Left rust e.t
        → eval_bool rust e.t ≡ some v
        → Simple rust true body
        → ConstantIfs ifs
        → ConstantIfs (branch untrimmed e body ifs)

  IsConstant-as :
      {s : State Expr Local} {t u : Str} {v : Bool} {c : Chain Expr Local}
      → t ≡ u
      → IsConstant run rust s t v c
      → IsConstant run rust s u v c
  IsConstant-as {s} {v} {c} e k = subst (λ t. IsConstant run rust s t v c) e k

  -- The marks of a further condition's tag trim nothing.
  waited :
      {s : State Expr Local} {u : Str} (s' : State Expr Local)
      → Done run false s u s'
      → Done run true s u (handle_ws s'.0 untrimmed, s'.1)
  waited {u} s' d = Done-as run (append-nil u) (Done-then run d (handle_ws-Done run s'.0 s'.1))

  -- The scope of a further condition is left.
  popped-IsConstant :
      (s : State Expr Local) (u t : Str) (v : Bool) (g : Generator Expr) (buf : Hirs Expr Local)
      (c : Chain Expr Local)
      → Done run true s u (g, buf)
      → IsConstant run rust (push_names g [], buf) t v c
      → Gives (IsConstant run rust s (u ++ t) v) (chain_names rust c pop_names)
  unfolding tail
  popped-IsConstant s u t v g buf c d (is_constant k f) =
      Gives-at _ (pop_names-back g k.0 [] f.names) (
        gives (
          is_constant (record k.0 { names = g.names }, k.1)
            (Done-then run d (record {
              names = refl;
              ready = record { kept = f.ready.kept; empty = f.ready.empty };
              reads = f.reads;
            }))))

  module _ (input : Input Expr Local) (agrees : Agrees rust input.text_mode run) where
    take_branch-IsConstant :
        (block : State Expr Local → Result (State Expr Local)) (t : Str)
        (writes : Writes run block t) (e : S Expr) (v is_last : Bool) (s s' : State Expr Local)
        (u : Str)
        → Left rust e.t
        → eval_bool rust e.t ≡ some v
        → Done run true s u s'
        → Gives
            (IsConstant run rust s (if v then u ++ t else u) (if v then not is_last else false))
            (take_branch rust block e is_last (constant run rust false s'))
    unfolding take_branch branch_by branch_true tail
    take_branch-IsConstant block t writes e true is_last s (g, buf) u left q d =
        Gives-at _ (visit_expr_lem run rust input agrees (push_names g []) e.t left) (
          rw (q) (
            let opened : State Expr Local = (push_names g [], buf) in
            let taken : Gives (IsConstant run rust opened t (not is_last))
                (branch_by rust block e e.t is_last (some true) (constant run rust false opened)) =
              Gives-bind (writes opened (record { kept = d.ready.kept; empty = d.ready.empty }))
                λ s f. gives (is_constant s f) in
            Gives-bind taken λ c f. popped-IsConstant s u t (not is_last) g buf c d f))
    take_branch-IsConstant block t writes e false is_last s (g, buf) u left q d =
        Gives-at _ (visit_expr_lem run rust input agrees (push_names g []) e.t left) (
          rw (q) (
            Gives-at _ (pop_names-back g (push_names g []) [] refl)
              (gives (is_constant (g, buf) (Done-loosen run d)))))

    module _ (deeper : Nodes Expr Local → State Expr Local → Result (State Expr Local)) where
      pub body-Writes :
          (body : Nodes Expr Local)
          → Simple rust true body
          → Writes run (handle_with rust input deeper body) (said run body)
      body-Writes body p =
          as-Writes run body (handle_with rust input deeper body)
            (handle_with-Reads run rust input agrees deeper true body p)

      -- The chain of a condition that was true is left as it is.
      pub visit_ifs-true :
          (ifs : Branches Expr Local)
          → ConstantIfs ifs
          → (s : State Expr Local) (u : Str) (c : Chain Expr Local) → IsConstant run rust s u true c
          → Gives (IsConstant run rust s u true) (visit_ifs rust input deeper ifs c)
      unfolding visit_ifs write_chain
      visit_ifs-true ifs no_condition s u c k = gives k
      visit_ifs-true ifs (condition left q p no_condition) s u c (is_constant s' d) =
          gives (is_constant (handle_ws s'.0 untrimmed, s'.1) (Done-loosen run (waited s' d)))
      visit_ifs-true ifs (condition left q p (condition left' q' p' i)) s u c (is_constant s' d) =
          gives (is_constant (handle_ws s'.0 untrimmed, s'.1) (Done-loosen run (waited s' d)))

      pub visit_ifs-false :
          (ifs : Branches Expr Local)
          → ConstantIfs ifs
          → (s : State Expr Local) (u : Str) (c : Chain Expr Local)
          → IsConstant run rust s u false c
          → Gives
              (IsConstant run rust s (u ++ (chosen ifs).0) (chosen ifs).1)
              (visit_ifs rust input deeper ifs c)
      unfolding visit_ifs write_chain chosen
      visit_ifs-false ifs no_condition s u c k = gives (IsConstant-as (sym (append-nil u)) k)
      visit_ifs-false ifs (condition {e} {v = true} {body} left q p no_condition) s u c
            (is_constant s' d) =
          rw (q) (
            take_branch-IsConstant (handle_with rust input deeper body) (said run body)
              (body-Writes body p) e true true s (handle_ws s'.0 untrimmed, s'.1) u left q
              (waited s' d))
      visit_ifs-false ifs (condition {e} {v = false} {body} left q p no_condition) s u c
            (is_constant s' d) =
          rw (q) (
            Gives-map (λ c k. IsConstant-as (sym (append-nil u)) k)
              (take_branch-IsConstant (handle_with rust input deeper body) (said run body)
                (body-Writes body p) e false true s (handle_ws s'.0 untrimmed, s'.1) u left q
                (waited s' d)))
      visit_ifs-false ifs
            (condition {e} {v = true} {body} left q p
              (condition {e = e'} {body = body'} {ifs = rest} left' q' p' i))
            s u c (is_constant s' d) =
          rw (q) (
            Gives-bind
              (take_branch-IsConstant (handle_with rust input deeper body) (said run body)
                (body-Writes body p) e true false s (handle_ws s'.0 untrimmed, s'.1) u left q
                (waited s' d))
              λ c k.
                visit_ifs-true (branch untrimmed e' body' rest) (condition left' q' p' i) s _ c k)
      visit_ifs-false ifs
            (condition {e} {v = false} {body} left q p
              (condition {e = e'} {body = body'} {ifs = rest} left' q' p' i))
            s u c (is_constant s' d) =
          rw (q) (
            Gives-bind
              (take_branch-IsConstant (handle_with rust input deeper body) (said run body)
                (body-Writes body p) e false false s (handle_ws s'.0 untrimmed, s'.1) u left q
                (waited s' d))
              λ c k.
                visit_ifs-false (branch untrimmed e' body' rest) (condition left' q' p' i) s u c k)
