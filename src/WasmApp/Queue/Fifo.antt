-- ===== src/WasmApp/Queue/Fifo.antt =====
-- The queue on the heap is a first-in first-out list, and owns exactly the nodes of its list.
use yarte.Base.{
  ℕ, true, ◌||◌, Option, none, some, List, [], ◌∷◌, ◌++◌, ◌≡◌, subst, append-nil, append_assoc, ◌⊎◌,
  inl, inr, refl, sym, ap, ◌∙◌, arith, ◌==◌, Bool-cases,
}
use yarte.WasmApp.Queue.{Queue, write, new, push, pop, ◌>>=◌}
use yarte.WasmApp.Queue.Chain.{
  Cells, has, Chain, Chain-holds, Chain-last, Chain-linked, Chain-taken, has-append, free-ne,
  linked, taken,
}

-- The queue's calls, one behind the other, each with what it was given or what it returned.
pub data Event (T : Type 0) : Type 0 where
  pushed : T → Event T
  popped : Option T → Event T

module _ {T : Type 0} where
  -- The queue holds the messages of `cs`, in order, in the nodes at the addresses of `cs`, behind a
  -- stub without a value; and the heap has no other node.
  pub record IsQueue (q : Queue T) (cs : Cells T) : Type 0 where
    pub chain : Chain q.heap q.tail none cs q.head
    pub owns : (a : ℕ) → (q.heap a ≡ none) ⊎ ((q.tail == a || has a cs) ≡ true)

  pub new-IsQueue : (stub : ℕ) → IsQueue (new {T = T} (λ _. none) stub) []
  unfolding new
  new-IsQueue stub = record {
    chain = ground arith;
    owns = λ a. elim (Bool-cases (stub == a)) [
      | inl e ↦ inr (ground arith)
      | inr e ↦ inl (rw (e, write))
    ];
  }

  -- A push, at any address that the allocator may return, succeeds and appends the message.
  pub push-IsQueue :
      (n : ℕ) (t : T) (q : Queue T) (cs : Cells T)
      → IsQueue q cs
      → q.heap n ≡ none
      → (q' : Queue T) × (push n t q ≡ some q') × IsQueue q' (cs ++ (n, t) ∷ [])
  unfolding push
  push-IsQueue n t q cs r free =
      let (w, last, i) = Chain-last q.heap q.tail none cs q.head r.chain in
      let ne = free-ne q.heap n q.head free last in
      (
        record { heap = linked q.heap q.head n t w; head = n; tail = q.tail },
        rw (ne, write, last, ◌>>=◌),
        record {
          chain = Chain-linked q.heap q.tail none cs q.head n t w free last r.chain;
          owns = λ a. ground (arith, r.owns a, has-append a cs n t);
        },
      )

  pop_empty : (q : Queue T) → IsQueue q [] → pop q ≡ some (q, none)
  unfolding pop
  pop_empty q r = rw (r.chain.1, ◌>>=◌)

  pop-IsQueue :
      (n : ℕ) (t : T) (q : Queue T) (cs : Cells T)
      → IsQueue q ((n, t) ∷ cs)
      → (q' : Queue T) × (pop q ≡ some (q', some t)) × IsQueue q' cs
  unfolding pop
  pop-IsQueue n t q cs r =
      let (stub, fresh, rest) = r.chain in
      let (next, holds) = Chain-holds q.heap n (some t) cs q.head rest in
      (
        record { heap = taken q.heap q.tail n next; head = q.head; tail = n },
        rw (stub, ◌>>=◌, holds),
        record {
          chain = Chain-taken q.heap q.tail n next t cs q.head fresh holds rest;
          owns = λ a. ground (arith, r.owns a);
        },
      )

  abbrev pub first : Cells T → Option T
  first [] = none
  first ((_, t) ∷ _) = some t

  abbrev pub behind : Cells T → Cells T
  behind [] = []
  behind (_ ∷ cs) = cs

  -- A pop never faults: it returns the first message and leaves the others, or returns nothing and
  -- leaves the queue empty.
  pub pop-first :
      (q : Queue T) (cs : Cells T)
      → IsQueue q cs
      → (q' : Queue T) × (pop q ≡ some (q', first cs)) × IsQueue q' (behind cs)
  pop-first q [] r = (q, pop_empty q r, r)
  pop-first q ((n, t) ∷ cs) r = pop-IsQueue n t q cs r

  pub data Run : Queue T → List (Event T) → Queue T → Type 0 where
    stop : {q : Queue T} → Run q [] q
    pushing :
        {q q' r : Queue T} {es : List (Event T)} (n : ℕ) (t : T)
        → q.heap n ≡ none
        → push n t q ≡ some q'
        → Run q' es r
        → Run q (pushed t ∷ es) r
    popping :
        {q q' r : Queue T} {es : List (Event T)} (o : Option T)
        → pop q ≡ some (q', o)
        → Run q' es r
        → Run q (popped o ∷ es) r

  abbrev pub given : List (Event T) → List T
  given [] = []
  given (pushed t ∷ es) = t ∷ given es
  given (popped _ ∷ es) = given es

  abbrev pub returned : List (Event T) → List T
  returned [] = []
  returned (pushed _ ∷ es) = returned es
  returned (popped none ∷ es) = returned es
  returned (popped (some t) ∷ es) = t ∷ returned es

  abbrev pub messages : Cells T → List T
  messages [] = []
  messages ((_, t) ∷ cs) = t ∷ messages cs

  messages-append :
      (cs : Cells T) (n : ℕ) (t : T) → messages (cs ++ (n, t) ∷ []) ≡ messages cs ++ t ∷ []
  messages-append [] n t = refl
  messages-append ((_, x) ∷ cs) n t = ap (◌∷◌ x) (messages-append cs n t)

  pop_trace :
      (xs : List T) (es : List (Event T)) (cs : Cells T) (o : Option T)
      → first cs ≡ o
      → messages (behind cs) ++ given es ≡ returned es ++ xs
      → messages cs ++ given es ≡ returned (popped o ∷ es) ++ xs
  pop_trace xs es [] none v h = h
  pop_trace xs es [] (some x) v h = cc
  pop_trace xs es (c ∷ cs) none v h = cc
  pop_trace xs es ((n, t) ∷ cs) (some x) v h =
      let same : t ≡ x = cc in rw same (ap (λ ys. x ∷ ys) h)

  Run-IsQueue :
      {q r : Queue T} {es : List (Event T)} (cs : Cells T)
      → IsQueue q cs
      → Run q es r
      → (ds : Cells T) × IsQueue r ds × (messages cs ++ given es ≡ returned es ++ messages ds)
  Run-IsQueue cs i stop = (cs, i, append-nil (messages cs))
  Run-IsQueue {q} cs i (pushing {q' = q'} {es = es} n t free e run) =
      let (p, e', j) = push-IsQueue n t q cs i free in
      let same : p ≡ q' = cc in
      let (ds, k, eq) =
        Run-IsQueue (cs ++ (n, t) ∷ []) (subst (λ x. IsQueue x (cs ++ (n, t) ∷ [])) same j) run in
      (
        ds,
        k,
        sym (append_assoc (messages cs) (t ∷ []) (given es))
            ∙ ap (λ x. x ++ given es) (sym (messages-append cs n t))
            ∙ eq,
      )
  Run-IsQueue {q} cs i (popping {q' = q'} {es = es} o e run) =
      let (p, e', j) = pop-first q cs i in
      let same : p ≡ q' = cc in
      let value : first cs ≡ o = cc in
      let (ds, k, eq) = Run-IsQueue (behind cs) (subst (λ x. IsQueue x (behind cs)) same j) run in
      (ds, k, pop_trace (messages ds) es cs o value eq)

  -- Through any calls of a new queue, what the pops have returned, followed by what the queue still
  -- holds, is what was pushed, in the order of the pushes.
  pub Run-fifo :
      (stub : ℕ) {r : Queue T} {es : List (Event T)}
      → Run (new (λ _. none) stub) es r
      → (ds : Cells T) × IsQueue r ds × (given es ≡ returned es ++ messages ds)
  Run-fifo stub run = Run-IsQueue [] (new-IsQueue stub) run
