-- ===== src/WasmApp/Queue/Tests.antt =====
-- Concrete runs of the queue.
use yarte.Base.{
  ℕ, Option, none, some, List, [], ◌∷◌, ◌++◌, ◌≡◌, refl, true, ◌⊎◌, inl, inr, ◌||◌, Bool-cases,
  arith, ◌==◌,
}
use yarte.WasmApp.Queue.{Node, Queue, write, new, push, pop, fault, drop}
use yarte.WasmApp.Queue.Chain.{has}
use yarte.WasmApp.Queue.Fifo.{
  IsQueue, new-IsQueue, push-IsQueue, pop-first, pushed, Run, stop, pushing, given, returned,
  messages, Run-fifo,
}
use yarte.WasmApp.Queue.DropFault.{drop-fault}

abbrev node : Option ℕ → Option ℕ → Option (Node ℕ)
node n v = some (record { next = n; value = v })

-- The queue after one push at address 5.
abbrev one : Queue ℕ
one = record {
  heap =
      write (write (write (λ _. none) 1 (node none none)) 5 (node none (some 42))) 1
        (node (some 5) none);
  head = 5;
  tail = 1;
}

push-IsQueue_example :
    (q : Queue ℕ) × (push 5 42 (new (λ _. none) 1) ≡ some q) × IsQueue q ((5, 42) ∷ [])
push-IsQueue_example = push-IsQueue 5 42 (new (λ _. none) 1) [] (new-IsQueue 1) (unfold new in refl)

one-IsQueue : IsQueue one ((5, 42) ∷ [])
one-IsQueue = record { chain = ground arith; owns = λ a. owned a }
  where
    owned : (a : ℕ) → (one.heap a ≡ none) ⊎ ((one.tail == a || has {T = ℕ} a ((5, 42) ∷ [])) ≡ true)
    owned a = elim (Bool-cases (1 == a)) [
      | inl e ↦ inr (ground arith)
      | inr e ↦ elim (Bool-cases (5 == a)) [
        | inl f ↦ inr (ground arith)
        | inr f ↦ inl (rw (e, write, f) refl)
      ]
    ]

pop-first_example : (q : Queue ℕ) × (pop one ≡ some (q, some 42)) × IsQueue q []
pop-first_example = pop-first one ((5, 42) ∷ []) one-IsQueue

drop-fault_example : drop 3 one ≡ fault
drop-fault_example = drop-fault 2 one ((5, 42) ∷ []) one-IsQueue

one_push : Run (new (λ _. none) 1) (pushed 42 ∷ []) one
unfolding push new
one_push = pushing 5 42 refl refl stop

Run-fifo_example :
    (ds : List (ℕ × ℕ)) × IsQueue one ds
    × (given (pushed 42 ∷ []) ≡ returned (pushed 42 ∷ []) ++ messages ds)
Run-fifo_example = Run-fifo 1 one_push
