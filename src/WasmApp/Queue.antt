-- ===== src/WasmApp/Queue.antt =====
-- yarte_wasm_app/src/queue.rs: the message queue, a linked list of nodes on a heap. The first node
-- is a stub whose value has been taken.
pub mod Chain
pub mod Fifo
pub mod DropFault
mod Tests
use yarte.Base.{ℕ, zero, suc, Bool, true, false, Option, none, some, ◌==◌, if◌then◌else◌}

-- A pointer is an address, and the null pointer is `none`.
pub record Node (T : Type 0) : Type 0 where
  pub next : Option ℕ
  pub value : Option T

abbrev pub Heap : Type 0 → Type 0
Heap T = ℕ → Option (Node T)

abbrev pub write : {T : Type 0} → Heap T → ℕ → Option (Node T) → Heap T
write h p c a = if p == a then c else h a

pub record Queue (T : Type 0) : Type 0 where
  pub heap : Heap T
  pub head : ℕ
  pub tail : ℕ

-- A run, or `none` for a fault: an access through a pointer to no node, a `debug_assert!` or an
-- `unwrap` that fails.
infixl 5 ◌>>=◌
abbrev pub ◌>>=◌ : {A B : Type 0} → Option A → (A → Option B) → Option B
none >>= f = none
some a >>= f = f a

abbrev pub assert : {A : Type 0} → Bool → Option A → Option A
assert true r = r
assert false r = none

abbrev pub is_some : {A : Type 0} → Option A → Bool
is_some none = false
is_some (some _) = true

abbrev pub is_none : {A : Type 0} → Option A → Bool
is_none none = true
is_none (some _) = false

-- The end of a `drop`.
pub data Dropped (T : Type 0) : Type 0 where
  dropped : Heap T → Dropped T
  fault out_of_fuel : Dropped T

abbrev pub found : {T : Type 0} → Option (Node T) → (Node T → Dropped T) → Dropped T
found none k = fault
found (some n) k = k n

module _ {T : Type 0} where
  -- `Queue::new`; the allocator returns the address `stub`.
  unfoldable pub new : Heap T → ℕ → Queue T
  new h stub = record {
    heap = write h stub (some (record { next = none; value = none }));
    head = stub;
    tail = stub;
  }

  -- `push`; the allocator returns the address `n` for the new node.
  unfoldable pub push : ℕ → T → Queue T → Option (Queue T)
  push n t q =
      let h = write q.heap n (some (record { next = none; value = some t })) in
      do
        prev ← h q.head
        some (record {
          heap = write h q.head (some (record { next = some n; value = prev.value }));
          head = n;
          tail = q.tail;
        })

  -- The branch of `pop` with a next node, at address `next`; `stub` is the node at the tail.
  unfoldable pub pop_next : Queue T → Node T → ℕ → Option (Queue T × Option T)
  pop_next q stub next = do
    node ← q.heap next
    assert (is_none stub.value) (
        assert (is_some node.value) (
          let h = write q.heap next (some (record { next = node.next; value = none })) in
          some (record { heap = write h q.tail none; head = q.head; tail = next }, node.value)))

  unfoldable pub pop : Queue T → Option (Queue T × Option T)
  unfolding pop_next
  pop q = do
    stub ← q.heap q.tail
    elim stub.next [ none ↦ some (q, none) | some next ↦ pop_next q stub next ]

  -- The loop of `drop`: `next` points into the node at `cur`, and is read when that is freed.
  unfoldable pub drop_loop : ℕ → Heap T → Option ℕ → Dropped T
  drop_loop fuel h none = dropped h
  drop_loop zero h (some cur) = out_of_fuel
  drop_loop (suc fuel) h (some cur) =
      let freed = write h cur none in
      found (h cur) λ _. found (freed cur) λ after. drop_loop fuel freed after.next

  -- `Drop::drop`.
  unfoldable pub drop : ℕ → Queue T → Dropped T
  unfolding drop_loop
  drop fuel q = drop_loop fuel q.heap (some q.tail)
