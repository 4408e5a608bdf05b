-- ===== src/WasmApp/Queue/DropFault.antt =====
-- `Drop for Queue`.
use yarte.Base.{ℕ, suc, none, ◌≡◌, arith}
use yarte.WasmApp.Queue.{Queue, found, fault, drop}
use yarte.WasmApp.Queue.Chain.{Cells, Chain-holds}
use yarte.WasmApp.Queue.Fifo.{IsQueue}

-- Dropping a queue reads freed memory, whatever the queue holds: the loop keeps a pointer to the
-- field `next` of a node, frees the node, and reads the field.
pub drop-fault :
    {T : Type 0} (fuel : ℕ) (q : Queue T) (cs : Cells T) → IsQueue q cs → drop (suc fuel) q ≡ fault
unfolding drop
drop-fault fuel q cs r =
    let (next, holds) = Chain-holds q.heap q.tail none cs q.head r.chain in
    rw (holds, found) (ground arith)
