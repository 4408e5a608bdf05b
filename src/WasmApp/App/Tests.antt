-- ===== src/WasmApp/App/Tests.antt =====
-- Concrete runs of an application that counts a message down.
use yarte.Base.{ℕ, zero, suc, ◌+◌, ◌≤◌, false, List, [], ◌∷◌, ◌++◌, ◌≡◌, refl, arith}
use yarte.WasmApp.App.{App, ok, panic, with_app, update, hydrate, start, cycle, update_by}
use yarte.WasmApp.App.Reentry.{busy, with_app-busy}
use yarte.WasmApp.App.Delivery.{
  Act, deliveries, Runs, Rounds, Ensures, idle, update-deliveries, hydrate-deliveries,
}
use yarte.WasmApp.App.Settles.{update_settles, cost}

abbrev down : ℕ → List ℕ
down zero = []
down (suc n) = n ∷ []

abbrev countdown : App ℕ ℕ
countdown = record {
  dispatch = λ a m. (a + m, down m);
  render = λ a. (a + 100, []);
  hydrate = λ a. (a, 2 ∷ []);
}

cost-down : (a m : ℕ) → cost (λ n. n) (down m) ≤ m
cost-down a zero = omega arith
cost-down a (suc n) = omega arith

with_app-busy_example :
    with_app (λ c. panic) (λ a. countdown.dispatch a 3) (busy 1 (7 ∷ []) false)
    ≡ ok (busy 4 (7 ∷ 2 ∷ []) false)
with_app-busy_example = with_app-busy (λ c. panic) (λ a. countdown.dispatch a 3) 1 (7 ∷ [])

update-deliveries_example :
    Ensures
      (λ d.
        (b : ℕ) × (log : List (Act ℕ)) × (sent : List ℕ) × (d ≡ idle countdown b [])
        × Runs countdown 0 (2 ∷ 0 ∷ []) log sent b []
        × Rounds log
        × (deliveries log ≡ (2 ∷ 0 ∷ []) ++ sent))
      (update countdown 20 (idle countdown 0 (2 ∷ 0 ∷ [])))
update-deliveries_example = update-deliveries countdown 20 0 (2 ∷ 0 ∷ [])

update_settles_example :
    (b : ℕ) × (update countdown 20 (idle countdown 0 (2 ∷ 0 ∷ [])) ≡ ok (idle countdown b []))
update_settles_example =
    update_settles countdown (λ n. n) cost-down (λ a. refl) 20 0 (2 ∷ 0 ∷ []) (omega arith)

hydrate-deliveries_example :
    (hydrate countdown 9 (start 5) ≡ update countdown 9 (idle countdown 5 (2 ∷ [])))
    × (hydrate countdown 9 (idle countdown 6 []) ≡ panic)
hydrate-deliveries_example = hydrate-deliveries countdown 9 5 6 []

counted : update countdown 20 (idle countdown 0 (2 ∷ [])) ≡ ok (idle countdown 103 [])
unfolding update cycle update_by with_app
counted = refl
