-- ===== src/WasmApp/App/Settles.antt =====
-- The loop of `update` ends where the handlers do not send messages for ever.
use yarte.Base.{ℕ, zero, suc, ◌+◌, ◌≤◌, ◌<◌, false, List, [], ◌∷◌, ◌++◌, ◌≡◌, refl, arith}
use yarte.WasmApp.App.{App, ok, ◌>>=◌, cycle, drain, update, update_by}
use yarte.WasmApp.App.Reentry.{busy, with_app-busy}
use yarte.WasmApp.App.Delivery.{idle}

-- The cost of a list of messages: one for each, and what the messages that it leads to cost.
abbrev pub cost : {M : Type 0} → (M → ℕ) → List M → ℕ
cost w [] = 0
cost w (m ∷ q) = suc (w m) + cost w q

cost-append : {M : Type 0} (w : M → ℕ) (q r : List M) → cost w (q ++ r) ≡ cost w q + cost w r
cost-append w [] r = omega arith
cost-append w (m ∷ q) r = omega (arith, cost-append w q r)

module _ {A M : Type 0} (app : App A M) (w : M → ℕ)
    (dispatch_bound : (a : A) (m : M) → cost w (app.dispatch a m).1 ≤ w m)
    (render_quiet : (a : A) → (app.render a).1 ≡ []) where
  drain_settles :
      (f : ℕ) (a : A) (q : List M)
      → cost w q < f
      → (b : A) × (drain app f (busy a q false) q ≡ ok (busy b [] false))
  unfolding drain
  drain_settles zero a q h = absurd (omega arith)
  drain_settles (suc f) a [] h = (a, refl)
  drain_settles (suc f) a (m ∷ q) h = rw with_app-busy (
      drain_settles f (app.dispatch a m).0 (q ++ (app.dispatch a m).1)
        (omega (arith, cost-append w q (app.dispatch a m).1, dispatch_bound a m)))

  cycle_settles :
      (f : ℕ) (a : A) (q : List M)
      → cost w q + 1 < f
      → (b : A) × (cycle app f (busy a q false) q ≡ ok (busy b [] false))
  unfolding cycle
  cycle_settles zero a q h = absurd (omega arith)
  cycle_settles (suc f) a [] h = (a, refl)
  cycle_settles (suc zero) a (m ∷ q) h = absurd (omega arith)
  cycle_settles (suc (suc f)) a (m ∷ q) h =
      let (b, e) =
        drain_settles (suc f) (app.dispatch a m).0 (q ++ (app.dispatch a m).1)
          (omega (arith, cost-append w q (app.dispatch a m).1, dispatch_bound a m)) in
      ((app.render b).0, rw (with_app-busy, e, with_app-busy, render_quiet b) refl)

  -- If each message leads to boundedly many others, `w` of it at most, and a rendering sends none,
  -- `update` returns: fuel above the cost of the queue and one is enough.
  pub update_settles :
      (f : ℕ) (a : A) (q : List M)
      → cost w q + 1 < f
      → (b : A) × (update app f (idle app a q) ≡ ok (idle app b []))
  unfolding update update_by
  update_settles f a q h = let (b, e) = cycle_settles f a q h in (b, rw (e, ◌>>=◌))
