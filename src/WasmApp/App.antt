-- ===== src/WasmApp/App.antt =====
-- yarte_wasm_app/src/lib.rs: an application, its address and the loop that delivers messages. The
-- queue is the list that WasmApp.Queue.Fifo shows it to be.
pub mod Reentry
pub mod Delivery
pub mod Settles
mod Tests
use yarte.Base.{ℕ, zero, suc, Bool, true, false, List, [], ◌∷◌, ◌++◌, if◌then◌else◌}

-- What the application's author provides, the trait `App`: each handler returns the application as
-- it leaves it and the messages that it sends through its address, in order. Handlers use the
-- address for `send` alone.
pub record App (A M : Type 0) : Type 0 where
  pub dispatch : A → M → A × List M
  pub render : A → A × List M
  pub hydrate : A → A × List M

-- `Context`; `borrowed` is the state of the `RefCell` around the application.
pub record Context (A M : Type 0) : Type 0 where
  pub app : A
  pub q : List M
  pub ready : Bool
  pub borrowed : Bool

-- `panic` is a failed assertion or a second `borrow_mut`; `out_of_fuel` has no counterpart in the
-- program.
pub data Outcome (S : Type 0) : Type 0 where
  ok : S → Outcome S
  panic out_of_fuel : Outcome S

infixl 5 ◌>>=◌
abbrev pub ◌>>=◌ : {S T : Type 0} → Outcome S → (S → Outcome T) → Outcome T
ok s >>= f = f s
panic >>= f = panic
out_of_fuel >>= f = out_of_fuel

module _ {A M : Type 0} where
  -- `Context::new`, by `__start`.
  unfoldable pub start : A → Context A M
  start a = record { app = a; q = []; ready = false; borrowed = false }

  -- `update`, over the loop that it runs when the context is ready.
  unfoldable pub update_by :
      (Context A M → Outcome (Context A M)) → Context A M → Outcome (Context A M)
  update_by loop ctx =
      if ctx.ready
      then (do c ← loop (record ctx { ready = false }); ok (record c { ready = true }))
      else ok ctx

  -- `push`.
  unfoldable pub push_by :
      (Context A M → Outcome (Context A M)) → Context A M → M → Outcome (Context A M)
  unfolding update_by
  push_by loop ctx m = update_by loop (record ctx { q = ctx.q ++ m ∷ [] })

  -- The messages that a handler sends.
  unfoldable pub sends_by :
      (Context A M → Outcome (Context A M)) → Context A M → List M → Outcome (Context A M)
  unfolding push_by
  sends_by loop ctx [] = ok ctx
  sends_by loop ctx (m ∷ ms) = do c ← push_by loop ctx m; sends_by loop c ms

  -- `self.0.app.borrow_mut().handler(..)`.
  unfoldable pub with_app :
      (Context A M → Outcome (Context A M)) → (A → A × List M) → Context A M → Outcome (Context A M)
  unfolding sends_by
  with_app loop handler ctx =
      if ctx.borrowed
      then panic
      else let (a, ms) = handler ctx.app in
        do
          c ← sends_by loop (record ctx { app = a; borrowed = true }) ms
          ok (record c { borrowed = false })

module _ {A M : Type 0} (app : App A M) where
  unfoldable mutual
    -- The outer loop of `update`: messages, then a rendering, until the queue stays empty.
    pub cycle : ℕ → Context A M → List M → Outcome (Context A M)
    cycle zero ctx q = out_of_fuel
    cycle (suc f) ctx [] = ok ctx
    cycle (suc f) ctx (m ∷ q) =
        with_app (λ c. cycle f c c.q) (λ a. app.dispatch a m) (record ctx { q = q }) >>= λ c.
        drain f c c.q >>= λ c. with_app (λ c. cycle f c c.q) app.render c >>= λ c. cycle f c c.q

    -- The inner loop: all the messages that are queued.
    pub drain : ℕ → Context A M → List M → Outcome (Context A M)
    drain zero ctx q = out_of_fuel
    drain (suc f) ctx [] = ok ctx
    drain (suc f) ctx (m ∷ q) =
        with_app (λ c. cycle f c c.q) (λ a. app.dispatch a m) (record ctx { q = q }) >>= λ c.
        drain f c c.q

  unfoldable pub update : ℕ → Context A M → Outcome (Context A M)
  update f = update_by (λ c. cycle f c c.q)

  -- `send`.
  unfoldable pub send : ℕ → Context A M → M → Outcome (Context A M)
  send f = push_by (λ c. cycle f c c.q)

  -- `hydrate`.
  unfoldable pub hydrate : ℕ → Context A M → Outcome (Context A M)
  unfolding update
  hydrate f ctx = if ctx.ready then panic else do
    c ← with_app (λ c. cycle f c c.q) app.hydrate ctx
    update f (record c { ready = true })
