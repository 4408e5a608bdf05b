-- ===== src/WasmApp/App/Delivery.antt =====
-- `update` against a loop over the application and a list of messages alone, with a log of what
-- runs.
use yarte.Base.{
  ℕ, zero, suc, true, false, List, [], ◌∷◌, ◌++◌, map, append_assoc, append-nil, ◌≡◌, refl, sym, ap,
  ◌∙◌, subst,
}
use yarte.WasmApp.App.{
  App, Context, Outcome, ok, panic, out_of_fuel, ◌>>=◌, cycle, drain, update, update_by, start,
  hydrate,
}
use yarte.WasmApp.App.Reentry.{busy, with_app-busy}

-- What runs in the application.
pub data Act (M : Type 0) : Type 0 where
  delivered : M → Act M
  rendered : Act M

-- The messages delivered, in order.
abbrev pub deliveries : {M : Type 0} → List (Act M) → List M
deliveries [] = []
deliveries (delivered m ∷ acts) = m ∷ deliveries acts
deliveries (rendered ∷ acts) = deliveries acts

module _ {A M : Type 0} (app : App A M) where
  -- `Runs a q log sent b r`: from application `a` with the messages `q`, the acts of `log` lead to
  -- `b` with the messages `r`, and `sent` are the messages that they send, in order. Messages are
  -- taken from the front.
  pub data Runs : A → List M → List (Act M) → List M → A → List M → Type 0 where
    stay : {a : A} {q : List M} → Runs a q [] [] a q
    deliver :
        {a b : A} {m : M} {q sent r : List M} {log : List (Act M)}
        → Runs (app.dispatch a m).0 (q ++ (app.dispatch a m).1) log sent b r
        → Runs a (m ∷ q) (delivered m ∷ log) ((app.dispatch a m).1 ++ sent) b r
    render :
        {a b : A} {q sent r : List M} {log : List (Act M)}
        → Runs (app.render a).0 (q ++ (app.render a).1) log sent b r
        → Runs a q (rendered ∷ log) ((app.render a).1 ++ sent) b r

  -- Whatever is queued or sent is delivered once, in that order, or still queued.
  pub Runs-deliveries :
      {a b : A} {q r sent : List M} {log : List (Act M)}
      → Runs a q log sent b r
      → deliveries log ++ r ≡ q ++ sent
  Runs-deliveries {q = q} stay = sym (append-nil q)
  Runs-deliveries (deliver {a = a} {m = m} {q = q} {sent = sent} run) =
      ap (λ x. m ∷ x) (Runs-deliveries run ∙ append_assoc q (app.dispatch a m).1 sent)
  Runs-deliveries (render {a = a} {q = q} {sent = sent} run) =
      Runs-deliveries run ∙ append_assoc q (app.render a).1 sent

  Runs-trans :
      {a b c : A} {q r s sent sent' : List M} {log log' : List (Act M)}
      → Runs a q log sent b r
      → Runs b r log' sent' c s
      → Runs a q (log ++ log') (sent ++ sent') c s
  Runs-trans stay k = k
  Runs-trans {c = c} {s = s} {sent' = sent'} {log' = log'}
        (deliver {a = a} {b = b} {m = m} {q = q} {sent = sent} {r = r} {log = log} run) k =
      subst (λ x. Runs a (m ∷ q) (delivered m ∷ (log ++ log')) x c s)
        (sym (append_assoc (app.dispatch a m).1 sent sent')) (deliver (Runs-trans run k))
  Runs-trans {c = c} {s = s} {sent' = sent'} {log' = log'}
        (render {a = a} {b = b} {q = q} {sent = sent} {r = r} {log = log} run) k =
      subst (λ x. Runs a q (rendered ∷ (log ++ log')) x c s)
        (sym (append_assoc (app.render a).1 sent sent')) (render (Runs-trans run k))

-- The acts come in rounds: some messages, at least one, and then a rendering.
pub data Rounds {M : Type 0} : List (Act M) → Type 0 where
  nothing : Rounds []
  round :
      (m : M) (ms : List M) {log : List (Act M)}
      → Rounds log
      → Rounds (delivered m ∷ (map delivered ms ++ rendered ∷ log))

-- The run does not panic, and `P` holds of what it returns, if it returns within its fuel.
abbrev pub Ensures : {S : Type 0} → (S → Type 0) → Outcome S → Type 0
Ensures P (ok s) = P s
Ensures P panic = ⊥
Ensures P out_of_fuel = Unit

Ensures-bind :
    {S T : Type 0} (P : S → Type 0) (Q : T → Type 0) (r : Outcome S) (f : S → Outcome T)
    → Ensures P r
    → ((s : S) → P s → Ensures Q (f s))
    → Ensures Q (r >>= f)
Ensures-bind P Q (ok s) f h k = k s h
Ensures-bind P Q panic f h k = h
Ensures-bind P Q out_of_fuel f h k = tt

Ensures-weaken :
    {S : Type 0} (P Q : S → Type 0) (r : Outcome S)
    → Ensures P r
    → ((s : S) → P s → Q s)
    → Ensures Q r
Ensures-weaken P Q (ok s) h k = k s h
Ensures-weaken P Q panic h k = h
Ensures-weaken P Q out_of_fuel h k = tt

module _ {A M : Type 0} (app : App A M) where
  abbrev Drained : A → List M → Context A M → Type 0
  Drained a q d =
      (b : A) × (ms : List M) × (sent : List M) × (d ≡ busy b [] false)
      × Runs app a q (map delivered ms) sent b []

  drain-Drained :
      (f : ℕ) (a : A) (q : List M) → Ensures (Drained a q) (drain app f (busy a q false) q)
  unfolding drain
  drain-Drained zero a q = tt
  drain-Drained (suc f) a [] = (a, [], [], refl, stay)
  drain-Drained (suc f) a (m ∷ q) = rw with_app-busy (
      Ensures-weaken (Drained (app.dispatch a m).0 (q ++ (app.dispatch a m).1)) (Drained a (m ∷ q))
        _ (drain-Drained f (app.dispatch a m).0 (q ++ (app.dispatch a m).1))
        λ d (b, ms, sent, e, run). (b, m ∷ ms, (app.dispatch a m).1 ++ sent, e, deliver run))

  -- What `update` does from the application `a` with the messages `q`.
  abbrev pub Delivers : A → List M → Context A M → Type 0
  Delivers a q d =
      (b : A) × (log : List (Act M)) × (sent : List M) × (d ≡ busy b [] false)
      × Runs app a q log sent b []
      × Rounds log

  cycle-Delivers :
      (f : ℕ) (a : A) (q : List M) → Ensures (Delivers a q) (cycle app f (busy a q false) q)
  unfolding cycle
  cycle-Delivers zero a q = tt
  cycle-Delivers (suc f) a [] = (a, [], [], refl, stay, nothing)
  cycle-Delivers (suc f) a (m ∷ q) =
      let a₁ = (app.dispatch a m).0 in
      let q₁ = q ++ (app.dispatch a m).1 in
      rw with_app-busy (
        Ensures-bind (Drained a₁ q₁) (Delivers a (m ∷ q)) (drain app f (busy a₁ q₁ false) q₁) _
          (drain-Drained f a₁ q₁)
          λ d (b, ms, sent, e, run).
            rw (e, with_app-busy)
              (Ensures-weaken (Delivers (app.render b).0 (app.render b).1) (Delivers a (m ∷ q)) _
                (cycle-Delivers f (app.render b).0 (app.render b).1)
                λ d' (c, log, sent', e', run', rounds). (
                  c,
                  delivered m ∷ (map delivered ms ++ rendered ∷ log),
                  _,
                  e',
                  Runs-trans app (deliver run) (render run'),
                  round m ms rounds,
                )))

  -- A context between two calls.
  abbrev pub idle : A → List M → Context A M
  idle a q = record { app = a; q = q; ready = true; borrowed = false }

  -- `update` of a ready context never panics: no handler is entered while another runs. When it
  -- returns, the context is ready, not borrowed, and its queue is empty. What ran are rounds, each
  -- of at least one delivery and then one rendering. The messages delivered are those that were
  -- queued and those that the handlers sent, each once and in the order in which they were queued.
  pub update-deliveries :
      (f : ℕ) (a : A) (q : List M)
      → Ensures
          (λ d.
            (b : A) × (log : List (Act M)) × (sent : List M) × (d ≡ idle b [])
            × Runs app a q log sent b []
            × Rounds log
            × (deliveries log ≡ q ++ sent))
          (update app f (idle a q))
  unfolding update update_by
  update-deliveries f a q =
      Ensures-bind (Delivers a q) _ (cycle app f (busy a q false) q) _ (cycle-Delivers f a q)
        λ d (b, log, sent, e, run, rounds). (
          b,
          log,
          sent,
          ap (λ (c : Context A M). record c { ready = true }) e,
          run,
          rounds,
          sym (append-nil (deliveries log)) ∙ Runs-deliveries app run,
        )

  -- `hydrate` of a new context runs the handler `hydrate` first, and then delivers the messages that
  -- it sent as `update` does; a second `hydrate` is a panic.
  pub hydrate-deliveries :
      (f : ℕ) (a b : A) (q : List M)
      → (hydrate app f (start a) ≡ update app f (idle (app.hydrate a).0 (app.hydrate a).1))
        × (hydrate app f (idle b q) ≡ panic)
  unfolding hydrate start
  hydrate-deliveries f a b q = (rw with_app-busy refl, refl)
