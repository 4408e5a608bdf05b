-- ===== src/WasmApp/App/Reentry.antt =====
-- A message that a handler sends is queued and not delivered while the handler runs.
use yarte.Base.{Bool, true, false, List, [], ◌∷◌, ◌++◌, append_assoc, append-nil, ◌≡◌, sym, ap, ◌∙◌}
use yarte.WasmApp.App.{Context, Outcome, ok, sends_by, with_app}

-- A context whose loop runs: not ready.
abbrev pub busy : {A M : Type 0} → A → List M → Bool → Context A M
busy a q borrowed = record { app = a; q = q; ready = false; borrowed = borrowed }

module _ {A M : Type 0} (loop : Context A M → Outcome (Context A M)) where
  sends_by-busy :
      (a : A) (q : List M) (b : Bool) (ms : List M)
      → sends_by loop (busy a q b) ms ≡ ok (busy a (q ++ ms) b)
  unfolding sends_by
  sends_by-busy a q b [] = ap (λ x. ok (busy a x b)) (sym (append-nil q))
  sends_by-busy a q b (m ∷ ms) =
      sends_by-busy a (q ++ m ∷ []) b ms ∙ ap (λ x. ok (busy a x b)) (append_assoc q (m ∷ []) ms)

  -- A handler that runs while the context is not ready and the application is not borrowed leaves
  -- the application as it says and its messages behind those in the queue, whatever the loop would
  -- do: it does not panic, and no other handler runs in it.
  pub with_app-busy :
      (handler : A → A × List M) (a : A) (q : List M)
      → with_app loop handler (busy a q false) ≡ ok (busy (handler a).0 (q ++ (handler a).1) false)
  unfolding with_app
  with_app-busy handler a q = rw (sends_by-busy (handler a).0 q true (handler a).1)
