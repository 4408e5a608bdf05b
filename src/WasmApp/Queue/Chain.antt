-- ===== src/WasmApp/Queue/Chain.antt =====
-- Linked nodes on the heap, and what a write leaves of them.
use yarte.Base.{
  ℕ, Bool, true, false, ◌||◌, Option, none, some, List, [], ◌∷◌, ◌++◌, ◌≡◌, sym, ap, ◌∙◌, arith,
  ◌==◌, Bool-cases, inl, inr,
}
use yarte.WasmApp.Queue.{Node, Heap, write}

-- The messages of a queue with the addresses of their nodes, in order.
abbrev pub Cells : Type 0 → Type 0
Cells T = List (ℕ × T)

abbrev pub has : {T : Type 0} → ℕ → Cells T → Bool
has a [] = false
has a ((p, _) ∷ cs) = p == a || has a cs

module _ {T : Type 0} where
  -- From the node at `p`, which holds `v`, the `next` pointers lead through the nodes of `cs`, all
  -- of them different, to the node at `e`, which is the last.
  abbrev pub Chain : Heap T → ℕ → Option T → Cells T → ℕ → Type 0
  Chain h p v [] e = (p ≡ e) × (h p ≡ some (record { next = none; value = v }))
  Chain h p v ((q, x) ∷ cs) e =
      (h p ≡ some (record { next = some q; value = v }))
      × (has p ((q, x) ∷ cs) ≡ false)
      × Chain h q (some x) cs e

  pub Chain-frame :
      (h g : Heap T) (p : ℕ) (v : Option T) (cs : Cells T) (e : ℕ)
      → Chain h p v cs e
      → ((a : ℕ) → has a ((p, v) ∷ []) ≡ true → g a ≡ h a)
      → ((a : ℕ) → has a cs ≡ true → g a ≡ h a)
      → Chain g p v cs e
  Chain-frame h g p v [] e (q, c) here rest = (q, here p (ground arith) ∙ c)
  Chain-frame h g p v ((q, x) ∷ cs) e (c, d, t) here rest = (
    here p (ground arith) ∙ c,
    d,
    Chain-frame h g q (some x) cs e t (λ a i. rest a (ground arith)) (λ a i. rest a (ground arith)),
  )

  pub Chain-holds :
      (h : Heap T) (p : ℕ) (v : Option T) (cs : Cells T) (e : ℕ)
      → Chain h p v cs e
      → (n : Option ℕ) × (h p ≡ some (record { next = n; value = v }))
  Chain-holds h p v [] e (_, c) = (none, c)
  Chain-holds h p v ((q, x) ∷ cs) e (c, _, _) = (some q, c)

  -- The last node is one of the chain's, and has no successor.
  pub Chain-last :
      (h : Heap T) (p : ℕ) (v : Option T) (cs : Cells T) (e : ℕ)
      → Chain h p v cs e
      → (w : Option T) × (h e ≡ some (record { next = none; value = w }))
        × ((p == e || has e cs) ≡ true)
  Chain-last h p v [] e (q, c) = (v, ap h (sym q) ∙ c, ground arith)
  Chain-last h p v ((q, x) ∷ cs) e (c, d, t) =
      let (w, c', i) = Chain-last h q (some x) cs e t in (w, c', ground arith)

  pub has-ne : (a b : ℕ) (cs : Cells T) → has a cs ≡ false → has b cs ≡ true → (b == a) ≡ false
  has-ne a b [] p q = cc
  has-ne a b ((c, _) ∷ cs) p q = ground (arith, has-ne a b cs)

  pub has-append :
      (a : ℕ) (cs : Cells T) (n : ℕ) (t : T) → has a (cs ++ (n, t) ∷ []) ≡ (has a cs || n == a)
  has-append a [] n t = ground arith
  has-append a ((p, _) ∷ cs) n t = ground (arith, has-append a cs n t)

  -- An address with a node is no free one.
  pub free-ne : (h : Heap T) (n p : ℕ) {c : Node T} → h n ≡ none → h p ≡ some c → (n == p) ≡ false
  free-ne h n p free c = elim (Bool-cases (n == p)) [
    | inl e ↦ let same : n ≡ p = ground arith in cc (ap h same)
    | inr e ↦ e
  ]

  -- The heap after `push`: a node at `n`, and the last node's pointer set to it.
  abbrev pub linked : Heap T → ℕ → ℕ → T → Option T → Heap T
  linked h e n t w =
      write (write h n (some (record { next = none; value = some t }))) e
        (some (record { next = some n; value = w }))

  pub Chain-linked :
      (h : Heap T) (p : ℕ) (v : Option T) (cs : Cells T) (e n : ℕ) (t : T) (w : Option T)
      → h n ≡ none
      → h e ≡ some (record { next = none; value = w })
      → Chain h p v cs e
      → Chain (linked h e n t w) p v (cs ++ (n, t) ∷ []) n
  Chain-linked h p v [] e n t w free last (q, c) = let ne = free-ne h n p free c in ground arith
  Chain-linked h p v ((q, x) ∷ cs) e n t w free last (c, d, ch) =
      let ne = free-ne h n p free c in
      let (_, _, i) = Chain-last h q (some x) cs e ch in
      let other = has-ne p e ((q, x) ∷ cs) d i in
      (
        ground arith,
        ground (arith, has-append p cs n t),
        Chain-linked h q (some x) cs e n t w free last ch,
      )

  -- The heap after `pop`: the value at `n` taken, and the stub at `stub` freed.
  abbrev pub taken : Heap T → ℕ → ℕ → Option ℕ → Heap T
  taken h stub n next = write (write h n (some (record { next = next; value = none }))) stub none

  pub Chain-taken :
      (h : Heap T) (stub n : ℕ) (next : Option ℕ) (t : T) (cs : Cells T) (e : ℕ)
      → has stub ((n, t) ∷ cs) ≡ false
      → h n ≡ some (record { next = next; value = some t })
      → Chain h n (some t) cs e
      → Chain (taken h stub n next) n none cs e
  Chain-taken h stub n next t [] e d c (q, c') = (q, ground arith)
  Chain-taken h stub n next t ((q, x) ∷ cs) e d c (c', d', ch) = (
    ground arith,
    d',
    Chain-frame h (taken h stub n next) q (some x) cs e ch (λ a i. same a (ground arith))
        (λ a i. same a (ground arith)),
  )
    where
      same : (a : ℕ) → has a ((q, x) ∷ cs) ≡ true → taken h stub n next a ≡ h a
      same a i =
          ground
            (arith, has-ne n a ((q, x) ∷ cs) d' i, has-ne stub a ((q, x) ∷ cs) (ground arith) i)
