-- ===== src/Helpers/Read/Loaded.antt =====
-- What `read` returns holds all the files that a template includes, and no file includes itself.
use mathlib.Core.List.{Memᴰ}
use mathlib.Core.List.Memᴰ
use yarte.Base.{
  ℕ, zero, suc, Bool, true, false, List, [], ◌∷◌, map, Option, none, some, if◌then◌else◌, Str,
  str_eq, str_eq_iff, ◌≡◌, refl, sym, ap, subst, ◌⊎◌, inl, inr, arith,
}
use yarte.Parser.Result.{Result, ok, panic, ◌>>=◌}
use yarte.Hir.Yields.{
  Yields, yields, panicked, starved, Yields-bind, Yields-map, Yields-then, Yields-given, Yields-ok,
}
use yarte.Helpers.Read.{Sources, lookup, is_some, contains, Reader, read_partials, read_from, read}

-- `v` keeps what `u` holds.
abbrev pub Extends : Sources → Sources → Type 0
Extends u v = (p src : Str) → lookup p u ≡ some src → lookup p v ≡ some src

pub str_eq_refl : (s : Str) → str_eq s s ≡ true
str_eq_refl s = ground (arith, str_eq_iff s s)

pub Extends-cons : (p src : Str) (v : Sources) → lookup p v ≡ none → Extends v ((p, src) ∷ v)
unfolding lookup
Extends-cons p src v absent q text h = go (str_eq q p) refl
  where
    go : (b : Bool) → str_eq q p ≡ b → (if b then some src else lookup q v) ≡ some text
    go true e =
        let same : q ≡ p = ground (arith, str_eq_iff q p) in
        let l = subst (λ q. lookup q v ≡ some text) same h in cc
    go false e = h

module _ (reader : Reader) where
  -- A file of the map, all of whose partials are loaded. As a data type it is well founded: to
  -- follow partials from a loaded file comes to an end.
  pub data Loaded (v : Sources) : Str → Type 0 where
    loaded :
        (p src : Str) (ps : List Str)
        → lookup p v ≡ some src
        → reader.partials p src ≡ ok ps
        → ((q : Str) → Memᴰ q ps → Loaded v q)
        → Loaded v p

  pub Loaded-Extends : (u v : Sources) (p : Str) → Extends u v → Loaded u p → Loaded v p
  Loaded-Extends u v _ e (loaded p src ps l r k) =
      loaded p src ps (e p src l) r λ q m. Loaded-Extends u v q e (k q m)

  -- Each file of the map is loaded or still being read.
  abbrev pub Tracked : Sources → List Str → Type 0
  Tracked v reading = (p src : Str) → lookup p v ≡ some src → Loaded v p ⊎ Memᴰ p reading

  abbrev pub Grown : Sources → List Str → (Str → Type 0) → Sources → Type 0
  Grown u reading goal v = Extends u v × Tracked v reading × ((q : Str) → goal q → Loaded v q)

  contains-Mem :
      (p : Str) (reading : List Str)
      → Memᴰ p reading
      → contains (reader.calculate_hash p) (map reader.calculate_hash reading) ≡ true
  unfolding contains
  contains-Mem p [] m = elim m [ ]
  contains-Mem p (q ∷ reading) (Memᴰ.head e) =
      let h = ap reader.calculate_hash e in ground (arith, h)
  contains-Mem p (q ∷ reading) (Memᴰ.tail m) = ground (arith, contains-Mem p reading m)

  -- What is read and not among the files being read is loaded.
  settled :
      (v : Sources) (reading : List Str) (p : Str) (o : Option Str)
      → Tracked v reading
      → lookup p v ≡ o
      → is_some o ≡ true
      → contains (reader.calculate_hash p) (map reader.calculate_hash reading) ≡ false
      → Loaded v p
  settled v reading p none t l i c = cc
  settled v reading p (some src) t l i c = elim (t p src l) [
    | inl k ↦ k
    | inr m ↦ let e = contains-Mem p reading m in cc
  ]

  Tracked-cons :
      (p src : Str) (v : Sources) (reading : List Str)
      → lookup p v ≡ none
      → Tracked v reading
      → Tracked ((p, src) ∷ v) (p ∷ reading)
  unfolding lookup
  Tracked-cons p src v reading absent t q text h = go (str_eq q p) refl h
    where
      go :
          (b : Bool)
          → str_eq q p ≡ b
          → (if b then some src else lookup q v) ≡ some text
          → Loaded ((p, src) ∷ v) q ⊎ Memᴰ q (p ∷ reading)
      go true e h = inr (Memᴰ.head (ground (arith, str_eq_iff q p)))
      go false e h = elim (t q text h) [
        | inl k ↦ inl (Loaded-Extends v ((p, src) ∷ v) q (Extends-cons p src v absent) k)
        | inr m ↦ inr (Memᴰ.tail m)
      ]

  -- A walk that loads the file that it is called on.
  abbrev pub Loads : (Str → Str → Sources → List ℕ → Result Sources) → List Str → Type 0
  Loads deeper reading =
      (p src : Str) (v : Sources)
      → lookup p v ≡ none
      → Tracked v reading
      → Yields (λ w. Extends ((p, src) ∷ v) w × Tracked w reading × Loaded w p)
          (deeper p src v (map reader.calculate_hash reading))

  -- One partial, in front of the others.
  partial-Grown :
      (deeper : Str → Str → Sources → List ℕ → Result Sources) (reading : List Str)
      → Loads deeper reading
      → (p : Str) (ps : List Str)
      → ((w : Sources)
          → Tracked w reading
          → Yields
              (Grown w reading (λ q. Memᴰ q ps))
              (read_partials reader deeper (map reader.calculate_hash reading) ps w))
      → (v : Sources) → Tracked v reading
      → Yields
          (Grown v reading (λ q. Memᴰ q (p ∷ ps)))
          (read_partials reader deeper (map reader.calculate_hash reading) (p ∷ ps) v)
  unfolding read_partials
  partial-Grown deeper reading loads p ps rest v t = go (lookup p v) refl
    where
      hashes : List ℕ
      hashes = map reader.calculate_hash reading

      both :
          (w : Sources)
          → Extends v w
          → Tracked w reading
          → Loaded w p
          → Yields
              (Grown v reading (λ q. Memᴰ q (p ∷ ps)))
              (read_partials reader deeper hashes ps w)
      both w e t k =
          Yields-map
            (λ x g. (
              λ q src h. g.0 q src (e q src h),
              g.1,
              λ q m. elim (Memᴰ.cases_cons m) [
                | inl s ↦ subst (Loaded x) (sym s) (Loaded-Extends w x p g.0 k)
                | inr m ↦ g.2 q m
              ],
            ))
            (rest w t)

      seen :
          (c : Bool) (o : Option Str)
          → contains (reader.calculate_hash p) hashes ≡ c
          → lookup p v ≡ o
          → is_some o ≡ true
          → Yields
              (Grown v reading (λ q. Memᴰ q (p ∷ ps)))
              (if c then panic else read_partials reader deeper hashes ps v)
      seen true o c l i = panicked
      seen false o c l i = both v (λ q src h. h) t (settled v reading p o t l i c)

      go :
          (o : Option Str)
          → lookup p v ≡ o
          → Yields (Grown v reading (λ q. Memᴰ q (p ∷ ps))) (
              if is_some o
              then (if contains (reader.calculate_hash p) hashes
                  then panic
                  else read_partials reader deeper hashes ps v)
              else (reader.source p >>= λ src.
                  deeper p src v hashes >>= read_partials reader deeper hashes ps))
      go (some src) l = seen (contains (reader.calculate_hash p) hashes) (some src) refl l refl
      go none l = Yields-then (reader.source p) λ src.
          Yields-bind (loads p src v l t)
            λ w g. both w (λ q s h. g.0 q s (Extends-cons p src v l q s h)) g.1 g.2

  read_partials-Grown :
      (deeper : Str → Str → Sources → List ℕ → Result Sources) (reading : List Str)
      → Loads deeper reading
      → (ps : List Str) (v : Sources) → Tracked v reading
      → Yields
          (Grown v reading (λ q. Memᴰ q ps))
          (read_partials reader deeper (map reader.calculate_hash reading) ps v)
  unfolding read_partials
  read_partials-Grown deeper reading loads [] v t = yields (λ p src h. h, t, λ q m. elim m [ ])
  read_partials-Grown deeper reading loads (p ∷ ps) v t =
      partial-Grown deeper reading loads p ps (read_partials-Grown deeper reading loads ps) v t

  module _ (collected : (ps : List Str) (q : Str) → Memᴰ q ps → Memᴰ q (reader.collect ps)) where
    Tracked-done :
        (path : Str) (v : Sources) (reading : List Str)
        → Loaded v path
        → Tracked v (path ∷ reading)
        → Tracked v reading
    Tracked-done path v reading k t q src l = elim (t q src l) [
      | inl h ↦ inl h
      | inr m ↦ elim (Memᴰ.cases_cons m) [
        | inl s ↦ inl (subst (Loaded v) (sym s) k)
        | inr n ↦ inr n
      ]
    ]

    read_from-Loads : (f : ℕ) (reading : List Str) → Loads (read_from reader f) reading
    unfolding read_from lookup
    read_from-Loads zero reading path src v absent t = starved
    read_from-Loads (suc f) reading path src v absent t =
        Yields-given (reader.partials path src) λ ps e.
          Yields-map
            (λ w g.
              let here = g.0 path src (rw (str_eq_refl path) refl) in
              let k = loaded path src ps here e (λ q m. g.2 q (collected ps q m)) in
              (g.0, Tracked-done path w reading k g.1, k))
            (read_partials-Grown (read_from reader f) (path ∷ reading)
              (read_from-Loads f (path ∷ reading)) (reader.collect ps) ((path, src) ∷ v)
              (Tracked-cons path src v reading absent t))

    -- If `read` returns, the template is in the map with its text, and it and all the files that it
    -- includes, however deep, are loaded: each is in the map with all its partials, and following
    -- partials comes to an end, so that no file includes itself.
    pub read-Loaded :
        (f : ℕ) (path src : Str) (visited : Sources)
        → read reader f path src ≡ ok visited
        → (lookup path visited ≡ some src)
          × ((p text : Str) → lookup p visited ≡ some text → Loaded visited p)
    unfolding read lookup
    read-Loaded f path src visited e =
        let g = Yields-ok (read_from-Loads f [] path src [] refl (λ p text l. cc)) e in
        (
          g.0 path src (rw (str_eq_refl path) refl),
          λ p text l. elim (g.1 p text l) [ inl k ↦ k | inr m ↦ elim m [ ] ],
        )
