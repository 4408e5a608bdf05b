-- ===== src/Hir/PartialArgs/Order.antt =====
-- The order of the names of a partial's arguments.
use yarte.Base.{true, false, [], ◌∷◌, Str, str_eq, ◌≡◌, refl, arith}
use yarte.Hir.PartialArgs.{str_lt}

pub str_lt_asym : (s t : Str) → str_lt s t ≡ true → str_lt t s ≡ false
unfolding str_lt
str_lt_asym [] [] h = refl
str_lt_asym [] (d ∷ t) h = refl
str_lt_asym (c ∷ s) [] h = cc
str_lt_asym (c ∷ s) (d ∷ t) h = ground (arith, h, str_lt_asym s t)

pub str_lt_trans : (s t u : Str) → str_lt s t ≡ true → str_lt t u ≡ true → str_lt s u ≡ true
unfolding str_lt
str_lt_trans [] [] u h k = cc
str_lt_trans [] (d ∷ t) [] h k = cc
str_lt_trans [] (d ∷ t) (x ∷ u) h k = refl
str_lt_trans (c ∷ s) [] u h k = cc
str_lt_trans (c ∷ s) (d ∷ t) [] h k = cc
str_lt_trans (c ∷ s) (d ∷ t) (x ∷ u) h k = ground (arith, h, k, str_lt_trans s t u)

pub str_lt_total : (s t : Str) → str_eq s t ≡ false → str_lt s t ≡ false → str_lt t s ≡ true
unfolding str_lt
str_lt_total [] [] h k = cc
str_lt_total [] (d ∷ t) h k = cc
str_lt_total (c ∷ s) [] h k = refl
str_lt_total (c ∷ s) (d ∷ t) h k = ground (arith, h, k, str_lt_total s t)
