-- ===== src/Prelude/Lex.antt =====
-- The order on the tuples that `sort_by_key` compares: lexicographic, over lists of numbers.
use mathlib.Core.Path.{◌≡◌, refl}
use mathlib.Core.Bool.{Bool, true, false}
use mathlib.Core.List.{List, [], ◌∷◌}
use Prim.Native.Nat.{ℕ}
use native.Mathlib.Omega.{arith}
use quic_kfs.Prelude.Tests.{ltb, ◌==◌, if◌then◌else◌}

unfoldable pub lex_le : List ℕ → List ℕ → Bool
lex_le [] bs = true
lex_le (a ∷ as') [] = false
lex_le (a ∷ as') (b ∷ bs) = if ltb a b then true else if a == b then lex_le as' bs else false

pub lex_le_total : (as' bs : List ℕ) → lex_le as' bs ≡ false → lex_le bs as' ≡ true
unfolding lex_le
lex_le_total [] bs h = ground arith
lex_le_total (a ∷ as') [] h = refl
lex_le_total (a ∷ as') (b ∷ bs) h = ground (arith, lex_le_total as' bs)

pub lex_le_trans :
    (as' bs cs : List ℕ) → lex_le as' bs ≡ true → lex_le bs cs ≡ true → lex_le as' cs ≡ true
unfolding lex_le
lex_le_trans [] bs cs p q = refl
lex_le_trans (a ∷ as') [] cs p q = ground arith
lex_le_trans (a ∷ as') (b ∷ bs) [] p q = q
lex_le_trans (a ∷ as') (b ∷ bs) (c ∷ cs) p q = ground (arith, lex_le_trans as' bs cs)
