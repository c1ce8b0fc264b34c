-- ===== src/Prefetch/Slots.antt =====
-- The slots of the streams in crates/client-core/src/cached.rs: indices, replacement, removal.
use quic_kfs.Prelude.{
  ℕ, zero, suc, ◌+◌, ◌<◌, ◌≡◌, ◌≢◌, refl, ap, subst, Option, none, some, List, [], ◌∷◌, arith,
  length, All, Option-cases, inl, inr,
}
use quic_kfs.Prefetch.Stream.{PrefetchStream}
use quic_kfs.Prefetch.Controller.{least_index, get_elem?, set, last_to_front, swap_remove}

pub least_index-lt :
    (key : PrefetchStream → Option ℕ) (ss : List PrefetchStream) (i k : ℕ)
    → least_index key ss ≡ some (i, k)
    → i < length ss
unfolding least_index
least_index-lt key [] i k e = absurd (cc)
least_index-lt key (s ∷ ss) i k e = elim (Option-cases (least_index key ss)) [
  | inl none' ↦ ground arith
  | inr ((j, k'), e') ↦ ground (arith, least_index-lt key ss j k' e')
]

pub least_index-ne-none :
    (s : PrefetchStream) (ss : List PrefetchStream)
    → least_index (λ x. some x.last_touch) (s ∷ ss) ≢ none
unfolding least_index
least_index-ne-none s ss e = ground arith

pub length-set :
    (ss : List PrefetchStream) (i : ℕ) (s : PrefetchStream) → length (set ss i s) ≡ length ss
unfolding set
length-set [] i s = refl
length-set (x ∷ ss) zero s = refl
length-set (x ∷ ss) (suc i) s = ap suc (length-set ss i s)

module _ (P : PrefetchStream → Type 0) where
  pub set-All :
      (ss : List PrefetchStream) (i : ℕ) (s : PrefetchStream) → All P ss → P s → All P (set ss i s)
  unfolding set
  set-All [] i s a h = tt
  set-All (x ∷ ss) zero s a h = (h, a.1)
  set-All (x ∷ ss) (suc i) s a h = (a.0, set-All ss i s a.1 h)

  pub get_elem?-All :
      (ss : List PrefetchStream) (i : ℕ) (s : PrefetchStream)
      → All P ss
      → get_elem? ss i ≡ some s
      → P s
  unfolding get_elem?
  get_elem?-All [] i s a e = absurd (cc)
  get_elem?-All (x ∷ ss) zero s a e = subst P (ground arith) a.0
  get_elem?-All (x ∷ ss) (suc i) s a e = get_elem?-All ss i s a.1 e

  last_to_front-All :
      (ss : List PrefetchStream)
      → All P ss
      → All P (last_to_front ss) × (length (last_to_front ss) ≡ length ss)
  unfolding last_to_front
  last_to_front-All [] a = (tt, refl)
  last_to_front-All (s ∷ ss) a = insert s a.0 (last_to_front ss) (last_to_front-All ss a.1)
    where
      insert :
          (x : PrefetchStream)
          → P x
          → (ys : List PrefetchStream) → All P ys × (length ys ≡ length ss)
          → All P (elim ys [ [] ↦ x ∷ [] | last ∷ others ↦ last ∷ x ∷ others ])
            × (length (elim ys [ [] ↦ x ∷ [] | last ∷ others ↦ last ∷ x ∷ others ])
                ≡ suc (length ss))
      insert x h [] b = ((h, tt), omega (arith, b.1))
      insert x h (y ∷ ys) b = ((b.0.0, (h, b.0.1)), omega (arith, b.1))

  pub swap_remove-All : (i : ℕ) (ss : List PrefetchStream) → All P ss → All P (swap_remove i ss)
  unfolding swap_remove
  swap_remove-All zero [] a = tt
  swap_remove-All zero (s ∷ ss) a = (last_to_front-All ss a.1).0
  swap_remove-All (suc i) [] a = tt
  swap_remove-All (suc i) (s ∷ ss) a = (a.0, swap_remove-All i ss a.1)

  pub length-swap_remove :
      (i : ℕ) (ss : List PrefetchStream)
      → All P ss
      → i < length ss
      → length (swap_remove i ss) + 1 ≡ length ss
  unfolding swap_remove
  length-swap_remove zero [] a h = absurd (omega arith)
  length-swap_remove zero (s ∷ ss) a h = omega (arith, (last_to_front-All ss a.1).1)
  length-swap_remove (suc i) [] a h = absurd (omega arith)
  length-swap_remove (suc i) (s ∷ ss) a h = omega (arith, length-swap_remove i ss a.1 (omega arith))
