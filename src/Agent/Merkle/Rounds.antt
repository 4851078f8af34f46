-- ===== src/Agent/Merkle/Rounds.antt =====
-- What one round of the Merkle loops of agent/ima_reader.py does at each position.
use Prim.Native.Nat.{min}
use native.Mathlib.Decide.{ℕ_discrete}
use tpm_attest.Prelude.{
  ℕ, zero, suc, ◌+◌, ◌-◌, ◌/◌, ◌%◌, ◌<◌, ◌≤◌, ◌≡◌, refl, none, some, List, [], ◌∷◌, arith, length,
  get_elem?, ok,
}
use tpm_attest.Agent.Merkle.Layers.{index_layer, append_last, pad_odd, hash_pairs, next_layer}

module _ {ℓ} {A : Type ℓ} where
  pub lt-length_of_get_elem? :
      (xs : List A) (i : ℕ) {a : A} → get_elem? xs i ≡ some a → i < length xs
  lt-length_of_get_elem? [] i p = absurd (cc)
  lt-length_of_get_elem? (x ∷ xs) zero p = omega arith
  lt-length_of_get_elem? (x ∷ xs) (suc i) p = omega (arith, lt-length_of_get_elem? xs i p)

  pub index_layer-of_get_elem? :
      (xs : List A) (i : ℕ) {a : A} → get_elem? xs i ≡ some a → index_layer xs i ≡ ok a
  unfolding index_layer
  index_layer-of_get_elem? xs i p = rw (p, index_layer)

  length-append_last : (xs : List A) → 0 < length xs → length (append_last xs) ≡ length xs + 1
  unfolding append_last
  length-append_last [] h = absurd (omega arith)
  length-append_last (x ∷ []) h = omega arith
  length-append_last (x ∷ y ∷ r) h = omega (arith, length-append_last (y ∷ r) (omega arith))

  pub length-pad_odd : (xs : List A) → length (pad_odd xs) ≡ length xs + length xs % 2
  unfolding pad_odd
  length-pad_odd xs = ground (arith, length-append_last xs)

  get_elem?-append_last :
      (xs : List A) (i : ℕ) → i < length xs → get_elem? (append_last xs) i ≡ get_elem? xs i
  unfolding append_last
  get_elem?-append_last [] i h = elim h [ ]
  get_elem?-append_last (x ∷ []) zero h = refl
  get_elem?-append_last (x ∷ []) (suc i) h = absurd (omega arith)
  get_elem?-append_last (x ∷ y ∷ r) zero h = refl
  get_elem?-append_last (x ∷ y ∷ r) (suc i) h = get_elem?-append_last (y ∷ r) i (omega arith)

  get_elem?-append_last_end :
      (xs : List A) (i : ℕ)
      → suc i ≡ length xs
      → get_elem? (append_last xs) (suc i) ≡ get_elem? xs i
  unfolding append_last
  get_elem?-append_last_end [] i h = absurd (omega arith)
  get_elem?-append_last_end (x ∷ []) zero h = refl
  get_elem?-append_last_end (x ∷ []) (suc i) h = absurd (omega arith)
  get_elem?-append_last_end (x ∷ y ∷ r) zero h = absurd (omega arith)
  get_elem?-append_last_end (x ∷ y ∷ r) (suc i) h =
      get_elem?-append_last_end (y ∷ r) i (omega arith)

  pub get_elem?-pad_odd :
      (xs : List A) (i : ℕ) → i < length xs → get_elem? (pad_odd xs) i ≡ get_elem? xs i
  unfolding pad_odd
  get_elem?-pad_odd xs i h = ground (arith, get_elem?-append_last xs i)

  -- an odd layer repeats its last node
  pub get_elem?-pad_odd_end :
      (xs : List A) (i : ℕ)
      → i % 2 ≡ 0
      → suc i ≡ length xs
      → get_elem? (pad_odd xs) (suc i) ≡ get_elem? xs i
  unfolding pad_odd
  get_elem?-pad_odd_end xs i e h = ground (arith, get_elem?-append_last_end xs i)

module _ {ℓ} {A : Type ℓ} (node : A → A → A) where
  length-hash_pairs : (xs : List A) → length (hash_pairs node xs) ≡ length xs / 2
  unfolding hash_pairs
  length-hash_pairs [] = omega arith
  length-hash_pairs (x ∷ []) = omega arith
  length-hash_pairs (x ∷ y ∷ r) = omega (arith, length-hash_pairs r)

  pub length-next_layer : (xs : List A) → length (next_layer node xs) ≡ (length xs + 1) / 2
  unfolding next_layer
  length-next_layer xs = omega (arith, length-hash_pairs (pad_odd xs), length-pad_odd xs)

  pub get_elem?-hash_pairs :
      (xs : List A) (i : ℕ) {a b : A}
      → get_elem? xs (i + i) ≡ some a
      → get_elem? xs (suc (i + i)) ≡ some b
      → get_elem? (hash_pairs node xs) i ≡ some (node a b)
  unfolding hash_pairs
  get_elem?-hash_pairs [] i p q = cc
  get_elem?-hash_pairs (x ∷ []) i p q = cc
  get_elem?-hash_pairs (x ∷ y ∷ r) zero p q = cc
  get_elem?-hash_pairs (x ∷ y ∷ r) (suc i) p q =
      let e : suc i + suc i ≡ suc (suc (i + i)) = omega arith in
      get_elem?-hash_pairs r i (rw e at p) (rw e at q)

  get_elem?-hash_pairs_past :
      (xs : List A) (i : ℕ) → length xs ≤ i + i → get_elem? (hash_pairs node xs) i ≡ none
  unfolding hash_pairs
  get_elem?-hash_pairs_past [] i h = refl
  get_elem?-hash_pairs_past (x ∷ []) i h = refl
  get_elem?-hash_pairs_past (x ∷ y ∷ r) zero h = absurd (omega arith)
  get_elem?-hash_pairs_past (x ∷ y ∷ r) (suc i) h = get_elem?-hash_pairs_past r i (omega arith)

  -- the parent of the nodes `2i` and `2i + 1`, where the last node of an odd layer is its own pair
  pub get_elem?-next_layer :
      (xs : List A) (i : ℕ) {a b : A}
      → get_elem? xs (i + i) ≡ some a
      → get_elem? xs (min (suc (i + i)) (length xs - 1)) ≡ some b
      → get_elem? (next_layer node xs) i ≡ some (node a b)
  unfolding next_layer
  get_elem?-next_layer xs i p q = elim (ℕ_discrete (suc (i + i)) (length xs)) [
    | yes e ↦
        let m : min (suc (i + i)) (length xs - 1) ≡ i + i = omega arith in
        get_elem?-hash_pairs (pad_odd xs) i (rw (get_elem?-pad_odd xs (i + i) (omega arith)) p)
          (rw (get_elem?-pad_odd_end xs (i + i) (omega arith) e) (rw m at q))
    | no ne ↦
        let l = lt-length_of_get_elem? xs (i + i) p in
        let m : min (suc (i + i)) (length xs - 1) ≡ suc (i + i) = omega (arith, ne, l) in
        get_elem?-hash_pairs (pad_odd xs) i (rw (get_elem?-pad_odd xs (i + i) l) p)
          (rw (get_elem?-pad_odd xs (suc (i + i)) (omega (arith, ne, l))) (rw m at q))
  ]

  pub get_elem?-next_layer_past :
      (xs : List A) (i : ℕ) → length xs ≤ i + i → get_elem? (next_layer node xs) i ≡ none
  unfolding next_layer
  get_elem?-next_layer_past xs i h =
      get_elem?-hash_pairs_past (pad_odd xs) i (omega (arith, length-pad_odd xs))
