-- ===== src/Agent/Merkle/Binding.antt =====
-- Two layers of one length that reduce to one root are equal, or two different pairs of nodes with
-- one parent come to light.

use tpm_attest.Prelude.{
  ℕ, zero, suc, true, false, ◌+◌, ◌%◌, ◌≤◌, ◌≡◌, ◌≢◌, ◌⊎◌, refl, ap, inl, inr, List, [], ◌∷◌, arith,
  ltb, Bool-cases, length, All, ◌==◌, ◌++◌, In, In-append_left, In-append_right, In-append_split,
  if◌then◌else◌,
}
use tpm_attest.Agent.Merkle.Layers.{append_last, pad_odd, hash_pairs, next_layer, reduce_loop}
use tpm_attest.Agent.Merkle.Rounds.{length-pad_odd, length-next_layer}

module _ {ℓ} {A : Type ℓ} (node : A → A → A) where
  -- two different pairs, one from each list, with one parent
  pub record Collision (ls rs : List (A × A)) : Type ℓ where
    pub left : A × A
    pub right : A × A
    pub left_in : In left ls
    pub right_in : In right rs
    pub differ : left ≢ right
    pub meet : node left.0 left.1 ≡ node right.0 right.1

  pub widen :
      {ls rs ls' rs' : List (A × A)}
      → ((p : A × A) → In p ls → In p ls')
      → ((p : A × A) → In p rs → In p rs')
      → Collision ls rs
      → Collision ls' rs'
  widen f g c = record {
    left = c.left;
    right = c.right;
    left_in = f c.left c.left_in;
    right_in = g c.right c.right_in;
    differ = c.differ;
    meet = c.meet;
  }

module _ {ℓ} {A : Type ℓ} where
  -- the pairs that `hash_pairs` joins
  abbrev pub pairs : List A → List (A × A)
  pairs [] = []
  pairs (x ∷ []) = []
  pairs (x ∷ y ∷ r) = (x, y) ∷ pairs r

  -- the pairs that the loop joins, in all its rounds
  pub joined : (A → A → A) → ℕ → List A → List (A × A)
  unfolding next_layer
  joined node zero xs = []
  joined node (suc fuel) xs =
      let rest = joined node fuel (next_layer node xs) in
      if ltb 1 (length xs) then pairs (pad_odd xs) ++ rest else []

module _ {ℓ} {A : Type ℓ} (P : A → Type ℓ) where
  append_last-All : (xs : List A) → All P xs → All P (append_last xs)
  unfolding append_last
  append_last-All [] h = h
  append_last-All (x ∷ []) h = (h.0, (h.0, h.1))
  append_last-All (x ∷ y ∷ r) h = (h.0, append_last-All (y ∷ r) h.1)

  pad_odd-All : (xs : List A) → All P xs → All P (pad_odd xs)
  unfolding pad_odd
  pad_odd-All xs h = elim (Bool-cases (length xs % 2 == 1)) [
    | inl e ↦ rw e (append_last-All xs h)
    | inr e ↦ rw e h
  ]

module _ {ℓ} {A : Type ℓ} where
  append_last-injective :
      (xs ys : List A) → length xs ≡ length ys → append_last xs ≡ append_last ys → xs ≡ ys
  unfolding append_last
  append_last-injective [] [] n e = refl
  append_last-injective [] (y ∷ ys) n e = absurd (omega arith)
  append_last-injective (x ∷ xs) [] n e = absurd (omega arith)
  append_last-injective (x ∷ []) (y ∷ []) n e = cc
  append_last-injective (x ∷ []) (y ∷ y' ∷ ys) n e = absurd (omega arith)
  append_last-injective (x ∷ x' ∷ xs) (y ∷ []) n e = absurd (omega arith)
  append_last-injective (x ∷ x' ∷ xs) (y ∷ y' ∷ ys) n e =
      cc (append_last-injective (x' ∷ xs) (y' ∷ ys) (omega arith) (cc))

  pad_odd-injective : (xs ys : List A) → length xs ≡ length ys → pad_odd xs ≡ pad_odd ys → xs ≡ ys
  unfolding pad_odd
  pad_odd-injective xs ys n e = ground (arith, append_last-injective xs ys n)

module _ {ℓ} {A : Type ℓ} (dec : Discrete A) (node : A → A → A) where
  pairs_split :
      (x x' y y' : A)
      → node x x' ≡ node y y'
      → ((x ≡ y) × (x' ≡ y')) ⊎ Collision node ((x, x') ∷ []) ((y, y') ∷ [])
  pairs_split x x' y y' e = elim (dec x y) [
    | no ne ↦ inr (record {
      left = (x, x');
      right = (y, y');
      left_in = inl refl;
      right_in = inl refl;
      differ = λ q. ne (ap (λ (t : A × A). t.0) q);
      meet = e;
    })
    | yes p ↦ elim (dec x' y') [
      | yes p' ↦ inl (p, p')
      | no ne ↦ inr (record {
        left = (x, x');
        right = (y, y');
        left_in = inl refl;
        right_in = inl refl;
        differ = λ q. ne (ap (λ (t : A × A). t.1) q);
        meet = e;
      })
    ]
  ]

  hash_pairs-binding :
      (xs ys : List A)
      → length xs ≡ length ys
      → length xs % 2 ≡ 0
      → hash_pairs node xs ≡ hash_pairs node ys
      → (xs ≡ ys) ⊎ Collision node (pairs xs) (pairs ys)
  unfolding hash_pairs
  hash_pairs-binding [] [] n even e = inl refl
  hash_pairs-binding [] (y ∷ ys) n even e = absurd (omega arith)
  hash_pairs-binding (x ∷ xs) [] n even e = absurd (omega arith)
  hash_pairs-binding (x ∷ []) (y ∷ ys) n even e = absurd (omega arith)
  hash_pairs-binding (x ∷ x' ∷ xs) (y ∷ []) n even e = absurd (omega arith)
  hash_pairs-binding (x ∷ x' ∷ xs) (y ∷ y' ∷ ys) n even e = elim (pairs_split x x' y y' (cc)) [
    | inr c ↦ inr (
        widen node (λ p h. In-append_left p ((x, x') ∷ []) (pairs xs) h)
          (λ p h. In-append_left p ((y, y') ∷ []) (pairs ys) h) c)
    | inl (p, p') ↦ elim (hash_pairs-binding xs ys (omega arith) (omega arith) (cc)) [
      | inl q ↦ inl (cc)
      | inr c ↦ inr (widen node (λ p h. inr h) (λ p h. inr h) c)
    ]
  ]

  next_layer-binding :
      (xs ys : List A)
      → length xs ≡ length ys
      → next_layer node xs ≡ next_layer node ys
      → (xs ≡ ys) ⊎ Collision node (pairs (pad_odd xs)) (pairs (pad_odd ys))
  unfolding next_layer
  next_layer-binding xs ys n e =
      elim (hash_pairs-binding (pad_odd xs) (pad_odd ys)
        (omega (arith, length-pad_odd xs, length-pad_odd ys)) (omega (arith, length-pad_odd xs))
        e) [ inl q ↦ inl (pad_odd-injective xs ys n q) | inr c ↦ inr c ]

  pub reduce_loop-binding :
      (fuel : ℕ) (xs ys : List A) (depth : ℕ)
      → length xs ≡ length ys
      → length xs ≤ fuel
      → (reduce_loop node fuel xs depth).0 ≡ (reduce_loop node fuel ys depth).0
      → (xs ≡ ys) ⊎ Collision node (joined node fuel xs) (joined node fuel ys)
  unfolding reduce_loop joined
  reduce_loop-binding zero xs ys depth n enough e = inl e
  reduce_loop-binding (suc fuel) xs ys depth n enough e = elim (Bool-cases (ltb 1 (length xs))) [
    | inr stop ↦
        let stop' : ltb 1 (length ys) ≡ false = rw (← n) stop in inl (rw (stop, stop') at e)
    | inl more ↦
        let up = length-next_layer node in
        let more' : ltb 1 (length ys) ≡ true = rw (← n) more in
        let e' = rw (more, more') at e in
        elim (reduce_loop-binding fuel (next_layer node xs) (next_layer node ys) (depth + 1)
          (omega (arith, up xs, up ys)) (ground (arith, up xs)) e') [
            | inr c ↦
                rw (more, more')
                  (inr (
                    widen node (λ p h. In-append_right p (pairs (pad_odd xs)) _ h)
                      (λ p h. In-append_right p (pairs (pad_odd ys)) _ h) c))
            | inl q ↦ elim (next_layer-binding xs ys n q) [
              | inl same ↦ inl same
              | inr c ↦
                  rw (more, more')
                    (inr (
                      widen node (λ p h. In-append_left p (pairs (pad_odd xs)) _ h)
                        (λ p h. In-append_left p (pairs (pad_odd ys)) _ h) c))
            ]
          ]
  ]

-- What all nodes of a layer have, the nodes above have too.
module _ {ℓ} {A : Type ℓ} (node : A → A → A) (P : A → Type ℓ)
    (closed : (a b : A) → P a → P b → P (node a b)) where
  hash_pairs-All : (xs : List A) → All P xs → All P (hash_pairs node xs)
  unfolding hash_pairs
  hash_pairs-All [] h = h
  hash_pairs-All (x ∷ []) h = h.1
  hash_pairs-All (x ∷ y ∷ r) h = (closed x y h.0 h.1.0, hash_pairs-All r h.1.1)

  next_layer-All : (xs : List A) → All P xs → All P (next_layer node xs)
  unfolding next_layer
  next_layer-All xs h = hash_pairs-All (pad_odd xs) (pad_odd-All P xs h)

  pub reduce_loop-All :
      (fuel : ℕ) (xs : List A) (depth : ℕ) → All P xs → All P (reduce_loop node fuel xs depth).0
  unfolding reduce_loop
  reduce_loop-All zero xs depth h = h
  reduce_loop-All (suc fuel) xs depth h = elim (Bool-cases (ltb 1 (length xs))) [
    | inl e ↦ rw e (reduce_loop-All fuel (next_layer node xs) (depth + 1) (next_layer-All xs h))
    | inr e ↦ rw e h
  ]

  -- Both nodes of a pair that the loop joins have it.
  pairs-known : (xs : List A) (p : A × A) → All P xs → In p (pairs xs) → P p.0 × P p.1
  pairs-known [] p h i = absurd i.lower
  pairs-known (x ∷ []) p h i = absurd i.lower
  pairs-known (x ∷ y ∷ r) p h (inl e) = rw e (h.0, h.1.0)
  pairs-known (x ∷ y ∷ r) p h (inr i) = pairs-known r p h.1.1 i

  pub joined-known :
      (fuel : ℕ) (xs : List A) (p : A × A) → All P xs → In p (joined node fuel xs) → P p.0 × P p.1
  unfolding joined
  joined-known zero xs p h i = absurd i.lower
  joined-known (suc fuel) xs p h i = elim (Bool-cases (ltb 1 (length xs))) [
    | inr e ↦ let i' = rw e at i in absurd i'.lower
    | inl e ↦
        elim (In-append_split p (pairs (pad_odd xs)) (joined node fuel (next_layer node xs))
          (rw e at i)) [
            | inl here ↦ pairs-known (pad_odd xs) p (pad_odd-All P xs h) here
            | inr above ↦ joined-known fuel (next_layer node xs) p (next_layer-All xs h) above
          ]
  ]
