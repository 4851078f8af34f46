-- ===== src/Agent/Merkle/Inclusion.antt =====
-- The proofs that the loop of `get_ima_proof` collects, against a verifier that recomputes the root.
use native.Mathlib.Nat.{add-zero}
use native.Mathlib.Decide.{ℕ_discrete}
use tpm_attest.Prelude.{
  ℕ, zero, suc, ◌+◌, ◌-◌, ◌/◌, ◌%◌, ◌<◌, ◌≤◌, ◌≡◌, refl, some, List, [], ◌∷◌, arith, ◌==◌,
  if◌then◌else◌, lt→ltb, length, get_elem?, get_elem?-of_lt, ok,
}
use tpm_attest.Agent.Merkle.Layers.{
  pad_odd, sibling_index, hash_pairs, next_layer, reduce_loop, proof_loop,
}
use tpm_attest.Agent.Merkle.Rounds.{
  length-pad_odd, length-next_layer, get_elem?-pad_odd, lt-length_of_get_elem?,
  index_layer-of_get_elem?, get_elem?-hash_pairs,
}

module _ {ℓ} {A : Type ℓ} (node : A → A → A) where
  -- The root that a holder of a leaf, its position and the siblings computes.
  unfoldable pub root_of_proof : ℕ → A → List A → A
  root_of_proof i h [] = h
  root_of_proof i h (sibling ∷ proof) =
      root_of_proof (i / 2) (if i % 2 == 0 then node h sibling else node sibling h) proof

  -- the parent of a node and its sibling, the node being the left or the right child
  parent_of :
      (xs : List A) (i : ℕ) {h s : A}
      → get_elem? xs i ≡ some h
      → get_elem? xs (sibling_index i) ≡ some s
      → get_elem? (hash_pairs node xs) (i / 2) ≡ some (if i % 2 == 0 then node h s else node s h)
  unfolding sibling_index
  parent_of xs i {h} {s} p q = elim (ℕ_discrete (i % 2) 0) [
    | yes e ↦
        let l : i / 2 + i / 2 ≡ i = omega (arith, e) in
        let r : i + 1 ≡ suc i = omega arith in
        rw e (get_elem?-hash_pairs node xs (i / 2) (rw l p) (rw l (rw (e, r) at q)))
    | no ne ↦
        let e : i % 2 ≡ 1 = omega (arith, ne) in
        let l : i / 2 + i / 2 ≡ i - 1 = omega (arith, e) in
        let r : suc (i - 1) ≡ i = omega (arith, e) in
        rw e (get_elem?-hash_pairs node xs (i / 2) (rw l (rw e at q)) (rw (l, r) p))
  ]

  parent_in_next :
      (layer : List A) (i : ℕ) {h s : A}
      → i < length layer
      → get_elem? layer i ≡ some h
      → get_elem? (pad_odd layer) (sibling_index i) ≡ some s
      → get_elem? (next_layer node layer) (i / 2) ≡ some (if i % 2 == 0 then node h s else node s h)
  unfolding next_layer
  parent_in_next layer i inside p q =
      parent_of (pad_odd layer) i (rw (get_elem?-pad_odd layer i inside) p) q

  sibling_in_layer :
      (layer : List A) (i : ℕ) → i < length layer → sibling_index i < length (pad_odd layer)
  unfolding sibling_index
  sibling_in_layer layer i h = ground (arith, length-pad_odd layer)

  proof_loop_step :
      (fuel : ℕ) (layer : List A) (i : ℕ) {s root : A} {proof : List A}
      → 1 < length layer
      → get_elem? (pad_odd layer) (sibling_index i) ≡ some s
      → proof_loop node fuel (next_layer node layer) (i / 2) ≡ ok (proof, root ∷ [])
      → proof_loop node (suc fuel) layer i ≡ ok (s ∷ proof, root ∷ [])
  unfolding proof_loop
  proof_loop_step fuel layer i more at_s rest = rw (
    lt→ltb 1 (length layer) more,
    index_layer-of_get_elem? (pad_odd layer) (sibling_index i) at_s,
    rest,
  )

  reduce_loop_step :
      (fuel : ℕ) (layer : List A) (depth n : ℕ) {root : A}
      → 1 < length layer
      → reduce_loop node fuel (next_layer node layer) (depth + 1) ≡ (root ∷ [], depth + 1 + n)
      → reduce_loop node (suc fuel) layer depth ≡ (root ∷ [], depth + suc n)
  unfolding reduce_loop
  reduce_loop_step fuel layer depth n more rest =
      let deeper : depth + 1 + n ≡ depth + suc n = omega arith in
      rw (lt→ltb 1 (length layer) more, rest, deeper)

  -- `reduce_loop` and `proof_loop` go up through the same layers; neither stops early, and the
  -- proof leads from the leaf to the root.
  pub proof_loop-Includes :
      (fuel : ℕ) (layer : List A) (i depth : ℕ) {h : A}
      → length layer ≤ fuel
      → get_elem? layer i ≡ some h
      → (proof : List A) × (root : A) × (proof_loop node fuel layer i ≡ ok (proof, root ∷ []))
        × (reduce_loop node fuel layer depth ≡ (root ∷ [], depth + length proof))
        × (root_of_proof i h proof ≡ root)
  unfolding proof_loop reduce_loop root_of_proof
  proof_loop-Includes zero [] i depth enough at_i = absurd (cc)
  proof_loop-Includes zero (x ∷ r) i depth enough at_i = absurd (omega arith)
  proof_loop-Includes (suc fuel) [] i depth enough at_i = absurd (cc)
  proof_loop-Includes (suc fuel) (x ∷ []) zero depth enough at_i = ([], x, refl, rw add-zero, cc)
  proof_loop-Includes (suc fuel) (x ∷ []) (suc i) depth enough at_i = absurd (cc)
  proof_loop-Includes (suc fuel) (x ∷ y ∷ r) i depth enough at_i =
      let layer : List A = x ∷ y ∷ r in
      let inside = lt-length_of_get_elem? layer i at_i in
      let (s, at_s) =
        get_elem?-of_lt (pad_odd layer) (sibling_index i) (sibling_in_layer layer i inside) in
      let up = parent_in_next layer i inside at_i at_s in
      let (proof, root, p, q, v) =
        proof_loop-Includes fuel (next_layer node layer) (i / 2) (depth + 1)
          (omega (arith, length-next_layer node layer, enough)) up in
      (
        s ∷ proof,
        root,
        proof_loop_step fuel layer i (omega arith) at_s p,
        reduce_loop_step fuel layer depth (length proof) (omega arith) q,
        v,
      )
