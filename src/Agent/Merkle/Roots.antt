-- ===== src/Agent/Merkle/Roots.antt =====
-- The root that the loop of `_reduce_to_root` reaches, against a description of the tree by
-- positions, and the depth that it counts.
use Prim.Native.Nat.{min}
use native.Mathlib.Decide.{dec_lt}
use native.Mathlib.Nat.{add-zero, pow-suc}
use tpm_attest.Prelude.{
  ℕ, zero, suc, ◌+◌, ◌-◌, ◌/◌, ◌^◌, ◌<◌, ◌≤◌, ◌≡◌, refl, Option, none, some, List, [], ◌∷◌, arith,
  lt→ltb, length, get_elem?, get_elem?-of_lt, get_elem?-past,
}
use tpm_attest.Agent.Merkle.Layers.{next_layer, reduce_loop}
use tpm_attest.Agent.Merkle.Rounds.{
  length-next_layer, get_elem?-next_layer, get_elem?-next_layer_past,
}

-- the number of nodes `d` rounds above `n` leaves
unfoldable pub width : ℕ → ℕ → ℕ
width n zero = n
width n (suc d) = (width n d + 1) / 2

width_shift : (n d : ℕ) → width ((n + 1) / 2) d ≡ width n (suc d)
unfolding width
width_shift n zero = refl
width_shift n (suc d) = rw (width_shift n d)

module _ {ℓ} {A : Type ℓ} (node : A → A → A) where
  abbrev pub node_of : Option A → Option A → Option A
  node_of (some a) (some b) = some (node a b)
  node_of (some a) none = none
  node_of none b = none

  -- The node at height `d` and position `i`: its right child is the last node of its row if there
  -- is none to the right.
  unfoldable pub node_at : List A → ℕ → ℕ → Option A
  node_at leaves zero i = get_elem? leaves i
  node_at leaves (suc d) i =
      node_of (node_at leaves d (i + i))
        (node_at leaves d (min (suc (i + i)) (width (length leaves) d - 1)))

  next_layer-node_of :
      (xs : List A) (i : ℕ)
      → get_elem? (next_layer node xs) i
        ≡ node_of (get_elem? xs (i + i)) (get_elem? xs (min (suc (i + i)) (length xs - 1)))
  next_layer-node_of xs i = elim (dec_lt (i + i) (length xs)) [
    | yes h ↦
        let (a, p) = get_elem?-of_lt xs (i + i) h in
        let (b, q) = get_elem?-of_lt xs (min (suc (i + i)) (length xs - 1)) (omega (arith, h)) in
        rw (p, q) (get_elem?-next_layer node xs i p q)
    | no h ↦
        let past : length xs ≤ i + i = omega (arith, h) in
        rw (get_elem?-past xs (i + i) past) (get_elem?-next_layer_past node xs i past)
  ]

  node_at_shift :
      (leaves : List A) (d i : ℕ) → node_at (next_layer node leaves) d i ≡ node_at leaves (suc d) i
  unfolding node_at width
  node_at_shift leaves zero i = next_layer-node_of leaves i
  node_at_shift leaves (suc d) i = rw (
    node_at_shift leaves d (i + i),
    length-next_layer,
    width_shift (length leaves) d,
    node_at_shift leaves d (min (suc (i + i)) (width (length leaves) (suc d) - 1)),
  )

  -- What a run of the loop on a layer has reached after `k` rounds, from the depth `d`.
  pub record Reduced (layer : List A) (k : ℕ) (root : A) : Type ℓ where
    pub at_root : node_at layer k 0 ≡ some root
    pub fits : length layer ≤ 2 ^ k
    pub least : (j : ℕ) → length layer ≤ 2 ^ j → k ≤ j

  Reduced-single : (x : A) → Reduced (x ∷ []) 0 x
  unfolding node_at
  Reduced-single x = record { at_root = refl; fits = omega arith; least = λ j h. omega arith }

  Reduced-next :
      (layer : List A) {k : ℕ} {root : A}
      → 1 < length layer
      → Reduced (next_layer node layer) k root
      → Reduced layer (suc k) root
  Reduced-next layer {k} {root} h r = record {
    at_root = rw (← node_at_shift layer k 0) r.at_root;
    fits = rw pow-suc (omega (arith, length-next_layer node layer, r.fits));
    least = least_next;
  }
    where
      least_next : (j : ℕ) → length layer ≤ 2 ^ j → suc k ≤ j
      least_next zero g = absurd (omega arith)
      least_next (suc j) g =
          let g' = rw pow-suc at g in
          omega (arith, r.least j (omega (arith, length-next_layer node layer, g')))

  pub reduce_loop-Reduced :
      (fuel : ℕ) (layer : List A) (depth : ℕ)
      → 0 < length layer
      → length layer ≤ fuel
      → (k : ℕ) × (root : A) × (reduce_loop node fuel layer depth ≡ (root ∷ [], depth + k))
        × Reduced layer k root
  unfolding reduce_loop
  reduce_loop-Reduced zero layer depth pos enough = absurd (omega arith)
  reduce_loop-Reduced (suc fuel) [] depth pos enough = absurd (omega arith)
  reduce_loop-Reduced (suc fuel) (x ∷ []) depth pos enough = (0, x, rw add-zero, Reduced-single x)
  reduce_loop-Reduced (suc fuel) (x ∷ y ∷ r) depth pos enough =
      let layer : List A = x ∷ y ∷ r in
      let up = length-next_layer node layer in
      let more : 1 < length layer = omega arith in
      let (k, root, ran, red) =
        reduce_loop-Reduced fuel (next_layer node layer) (depth + 1) (omega (arith, up))
          (omega (arith, up, enough)) in
      let deeper : depth + 1 + k ≡ depth + suc k = omega arith in
      (suc k, root, rw (lt→ltb 1 (length layer) more, ran, deeper), Reduced-next layer more red)
