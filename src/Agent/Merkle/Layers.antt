-- ===== src/Agent/Merkle/Layers.antt =====
-- One round of the Merkle loops of agent/ima_reader.py, and the loops.
use tpm_attest.Prelude.{
  ℕ, zero, suc, ◌+◌, ◌-◌, ◌/◌, ◌%◌, none, some, List, [], ◌∷◌, ltb, ◌==◌, if◌then◌else◌, length,
  get_elem?, Result, ok, raise, index_error, ◌>>=◌,
}

-- the position of the other child of the same parent
unfoldable pub sibling_index : ℕ → ℕ
sibling_index i = if i % 2 == 0 then i + 1 else i - 1

module _ {ℓ} {A : Type ℓ} where
  -- `current.append(current[-1])`
  unfoldable pub append_last : List A → List A
  append_last [] = []
  append_last (x ∷ []) = x ∷ x ∷ []
  append_last (x ∷ y ∷ r) = x ∷ append_last (y ∷ r)

  -- `if len(current) % 2 == 1: current.append(current[-1])`
  unfoldable pub pad_odd : List A → List A
  pad_odd layer = if length layer % 2 == 1 then append_last layer else layer

  -- `layer[i]`, for an index that is not negative
  unfoldable pub index_layer : List A → ℕ → Result A
  index_layer layer i = elim (get_elem? layer i) [ none ↦ raise index_error | some a ↦ ok a ]

module _ {ℓ} {A : Type ℓ} (node : A → A → A) where
  -- `[_sha256(current[i] + current[i + 1]) for i in range(0, len(current), 2)]`; the length is even
  unfoldable pub hash_pairs : List A → List A
  hash_pairs [] = []
  hash_pairs (x ∷ []) = []
  hash_pairs (x ∷ y ∷ r) = node x y ∷ hash_pairs r

  -- the body of both `while` loops, as far as the layer goes
  unfoldable pub next_layer : List A → List A
  next_layer layer = hash_pairs (pad_odd layer)

  -- the `while` loop of `_reduce_to_root`
  unfoldable pub reduce_loop : ℕ → List A → ℕ → List A × ℕ
  reduce_loop zero current depth = (current, depth)
  reduce_loop (suc fuel) current depth =
      let rest = reduce_loop fuel (next_layer current) (depth + 1) in
      if ltb 1 (length current) then rest else (current, depth)

  unfoldable pub reduce_to_root : List A → List A × ℕ
  unfolding reduce_loop
  reduce_to_root layer = reduce_loop (length layer) layer 0

  -- the `while` loop of `get_ima_proof`: the siblings, and the last layer
  unfoldable pub proof_loop : ℕ → List A → ℕ → Result (List A × List A)
  proof_loop zero current_layer current_index = ok ([], current_layer)
  proof_loop (suc fuel) current_layer current_index =
      let more : Result (List A × List A) = (do
        sibling ← index_layer (pad_odd current_layer) (sibling_index current_index)
        (proof, last) ← proof_loop fuel (next_layer current_layer) (current_index / 2)
        ok (sibling ∷ proof, last)) in
      if ltb 1 (length current_layer) then more else ok ([], current_layer)
