-- ===== src/Agent/Tree/Proofs.antt =====
-- The inclusion proofs of `get_ima_proof` (agent/ima_reader.py).
use native.Mathlib.Nat.{zero-add}
use tpm_attest.Prelude.{
  ℕ, ◌≡◌, ◌≢◌, refl, ◌∙◌, some, List, [], ◌∷◌, map, arith, false, Bytes, length, get_elem?, ok,
  raise, value_error, index_error, lt→ltb,
}
use tpm_attest.Python.Int.{ℤ, pos, in_range}
use tpm_attest.Python.Encode.{hex}
use tpm_attest.Agent.Log.{Entry}
use tpm_attest.Agent.Merkle.Layers.{index_layer, proof_loop}
use tpm_attest.Agent.Merkle.Inclusion.{root_of_proof, proof_loop-Includes}
use tpm_attest.Agent.Merkle.Rounds.{lt-length_of_get_elem?, index_layer-of_get_elem?}
use tpm_attest.Agent.Tree.{
  Tree, Proof, parent_hash, leaf_hash, leaf_hashes, build_ima_merkle_tree, proof_over,
  get_ima_proof,
}
use tpm_attest.Agent.Tree.Leaves.{get_elem?-leaf_hashes}
use tpm_attest.Agent.Tree.Builds.{
  reduce_to_root-of_loop, tree_over-of_reduced, build_ima_merkle_tree-cons,
}

module _ (sha256 : Bytes → Bytes) where
  -- What a proof shows of the entry at its index, in the tree of a log.
  pub record Proves (entries : List Entry) (index : ℕ) (e : Entry) (p : Proof) : Type 0 where
    pub siblings : List Bytes
    pub root_hash : Bytes
    pub tree : Tree
    pub index_kept : p.index ≡ index
    pub leaf : p.leaf_hash ≡ hex (leaf_hash sha256 e index)
    pub proof : p.proof ≡ map hex siblings
    pub root : p.root ≡ hex root_hash
    pub verifies :
        root_of_proof (parent_hash sha256) index (leaf_hash sha256 e index) siblings ≡ root_hash
    pub built : build_ima_merkle_tree sha256 entries ≡ ok tree
    pub same_root : tree.root ≡ p.root
    pub one_per_level : length siblings ≡ tree.depth

  proof_over-of_loop :
      (layer : List Bytes) (i : ℕ) {h root : Bytes} {siblings : List Bytes}
      → get_elem? layer i ≡ some h
      → proof_loop (parent_hash sha256) (length layer) layer i ≡ ok (siblings, root ∷ [])
      → proof_over sha256 layer i
        ≡ ok (record { index = i; leaf_hash = hex h; proof = map hex siblings; root = hex root })
  unfolding proof_over index_layer hex
  proof_over-of_loop layer i p q = rw (index_layer-of_get_elem? layer i p, q)

  -- On an index in range `get_ima_proof` raises nothing, and returns a proof that leads from the
  -- entry's leaf to the root of the tree over the same log, with a sibling for each level.
  pub get_ima_proof-Proves :
      (entries : List Entry) (i : ℕ) {e : Entry}
      → get_elem? entries i ≡ some e
      → (p : Proof) × (get_ima_proof sha256 entries (pos i) ≡ ok p) × Proves entries i e p
  unfolding get_ima_proof
  get_ima_proof-Proves [] i at_i = absurd (cc)
  get_ima_proof-Proves (x ∷ entries) i {e} at_i =
      let log : List Entry = x ∷ entries in
      let layer : List Bytes = leaf_hashes sha256 0 log in
      let at_leaf : get_elem? layer i ≡ some (leaf_hash sha256 e i) =
        rw zero-add at (get_elem?-leaf_hashes sha256 0 log i at_i) in
      let (siblings, root, ran, reduced, verifies) =
        proof_loop-Includes (parent_hash sha256) (length layer) layer i 0 (omega arith) at_leaf in
      let inside = lt-length_of_get_elem? log i at_i in
      (
        record {
          index = i;
          leaf_hash = hex (leaf_hash sha256 e i);
          proof = map hex siblings;
          root = hex root;
        },
        rw (lt→ltb i (length log) inside) (proof_over-of_loop layer i at_leaf ran),
        record {
          siblings = siblings;
          root_hash = root;
          tree = record {
            root = hex root;
            depth = length siblings;
            leaf_count = length layer;
            leaves = map hex layer;
          };
          index_kept = refl;
          leaf = refl;
          proof = refl;
          root = refl;
          verifies = verifies;
          built =
              build_ima_merkle_tree-cons sha256 x entries
              ∙ tree_over-of_reduced sha256 layer (length siblings) root
                  (reduce_to_root-of_loop (parent_hash sha256) layer (length siblings) reduced);
          same_root = refl;
          one_per_level = refl;
        },
      )

  -- The errors: an empty log is a ValueError, and an index out of range, below or above, an
  -- IndexError.
  pub get_ima_proof-empty : (index : ℤ) → get_ima_proof sha256 [] index ≡ raise value_error
  unfolding get_ima_proof
  get_ima_proof-empty index = refl

  pub get_ima_proof-out_of_range :
      (entries : List Entry) (index : ℤ)
      → entries ≢ []
      → in_range index (length entries) ≡ false
      → get_ima_proof sha256 entries index ≡ raise index_error
  unfolding get_ima_proof
  get_ima_proof-out_of_range [] index ne out = absurd (ne refl)
  get_ima_proof-out_of_range (e ∷ entries) index ne out = rw out
