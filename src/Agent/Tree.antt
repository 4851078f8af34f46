-- ===== src/Agent/Tree.antt =====
-- The leaf hashes, the trees and the inclusion proofs of agent/ima_reader.py. SHA-256 is an
-- argument; what the proofs rely on is `IsDigest`.
pub mod PreImage
pub mod Leaves
pub mod Builds
pub mod Proofs
pub mod Binding
use tpm_attest.Prelude.{
  ℕ, zero, suc, ◌+◌, ◌≡◌, ◌≢◌, true, false, List, [], ◌∷◌, ◌++◌, map, Text, Bytes, All, is_empty,
  length, if◌then◌else◌, Result, ok, raise, value_error, index_error, ◌>>=◌,
}
use tpm_attest.Python.Int.{ℤ, pos, negsuc, in_range}
use tpm_attest.Python.Decimal.{decimal}
use tpm_attest.Python.Encode.{encode, hex, IsByte}
use tpm_attest.Agent.Log.{Entry}
use tpm_attest.Agent.Merkle.Layers.{index_layer, reduce_to_root, proof_loop}

-- SHA-256 returns 32 bytes.
pub record IsDigest (sha256 : Bytes → Bytes) : Type 0 where
  pub size : (data' : Bytes) → length (sha256 data') ≡ 32
  pub bytes : (data' : Bytes) → All IsByte (sha256 data')

-- the dict of `build_ima_merkle_tree`
pub record Tree : Type 0 where
  pub root : Text
  pub depth : ℕ
  pub leaf_count : ℕ
  pub leaves : List Text

-- the dict of `get_ima_proof`
pub record Proof : Type 0 where
  pub index : ℕ
  pub leaf_hash : Text
  pub proof : List Text
  pub root : Text

-- "<index>:<pcr>:<template_hash>:<file_hash>:<filename>"
unfoldable pub pre_image : Entry → ℕ → Text
pre_image e index =
    decimal index ++ 58 ∷ (e.pcr ++ 58 ∷ (e.template_hash ++ 58 ∷ (e.file_hash ++ 58 ∷ e.filename)))

module _ (sha256 : Bytes → Bytes) where
  unfoldable pub leaf_hash : Entry → ℕ → Bytes
  unfolding pre_image
  leaf_hash entry index = sha256 (encode (pre_image entry index))

  -- `_sha256(current[i] + current[i + 1])`
  unfoldable pub parent_hash : Bytes → Bytes → Bytes
  parent_hash a b = sha256 (a ++ b)

  -- `[_leaf_hash(e, base_index + i) for i, e in enumerate(entries)]`
  unfoldable pub leaf_hashes : ℕ → List Entry → List Bytes
  leaf_hashes base_index [] = []
  leaf_hashes base_index (e ∷ entries) =
      leaf_hash e base_index ∷ leaf_hashes (suc base_index) entries

  unfoldable pub empty_tree : Tree
  empty_tree = record { root = hex (sha256 []); depth = 0; leaf_count = 0; leaves = [] }

  -- the part that both build functions share
  unfoldable pub tree_over : List Bytes → Result Tree
  tree_over leaf_raw =
      let (root_layer, depth) = reduce_to_root parent_hash leaf_raw in
      do
        root ← index_layer root_layer 0
        ok (record {
          root = hex root;
          depth = depth;
          leaf_count = length leaf_raw;
          leaves = map hex leaf_raw;
        })

  unfoldable pub build_ima_merkle_tree : List Entry → Result Tree
  unfolding leaf_hashes empty_tree tree_over
  build_ima_merkle_tree entries =
      if is_empty entries then ok empty_tree else tree_over (leaf_hashes 0 entries)

  -- the updated cache, and the tree
  unfoldable pub build_incremental_merkle_tree :
      List Bytes → List Entry → ℕ → Result (List Bytes × Tree)
  unfolding leaf_hashes empty_tree tree_over
  build_incremental_merkle_tree cached_leaves new_entries base_index =
      let all_leaves = cached_leaves ++ leaf_hashes base_index new_entries in
      if is_empty all_leaves
      then ok ([], empty_tree)
      else do tree ← tree_over all_leaves; ok (all_leaves, tree)

  -- the dict, once the leaf is found
  unfoldable pub proof_over : List Bytes → ℕ → Result Proof
  proof_over current_layer index = do
    leaf ← index_layer current_layer index
    (siblings, last) ← proof_loop parent_hash (length current_layer) current_layer index
    root ← index_layer last 0
    ok (record { index = index; leaf_hash = hex leaf; proof = map hex siblings; root = hex root })

  unfoldable pub proof_in : List Entry → ℤ → Result Proof
  unfolding leaf_hashes proof_over
  proof_in entries (pos index) = proof_over (leaf_hashes 0 entries) index
  proof_in entries (negsuc index) = raise index_error

  unfoldable pub get_ima_proof : List Entry → ℤ → Result Proof
  unfolding proof_in
  get_ima_proof entries index =
      if is_empty entries
      then raise value_error
      else if in_range index (length entries)
      then proof_in entries index
      else raise index_error
