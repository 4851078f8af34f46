-- ===== src/Agent/Tree/Builds.antt =====
-- The trees that `build_ima_merkle_tree` and `build_incremental_merkle_tree` return
-- (agent/ima_reader.py).
use native.Mathlib.Nat.{zero-add}
use tpm_attest.Prelude.{
  ℕ, ◌+◌, ◌<◌, ◌≡◌, ◌≢◌, refl, sym, ap, ◌∙◌, List, [], ◌∷◌, ◌++◌, map, arith, Bytes, length,
  is_empty, if◌then◌else◌, Result, ok, ok-injective, ◌>>=◌,
}
use tpm_attest.Python.Encode.{hex}
use tpm_attest.Agent.Log.{Entry}
use tpm_attest.Agent.Merkle.Layers.{index_layer, reduce_loop, reduce_to_root}
use tpm_attest.Agent.Merkle.Roots.{Reduced, reduce_loop-Reduced}
use tpm_attest.Agent.Tree.{
  Tree, parent_hash, leaf_hashes, empty_tree, tree_over, build_ima_merkle_tree,
  build_incremental_merkle_tree,
}
use tpm_attest.Agent.Tree.Leaves.{length-leaf_hashes, leaf_hashes-append}

pub reduce_to_root-of_loop :
    (node : Bytes → Bytes → Bytes) (layer : List Bytes) (n : ℕ) {root : Bytes}
    → reduce_loop node (length layer) layer 0 ≡ (root ∷ [], 0 + n)
    → reduce_to_root node layer ≡ (root ∷ [], n)
unfolding reduce_to_root
reduce_to_root-of_loop node layer n {root} p =
    p ∙ ap (λ (m : ℕ). let r : List Bytes × ℕ = (root ∷ [], m) in r) (zero-add n)

module _ (sha256 : Bytes → Bytes) where
  -- The tree over the leaf hashes: the root is the node at the top, and the depth is the least that
  -- leaves room for all leaves.
  pub record IsTreeOver (leaf_raw : List Bytes) (tree : Tree) : Type 0 where
    pub root_hash : Bytes
    pub root : tree.root ≡ hex root_hash
    pub reduced : Reduced (parent_hash sha256) leaf_raw tree.depth root_hash
    pub leaf_count : tree.leaf_count ≡ length leaf_raw
    pub leaves : tree.leaves ≡ map hex leaf_raw

  pub tree_over-of_reduced :
      (leaf_raw : List Bytes) (k : ℕ) (root : Bytes)
      → reduce_to_root (parent_hash sha256) leaf_raw ≡ (root ∷ [], k)
      → tree_over sha256 leaf_raw
        ≡ ok (record {
          root = hex root;
          depth = k;
          leaf_count = length leaf_raw;
          leaves = map hex leaf_raw;
        })
  unfolding tree_over index_layer
  tree_over-of_reduced leaf_raw k root p = rw p

  pub tree_over-IsTreeOver :
      (leaf_raw : List Bytes)
      → 0 < length leaf_raw
      → (tree : Tree) × (tree_over sha256 leaf_raw ≡ ok tree) × IsTreeOver leaf_raw tree
  tree_over-IsTreeOver leaf_raw pos =
      let (k, root, ran, red) =
        reduce_loop-Reduced (parent_hash sha256) (length leaf_raw) leaf_raw 0 pos (omega arith) in
      (
        record {
          root = hex root;
          depth = k;
          leaf_count = length leaf_raw;
          leaves = map hex leaf_raw;
        },
        tree_over-of_reduced leaf_raw k root
            (reduce_to_root-of_loop (parent_hash sha256) leaf_raw k ran),
        record { root_hash = root; root = refl; reduced = red; leaf_count = refl; leaves = refl },
      )

  -- what a tree that was built says of the loop
  pub tree_over-inversion :
      (leaf_raw : List Bytes) {tree : Tree}
      → 0 < length leaf_raw
      → tree_over sha256 leaf_raw ≡ ok tree
      → (root : Bytes) × ((reduce_to_root (parent_hash sha256) leaf_raw).0 ≡ root ∷ [])
        × (tree.root ≡ hex root)
        × (tree.leaf_count ≡ length leaf_raw)
  tree_over-inversion leaf_raw {tree} pos built =
      let (k, root, ran, red) =
        reduce_loop-Reduced (parent_hash sha256) (length leaf_raw) leaf_raw 0 pos (omega arith) in
      let ran' = reduce_to_root-of_loop (parent_hash sha256) leaf_raw k ran in
      let e = ok-injective (sym (tree_over-of_reduced leaf_raw k root ran') ∙ built) in
      (
        root,
        ap (λ (t : List Bytes × ℕ). t.0) ran',
        ap (λ (t : Tree). t.root) (sym e),
        ap (λ (t : Tree). t.leaf_count) (sym e),
      )

  -- The build never raises on a log with entries, and returns the Merkle tree of its leaf hashes.
  pub build_ima_merkle_tree-IsTreeOver :
      (entries : List Entry)
      → entries ≢ []
      → (tree : Tree) × (build_ima_merkle_tree sha256 entries ≡ ok tree)
        × IsTreeOver (leaf_hashes sha256 0 entries) tree
  unfolding build_ima_merkle_tree
  build_ima_merkle_tree-IsTreeOver [] ne = absurd (ne refl)
  build_ima_merkle_tree-IsTreeOver (e ∷ entries) ne =
      tree_over-IsTreeOver (leaf_hashes sha256 0 (e ∷ entries))
        (omega (arith, length-leaf_hashes sha256 0 (e ∷ entries)))

  pub build_ima_merkle_tree-nil : build_ima_merkle_tree sha256 [] ≡ ok (empty_tree sha256)
  unfolding build_ima_merkle_tree
  build_ima_merkle_tree-nil = refl

  pub build_ima_merkle_tree-cons :
      (e : Entry) (entries : List Entry)
      → build_ima_merkle_tree sha256 (e ∷ entries)
        ≡ tree_over sha256 (leaf_hashes sha256 0 (e ∷ entries))
  unfolding build_ima_merkle_tree
  build_ima_merkle_tree-cons e entries = refl

  build_with_leaves :
      (entries : List Entry)
      → if◌then◌else◌ {A = Result (List Bytes × Tree)}
          (is_empty (leaf_hashes sha256 0 entries))
          (ok ([], empty_tree sha256))
          (do
            tree ← tree_over sha256 (leaf_hashes sha256 0 entries)
            ok (leaf_hashes sha256 0 entries, tree))
        ≡ (do tree ← build_ima_merkle_tree sha256 entries; ok (leaf_hashes sha256 0 entries, tree))
  unfolding build_ima_merkle_tree
  build_with_leaves [] = refl
  build_with_leaves (e ∷ entries) = refl

  -- Extending the cached leaves of a log by its new entries gives the leaves and the tree that a
  -- build over the whole log gives.
  pub build_incremental_merkle_tree-append :
      (xs ys : List Entry)
      → build_incremental_merkle_tree sha256 (leaf_hashes sha256 0 xs) ys (length xs) ≡ (do
        tree ← build_ima_merkle_tree sha256 (xs ++ ys)
        ok (leaf_hashes sha256 0 (xs ++ ys), tree))
  unfolding build_incremental_merkle_tree
  build_incremental_merkle_tree-append xs ys =
      let e : leaf_hashes sha256 0 xs ++ leaf_hashes sha256 (length xs) ys
          ≡ leaf_hashes sha256 0 (xs ++ ys) =
        rw (leaf_hashes-append sha256 0 xs ys, zero-add) in
      rw e (build_with_leaves (xs ++ ys))
