-- ===== src/Agent/Tree/Binding.antt =====
-- What the root of `build_ima_merkle_tree` binds (agent/ima_reader.py): a collision of SHA-256 is
-- found among what the two builds hash, not assumed away.
use tpm_attest.Prelude.{
  ℕ, suc, ◌≡◌, ◌≢◌, sym, ap, subst, ◌∙◌, List, [], ◌∷◌, ◌++◌, arith, inl, inr, ◌⊎◌, Bytes, All,
  length, append-eq_split, In, In-map, In-append_left, In-append_right, map, ok, ok-injective,
}
use tpm_attest.Python.Encode.{hex-injective, IsByte}
use tpm_attest.Agent.Log.{Entry}
use tpm_attest.Agent.Merkle.Layers.{reduce_to_root}
use tpm_attest.Agent.Merkle.Binding.{
  Collision, joined, joined-known, reduce_loop-binding, reduce_loop-All,
}
use tpm_attest.Agent.Tree.{IsDigest, Tree, parent_hash, leaf_hashes, build_ima_merkle_tree}
use tpm_attest.Agent.Tree.Builds.{tree_over-inversion, build_ima_merkle_tree-cons}
use tpm_attest.Agent.Tree.PreImage.{IsTemplate, SameMeasurement}
use tpm_attest.Agent.Tree.Leaves.{
  ShaCollision, widen_sha, leaf_input, leaf_inputs, Bytes-discrete, length-leaf_hashes,
  leaf_hash-binding, leaf_hashes-size, leaf_hashes-bytes,
}

-- entry by entry
abbrev pub SameLog : List Entry → List Entry → Type 0
SameLog [] [] = Unit
SameLog [] (e ∷ es) = ⊥
SameLog (d ∷ ds) [] = ⊥
SameLog (d ∷ ds) (e ∷ es) = SameMeasurement d e × SameLog ds es

module _ (sha256 : Bytes → Bytes) where
  -- what the loop over a row of nodes gives to SHA-256
  abbrev pub node_inputs : List Bytes → List Bytes
  node_inputs leaf_raw =
      map (λ (p : Bytes × Bytes). p.0 ++ p.1)
        (joined (parent_hash sha256) (length leaf_raw) leaf_raw)

  -- all that `build_ima_merkle_tree` gives to SHA-256
  abbrev pub hash_inputs : List Entry → List Bytes
  hash_inputs entries = leaf_inputs 0 entries ++ node_inputs (leaf_hashes sha256 0 entries)

module _ (sha256 : Bytes → Bytes) (h : IsDigest sha256) where
  abbrev Has32 : Bytes → Type 0
  Has32 b = length b ≡ 32

  parent_hash-size : (a b : Bytes) → Has32 a → Has32 b → Has32 (parent_hash sha256 a b)
  unfolding parent_hash
  parent_hash-size a b p q = h.size (a ++ b)

  parent_hash-bytes :
      (a b : Bytes) → All IsByte a → All IsByte b → All IsByte (parent_hash sha256 a b)
  unfolding parent_hash
  parent_hash-bytes a b p q = h.bytes (a ++ b)

  sha_collision :
      (xs ys : List Bytes)
      → All Has32 xs
      → All Has32 ys
      → Collision
          (parent_hash sha256)
          (joined (parent_hash sha256) (length xs) xs)
          (joined (parent_hash sha256) (length ys) ys)
      → ShaCollision sha256 (node_inputs sha256 xs) (node_inputs sha256 ys)
  unfolding parent_hash
  sha_collision xs ys px py c = record {
    left = c.left.0 ++ c.left.1;
    right = c.right.0 ++ c.right.1;
    left_in = In-map (λ (p : Bytes × Bytes). p.0 ++ p.1) c.left _ c.left_in;
    right_in = In-map (λ (p : Bytes × Bytes). p.0 ++ p.1) c.right _ c.right_in;
    differ = λ e. c.differ (
        pair_path (
          append-eq_split c.left.0 c.left.1 c.right.0 c.right.1
            ((known xs c.left px c.left_in).0 ∙ sym (known ys c.right py c.right_in).0) e));
    meet = c.meet;
  }
    where
      pair_path : (c.left.0 ≡ c.right.0) × (c.left.1 ≡ c.right.1) → c.left ≡ c.right
      pair_path (p, q) = λ i. (p i, q i)

      known :
          (zs : List Bytes) (p : Bytes × Bytes)
          → All Has32 zs
          → In p (joined (parent_hash sha256) (length zs) zs)
          → Has32 p.0 × Has32 p.1
      known zs p pz i =
          joined-known (parent_hash sha256) Has32 parent_hash-size (length zs) zs p pz i

  -- Two rows of leaves of one length and with one root are equal, or two inputs collide.
  reduce_to_root-binding :
      (xs ys : List Bytes)
      → length xs ≡ length ys
      → All Has32 xs
      → All Has32 ys
      → (reduce_to_root (parent_hash sha256) xs).0 ≡ (reduce_to_root (parent_hash sha256) ys).0
      → (xs ≡ ys) ⊎ ShaCollision sha256 (node_inputs sha256 xs) (node_inputs sha256 ys)
  unfolding reduce_to_root
  reduce_to_root-binding xs ys n px py e =
      elim (reduce_loop-binding Bytes-discrete (parent_hash sha256) (length xs) xs ys 0 n
        (omega arith) (rw (← n) at e)) [
          | inl p ↦ inl p
          | inr c ↦ inr (
              sha_collision xs ys px py (
                subst
                  (λ (k : ℕ).
                    Collision (parent_hash sha256) (joined (parent_hash sha256) (length xs) xs)
                      (joined (parent_hash sha256) k ys))
                  n c))
        ]

  leaf_hashes-binding :
      (base : ℕ) (ds es : List Entry)
      → All IsTemplate ds
      → All IsTemplate es
      → leaf_hashes sha256 base ds ≡ leaf_hashes sha256 base es
      → SameLog ds es ⊎ ShaCollision sha256 (leaf_inputs base ds) (leaf_inputs base es)
  unfolding leaf_hashes
  leaf_hashes-binding base [] [] hd he p = inl tt
  leaf_hashes-binding base [] (e ∷ es) hd he p = absurd (cc)
  leaf_hashes-binding base (d ∷ ds) [] hd he p = absurd (cc)
  leaf_hashes-binding base (d ∷ ds) (e ∷ es) hd he p =
      elim (leaf_hash-binding sha256 d e base base hd.0 he.0 (cc)) [
        | inr c ↦ inr (
            widen_sha
              (λ b i. In-append_left b (leaf_input d base ∷ []) (leaf_inputs (suc base) ds) i)
              (λ b i. In-append_left b (leaf_input e base ∷ []) (leaf_inputs (suc base) es) i) c)
        | inl same ↦ elim (leaf_hashes-binding (suc base) ds es hd.1 he.1 (cc)) [
          | inl rest ↦ inl (same, rest)
          | inr c ↦ inr (widen_sha (λ b i. inr i) (λ b i. inr i) c)
        ]
      ]

  root-bytes :
      (leaf_raw : List Bytes) {root : Bytes}
      → All (All IsByte) leaf_raw
      → (reduce_to_root (parent_hash sha256) leaf_raw).0 ≡ root ∷ []
      → All IsByte root
  unfolding reduce_to_root
  root-bytes leaf_raw p e =
      (subst (All (All IsByte)) e (
        reduce_loop-All (parent_hash sha256) (All IsByte) parent_hash-bytes (length leaf_raw)
          leaf_raw 0 p)).0

  -- the trees of two logs with entries
  cons-binding :
      (d e : Entry) (ds es : List Entry) {t u : Tree}
      → build_ima_merkle_tree sha256 (d ∷ ds) ≡ ok t
      → build_ima_merkle_tree sha256 (e ∷ es) ≡ ok u
      → t.leaf_count ≡ u.leaf_count
      → t.root ≡ u.root
      → All IsTemplate (d ∷ ds)
      → All IsTemplate (e ∷ es)
      → SameLog (d ∷ ds) (e ∷ es)
        ⊎ ShaCollision sha256 (hash_inputs sha256 (d ∷ ds)) (hash_inputs sha256 (e ∷ es))
  cons-binding d e ds es bt bu same_count same_root hd he =
      let xs = leaf_hashes sha256 0 (d ∷ ds) in
      let ys = leaf_hashes sha256 0 (e ∷ es) in
      let nx = length-leaf_hashes sha256 0 (d ∷ ds) in
      let ny = length-leaf_hashes sha256 0 (e ∷ es) in
      let (r, rx, ht, ct) =
        tree_over-inversion sha256 xs (omega (arith, nx))
          (sym (build_ima_merkle_tree-cons sha256 d ds) ∙ bt) in
      let (s, ry, hu, cu) =
        tree_over-inversion sha256 ys (omega (arith, ny))
          (sym (build_ima_merkle_tree-cons sha256 e es) ∙ bu) in
      let same : r ≡ s =
        hex-injective r s (root-bytes xs (leaf_hashes-bytes sha256 h 0 (d ∷ ds)) rx)
          (root-bytes ys (leaf_hashes-bytes sha256 h 0 (e ∷ es)) ry) (sym ht ∙ same_root ∙ hu) in
      elim (reduce_to_root-binding xs ys (sym ct ∙ same_count ∙ cu)
        (leaf_hashes-size sha256 h 0 (d ∷ ds)) (leaf_hashes-size sha256 h 0 (e ∷ es))
        (rx ∙ ap (λ (b : Bytes). b ∷ []) same ∙ sym ry)) [
          | inr c ↦ inr (
              widen_sha (λ b i. In-append_right b (leaf_inputs 0 (d ∷ ds)) _ i)
                (λ b i. In-append_right b (leaf_inputs 0 (e ∷ es)) _ i) c)
          | inl p ↦ elim (leaf_hashes-binding 0 (d ∷ ds) (e ∷ es) hd he p) [
            | inl same ↦ inl same
            | inr c ↦ inr (
                widen_sha (λ b i. In-append_left b (leaf_inputs 0 (d ∷ ds)) _ i)
                  (λ b i. In-append_left b (leaf_inputs 0 (e ∷ es)) _ i) c)
          ]
        ]

  leaf_count-nil : (t : Tree) → build_ima_merkle_tree sha256 [] ≡ ok t → t.leaf_count ≡ 0
  unfolding build_ima_merkle_tree
  leaf_count-nil t p = ap (λ (x : Tree). x.leaf_count) (ok-injective (sym p))

  leaf_count-cons :
      (e : Entry) (es : List Entry) (t u : Tree)
      → build_ima_merkle_tree sha256 [] ≡ ok t
      → build_ima_merkle_tree sha256 (e ∷ es) ≡ ok u
      → t.leaf_count ≢ u.leaf_count
  leaf_count-cons e es t u bt bu same =
      let ys = leaf_hashes sha256 0 (e ∷ es) in
      let ny = length-leaf_hashes sha256 0 (e ∷ es) in
      let (s, ry, hu, cu) =
        tree_over-inversion sha256 ys (omega (arith, ny))
          (sym (build_ima_merkle_tree-cons sha256 e es) ∙ bu) in
      let none_left : t.leaf_count ≡ 0 = leaf_count-nil t bt in omega (arith, cu, ny, none_left)

  -- If every entry of both logs has the format that the kernel prints (IsTemplate: its PCR and its
  -- template hash hold no colon, its file hash holds exactly one, and its texts are of code points),
  -- and the two logs have trees with one root and one leaf count, then they are the same entry by
  -- entry, in every field but the template's name, or the two builds have given two different inputs
  -- with one digest to SHA-256.
  pub build_ima_merkle_tree-binding :
      (ds es : List Entry) {t u : Tree}
      → build_ima_merkle_tree sha256 ds ≡ ok t
      → build_ima_merkle_tree sha256 es ≡ ok u
      → t.leaf_count ≡ u.leaf_count
      → t.root ≡ u.root
      → All IsTemplate ds
      → All IsTemplate es
      → SameLog ds es ⊎ ShaCollision sha256 (hash_inputs sha256 ds) (hash_inputs sha256 es)
  build_ima_merkle_tree-binding [] [] bt bu same_count same_root hd he = inl tt
  build_ima_merkle_tree-binding [] (e ∷ es) {t} {u} bt bu same_count same_root hd he =
      absurd (leaf_count-cons e es t u bt bu same_count)
  build_ima_merkle_tree-binding (d ∷ ds) [] {t} {u} bt bu same_count same_root hd he =
      absurd (leaf_count-cons d ds u t bu bt (sym same_count))
  build_ima_merkle_tree-binding (d ∷ ds) (e ∷ es) bt bu same_count same_root hd he =
      cons-binding d e ds es bt bu same_count same_root hd he
