-- ===== src/Agent/Tree/Leaves.antt =====
-- The leaf hashes: their number and sizes, and what they bind (`_leaf_hash`, agent/ima_reader.py).
use native.Mathlib.Decide.{ℕ_discrete}
use native.Mathlib.Nat.{add-zero}
use tpm_attest.Prelude.{
  ℕ, zero, suc, ◌+◌, ◌≡◌, ◌≢◌, refl, ap, inl, inr, ◌⊎◌, some, List, [], ◌∷◌, ◌++◌, arith, Bytes,
  All, length, get_elem?, In,
}
use tpm_attest.Python.Encode.{encode, IsByte}
use tpm_attest.Agent.Log.{Entry}
use tpm_attest.Agent.Tree.{IsDigest, pre_image, leaf_hash, leaf_hashes}
use tpm_attest.Agent.Tree.PreImage.{
  encoded_pre_image-index, IsTemplate, SameMeasurement, encoded_pre_image-injective,
}

pub Bytes-discrete : Discrete Bytes
Bytes-discrete = hlevel ℕ_discrete

-- what `_leaf_hash` gives to SHA-256
abbrev pub leaf_input : Entry → ℕ → Bytes
leaf_input e index = encode (pre_image e index)

abbrev pub leaf_inputs : ℕ → List Entry → List Bytes
leaf_inputs base [] = []
leaf_inputs base (e ∷ entries) = leaf_input e base ∷ leaf_inputs (suc base) entries

-- Two different inputs with one digest, one from each list.
pub record ShaCollision (sha256 : Bytes → Bytes) (ls rs : List Bytes) : Type 0 where
  pub left : Bytes
  pub right : Bytes
  pub left_in : In left ls
  pub right_in : In right rs
  pub differ : left ≢ right
  pub meet : sha256 left ≡ sha256 right

pub widen_sha :
    {sha256 : Bytes → Bytes} {ls rs ls' rs' : List Bytes}
    → ((b : Bytes) → In b ls → In b ls')
    → ((b : Bytes) → In b rs → In b rs')
    → ShaCollision sha256 ls rs
    → ShaCollision sha256 ls' rs'
widen_sha f g c = record {
  left = c.left;
  right = c.right;
  left_in = f c.left c.left_in;
  right_in = g c.right c.right_in;
  differ = c.differ;
  meet = c.meet;
}

module _ (sha256 : Bytes → Bytes) where
  pub length-leaf_hashes :
      (base : ℕ) (entries : List Entry) → length (leaf_hashes sha256 base entries) ≡ length entries
  unfolding leaf_hashes
  length-leaf_hashes base [] = refl
  length-leaf_hashes base (e ∷ entries) = ap suc (length-leaf_hashes (suc base) entries)

  pub leaf_hashes-append :
      (base : ℕ) (xs ys : List Entry)
      → leaf_hashes sha256 base (xs ++ ys)
        ≡ leaf_hashes sha256 base xs ++ leaf_hashes sha256 (base + length xs) ys
  unfolding leaf_hashes
  leaf_hashes-append base [] ys = rw add-zero
  leaf_hashes-append base (x ∷ xs) ys =
      let e : base + suc (length xs) ≡ suc base + length xs = omega arith in
      rw (e, leaf_hashes-append (suc base) xs ys)

  pub get_elem?-leaf_hashes :
      (base : ℕ) (entries : List Entry) (i : ℕ) {e : Entry}
      → get_elem? entries i ≡ some e
      → get_elem? (leaf_hashes sha256 base entries) i ≡ some (leaf_hash sha256 e (base + i))
  unfolding leaf_hashes
  get_elem?-leaf_hashes base [] i p = absurd (cc)
  get_elem?-leaf_hashes base (x ∷ entries) zero p = rw add-zero (cc)
  get_elem?-leaf_hashes base (x ∷ entries) (suc i) p =
      let e : base + suc i ≡ suc base + i = omega arith in
      rw e (get_elem?-leaf_hashes (suc base) entries i p)

  -- one digest of two texts: they are one text, or a collision
  pub sha256-binding :
      (s t : Bytes) → sha256 s ≡ sha256 t → (s ≡ t) ⊎ ShaCollision sha256 (s ∷ []) (t ∷ [])
  sha256-binding s t p = elim (Bytes-discrete s t) [
    | yes e ↦ inl e
    | no ne ↦ inr (record {
      left = s;
      right = t;
      left_in = inl refl;
      right_in = inl refl;
      differ = ne;
      meet = p;
    })
  ]

  -- Leaf hashes at two positions differ, whatever the entries, unless the two texts collide: an
  -- entry that is repeated at the end of the log gets a new leaf.
  pub leaf_hash-index :
      (d e : Entry) (i j : ℕ)
      → i ≢ j
      → leaf_hash sha256 d i ≡ leaf_hash sha256 e j
      → ShaCollision sha256 (leaf_input d i ∷ []) (leaf_input e j ∷ [])
  unfolding leaf_hash
  leaf_hash-index d e i j ne p =
      elim (sha256-binding (encode (pre_image d i)) (encode (pre_image e j)) p) [
        | inl q ↦ absurd (ne (encoded_pre_image-index d e i j q))
        | inr c ↦ c
      ]

  -- Two entries of the kernel's format with one leaf hash agree in the PCR, the template's hash, the
  -- file's hash and the file's name, whatever their positions, or their two texts collide.
  pub leaf_hash-binding :
      (d e : Entry) (i j : ℕ)
      → IsTemplate d
      → IsTemplate e
      → leaf_hash sha256 d i ≡ leaf_hash sha256 e j
      → SameMeasurement d e ⊎ ShaCollision sha256 (leaf_input d i ∷ []) (leaf_input e j ∷ [])
  unfolding leaf_hash
  leaf_hash-binding d e i j hd he p =
      elim (sha256-binding (encode (pre_image d i)) (encode (pre_image e j)) p) [
        | inl q ↦ inl (encoded_pre_image-injective d e i j hd he q)
        | inr c ↦ inr c
      ]

  module _ (h : IsDigest sha256) where
    pub leaf_hashes-size :
        (base : ℕ) (entries : List Entry)
        → All (λ (b : Bytes). length b ≡ 32) (leaf_hashes sha256 base entries)
    unfolding leaf_hashes leaf_hash
    leaf_hashes-size base [] = tt
    leaf_hashes-size base (e ∷ entries) = (h.size _, leaf_hashes-size (suc base) entries)

    pub leaf_hashes-bytes :
        (base : ℕ) (entries : List Entry) → All (All IsByte) (leaf_hashes sha256 base entries)
    unfolding leaf_hashes leaf_hash
    leaf_hashes-bytes base [] = tt
    leaf_hashes-bytes base (e ∷ entries) = (h.bytes _, leaf_hashes-bytes (suc base) entries)
