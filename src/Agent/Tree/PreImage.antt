-- ===== src/Agent/Tree/PreImage.antt =====
-- What the text that a leaf hashes determines (`_leaf_hash`, agent/ima_reader.py).

use tpm_attest.Prelude.{
  ℕ, ◌<◌, ◌≡◌, refl, sym, ap, ◌∙◌, [], ◌∷◌, ◌++◌, arith, append_assoc, Text, Bytes, All, All-append,
}
use tpm_attest.Python.Decimal.{decimal, decimal-injective, decimal-All, IsDigit}
use tpm_attest.Python.Encode.{encode, encode-append, encode-ascii, encode-injective, IsCodePoint}
use tpm_attest.Python.Split.Laws.{Lacks}
use tpm_attest.Agent.Log.{Entry}
use tpm_attest.Agent.Tree.{pre_image}

-- The part before the first separator is determined.
Lacks-split :
    (c : ℕ) (s t u v : Text) → Lacks c s → Lacks c u → s ++ c ∷ t ≡ u ++ c ∷ v → (s ≡ u) × (t ≡ v)
Lacks-split c [] t [] v p q e = (refl, cc)
Lacks-split c [] t (d ∷ u) v p q e = absurd (q.0 (cc))
Lacks-split c (d ∷ s) t [] v p q e = absurd (p.0 (cc))
Lacks-split c (d ∷ s) t (d' ∷ u) v p q e =
    let (h, r) = Lacks-split c s t u v p.1 q.1 (cc) in (cc, r)

All-IsDigit-ascii : (s : Text) → All IsDigit s → All (λ c. c < 128) s
All-IsDigit-ascii [] h = tt
All-IsDigit-ascii (c ∷ s) h = (omega arith, All-IsDigit-ascii s h.1)

All-IsDigit-code : (s : Text) → All IsDigit s → All IsCodePoint s
All-IsDigit-code [] h = tt
All-IsDigit-code (c ∷ s) h = (omega arith, All-IsDigit-code s h.1)

All-IsDigit-Lacks : (s : Text) → All IsDigit s → Lacks 58 s
All-IsDigit-Lacks [] h = tt
All-IsDigit-Lacks (c ∷ s) h = (omega arith, All-IsDigit-Lacks s h.1)

decimal-Lacks : (n : ℕ) → Lacks 58 (decimal n)
decimal-Lacks n = All-IsDigit-Lacks (decimal n) (decimal-All n)

-- the encoded text starts with the decimal index and a colon, whatever follows
encode-decimal : (n : ℕ) (s : Text) → encode (decimal n ++ 58 ∷ s) ≡ decimal n ++ 58 ∷ encode s
encode-decimal n s =
    encode-append (decimal n) (58 ∷ s)
    ∙ ap (λ (t : Bytes). t ++ encode (58 ∷ s))
        (encode-ascii (decimal n) (All-IsDigit-ascii (decimal n) (decimal-All n)))
    ∙ ap (λ (t : Bytes). decimal n ++ t)
        (encode-append (58 ∷ []) s
          ∙ ap (λ (t : Bytes). t ++ encode s) (encode-ascii (58 ∷ []) (omega arith)))

pub encoded_pre_image-index :
    (d e : Entry) (i j : ℕ) → encode (pre_image d i) ≡ encode (pre_image e j) → i ≡ j
unfolding pre_image
encoded_pre_image-index d e i j p =
    decimal-injective i j
      (Lacks-split 58 (decimal i) _ (decimal j) _ (decimal-Lacks i) (decimal-Lacks j)
        (sym (encode-decimal i _) ∙ p ∙ encode-decimal j _)).0

-- What the template of the kernel guarantees of an entry: only the file name, and one place in the
-- file hash ("sha256:<digest>"), may hold a colon.
pub record IsTemplate (e : Entry) : Type 0 where
  pub algorithm : Text
  pub digest : Text
  pub file_hash : e.file_hash ≡ algorithm ++ 58 ∷ digest
  pub pcr_lacks : Lacks 58 e.pcr
  pub template_hash_lacks : Lacks 58 e.template_hash
  pub algorithm_lacks : Lacks 58 algorithm
  pub digest_lacks : Lacks 58 digest
  pub pcr_points : All IsCodePoint e.pcr
  pub template_hash_points : All IsCodePoint e.template_hash
  pub file_hash_points : All IsCodePoint e.file_hash
  pub filename_points : All IsCodePoint e.filename

-- the fields that go into a leaf: all but the template's name
pub record SameMeasurement (d e : Entry) : Type 0 where
  pub pcr : d.pcr ≡ e.pcr
  pub template_hash : d.template_hash ≡ e.template_hash
  pub file_hash : d.file_hash ≡ e.file_hash
  pub filename : d.filename ≡ e.filename

pre_image-points : (e : Entry) (i : ℕ) → IsTemplate e → All IsCodePoint (pre_image e i)
unfolding pre_image
pre_image-points e i h =
    let colon : IsCodePoint 58 = omega arith in
    let join = λ (s t : Text) (p : All IsCodePoint s) (q : All IsCodePoint t).
      All-append IsCodePoint s (58 ∷ t) p (colon, q) in
    join (decimal i) _ (All-IsDigit-code (decimal i) (decimal-All i)) (
      join e.pcr _ h.pcr_points (
        join e.template_hash _ h.template_hash_points
          (join e.file_hash e.filename h.file_hash_points h.filename_points)))

file_hash-split :
    (a g f a' g' f' : Text)
    → Lacks 58 a
    → Lacks 58 a'
    → Lacks 58 g
    → Lacks 58 g'
    → (a ++ 58 ∷ g) ++ 58 ∷ f ≡ (a' ++ 58 ∷ g') ++ 58 ∷ f'
    → (a ++ 58 ∷ g ≡ a' ++ 58 ∷ g') × (f ≡ f')
file_hash-split a g f a' g' f' ha ha' hg hg' p =
    let p' = rw (append_assoc a (58 ∷ g) (58 ∷ f), append_assoc a' (58 ∷ g') (58 ∷ f')) at p in
    let (ea, p1) = Lacks-split 58 a _ a' _ ha ha' p' in
    let (eg, ef) = Lacks-split 58 g f g' f' hg hg' p1 in (cc (ea, eg), ef)

pub encoded_pre_image-injective :
    (d e : Entry) (i j : ℕ)
    → IsTemplate d
    → IsTemplate e
    → encode (pre_image d i) ≡ encode (pre_image e j)
    → SameMeasurement d e
unfolding pre_image
encoded_pre_image-injective d e i j hd he p =
    let p' =
      encode-injective (pre_image d i) (pre_image e j) (pre_image-points d i hd)
        (pre_image-points e j he) p in
    let (_, p0) =
      Lacks-split 58 (decimal i) _ (decimal j) _ (decimal-Lacks i) (decimal-Lacks j) p' in
    let (pcr, p1) = Lacks-split 58 d.pcr _ e.pcr _ hd.pcr_lacks he.pcr_lacks p0 in
    let (template_hash, p2) =
      Lacks-split 58 d.template_hash _ e.template_hash _ hd.template_hash_lacks
        he.template_hash_lacks p1 in
    let p3 = rw (hd.file_hash, he.file_hash) at p2 in
    let (file_hash, filename) =
      file_hash-split hd.algorithm hd.digest d.filename he.algorithm he.digest e.filename
        hd.algorithm_lacks he.algorithm_lacks hd.digest_lacks he.digest_lacks p3 in
    record {
      pcr = pcr;
      template_hash = template_hash;
      file_hash = hd.file_hash ∙ file_hash ∙ sym he.file_hash;
      filename = filename;
    }
