-- ===== src/Shim/Cache.antt =====
-- The cache of the shim stands for the log that was read (phase3/shim.py).
use tpm_attest.Prelude.{
  ℕ, ◌≤◌, ◌≡◌, refl, ap, ◌∙◌, List, [], ◌∷◌, ◌++◌, arith, Text, Bytes, length, length-append, drop,
  drop-append, le→not-ltb, ok, ◌>>=◌,
}
use tpm_attest.Python.Process.{Ran}
use tpm_attest.Agent.Log.{
  Completed, Entry, parse_lines, read_raw_lines, read_ima_log, read_ima_log_line_count,
}
use tpm_attest.Agent.Log.Reading.{count_lines-eq-length, parse_lines-append, length-parse_lines-le}
use tpm_attest.Agent.Tree.{empty_tree, Tree, leaf_hashes, build_ima_merkle_tree}
use tpm_attest.Agent.Tree.Builds.{
  build_incremental_merkle_tree-append, build_ima_merkle_tree-IsTreeOver, build_ima_merkle_tree-nil,
}
use tpm_attest.Agent.Tree.Leaves.{length-leaf_hashes}
use tpm_attest.Shim.{LeafCache, flush_if_reset, extend_tree}

-- every line is an entry
abbrev pub AllEntries : List Text → Type 0
AllEntries lines = length (parse_lines lines) ≡ length lines

-- The cache holds the leaves of these lines, and their number.
pub record Caches (sha256 : Bytes → Bytes) (lines : List Text) (cache : LeafCache) : Type 0 where
  pub leaves : cache.leaves ≡ leaf_hashes sha256 0 (parse_lines lines)
  pub line_offset : cache.line_offset ≡ length lines

-- If a log of entries grows, the lines that are new are entries.
pub AllEntries-left : (xs ys : List Text) → AllEntries (xs ++ ys) → AllEntries xs
AllEntries-left xs ys h =
    let p = ap length (parse_lines-append xs ys) in
    omega (
      arith,
      h,
      p,
      length-append xs ys,
      length-append (parse_lines xs) (parse_lines ys),
      length-parse_lines-le xs,
      length-parse_lines-le ys,
    )

-- No log that has grown is taken for a reset.
pub flush_if_reset-grown :
    (n : ℕ) (cache : LeafCache) → cache.line_offset ≤ n → flush_if_reset n cache ≡ cache
unfolding flush_if_reset
flush_if_reset-grown n cache le = rw (le→not-ltb n cache.line_offset le)

read_ima_log-from :
    (n : ℕ) (result : Ran Completed) (lines : List Text)
    → read_raw_lines result ≡ ok lines
    → read_ima_log n result ≡ ok (parse_lines (drop n lines))
unfolding read_ima_log
read_ima_log-from n result lines e = rw e refl

pub line_count-from :
    (result : Ran Completed) (lines : List Text)
    → read_raw_lines result ≡ ok lines
    → read_ima_log_line_count result ≡ ok (length (parse_lines lines))
unfolding read_ima_log_line_count
line_count-from result lines e = rw e (ap ok (count_lines-eq-length lines))

module _ (sha256 : Bytes → Bytes) where
  -- The new part of the log, read behind the offset, extends the cached leaves to those of the whole
  -- log, and the tree is the one that a full build gives.
  pub extend_tree-grown :
      (old new : List Text) (log : Ran Completed) (cache : LeafCache)
      → Caches sha256 old cache
      → AllEntries old
      → read_raw_lines log ≡ ok (old ++ new)
      → extend_tree sha256 log cache ≡ (do
        tree ← build_ima_merkle_tree sha256 (parse_lines (old ++ new))
        ok (leaf_hashes sha256 0 (parse_lines (old ++ new)), tree))
  unfolding extend_tree
  extend_tree-grown old new log cache c a e =
      let at_offset : drop cache.line_offset (old ++ new) ≡ new =
        rw c.line_offset (drop-append old new) in
      let read : read_ima_log cache.line_offset log ≡ ok (parse_lines new) =
        read_ima_log-from cache.line_offset log (old ++ new) e
        ∙ ap (λ (ls : List Text). ok (parse_lines ls)) at_offset in
      rw (read, c.leaves, c.line_offset, ← a, parse_lines-append old new)
        (build_incremental_merkle_tree-append sha256 (parse_lines old) (parse_lines new))

pub extend_tree-built :
    (sha256 : Bytes → Bytes) (old new : List Text) (log : Ran Completed) (cache : LeafCache)
    {tree : Tree}
    → build_ima_merkle_tree sha256 (parse_lines (old ++ new)) ≡ ok tree
    → extend_tree sha256 log cache ≡ (do
      tree ← build_ima_merkle_tree sha256 (parse_lines (old ++ new))
      ok (leaf_hashes sha256 0 (parse_lines (old ++ new)), tree))
    → extend_tree sha256 log cache ≡ ok (leaf_hashes sha256 0 (parse_lines (old ++ new)), tree)
extend_tree-built sha256 old new log cache ran e = rw ran at e

-- The build returns a tree with a leaf for each entry, for a log without entries too.
pub built :
    (sha256 : Bytes → Bytes) (entries : List Entry)
    → (tree : Tree) × (build_ima_merkle_tree sha256 entries ≡ ok tree)
      × (tree.leaf_count ≡ length entries)
unfolding empty_tree
built sha256 [] = (empty_tree sha256, build_ima_merkle_tree-nil sha256, refl)
built sha256 (e ∷ entries) =
    let (tree, ran, over) =
      build_ima_merkle_tree-IsTreeOver sha256 (e ∷ entries) (λ p. absurd (cc)) in
    (tree, ran, over.leaf_count ∙ length-leaf_hashes sha256 0 (e ∷ entries))
