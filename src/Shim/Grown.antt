-- ===== src/Shim/Grown.antt =====
-- The report of the shim over a log that has grown (phase3/shim.py).
use tpm_attest.Prelude.{
  ℕ, ◌≤◌, ◌≡◌, ◌⊎◌, refl, sym, ap, ◌∙◌, subst, inl, inr, List, ◌++◌, arith, Text, Bytes, length,
  length-append, Exception, Result, ok, raise, ok-injective,
}
use tpm_attest.Python.Json.{Json}
use tpm_attest.Python.Unicode.{Unicode}
use tpm_attest.Python.Process.{Ran}
use tpm_attest.Agent.Log.{
  Completed, Summary, parse_lines, read_raw_lines, read_ima_log_line_count, read_ima_summary,
}
use tpm_attest.Agent.Tree.{Tree, leaf_hashes, build_ima_merkle_tree}
use tpm_attest.Agent.Report.Closed.{returned}
use tpm_attest.Agent.Pcr.{Pcrs, read_pcrs}
use tpm_attest.Agent.Report.{Host, run_tpm_quote}
use tpm_attest.Shim.{
  LeafCache, ShimReport, argument, finish_report, extend_tree, store_tree, read_before,
  extend_report, collect_report_incremental,
}
use tpm_attest.Shim.Cache.{
  AllEntries, Caches, AllEntries-left, flush_if_reset-grown, line_count-from, built,
  extend_tree-built, extend_tree-grown,
}

count-before :
    (u : Unicode) (host : Host) (count_log : Ran Completed) (lines : List Text) {p : Pcrs}
    {s : Summary} {n : ℕ}
    → read_raw_lines count_log ≡ ok lines
    → read_before u host count_log ≡ ok (p, s, n)
    → n ≡ length (parse_lines lines)
unfolding read_before
count-before u host count_log lines e h =
    let (pcrs, h1, e1) = returned _ (read_pcrs u host.pcrread) h in
    let (summary, h2, e2) = returned _ (read_ima_summary host.summary_log) h1 in
    let (count, h3, e3) = returned _ (read_ima_log_line_count count_log) h2 in
    let same = ok-injective h3 in
    let counted = ok-injective (sym e3 ∙ line_count-from count_log lines e) in
    ap (λ (t : Pcrs × Summary × ℕ). t.2) (sym same) ∙ counted

finish_report-tree :
    (machine_id : Text) (host : Host) (timestamp : Text) (nonce : Json) (p : Pcrs) (s : Summary)
    (tree : Tree) {r : ShimReport}
    → finish_report machine_id host timestamp nonce p s tree ≡ ok r
    → (r.ima_merkle_root ≡ tree.root)
      × (r.ima_merkle_depth ≡ tree.depth)
      × (r.ima_leaf_count ≡ tree.leaf_count)
unfolding finish_report
finish_report-tree machine_id host timestamp nonce p s tree h =
    let (text, h0, e0) = returned _ (argument host nonce) h in
    let (quote, h1, e1) = returned _ (run_tpm_quote host text) h0 in
    let same = ok-injective (sym h1) in
    (
      ap (λ (x : ShimReport). x.ima_merkle_root) same,
      ap (λ (x : ShimReport). x.ima_merkle_depth) same,
      ap (λ (x : ShimReport). x.ima_leaf_count) same,
    )

module _ (u : Unicode) (sha256 : Bytes → Bytes) (machine_id : Text) (host : Host) (timestamp : Text)
    (nonce : Json) (old new : List Text) (cache : LeafCache) where
  -- the call got as far as the cache, and stored the whole log in it
  record Extended (out : Result ShimReport × LeafCache) : Type 0 where
    tree : Tree
    pcrs : Pcrs
    summary : Summary
    ran : build_ima_merkle_tree sha256 (parse_lines (old ++ new)) ≡ ok tree
    result : out.0 ≡ finish_report machine_id host timestamp nonce pcrs summary tree
    cached : Caches sha256 (old ++ new) out.1

  stored-Extended :
      (p : Pcrs) (s : Summary) (tree : Tree)
      → AllEntries (old ++ new)
      → build_ima_merkle_tree sha256 (parse_lines (old ++ new)) ≡ ok tree
      → tree.leaf_count ≡ length (parse_lines (old ++ new))
      → Extended (
          store_tree machine_id host timestamp nonce p s cache
            (ok (leaf_hashes sha256 0 (parse_lines (old ++ new)), tree)))
  unfolding store_tree
  stored-Extended p s tree a ran count = record {
    tree = tree;
    pcrs = p;
    summary = s;
    ran = ran;
    result = refl;
    cached = record { leaves = refl; line_offset = count ∙ a };
  }

  extend_report-raised :
      (x : Exception)
      → ((extend_report u sha256 machine_id host timestamp nonce cache (raise x)).1 ≡ cache)
        × (y : Exception) × ((extend_report u sha256 machine_id host timestamp nonce cache
              (raise x)).0
            ≡ raise y)
  unfolding extend_report
  extend_report-raised x = (refl, x, refl)

  extend-Extended :
      (p : Pcrs) (s : Summary) (n : ℕ) (tree : Tree)
      → cache.line_offset ≤ n
      → extend_tree sha256 host.entries_log cache
        ≡ ok (leaf_hashes sha256 0 (parse_lines (old ++ new)), tree)
      → Extended (
          store_tree machine_id host timestamp nonce p s cache
            (ok (leaf_hashes sha256 0 (parse_lines (old ++ new)), tree)))
      → Extended (extend_report u sha256 machine_id host timestamp nonce cache (ok (p, s, n)))
  unfolding extend_report
  extend-Extended p s n tree le grown done = rw (flush_if_reset-grown n cache le, grown) done

  extend_report-Extended :
      (p : Pcrs) (s : Summary) (n : ℕ)
      → Caches sha256 old cache
      → AllEntries old
      → AllEntries (old ++ new)
      → read_raw_lines host.entries_log ≡ ok (old ++ new)
      → cache.line_offset ≤ n
      → Extended (extend_report u sha256 machine_id host timestamp nonce cache (ok (p, s, n)))
  extend_report-Extended p s n c a a' e le =
      let (tree, ran, count) = built sha256 (parse_lines (old ++ new)) in
      extend-Extended p s n tree le
        (extend_tree-built sha256 old new host.entries_log cache ran
          (extend_tree-grown sha256 old new host.entries_log cache c a e))
        (stored-Extended p s tree a' ran count)

  abbrev IsOutcome : Result ShimReport × LeafCache → Type 0
  IsOutcome out = ((out.1 ≡ cache) × (x : Exception) × (out.0 ≡ raise x)) ⊎ Extended out

  extend_report-IsOutcome :
      (before : Result (Pcrs × Summary × ℕ))
      → Caches sha256 old cache
      → AllEntries old
      → AllEntries (old ++ new)
      → read_raw_lines host.entries_log ≡ ok (old ++ new)
      → ((p : Pcrs) (s : Summary) (n : ℕ) → before ≡ ok (p, s, n) → cache.line_offset ≤ n)
      → IsOutcome (extend_report u sha256 machine_id host timestamp nonce cache before)
  extend_report-IsOutcome (ok (p, s, n)) c a a' e f =
      inr (extend_report-Extended p s n c a a' e (f p s n refl))
  extend_report-IsOutcome (raise x) c a a' e f = inl (extend_report-raised x)

  collect-IsOutcome :
      (mid : List Text) (count_log : Ran Completed)
      → Caches sha256 old cache
      → read_raw_lines count_log ≡ ok (old ++ mid)
      → AllEntries (old ++ mid)
      → read_raw_lines host.entries_log ≡ ok (old ++ new)
      → AllEntries (old ++ new)
      → IsOutcome
          (collect_report_incremental u sha256 machine_id host count_log timestamp nonce cache)
  unfolding collect_report_incremental
  collect-IsOutcome mid count_log c ec am e a' =
      extend_report-IsOutcome (read_before u host count_log) c (AllEntries-left old new a') a' e
        (λ p s n b.
          let same = count-before u host count_log (old ++ mid) ec b in
          omega (arith, same, am, c.line_offset, length-append old mid))

  -- If the cache holds the leaves of the lines read so far, the log has only grown since, by the third
  -- read and by the fourth, and all its lines are entries, then a report that is returned has the
  -- root, the depth and the leaf count of a full build over the log of the fourth read, and the cache
  -- holds the leaves of that log.
  pub collect_report_incremental-grown :
      (mid : List Text) (count_log : Ran Completed) {r : ShimReport}
      → Caches sha256 old cache
      → read_raw_lines count_log ≡ ok (old ++ mid)
      → AllEntries (old ++ mid)
      → read_raw_lines host.entries_log ≡ ok (old ++ new)
      → AllEntries (old ++ new)
      → (collect_report_incremental u sha256 machine_id host count_log timestamp nonce cache).0
        ≡ ok r
      → (tree : Tree) × (build_ima_merkle_tree sha256 (parse_lines (old ++ new)) ≡ ok tree)
        × (r.ima_merkle_root ≡ tree.root)
        × (r.ima_merkle_depth ≡ tree.depth)
        × (r.ima_leaf_count ≡ tree.leaf_count)
        × Caches sha256
            (old ++ new)
            (collect_report_incremental u sha256 machine_id host count_log timestamp nonce cache).1
  collect_report_incremental-grown mid count_log c ec am e a' h =
      elim (collect-IsOutcome mid count_log c ec am e a') [
        | inl (same, x, raised) ↦ absurd (cc)
        | inr x ↦
            let (root, depth, count) =
              finish_report-tree machine_id host timestamp nonce x.pcrs x.summary x.tree
                (sym x.result ∙ h) in
            (x.tree, x.ran, root, depth, count, x.cached)
      ]

  -- Under the same conditions, and whatever fails in the call, the cache holds the leaves of the lines
  -- read so far, or those of the log of the fourth read: a failed quote does no harm to the cache.
  pub collect_report_incremental-Caches :
      (mid : List Text) (count_log : Ran Completed)
      → Caches sha256 old cache
      → read_raw_lines count_log ≡ ok (old ++ mid)
      → AllEntries (old ++ mid)
      → read_raw_lines host.entries_log ≡ ok (old ++ new)
      → AllEntries (old ++ new)
      → Caches sha256 old
          (collect_report_incremental u sha256 machine_id host count_log timestamp nonce cache).1
        ⊎ Caches sha256
            (old ++ new)
            (collect_report_incremental u sha256 machine_id host count_log timestamp nonce cache).1
  collect_report_incremental-Caches mid count_log c ec am e a' =
      elim (collect-IsOutcome mid count_log c ec am e a') [
        | inl (same, x, raised) ↦ inl (subst (Caches sha256 old) (sym same) c)
        | inr x ↦ inr x.cached
      ]
