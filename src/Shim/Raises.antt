-- ===== src/Shim/Raises.antt =====
-- Which exceptions the report of the shim raises (phase3/shim.py).
use tpm_attest.Prelude.{
  ℕ, is_empty, ◌++◌, ◌≡◌, arith, refl, false, Exception, os_error, value_error, if◌then◌else◌, List,
  [], ◌∷◌, Text, Bytes, Result, ok, raise, ◌>>=◌,
}
use tpm_attest.Python.Json.{string}
use tpm_attest.Python.Unicode.{Unicode}
use tpm_attest.Python.Process.{Ran, is_argument}
use tpm_attest.Agent.Log.{
  Completed, Summary, read_raw_lines, read_ima_log, read_ima_summary, read_ima_log_line_count,
}
use tpm_attest.Agent.Pcr.{Pcrs, read_pcrs}
use tpm_attest.Agent.Tree.{Tree, empty_tree, leaf_hashes, tree_over, build_incremental_merkle_tree}
use tpm_attest.Agent.Tree.Builds.{tree_over-IsTreeOver}
use tpm_attest.Agent.Report.{Host, run_tpm_quote}
use tpm_attest.Agent.Report.Raises.{
  Raises, Raises-bind, Raises-ok, Raises-raise, Allows, summary-Raises, lines-Raises, log-Raises,
  pcrs-Raises, quote-Raises, HasLongIndex,
}
use tpm_attest.Shim.{
  LeafCache, argument, flush_if_reset, finish_report, store_tree, read_before, extend_tree,
  extend_report, collect_report_incremental,
}

-- whatever the machine may do to a report for this nonce has the property
pub record Permits (P : Exception → Type 0) (u : Unicode) (host : Host) (count_log : Ran Completed)
    (t : Text) : Type 0 where
  pub pcrread : Allows P host.pcrread
  pub index : HasLongIndex u host.pcrread → P value_error
  pub summary : Allows P host.summary_log
  pub count : Allows P count_log
  pub entries : Allows P host.entries_log
  pub tempdir : host.quote_tempdir ≡ false → P os_error
  pub passed : is_argument t ≡ false → P value_error
  pub quote : Allows P (host.tpm2_quote t)

log_count-Raises :
    (P : Exception → Type 0) (run : Ran Completed)
    → Allows P run
    → Raises P (read_ima_log_line_count run)
unfolding read_ima_log_line_count
log_count-Raises P run h =
    Raises-bind P (read_raw_lines run) _ (lines-Raises P run h) (λ lines. Raises-ok P _ refl)

-- the second part of `build_incremental_merkle_tree` returns whatever the leaves are
over-Raises :
    (P : Exception → Type 0) (sha256 : Bytes → Bytes) (leaves : List Bytes)
    → Raises {A = List Bytes × Tree} P (
        if is_empty leaves
        then ok ([], empty_tree sha256)
        else do tree ← tree_over sha256 leaves; ok (leaves, tree))
over-Raises P sha256 [] = Raises-ok P _ refl
over-Raises P sha256 (x ∷ leaves) =
    Raises-bind P (tree_over sha256 (x ∷ leaves)) _
      (Raises-ok P _ (tree_over-IsTreeOver sha256 (x ∷ leaves) (omega arith)).1)
      (λ tree. Raises-ok P _ refl)

extend_tree-Raises :
    (P : Exception → Type 0) (sha256 : Bytes → Bytes) (entries_log : Ran Completed)
    (cache : LeafCache)
    → Allows P entries_log
    → Raises P (extend_tree sha256 entries_log cache)
unfolding extend_tree build_incremental_merkle_tree
extend_tree-Raises P sha256 entries_log cache h =
    Raises-bind P (read_ima_log cache.line_offset entries_log) _
      (log-Raises P cache.line_offset entries_log h)
      (λ entries.
        over-Raises P sha256 (cache.leaves ++ leaf_hashes sha256 cache.line_offset entries))

module _ (P : Exception → Type 0) (u : Unicode) (sha256 : Bytes → Bytes) (machine_id : Text)
    (host : Host) (count_log : Ran Completed) (timestamp t : Text)
    (permits : Permits P u host count_log t) where
  before-Raises : Raises P (read_before u host count_log)
  unfolding read_before
  before-Raises =
      Raises-bind P (read_pcrs u host.pcrread) _
        (pcrs-Raises P u host.pcrread permits.pcrread permits.index)
        (λ pcrs.
          Raises-bind P (read_ima_summary host.summary_log) _
            (summary-Raises P host.summary_log permits.summary)
            (λ summary.
              Raises-bind P (read_ima_log_line_count count_log) _
                (log_count-Raises P count_log permits.count) (λ n. Raises-ok P _ refl)))

  finish_report-Raises :
      (p : Pcrs) (s : Summary) (tree : Tree)
      → Raises P (finish_report machine_id host timestamp (string t) p s tree)
  unfolding finish_report argument
  finish_report-Raises p s tree =
      Raises-bind P (run_tpm_quote host t) _
        (quote-Raises P host t permits.tempdir permits.passed permits.quote)
        (λ quote. Raises-ok P _ refl)

  store_tree-Raises :
      (p : Pcrs) (s : Summary) (cache : LeafCache) (built : Result (List Bytes × Tree))
      → Raises P built
      → Raises P (store_tree machine_id host timestamp (string t) p s cache built).0
  unfolding store_tree
  store_tree-Raises p s cache (raise e) h = Raises-raise _ P e (h e refl)
  store_tree-Raises p s cache (ok (leaves, tree)) h = finish_report-Raises p s tree

  extend_report-Raises :
      (cache : LeafCache) (before : Result (Pcrs × Summary × ℕ))
      → Raises P before
      → Raises P (extend_report u sha256 machine_id host timestamp (string t) cache before).0
  unfolding extend_report
  extend_report-Raises cache (raise e) h = Raises-raise _ P e (h e refl)
  extend_report-Raises cache (ok (p, s, n)) h =
      store_tree-Raises p s (flush_if_reset n cache) _
        (extend_tree-Raises P sha256 host.entries_log (flush_if_reset n cache) permits.entries)

  pub collect-Raises :
      (cache : LeafCache)
      → Raises P
          (collect_report_incremental u sha256 machine_id host count_log timestamp
            (string t)
            cache).0
  unfolding collect_report_incremental
  collect-Raises cache = extend_report-Raises cache (read_before u host count_log) before-Raises
