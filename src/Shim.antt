-- ===== src/Shim.antt =====
-- The report of the shim (phase3/shim.py), with the cache of leaves that it keeps between calls.
pub mod Cache
pub mod Grown
pub mod Requests
pub mod Client
pub mod Payloads
pub mod Safety
pub mod Raises
pub mod Answers
pub mod Daemon
pub mod Unstarted
pub mod Grows
pub mod Lifetime
pub mod Registration
pub mod Enrolled
use tpm_attest.Prelude.{
  ℕ, Bool, true, List, [], ltb, if◌then◌else◌, codes, Text, Bytes, Result, ok, raise, type_error,
  ◌>>=◌,
}
use tpm_attest.Python.Json.{Json, string}
use tpm_attest.Python.Unicode.{Unicode}
use tpm_attest.Python.Process.{Ran, make_tempdir}
use tpm_attest.Agent.Log.{
  Completed, Entry, Summary, read_ima_log, read_ima_log_line_count, read_ima_summary,
}
use tpm_attest.Agent.Tree.{Tree, build_incremental_merkle_tree}
use tpm_attest.Agent.Pcr.{Pcrs, read_pcrs}
use tpm_attest.Agent.Report.{Host, run_tpm_quote}

-- `_IMA_LEAF_CACHE` and `_IMA_LINE_OFFSET`
pub record LeafCache : Type 0 where
  pub leaves : List Bytes
  pub line_offset : ℕ

abbrev pub empty_cache : LeafCache
empty_cache = record { leaves = []; line_offset = 0 }

-- the dict of `_collect_report_incremental`
pub record ShimReport : Type 0 where
  pub version : Text
  pub timestamp : Text
  pub nonce : Text
  pub machine_id : Text
  pub pcrs : Pcrs
  pub ima_summary : Summary
  pub ima_merkle_root : Text
  pub ima_merkle_depth : ℕ
  pub ima_leaf_count : ℕ
  pub quote_available : Bool
  pub quote_msg_b64 : Text
  pub quote_sig_b64 : Text

-- `if total_line_count < _IMA_LINE_OFFSET:` the log was reset
unfoldable pub flush_if_reset : ℕ → LeafCache → LeafCache
flush_if_reset total_line_count cache =
    if ltb total_line_count cache.line_offset then empty_cache else cache

-- A call returns, or raises, and leaves a cache.
abbrev pub Step : Type 0 → Type 0
Step A = Result A × LeafCache

-- What `_run_tpm_quote` does with a nonce that is no text: it makes the temporary directory, and then
-- subprocess.run refuses the argument.
unfoldable pub refuse_nonce : Host → Result Text
unfolding make_tempdir
refuse_nonce host = do made ← make_tempdir host.quote_tempdir; raise type_error

-- the nonce as the argument of tpm2_quote; a list as the nonce gets so far
unfoldable pub argument : Host → Json → Result Text
unfolding refuse_nonce
argument host (string s) = ok s
argument host _ = refuse_nonce host

module _ (machine_id : Text) where
  -- the report, once the tree is built and the cache is stored
  unfoldable pub finish_report : Host → Text → Json → Pcrs → Summary → Tree → Result ShimReport
  unfolding argument
  finish_report host timestamp nonce_value pcrs ima_summary ima_tree = do
    nonce ← argument host nonce_value
    (quote_msg_b64, quote_sig_b64) ← run_tpm_quote host nonce
    ok (record {
      version = codes "1.1";
      timestamp = timestamp;
      nonce = nonce;
      machine_id = machine_id;
      pcrs = pcrs;
      ima_summary = ima_summary;
      ima_merkle_root = ima_tree.root;
      ima_merkle_depth = ima_tree.depth;
      ima_leaf_count = ima_tree.leaf_count;
      quote_available = true;
      quote_msg_b64 = quote_msg_b64;
      quote_sig_b64 = quote_sig_b64;
    })

  -- The cache is stored before the quote: a quote that fails leaves the new one.
  unfoldable pub store_tree :
      Host → Text → Json → Pcrs → Summary → LeafCache → Result (List Bytes × Tree) → Step ShimReport
  unfolding finish_report
  store_tree host timestamp nonce pcrs ima_summary cache (raise e) = (raise e, cache)
  store_tree host timestamp nonce pcrs ima_summary cache (ok (updated_cache, ima_tree)) = (
    finish_report host timestamp nonce pcrs ima_summary ima_tree,
    record { leaves = updated_cache; line_offset = ima_tree.leaf_count },
  )

module _ (sha256 : Bytes → Bytes) where
  -- the new entries behind the offset, and the tree over all leaves
  unfoldable pub extend_tree : Ran Completed → LeafCache → Result (List Bytes × Tree)
  extend_tree entries_log cache = do
    new_entries ← read_ima_log cache.line_offset entries_log
    build_incremental_merkle_tree sha256 cache.leaves new_entries cache.line_offset

module _ (u : Unicode) where
  -- what is read before the cache is looked at; `count_log` is the third read of the log
  unfoldable pub read_before : Host → Ran Completed → Result (Pcrs × Summary × ℕ)
  read_before host count_log = do
    pcrs ← read_pcrs u host.pcrread
    ima_summary ← read_ima_summary host.summary_log
    total_line_count ← read_ima_log_line_count count_log
    ok (pcrs, ima_summary, total_line_count)

module _ (u : Unicode) (sha256 : Bytes → Bytes) (machine_id : Text) where
  unfoldable pub extend_report :
      Host → Text → Json → LeafCache → Result (Pcrs × Summary × ℕ) → Step ShimReport
  unfolding extend_tree store_tree flush_if_reset
  extend_report host timestamp nonce cache (raise e) = (raise e, cache)
  extend_report host timestamp nonce cache (ok (pcrs, ima_summary, total_line_count)) =
      let cache' = flush_if_reset total_line_count cache in
      store_tree machine_id host timestamp nonce pcrs ima_summary cache'
        (extend_tree sha256 host.entries_log cache')

  unfoldable pub collect_report_incremental :
      Host → Ran Completed → Text → Json → LeafCache → Step ShimReport
  unfolding read_before extend_report
  collect_report_incremental host count_log timestamp nonce cache =
      extend_report host timestamp nonce cache (read_before u host count_log)
