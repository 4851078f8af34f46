-- ===== src/Tests/ShimTests.antt =====
-- A run of the shim's report (phase3/shim.py) over a log that has grown by one line.
use tpm_attest.Prelude.{◌≡◌, ◌⊎◌, ◌++◌, refl, true, List, [], ◌∷◌, codes, Text, text_eq, ok}
use tpm_attest.Python.Json.{string}
use tpm_attest.Python.Encode.{hex, encode}
use tpm_attest.Python.Decimal.{decimal}
use tpm_attest.Python.Split.{splitlines, strip, split, ends_with}
use tpm_attest.Python.Base64.{b64encode}
use tpm_attest.Tests.{ascii, toy_sha, boot_entry, init_entry}
use tpm_attest.Tests.ReportTests.{host, pcrs, nonce, log_output, quote_of}
use tpm_attest.Agent.Log.{
  count_lines, read_ima_summary, read_ima_log, read_ima_log_line_count, read_raw_lines, parse_lines,
  parse_line, summarize,
}
use tpm_attest.Agent.Log.Parsing.{format_line}
use tpm_attest.Agent.Merkle.Layers.{reduce_to_root, next_layer, index_layer, hash_pairs, pad_odd}
use tpm_attest.Agent.Tree.{
  Tree, leaf_hash, leaf_hashes, parent_hash, build_ima_merkle_tree, build_incremental_merkle_tree,
}
use tpm_attest.Agent.Pcr.{read_pcrs}
use tpm_attest.Agent.Report.{run_tpm_quote}
use tpm_attest.Shim.{LeafCache, ShimReport, collect_report_incremental}
use tpm_attest.Shim.Cache.{AllEntries, Caches}
use tpm_attest.Shim.Grown.{collect_report_incremental-grown, collect_report_incremental-Caches}

abbrev pub old : List Text
old = format_line boot_entry ∷ []

abbrev pub new : List Text
new = format_line init_entry ∷ []

abbrev pub cache : LeafCache
cache = record { leaves = leaf_hashes toy_sha 0 (parse_lines old); line_offset = 1 }

cache-Caches : Caches toy_sha old cache
cache-Caches = record { leaves = refl; line_offset = refl }

lines_t : read_raw_lines log_output ≡ ok (old ++ new)
unfolding read_raw_lines splitlines strip
lines_t = refl

entries_t : AllEntries (old ++ new)
unfolding parse_lines parse_line strip split
entries_t = refl

abbrev report : ShimReport
report = record {
  version = codes "1.1";
  timestamp = codes "now";
  nonce = nonce;
  machine_id = codes "m1";
  pcrs = pcrs;
  ima_summary = record {
    total_entries = 2;
    unique_files = 2;
    has_boot_aggregate = true;
    modules_measured = 0;
  };
  ima_merkle_root = codes "2b0102030405060708090a0b0c0d0e0f101112131415161718191a1b1c1d1e1f";
  ima_merkle_depth = 1;
  ima_leaf_count = 2;
  quote_available = true;
  quote_msg_b64 = codes "AQID";
  quote_sig_b64 = codes "BAUG";
}

report_t :
    (collect_report_incremental ascii toy_sha
      (codes "m1")
      host
      log_output
      (codes "now")
      (string nonce)
      cache).0
    ≡ ok report
unfolding collect_report_incremental read_pcrs read_ima_summary read_ima_log read_ima_log_line_count
    read_raw_lines parse_lines parse_line count_lines summarize splitlines strip split ends_with
    build_incremental_merkle_tree leaf_hashes leaf_hash decimal encode hex reduce_to_root next_layer
    index_layer hash_pairs pad_odd parent_hash run_tpm_quote quote_of b64encode text_eq
report_t = refl

collect_report_incremental-grown_example :
    (tree : Tree) × (build_ima_merkle_tree toy_sha (parse_lines (old ++ new)) ≡ ok tree)
    × (report.ima_merkle_root ≡ tree.root)
    × (report.ima_merkle_depth ≡ tree.depth)
    × (report.ima_leaf_count ≡ tree.leaf_count)
    × Caches toy_sha
        (old ++ new)
        (collect_report_incremental ascii toy_sha
          (codes "m1")
          host
          log_output
          (codes "now")
          (string nonce)
          cache).1
collect_report_incremental-grown_example =
    collect_report_incremental-grown ascii toy_sha (codes "m1") host (codes "now") (string nonce)
      old new cache new log_output cache-Caches lines_t entries_t lines_t entries_t report_t

collect_report_incremental-Caches_example :
    Caches toy_sha old
      (collect_report_incremental ascii toy_sha
        (codes "m1")
        host
        log_output
        (codes "now")
        (string nonce)
        cache).1
    ⊎ Caches toy_sha
        (old ++ new)
        (collect_report_incremental ascii toy_sha
          (codes "m1")
          host
          log_output
          (codes "now")
          (string nonce)
          cache).1
collect_report_incremental-Caches_example =
    collect_report_incremental-Caches ascii toy_sha (codes "m1") host (codes "now") (string nonce)
      old new cache new log_output cache-Caches lines_t entries_t lines_t entries_t
