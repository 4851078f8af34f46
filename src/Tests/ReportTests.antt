-- ===== src/Tests/ReportTests.antt =====
-- Runs of agent/pcr_reader.py and agent/report.py on small outputs.
use tpm_attest.Prelude.{
  ◌≡◌, ◌≢◌, ◌⊎◌, ◌++◌, refl, subst, text_eq, inl, inr, true, none, some, [], ◌∷◌, arith, codes,
  length, All, Text, ok, raise, value_error, runtime_error, os_error, map, sym, Bytes,
}
use tpm_attest.Python.Process.{Ran, not_started, finished}
use tpm_attest.Python.Int.{pos}
use tpm_attest.Python.Encode.{IsByte, hex, encode}
use tpm_attest.Python.Decimal.{decimal}
use tpm_attest.Agent.Merkle.Layers.{reduce_to_root, next_layer, index_layer, hash_pairs, pad_odd}
use tpm_attest.Python.Split.{splitlines, strip, split, ends_with}
use tpm_attest.Python.Base64.{b64encode}
use tpm_attest.Tests.{ascii, toy_sha, boot_entry, init_entry}
use tpm_attest.Agent.Log.{
  Completed, read_ima_summary, read_ima_log, read_raw_lines, parse_lines, parse_line, summarize,
}
use tpm_attest.Agent.Log.Parsing.{format_line}
use tpm_attest.Agent.Tree.{build_ima_merkle_tree, leaf_hash, parent_hash}
use tpm_attest.Agent.Pcr.{Pcrs, read_pcrs}
use tpm_attest.Agent.Pcr.Bank.{IsBank, read_pcrs-IsBank}
use tpm_attest.Agent.Report.{ToolRun, QuoteRun, Host, Report, run_tpm_quote, generate_report}
use tpm_attest.Agent.Report.Closed.{
  HoldBytes, IsReport, Unreadable, NotStarted, generate_report-IsReport, generate_report-raises,
}

abbrev pub pcr_output : Ran Completed
pcr_output = finished (record {
  returncode = pos 0;
  stdout =
      codes
        "  sha256:\n    0 : 0xab01\n    1 : 0xAB02\n    4 : 0x03\n    7 : 0x04\n    9 : 0x05\n    10: 0x06\n";
})

abbrev pub pcrs : Pcrs
pcrs =
    (0, codes "0xAB01")
    ∷ (1, codes "0xAB02")
    ∷ (4, codes "0x03")
    ∷ (7, codes "0x04")
    ∷ (9, codes "0x05")
    ∷ (10, codes "0x06")
    ∷ []

pcrs_t : read_pcrs ascii pcr_output ≡ ok pcrs
unfolding read_pcrs splitlines
pcrs_t = refl

read_pcrs-IsBank_example : IsBank pcrs
read_pcrs-IsBank_example = read_pcrs-IsBank ascii pcr_output pcrs_t

abbrev pub log_output : Ran Completed
log_output = finished (record {
  returncode = pos 0;
  stdout = format_line boot_entry ++ 10 ∷ (format_line init_entry ++ 10 ∷ []);
})

abbrev quoted : QuoteRun
quoted = record {
  returncode = pos 0;
  quote_msg = some (1 ∷ 2 ∷ 3 ∷ []);
  quote_sig = some (4 ∷ 5 ∷ 6 ∷ []);
}

unfoldable pub quote_of : Text → Ran QuoteRun
quote_of n = finished quoted

abbrev pub no_run : Ran ToolRun
no_run = finished (record { returncode = pos 1; output = none })

abbrev pub host : Host
host = record {
  pcrread = pcr_output;
  summary_log = log_output;
  entries_log = log_output;
  quote_tempdir = true;
  tpm2_quote = quote_of;
  ek_tempdir = true;
  nvread_rsa = no_run;
  nvread_ecc = no_run;
  readpublic = no_run;
}

quoted-HoldBytes :
    (b : Bytes) → (quoted.quote_msg ≡ some b) ⊎ (quoted.quote_sig ≡ some b) → All IsByte b
quoted-HoldBytes b (inl e) =
    let same : 1 ∷ 2 ∷ 3 ∷ [] ≡ b = (cc) in subst (All IsByte) same (omega arith)
quoted-HoldBytes b (inr e) =
    let same : 4 ∷ 5 ∷ 6 ∷ [] ≡ b = (cc) in subst (All IsByte) same (omega arith)

host-HoldBytes : HoldBytes host
unfolding quote_of
host-HoldBytes n run b ran wrote =
    let same : quoted ≡ run = (cc) in
    quoted-HoldBytes b
      (subst (λ (r : QuoteRun). (r.quote_msg ≡ some b) ⊎ (r.quote_sig ≡ some b)) (sym same) wrote)

abbrev pub nonce : Text
nonce = codes "0123456789abcdef0123456789abcdef0123456789abcdef0123456789abcdef"

abbrev report : Report
report = record {
  version = codes "1.1";
  timestamp = codes "now";
  nonce = nonce;
  pcrs = pcrs;
  ima_summary = record {
    total_entries = 2;
    unique_files = 2;
    has_boot_aggregate = true;
    modules_measured = 0;
  };
  ima_merkle_root = codes "2b0102030405060708090a0b0c0d0e0f101112131415161718191a1b1c1d1e1f";
  ima_merkle_depth = 1;
  ima_leaf_count = 2;
  quote_available = true;
  quote_msg_b64 = codes "AQID";
  quote_sig_b64 = codes "BAUG";
  ek_cert_b64 = none;
}

report_t : generate_report ascii toy_sha host (codes "now") nonce ≡ ok report
unfolding generate_report read_pcrs read_ima_summary read_ima_log read_raw_lines parse_lines
    parse_line summarize splitlines strip split ends_with build_ima_merkle_tree leaf_hash decimal
    encode hex reduce_to_root next_layer index_layer hash_pairs pad_odd parent_hash run_tpm_quote
    quote_of b64encode text_eq
report_t = refl

generate_report-IsReport_example : IsReport ascii toy_sha host nonce report
generate_report-IsReport_example =
    generate_report-IsReport ascii toy_sha host (codes "now") nonce host-HoldBytes report_t

short_t : generate_report ascii toy_sha host (codes "now") (codes "abc") ≡ raise value_error
unfolding generate_report
short_t = refl

-- a nonce of 64 NULs
abbrev nuls : Text
nuls = map (λ c. 0) nonce

nuls_t : generate_report ascii toy_sha host (codes "now") nuls ≡ raise value_error
unfolding generate_report read_pcrs read_ima_summary read_ima_log read_raw_lines parse_lines
    parse_line summarize splitlines strip split ends_with build_ima_merkle_tree leaf_hash decimal
    encode hex reduce_to_root next_layer index_layer hash_pairs pad_odd parent_hash run_tpm_quote
    text_eq
nuls_t = refl

-- a machine without the TPM tools
abbrev pub bare_host : Host
bare_host = record host { pcrread = not_started }

bare_t : generate_report ascii toy_sha bare_host (codes "now") nonce ≡ raise os_error
unfolding generate_report read_pcrs
bare_t = refl

generate_report-raises_example :
    ((os_error ≡ value_error) × (length nonce ≢ 64))
    ⊎ ((length nonce ≡ 64)
        × ((os_error ≡ runtime_error)
            ⊎ ((os_error ≡ value_error) × Unreadable ascii bare_host nonce)
            ⊎ ((os_error ≡ os_error) × NotStarted bare_host nonce)))
generate_report-raises_example =
    generate_report-raises ascii toy_sha bare_host (codes "now") nonce bare_t
