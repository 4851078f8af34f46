-- ===== src/Agent/Report.antt =====
-- The report of agent/report.py. What the programs print and write is an argument, and so is whether
-- they start.
pub mod Raises
pub mod Closed
use tpm_attest.Prelude.{
  ℕ, Bool, true, false, Option, none, some, List, [], ◌∷◌, ◌==◌, if◌then◌else◌, length, is_empty,
  codes, Text, Bytes, Result, ok, raise, value_error, runtime_error, ◌>>=◌,
}
use mathlib.Core.Option
use tpm_attest.Python.Int.{ℤ, is_zero}
use tpm_attest.Python.Process.{Ran, finished, completed, make_tempdir, check_argument}
use tpm_attest.Python.Base64.{b64encode}
use tpm_attest.Python.Unicode.{Unicode}
use tpm_attest.Agent.Log.{Completed, Entry, Summary, read_ima_log, read_ima_summary}
use tpm_attest.Agent.Tree.{Tree, build_ima_merkle_tree}
use tpm_attest.Agent.Pcr.{Pcrs, read_pcrs}

-- a program that writes a file, once it has ended; `none` where the file cannot be read
pub record ToolRun : Type 0 where
  pub returncode : ℤ
  pub output : Option Bytes

-- the same of tpm2_quote
pub record QuoteRun : Type 0 where
  pub returncode : ℤ
  pub quote_msg : Option Bytes
  pub quote_sig : Option Bytes

-- The machine: tpm2_pcrread, the two reads of the log in the order of the code, whether the temporary
-- directories of the quote and of the EK are made, tpm2_quote for a nonce, the two runs of tpm2_nvread
-- and tpm2_readpublic. Any program may fail to start or print what is no text.
pub record Host : Type 0 where
  pub pcrread : Ran Completed
  pub summary_log : Ran Completed
  pub entries_log : Ran Completed
  pub quote_tempdir : Bool
  pub tpm2_quote : Text → Ran QuoteRun
  pub ek_tempdir : Bool
  pub nvread_rsa : Ran ToolRun
  pub nvread_ecc : Ran ToolRun
  pub readpublic : Ran ToolRun

-- One attempt: the file of a program that succeeds, else the attempts behind it. An exception in the
-- run or while the file is read is caught outside all of them: the answer is None.
unfoldable pub attempt : Ran ToolRun → Option Text → Option Text
unfolding b64encode
attempt (finished run) rest =
    if is_zero run.returncode then Option.map b64encode run.output else rest
attempt _ rest = none

-- The temporary directory is made in front of the `try`.
unfoldable pub read_ek_cert : Host → Result (Option Text)
unfolding attempt make_tempdir
read_ek_cert host = do
  made ← make_tempdir host.ek_tempdir
  ok (attempt host.nvread_rsa (attempt host.nvread_ecc (attempt host.readpublic none)))

-- the two files; an OSError becomes a RuntimeError
unfoldable pub encode_quote : Option Bytes → Option Bytes → Result (Text × Text)
encode_quote (some msg) (some sig) = ok (b64encode msg, b64encode sig)
encode_quote _ _ = raise runtime_error

-- the files of a tpm2_quote that succeeded
unfoldable pub read_quote : QuoteRun → Result (Text × Text)
unfolding encode_quote
read_quote run =
    if is_zero run.returncode then encode_quote run.quote_msg run.quote_sig else raise runtime_error

-- Only the reading of the files turns an OSError into a RuntimeError.
unfoldable pub run_tpm_quote : Host → Text → Result (Text × Text)
unfolding make_tempdir check_argument completed read_quote
run_tpm_quote host nonce_hex = do
  made ← make_tempdir host.quote_tempdir
  passed ← check_argument nonce_hex
  run ← completed (host.tpm2_quote nonce_hex)
  read_quote run

-- the dict of `generate_report`
pub record Report : Type 0 where
  pub version : Text
  pub timestamp : Text
  pub nonce : Text
  pub pcrs : Pcrs
  pub ima_summary : Summary
  pub ima_merkle_root : Text
  pub ima_merkle_depth : ℕ
  pub ima_leaf_count : ℕ
  pub quote_available : Bool
  pub quote_msg_b64 : Text
  pub quote_sig_b64 : Text
  pub ek_cert_b64 : Option Text

module _ (u : Unicode) (sha256 : Bytes → Bytes) where
  -- the part behind the test of the nonce
  unfoldable pub assemble_report : Host → Text → Text → Result Report
  unfolding read_ek_cert
  assemble_report host timestamp nonce = do
    pcrs ← read_pcrs u host.pcrread
    ima_summary ← read_ima_summary host.summary_log
    ima_entries ← read_ima_log 0 host.entries_log
    ima_tree ← build_ima_merkle_tree sha256 ima_entries
    (quote_msg_b64, quote_sig_b64) ← run_tpm_quote host nonce
    ek_cert_b64 ← read_ek_cert host
    ok (record {
      version = codes "1.1";
      timestamp = timestamp;
      nonce = nonce;
      pcrs = pcrs;
      ima_summary = ima_summary;
      ima_merkle_root = ima_tree.root;
      ima_merkle_depth = ima_tree.depth;
      ima_leaf_count = ima_tree.leaf_count;
      quote_available = true;
      quote_msg_b64 = quote_msg_b64;
      quote_sig_b64 = quote_sig_b64;
      ek_cert_b64 = ek_cert_b64;
    })

  -- `timestamp` is what the clock reads
  unfoldable pub generate_report : Host → Text → Text → Result Report
  unfolding assemble_report
  generate_report host timestamp nonce =
      if length nonce == 64 then assemble_report host timestamp nonce else raise value_error
