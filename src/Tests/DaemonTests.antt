-- ===== src/Tests/DaemonTests.antt =====
-- Runs of the daemon (phase3/shim.py): two connections, and the registration at the start.
use tpm_attest.Prelude.{
  ◌≡◌, ◌++◌, refl, true, false, some, none, [], ◌∷◌, arith, codes, Text, Bytes, length, All,
  text_eq, ok, raise, attribute_error, json_decode_error, is_runtime_error, is_json_decode_error,
  os_error, ap, ◌∙◌, subst,
}
use tpm_attest.Python.Json.{
  Fields, boolean, string, array, nil, object, end, field, get, truthy, len, is_true,
}
use tpm_attest.Python.Int.{pos, is_zero}
use tpm_attest.Python.Process.{Ran, finished}
use tpm_attest.Python.Encode.{IsByte, hex, encode}
use tpm_attest.Python.Decimal.{decimal}
use tpm_attest.Python.Split.{splitlines, strip, split, ends_with}
use tpm_attest.Python.Base64.{b64encode, b64decode}
use tpm_attest.Tests.{ascii, toy_sha, config, tools}
use tpm_attest.Tests.ReportTests.{host, bare_host, pcrs, nonce, log_output, quote_of}
use tpm_attest.Tests.ShimTests.{old, new}
use tpm_attest.Agent.Log.{
  count_lines, read_ima_summary, read_ima_log, read_ima_log_line_count, read_raw_lines, parse_lines,
  parse_line, summarize,
}
use tpm_attest.Agent.Merkle.Layers.{reduce_to_root, next_layer, index_layer, hash_pairs, pad_odd}
use tpm_attest.Agent.Tree.{
  Tree, leaf_hash, leaf_hashes, parent_hash, build_ima_merkle_tree, build_incremental_merkle_tree,
}
use tpm_attest.Agent.Pcr.{read_pcrs}
use tpm_attest.Agent.Report.{ToolRun, run_tpm_quote, read_ek_cert}
use tpm_attest.Server.Database.{Machine, init_db, get_enrolled_machine}
use tpm_attest.Server.Policy.{RegisterRequest, no_cert_supplied}
use tpm_attest.Server.Handlers.{registered, register, ek_verdict, finish_registration}
use tpm_attest.Shim.{ShimReport, empty_cache, collect_report_incremental}
use tpm_attest.Shim.Requests.{Reply, answered, unreachable, loads, get_challenge, post_report}
use tpm_attest.Shim.Client.{Connection, valid, invalid, closed, uncaught, handle_client, serve_loop}
use tpm_attest.Shim.Safety.{Attested, handle_client-Attested}
use tpm_attest.Shim.Answers.{is_dict}
use tpm_attest.Shim.Daemon.{IsClosed, is_array, serve_loop-stops}
use tpm_attest.Shim.Unstarted.{no_pcrread, serve_loop-unstarted}
use tpm_attest.Shim.Grows.{Reads, Grows, rests, grows}
use tpm_attest.Shim.Lifetime.{serve_loop-report}
use tpm_attest.Shim.Registration.{ek_cert_or_none, auto_register}
use tpm_attest.Shim.Enrolled.{auto_register-enrolls}

-- what the server answers
abbrev challenge_body : Fields
challenge_body = field (codes "nonce") (string nonce) end

abbrev verdict : Fields
verdict = field (codes "valid") (boolean true) (field (codes "token") (string (codes "t")) end)

abbrev pub conn : Connection
conn = record {
  received = some (ok (object (field (codes "game_id") (string (codes "g")) end)));
  challenge_reply = answered (loads (ok (object challenge_body)));
  host = host;
  count_log = log_output;
  timestamp = codes "now";
  attest_reply = λ report handshake. answered (loads (ok (object verdict)));
  sends = true;
}

-- a client whose handshake is no JSON, while the server is down
abbrev lost : Connection
lost = record conn { received = some (raise json_decode_error); challenge_reply = unreachable }

-- a handshake that is a JSON list
abbrev listed : Connection
listed = record conn { received = some (ok (array nil)) }

abbrev pub m1 : Text
m1 = codes "m1"

pub told_t :
    (handle_client ascii toy_sha m1 conn empty_cache).0 ≡ closed (some (valid (string (codes "t"))))
unfolding handle_client collect_report_incremental read_pcrs read_ima_summary read_ima_log
    read_ima_log_line_count read_raw_lines parse_lines parse_line count_lines summarize splitlines
    strip split ends_with build_incremental_merkle_tree leaf_hashes leaf_hash decimal encode hex
    reduce_to_root next_layer index_layer hash_pairs pad_odd parent_hash run_tpm_quote quote_of
    b64encode text_eq get_challenge post_report get truthy len is_true
told_t = refl

handle_client-Attested_example : Attested ascii toy_sha m1 conn empty_cache (string (codes "t"))
handle_client-Attested_example = handle_client-Attested ascii toy_sha m1 conn empty_cache told_t

-- a machine without the TPM tools
abbrev bare : Connection
bare = record conn { host = bare_host }

bare_challenge_t : get_challenge bare.challenge_reply ≡ ok (string nonce)
unfolding get_challenge get text_eq truthy len
bare_challenge_t = refl

ended_t : All IsClosed (serve_loop ascii toy_sha m1 (lost ∷ []) empty_cache).0
unfolding serve_loop get_challenge is_json_decode_error is_runtime_error
ended_t = ((some (invalid (string (codes "challenge fetch failed"))), refl), _)

serve_loop-stops_example : serve_loop ascii toy_sha m1 (lost ∷ listed ∷ conn ∷ []) empty_cache ≡ (
  (serve_loop ascii toy_sha m1 (lost ∷ []) empty_cache).0 ++ uncaught attribute_error ∷ [],
  (serve_loop ascii toy_sha m1 (lost ∷ []) empty_cache).1,
)
serve_loop-stops_example =
    serve_loop-stops ascii toy_sha m1 (lost ∷ []) listed (conn ∷ []) empty_cache ended_t refl
      (is_array nil)

serve_loop-unstarted_example : serve_loop ascii toy_sha m1 (lost ∷ bare ∷ conn ∷ []) empty_cache ≡ (
  (serve_loop ascii toy_sha m1 (lost ∷ []) empty_cache).0 ++ uncaught os_error ∷ [],
  (serve_loop ascii toy_sha m1 (lost ∷ []) empty_cache).1,
)
serve_loop-unstarted_example =
    serve_loop-unstarted ascii toy_sha m1 (lost ∷ []) bare (conn ∷ []) empty_cache ended_t refl
      (is_dict (field (codes "game_id") (string (codes "g")) end)) bare_challenge_t
      (no_pcrread refl)

lines_t : read_raw_lines log_output ≡ ok (old ++ new)
unfolding read_raw_lines splitlines strip
lines_t = refl

entries_t : length (parse_lines (old ++ new)) ≡ 2
unfolding parse_lines parse_line strip split
entries_t = refl

first-Reads : Reads [] conn (old ++ new) (old ++ new)
first-Reads = record {
  counted = lines_t;
  counted_entries = entries_t;
  read = lines_t;
  read_entries = entries_t;
}

second-Reads : Reads (old ++ new) conn [] []
second-Reads = record {
  counted = lines_t;
  counted_entries = entries_t;
  read = lines_t;
  read_entries = entries_t;
}

conn-Grows : Grows [] (conn ∷ []) (old ++ new)
conn-Grows = grows conn (old ++ new) (old ++ new) first-Reads (rests (old ++ new))

-- the report of the second connection, behind the cache of the first
abbrev second : ShimReport
second = record {
  version = codes "1.1";
  timestamp = codes "now";
  nonce = nonce;
  machine_id = m1;
  pcrs = pcrs;
  ima_summary = record {
    total_entries = 2;
    unique_files = 2;
    has_boot_aggregate = true;
    modules_measured = 0;
  };
  ima_merkle_root = codes "2b0102030405060708090a0b0c0d0e0f101112131415161718191a1b1c1d1e1f";
  ima_merkle_depth = 1;
  ima_leaf_count = 2;
  quote_available = true;
  quote_msg_b64 = codes "AQID";
  quote_sig_b64 = codes "BAUG";
}

second_t :
    (collect_report_incremental ascii toy_sha m1 host log_output
      (codes "now")
      (string nonce)
      (serve_loop ascii toy_sha m1 (conn ∷ []) empty_cache).1).0
    ≡ ok second
unfolding serve_loop collect_report_incremental read_pcrs read_ima_summary read_ima_log
    read_ima_log_line_count read_raw_lines parse_lines parse_line count_lines summarize splitlines
    strip split ends_with build_incremental_merkle_tree leaf_hashes leaf_hash decimal encode hex
    reduce_to_root next_layer index_layer hash_pairs pad_odd parent_hash run_tpm_quote quote_of
    b64encode text_eq get_challenge post_report get truthy len is_true
second_t = refl

serve_loop-report_example :
    (tree : Tree) × (build_ima_merkle_tree toy_sha (parse_lines ((old ++ new) ++ [])) ≡ ok tree)
    × (second.ima_merkle_root ≡ tree.root)
    × (second.ima_merkle_depth ≡ tree.depth)
    × (second.ima_leaf_count ≡ tree.leaf_count)
serve_loop-report_example =
    serve_loop-report ascii toy_sha m1 conn (string nonce) [] [] conn-Grows second-Reads second_t

-- tpm2_readpublic writes three bytes
abbrev key_run : ToolRun
key_run = record { returncode = pos 0; output = some (1 ∷ 2 ∷ 3 ∷ []) }

abbrev ak_run : Ran ToolRun
ak_run = finished key_run

abbrev request : RegisterRequest
request = record { machine_id = m1; ak_pub_b64 = codes "AQID"; ek_cert_b64 = none }

ak_run-IsByte :
    (run : ToolRun) (b : Bytes) → ak_run ≡ finished run → run.output ≡ some b → All IsByte b
ak_run-IsByte run b ran e =
    let same_run : key_run ≡ run = (cc) in
    let same : some (1 ∷ 2 ∷ 3 ∷ []) ≡ some b = ap (λ (r : ToolRun). r.output) same_run ∙ e in
    let bytes : 1 ∷ 2 ∷ 3 ∷ [] ≡ b = (cc) in subst (All IsByte) bytes (omega arith)

abbrev post : RegisterRequest → Reply
post req = unreachable

request_t : (auto_register m1 true ak_run host post).0 ≡ some request
unfolding auto_register b64encode
request_t = refl

accepted_t : (register config tools 600 request init_db).0 ≡ registered m1 false no_cert_supplied
unfolding register ek_verdict finish_registration
accepted_t = refl

auto_register-enrolls_example :
    (run : ToolRun) × (key : Bytes) × (row : Machine) × (ak_run ≡ finished run)
    × (is_zero run.returncode ≡ true)
    × (run.output ≡ some key)
    × (get_enrolled_machine m1 (register config tools 600 request init_db).1 ≡ some row)
    × (b64decode row.ak_pub_b64 ≡ some key)
    × (row.ek_cert_b64 ≡ ek_cert_or_none (read_ek_cert host))
auto_register-enrolls_example =
    auto_register-enrolls config tools 600 init_db m1 true ak_run host post ak_run-IsByte request_t
      accepted_t
