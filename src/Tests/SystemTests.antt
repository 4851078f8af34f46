-- ===== src/Tests/SystemTests.antt =====
-- A run of the whole system: challenge, report, verdict, and the game (demo_game/, phase3/shim.py,
-- server/main.py).
use tpm_attest.Prelude.{◌≡◌, refl, subst, sym, some, [], ◌∷◌, codes, text_eq}
use tpm_attest.Python.Json.{string, get, truthy, len, is_true}
use tpm_attest.Python.Base64.{b64encode, b64decode, decode_from, b64_value}
use tpm_attest.Python.Split.{is_space, splitlines, strip, split, ends_with}
use tpm_attest.Python.Encode.{hex, encode}
use tpm_attest.Python.Decimal.{decimal}
use tpm_attest.Python.Unicode.{
  is_int16, is_hex_digit, is_ascii_space, digits_run, digits_start, skip_underscore, skip_prefix,
  skip_sign, skip_spaces, to_ascii,
}
use tpm_attest.Agent.Log.{
  count_lines, read_ima_summary, read_ima_log, read_ima_log_line_count, read_raw_lines, parse_lines,
  parse_line, summarize,
}
use tpm_attest.Agent.Merkle.Layers.{reduce_to_root, next_layer, index_layer, hash_pairs, pad_odd}
use tpm_attest.Agent.Tree.{leaf_hash, leaf_hashes, parent_hash, build_incremental_merkle_tree}
use tpm_attest.Agent.Pcr.{read_pcrs}
use tpm_attest.Agent.Report.{run_tpm_quote}
use tpm_attest.Server.Database
use tpm_attest.Server.Checks.{
  judge_nonce, consume_nonce, machine_of, ak_pub, check_blobs, verify_quote_signature, check_ek_of,
  check_ek_row, check_ek, is_enrolled, check_pcr_values, check_pcrs, check_boot, check_root_form,
  check_pinned_root, check_pcr7, check_pcr7_value, check_minimum, check_entries, check_report,
  verify_report,
}
use tpm_attest.Server.Handlers.{attest, attest_response}
use tpm_attest.Shim.{collect_report_incremental}
use tpm_attest.Shim.Requests.{get_challenge, post_report}
use tpm_attest.Tests.{ascii, toy_sha, config, tools, clock}
use tpm_attest.Tests.ReportTests.{nonce, quote_of}
use tpm_attest.Tests.DaemonTests.{conn, m1}
use tpm_attest.Tests.DemoTests.{query, told, played-Reach, playing_t, play, payload}
use tpm_attest.Server.Database.{
  Db, init_db, purge_nonces, select_nonce, delete_nonce, find_machine, get_enrolled_machine,
  get_active_ima_root, select_active, later_of, get_pinned_pcr,
}
use tpm_attest.Shim.{empty_cache}
use tpm_attest.Shim.Client.{Connection, Ending, closed, handle_client}
use tpm_attest.Demo.Launch.{Arrives, whole}
use tpm_attest.System.{Printed, connect}
use tpm_attest.System.Accepted.{IsAccepted, launch-IsAccepted}

abbrev printed : Printed
printed = record { isoformat = λ t. []; reason = λ r. []; ek_info = λ i. [] }

-- the server has issued the nonce
abbrev db : Db
db = record init_db { active_nonces = record { nonce = nonce; expires_at = 5000 } ∷ [] }

abbrev connected : Connection
connected = connect printed config ascii tools clock (codes "t") db conn

accepted_t : (handle_client ascii toy_sha m1 connected empty_cache).0 ≡ closed (some payload)
unfolding handle_client collect_report_incremental read_pcrs read_ima_summary read_ima_log
    read_ima_log_line_count read_raw_lines parse_lines parse_line count_lines summarize splitlines
    strip split ends_with build_incremental_merkle_tree leaf_hashes leaf_hash decimal encode hex
    reduce_to_root next_layer index_layer hash_pairs pad_odd parent_hash run_tpm_quote quote_of
    b64encode text_eq get_challenge post_report get truthy len is_true attest attest_response
    verify_report consume_nonce judge_nonce purge_nonces select_nonce delete_nonce check_report
    verify_quote_signature machine_of ak_pub check_blobs check_ek check_ek_of check_ek_row
    is_enrolled check_pcrs check_pcr_values check_boot check_root_form check_pinned_root check_pcr7
    check_pcr7_value check_entries check_minimum get_active_ima_root select_active later_of
    get_pinned_pcr get_enrolled_machine find_machine b64decode decode_from b64_value is_space
    is_int16 is_hex_digit is_ascii_space digits_run digits_start skip_prefix skip_sign skip_spaces
    skip_underscore to_ascii tpm_attest.Server.Database.get connect
accepted_t = refl

accepted-Arrives : Arrives (handle_client ascii toy_sha m1 connected empty_cache).0 query
accepted-Arrives = subst (λ (e : Ending). Arrives e query) (sym accepted_t) (whole payload)

launch-IsAccepted_example :
    ((play told).result.token ≡ some (string (codes "t")))
    × IsAccepted printed config tools clock
        (codes "t")
        db
        ascii
        toy_sha
        m1
        conn
        (string (codes "t"))
launch-IsAccepted_example =
    launch-IsAccepted printed config tools clock (codes "t") db ascii toy_sha m1 conn empty_cache
      accepted-Arrives played-Reach playing_t
