-- ===== src/Tests/ServerTests.antt =====
-- Runs of the handlers of server/main.py on small tables.
use tpm_attest.Prelude.{
  ◌≡◌, none, ◌≢◌, ◌⊎◌, ◌+◌, ◌*◌, ◌≤◌, refl, inl, inr, true, false, some, List, [], ◌∷◌, Text, Bytes,
  arith, codes, text_eq, text_eq-false,
}
use tpm_attest.Tests.{
  config, strict_config, tools, ascii, report, second_report, clock, nonce_one, nonce_two,
  registration, machine_one,
}
use tpm_attest.Server.Database.{
  Db, init_db, issue_nonce, has_nonce, purge_nonces, select_nonce, delete_nonce, find_machine,
  get_enrolled_machine, upsert_machine, register_machine, get_active_ima_root, select_active,
  later_of, deactivate_all, pin_baseline, max_id, is_latest, activate_if, activate_latest,
  get_pinned_pcr, get,
}
use tpm_attest.Server.Policy.{Config, nonce_not_recognised, x509_parsed}
use tpm_attest.Server.Checks.{
  judge_nonce, consume_nonce, machine_of, ak_pub, check_blobs, verify_quote_signature, check_ek_of,
  check_ek_row, check_ek, is_enrolled, check_pcr_values, check_pcrs, check_boot, check_root_form,
  check_pinned_root, check_pcr7, check_pcr7_value, check_minimum, check_entries, check_report,
  verify_report,
}
use tpm_attest.Server.Handlers.{
  challenge, attest, attest_response, granted, denied, registered, enrolled, not_enrolled, register,
  judge_ek, verify_ek_cert, ek_verdict, finish_registration, enroll_begin, restore, enroll_end,
  enroll,
}
use tpm_attest.Server.Run.{
  Request, get_challenge, post_register, post_attest, post_enroll, serve, run,
}
use tpm_attest.Python.Base64.{b64decode, decode_from, b64_value}
use tpm_attest.Python.Split.{is_space}
use tpm_attest.Python.Unicode.{
  is_int16, is_hex_digit, is_ascii_space, digits_run, digits_start, skip_underscore, skip_prefix,
  skip_sign, skip_spaces, to_ascii,
}
use tpm_attest.Server.Database.{Machine, Time}
use tpm_attest.Server.Checks.{reported_pcr7}
use tpm_attest.Server.Handlers.{Response, token_lifetime}
use tpm_attest.Server.Nonces.{consume_nonce-failure}
use tpm_attest.Server.Replay.{attest-replay}
use tpm_attest.Server.Freshness.{Issues, attest-fresh}
use tpm_attest.Server.Acceptance.{IsSigned, IsPinned, IsFresh, IsAcceptable}
use tpm_attest.Server.Acceptance.Verdict.{attest_sound, attest_complete}
use tpm_attest.Server.Enrollment.{IsPinnable, enroll-failed}
use tpm_attest.Server.Pinning.{init_db-IsPinnable, run-IsPinnable}
use tpm_attest.Server.Anchor.{NoneEnrols, attest-enrolled}
use tpm_attest.Server.Registry.{row_of, register-enrolls, register-others}
use tpm_attest.Server.Hardware.{attest-strict}
use tpm_attest.Server.Window.{enroll_begin-unpins}

-- the answer to the last of several requests, from empty tables
answer : Config → List Request → Request → Response
unfolding serve run register ek_verdict verify_ek_cert judge_ek finish_registration register_machine
    upsert_machine enroll enroll_begin enroll_end restore deactivate_all pin_baseline
    activate_latest max_id is_latest activate_if attest attest_response verify_report consume_nonce
    judge_nonce purge_nonces select_nonce delete_nonce check_report verify_quote_signature
    machine_of ak_pub check_blobs check_ek check_ek_of check_ek_row is_enrolled check_pcrs
    check_pcr_values check_boot check_root_form check_pinned_root check_pcr7 check_pcr7_value
    check_entries check_minimum get_active_ima_root select_active later_of get_pinned_pcr get
    get_enrolled_machine find_machine challenge issue_nonce has_nonce text_eq b64decode decode_from
    b64_value is_space is_int16 is_hex_digit is_ascii_space digits_run digits_start skip_prefix
    skip_sign skip_spaces skip_underscore to_ascii
answer cfg requests request =
    (serve cfg ascii tools request (run cfg ascii tools requests init_db)).0

abbrev tables : List Request → Db
tables requests = run config ascii tools requests init_db

abbrev issued : Db
issued = tables (get_challenge 500 nonce_one ∷ [])

granted_t :
    (attest config ascii tools clock nonce_one report issued).0 ≡ granted nonce_one 300_002_000
unfolding answer
granted_t = refl

attest_sound_example : IsFresh 1000 report issued × IsAcceptable config ascii tools report issued
attest_sound_example = attest_sound config ascii tools clock nonce_one report issued granted_t

report-IsSigned : IsSigned tools report issued
unfolding answer
report-IsSigned = record {
  message = 0 ∷ 0 ∷ 0 ∷ [];
  signature = 4 ∷ 16 ∷ 65 ∷ [];
  key = 1 ∷ [];
  message_there = refl;
  signature_there = refl;
  message_decoded = refl;
  signature_decoded = refl;
  key_known = refl;
  verified = refl;
}

report-IsFresh : IsFresh 1000 report issued
unfolding answer
report-IsFresh = (120_000_500, omega arith, inl (refl, refl))

report-IsAcceptable : IsAcceptable config ascii tools report issued
unfolding answer
report-IsAcceptable = record {
  quoted = refl;
  signed = report-IsSigned;
  hardware = inl refl;
  some_pcrs = λ e. absurd (cc);
  measured = (inl (text_eq-false _ _ refl), (inl (text_eq-false _ _ refl), tt));
  booted = inr refl;
  root_length = refl;
  root_number = refl;
  some_entries = omega arith;
  root_pinned = inl refl;
  pcr7_pinned = inr (inl refl);
  enough_entries = omega arith;
}

attest_complete_example :
    (attest config ascii tools clock nonce_one report issued).0
    ≡ granted nonce_one (2000 + token_lifetime)
attest_complete_example =
    attest_complete config ascii tools clock nonce_one report issued report-IsFresh
      report-IsAcceptable

two_differ : nonce_two ≢ nonce_one
unfolding answer
two_differ = text_eq-false nonce_two nonce_one refl

attest-replay_example :
    (attest config ascii tools clock nonce_two report (
      run config ascii tools
        (get_challenge 3000 nonce_two ∷ [])
        (serve config ascii tools (post_attest clock nonce_one report) issued).1)).0
    ≡ denied nonce_not_recognised
attest-replay_example =
    attest-replay config ascii tools (post_attest clock nonce_one report)
      (get_challenge 3000 nonce_two ∷ []) issued clock nonce_two report refl (two_differ, tt)

attest-fresh_example :
    (issued_at : Time) × Issues nonce_one issued_at (get_challenge 500 nonce_one ∷ [])
    × (1000 ≤ issued_at + 120 * 1_000_000)
attest-fresh_example =
    attest-fresh config ascii tools (get_challenge 500 nonce_one ∷ []) clock nonce_one report
      granted_t

-- the tables with a baseline, and a second nonce open
abbrev two_issued : List Request
two_issued = get_challenge 500 nonce_one ∷ get_challenge 600 nonce_two ∷ []

two_issued-IsPinnable : IsPinnable (tables two_issued)
two_issued-IsPinnable = run-IsPinnable config ascii tools two_issued init_db init_db-IsPinnable

abbrev enrolment : Response × Db
enrolment = enroll config ascii tools clock report (tables two_issued)

enrolled_t :
    enrolment.0
    ≡ enrolled (codes "abcdef0123456789abcdef0123456789abcdef0123456789abcdef0123456789")
unfolding answer
enrolled_t = refl

abbrev in_between : List Request
in_between = get_challenge 700 (codes "cc33") ∷ post_enroll clock report ∷ []

none_enrols : NoneEnrols config ascii tools in_between enrolment.1
unfolding answer
none_enrols = (λ root e. absurd (cc), (λ root e. absurd (cc), tt))

second_granted_t :
    (attest config ascii tools clock nonce_one second_report
      (run config ascii tools in_between enrolment.1)).0
    ≡ granted nonce_one 300_002_000
unfolding answer
second_granted_t = refl

attest-enrolled_example :
    (ascii.lower second_report.ima_merkle_root ≡ ascii.lower report.ima_merkle_root)
    × ((config.require_pcr7_pinning ≡ false)
        ⊎ IsPinned ascii.lower (reported_pcr7 second_report) (get (codes "7") report.pcrs))
attest-enrolled_example =
    attest-enrolled config ascii tools clock report in_between (tables two_issued) clock nonce_one
      second_report two_issued-IsPinnable enrolled_t none_enrols second_granted_t

-- /enroll with a nonce that is used up
abbrev enrolled_once : List Request
enrolled_once = get_challenge 500 nonce_one ∷ post_enroll clock report ∷ []

refused_t :
    (enroll config ascii tools clock report (tables enrolled_once)).0
    ≡ not_enrolled nonce_not_recognised
unfolding answer
refused_t = refl

enroll-failed_example :
    (enroll config ascii tools clock report (tables enrolled_once)).1.baselines
    ≡ (tables enrolled_once).baselines
enroll-failed_example =
    enroll-failed config ascii tools clock report (tables enrolled_once)
      (run-IsPinnable config ascii tools enrolled_once init_db init_db-IsPinnable) refused_t

run-IsPinnable_example : IsPinnable (run config ascii tools enrolled_once init_db)
run-IsPinnable_example = run-IsPinnable config ascii tools enrolled_once init_db init_db-IsPinnable

abbrev registered_once : List Request
registered_once = get_challenge 500 nonce_one ∷ post_register 600 registration ∷ []

strict_granted_t :
    (attest strict_config ascii tools clock nonce_two report
      (run strict_config ascii tools registered_once init_db)).0
    ≡ granted nonce_two 300_002_000
unfolding answer
strict_granted_t = refl

attest-strict_example :
    (m : Machine) × (machine_of report.machine_id
        (run strict_config ascii tools registered_once init_db)
      ≡ some m)
    × (cert : Text) × (der : Bytes) × (m.ek_cert_b64 ≡ some cert)
    × (b64decode cert ≡ some der)
    × (tools.load_der_x509_certificate der ≡ true)
attest-strict_example =
    attest-strict strict_config ascii tools registered_once clock nonce_two report refl
      strict_granted_t

late_t : (consume_nonce 200_000_000 nonce_one issued).0 ≡ some nonce_not_recognised
unfolding answer
late_t = refl

consume_nonce-failure_example : nonce_not_recognised ≡ nonce_not_recognised
consume_nonce-failure_example = consume_nonce-failure 200_000_000 nonce_one issued late_t

registered_t :
    (register config tools 600 registration init_db).0 ≡ registered machine_one true x509_parsed
unfolding answer
registered_t = refl

register-enrolls_example :
    get_enrolled_machine machine_one (register config tools 600 registration init_db).1
    ≡ some (row_of 600 registration true)
register-enrolls_example = register-enrolls config tools 600 registration init_db registered_t

other_machine : codes "m2" ≢ machine_one
unfolding answer
other_machine = text_eq-false (codes "m2") machine_one refl

register-others_example :
    get_enrolled_machine (codes "m2") (register config tools 600 registration issued).1
    ≡ get_enrolled_machine (codes "m2") issued
register-others_example =
    register-others config tools 600 registration issued (codes "m2") other_machine

enroll_begin-unpins_example :
    (check_pinned_root ascii report (get_active_ima_root (enroll_begin enrolment.1)) ≡ none)
    × (check_pcr7 config ascii report (enroll_begin enrolment.1) ≡ none)
enroll_begin-unpins_example = enroll_begin-unpins config ascii report enrolment.1
