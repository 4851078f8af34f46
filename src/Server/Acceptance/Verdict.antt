-- ===== src/Server/Acceptance/Verdict.antt =====
-- /attest grants a token exactly for an acceptable report with a fresh nonce (server/main.py).
use tpm_attest.Prelude.{
  ◌+◌, ◌≤◌, ◌≡◌, refl, sym, ap, ◌∙◌, inl, inr, Option, none, some, List, [], ◌∷◌, arith, Text,
  text_eq_iff, ltb, le→not-ltb, not-ltb→le, Bool-cases, text_eq,
}
use tpm_attest.Python.Unicode.{Unicode}
use tpm_attest.Server.Database.{
  Time, Nonce, Db, purge_nonces, select_nonce, get_enrolled_machine, get_active_ima_root,
  get_pinned_pcr,
}
use tpm_attest.Server.Policy.{Config, Tools, AttestationReport, Reason}
use tpm_attest.Server.Checks.{
  ◌or_else◌, machine_of, verify_quote_signature, check_ek, check_ek_of, is_enrolled, check_pcr7,
  check_report, consume_nonce, verify_report,
}
use tpm_attest.Server.Handlers.{Clock, granted, token_lifetime, attest_response, attest}
use tpm_attest.Server.Nonces.{HasRow, consume_nonce-HasRow}
use tpm_attest.Server.Acceptance.{IsAcceptable, IsFresh}
use tpm_attest.Server.Acceptance.Parts.{
  or_else-eq-none, require-eq-none, verify_quote_signature_sound, verify_quote_signature_complete,
  check_ek-eq-none, check_pcrs-eq-none, check_boot-eq-none, check_root_form-eq-none,
  check_pinned_root-eq-none, check_pcr7-eq-none, check_entries-eq-none,
}

-- no check but the first reads the nonces
module _ (db : Db) (rows : List Nonce) where
  abbrev with_rows : Db
  with_rows = record db { active_nonces = rows }

  machine_of-nonces : (id' : Option Text) → machine_of id' with_rows ≡ machine_of id' db
  unfolding machine_of get_enrolled_machine
  machine_of-nonces none = refl
  machine_of-nonces (some []) = refl
  machine_of-nonces (some (c ∷ id')) = refl

  check_ek_of-nonces : (id' : Option Text) → check_ek_of id' with_rows ≡ check_ek_of id' db
  unfolding check_ek_of get_enrolled_machine
  check_ek_of-nonces none = refl
  check_ek_of-nonces (some []) = refl
  check_ek_of-nonces (some (c ∷ id')) = refl

  verify_quote_signature-nonces :
      (tools : Tools) (report : AttestationReport)
      → verify_quote_signature tools report with_rows ≡ verify_quote_signature tools report db
  unfolding verify_quote_signature
  verify_quote_signature-nonces tools report = rw (machine_of-nonces report.machine_id)

  is_enrolled-nonces :
      (report : AttestationReport) → is_enrolled report with_rows ≡ is_enrolled report db
  unfolding is_enrolled
  is_enrolled-nonces report = rw (machine_of-nonces report.machine_id, is_enrolled)

  check_ek-nonces :
      (cfg : Config) (report : AttestationReport)
      → check_ek cfg report with_rows ≡ check_ek cfg report db
  unfolding check_ek
  check_ek-nonces cfg report = rw (check_ek_of-nonces report.machine_id)

  get_active_ima_root-nonces : get_active_ima_root with_rows ≡ get_active_ima_root db
  unfolding get_active_ima_root
  get_active_ima_root-nonces = refl

  check_pcr7-nonces :
      (cfg : Config) (u : Unicode) (report : AttestationReport)
      → check_pcr7 cfg u report with_rows ≡ check_pcr7 cfg u report db
  unfolding check_pcr7 get_pinned_pcr
  check_pcr7-nonces cfg u report = refl

  pub check_report-nonces :
      (cfg : Config) (u : Unicode) (tools : Tools) (report : AttestationReport)
      → check_report cfg u tools report with_rows ≡ check_report cfg u tools report db
  unfolding check_report
  check_report-nonces cfg u tools report = rw (
    verify_quote_signature-nonces tools report,
    check_ek-nonces cfg report,
    is_enrolled-nonces report,
    get_active_ima_root-nonces,
    check_pcr7-nonces cfg u report,
  )

module _ (cfg : Config) (u : Unicode) (tools : Tools) (report : AttestationReport) (db : Db) where
  pub check_report_sound :
      check_report cfg u tools report db ≡ none → IsAcceptable cfg u tools report db
  unfolding check_report
  check_report_sound h =
      let (quoted, h1) = (or_else-eq-none _ _).0 h in
      let (signed, h2) = (or_else-eq-none _ _).0 h1 in
      let (ek, h3) = (or_else-eq-none _ _).0 h2 in
      let (pcrs, h4) = (or_else-eq-none _ _).0 h3 in
      let (boot, h5) = (or_else-eq-none _ _).0 h4 in
      let (form, h6) = (or_else-eq-none _ _).0 h5 in
      let (root, h7) = (or_else-eq-none _ _).0 h6 in
      let (pcr7, entries) = (or_else-eq-none _ _).0 h7 in
      let pcrs' = (check_pcrs-eq-none u report _).0 pcrs in
      let form' = (check_root_form-eq-none u report).0 form in
      record {
        quoted = (require-eq-none _ _).0 quoted;
        signed = verify_quote_signature_sound tools report db signed;
        hardware = (check_ek-eq-none cfg report db).0 ek;
        some_pcrs = pcrs'.0;
        measured = pcrs'.1;
        booted = (check_boot-eq-none report _).0 boot;
        root_length = form'.0;
        root_number = form'.1;
        some_entries = form'.2;
        root_pinned = (check_pinned_root-eq-none u report _).0 root;
        pcr7_pinned = (check_pcr7-eq-none cfg u report db).0 pcr7;
        enough_entries = (check_entries-eq-none cfg report).0 entries;
      }

  check_report_complete :
      IsAcceptable cfg u tools report db → check_report cfg u tools report db ≡ none
  unfolding check_report
  check_report_complete a =
      let both =
        λ (x y : Option Reason) (p : x ≡ none) (q : y ≡ none). (or_else-eq-none x y).1 (p, q) in
      both _ _ ((require-eq-none _ _).1 a.quoted) (
        both _ _ (verify_quote_signature_complete tools report db a.signed) (
          both _ _ ((check_ek-eq-none cfg report db).1 a.hardware) (
            both _ _ ((check_pcrs-eq-none u report _).1 (a.some_pcrs, a.measured)) (
              both _ _ ((check_boot-eq-none report _).1 a.booted) (
                both _ _
                  ((check_root_form-eq-none u report).1
                    (a.root_length, a.root_number, a.some_entries))
                  (both _ _ ((check_pinned_root-eq-none u report _).1 a.root_pinned) (
                    both _ _ ((check_pcr7-eq-none cfg u report db).1 a.pcr7_pinned)
                      ((check_entries-eq-none cfg report).1 a.enough_entries))))))))

HasRow-select :
    (now : Time) (n : Text) (rows : List Nonce) (t : Time)
    → now ≤ t
    → HasRow n t rows
    → (t' : Time) × (select_nonce n (purge_nonces now rows) ≡ some t') × (now ≤ t')
unfolding select_nonce purge_nonces
HasRow-select now n [] t le row = absurd row
HasRow-select now n (r ∷ rows) t le row = elim (Bool-cases (ltb r.expires_at now)) [
  | inl e ↦ elim row [
    | inl here ↦ absurd (ground arith)
    | inr later ↦ rw e (HasRow-select now n rows t le later)
  ]
  | inr e ↦ elim (Bool-cases (text_eq r.nonce n)) [
    | inl q ↦ (r.expires_at, rw (e, q), not-ltb→le r.expires_at now e)
    | inr q ↦ elim row [
      | inl here ↦ absurd (cc ((text_eq_iff r.nonce n).1 here.0, q))
      | inr later ↦ rw (e, q) (HasRow-select now n rows t le later)
    ]
  ]
]

consume_nonce-of_fresh :
    (now : Time) (report : AttestationReport) (db : Db)
    → (t : Time) × (now ≤ t) × HasRow report.nonce t db.active_nonces
    → (consume_nonce now report.nonce db).0 ≡ none
unfolding consume_nonce
consume_nonce-of_fresh now report db (t, le, row) =
    let (t', found, le') = HasRow-select now report.nonce db.active_nonces t le row in
    rw (found, le→not-ltb t' now le')

granted-passed :
    (now : Time) (token : Text) (fail : Option Reason) {t : Text} {e : Time}
    → attest_response now token fail ≡ granted t e
    → fail ≡ none
unfolding attest_response
granted-passed now token none h = refl
granted-passed now token (some r) h = absurd (cc)

module _ (cfg : Config) (u : Unicode) (tools : Tools) (clock : Clock) (token : Text)
    (report : AttestationReport) (db : Db) where
  -- the answer, from the verdict on the nonce and that of the other checks on the same tables
  pub attest-verdict :
      (attest cfg u tools clock token report db).0
      ≡ attest_response clock.finished token (
          (consume_nonce clock.checked report.nonce db).0
          or_else check_report cfg u tools report db)
  unfolding attest verify_report consume_nonce
  attest-verdict = rw (check_report-nonces db _ cfg u tools report)

  -- A token is granted only if the nonce is fresh and every part of the specification holds.
  pub attest_sound :
      {t : Text} {e : Time}
      → (attest cfg u tools clock token report db).0 ≡ granted t e
      → IsFresh clock.checked report db × IsAcceptable cfg u tools report db
  attest_sound h =
      let passed = granted-passed clock.finished token _ (sym attest-verdict ∙ h) in
      let (consumed, checked) = (or_else-eq-none _ _).0 passed in
      (
        consume_nonce-HasRow clock.checked report.nonce db consumed,
        check_report_sound cfg u tools report db checked,
      )

  -- An acceptable report with a fresh nonce gets the token, with five minutes to live.
  pub attest_complete :
      IsFresh clock.checked report db
      → IsAcceptable cfg u tools report db
      → (attest cfg u tools clock token report db).0
        ≡ granted token (clock.finished + token_lifetime)
  unfolding attest_response
  attest_complete fresh a =
      attest-verdict
      ∙ ap (attest_response clock.finished token) (
          (or_else-eq-none _ _).1 (
            consume_nonce-of_fresh clock.checked report db fresh,
            check_report_complete cfg u tools report db a,
          ))
