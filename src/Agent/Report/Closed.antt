-- ===== src/Agent/Report/Closed.antt =====
-- `generate_report` fails closed (agent/report.py).
use tpm_attest.Prelude.{
  ◌≡◌, ◌≢◌, ◌⊎◌, refl, ap, ◌∙◌, inl, inr, true, false, Option, none, some, List, ◌==◌, ==_iff,
  Bool-cases, Text, Bytes, length, All, Exception, Result, ok, raise, value_error, runtime_error,
  os_error, ◌>>=◌, ok-injective, subst,
}
use tpm_attest.Python.Int.{is_zero}
use tpm_attest.Python.Encode.{IsByte}
use tpm_attest.Python.Base64.{b64encode, b64decode}
use tpm_attest.Python.Base64.RoundTrip.{b64decode-b64encode}
use tpm_attest.Python.Process.{
  Ran, not_started, not_text, finished, completed, make_tempdir, is_argument, check_argument,
}
use tpm_attest.Python.Unicode.{Unicode}
use tpm_attest.Agent.Log.{Entry, Summary, read_ima_log, read_ima_summary}
use tpm_attest.Agent.Tree.{Tree, build_ima_merkle_tree}
use tpm_attest.Agent.Pcr.{read_pcrs}
use tpm_attest.Agent.Report.{
  Host, QuoteRun, Report, read_ek_cert, encode_quote, read_quote, run_tpm_quote, assemble_report,
  generate_report,
}
use tpm_attest.Agent.Report.Raises.{
  Raises, Raises-bind, Raises-ok, summary-Raises, log-Raises, pcrs-Raises, tree-Raises,
  quote-Raises, ek_cert-Raises, HasLongIndex,
}

-- what a block that returned took from its first call
pub returned {ℓ κ} :
    {A : Type ℓ} {B : Type κ} {end : B} (rest : A → Result B) (first : Result A)
    → first >>= rest ≡ ok end
    → (a : A) × (rest a ≡ ok end) × (first ≡ ok a)
returned rest (ok a) h = (a, h, refl)
returned rest (raise x) h = absurd (cc)

-- what tpm2_quote wrote for a nonce
pub record Quoted (host : Host) (nonce : Text) (quote_msg_b64 quote_sig_b64 : Text) : Type 0 where
  pub run : QuoteRun
  pub message : Bytes
  pub signature : Bytes
  pub ran : host.tpm2_quote nonce ≡ finished run
  pub succeeded : is_zero run.returncode ≡ true
  pub message_file : run.quote_msg ≡ some message
  pub signature_file : run.quote_sig ≡ some signature
  pub message_sent : b64decode quote_msg_b64 ≡ some message
  pub signature_sent : b64decode quote_sig_b64 ≡ some signature

-- the files of tpm2_quote hold bytes
abbrev pub HoldBytes : Host → Type 0
HoldBytes host =
    (n : Text) (run : QuoteRun) (b : Bytes)
    → host.tpm2_quote n ≡ finished run
    → (run.quote_msg ≡ some b) ⊎ (run.quote_sig ≡ some b)
    → All IsByte b

completed-ok :
    {A : Type 0} (run : Ran A) {result : A} → completed run ≡ ok result → run ≡ finished result
unfolding completed
completed-ok not_started h = absurd (cc)
completed-ok not_text h = absurd (cc)
completed-ok (finished r) h = ap finished (ok-injective h)

-- A program of the report does not start, or a temporary directory is not made.
pub data NotStarted (host : Host) (nonce : Text) : Type 0 where
  no_pcrread : host.pcrread ≡ not_started → NotStarted host nonce
  no_summary_log : host.summary_log ≡ not_started → NotStarted host nonce
  no_entries_log : host.entries_log ≡ not_started → NotStarted host nonce
  no_quote_tempdir : host.quote_tempdir ≡ false → NotStarted host nonce
  no_tpm2_quote : host.tpm2_quote nonce ≡ not_started → NotStarted host nonce
  no_ek_tempdir : host.ek_tempdir ≡ false → NotStarted host nonce

-- A program of the report cannot take the nonce, or prints what is no text, or a number that `int`
-- refuses.
pub data Unreadable (u : Unicode) (host : Host) (nonce : Text) : Type 0 where
  pcrread_text : host.pcrread ≡ not_text → Unreadable u host nonce
  pcr_index : HasLongIndex u host.pcrread → Unreadable u host nonce
  summary_log_text : host.summary_log ≡ not_text → Unreadable u host nonce
  entries_log_text : host.entries_log ≡ not_text → Unreadable u host nonce
  nonce_argument : is_argument nonce ≡ false → Unreadable u host nonce
  tpm2_quote_text : host.tpm2_quote nonce ≡ not_text → Unreadable u host nonce

-- which exceptions come from where, for a nonce of 64 characters
abbrev pub IsFailure : Unicode → Host → Text → Exception → Type 0
IsFailure u host nonce e =
    (e ≡ runtime_error)
    ⊎ ((e ≡ value_error) × Unreadable u host nonce)
    ⊎ ((e ≡ os_error) × NotStarted host nonce)

encode_quote-ok :
    (msg sig : Option Bytes) {m s : Text}
    → encode_quote msg sig ≡ ok (m, s)
    → (message : Bytes) × (signature : Bytes) × (msg ≡ some message)
      × (sig ≡ some signature)
      × (m ≡ b64encode message)
      × (s ≡ b64encode signature)
unfolding encode_quote
encode_quote-ok (some a) (some b) h = (a, b, refl, refl, (cc), (cc))
encode_quote-ok (some a) none h = absurd (cc)
encode_quote-ok none sig h = absurd (cc)

module _ (u : Unicode) (sha256 : Bytes → Bytes) (host : Host) where
  read_quote-Quoted :
      (nonce : Text) (run : QuoteRun) {m s : Text}
      → HoldBytes host
      → host.tpm2_quote nonce ≡ finished run
      → read_quote run ≡ ok (m, s)
      → Quoted host nonce m s
  unfolding read_quote
  read_quote-Quoted nonce run hold ran h = elim (Bool-cases (is_zero run.returncode)) [
    | inr e ↦ absurd (cc (rw e at h))
    | inl e ↦
        let (message, signature, mf, sf, me, se) = encode_quote-ok _ _ (rw e at h) in
        record {
          run = run;
          message = message;
          signature = signature;
          ran = ran;
          succeeded = e;
          message_file = mf;
          signature_file = sf;
          message_sent =
              ap b64decode me ∙ b64decode-b64encode message (hold nonce run message ran (inl mf));
          signature_sent =
              ap b64decode se
              ∙ b64decode-b64encode signature (hold nonce run signature ran (inr sf));
        }
  ]

  run_tpm_quote-Quoted :
      (nonce : Text) {m s : Text}
      → HoldBytes host
      → run_tpm_quote host nonce ≡ ok (m, s)
      → Quoted host nonce m s
  unfolding run_tpm_quote
  run_tpm_quote-Quoted nonce hold h =
      let (made, h1, e1) = returned _ (make_tempdir host.quote_tempdir) h in
      let (passed, h2, e2) = returned _ (check_argument nonce) h1 in
      let (run, h3, e3) = returned _ (completed (host.tpm2_quote nonce)) h2 in
      read_quote-Quoted nonce run hold (completed-ok _ e3) h3

  -- What a report that is returned shows: a nonce of 64 characters, a bank of PCRs, the summary and
  -- the tree of what the log held, and the quote of the TPM for this nonce.
  pub record IsReport (nonce : Text) (r : Report) : Type 0 where
    pub summary : Summary
    pub entries : List Entry
    pub tree : Tree
    pub nonce_length : length nonce ≡ 64
    pub nonce_kept : r.nonce ≡ nonce
    pub pcrs_read : read_pcrs u host.pcrread ≡ ok r.pcrs
    pub summary_read : read_ima_summary host.summary_log ≡ ok r.ima_summary
    pub entries_read : read_ima_log 0 host.entries_log ≡ ok entries
    pub tree_built : build_ima_merkle_tree sha256 entries ≡ ok tree
    pub root : r.ima_merkle_root ≡ tree.root
    pub depth : r.ima_merkle_depth ≡ tree.depth
    pub leaf_count : r.ima_leaf_count ≡ tree.leaf_count
    pub available : r.quote_available ≡ true
    pub quoted : Quoted host nonce r.quote_msg_b64 r.quote_sig_b64

  assemble-Raises :
      (timestamp nonce : Text)
      → Raises (IsFailure u host nonce) (assemble_report u sha256 host timestamp nonce)
  unfolding assemble_report
  assemble-Raises timestamp nonce =
      let P = IsFailure u host nonce in
      let os : NotStarted host nonce → P os_error = λ p. inr (inr (refl, p)) in
      let text : Unreadable u host nonce → P value_error = λ p. inr (inl (refl, p)) in
      Raises-bind P _ _
        (pcrs-Raises P u host.pcrread (inl refl, λ q. os (no_pcrread q), λ q. text (pcrread_text q))
          (λ q. text (pcr_index q)))
        (λ pcrs.
          Raises-bind P _ _
            (summary-Raises P host.summary_log
              (inl refl, λ q. os (no_summary_log q), λ q. text (summary_log_text q)))
            (λ summary.
              Raises-bind P _ _
                (log-Raises P 0 host.entries_log
                  (inl refl, λ q. os (no_entries_log q), λ q. text (entries_log_text q)))
                (λ entries. Raises-bind P _ _ (tree-Raises P sha256 entries) (λ tree.
                  Raises-bind P _ _
                    (quote-Raises P host nonce (λ q. os (no_quote_tempdir q))
                      (λ q. text (nonce_argument q))
                      (inl refl, λ q. os (no_tpm2_quote q), λ q. text (tpm2_quote_text q)))
                    (λ quote.
                      Raises-bind P _ _ (ek_cert-Raises P host (λ q. os (no_ek_tempdir q)))
                        (λ ek. Raises-ok P _ refl))))))

  assemble_report-IsReport :
      (timestamp nonce : Text) {r : Report}
      → HoldBytes host
      → length nonce ≡ 64
      → assemble_report u sha256 host timestamp nonce ≡ ok r
      → IsReport nonce r
  unfolding assemble_report
  assemble_report-IsReport timestamp nonce hold n h =
      let (pcrs, h1, e1) = returned _ _ h in
      let (summary, h2, e2) = returned _ _ h1 in
      let (entries, h3, e3) = returned _ _ h2 in
      let (tree, h4, e4) = returned _ _ h3 in
      let (quote, h5, e5) = returned _ _ h4 in
      let (ek, h6, e6) = returned _ (read_ek_cert host) h5 in
      subst (IsReport nonce) (ok-injective h6) (record {
        summary = summary;
        entries = entries;
        tree = tree;
        nonce_length = n;
        nonce_kept = refl;
        pcrs_read = e1;
        summary_read = e2;
        entries_read = e3;
        tree_built = e4;
        root = refl;
        depth = refl;
        leaf_count = refl;
        available = refl;
        quoted = run_tpm_quote-Quoted nonce hold e5;
      })

  -- If `generate_report` returns a report, the nonce has 64 characters and the report holds it, the
  -- PCRs, the summary and the tree are those of what tpm2_pcrread and the two reads of the log gave,
  -- tpm2_quote succeeded for this very nonce, and the two fields of the quote decode to its files.
  pub generate_report-IsReport :
      (timestamp nonce : Text) {r : Report}
      → HoldBytes host
      → generate_report u sha256 host timestamp nonce ≡ ok r
      → IsReport nonce r
  unfolding generate_report
  generate_report-IsReport timestamp nonce hold h = elim (Bool-cases (length nonce == 64)) [
    | inl e ↦
        assemble_report-IsReport timestamp nonce hold ((==_iff (length nonce) 64).0 e) (rw e at h)
    | inr e ↦ absurd (cc (rw e at h))
  ]

  -- If `generate_report` raises, the exception is a ValueError for a nonce that has not 64 characters;
  -- or the nonce has 64 characters, and it is a RuntimeError; or a ValueError, and the nonce cannot be
  -- passed to tpm2_quote, or one of the programs printed what is no text, or tpm2_pcrread printed a
  -- PCR index that is too long for `int`; or an OSError, and one of the programs did not start, or a
  -- temporary directory was not made.
  pub generate_report-raises :
      (timestamp nonce : Text) {e : Exception}
      → generate_report u sha256 host timestamp nonce ≡ raise e
      → ((e ≡ value_error) × (length nonce ≢ 64))
        ⊎ ((length nonce ≡ 64)
            × ((e ≡ runtime_error)
                ⊎ ((e ≡ value_error) × Unreadable u host nonce)
                ⊎ ((e ≡ os_error) × NotStarted host nonce)))
  unfolding generate_report
  generate_report-raises timestamp nonce {e} h = elim (Bool-cases (length nonce == 64)) [
    | inl q ↦ inr ((==_iff (length nonce) 64).0 q, assemble-Raises timestamp nonce e (rw q at h))
    | inr q ↦ let h' = rw q at h in inl ((cc), λ n. absurd (cc ((==_iff (length nonce) 64).1 n, q)))
  ]
