-- ===== src/Server/Spending.antt =====
-- What one transaction of server/main.py does to the rows of a nonce.
use tpm_attest.Prelude.{
  ℕ, ◌+◌, ◌≤◌, ◌≡◌, refl, sym, ap, ◌∙◌, inl, inr, true, false, ◌&&◌, Bool-cases, if_both, Option,
  none, some, arith, Text, text_eq,
}
use tpm_attest.Python.Unicode.{Unicode}
use tpm_attest.Server.Database.{Time, Db, issue_nonce, has_nonce, get_active_ima_root}
use tpm_attest.Server.Policy.{Config, Tools, AttestationReport, Reason}
use tpm_attest.Server.Checks.{consume_nonce, check_report}
use tpm_attest.Server.Handlers.{
  Response, Clock, challenge, register, attest_response, enroll_begin, enroll_end,
}
use tpm_attest.Server.Run.{Request, get_challenge, post_register, post_attest, post_enroll}
use tpm_attest.Server.Replay.{nonces-enroll_end, nonces-register}
use tpm_attest.Server.Interleaved.{
  Stage, begun, root_read, deactivated, nonce_used, judged, answered, use_nonce, advance_attest,
  advance_enroll, advance_once, advance,
}
use tpm_attest.Server.Rows.{
  is_for, is_success, holds, issues, uses, rows, consume_nonce-rows, consume_nonce-spends,
}

uses-le_holds :
    (n : Text) (r : Request) (before after : Stage)
    → holds before ≡ true
    → uses n r after ≤ uses n r before
unfolding uses
uses-le_holds n r before after h = elim (Bool-cases (is_for n r)) [
  | inl e ↦
      rw (e, h) (if_both (λ (k : ℕ). k ≤ 1) (holds after) (λ t. omega arith) (λ f. omega arith))
  | inr e ↦ rw e (omega arith)
]

uses-not_for : (n : Text) (r : Request) (stage : Stage) → is_for n r ≡ false → uses n r stage ≡ 0
unfolding uses
uses-not_for n r stage h = rw h refl

pub uses-fails : (n : Text) (r : Request) (stage : Stage) → holds stage ≡ false → uses n r stage ≡ 0
unfolding uses
uses-fails n r stage h = elim (Bool-cases (is_for n r)) [
  | inl e ↦ rw (e, h) refl
  | inr e ↦ rw e refl
]

uses-le_one : (n : Text) (r : Request) (stage : Stage) → uses n r stage ≤ 1
unfolding uses
uses-le_one n r stage =
    if_both (λ (k : ℕ). k ≤ 1) (is_for n r && holds stage) (λ t. omega arith) (λ f. omega arith)

-- a transaction spends no more rows of the nonce than there were, and those that it issues
abbrev pub IsPaid : Text → Request → Stage → Db → Stage × Db → Type 0
IsPaid n r stage db out =
    uses n r out.0 + rows n out.1.active_nonces + issues n stage
    ≤ uses n r stage + rows n db.active_nonces + issues n out.0

stays-IsPaid : (n : Text) (r : Request) (stage : Stage) (db : Db) → IsPaid n r stage db (stage, db)
stays-IsPaid n r stage db = omega arith

challenge-rows :
    (n : Text) (now : Time) (token : Text) (db : Db)
    → rows n (challenge now token db).1.active_nonces
      ≤ rows n db.active_nonces + issues n (answered (challenge now token db).0)
unfolding challenge issue_nonce issues rows
challenge-rows n now token db = elim (Bool-cases (has_nonce token db.active_nonces)) [
  | inl e ↦ rw (e, challenge, issue_nonce, issues) (omega arith)
  | inr e ↦ rw (e, challenge, issue_nonce, issues) (omega arith)
]

module _ (cfg : Config) (u : Unicode) (tools : Tools) where
  spent-IsPaid :
      (n : Text) (r : Request) (stage passes : Stage) (fails : Option Reason → Stage) (db : Db)
      (out : Option Reason × Db)
      → issues n stage ≡ 0
      → ((reason : Reason) → holds (fails (some reason)) ≡ false)
      → rows n out.1.active_nonces ≤ rows n db.active_nonces
      → (out.0 ≡ none
          → is_for n r ≡ true
          → 1 + rows n out.1.active_nonces ≤ rows n db.active_nonces)
      → IsPaid n r stage db (use_nonce fails passes out)
  unfolding use_nonce
  spent-IsPaid n r stage passes fails db (some reason, db') i h le spends =
      omega (arith, i, le, uses-fails n r (fails (some reason)) (h reason))
  spent-IsPaid n r stage passes fails db (none, db') i h le spends =
      elim (Bool-cases (is_for n r)) [
        | inl e ↦ let spent = spends refl e in omega (arith, i, spent, uses-le_one n r passes)
        | inr e ↦ omega (arith, i, le, uses-not_for n r passes e)
      ]

  -- the transaction on the nonce
  used-IsPaid :
      (n : Text) (r : Request) (stage passes : Stage) (fails : Option Reason → Stage) (m : Text)
      (now : Time) (db : Db)
      → is_for n r ≡ text_eq m n
      → issues n stage ≡ 0
      → ((reason : Reason) → holds (fails (some reason)) ≡ false)
      → IsPaid n r stage db (use_nonce fails passes (consume_nonce now m db))
  used-IsPaid n r stage passes fails m now db f i h =
      spent-IsPaid n r stage passes fails db (consume_nonce now m db) i h
        (consume_nonce-rows now m n db)
        (λ passed e. consume_nonce-spends now m n db passed (sym f ∙ e))

  once-IsPaid :
      (n : Text) (r : Request) (stage : Stage) (handler : Db → Response × Db) (db : Db)
      → is_for n r ≡ false
      → rows n (handler db).1.active_nonces
        ≤ rows n db.active_nonces + issues n (answered (handler db).0)
      → IsPaid n r stage db (advance_once cfg u tools handler stage db)
  unfolding advance_once issues
  once-IsPaid n r begun handler db f le =
      omega (arith, le, uses-not_for n r (answered (handler db).0) f)
  once-IsPaid n r (root_read root) handler db f le = stays-IsPaid n r (root_read root) db
  once-IsPaid n r (deactivated root) handler db f le = stays-IsPaid n r (deactivated root) db
  once-IsPaid n r (nonce_used root) handler db f le = stays-IsPaid n r (nonce_used root) db
  once-IsPaid n r (judged root reason) handler db f le = stays-IsPaid n r (judged root reason) db
  once-IsPaid n r (answered response) handler db f le = stays-IsPaid n r (answered response) db

  attest-IsPaid :
      (n : Text) (clock : Clock) (token : Text) (report : AttestationReport) (stage : Stage)
      (db : Db)
      → IsPaid n
          (post_attest clock token report)
          stage
          db
          (advance_attest cfg u tools clock token report stage db)
  unfolding advance_attest is_for issues holds is_success attest_response
  attest-IsPaid n clock token report begun db =
      used-IsPaid n (post_attest clock token report) begun (nonce_used none)
        (λ reason. answered (attest_response clock.finished token reason)) report.nonce
        clock.checked db refl refl (λ reason. refl)
  attest-IsPaid n clock token report (nonce_used root) db =
      let r = post_attest clock token report in
      let response = attest_response clock.finished token (check_report cfg u tools report db) in
      let fewer = uses-le_holds n r (nonce_used root) (answered response) refl in
      omega (arith, fewer)
  attest-IsPaid n clock token report (root_read root) db =
      stays-IsPaid n (post_attest clock token report) (root_read root) db
  attest-IsPaid n clock token report (deactivated root) db =
      stays-IsPaid n (post_attest clock token report) (deactivated root) db
  attest-IsPaid n clock token report (judged root reason) db =
      stays-IsPaid n (post_attest clock token report) (judged root reason) db
  attest-IsPaid n clock token report (answered response) db =
      stays-IsPaid n (post_attest clock token report) (answered response) db

  not_enrolled-fails :
      (clock : Clock) (root : Option Text) (report : AttestationReport) (reason : Reason) (db : Db)
      → holds (answered (enroll_end u clock.finished root report (some reason) db).0) ≡ false
  unfolding enroll_end holds is_success
  not_enrolled-fails clock root report reason db = refl

  enroll-IsPaid :
      (n : Text) (clock : Clock) (report : AttestationReport) (stage : Stage) (db : Db)
      → IsPaid n
          (post_enroll clock report)
          stage
          db
          (advance_enroll cfg u tools clock report stage db)
  unfolding advance_enroll is_for issues holds is_success enroll_begin
  enroll-IsPaid n clock report begun db =
      let r = post_enroll clock report in
      omega (arith, uses-fails n r (root_read (get_active_ima_root db)) refl)
  enroll-IsPaid n clock report (root_read root) db =
      let r = post_enroll clock report in omega (arith, uses-fails n r (deactivated root) refl)
  enroll-IsPaid n clock report (deactivated root) db =
      used-IsPaid n (post_enroll clock report) (deactivated root) (nonce_used root)
        (λ reason. judged root reason) report.nonce clock.checked db refl refl (λ reason. refl)
  enroll-IsPaid n clock report (nonce_used root) db =
      let r = post_enroll clock report in
      let verdict = check_report cfg u tools report db in
      omega (arith, uses-le_holds n r (nonce_used root) (judged root verdict) refl)
  enroll-IsPaid n clock report (judged root none) db =
      let r = post_enroll clock report in
      let out = enroll_end u clock.finished root report none db in
      omega (
        arith,
        uses-le_holds n r (judged root none) (answered out.0) refl,
        ap (rows n) (nonces-enroll_end cfg u tools clock.finished root report none db),
      )
  enroll-IsPaid n clock report (judged root (some reason)) db =
      let r = post_enroll clock report in
      let out = enroll_end u clock.finished root report (some reason) db in
      omega (
        arith,
        uses-fails n r (answered out.0) (not_enrolled-fails clock root report reason db),
        ap (rows n) (nonces-enroll_end cfg u tools clock.finished root report (some reason) db),
      )
  enroll-IsPaid n clock report (answered response) db =
      stays-IsPaid n (post_enroll clock report) (answered response) db

  -- no transaction of any handler gives a nonce away twice
  pub advance-IsPaid :
      (n : Text) (r : Request) (stage : Stage) (db : Db)
      → IsPaid n r stage db (advance cfg u tools r stage db)
  unfolding advance is_for
  advance-IsPaid n (get_challenge now token) stage db =
      once-IsPaid n (get_challenge now token) stage (challenge now token) db refl
        (challenge-rows n now token db)
  advance-IsPaid n (post_register now req) stage db =
      once-IsPaid n (post_register now req) stage (register cfg tools now req) db refl
        (let same = ap (rows n) (nonces-register cfg u tools now req db) in omega (arith, same))
  advance-IsPaid n (post_attest clock token report) stage db =
      attest-IsPaid n clock token report stage db
  advance-IsPaid n (post_enroll clock report) stage db = enroll-IsPaid n clock report stage db
