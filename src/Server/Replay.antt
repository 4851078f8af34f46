-- ===== src/Server/Replay.antt =====
-- Single use and freshness of the nonces over any sequence of requests to server/main.py.
use tpm_attest.Prelude.{
  ◌≡◌, ◌≢◌, refl, Option, none, some, List, [], ◌∷◌, arith, Text, text_eq_iff, All,
}
use tpm_attest.Python.Unicode.{Unicode}
use tpm_attest.Server.Database.{
  Time, Db, issue_nonce, purge_nonces, select_nonce, delete_nonce, register_machine, pin_baseline,
}
use tpm_attest.Server.Policy.{
  Config, Tools, AttestationReport, RegisterRequest, Reason, nonce_not_recognised,
}
use tpm_attest.Server.Checks.{consume_nonce, verify_report}
use tpm_attest.Server.Handlers.{Clock, denied, challenge, register, attest, enroll_end, enroll}
use tpm_attest.Server.Run.{
  Request, get_challenge, post_register, post_attest, post_enroll, serve, run,
}
use tpm_attest.Server.Nonces.{select_nonce-keep_if, consume_nonce-consumes, consume_nonce-of_absent}

-- the request does not issue this nonce
abbrev pub NotIssued : Text → Request → Type 0
NotIssued n (get_challenge now token) = token ≢ n
NotIssued n (post_register now req) = Unit
NotIssued n (post_attest clock token report) = Unit
NotIssued n (post_enroll clock report) = Unit

-- the nonce that the request brings
abbrev pub Brings : Text → Request → Type 0
Brings n (get_challenge now token) = ⊥
Brings n (post_register now req) = ⊥
Brings n (post_attest clock token report) = report.nonce ≡ n
Brings n (post_enroll clock report) = report.nonce ≡ n

abbrev IsAbsent : Text → Db → Type 0
IsAbsent n db = select_nonce n db.active_nonces ≡ none

module _ (cfg : Config) (u : Unicode) (tools : Tools) where
  pub nonces-enroll_end :
      (now : Time) (root : Option Text) (report : AttestationReport) (fail : Option Reason)
      (db : Db)
      → (enroll_end u now root report fail db).1.active_nonces ≡ db.active_nonces
  unfolding enroll_end pin_baseline
  nonces-enroll_end now root report none db = refl
  nonces-enroll_end now none report (some r) db = refl
  nonces-enroll_end now (some []) report (some r) db = refl
  nonces-enroll_end now (some (c ∷ root)) report (some r) db = refl

  pub nonces-enroll :
      (clock : Clock) (report : AttestationReport) (db : Db)
      → (enroll cfg u tools clock report db).1.active_nonces
        ≡ (consume_nonce clock.checked report.nonce db).1.active_nonces
  unfolding enroll verify_report
  nonces-enroll clock report db = nonces-enroll_end clock.finished _ report _ _

  pub nonces-attest :
      (clock : Clock) (token : Text) (report : AttestationReport) (db : Db)
      → (attest cfg u tools clock token report db).1.active_nonces
        ≡ (consume_nonce clock.checked report.nonce db).1.active_nonces
  unfolding attest verify_report
  nonces-attest clock token report db = refl

  pub nonces-register :
      (now : Time) (req : RegisterRequest) (db : Db)
      → (register cfg tools now req db).1.active_nonces ≡ db.active_nonces
  unfolding register register_machine
  nonces-register now req db = ground arith

  consume-keeps_IsAbsent :
      (now : Time) (m n : Text) (db : Db) → IsAbsent n db → IsAbsent n (consume_nonce now m db).1
  unfolding consume_nonce purge_nonces delete_nonce
  consume-keeps_IsAbsent now m n db h =
      select_nonce-keep_if _ n _ (select_nonce-keep_if _ n db.active_nonces h)

  challenge-keeps_IsAbsent :
      (now : Time) (token n : Text) (db : Db)
      → token ≢ n
      → IsAbsent n db
      → IsAbsent n (challenge now token db).1
  unfolding challenge issue_nonce select_nonce
  challenge-keeps_IsAbsent now token n db ne h = ground (arith, text_eq_iff token n)

  -- No request brings a nonce back, but the challenge that issues it.
  serve-keeps_IsAbsent :
      (n : Text) (r : Request) (db : Db)
      → NotIssued n r
      → IsAbsent n db
      → IsAbsent n (serve cfg u tools r db).1
  unfolding serve
  serve-keeps_IsAbsent n (get_challenge now token) db ne h =
      challenge-keeps_IsAbsent now token n db ne h
  serve-keeps_IsAbsent n (post_register now req) db ne h = rw (nonces-register now req db) h
  serve-keeps_IsAbsent n (post_attest clock token report) db ne h =
      rw (nonces-attest clock token report db)
        (consume-keeps_IsAbsent clock.checked report.nonce n db h)
  serve-keeps_IsAbsent n (post_enroll clock report) db ne h =
      rw (nonces-enroll clock report db) (consume-keeps_IsAbsent clock.checked report.nonce n db h)

  run-keeps_IsAbsent :
      (n : Text) (requests : List Request) (db : Db)
      → All (NotIssued n) requests
      → IsAbsent n db
      → IsAbsent n (run cfg u tools requests db)
  unfolding run
  run-keeps_IsAbsent n [] db ne h = h
  run-keeps_IsAbsent n (r ∷ requests) db ne h =
      run-keeps_IsAbsent n requests (serve cfg u tools r db).1 ne.1
        (serve-keeps_IsAbsent n r db ne.0 h)

  -- A request to /attest or /enroll takes its nonce out, whatever it answers.
  serve-consumes :
      (n : Text) (r : Request) (db : Db) → Brings n r → IsAbsent n (serve cfg u tools r db).1
  unfolding serve
  serve-consumes n (get_challenge now token) db b = absurd b
  serve-consumes n (post_register now req) db b = absurd b
  serve-consumes n (post_attest clock token report) db b =
      rw (nonces-attest clock token report db, ← b)
        (consume_nonce-consumes clock.checked report.nonce db)
  serve-consumes n (post_enroll clock report) db b =
      rw (nonces-enroll clock report db, ← b) (consume_nonce-consumes clock.checked report.nonce db)

  attest-of_absent :
      (clock : Clock) (token : Text) (report : AttestationReport) (db : Db)
      → IsAbsent report.nonce db
      → (attest cfg u tools clock token report db).0 ≡ denied nonce_not_recognised
  unfolding attest verify_report
  attest-of_absent clock token report db h =
      rw (consume_nonce-of_absent clock.checked report.nonce db h)

  -- A nonce that /attest or /enroll has seen once is refused by every later /attest, whatever
  -- requests come in between, as long as no challenge draws the same nonce again.
  pub attest-replay :
      (first : Request) (requests : List Request) (db : Db) (clock : Clock) (token : Text)
      (report : AttestationReport)
      → Brings report.nonce first
      → All (NotIssued report.nonce) requests
      → (attest cfg u tools clock token report
          (run cfg u tools requests (serve cfg u tools first db).1)).0
        ≡ denied nonce_not_recognised
  attest-replay first requests db clock token report brings ne =
      attest-of_absent clock token report _ (
        run-keeps_IsAbsent report.nonce requests _ ne (serve-consumes report.nonce first db brings))
