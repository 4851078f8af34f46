-- ===== src/System/Accepted.antt =====
-- What stands behind a client that is told that it is attested, and behind a game that runs, down to
-- the checks of the server (demo_game/, phase3/shim.py, server/main.py).
use tpm_attest.Prelude.{
  ◌≡◌, refl, sym, ap, ◌∙◌, subst, true, false, Option, none, some, Text, Bytes, codes, text_eq, ok,
  raise, Result, [], ◌>>=◌, runtime_error, is_json_decode_error, ok-injective,
}
use tpm_attest.Python.Json.{Json, null, boolean, string, get, get_field}
use tpm_attest.Python.Unicode.{Unicode}
use tpm_attest.Agent.Report.{run_tpm_quote}
use tpm_attest.Server.Database.{Time, Db}
use tpm_attest.Server.Policy.{Config, Tools, Reason}
use tpm_attest.Server.Handlers.{
  Clock, Response, challenged, registered, not_registered, granted, denied, enrolled, not_enrolled,
  internal_error, attest_response, attest,
}
use tpm_attest.Server.Acceptance.{IsFresh, IsAcceptable}
use tpm_attest.Server.Acceptance.Verdict.{attest-verdict, attest_sound}
use tpm_attest.Shim.{LeafCache, ShimReport}
use tpm_attest.Shim.Requests.{Reply, read_json, parse_response, post_report}
use tpm_attest.Shim.Client.{Connection, handle_client}
use tpm_attest.Shim.Payloads.{Confirmed}
use tpm_attest.Shim.Safety.{Attested}
use tpm_attest.Demo.Bridge.{Query}
use tpm_attest.Demo.Gate.{playing, State, Reach}
use tpm_attest.Demo.Launch.{Arrives, launch-Attested}
use tpm_attest.System.{Printed, received_report, refusal, reply_of, connect}

-- the value of a key in what `_post_report` returns
abbrev asked : Text → Json → Reply → Result Json
asked key default reply = do result ← post_report reply; get key default result

Confirmed-valid :
    (reply : Reply) {token : Json}
    → Confirmed reply token
    → asked (codes "valid") null reply ≡ ok (boolean true)
Confirmed-valid reply c = rw c.response c.flag

Confirmed-token :
    (reply : Reply) {token : Json}
    → Confirmed reply token
    → asked (codes "token") (string []) reply ≡ ok token
Confirmed-token reply c = rw c.response c.token_sent

null-clash {ℓ} : {A : Type ℓ} → ok null ≡ ok (boolean true) → A
null-clash e = absurd (cc)

false-clash {ℓ} : {A : Type ℓ} → ok (boolean false) ≡ ok (boolean true) → A
false-clash e = absurd (cc)

raise-clash {ℓ} : {A : Type ℓ} → raise runtime_error ≡ ok (boolean true) → A
raise-clash e = absurd (cc)

module _ (printed : Printed) where
  -- Of all the answers of the server, only one with a token confirms, and it confirms that token.
  reply_of-granted :
      (response : Response) {token : Json}
      → Confirmed (reply_of printed response) token
      → (t : Text) × (expires_at : Time) × (response ≡ granted t expires_at) × (token ≡ string t)
  unfolding reply_of refusal post_report read_json parse_response get get_field text_eq
      is_json_decode_error
  reply_of-granted (granted t expires_at) c =
      (t, expires_at, refl, sym (ok-injective (Confirmed-token _ c)))
  reply_of-granted (challenged nonce) c = null-clash (Confirmed-valid _ c)
  reply_of-granted (registered id' verified info) c = null-clash (Confirmed-valid _ c)
  reply_of-granted (not_registered info) c = null-clash (Confirmed-valid _ c)
  reply_of-granted (denied reason) c = false-clash (Confirmed-valid _ c)
  reply_of-granted (enrolled root) c = null-clash (Confirmed-valid _ c)
  reply_of-granted (not_enrolled reason) c = null-clash (Confirmed-valid _ c)
  reply_of-granted internal_error c = raise-clash (Confirmed-valid _ c)

response-token :
    (now : Time) (token : Text) (fail : Option Reason) {t : Text} {e : Time}
    → attest_response now token fail ≡ granted t e
    → t ≡ token
unfolding attest_response
response-token now token none h = cc
response-token now token (some r) h = absurd (cc)

module _ (printed : Printed) (cfg : Config) (tools : Tools) (clock : Clock) (t : Text) (db : Db)
    (u : Unicode) (sha256 : Bytes → Bytes) (machine_id : Text) where
  -- The server issued the nonce of a report, the report passes all its checks, and it is the one that
  -- the machine quoted with its TPM.
  pub record IsAccepted (conn : Connection) (token : Json) : Type 0 where
    pub report : ShimReport
    pub fresh : IsFresh clock.checked (received_report report) db
    pub acceptable : IsAcceptable cfg u tools (received_report report) db
    pub machine : report.machine_id ≡ machine_id
    pub quoted :
        run_tpm_quote conn.host report.nonce ≡ ok (report.quote_msg_b64, report.quote_sig_b64)
    pub token_issued : token ≡ string t

  Attested-IsAccepted :
      (conn : Connection) (cache : LeafCache) {token : Json}
      → Attested u sha256 machine_id (connect printed cfg u tools clock t db conn) cache token
      → IsAccepted conn token
  unfolding connect
  Attested-IsAccepted conn cache a =
      let report = received_report a.report in
      let (t', expires_at, answered, same) =
        reply_of-granted printed (attest cfg u tools clock t report db).0 a.confirmed in
      let (fresh, acceptable) = attest_sound cfg u tools clock t report db answered in
      let verdict = attest-verdict cfg u tools clock t report db in
      record {
        report = a.report;
        fresh = fresh;
        acceptable = acceptable;
        machine = a.machine;
        quoted = a.quoted;
        token_issued =
            same ∙ ap string (response-token clock.finished t _ (sym verdict ∙ answered));
      }

  -- A game that runs on the machine of a shim that is connected to the server: whatever the order
  -- of the threads is and whatever failed on the machine before, the server had issued the nonce of
  -- the report and it had not expired, the report passes every check of the server on its tables,
  -- and the TPM of the machine quoted it for that nonce. The game holds the token of the server.
  pub launch-IsAccepted :
      (conn : Connection) (cache : LeafCache) {query : Query} {s : State}
      → Arrives
          (handle_client u sha256 machine_id (connect printed cfg u tools clock t db conn) cache).0
          query
      → Reach query s
      → s.phase ≡ playing
      → (s.result.token ≡ some (string t)) × IsAccepted conn (string t)
  launch-IsAccepted conn cache arrives r p =
      let (token, held, attested) =
        launch-Attested u sha256 machine_id (connect printed cfg u tools clock t db conn) cache
          arrives r p in
      let accepted = Attested-IsAccepted conn cache attested in
      (
        held ∙ ap (λ (j : Json). some j) accepted.token_issued,
        subst (IsAccepted conn) accepted.token_issued accepted,
      )
