-- ===== src/Shim/Safety.antt =====
-- When the shim tells a game client that it is attested (phase3/shim.py).
use tpm_attest.Prelude.{
  ℕ, ok-injective, subst, List, ◌≡◌, ◌≢◌, refl, ap, ◌∙◌, inl, inr, if◌then◌else◌, Option, none,
  some, ◌==◌, ==_iff, Bool-cases, codes, length, Text, Bytes, Result, ok, raise, runtime_error,
  is_runtime_error,
}
use tpm_attest.Python.Json.{Json, null, boolean, number, string, array, object, get, truthy, len}
use tpm_attest.Python.Unicode.{Unicode}
use tpm_attest.Python.Process.{Ran, make_tempdir}
use tpm_attest.Agent.Log.{Completed, Summary}
use tpm_attest.Agent.Pcr.{Pcrs}
use tpm_attest.Agent.Tree.{Tree}
use tpm_attest.Agent.Report.{Host, run_tpm_quote}
use tpm_attest.Agent.Report.Closed.{returned}
use tpm_attest.Shim.{
  LeafCache, ShimReport, argument, refuse_nonce, flush_if_reset, finish_report, store_tree,
  read_before, extend_report, collect_report_incremental,
}
use tpm_attest.Shim.Requests.{
  Reply, answered, http_error, unreachable, loads, broken, read_json, check_slice, check_nonce,
  get_challenge,
}
use tpm_attest.Shim.Client.{
  Connection, valid, closed, read_handshake, with_nonce, with_handshake, with_received,
  handle_client,
}
use tpm_attest.Shim.Payloads.{IsValid, refuse-not_valid, Confirmed, with_report-valid}

refuse_nonce-not_ok : (host : Host) {t : Text} → refuse_nonce host ≢ ok t
unfolding refuse_nonce
refuse_nonce-not_ok host h =
    let (made, raised, e) = returned _ (make_tempdir host.quote_tempdir) h in absurd (cc)

check_slice-ok : (value nonce : Json) → check_slice value ≡ ok nonce → value ≡ nonce
unfolding check_slice
check_slice-ok (string t) nonce h = ok-injective h
check_slice-ok (array items) nonce h = ok-injective h
check_slice-ok null nonce h = absurd (cc)
check_slice-ok (boolean b) nonce h = absurd (cc)
check_slice-ok (number l z) nonce h = absurd (cc)
check_slice-ok (object fields) nonce h = absurd (cc)

-- the test of the length
abbrev sized : Json → ℕ → Result Json
sized value n = if n == 64 then check_slice value else raise runtime_error

sized-ok :
    (value nonce : Json) (n : ℕ)
    → sized value n ≡ ok nonce
    → len value ≡ ok n
    → (value ≡ nonce) × (len nonce ≡ ok 64)
sized-ok value nonce n h counted = elim (Bool-cases (n == 64)) [
  | inr e ↦ absurd (cc (rw e at h))
  | inl e ↦
      let same = check_slice-ok value nonce (rw e at h) in
      let full = (==_iff n 64).0 e in (same, cc)
]

check_nonce-ok :
    (value nonce : Json) → check_nonce value ≡ ok nonce → (value ≡ nonce) × (len nonce ≡ ok 64)
unfolding check_nonce
check_nonce-ok value nonce h = elim (Bool-cases (truthy value)) [
  | inr e ↦ absurd (cc (rw e at h))
  | inl e ↦
      let (n, h1, counted) = returned (sized value) (len value) (rw e at h) in
      sized-ok value nonce n h1 counted
]

-- A nonce that is taken came as the value of the key in a dict, and has a length of 64.
get_challenge-ok :
    (reply : Reply) (nonce : Json)
    → get_challenge reply ≡ ok nonce
    → (data' : Json) × (reply ≡ answered (loads (ok data')))
      × (get (codes "nonce") null data' ≡ ok nonce)
      × (len nonce ≡ ok 64)
unfolding get_challenge read_json
get_challenge-ok (answered (loads (ok data'))) nonce h =
    let (value, h1, got) = returned check_nonce (get (codes "nonce") null data') h in
    let (same, counted) = check_nonce-ok value nonce h1 in (data', refl, got ∙ ap ok same, counted)
get_challenge-ok (answered (loads (raise e))) nonce h = absurd (cc)
get_challenge-ok (answered (broken e)) nonce h = absurd (cc)
get_challenge-ok (http_error body) nonce h = absurd (cc)
get_challenge-ok unreachable nonce h = absurd (cc)

module _ (u : Unicode) (sha256 : Bytes → Bytes) (machine_id : Text) where
  -- a report is for the nonce of the call, and holds a quote of the machine for it
  record IsFor (host : Host) (nonce : Json) (report : ShimReport) : Type 0 where
    pub nonce_text : nonce ≡ string report.nonce
    pub machine : report.machine_id ≡ machine_id
    pub quoted : run_tpm_quote host report.nonce ≡ ok (report.quote_msg_b64, report.quote_sig_b64)

  finish_report-IsFor :
      (host : Host) (timestamp : Text) (nonce : Json) (p : Pcrs) (s : Summary) (tree : Tree)
      {report : ShimReport}
      → finish_report machine_id host timestamp nonce p s tree ≡ ok report
      → IsFor host nonce report
  unfolding finish_report argument
  finish_report-IsFor host timestamp (string t) p s tree {report} h =
      let (quote, h1, quoted) = returned _ (run_tpm_quote host t) h in
      let same = ok-injective h1 in
      subst (IsFor host (string t)) same
        (record { nonce_text = refl; machine = refl; quoted = quoted })
  finish_report-IsFor host timestamp null p s tree h =
      let (text, h0, e0) = returned _ (argument host null) h in absurd (refuse_nonce-not_ok host e0)
  finish_report-IsFor host timestamp (boolean b) p s tree h =
      let (text, h0, e0) = returned _ (argument host (boolean b)) h in
      absurd (refuse_nonce-not_ok host e0)
  finish_report-IsFor host timestamp (number l z) p s tree h =
      let (text, h0, e0) = returned _ (argument host (number l z)) h in
      absurd (refuse_nonce-not_ok host e0)
  finish_report-IsFor host timestamp (array items) p s tree h =
      let (text, h0, e0) = returned _ (argument host (array items)) h in
      absurd (refuse_nonce-not_ok host e0)
  finish_report-IsFor host timestamp (object fields) p s tree h =
      let (text, h0, e0) = returned _ (argument host (object fields)) h in
      absurd (refuse_nonce-not_ok host e0)

  store_tree-IsFor :
      (host : Host) (timestamp : Text) (nonce : Json) (p : Pcrs) (s : Summary) (cache : LeafCache)
      (built : Result (List Bytes × Tree)) {report : ShimReport}
      → (store_tree machine_id host timestamp nonce p s cache built).0 ≡ ok report
      → IsFor host nonce report
  unfolding store_tree
  store_tree-IsFor host timestamp nonce p s cache (raise e) h = absurd (cc)
  store_tree-IsFor host timestamp nonce p s cache (ok (leaves, tree)) h =
      finish_report-IsFor host timestamp nonce p s tree h

  extend_report-IsFor :
      (host : Host) (timestamp : Text) (nonce : Json) (cache : LeafCache)
      (before : Result (Pcrs × Summary × ℕ)) {report : ShimReport}
      → (extend_report u sha256 machine_id host timestamp nonce cache before).0 ≡ ok report
      → IsFor host nonce report
  unfolding extend_report
  extend_report-IsFor host timestamp nonce cache (raise e) h = absurd (cc)
  extend_report-IsFor host timestamp nonce cache (ok (p, s, n)) h =
      store_tree-IsFor host timestamp nonce p s (flush_if_reset n cache) _ h

  collect-IsFor :
      (host : Host) (count_log : Ran Completed) (timestamp : Text) (nonce : Json)
      (cache : LeafCache) {report : ShimReport}
      → (collect_report_incremental u sha256 machine_id host count_log timestamp nonce cache).0
        ≡ ok report
      → IsFor host nonce report
  unfolding collect_report_incremental
  collect-IsFor host count_log timestamp nonce cache h =
      extend_report-IsFor host timestamp nonce cache (read_before u host count_log) h

  -- what stands behind a token for the client: the challenge, the report for it, and the answer
  pub record Attested (conn : Connection) (cache : LeafCache) (token : Json) : Type 0 where
    pub report : ShimReport
    pub handshake : Json
    pub data' : Json
    pub challenge : conn.challenge_reply ≡ answered (loads (ok data'))
    pub nonce : get (codes "nonce") null data' ≡ ok (string report.nonce)
    pub nonce_size : length report.nonce ≡ 64
    pub collected :
        (collect_report_incremental u sha256 machine_id conn.host conn.count_log conn.timestamp
          (string report.nonce)
          cache).0
        ≡ ok report
    pub machine : report.machine_id ≡ machine_id
    pub quoted :
        run_tpm_quote conn.host report.nonce ≡ ok (report.quote_msg_b64, report.quote_sig_b64)
    pub confirmed : Confirmed (conn.attest_reply report handshake) token

  assemble :
      (conn : Connection) (handshake : Json) (cache : LeafCache) (token nonce data' : Json)
      (report : ShimReport)
      → conn.challenge_reply ≡ answered (loads (ok data'))
      → get (codes "nonce") null data' ≡ ok nonce
      → len nonce ≡ ok 64
      → (collect_report_incremental u sha256 machine_id conn.host conn.count_log conn.timestamp
          nonce cache).0
        ≡ ok report
      → IsFor conn.host nonce report
      → Confirmed (conn.attest_reply report handshake) token
      → Attested conn cache token
  unfolding len
  assemble conn handshake cache token nonce data' report reply got counted collected f confirmed =
      record {
        report = report;
        handshake = handshake;
        data' = data';
        challenge = reply;
        nonce = got ∙ ap ok f.nonce_text;
        nonce_size = ok-injective (subst (λ (j : Json). len j ≡ ok 64) f.nonce_text counted);
        collected = rw f.nonce_text at collected;
        machine = f.machine;
        quoted = f.quoted;
        confirmed = confirmed;
      }

  with_nonce-Attested :
      (conn : Connection) (handshake : Json) (cache : LeafCache) (token : Json)
      (challenge : Result Json)
      → get_challenge conn.challenge_reply ≡ challenge
      → IsValid token (with_nonce u sha256 machine_id conn handshake cache challenge).0
      → Attested conn cache token
  unfolding with_nonce
  with_nonce-Attested conn handshake cache token (raise e) c h =
      absurd (refuse-not_valid is_runtime_error conn "challenge fetch failed" e token h)
  with_nonce-Attested conn handshake cache token (ok nonce) c h =
      let (report, collected, confirmed) = with_report-valid conn handshake token _ h in
      let (data', reply, got, counted) = get_challenge-ok conn.challenge_reply nonce c in
      let for_nonce = collect-IsFor conn.host conn.count_log conn.timestamp nonce cache collected in
      assemble conn handshake cache token nonce data' report reply got counted collected for_nonce
        confirmed

  with_handshake-Attested :
      (conn : Connection) (cache : LeafCache) (token : Json) (handshake : Result Json)
      → IsValid token (with_handshake u sha256 machine_id conn cache handshake).0
      → Attested conn cache token
  unfolding with_handshake
  with_handshake-Attested conn cache token (raise e) h = absurd (cc)
  with_handshake-Attested conn cache token (ok handshake) h =
      with_nonce-Attested conn handshake cache token (get_challenge conn.challenge_reply) refl h

  received-Attested :
      (conn : Connection) (cache : LeafCache) (token : Json) (received : Option (Result Json))
      → IsValid token (with_received u sha256 machine_id conn cache received).0
      → Attested conn cache token
  unfolding with_received
  received-Attested conn cache token none h = absurd (cc)
  received-Attested conn cache token (some loaded) h =
      with_handshake-Attested conn cache token (read_handshake loaded) h

  -- A client that is told `valid: true` has a token for which the server gave a challenge of 64
  -- characters, the machine made a report for that challenge with a quote by its TPM, and the server
  -- answered that very report with `valid` being true and with this token.
  pub handle_client-Attested :
      (conn : Connection) (cache : LeafCache) {token : Json}
      → (handle_client u sha256 machine_id conn cache).0 ≡ closed (some (valid token))
      → Attested conn cache token
  unfolding handle_client
  handle_client-Attested conn cache {token} h = received-Attested conn cache token conn.received h
