-- ===== src/Shim/Unstarted.antt =====
-- The daemon on a machine whose tools are not installed (phase3/shim.py).
use tpm_attest.Prelude.{
  ◌≡◌, refl, List, ◌∷◌, [], ◌++◌, some, All, Text, Bytes, Result, ok, raise, os_error,
  is_runtime_error, is_value_error, is_json_decode_error,
}
use tpm_attest.Python.Json.{Json, object, end, get}
use tpm_attest.Python.Process.{not_started, completed}
use tpm_attest.Python.Unicode.{Unicode}
use tpm_attest.Agent.Log.{
  Summary, read_raw_lines, read_ima_log, read_ima_summary, read_ima_log_line_count,
}
use tpm_attest.Agent.Pcr.{Pcrs, read_pcrs}
use tpm_attest.Shim.{LeafCache, read_before, extend_report, collect_report_incremental}
use tpm_attest.Shim.Requests.{get_challenge}
use tpm_attest.Shim.Client.{
  Connection, uncaught, is_report_error, refuse, read_handshake, with_report, with_nonce,
  with_handshake, with_received, handle_client, serve_loop,
}
use tpm_attest.Shim.Answers.{IsDictOrNoJson, is_dict, no_json}
use tpm_attest.Shim.Daemon.{IsClosed, serve_loop-IsStop}

-- The first of the reads of a report that fails is one whose program cannot be started.
pub data IsUnstarted (u : Unicode) (conn : Connection) : Type 0 where
  no_pcrread : conn.host.pcrread ≡ not_started → IsUnstarted u conn
  no_summary :
      (pcrs : Pcrs)
      → read_pcrs u conn.host.pcrread ≡ ok pcrs
      → conn.host.summary_log ≡ not_started
      → IsUnstarted u conn
  no_count :
      (pcrs : Pcrs) (ima_summary : Summary)
      → read_pcrs u conn.host.pcrread ≡ ok pcrs
      → read_ima_summary conn.host.summary_log ≡ ok ima_summary
      → conn.count_log ≡ not_started
      → IsUnstarted u conn

before-IsUnstarted :
    (u : Unicode) (conn : Connection)
    → IsUnstarted u conn
    → read_before u conn.host conn.count_log ≡ raise os_error
unfolding read_before read_pcrs completed read_ima_summary read_ima_log read_ima_log_line_count
    read_raw_lines
before-IsUnstarted u conn (no_pcrread e) = rw e refl
before-IsUnstarted u conn (no_summary pcrs read e) = rw read (rw e refl)
before-IsUnstarted u conn (no_count pcrs summary read summed e) = rw read (rw summed (rw e refl))

module _ (u : Unicode) (sha256 : Bytes → Bytes) (machine_id : Text) where
  nonce-IsUnstarted :
      (conn : Connection) (handshake : Json) (cache : LeafCache) (nonce : Json)
      → IsUnstarted u conn
      → with_nonce u sha256 machine_id conn handshake cache (ok nonce) ≡ (uncaught os_error, cache)
  unfolding with_nonce with_report collect_report_incremental extend_report refuse is_report_error
      is_runtime_error is_value_error
  nonce-IsUnstarted conn handshake cache nonce h = rw (before-IsUnstarted u conn h) refl

  handshake-IsUnstarted :
      (conn : Connection) (cache : LeafCache) {loaded : Result Json} {nonce : Json}
      → IsDictOrNoJson loaded
      → get_challenge conn.challenge_reply ≡ ok nonce
      → IsUnstarted u conn
      → with_received u sha256 machine_id conn cache (some loaded) ≡ (uncaught os_error, cache)
  unfolding with_received with_handshake read_handshake get is_json_decode_error
  handshake-IsUnstarted conn cache {nonce = nonce} (is_dict fields) c h =
      rw c (nonce-IsUnstarted conn (object fields) cache nonce h)
  handshake-IsUnstarted conn cache {nonce = nonce} no_json c h =
      rw c (nonce-IsUnstarted conn (object end) cache nonce h)

  -- If the connections before it were all closed, and a client whose handshake is a dict or no JSON
  -- gets as far as a nonce on a machine on which the first read of the report that fails is one
  -- whose program cannot be started (tpm2_pcrread, or one of the two next runs of sudo), the OSError
  -- ends the daemon: the client gets nothing, no connection behind it is served, and the answers and
  -- the cache are those of the connections before it.
  pub serve_loop-unstarted :
      (before : List Connection) (conn : Connection) (after : List Connection) (cache : LeafCache)
      {loaded : Result Json} {nonce : Json}
      → All IsClosed (serve_loop u sha256 machine_id before cache).0
      → conn.received ≡ some loaded
      → IsDictOrNoJson loaded
      → get_challenge conn.challenge_reply ≡ ok nonce
      → IsUnstarted u conn
      → serve_loop u sha256 machine_id (before ++ conn ∷ after) cache ≡ (
        (serve_loop u sha256 machine_id before cache).0 ++ uncaught os_error ∷ [],
        (serve_loop u sha256 machine_id before cache).1,
      )
  unfolding handle_client
  serve_loop-unstarted before conn after cache closed_before r d c h =
      serve_loop-IsStop u sha256 machine_id os_error before conn after cache closed_before
        (λ held. rw r (handshake-IsUnstarted conn held d c h))
