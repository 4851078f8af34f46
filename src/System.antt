-- ===== src/System.antt =====
-- The shim of a machine connected to the server: what goes over HTTP (phase3/shim.py,
-- server/main.py).
pub mod Accepted
use tpm_attest.Prelude.{
  ℕ, true, false, Bool, none, some, List, [], ◌∷◌, ◌++◌, map, Text, Bytes, codes, ok, raise,
  json_decode_error,
}
use tpm_attest.Python.Json.{Json, Fields, boolean, number, string, object, end, field}
use tpm_attest.Python.Int.{ℤ, pos}
use tpm_attest.Python.Decimal.{decimal}
use tpm_attest.Python.Unicode.{Unicode}
use tpm_attest.Agent.Log.{Summary}
use tpm_attest.Agent.Pcr.{Pcrs}
use tpm_attest.Server.Database.{Time, PcrMap, Db}
use tpm_attest.Server.Policy.{Config, Tools, ImaSummary, AttestationReport, Reason, EkInfo}
use tpm_attest.Server.Handlers.{
  Clock, Response, challenged, registered, not_registered, granted, denied, enrolled, not_enrolled,
  internal_error, attest,
}
use tpm_attest.Shim.{ShimReport}
use tpm_attest.Shim.Requests.{Reply, answered, http_error, loads}
use tpm_attest.Shim.Client.{Connection}

-- the keys of the dict are numbers, which json.dumps writes as texts
unfoldable pub pcr_map : Pcrs → PcrMap
unfolding decimal
pcr_map pcrs =
    map (λ (entry : ℕ × Text). let pair : Text × Text = (decimal entry.0, entry.1) in pair) pcrs

abbrev pub ima_summary : Summary → ImaSummary
ima_summary s = record {
  total_entries = pos s.total_entries;
  unique_files = pos s.unique_files;
  has_boot_aggregate = s.has_boot_aggregate;
  modules_measured = pos s.modules_measured;
}

-- `AttestationReport` of the dict that the shim posts; its key "eac_handshake" is not a field
unfoldable pub received_report : ShimReport → AttestationReport
unfolding pcr_map
received_report r = record {
  version = r.version;
  timestamp = r.timestamp;
  nonce = r.nonce;
  pcrs = pcr_map r.pcrs;
  ima_summary = ima_summary r.ima_summary;
  ima_merkle_root = r.ima_merkle_root;
  ima_merkle_depth = pos r.ima_merkle_depth;
  ima_leaf_count = pos r.ima_leaf_count;
  quote_available = r.quote_available;
  quote_msg_b64 = some r.quote_msg_b64;
  quote_sig_b64 = some r.quote_sig_b64;
  machine_id = some r.machine_id;
}

-- How the server prints a time, a reason and its verdict on an EK.
pub record Printed : Type 0 where
  pub isoformat : Time → Text
  pub reason : Reason → Text
  pub ek_info : EkInfo → Text

module _ (printed : Printed) where
  -- a body under "reason", after a flag that is False
  unfoldable pub refusal : Text → Text → Reply
  refusal flag reason = http_error (
      loads (ok (object (field flag (boolean false) (field (codes "reason") (string reason) end)))))

  -- The JSONResponse of a handler. The body of an error 500 is plain text.
  unfoldable pub reply_of : Response → Reply
  unfolding refusal
  reply_of (challenged nonce) = answered (
      loads (
        ok (
          object (
            field (codes "nonce") (string nonce)
              (field (codes "expires_in_seconds") (number (codes "120") true) end)))))
  reply_of (registered id' verified info) = answered (
      loads (
        ok (
          object (
            field (codes "registered") (boolean true) (
              field (codes "machine_id") (string id') (
                field (codes "ek_verified") (boolean verified)
                  (field (codes "ek_info") (string (printed.ek_info info)) end)))))))
  reply_of (not_registered info) =
      refusal (codes "registered") (codes "EK cert invalid: " ++ printed.ek_info info)
  reply_of (granted token expires_at) = answered (
      loads (
        ok (
          object (
            field (codes "valid") (boolean true) (
              field (codes "token") (string token)
                (field (codes "expires_at") (string (printed.isoformat expires_at)) end))))))
  reply_of (denied reason) = refusal (codes "valid") (printed.reason reason)
  reply_of (enrolled root) = answered (
      loads (
        ok (
          object (
            field (codes "enrolled") (boolean true) (field (codes "ima_root") (string root) end)))))
  reply_of (not_enrolled reason) = refusal (codes "enrolled") (printed.reason reason)
  reply_of internal_error = http_error (loads (raise json_decode_error))

  -- the connection whose report goes to the server, with the tables and the clock that it meets
  unfoldable pub connect : Config → Unicode → Tools → Clock → Text → Db → Connection → Connection
  unfolding reply_of received_report
  connect cfg u tools clock token db conn = record conn {
    attest_reply =
        λ report handshake. reply_of (attest cfg u tools clock token (received_report report) db).0;
  }
