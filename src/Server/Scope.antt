-- ===== src/Server/Scope.antt =====
-- What /attest does not look at (server/main.py).
use tpm_attest.Prelude.{Text}
use tpm_attest.Python.Int.{ℤ}
use tpm_attest.Python.Unicode.{Unicode}
use tpm_attest.Server.Policy.{AttestationReport, ImaSummary}

-- another version, time stamp, depth and summary, but for the boot aggregate
abbrev pub relabel : Text → Text → ℤ → ImaSummary → AttestationReport → AttestationReport
relabel version timestamp depth summary report = record report {
  version = version;
  timestamp = timestamp;
  ima_merkle_depth = depth;
  ima_summary = record summary { has_boot_aggregate = report.ima_summary.has_boot_aggregate };
}
