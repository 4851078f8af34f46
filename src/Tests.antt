-- ===== src/Tests.antt =====
-- Concrete inputs for the tests and the examples.
pub mod AgentTests
pub mod ReportTests
pub mod ServerTests
pub mod ShimTests
pub mod DaemonTests
pub mod DemoTests
pub mod GameTests
pub mod SystemTests
pub mod InterleavedTests
use tpm_attest.Prelude.{
  ℕ, ◌+◌, ◌*◌, ◌%◌, ◌<◌, ◌≡◌, refl, ap, Bool, true, false, Option, none, some, List, [], ◌∷◌, map,
  arith, between, if◌then◌else◌, Text, Bytes, codes, length, All, all, &&-eq-true, not, ltb, ltb→lt,
  ◌==◌, ◌≢◌,
}
use tpm_attest.Python.Int.{pos}
use tpm_attest.Python.Unicode.{Unicode}
use tpm_attest.Python.Encode.{IsByte, IsCodePoint}
use tpm_attest.Python.Split.Laws.{Lacks}
use tpm_attest.Agent.Tree.{IsDigest}
use tpm_attest.Agent.Log.{Entry}
use tpm_attest.Server.Database.{Db, PcrMap, init_db}
use tpm_attest.Server.Policy.{Config, Tools, AttestationReport, RegisterRequest}
use tpm_attest.Server.Handlers.{Clock}

-- a digest of 32 bytes with a checksum in the first
abbrev pub checksum : Bytes → ℕ
checksum [] = 7
checksum (b ∷ bs) = (b + 31 * checksum bs) % 256

checksum-lt : (bs : Bytes) → checksum bs < 256
checksum-lt [] = omega arith
checksum-lt (b ∷ bs) = omega arith

abbrev pub toy_sha : Bytes → Bytes
toy_sha bs =
    checksum bs
    ∷ 1
    ∷ 2
    ∷ 3
    ∷ 4
    ∷ 5
    ∷ 6
    ∷ 7
    ∷ 8
    ∷ 9
    ∷ 10
    ∷ 11
    ∷ 12
    ∷ 13
    ∷ 14
    ∷ 15
    ∷ 16
    ∷ 17
    ∷ 18
    ∷ 19
    ∷ 20
    ∷ 21
    ∷ 22
    ∷ 23
    ∷ 24
    ∷ 25
    ∷ 26
    ∷ 27
    ∷ 28
    ∷ 29
    ∷ 30
    ∷ 31
    ∷ []

toy_sha-size : (bs : Bytes) → length (toy_sha bs) ≡ 32
toy_sha-size bs = refl

pub toy_sha-IsDigest : IsDigest toy_sha
toy_sha-IsDigest = record { size = toy_sha-size; bytes = λ bs. (checksum-lt bs, omega arith) }

-- lower case of ASCII
abbrev pub lower_point : ℕ → ℕ
lower_point c = if between 65 90 c then c + 32 else c

lower_point_lem : (c : ℕ) → lower_point (lower_point c) ≡ lower_point c
lower_point_lem c = ground arith

abbrev pub lower_ascii : Text → Text
lower_ascii s = map lower_point s

pub lower_ascii_lem : (s : Text) → lower_ascii (lower_ascii s) ≡ lower_ascii s
lower_ascii_lem [] = refl
lower_ascii_lem (c ∷ s) = cc (lower_point_lem c, lower_ascii_lem s)

pub lower_ascii_nil : (s : Text) → lower_ascii s ≡ [] → s ≡ []
lower_ascii_nil [] e = refl
lower_ascii_nil (c ∷ s) e = absurd (cc)

abbrev pub no_decimal : ℕ → Option ℕ
no_decimal c = none

abbrev pub ascii : Unicode
ascii = record {
  lower = lower_ascii;
  decimal = no_decimal;
  lower-lower = lower_ascii_lem;
  lower-eq-nil = lower_ascii_nil;
}

-- a property of all points of a text, from a test
all-true {ℓ} :
    {P : ℕ → Type ℓ} (p : ℕ → Bool) (s : Text)
    → ((c : ℕ) → p c ≡ true → P c)
    → all p s ≡ true
    → All P s
all-true p [] f h = tt
all-true p (c ∷ s) f h =
    let (now, later) = &&-eq-true (p c) (all p s) h in (f c now, all-true p s f later)

differs_sound : (sep c : ℕ) → not (c == sep) ≡ true → c ≢ sep
differs_sound sep c h e = absurd (ground arith)

pub Lacks-all : (sep : ℕ) (s : Text) → all (λ c. not (c == sep)) s ≡ true → Lacks sep s
Lacks-all sep s h = all-true (λ c. not (c == sep)) s (differs_sound sep) h

pub points_if : (s : Text) → all (λ c. ltb c 0x110000) s ≡ true → All IsCodePoint s
points_if s h = all-true (λ c. ltb c 0x110000) s (λ c l. ltb→lt c 0x110000 l) h

abbrev pub boot_entry : Entry
boot_entry = record {
  pcr = codes "10";
  template_hash = codes "aa";
  template_name = codes "ima-ng";
  file_hash = codes "sha256:bb";
  filename = codes "boot_aggregate";
}

abbrev pub init_entry : Entry
init_entry = record {
  pcr = codes "10";
  template_hash = codes "cc";
  template_name = codes "ima-ng";
  file_hash = codes "sha256:dd";
  filename = codes "/opt/my init";
}

abbrev pub config : Config
config = record {
  strict_ek_verification = false;
  require_pcr7_pinning = true;
  require_iommu_enabled = false;
  require_ima_minimum_entries = pos 0;
}

abbrev pub strict_config : Config
strict_config = record config { strict_ek_verification = true }

abbrev pub tools : Tools
tools = record {
  checkquote = λ k m s n. true;
  readpublic = some (1 ∷ []);
  load_der_x509_certificate = λ d. true;
}

abbrev pub nonce_one : Text
nonce_one = codes "aa11"

abbrev pub nonce_two : Text
nonce_two = codes "bb22"

abbrev pub machine_one : Text
machine_one = codes "m1"

abbrev pub root_one : Text
root_one = codes "ABCDEF0123456789abcdef0123456789abcdef0123456789abcdef0123456789"

abbrev pub report : AttestationReport
report = record {
  version = codes "1.0";
  timestamp = codes "2024-01-01T00:00:00Z";
  nonce = nonce_one;
  pcrs = (codes "7", codes "0xAB") ∷ (codes "10", codes "0x0C") ∷ [];
  ima_summary = record {
    total_entries = pos 2;
    unique_files = pos 2;
    has_boot_aggregate = true;
    modules_measured = pos 0;
  };
  ima_merkle_root = root_one;
  ima_merkle_depth = pos 1;
  ima_leaf_count = pos 2;
  quote_available = true;
  quote_msg_b64 = some (codes "AAAA");
  quote_sig_b64 = some (codes "BBBB");
  machine_id = some machine_one;
}

-- the same, behind a second challenge
abbrev pub second_report : AttestationReport
second_report = record report { nonce = nonce_two }

abbrev pub registration : RegisterRequest
registration = record {
  machine_id = machine_one;
  ak_pub_b64 = codes "CCCC";
  ek_cert_b64 = some (codes "DDDD");
}

abbrev pub clock : Clock
clock = record { checked = 1000; finished = 2000 }
