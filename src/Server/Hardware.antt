-- ===== src/Server/Hardware.antt =====
-- Strict verification of EK certificates (server/main.py): which machines it lets attest.
use tpm_attest.Prelude.{
  subst, ◌≡◌, ◌⊎◌, refl, inl, inr, Bool, true, false, Option, none, some, List, [], ◌∷◌, arith,
  Text, Bytes, text_eq, All, Bool-cases, Option-cases,
}
use tpm_attest.Python.Unicode.{Unicode}
use tpm_attest.Python.Base64.{b64decode}
use tpm_attest.Server.Database.{
  Time, Machine, Db, init_db, find_machine, get_enrolled_machine, upsert_machine, register_machine,
  issue_nonce, pin_baseline,
}
use tpm_attest.Server.Policy.{Config, Tools, AttestationReport, RegisterRequest, Reason, EkInfo}
use tpm_attest.Server.Checks.{consume_nonce, verify_report, machine_of}
use tpm_attest.Server.Handlers.{
  Clock, granted, judge_ek, verify_ek_cert, ek_verdict, finish_registration, challenge, register,
  attest, enroll_begin, restore, enroll_end, enroll,
}
use tpm_attest.Server.Run.{
  Request, get_challenge, post_register, post_attest, post_enroll, serve, run,
}
use tpm_attest.Server.Acceptance.Verdict.{attest_sound}
use tpm_attest.Server.Registry.{row_of}

-- a row that claims a verified EK certificate has one that decodes and that the X.509 parser takes
abbrev pub IsBacked : Tools → Machine → Type 0
IsBacked tools m =
    (m.ek_verified ≡ false)
    ⊎ ((cert : Text) × (der : Bytes) × (m.ek_cert_b64 ≡ some cert)
        × (b64decode cert ≡ some der)
        × (tools.load_der_x509_certificate der ≡ true))

IsBacked-upsert_machine :
    (tools : Tools) (m : Machine) (rows : List Machine)
    → IsBacked tools m
    → All (IsBacked tools) rows
    → All (IsBacked tools) (upsert_machine m rows)
unfolding upsert_machine
IsBacked-upsert_machine tools m [] b h = (b, tt)
IsBacked-upsert_machine tools m (r ∷ rows) b h =
    elim (Bool-cases (text_eq r.machine_id m.machine_id)) [
      | inl e ↦ rw e (b, h.1)
      | inr e ↦ rw e (h.0, IsBacked-upsert_machine tools m rows b h.1)
    ]

IsBacked-find_machine :
    (tools : Tools) (id' : Text) (rows : List Machine) (m : Machine)
    → All (IsBacked tools) rows
    → find_machine id' rows ≡ some m
    → IsBacked tools m
unfolding find_machine
IsBacked-find_machine tools id' [] m h e = absurd (cc)
IsBacked-find_machine tools id' (r ∷ rows) m h e = elim (Bool-cases (text_eq r.machine_id id')) [
  | inl q ↦ let e' = rw q at e in let same : r ≡ m = (cc) in subst (IsBacked tools) same h.0
  | inr q ↦ IsBacked-find_machine tools id' rows m h.1 (rw q at e)
]

-- With the strict verification, a positive verdict is a certificate that parses.
judge_ek-strict :
    (cfg : Config) (tools : Tools) (der : Bytes) {info : EkInfo}
    → cfg.strict_ek_verification ≡ true
    → judge_ek cfg tools der ≡ (true, info)
    → tools.load_der_x509_certificate der ≡ true
unfolding judge_ek
judge_ek-strict cfg tools der s h = ground arith

verify_ek_cert-strict :
    (cfg : Config) (tools : Tools) (cert : Text) {info : EkInfo}
    → cfg.strict_ek_verification ≡ true
    → verify_ek_cert cfg tools cert ≡ (true, info)
    → (der : Bytes) × (b64decode cert ≡ some der) × (tools.load_der_x509_certificate der ≡ true)
unfolding verify_ek_cert
verify_ek_cert-strict cfg tools cert s h = elim (Option-cases (b64decode cert)) [
  | inl e ↦ absurd (cc (rw (e, verify_ek_cert) at h))
  | inr (der, e) ↦ (der, e, judge_ek-strict cfg tools der s (rw (e, verify_ek_cert) at h))
]

ek_verdict-strict :
    (cfg : Config) (tools : Tools) (cert : Option Text) {info : EkInfo}
    → cfg.strict_ek_verification ≡ true
    → ek_verdict cfg tools cert ≡ some (true, info)
    → (c : Text) × (der : Bytes) × (cert ≡ some c)
      × (b64decode c ≡ some der)
      × (tools.load_der_x509_certificate der ≡ true)
unfolding ek_verdict
ek_verdict-strict cfg tools none s h = absurd (cc)
ek_verdict-strict cfg tools (some []) s h = absurd (cc)
ek_verdict-strict cfg tools (some (c ∷ cert)) {info} s h =
    let verdict : verify_ek_cert cfg tools (c ∷ cert) ≡ (true, info) = cc in
    let (der, decoded, parsed) = verify_ek_cert-strict cfg tools (c ∷ cert) s verdict in
    (c ∷ cert, der, refl, decoded, parsed)

-- every machine in the table is backed
abbrev pub AllBacked : Tools → Db → Type 0
AllBacked tools db = All (IsBacked tools) db.enrolled_machines

machine_of-IsBacked :
    (tools : Tools) (id' : Option Text) (db : Db) (m : Machine)
    → AllBacked tools db
    → machine_of id' db ≡ some m
    → IsBacked tools m
unfolding machine_of get_enrolled_machine
machine_of-IsBacked tools none db m h e = absurd (cc)
machine_of-IsBacked tools (some []) db m h e = absurd (cc)
machine_of-IsBacked tools (some (c ∷ id')) db m h e =
    IsBacked-find_machine tools (c ∷ id') db.enrolled_machines m h e

finish-AllBacked :
    (cfg : Config) (tools : Tools) (now : Time) (req : RegisterRequest)
    (verdict : Option (Bool × EkInfo)) (db : Db)
    → cfg.strict_ek_verification ≡ true
    → ek_verdict cfg tools req.ek_cert_b64 ≡ verdict
    → AllBacked tools db
    → AllBacked tools (finish_registration now req verdict db).1
unfolding finish_registration register_machine
finish-AllBacked cfg tools now req none db s e h =
    IsBacked-upsert_machine tools (row_of now req false) db.enrolled_machines (inl refl) h
finish-AllBacked cfg tools now req (some (true, info)) db s e h =
    IsBacked-upsert_machine tools (row_of now req true) db.enrolled_machines
      (inr (ek_verdict-strict cfg tools req.ek_cert_b64 s e)) h
finish-AllBacked cfg tools now req (some (false, info)) db s e h = h

restore-machines :
    (root : Option Text) (db : Db) → (restore root db).enrolled_machines ≡ db.enrolled_machines
unfolding restore
restore-machines none db = refl
restore-machines (some []) db = refl
restore-machines (some (c ∷ root)) db = refl

enroll_end-machines :
    (u : Unicode) (now : Time) (root : Option Text) (report : AttestationReport)
    (fail : Option Reason) (db : Db)
    → (enroll_end u now root report fail db).1.enrolled_machines ≡ db.enrolled_machines
unfolding enroll_end pin_baseline
enroll_end-machines u now root report none db = refl
enroll_end-machines u now root report (some r) db = restore-machines root db

challenge-machines :
    (now : Time) (token : Text) (db : Db)
    → (challenge now token db).1.enrolled_machines ≡ db.enrolled_machines
unfolding challenge issue_nonce
challenge-machines now token db = ground arith

module _ (cfg : Config) (u : Unicode) (tools : Tools) where
  enroll-machines :
      (clock : Clock) (report : AttestationReport) (db : Db)
      → (enroll cfg u tools clock report db).1.enrolled_machines ≡ db.enrolled_machines
  unfolding enroll verify_report consume_nonce enroll_begin
  enroll-machines clock report db = enroll_end-machines u clock.finished _ report _ _

  serve-AllBacked :
      (r : Request) (db : Db)
      → cfg.strict_ek_verification ≡ true
      → AllBacked tools db
      → AllBacked tools (serve cfg u tools r db).1
  unfolding serve register attest verify_report consume_nonce
  serve-AllBacked (get_challenge now token) db s h = rw (challenge-machines now token db) h
  serve-AllBacked (post_register now req) db s h =
      finish-AllBacked cfg tools now req (ek_verdict cfg tools req.ek_cert_b64) db s refl h
  serve-AllBacked (post_attest clock token report) db s h = h
  serve-AllBacked (post_enroll clock report) db s h = rw (enroll-machines clock report db) h

  run-AllBacked :
      (requests : List Request) (db : Db)
      → cfg.strict_ek_verification ≡ true
      → AllBacked tools db
      → AllBacked tools (run cfg u tools requests db)
  unfolding run
  run-AllBacked [] db s h = h
  run-AllBacked (r ∷ requests) db s h =
      run-AllBacked requests (serve cfg u tools r db).1 s (serve-AllBacked r db s h)

  -- With the strict verification, from empty tables, a token is granted only to a registered machine
  -- with an EK certificate that decodes and that the X.509 parser takes.
  pub attest-strict :
      (requests : List Request) (clock : Clock) (token : Text) (report : AttestationReport)
      {t : Text} {e : Time}
      → cfg.strict_ek_verification ≡ true
      → (attest cfg u tools clock token report (run cfg u tools requests init_db)).0 ≡ granted t e
      → (m : Machine) × (machine_of report.machine_id (run cfg u tools requests init_db) ≡ some m)
        × (cert : Text) × (der : Bytes) × (m.ek_cert_b64 ≡ some cert)
        × (b64decode cert ≡ some der)
        × (tools.load_der_x509_certificate der ≡ true)
  attest-strict requests clock token report s h =
      let db = run cfg u tools requests init_db in
      elim (attest_sound cfg u tools clock token report db h).1.hardware [
        | inl off ↦ absurd (cc)
        | inr (m, found, verified) ↦
            elim (machine_of-IsBacked tools report.machine_id db m
              (run-AllBacked requests init_db s tt) found) [
                | inl unverified ↦ absurd (cc)
                | inr (cert, der, there, decoded, parsed) ↦
                    (m, found, cert, der, there, decoded, parsed)
              ]
      ]
