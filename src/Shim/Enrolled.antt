-- ===== src/Shim/Enrolled.antt =====
-- What the server keeps of the registration at the start of the shim (phase3/shim.py,
-- server/main.py).
use tpm_attest.Prelude.{
  ◌≡◌, refl, ap, ◌∙◌, sym, inl, inr, Bool, true, false, Option, none, some, is_empty, Text, Bytes,
  All, Bool-cases,
}
use mathlib.Core.Option
use mathlib.Core.Option.{some-injective}
use tpm_attest.Python.Encode.{IsByte}
use tpm_attest.Python.Int.{is_zero}
use tpm_attest.Python.Base64.{b64encode, b64decode}
use tpm_attest.Python.Base64.RoundTrip.{b64decode-b64encode}
use tpm_attest.Python.Process.{Ran, not_started, not_text, finished, make_tempdir}
use tpm_attest.Agent.Report.{ToolRun, Host, attempt, read_ek_cert}
use tpm_attest.Server.Database.{Time, Machine, Db, get_enrolled_machine}
use tpm_attest.Server.Policy.{Config, Tools, RegisterRequest, EkInfo}
use tpm_attest.Server.Handlers.{registered, register}
use tpm_attest.Server.Registry.{row_of, register-enrolls}
use tpm_attest.Shim.Requests.{Reply}
use tpm_attest.Shim.Registration.{
  read_ak_pub_b64, ek_cert_or_none, request_for, register_with, auto_register,
}

-- the key that tpm2_readpublic wrote, and the request that carries it
record Carries (machine_id : Text) (ak_run : Ran ToolRun) (host : Host) (req : RegisterRequest)
    : Type 0 where
  run : ToolRun
  key : Bytes
  ran : ak_run ≡ finished run
  succeeded : is_zero run.returncode ≡ true
  file : run.output ≡ some key
  machine : req.machine_id ≡ machine_id
  ak : req.ak_pub_b64 ≡ b64encode key
  ek : req.ek_cert_b64 ≡ ek_cert_or_none (read_ek_cert host)

encoded-some :
    (output : Option Bytes) {text : Text}
    → Option.map b64encode output ≡ some text
    → (key : Bytes) × (output ≡ some key) × (text ≡ b64encode key)
encoded-some (some key) h = (key, refl, cc)
encoded-some none h = absurd (cc)

attempt-some :
    (ak_run : Ran ToolRun) {text : Text}
    → attempt ak_run none ≡ some text
    → (run : ToolRun) × (key : Bytes) × (ak_run ≡ finished run)
      × (is_zero run.returncode ≡ true)
      × (run.output ≡ some key)
      × (text ≡ b64encode key)
unfolding attempt
attempt-some not_started h = absurd (cc)
attempt-some not_text h = absurd (cc)
attempt-some (finished run) h = elim (Bool-cases (is_zero run.returncode)) [
  | inr e ↦ absurd (cc (rw e at h))
  | inl e ↦
      let (key, file, same) = encoded-some run.output (rw e at h) in (run, key, refl, e, file, same)
]

request_for-some :
    (machine_id : Text) (host : Host) (read : Option Text) {req : RegisterRequest}
    → request_for machine_id host read ≡ some req
    → (read ≡ some req.ak_pub_b64)
      × (req.machine_id ≡ machine_id)
      × (req.ek_cert_b64 ≡ ek_cert_or_none (read_ek_cert host))
unfolding request_for
request_for-some machine_id host none h = absurd (cc)
request_for-some machine_id host (some text) {req} h = elim (Bool-cases (is_empty text)) [
  | inl e ↦ absurd (cc (rw e at h))
  | inr e ↦
      let same = some-injective _ _ (rw e at h) in
      (
        ap (λ (r : RegisterRequest). some r.ak_pub_b64) same,
        sym (ap (λ (r : RegisterRequest). r.machine_id) same),
        sym (ap (λ (r : RegisterRequest). r.ek_cert_b64) same),
      )
]

auto_register-Carries :
    (machine_id : Text) (makes : Bool) (ak_run : Ran ToolRun) (host : Host)
    (post : RegisterRequest → Reply) {req : RegisterRequest}
    → (auto_register machine_id makes ak_run host post).0 ≡ some req
    → Carries machine_id ak_run host req
unfolding auto_register read_ak_pub_b64 make_tempdir register_with
auto_register-Carries machine_id false ak_run host post h = absurd (cc)
auto_register-Carries machine_id true ak_run host post h =
    let (read, machine, ek) = request_for-some machine_id host (attempt ak_run none) h in
    let (run, key, ran, succeeded, file, ak) = attempt-some ak_run read in
    record {
      run = run;
      key = key;
      ran = ran;
      succeeded = succeeded;
      file = file;
      machine = machine;
      ak = ak;
      ek = ek;
    }

module _ (cfg : Config) (tools : Tools) (now : Time) (db : Db) where
  -- If what tpm2_readpublic writes is bytes, the shim posts a registration when it starts, and the
  -- server answers that the machine is registered, then tpm2_readpublic ran and succeeded, and the
  -- row of the server for this machine holds a text that decodes to the bytes of the key file, and
  -- what read_ek_cert returned, or none where it raised.
  pub auto_register-enrolls :
      (machine_id : Text) (makes : Bool) (ak_run : Ran ToolRun) (host : Host)
      (post : RegisterRequest → Reply) {req : RegisterRequest} {id' : Text} {verified : Bool}
      {info : EkInfo}
      → ((run : ToolRun) (b : Bytes) → ak_run ≡ finished run → run.output ≡ some b → All IsByte b)
      → (auto_register machine_id makes ak_run host post).0 ≡ some req
      → (register cfg tools now req db).0 ≡ registered id' verified info
      → (run : ToolRun) × (key : Bytes) × (row : Machine) × (ak_run ≡ finished run)
        × (is_zero run.returncode ≡ true)
        × (run.output ≡ some key)
        × (get_enrolled_machine machine_id (register cfg tools now req db).1 ≡ some row)
        × (b64decode row.ak_pub_b64 ≡ some key)
        × (row.ek_cert_b64 ≡ ek_cert_or_none (read_ek_cert host))
  auto_register-enrolls machine_id makes ak_run host post {req} {id'} {verified} bytes h r =
      let c = auto_register-Carries machine_id makes ak_run host post h in
      (
        c.run,
        c.key,
        row_of now req verified,
        c.ran,
        c.succeeded,
        c.file,
        ap (λ (m : Text). get_enrolled_machine m (register cfg tools now req db).1) (sym c.machine)
            ∙ register-enrolls cfg tools now req db r,
        ap b64decode c.ak ∙ b64decode-b64encode c.key (bytes c.run c.key c.ran c.file),
        c.ek,
      )
