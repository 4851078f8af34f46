-- ===== src/Server/Registry.antt =====
-- The table of enrolled machines of server/main.py: what /register writes.
use tpm_attest.Prelude.{
  ◌≡◌, ◌≢◌, refl, inl, inr, Bool, true, false, Option, none, some, List, [], ◌∷◌, arith, Text,
  text_eq, text_eq_iff, text_eq_refl, Bool-cases,
}
use tpm_attest.Server.Database.{
  Time, Machine, Db, find_machine, get_enrolled_machine, upsert_machine, register_machine,
}
use tpm_attest.Server.Policy.{Config, Tools, RegisterRequest, EkInfo}
use tpm_attest.Server.Handlers.{registered, ek_verdict, finish_registration, register}

-- the row that a registration writes
abbrev pub row_of : Time → RegisterRequest → Bool → Machine
row_of now req verified = record {
  machine_id = req.machine_id;
  ak_pub_b64 = req.ak_pub_b64;
  ek_cert_b64 = req.ek_cert_b64;
  ek_verified = verified;
  registered_at = now;
}

find_machine-upsert_machine :
    (m : Machine) (rows : List Machine) → find_machine m.machine_id (upsert_machine m rows) ≡ some m
unfolding find_machine upsert_machine
find_machine-upsert_machine m [] = rw (text_eq_refl m.machine_id) refl
find_machine-upsert_machine m (r ∷ rows) = elim (Bool-cases (text_eq r.machine_id m.machine_id)) [
  | inl e ↦ rw (e, text_eq_refl m.machine_id) refl
  | inr e ↦ rw (e, e) (find_machine-upsert_machine m rows)
]

-- The rows of other machines stay.
find_machine-upsert_other :
    (m : Machine) (rows : List Machine) (id' : Text)
    → id' ≢ m.machine_id
    → find_machine id' (upsert_machine m rows) ≡ find_machine id' rows
unfolding find_machine upsert_machine
find_machine-upsert_other m [] id' ne = ground (arith, text_eq_iff m.machine_id id')
find_machine-upsert_other m (r ∷ rows) id' ne = ground (
  arith,
  text_eq_iff m.machine_id id',
  text_eq_iff r.machine_id m.machine_id,
  text_eq_iff r.machine_id id',
  find_machine-upsert_other m rows id' ne,
)

finish-enrolls :
    (now : Time) (req : RegisterRequest) (verdict : Option (Bool × EkInfo)) (db : Db) {id' : Text}
    {verified : Bool} {info : EkInfo}
    → (finish_registration now req verdict db).0 ≡ registered id' verified info
    → get_enrolled_machine req.machine_id (finish_registration now req verdict db).1
      ≡ some (row_of now req verified)
unfolding finish_registration register_machine get_enrolled_machine
finish-enrolls now req none db {verified} h =
    let same : false ≡ verified = (cc) in
    rw (← same) (find_machine-upsert_machine (row_of now req false) db.enrolled_machines)
finish-enrolls now req (some (true, info)) db {verified} h =
    let same : true ≡ verified = (cc) in
    rw (← same) (find_machine-upsert_machine (row_of now req true) db.enrolled_machines)
finish-enrolls now req (some (false, info)) db h = absurd (cc)

finish-others :
    (now : Time) (req : RegisterRequest) (verdict : Option (Bool × EkInfo)) (db : Db) (id' : Text)
    → id' ≢ req.machine_id
    → get_enrolled_machine id' (finish_registration now req verdict db).1
      ≡ get_enrolled_machine id' db
unfolding finish_registration register_machine get_enrolled_machine
finish-others now req none db id' ne =
    find_machine-upsert_other (row_of now req false) db.enrolled_machines id' ne
finish-others now req (some (true, info)) db id' ne =
    find_machine-upsert_other (row_of now req true) db.enrolled_machines id' ne
finish-others now req (some (false, info)) db id' ne = refl

module _ (cfg : Config) (tools : Tools) (now : Time) (req : RegisterRequest) (db : Db) where
  -- A registration that is accepted leaves the machine with the key, the certificate and the verdict
  -- of this request.
  pub register-enrolls :
      {id' : Text} {verified : Bool} {info : EkInfo}
      → (register cfg tools now req db).0 ≡ registered id' verified info
      → get_enrolled_machine req.machine_id (register cfg tools now req db).1
        ≡ some (row_of now req verified)
  unfolding register
  register-enrolls h = finish-enrolls now req (ek_verdict cfg tools req.ek_cert_b64) db h

  -- Whatever a registration answers, the other machines keep their rows.
  pub register-others :
      (id' : Text)
      → id' ≢ req.machine_id
      → get_enrolled_machine id' (register cfg tools now req db).1 ≡ get_enrolled_machine id' db
  unfolding register
  register-others id' ne = finish-others now req (ek_verdict cfg tools req.ek_cert_b64) db id' ne
