-- ===== src/Server/Database.antt =====
-- The SQLite tables of server/main.py and the helpers that read and write them. Times are numbers
-- of microseconds; SQL compares the texts that `isoformat` makes of them, in the same order.
use tpm_attest.Prelude.{
  ℕ, ◌+◌, ◌*◌, Bool, true, false, not, ◌&&◌, Option, none, some, List, [], ◌∷◌, map, ltb, ◌==◌,
  if◌then◌else◌, Text, text_eq, keep_if, any, Result, ok, raise, integrity_error,
}
use mathlib.Core.Option
use tpm_attest.Python.Unicode.{Unicode}

abbrev pub Time : Type 0
Time = ℕ

-- a row of `enrolled_machines`
pub record Machine : Type 0 where
  pub machine_id : Text
  pub ak_pub_b64 : Text
  pub ek_cert_b64 : Option Text
  pub ek_verified : Bool
  pub registered_at : Time

-- the JSON object of `pcr_json`, a dict from PCR index to digest
abbrev pub PcrMap : Type 0
PcrMap = List (Text × Text)

-- a row of `baselines`
pub record Baseline : Type 0 where
  pub id : ℕ
  pub ima_root : Text
  pub pcr_json : PcrMap
  pub created_at : Time
  pub is_active : Bool

-- a row of `active_nonces`
pub record Nonce : Type 0 where
  pub nonce : Text
  pub expires_at : Time

-- `next_id` is what AUTOINCREMENT gives the next baseline; the newest baseline stands first.
pub record Db : Type 0 where
  pub enrolled_machines : List Machine
  pub baselines : List Baseline
  pub next_id : ℕ
  pub active_nonces : List Nonce

-- the empty tables of `_init_db`
abbrev pub init_db : Db
init_db = record { enrolled_machines = []; baselines = []; next_id = 1; active_nonces = [] }

-- `_CHALLENGE_LIFETIME_SECONDS`, in microseconds
abbrev pub challenge_lifetime : ℕ
challenge_lifetime = 120 * 1_000_000

unfoldable pub has_nonce : Text → List Nonce → Bool
has_nonce n rows = any (λ r. text_eq r.nonce n) rows

-- The primary key refuses a nonce that is there. `token` is what `secrets.token_hex` returns.
unfoldable pub issue_nonce : Time → Text → Db → Result (Text × Db)
unfolding has_nonce
issue_nonce now token db =
    if has_nonce token db.active_nonces
    then raise integrity_error
    else ok (
      token,
      record db {
        active_nonces =
            record { nonce = token; expires_at = now + challenge_lifetime } ∷ db.active_nonces;
      },
    )

-- `DELETE FROM active_nonces WHERE expires_at < ?`
unfoldable pub purge_nonces : Time → List Nonce → List Nonce
purge_nonces now rows = keep_if (λ r. not (ltb r.expires_at now)) rows

-- `SELECT expires_at FROM active_nonces WHERE nonce = ?`
unfoldable pub select_nonce : Text → List Nonce → Option Time
select_nonce n [] = none
select_nonce n (r ∷ rows) =
    let rest = select_nonce n rows in if text_eq r.nonce n then some r.expires_at else rest

-- `DELETE FROM active_nonces WHERE nonce = ?`
unfoldable pub delete_nonce : Text → List Nonce → List Nonce
delete_nonce n rows = keep_if (λ r. not (text_eq r.nonce n)) rows

unfoldable pub find_machine : Text → List Machine → Option Machine
find_machine id' [] = none
find_machine id' (m ∷ rows) =
    let rest = find_machine id' rows in if text_eq m.machine_id id' then some m else rest

unfoldable pub get_enrolled_machine : Text → Db → Option Machine
unfolding find_machine
get_enrolled_machine id' db = find_machine id' db.enrolled_machines

-- `INSERT … ON CONFLICT(machine_id) DO UPDATE`
unfoldable pub upsert_machine : Machine → List Machine → List Machine
upsert_machine m [] = m ∷ []
upsert_machine m (r ∷ rows) =
    let rest = upsert_machine m rows in
    if text_eq r.machine_id m.machine_id then m ∷ rows else r ∷ rest

unfoldable pub register_machine : Time → Text → Text → Option Text → Bool → Db → Db
unfolding upsert_machine
register_machine now machine_id ak_pub_b64 ek_cert_b64 ek_verified db = record db {
  enrolled_machines =
      upsert_machine
        (record {
          machine_id = machine_id;
          ak_pub_b64 = ak_pub_b64;
          ek_cert_b64 = ek_cert_b64;
          ek_verified = ek_verified;
          registered_at = now;
        })
        db.enrolled_machines;
}

-- the row with the greater id
unfoldable pub later_of : Baseline → Option Baseline → Baseline
later_of b none = b
later_of b (some c) = if ltb b.id c.id then c else b

-- `SELECT … WHERE is_active = 1 ORDER BY id DESC LIMIT 1`
unfoldable pub select_active : List Baseline → Option Baseline
unfolding later_of
select_active [] = none
select_active (b ∷ rows) =
    let rest = select_active rows in if b.is_active then some (later_of b rest) else rest

unfoldable pub get_active_ima_root : Db → Option Text
unfolding select_active
get_active_ima_root db = Option.map (λ b. b.ima_root) (select_active db.baselines)

abbrev pub set_active : Bool → Baseline → Baseline
set_active active b = record b { is_active = active }

-- `UPDATE baselines SET is_active = 0`
unfoldable pub deactivate_all : List Baseline → List Baseline
deactivate_all rows = map (set_active false) rows

unfoldable pub pin_baseline : Unicode → Time → Text → PcrMap → Db → Db
unfolding deactivate_all
pin_baseline u now ima_root pcr_map db = record db {
  baselines =
      record {
        id = db.next_id;
        ima_root = u.lower ima_root;
        pcr_json = pcr_map;
        created_at = now;
        is_active = true;
      }
      ∷ deactivate_all db.baselines;
  next_id = db.next_id + 1;
}

-- `dict.get`
unfoldable pub get : Text → PcrMap → Option Text
get key [] = none
get key ((k, v) ∷ m) = let rest = get key m in if text_eq k key then some v else rest

unfoldable pub get_pinned_pcr : Text → Db → Option Text
unfolding select_active get
get_pinned_pcr pcr_index db = elim (select_active db.baselines) [
  | none ↦ none
  | some b ↦ get pcr_index b.pcr_json
]

-- `SELECT MAX(id) FROM baselines WHERE ima_root = ?`
unfoldable pub max_id : Text → List Baseline → Option ℕ
max_id root [] = none
max_id root (b ∷ rows) =
    let rest = max_id root rows in
    if text_eq b.ima_root root
    then some (elim rest [ none ↦ b.id | some i ↦ if ltb b.id i then i else b.id ])
    else rest

unfoldable pub is_latest : Text → Option ℕ → Baseline → Bool
is_latest root none b = false
is_latest root (some i) b = text_eq b.ima_root root && b.id == i

unfoldable pub activate_if : (Baseline → Bool) → Baseline → Baseline
activate_if test b = if test b then set_active true b else b

-- `UPDATE baselines SET is_active = 1 WHERE ima_root = ? AND id = (SELECT MAX(id) …)`
unfoldable pub activate_latest : Text → List Baseline → List Baseline
unfolding max_id is_latest activate_if
activate_latest root rows = map (activate_if (is_latest root (max_id root rows))) rows
