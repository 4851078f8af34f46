-- ===== src/Server/Interleaved.antt =====
-- The handlers of server/main.py as threads: each of their transactions is a step of its own.
use tpm_attest.Prelude.{◌≡◌, Option, none, some, List, [], ◌∷◌, ◌++◌, Text}
use tpm_attest.Python.Unicode.{Unicode}
use tpm_attest.Server.Database.{Db, get_active_ima_root}
use tpm_attest.Server.Policy.{Config, Tools, AttestationReport, Reason}
use tpm_attest.Server.Checks.{consume_nonce, check_report}
use tpm_attest.Server.Handlers.{
  Response, Clock, challenge, register, attest_response, enroll_begin, enroll_end,
}
use tpm_attest.Server.Run.{Request, get_challenge, post_register, post_attest, post_enroll}

-- Where a handler stands. /enroll keeps the root that it read first.
pub data Stage : Type 0 where
  begun : Stage
  root_read : (current_root : Option Text) → Stage
  deactivated : (current_root : Option Text) → Stage
  nonce_used : (current_root : Option Text) → Stage
  judged : (current_root : Option Text) → (failure_reason : Option Reason) → Stage
  answered : Response → Stage

-- behind the transaction of `_consume_nonce`; a failure skips the other checks
unfoldable pub use_nonce : (Option Reason → Stage) → Stage → Option Reason × Db → Stage × Db
use_nonce fails passes (some reason, db) = (fails (some reason), db)
use_nonce fails passes (none, db) = (passes, db)

module _ (cfg : Config) (u : Unicode) (tools : Tools) where
  -- The reads of the checks are one step.
  unfoldable pub advance_attest : Clock → Text → AttestationReport → Stage → Db → Stage × Db
  unfolding use_nonce
  advance_attest clock token report begun db =
      use_nonce (λ reason. answered (attest_response clock.finished token reason)) (nonce_used none)
        (consume_nonce clock.checked report.nonce db)
  advance_attest clock token report (nonce_used root) db =
      (answered (attest_response clock.finished token (check_report cfg u tools report db)), db)
  advance_attest clock token report stage db = (stage, db)

  unfoldable pub advance_enroll : Clock → AttestationReport → Stage → Db → Stage × Db
  unfolding use_nonce
  advance_enroll clock report begun db = (root_read (get_active_ima_root db), db)
  advance_enroll clock report (root_read root) db = (deactivated root, enroll_begin db)
  advance_enroll clock report (deactivated root) db =
      use_nonce (λ reason. judged root reason) (nonce_used root)
        (consume_nonce clock.checked report.nonce db)
  advance_enroll clock report (nonce_used root) db =
      (judged root (check_report cfg u tools report db), db)
  advance_enroll clock report (judged root reason) db =
      let (response, db') = enroll_end u clock.finished root report reason db in
      (answered response, db')
  advance_enroll clock report (answered response) db = (answered response, db)

  -- a handler of one transaction
  unfoldable pub advance_once : (Db → Response × Db) → Stage → Db → Stage × Db
  advance_once handler begun db = let (response, db') = handler db in (answered response, db')
  advance_once handler stage db = (stage, db)

  -- the next transaction of the handler of a request
  unfoldable pub advance : Request → Stage → Db → Stage × Db
  unfolding advance_attest advance_enroll advance_once
  advance (get_challenge now token) stage db = advance_once (challenge now token) stage db
  advance (post_register now req) stage db = advance_once (register cfg tools now req) stage db
  advance (post_attest clock token report) stage db = advance_attest clock token report stage db
  advance (post_enroll clock report) stage db = advance_enroll clock report stage db

-- a handler that runs
pub record Task : Type 0 where
  pub request : Request
  pub stage : Stage

pub record Tables : Type 0 where
  pub db : Db
  pub tasks : List Task

abbrev pub begin : Request → Task
begin r = record { request = r; stage = begun }

module _ (cfg : Config) (u : Unicode) (tools : Tools) where
  -- One of the handlers makes its next transaction, or a request arrives.
  pub data Step (s : Tables) : Tables → Type 0 where
    runs :
        (before : List Task) (task : Task) (after : List Task)
        → s.tasks ≡ before ++ task ∷ after
        → Step s (record {
          db = (advance cfg u tools task.request task.stage s.db).1;
          tasks =
              before
              ++ record task { stage = (advance cfg u tools task.request task.stage s.db).0 }
                ∷ after;
        })
    arrives : (r : Request) → Step s (record s { tasks = begin r ∷ s.tasks })

  -- what some interleaving leads to, from these tables
  pub data Reach (db : Db) : Tables → Type 0 where
    idle : Reach db (record { db = db; tasks = [] })
    then : {s t : Tables} → Reach db s → Step s t → Reach db t
