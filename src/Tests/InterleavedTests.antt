-- ===== src/Tests/InterleavedTests.antt =====
-- Two reports with one nonce, whose handlers interleave (server/main.py).
use tpm_attest.Prelude.{◌+◌, ◌≤◌, refl, [], ◌∷◌, ◌++◌, List, codes}
use tpm_attest.Tests.{ascii, config, tools, clock, report, nonce_one}
use tpm_attest.Server.Database.{Db, init_db}
use tpm_attest.Server.Run.{Request, get_challenge, post_attest}
use tpm_attest.Server.Interleaved.{advance, Task, Tables, begin, runs, arrives, Reach, idle, then}
use tpm_attest.Server.Rows.{all_uses, all_issues, rows}
use tpm_attest.Server.SingleUse.{Reach-IsCovered}

-- the request arrives
abbrev with_request : Request → Tables → Tables
with_request r s = record s { tasks = begin r ∷ s.tasks }

-- the handler between the two lists makes its transaction
abbrev run_between : List Task → Task → List Task → Db → Tables
run_between before task after db = record {
  db = (advance config ascii tools task.request task.stage db).1;
  tasks =
      before
      ++ record task { stage = (advance config ascii tools task.request task.stage db).0 } ∷ after;
}

abbrev asked : Task
asked = begin (get_challenge 500 nonce_one)

abbrev issued : Tables
issued = run_between [] asked [] init_db

-- two handlers with the same report, in front of the challenge
abbrev one : Task
one = begin (post_attest clock (codes "t1") report)

abbrev two : Task
two = begin (post_attest clock (codes "t2") report)

abbrev both : Tables
both = record issued { tasks = two ∷ one ∷ issued.tasks }

-- the second takes the nonce, and the first comes too late
abbrev taken : Tables
taken = run_between [] two (one ∷ issued.tasks) both.db

abbrev two_taken : Task
two_taken = record two { stage = (advance config ascii tools two.request two.stage both.db).0 }

abbrev late : Tables
late = run_between (two_taken ∷ []) one issued.tasks taken.db

issued-Reach : Reach config ascii tools init_db issued
issued-Reach = then (then idle (arrives asked.request)) (runs [] asked [] refl)

late-Reach : Reach config ascii tools init_db late
late-Reach =
    then
      (then (then (then issued-Reach (arrives one.request)) (arrives two.request))
        (runs [] two (one ∷ issued.tasks) refl))
      (runs (two_taken ∷ []) one issued.tasks refl)

Reach-IsCovered_example :
    all_uses nonce_one late.tasks + rows nonce_one late.db.active_nonces
    ≤ all_issues nonce_one late.tasks + rows nonce_one init_db.active_nonces
Reach-IsCovered_example = Reach-IsCovered config ascii tools init_db nonce_one late-Reach
