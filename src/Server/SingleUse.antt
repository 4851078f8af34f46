-- ===== src/Server/SingleUse.antt =====
-- A challenge of server/main.py is good for one report, however the handlers interleave.
use tpm_attest.Prelude.{◌+◌, ◌≤◌, ◌≡◌, refl, ap, ◌∙◌, List, [], ◌∷◌, ◌++◌, arith, Text}
use tpm_attest.Python.Unicode.{Unicode}
use tpm_attest.Server.Database.{Db}
use tpm_attest.Server.Policy.{Config, Tools}
use tpm_attest.Server.Run.{Request}
use tpm_attest.Server.Interleaved.{
  begun, advance, Task, Tables, begin, Step, runs, arrives, Reach, idle, then,
}
use tpm_attest.Server.Rows.{holds, uses, issues, all_uses, all_issues, rows}
use tpm_attest.Server.Spending.{uses-fails, advance-IsPaid}

all_uses-append :
    (n : Text) (before : List Task) (task : Task) (after : List Task)
    → all_uses n (before ++ task ∷ after)
      ≡ uses n task.request task.stage + all_uses n (before ++ after)
unfolding all_uses
all_uses-append n [] task after = refl
all_uses-append n (t ∷ before) task after = omega (arith, all_uses-append n before task after)

all_issues-append :
    (n : Text) (before : List Task) (task : Task) (after : List Task)
    → all_issues n (before ++ task ∷ after) ≡ issues n task.stage + all_issues n (before ++ after)
unfolding all_issues
all_issues-append n [] task after = refl
all_issues-append n (t ∷ before) task after = omega (arith, all_issues-append n before task after)

module _ (cfg : Config) (u : Unicode) (tools : Tools) (db : Db) where
  -- the uses and the rows left are covered by the issues and the rows at the start
  abbrev IsCovered : Text → Tables → Type 0
  IsCovered n s =
      all_uses n s.tasks + rows n s.db.active_nonces
      ≤ all_issues n s.tasks + rows n db.active_nonces

  arrived-IsCovered :
      (n : Text) (s : Tables) (r : Request)
      → IsCovered n s
      → IsCovered n (record s { tasks = begin r ∷ s.tasks })
  unfolding all_uses all_issues issues holds
  arrived-IsCovered n s r h = omega (arith, h, uses-fails n r begun refl)

  Step-IsCovered : (n : Text) {s t : Tables} → Step cfg u tools s t → IsCovered n s → IsCovered n t
  Step-IsCovered n {s} (runs before task after e) h =
      let out = advance cfg u tools task.request task.stage s.db in
      let task' : Task = record task { stage = out.0 } in
      let uses_before = ap (all_uses n) e ∙ all_uses-append n before task after in
      let issues_before = ap (all_issues n) e ∙ all_issues-append n before task after in
      omega (
        arith,
        h,
        uses_before,
        issues_before,
        all_uses-append n before task' after,
        all_issues-append n before task' after,
        advance-IsPaid cfg u tools n task.request task.stage s.db,
      )
  Step-IsCovered n {s} (arrives r) h = arrived-IsCovered n s r h

  -- However the handlers interleave, transaction by transaction: the reports that have passed the
  -- check of a nonce and have failed no check since, among them all that were granted a token or
  -- enrolled, and the rows that are left of the nonce, are together no more than the challenges
  -- that were answered with it and its rows at the start.
  pub Reach-IsCovered :
      (n : Text) {s : Tables}
      → Reach cfg u tools db s
      → all_uses n s.tasks + rows n s.db.active_nonces
        ≤ all_issues n s.tasks + rows n db.active_nonces
  unfolding all_uses all_issues
  Reach-IsCovered n idle = omega arith
  Reach-IsCovered n (then r step) = Step-IsCovered n step (Reach-IsCovered n r)
