-- ===== src/Server/Freshness.antt =====
-- A token is granted only for a nonce that the server has issued, within its life (server/main.py).
use tpm_attest.Prelude.{
  ℕ, suc, ◌+◌, ◌≤◌, ◌≡◌, ◌⊎◌, ap, inl, inr, none, some, List, [], ◌∷◌, Text, get_elem?, Bool-cases,
  Option-cases,
}
use tpm_attest.Python.Unicode.{Unicode}
use tpm_attest.Server.Database.{
  Time, Db, init_db, challenge_lifetime, issue_nonce, purge_nonces, delete_nonce, has_nonce,
}
use tpm_attest.Server.Policy.{Config, Tools, AttestationReport}
use tpm_attest.Server.Checks.{consume_nonce, verify_report}
use tpm_attest.Server.Handlers.{Clock, granted, challenge, attest}
use tpm_attest.Server.Run.{
  Request, get_challenge, post_register, post_attest, post_enroll, serve, run,
}
use tpm_attest.Server.Nonces.{HasRow, HasRow-keep_if, consume_nonce-HasRow}
use tpm_attest.Server.Replay.{nonces-enroll, nonces-attest, nonces-register}

-- the challenge at this time is among the requests
abbrev pub Issues : Text → Time → List Request → Type 0
Issues n issued requests = (i : ℕ) × (get_elem? requests i ≡ some (get_challenge issued n))

consume-HasRow :
    (now : Time) (m n : Text) (t : Time) (db : Db)
    → HasRow n t (consume_nonce now m db).1.active_nonces
    → HasRow n t db.active_nonces
unfolding consume_nonce purge_nonces delete_nonce
consume-HasRow now m n t db h = HasRow-keep_if _ n t db.active_nonces (HasRow-keep_if _ n t _ h)

challenge-HasRow :
    (now : Time) (token n : Text) (t : Time) (db : Db)
    → HasRow n t (challenge now token db).1.active_nonces
    → HasRow n t db.active_nonces ⊎ ((token ≡ n) × (now + challenge_lifetime ≡ t))
unfolding challenge issue_nonce
challenge-HasRow now token n t db h = elim (Bool-cases (has_nonce token db.active_nonces)) [
  | inl e ↦ inl (rw (e, challenge) at h)
  | inr e ↦ elim (rw (e, challenge) at h) [ inl new ↦ inr new | inr old ↦ inl old ]
]

module _ (cfg : Config) (u : Unicode) (tools : Tools) where
  -- A row that a request leaves was there before, or the request is the challenge that issues it.
  serve-HasRow :
      (n : Text) (t : Time) (r : Request) (db : Db)
      → HasRow n t (serve cfg u tools r db).1.active_nonces
      → HasRow n t db.active_nonces
        ⊎ ((issued : Time) × (r ≡ get_challenge issued n) × (issued + challenge_lifetime ≡ t))
  unfolding serve
  serve-HasRow n t (get_challenge now token) db h = elim (challenge-HasRow now token n t db h) [
    | inl old ↦ inl old
    | inr (same, expiry) ↦ inr (now, ap (get_challenge now) same, expiry)
  ]
  serve-HasRow n t (post_register now req) db h =
      inl (rw (nonces-register cfg u tools now req db) at h)
  serve-HasRow n t (post_attest clock token report) db h = inl (
      consume-HasRow clock.checked report.nonce n t db
        (rw (nonces-attest cfg u tools clock token report db) at h))
  serve-HasRow n t (post_enroll clock report) db h = inl (
      consume-HasRow clock.checked report.nonce n t db
        (rw (nonces-enroll cfg u tools clock report db) at h))

  run-HasRow :
      (n : Text) (t : Time) (requests : List Request) (db : Db)
      → HasRow n t (run cfg u tools requests db).active_nonces
      → HasRow n t db.active_nonces
        ⊎ ((issued : Time) × Issues n issued requests × (issued + challenge_lifetime ≡ t))
  unfolding run
  run-HasRow n t [] db h = inl h
  run-HasRow n t (r ∷ requests) db h = elim (run-HasRow n t requests (serve cfg u tools r db).1 h) [
    | inr (issued, (i, at), expiry) ↦ inr (issued, (suc i, at), expiry)
    | inl row ↦ elim (serve-HasRow n t r db row) [
      | inl old ↦ inl old
      | inr (issued, same, expiry) ↦ inr (issued, (0, ap some same), expiry)
    ]
  ]

  granted-consumed :
      (clock : Clock) (token : Text) (report : AttestationReport) (db : Db) {t : Text} {e : Time}
      → (attest cfg u tools clock token report db).0 ≡ granted t e
      → (consume_nonce clock.checked report.nonce db).0 ≡ none
  unfolding attest verify_report
  granted-consumed clock token report db h =
      elim (Option-cases (consume_nonce clock.checked report.nonce db).0) [
        | inl e ↦ e
        | inr (r, e) ↦ absurd (cc (rw e at h))
      ]

  -- From empty tables, a token is granted only for a nonce that one of the requests was issued as a
  -- challenge, at most the life of a challenge ago.
  pub attest-fresh :
      (requests : List Request) (clock : Clock) (token : Text) (report : AttestationReport)
      {t : Text} {e : Time}
      → (attest cfg u tools clock token report (run cfg u tools requests init_db)).0 ≡ granted t e
      → (issued : Time) × Issues report.nonce issued requests
        × (clock.checked ≤ issued + challenge_lifetime)
  attest-fresh requests clock token report h =
      let db = run cfg u tools requests init_db in
      let (expiry, in_time, row) =
        consume_nonce-HasRow clock.checked report.nonce db
          (granted-consumed clock token report db h) in
      elim (run-HasRow report.nonce expiry requests init_db row) [
        | inl none_there ↦ absurd none_there
        | inr (issued, issues, same) ↦ (issued, issues, rw same in_time)
      ]
