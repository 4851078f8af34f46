-- ===== src/Server/Rows.antt =====
-- The rows of a nonce, and the handlers that issue and use it (server/main.py).
use tpm_attest.Prelude.{
  ℕ, ◌+◌, ◌≤◌, ◌≡◌, refl, inl, inr, Bool, true, false, not, ◌&&◌, if◌then◌else◌, Bool-cases,
  if_both, Option-cases, none, some, List, [], ◌∷◌, arith, Text, text_eq, text_eq_iff, ltb, keep_if,
}
use tpm_attest.Server.Database.{Time, Nonce, Db, purge_nonces, select_nonce, delete_nonce}
use tpm_attest.Server.Checks.{judge_nonce, consume_nonce}
use tpm_attest.Server.Handlers.{Response, challenged, granted, enrolled}
use tpm_attest.Server.Run.{Request, get_challenge, post_register, post_attest, post_enroll}
use tpm_attest.Server.Interleaved.{Stage, nonce_used, judged, answered, Task}

-- the request brings a report with this nonce
unfoldable pub is_for : Text → Request → Bool
is_for n (get_challenge now token) = false
is_for n (post_register now req) = false
is_for n (post_attest clock token report) = text_eq report.nonce n
is_for n (post_enroll clock report) = text_eq report.nonce n

-- the answer gives a token, or a baseline
unfoldable pub is_success : Response → Bool
is_success (granted token expires_at) = true
is_success (enrolled root) = true
is_success _ = false

-- the nonce was accepted, and no check has failed since
unfoldable pub holds : Stage → Bool
unfolding is_success
holds (nonce_used root) = true
holds (judged root none) = true
holds (answered response) = is_success response
holds _ = false

-- the answer is a challenge with this nonce
unfoldable pub issues : Text → Stage → ℕ
issues n (answered (challenged token)) = if text_eq token n then 1 else 0
issues n _ = 0

unfoldable pub uses : Text → Request → Stage → ℕ
unfolding is_for holds
uses n r stage = if is_for n r && holds stage then 1 else 0

-- the handlers whose report was accepted for the nonce, and those that issued it
unfoldable pub all_uses : Text → List Task → ℕ
unfolding uses
all_uses n [] = 0
all_uses n (t ∷ tasks) = uses n t.request t.stage + all_uses n tasks

unfoldable pub all_issues : Text → List Task → ℕ
unfolding issues
all_issues n [] = 0
all_issues n (t ∷ tasks) = issues n t.stage + all_issues n tasks

-- the rows of the nonce
unfoldable pub rows : Text → List Nonce → ℕ
rows n [] = 0
rows n (r ∷ rs) = (if text_eq r.nonce n then 1 else 0) + rows n rs

pub rows-keep_if :
    (n : Text) (p : Nonce → Bool) (rs : List Nonce) → rows n (keep_if p rs) ≤ rows n rs
unfolding rows
rows-keep_if n p [] = omega arith
rows-keep_if n p (r ∷ rs) =
    if_both (λ (l : List Nonce). rows n l ≤ (if text_eq r.nonce n then 1 else 0) + rows n rs) (p r)
      (λ kept. omega (arith, rows-keep_if n p rs)) (λ gone. omega (arith, rows-keep_if n p rs))

pub rows-delete_nonce : (n : Text) (rs : List Nonce) → rows n (delete_nonce n rs) ≡ 0
unfolding rows delete_nonce
rows-delete_nonce n [] = refl
rows-delete_nonce n (r ∷ rs) = elim (Bool-cases (text_eq r.nonce n)) [
  | inl e ↦ rw e (rows-delete_nonce n rs)
  | inr e ↦ rw (e, e) (omega (arith, rows-delete_nonce n rs))
]

pub rows-select_nonce :
    (n : Text) (rs : List Nonce) {t : Time} → select_nonce n rs ≡ some t → 1 ≤ rows n rs
unfolding rows select_nonce
rows-select_nonce n [] h = absurd (cc)
rows-select_nonce n (r ∷ rs) h = elim (Bool-cases (text_eq r.nonce n)) [
  | inl e ↦ rw e (omega arith)
  | inr e ↦ rw e (omega (arith, rows-select_nonce n rs (rw e at h)))
]

module _ (now : Time) (m n : Text) (db : Db) where
  pub consume_nonce-rows : rows n (consume_nonce now m db).1.active_nonces ≤ rows n db.active_nonces
  unfolding consume_nonce purge_nonces delete_nonce
  consume_nonce-rows =
      let first = rows-keep_if n (λ r. not (ltb r.expires_at now)) db.active_nonces in
      omega (
        arith,
        first,
        rows-keep_if n (λ r. not (text_eq r.nonce m)) (purge_nonces now db.active_nonces),
      )

  -- An accepted nonce had a row, and has none any more.
  pub consume_nonce-spends :
      (consume_nonce now m db).0 ≡ none
      → text_eq m n ≡ true
      → 1 + rows n (consume_nonce now m db).1.active_nonces ≤ rows n db.active_nonces
  unfolding consume_nonce judge_nonce purge_nonces
  consume_nonce-spends h e =
      let same = (text_eq_iff m n).0 e in
      elim (Option-cases (select_nonce m (purge_nonces now db.active_nonces))) [
        | inl q ↦ absurd (cc (rw q at h))
        | inr (t, q) ↦
            let purged = purge_nonces now db.active_nonces in
            let there = rows-select_nonce n purged (rw same at q) in
            let gone : rows n (delete_nonce m purged) ≡ 0 = rw same (rows-delete_nonce n purged) in
            omega (
              arith,
              there,
              gone,
              rows-keep_if n (λ r. not (ltb r.expires_at now)) db.active_nonces,
            )
      ]
