-- ===== src/Server/Nonces.antt =====
-- The challenge nonces of server/main.py: what consuming one does.
use tpm_attest.Prelude.{
  ◌≤◌, ◌≡◌, ◌⊎◌, refl, inl, inr, Bool, not, none, some, List, [], ◌∷◌, arith, Text, text_eq,
  text_eq_iff, ltb, keep_if, Bool-cases, Option-cases, le→not-ltb,
}
use tpm_attest.Server.Database.{Time, Nonce, Db, purge_nonces, select_nonce, delete_nonce}
use tpm_attest.Server.Policy.{Reason, nonce_not_recognised}
use tpm_attest.Server.Checks.{consume_nonce}

-- the table has a row for the nonce that expires at the time
abbrev pub HasRow : Text → Time → List Nonce → Type 0
HasRow n t [] = ⊥
HasRow n t (r ∷ rows) = ((r.nonce ≡ n) × (r.expires_at ≡ t)) ⊎ HasRow n t rows

pub HasRow-keep_if :
    (p : Nonce → Bool) (n : Text) (t : Time) (rows : List Nonce)
    → HasRow n t (keep_if p rows)
    → HasRow n t rows
HasRow-keep_if p n t [] h = absurd h
HasRow-keep_if p n t (r ∷ rows) h = elim (Bool-cases (p r)) [
  | inr e ↦ inr (HasRow-keep_if p n t rows (rw e at h))
  | inl e ↦ elim (rw e at h) [
    | inl here ↦ inl here
    | inr later ↦ inr (HasRow-keep_if p n t rows later)
  ]
]

pub select_nonce-delete_nonce :
    (n : Text) (rows : List Nonce) → select_nonce n (delete_nonce n rows) ≡ none
unfolding select_nonce delete_nonce
select_nonce-delete_nonce n [] = refl
select_nonce-delete_nonce n (r ∷ rows) = ground (arith, select_nonce-delete_nonce n rows)

-- A nonce that is absent stays absent when rows go.
pub select_nonce-keep_if :
    (p : Nonce → Bool) (n : Text) (rows : List Nonce)
    → select_nonce n rows ≡ none
    → select_nonce n (keep_if p rows) ≡ none
unfolding select_nonce
select_nonce-keep_if p n [] h = refl
select_nonce-keep_if p n (r ∷ rows) h = ground (arith, select_nonce-keep_if p n rows)

-- A row that survives the purge is not expired.
pub select_nonce-purge_nonces :
    (now : Time) (n : Text) (rows : List Nonce) (t : Time)
    → select_nonce n (purge_nonces now rows) ≡ some t
    → (now ≤ t) × HasRow n t rows
unfolding select_nonce purge_nonces
select_nonce-purge_nonces now n [] t h = absurd (cc)
select_nonce-purge_nonces now n (r ∷ rows) t h = elim (Bool-cases (ltb r.expires_at now)) [
  | inl e ↦ let (le, row) = select_nonce-purge_nonces now n rows t (rw e at h) in (le, inr row)
  | inr e ↦ elim (Bool-cases (text_eq r.nonce n)) [
    | inl q ↦
        let h' = rw (e, q) at h in
        let same : r.expires_at ≡ t = cc in
        (rw (← same) (ground arith), inl ((text_eq_iff r.nonce n).0 q, same))
    | inr q ↦
        let (le, row) = select_nonce-purge_nonces now n rows t (rw (e, q) at h) in (le, inr row)
  ]
]

module _ (now : Time) (n : Text) (db : Db) where
  -- Whatever was the outcome, the nonce is gone.
  pub consume_nonce-consumes : select_nonce n (consume_nonce now n db).1.active_nonces ≡ none
  unfolding consume_nonce
  consume_nonce-consumes = select_nonce-delete_nonce n (purge_nonces now db.active_nonces)

  -- Success means a row that was there and has not expired.
  pub consume_nonce-HasRow :
      (consume_nonce now n db).0 ≡ none → (t : Time) × (now ≤ t) × HasRow n t db.active_nonces
  unfolding consume_nonce
  consume_nonce-HasRow h =
      elim (Option-cases (select_nonce n (purge_nonces now db.active_nonces))) [
        | inl e ↦ absurd (cc (rw e at h))
        | inr (t, e) ↦
            let (le, row) = select_nonce-purge_nonces now n db.active_nonces t e in (t, le, row)
      ]

  -- The purge leaves nothing for the test of the expiry to find: a failure is always the first one.
  pub consume_nonce-failure :
      {r : Reason} → (consume_nonce now n db).0 ≡ some r → r ≡ nonce_not_recognised
  unfolding consume_nonce
  consume_nonce-failure h =
      elim (Option-cases (select_nonce n (purge_nonces now db.active_nonces))) [
        | inl e ↦ cc (rw e at h)
        | inr (t, e) ↦
            let (le, row) = select_nonce-purge_nonces now n db.active_nonces t e in
            let h' = rw e at h in absurd (cc (rw (le→not-ltb t now le) at h'))
      ]

  -- A nonce that the tables do not hold is not recognised.
  pub consume_nonce-of_absent :
      select_nonce n db.active_nonces ≡ none
      → (consume_nonce now n db).0 ≡ some nonce_not_recognised
  unfolding consume_nonce purge_nonces
  consume_nonce-of_absent h =
      rw (select_nonce-keep_if (λ r. not (ltb r.expires_at now)) n db.active_nonces h)
