-- ===== src/Server/Baselines.antt =====
-- The table of baselines of server/main.py: at most the newest row is active, and a failed
-- enrolment puts it back.
use tpm_attest.Prelude.{
  ℕ, ◌<◌, ◌≤◌, ◌≡◌, ◌≢◌, refl, sym, ap, ◌∙◌, Bool, true, false, Option, none, some, List, [], ◌∷◌,
  map, arith, inl, inr, Text, text_eq, text_eq_refl, ◌==◌, ==_iff, le→not-ltb, All, Bool-cases,
  Bool-false, Option-cases,
}
use mathlib.Core.Path.{ap₂}
use tpm_attest.Server.Database.{
  Baseline, select_active, later_of, set_active, deactivate_all, max_id, is_latest, activate_if,
  activate_latest,
}

-- the ids fall from the newest row on, all below the next one
abbrev pub Descends : ℕ → List Baseline → Type 0
Descends n [] = Unit
Descends n (b ∷ rows) = (b.id < n) × Descends b.id rows

abbrev pub IsInactive : Baseline → Type 0
IsInactive b = b.is_active ≡ false

-- behind the newest row none is active
abbrev pub OnlyNewest : List Baseline → Type 0
OnlyNewest [] = Unit
OnlyNewest (b ∷ rows) = All IsInactive rows

abbrev pub HasRoot : Baseline → Type 0
HasRoot b = b.ima_root ≢ []

pub record IsTable (n : ℕ) (rows : List Baseline) : Type 0 where
  pub descends : Descends n rows
  pub only_newest : OnlyNewest rows
  pub has_roots : All HasRoot rows

set_active_same : (b : Baseline) → set_active b.is_active b ≡ b
set_active_same b = refl

set_active-eq : (b : Baseline) (a : Bool) → b.is_active ≡ a → set_active a b ≡ b
set_active-eq b a e = ap (λ (x : Bool). set_active x b) (sym e)

pub deactivate_inactive : (rows : List Baseline) → All IsInactive rows → deactivate_all rows ≡ rows
unfolding deactivate_all
deactivate_inactive [] h = refl
deactivate_inactive (b ∷ rows) h =
    ap₂ ◌∷◌ (set_active-eq b false h.0) (deactivate_inactive rows h.1)

pub select_active-inactive :
    (rows : List Baseline) → All IsInactive rows → select_active rows ≡ none
unfolding select_active
select_active-inactive [] h = refl
select_active-inactive (b ∷ rows) h = rw (h.0, select_active-inactive rows h.1)

pub deactivate_all-All : (rows : List Baseline) → All IsInactive (deactivate_all rows)
unfolding deactivate_all
deactivate_all-All [] = tt
deactivate_all-All (b ∷ rows) = (refl, deactivate_all-All rows)

max_id-lt :
    (root : Text) (n : ℕ) (rows : List Baseline) (i : ℕ)
    → Descends n rows
    → max_id root rows ≡ some i
    → i < n
unfolding max_id
max_id-lt root n [] i d h = absurd (cc)
max_id-lt root n (b ∷ rows) i d h = elim (Bool-cases (text_eq b.ima_root root)) [
  | inl e ↦ elim (Option-cases (max_id root rows)) [
    | inl q ↦ let h' = rw (e, q) at h in let p : b.id ≡ i = (cc) in omega (arith, p, d.0)
    | inr (j, q) ↦
        let below = max_id-lt root b.id rows j d.1 q in
        let h' = rw (e, q, le→not-ltb b.id j (omega (arith, below))) at h in
        let p : b.id ≡ i = (cc) in omega (arith, p, d.0)
  ]
  | inr e ↦
      let h' = rw e at h in
      let below = max_id-lt root b.id rows i d.1 h' in omega (arith, below, d.0)
]

-- the newest row of all has the greatest id of its root
max_id-newest :
    (b : Baseline) (rows : List Baseline)
    → Descends b.id rows
    → max_id b.ima_root (b ∷ rows) ≡ some b.id
unfolding max_id
max_id-newest b rows d = elim (Option-cases (max_id b.ima_root rows)) [
  | inl q ↦ rw (text_eq_refl b.ima_root, q) refl
  | inr (j, q) ↦
      let below = max_id-lt b.ima_root b.id rows j d q in
      rw (text_eq_refl b.ima_root, q, le→not-ltb b.id j (omega (arith, below))) refl
]

head_returns :
    (b : Baseline)
    → b.is_active ≡ true
    → activate_if (is_latest b.ima_root (some b.id)) (set_active false b) ≡ b
unfolding activate_if is_latest
head_returns b a = rw (text_eq_refl b.ima_root, (==_iff b.id b.id).1 refl) (set_active-eq b true a)

older_stays :
    (root : Text) (i : ℕ) (b : Baseline) → b.id < i → activate_if (is_latest root (some i)) b ≡ b
unfolding activate_if is_latest
older_stays root i b lt =
    let e : (b.id == i) ≡ false =
      Bool-false (b.id == i) (λ p. absurd (omega (arith, lt, (==_iff b.id i).0 p))) in
    elim (Bool-cases (text_eq b.ima_root root)) [ inl q ↦ rw (q, e) refl | inr q ↦ rw q refl ]

-- rows below the latest one stay
activate_below :
    (root : Text) (i n : ℕ) (rows : List Baseline)
    → n ≤ i
    → Descends n rows
    → map (activate_if (is_latest root (some i))) rows ≡ rows
unfolding activate_if is_latest
activate_below root i n [] le d = refl
activate_below root i n (b ∷ rows) le d =
    ap₂ ◌∷◌ (older_stays root i b (omega (arith, d.0)))
      (activate_below root i b.id rows (omega (arith, d.0)) d.1)

activate_latest_head :
    (b : Baseline) (rows : List Baseline)
    → b.is_active ≡ true
    → Descends b.id rows
    → activate_latest b.ima_root (set_active false b ∷ rows) ≡ b ∷ rows
unfolding activate_latest
activate_latest_head b rows a d =
    let newest : max_id b.ima_root (set_active false b ∷ rows) ≡ some b.id =
      max_id-newest (set_active false b) rows d in
    ap (λ (m : Option ℕ). map (activate_if (is_latest b.ima_root m)) (set_active false b ∷ rows))
      newest
    ∙ (ap₂ ◌∷◌ (head_returns b a) (activate_below b.ima_root b.id b.id rows (omega arith) d))

-- Only the head of a table can be active.
pub select_active-head :
    (c : Baseline) (rows : List Baseline) (b : Baseline)
    → All IsInactive rows
    → select_active (c ∷ rows) ≡ some b
    → (c ≡ b) × (c.is_active ≡ true)
unfolding select_active later_of
select_active-head c rows b h e = elim (Bool-cases c.is_active) [
  | inl a ↦ let e' = rw (select_active-inactive rows h, a) at e in ((cc), a)
  | inr a ↦ let e' = rw (select_active-inactive rows h, a) at e in absurd (cc)
]

select_active-nil : (b : Baseline) → select_active [] ≢ some b
unfolding select_active
select_active-nil b h = cc

restore_from :
    (n : ℕ) (c : Baseline) (rows : List Baseline) (b : Baseline)
    → c ≡ b
    → c.is_active ≡ true
    → IsTable n (c ∷ rows)
    → activate_latest b.ima_root (deactivate_all (c ∷ rows)) ≡ c ∷ rows
unfolding deactivate_all
restore_from n c rows b e a t =
    rw (sym e, deactivate_inactive rows t.only_newest) (activate_latest_head c rows a t.descends.1)

-- Deactivating all rows and activating the latest with the root of the active one changes nothing.
pub restore-IsTable :
    (n : ℕ) (rows : List Baseline) (b : Baseline)
    → IsTable n rows
    → select_active rows ≡ some b
    → activate_latest b.ima_root (deactivate_all rows) ≡ rows
unfolding deactivate_all
restore-IsTable n [] b t h = absurd (select_active-nil b h)
restore-IsTable n (c ∷ rows) b t h =
    let (e, a) = select_active-head c rows b t.only_newest h in restore_from n c rows b e a t
