-- ===== src/Agent/Pcr/Digest.antt =====
-- What the pattern of agent/pcr_reader.py takes out of a line: a digest in upper case.
use tpm_attest.Prelude.{
  ℕ, ◌≡◌, ◌≢◌, ◌⊎◌, refl, inl, inr, Bool, true, false, not, ◌&&◌, Option, none, some, [], ◌∷◌, map,
  arith, ◌==◌, ==_iff, between, Bool-cases, &&-eq-true, is_empty, All, Text, if◌then◌else◌, subst,
}
use tpm_attest.Python.Split.{is_space, lstrip}
use tpm_attest.Python.Unicode.{Unicode}
use tpm_attest.Agent.Pcr.{
  is_hex, upper_point, replace_prefix, span, match_digest, normalize, match_colon, is_digit,
  value_of, match_index, match_line,
}

-- "0x" and at least one digit in upper case
abbrev pub IsUpperHex : ℕ → Type 0
IsUpperHex c = (between 48 57 c ≡ true) ⊎ (between 65 70 c ≡ true)

abbrev pub IsDigestText : Text → Type 0
IsDigestText s = (digits : Text) × (s ≡ 48 ∷ 120 ∷ digits) × (digits ≢ []) × All IsUpperHex digits

span-All : (p : ℕ → Bool) (s : Text) → All (λ c. p c ≡ true) (span p s).0
unfolding span
span-All p [] = tt
span-All p (c ∷ s) = elim (Bool-cases (p c)) [ inl e ↦ rw e (e, span-All p s) | inr e ↦ rw e tt ]

upper_point-IsUpperHex : (c : ℕ) → is_hex c ≡ true → IsUpperHex (upper_point c)
upper_point-IsUpperHex c h = elim (Bool-cases (between 97 122 c)) [
  | inl e ↦ rw e (inr (ground arith))
  | inr e ↦ elim (Bool-cases (between 48 57 c)) [
    | inl q ↦ rw e (inl q)
    | inr q ↦ rw e (inr (ground arith))
  ]
]

map_upper-All : (s : Text) → All (λ c. is_hex c ≡ true) s → All IsUpperHex (map upper_point s)
map_upper-All [] h = tt
map_upper-All (c ∷ s) h = (upper_point-IsUpperHex c h.0, map_upper-All s h.1)

IsUpperHex-not_x : (c : ℕ) → IsUpperHex c → (c == 88) ≡ false
IsUpperHex-not_x c (inl h) = ground arith
IsUpperHex-not_x c (inr h) = ground arith

replace_prefix-upper : (s : Text) → All IsUpperHex s → replace_prefix s ≡ s
unfolding replace_prefix
replace_prefix-upper [] h = refl
replace_prefix-upper (c ∷ []) h = refl
replace_prefix-upper (c ∷ d ∷ s) h =
    let rest = replace_prefix-upper (d ∷ s) h.1 in ground (arith, IsUpperHex-not_x d h.1.0, rest)

not_empty : {s : Text} → not (is_empty s) ≡ true → s ≢ []
not_empty {s = []} h e = absurd (cc)
not_empty {s = c ∷ s} h e = absurd (cc)

-- the outcome of `match_digest`, from its test and the digits
digest_of :
    (test : Bool) (c x : ℕ) (digits : Text) {t : Text}
    → (test ≡ true → (c ≡ 48) × (x ≡ 120) × (digits ≢ []))
    → All (λ c. is_hex c ≡ true) digits
    → (if test then some (c ∷ x ∷ digits) else none) ≡ some t
    → (ds : Text) × (t ≡ 48 ∷ 120 ∷ ds) × (ds ≢ []) × All (λ c. is_hex c ≡ true) ds
digest_of true c x digits f h e = let (p, q, ne) = f refl in (digits, (cc), ne, h)
digest_of false c x digits f h e = absurd (cc)

digest_test :
    (c x : ℕ) (digits rest : Text)
    → ((c == 48 && x == 120) && (not (is_empty digits) && is_empty rest)) ≡ true
    → (c ≡ 48) × (x ≡ 120) × (digits ≢ [])
digest_test c x digits rest h =
    let (a, b) = &&-eq-true (c == 48 && x == 120) (not (is_empty digits) && is_empty rest) h in
    let (p, q) = &&-eq-true (c == 48) (x == 120) a in
    let (ne, e) = &&-eq-true (not (is_empty digits)) (is_empty rest) b in
    ((==_iff c 48).0 p, (==_iff x 120).0 q, not_empty ne)

match_digest-IsHex :
    (s : Text) {t : Text}
    → match_digest s ≡ some t
    → (digits : Text) × (t ≡ 48 ∷ 120 ∷ digits) × (digits ≢ []) × All (λ c. is_hex c ≡ true) digits
unfolding match_digest
match_digest-IsHex [] h = absurd (cc)
match_digest-IsHex (c ∷ []) h = absurd (cc)
match_digest-IsHex (c ∷ x ∷ s) {t} h =
    digest_of _ c x (span is_hex s).0 (digest_test c x (span is_hex s).0 _) (span-All is_hex s) h

abbrev normal : Text → Text
normal s = replace_prefix (map upper_point s)

map_upper-ne-nil : (s : Text) → s ≢ [] → map upper_point s ≢ []
map_upper-ne-nil [] ne e = ne refl
map_upper-ne-nil (c ∷ s) ne e = absurd (cc)

normal-hex :
    (ds : Text) → ds ≢ [] → All (λ c. is_hex c ≡ true) ds → IsDigestText (normal (48 ∷ 120 ∷ ds))
unfolding replace_prefix
normal-hex ds ne h = (
  map upper_point ds,
  rw (replace_prefix-upper (map upper_point ds) (map_upper-All ds h)) refl,
  map_upper-ne-nil ds ne,
  map_upper-All ds h,
)

match_digest-IsDigestText :
    (s : Text) {t : Text} → match_digest s ≡ some t → IsDigestText (normal t)
match_digest-IsDigestText s h = let (ds, e, ne, a) = match_digest-IsHex s h in digest_eq ds e ne a
  where
    digest_eq :
        (ds : Text) {t : Text}
        → t ≡ 48 ∷ 120 ∷ ds
        → ds ≢ []
        → All (λ c. is_hex c ≡ true) ds
        → IsDigestText (normal t)
    digest_eq ds e ne a = rw e (normal-hex ds ne a)

normalize-IsDigestText :
    (s : Text) (n i : ℕ) (d : Text) (o : Option Text)
    → match_digest s ≡ o
    → normalize n o ≡ some (i, d)
    → IsDigestText d
unfolding normalize
normalize-IsDigestText s n i d none e h = absurd (cc)
normalize-IsDigestText s n i d (some t) e h =
    let same : normal t ≡ d = (cc) in subst IsDigestText same (match_digest-IsDigestText s e)

match_colon-IsDigestText :
    (n : ℕ) (s : Text) (i : ℕ) (d : Text) → match_colon n s ≡ some (i, d) → IsDigestText d
unfolding match_colon
match_colon-IsDigestText n [] i d h = absurd (cc)
match_colon-IsDigestText n (c ∷ s) i d h = elim (Bool-cases (c == 58)) [
  | inl e ↦ normalize-IsDigestText (lstrip s) n i d _ refl (rw e at h)
  | inr e ↦ absurd (cc (rw e at h))
]

module _ (u : Unicode) where
  match_index-IsDigestText :
      (s : Text) (i : ℕ) (d : Text) → match_index u s ≡ some (i, d) → IsDigestText d
  unfolding match_index
  match_index-IsDigestText s i d h = elim (Bool-cases (is_empty (span (is_digit u) s).0)) [
    | inl e ↦ absurd (cc (rw e at h))
    | inr e ↦
        match_colon-IsDigestText (value_of u 0 (span (is_digit u) s).0)
          (lstrip (span (is_digit u) s).1) i d (rw e at h)
  ]

  pub match_line-IsDigestText :
      (line : Text) (i : ℕ) (d : Text) → match_line u line ≡ some (i, d) → IsDigestText d
  unfolding match_line
  match_line-IsDigestText [] i d h = absurd (cc)
  match_line-IsDigestText (c ∷ s) i d h = elim (Bool-cases (is_space c)) [
    | inl e ↦ match_index-IsDigestText (lstrip s) i d (rw e at h)
    | inr e ↦ absurd (cc (rw e at h))
  ]
