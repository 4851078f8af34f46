-- ===== src/Agent/Pcr/Bank.antt =====
-- What `read_pcrs` returns (agent/pcr_reader.py).
use tpm_attest.Prelude.{
  ℕ, ◌≡◌, ◌≢◌, refl, inl, inr, Bool, true, false, Option, none, some, List, [], ◌∷◌, arith, ◌==◌,
  ==_iff, Bool-cases, &&-eq-true, all, All, Text, ok, raise, runtime_error, value_error, any,
  ok-injective, if◌then◌else◌, subst,
}
use tpm_attest.Python.Int.{is_zero}
use tpm_attest.Python.Process.{Ran, not_started, not_text, finished}
use tpm_attest.Python.Split.{splitlines}
use tpm_attest.Python.Unicode.{Unicode}
use tpm_attest.Agent.Log.{Completed}
use tpm_attest.Agent.Pcr.{
  Pcrs, pcr_indices, step, match_line, put, has_key, is_wanted, collect, read_pcrs, scan_pcrs,
  has_long_index,
}
use tpm_attest.Agent.Pcr.Digest.{IsDigestText, match_line-IsDigestText}

-- no index twice
abbrev pub Distinct : Pcrs → Type 0
Distinct [] = Unit
Distinct (p ∷ m) = (has_key p.0 m ≡ false) × Distinct m

-- every row is for an index that was asked for
abbrev pub AllWanted : Pcrs → Type 0
AllWanted m = All (λ p. (is_wanted p.0 ≡ true) × IsDigestText p.1) m

pub record IsBank (pcrs : Pcrs) : Type 0 where
  pub covers : All (λ i. has_key i pcrs ≡ true) pcr_indices
  pub distinct : Distinct pcrs
  pub wanted : AllWanted pcrs

has_key-put :
    (i k : ℕ) (d : Text) (m : Pcrs) → has_key k m ≡ false → k ≢ i → has_key k (put i d m) ≡ false
unfolding put
has_key-put i k d [] h ne = ground (arith, ==_iff i k)
has_key-put i k d ((j, e) ∷ m) h ne = ground (arith, ==_iff i k, ==_iff j i, has_key-put i k d m)

put-Distinct : (i : ℕ) (d : Text) (m : Pcrs) → Distinct m → Distinct (put i d m)
unfolding put
put-Distinct i d [] h = (refl, tt)
put-Distinct i d ((j, e) ∷ m) h = elim (Bool-cases (j == i)) [
  | inl q ↦ rw q (let same : j ≡ i = (==_iff j i).0 q in (rw (← same) h.0, h.1))
  | inr q ↦
      rw q
        (has_key-put i j d m h.0 (λ e'. absurd (cc ((==_iff j i).1 e', q))), put-Distinct i d m h.1)
]

put-AllWanted :
    (i : ℕ) (d : Text) (m : Pcrs)
    → is_wanted i ≡ true
    → IsDigestText d
    → AllWanted m
    → AllWanted (put i d m)
unfolding put
put-AllWanted i d [] w t h = ((w, t), tt)
put-AllWanted i d ((j, e) ∷ m) w t h = elim (Bool-cases (j == i)) [
  | inl q ↦ rw q ((w, t), h.1)
  | inr q ↦ rw q (h.0, put-AllWanted i d m w t h.1)
]

module _ (u : Unicode) where
  -- what every round of the loop keeps
  IsPartial : Pcrs → Type 0
  IsPartial pcrs = Distinct pcrs × AllWanted pcrs

  step-IsPartial :
      (found : Option (ℕ × Text)) (pcrs : Pcrs)
      → ((i : ℕ) (d : Text) → found ≡ some (i, d) → IsDigestText d)
      → IsPartial pcrs
      → IsPartial (step found pcrs)
  unfolding IsPartial step
  step-IsPartial none pcrs f h = h
  step-IsPartial (some (i, d)) pcrs f h = elim (Bool-cases (is_wanted i)) [
    | inl e ↦ rw e (put-Distinct i d pcrs h.0, put-AllWanted i d pcrs e (f i d refl) h.1)
    | inr e ↦ rw e h
  ]

  collect-IsPartial :
      (lines : List Text) (pcrs : Pcrs) → IsPartial pcrs → IsPartial (collect u lines pcrs)
  unfolding collect
  collect-IsPartial [] pcrs h = h
  collect-IsPartial (line ∷ lines) pcrs h =
      collect-IsPartial lines _
        (step-IsPartial (match_line u line) pcrs (match_line-IsDigestText u line) h)

  all_keys :
      (pcrs : Pcrs) (is : List ℕ)
      → all (λ i. has_key i pcrs) is ≡ true
      → All (λ i. has_key i pcrs ≡ true) is
  all_keys pcrs [] h = tt
  all_keys pcrs (i ∷ is) h = let (a, b) = &&-eq-true (has_key i pcrs) _ h in (a, all_keys pcrs is b)

  judge-IsBank :
      (found : Pcrs) (ran long complete : Bool) {pcrs : Pcrs}
      → all (λ i. has_key i found) pcr_indices ≡ complete
      → IsPartial found
      → (if ran
          then (if long
              then raise value_error
              else (if complete then ok found else raise runtime_error))
          else raise runtime_error)
        ≡ ok pcrs
      → IsBank pcrs
  unfolding IsPartial
  judge-IsBank found true false true e p h =
      subst IsBank (ok-injective h)
        (record { covers = all_keys found pcr_indices e; distinct = p.0; wanted = p.1 })
  judge-IsBank found true false false e p h = absurd (cc)
  judge-IsBank found true true complete e p h = absurd (cc)
  judge-IsBank found false long complete e p h = absurd (cc)

  scan_pcrs-IsBank : (result : Completed) {pcrs : Pcrs} → scan_pcrs u result ≡ ok pcrs → IsBank pcrs
  unfolding scan_pcrs IsPartial
  scan_pcrs-IsBank result h =
      judge-IsBank (collect u (splitlines result.stdout) []) (is_zero result.returncode)
        (any (has_long_index u) (splitlines result.stdout)) _ refl
        (collect-IsPartial (splitlines result.stdout) [] (tt, tt)) h

  -- If the PCRs are read, the dict has a digest for each of the six indices, and for no other, each
  -- once, and every digest is "0x" with hexadecimal digits in upper case behind it, one at least.
  pub read_pcrs-IsBank :
      (run : Ran Completed) {pcrs : Pcrs} → read_pcrs u run ≡ ok pcrs → IsBank pcrs
  unfolding read_pcrs
  read_pcrs-IsBank (finished result) h = scan_pcrs-IsBank result h
  read_pcrs-IsBank not_started h = absurd (cc)
  read_pcrs-IsBank not_text h = absurd (cc)
