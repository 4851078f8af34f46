-- ===== src/Agent/Report/Raises.antt =====
-- Which exceptions the parts of `generate_report` raise (agent/report.py).
use tpm_attest.Prelude.{
  ℕ, ◌≡◌, refl, inl, inr, Bool, true, false, Bool-cases, Option, none, some, List, [], ◌∷◌, Text,
  Bytes, Exception, Result, ok, raise, runtime_error, os_error, value_error, ◌>>=◌, subst,
  if◌then◌else◌, any,
}
use tpm_attest.Python.Int.{is_zero}
use tpm_attest.Python.Process.{
  Ran, not_started, not_text, finished, completed, make_tempdir, is_argument, check_argument,
}
use tpm_attest.Python.Split.{splitlines}
use tpm_attest.Python.Unicode.{Unicode}
use tpm_attest.Agent.Log.{
  Completed, Entry, printed_lines, read_raw_lines, read_ima_log, read_ima_summary,
}
use tpm_attest.Agent.Tree.{build_ima_merkle_tree}
use tpm_attest.Agent.Tree.Builds.{build_ima_merkle_tree-IsTreeOver, build_ima_merkle_tree-nil}
use tpm_attest.Agent.Pcr.{Pcrs, has_long_index, scan_pcrs, read_pcrs}
use tpm_attest.Agent.Report.{Host, read_ek_cert, encode_quote, read_quote, run_tpm_quote}

-- every exception of a call has the property
abbrev pub Raises {ℓ} : {A : Type ℓ} → (Exception → Type 0) → Result A → Type ℓ
Raises P m = (e : Exception) → m ≡ raise e → P e

pub Raises-bind {ℓ κ} :
    {A : Type ℓ} {B : Type κ} (P : Exception → Type 0) (m : Result A) (f : A → Result B)
    → Raises P m
    → ((a : A) → Raises P (f a))
    → Raises P (m >>= f)
Raises-bind P (raise x) f h k e q = h e (cc)
Raises-bind P (ok a) f h k e q = k a e q

Raises-if {ℓ} :
    {A : Type ℓ} (P : Exception → Type 0) (test : Bool) (a b : Result A)
    → Raises P a
    → Raises P b
    → Raises P (if test then a else b)
Raises-if P true a b h k = h
Raises-if P false a b h k = k

pub Raises-ok {ℓ} :
    {A : Type ℓ} (P : Exception → Type 0) (m : Result A) {a : A} → m ≡ ok a → Raises P m
Raises-ok P m h e q = absurd (cc)

pub Raises-raise {ℓ} :
    (A : Type ℓ) (P : Exception → Type 0) (x : Exception) → P x → Raises {A = A} P (raise x)
Raises-raise A P x h e q = let same : x ≡ e = (cc) in subst P same h

-- what a run may raise has the property, and so has the RuntimeError that answers a failed one
abbrev pub Allows : {A : Type 0} → (Exception → Type 0) → Ran A → Type 0
Allows P run = P runtime_error × (run ≡ not_started → P os_error) × (run ≡ not_text → P value_error)

completed-Raises :
    {A : Type 0} (P : Exception → Type 0) (run : Ran A) → Allows P run → Raises P (completed run)
unfolding completed
completed-Raises P not_started h = Raises-raise _ P os_error (h.1 refl)
completed-Raises P not_text h = Raises-raise _ P value_error (h.2 refl)
completed-Raises P (finished result) h = Raises-ok P _ refl

pub lines-Raises :
    (P : Exception → Type 0) (run : Ran Completed) → Allows P run → Raises P (read_raw_lines run)
unfolding read_raw_lines printed_lines
lines-Raises P run h = Raises-bind P (completed run) _ (completed-Raises P run h) (λ result.
    Raises-if P (is_zero result.returncode) _ _ (Raises-ok P _ refl)
      (Raises-raise _ P runtime_error h.0))

pub log-Raises :
    (P : Exception → Type 0) (n : ℕ) (run : Ran Completed)
    → Allows P run
    → Raises P (read_ima_log n run)
unfolding read_ima_log
log-Raises P n run h =
    Raises-bind P (read_raw_lines run) _ (lines-Raises P run h) (λ lines. Raises-ok P _ refl)

pub summary-Raises :
    (P : Exception → Type 0) (run : Ran Completed) → Allows P run → Raises P (read_ima_summary run)
unfolding read_ima_summary
summary-Raises P run h =
    Raises-bind P (read_ima_log 0 run) _ (log-Raises P 0 run h) (λ entries. Raises-ok P _ refl)

-- tpm2_pcrread printed an index that `int` refuses to read
abbrev pub HasLongIndex : Unicode → Ran Completed → Type 0
HasLongIndex u run =
    (result : Completed) × (run ≡ finished result)
    × (any (has_long_index u) (splitlines result.stdout) ≡ true)

scan-Raises :
    (P : Exception → Type 0) (u : Unicode) (result : Completed)
    → P runtime_error
    → (any (has_long_index u) (splitlines result.stdout) ≡ true → P value_error)
    → Raises P (scan_pcrs u result)
unfolding scan_pcrs
scan-Raises P u result h long =
    let fails = Raises-raise Pcrs P runtime_error h in
    Raises-if P (is_zero result.returncode) _ _
      (elim (Bool-cases (any (has_long_index u) (splitlines result.stdout))) [
        | inl e ↦ λ x q. Raises-raise Pcrs P value_error (long e) x (cc (rw e at q))
        | inr e ↦ λ x q. Raises-if P _ _ _ (Raises-ok P _ refl) fails x (rw e at q)
      ])
      fails

pub pcrs-Raises :
    (P : Exception → Type 0) (u : Unicode) (run : Ran Completed)
    → Allows P run
    → (HasLongIndex u run → P value_error)
    → Raises P (read_pcrs u run)
unfolding read_pcrs completed
pcrs-Raises P u not_started h long = Raises-raise _ P os_error (h.1 refl)
pcrs-Raises P u not_text h long = Raises-raise _ P value_error (h.2 refl)
pcrs-Raises P u (finished result) h long = scan-Raises P u result h.0 (λ e. long (result, refl, e))

pub tree-Raises :
    (P : Exception → Type 0) (sha256 : Bytes → Bytes) (entries : List Entry)
    → Raises P (build_ima_merkle_tree sha256 entries)
tree-Raises P sha256 [] = Raises-ok P _ (build_ima_merkle_tree-nil sha256)
tree-Raises P sha256 (e ∷ entries) =
    Raises-ok P _ (build_ima_merkle_tree-IsTreeOver sha256 (e ∷ entries) (λ p. absurd (cc))).1

pub tempdir-Raises :
    (P : Exception → Type 0) (makes : Bool)
    → (makes ≡ false → P os_error)
    → Raises P (make_tempdir makes)
unfolding make_tempdir
tempdir-Raises P true h = Raises-ok P _ refl
tempdir-Raises P false h = Raises-raise _ P os_error (h refl)

argument-Raises :
    (P : Exception → Type 0) (text : Text)
    → (is_argument text ≡ false → P value_error)
    → Raises P (check_argument text)
unfolding check_argument
argument-Raises P text h = elim (Bool-cases (is_argument text)) [
  | inl e ↦ Raises-ok P _ (rw e refl)
  | inr e ↦ λ x q. Raises-raise (Unit {0}) P value_error (h e) x (cc (rw e at q))
]

encode_quote-Raises :
    (P : Exception → Type 0) (msg sig : Option Bytes)
    → P runtime_error
    → Raises P (encode_quote msg sig)
unfolding encode_quote
encode_quote-Raises P (some m) (some s) h = Raises-ok P _ refl
encode_quote-Raises P (some m) none h = Raises-raise _ P runtime_error h
encode_quote-Raises P none sig h = Raises-raise _ P runtime_error h

pub quote-Raises :
    (P : Exception → Type 0) (host : Host) (nonce : Text)
    → (host.quote_tempdir ≡ false → P os_error)
    → (is_argument nonce ≡ false → P value_error)
    → Allows P (host.tpm2_quote nonce)
    → Raises P (run_tpm_quote host nonce)
unfolding run_tpm_quote read_quote
quote-Raises P host nonce dir argument h =
    Raises-bind P (make_tempdir host.quote_tempdir) _ (tempdir-Raises P host.quote_tempdir dir)
      (λ made. Raises-bind P (check_argument nonce) _ (argument-Raises P nonce argument) (λ passed.
        Raises-bind P (completed (host.tpm2_quote nonce)) _ (completed-Raises P _ h) (λ run.
          Raises-if P _ _ _ (encode_quote-Raises P _ _ h.0) (Raises-raise _ P runtime_error h.0))))

pub ek_cert-Raises :
    (P : Exception → Type 0) (host : Host)
    → (host.ek_tempdir ≡ false → P os_error)
    → Raises P (read_ek_cert host)
unfolding read_ek_cert
ek_cert-Raises P host dir =
    Raises-bind P (make_tempdir host.ek_tempdir) _ (tempdir-Raises P host.ek_tempdir dir)
      (λ made. Raises-ok P _ refl)
