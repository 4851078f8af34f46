-- ===== src/Agent/Log/Reading.antt =====
-- What the reading functions of agent/ima_reader.py return for one output of `sudo cat`.
use tpm_attest.Prelude.{
  subst, ok-injective, ◌∙◌, false, ◌⊎◌, ℕ, zero, suc, ◌≤◌, ◌≡◌, refl, ap, Bool, true, some, List,
  [], ◌∷◌, ◌++◌, map, arith, inl, inr, Text, text_eq, text_eq_iff, text_eq-false, ◌≢◌, All, length,
  length-map, keep_if, any, get_elem?, Bool-cases, drop, Result, ok, raise, ◌>>=◌,
}
use tpm_attest.Python.Process.{Ran}
use tpm_attest.Agent.Log.{
  Entry, Completed, Summary, parse_lines, read_raw_lines, read_ima_log, count_lines,
  read_ima_log_line_count, count_distinct, is_module, boot_aggregate, summarize, read_ima_summary,
}

pub count_lines-eq-length : (lines : List Text) → count_lines lines ≡ length (parse_lines lines)
unfolding count_lines parse_lines
count_lines-eq-length [] = refl
count_lines-eq-length (line ∷ lines) = ground (arith, count_lines-eq-length lines)

count_entries :
    (r : Result (List Text))
    → (do all_lines ← r; ok (count_lines all_lines))
      ≡ (do entries ← (do all_lines ← r; ok (parse_lines (drop 0 all_lines))); ok (length entries))
count_entries (ok lines) = ap ok (count_lines-eq-length lines)
count_entries (raise e) = refl

-- The count of lines is the number of entries that a full read returns, and fails with it.
pub line_count-read :
    (result : Ran Completed)
    → read_ima_log_line_count result ≡ (do entries ← read_ima_log 0 result; ok (length entries))
unfolding read_ima_log_line_count read_ima_log
line_count-read result = count_entries (read_raw_lines result)

pub parse_lines-append :
    (xs ys : List Text) → parse_lines (xs ++ ys) ≡ parse_lines xs ++ parse_lines ys
unfolding parse_lines
parse_lines-append [] ys = refl
parse_lines-append (x ∷ xs) ys = ground (arith, parse_lines-append xs ys)

pub length-parse_lines-le : (lines : List Text) → length (parse_lines lines) ≤ length lines
unfolding parse_lines
length-parse_lines-le [] = omega arith
length-parse_lines-le (x ∷ xs) = ground (arith, length-parse_lines-le xs)

count_distinct-le : (xs : List Text) → count_distinct xs ≤ length xs
unfolding count_distinct
count_distinct-le [] = omega arith
count_distinct-le (x ∷ xs) = ground (arith, count_distinct-le xs)

length-keep_if-le : (p : Text → Bool) (xs : List Text) → length (keep_if p xs) ≤ length xs
length-keep_if-le p [] = omega arith
length-keep_if-le p (x ∷ xs) = ground (arith, length-keep_if-le p xs)

any_sound :
    (p : Text → Bool) (xs : List Text)
    → any p xs ≡ true
    → (i : ℕ) × (x : Text) × (get_elem? xs i ≡ some x) × (p x ≡ true)
any_sound p [] h = absurd (cc)
any_sound p (x ∷ xs) h = elim (Bool-cases (p x)) [
  | inl e ↦ (0, x, refl, e)
  | inr e ↦ let (i, y, at, q) = any_sound p xs (rw e at h) in (suc i, y, at, q)
]

-- What a summary says of the entries that were read.
pub record Describes (entries : List Entry) (s : Summary) : Type 0 where
  pub total : s.total_entries ≡ length entries
  pub unique : s.unique_files ≤ s.total_entries
  pub modules : s.modules_measured ≤ s.total_entries
  pub boot :
      ((s.has_boot_aggregate ≡ false) × All (λ e. e.filename ≢ boot_aggregate) entries)
      ⊎ ((s.has_boot_aggregate ≡ true)
          × (i : ℕ) × (e : Entry) × (get_elem? entries i ≡ some e)
          × (e.filename ≡ boot_aggregate))

get_elem?-map_filename :
    (entries : List Entry) (i : ℕ) {f : Text}
    → get_elem? (map (λ (e : Entry). e.filename) entries) i ≡ some f
    → (e : Entry) × (get_elem? entries i ≡ some e) × (e.filename ≡ f)
get_elem?-map_filename [] i p = absurd (cc)
get_elem?-map_filename (e ∷ entries) zero p = (e, refl, cc)
get_elem?-map_filename (e ∷ entries) (suc i) p = get_elem?-map_filename entries i p

no_boot :
    (entries : List Entry)
    → any (λ f. text_eq f boot_aggregate) (map (λ (e : Entry). e.filename) entries) ≡ false
    → All (λ e. e.filename ≢ boot_aggregate) entries
no_boot [] h = tt
no_boot (e ∷ entries) h = elim (Bool-cases (text_eq e.filename boot_aggregate)) [
  | inl q ↦ absurd (cc (rw q at h))
  | inr q ↦ (text_eq-false e.filename boot_aggregate q, no_boot entries (rw q at h))
]

summarize-Describes :
    (entries : List Entry) → Describes entries (summarize (map (λ (e : Entry). e.filename) entries))
unfolding summarize
summarize-Describes entries = record {
  total = length-map (λ (e : Entry). e.filename) entries;
  unique = count_distinct-le names;
  modules = length-keep_if-le is_module names;
  boot = elim (Bool-cases (any (λ f. text_eq f boot_aggregate) names)) [
    | inr e ↦ inl (e, no_boot entries e)
    | inl e ↦
        let (i, f, at, q) = any_sound (λ f. text_eq f boot_aggregate) names e in
        let (entry, at', named) = get_elem?-map_filename entries i at in
        inr (e, i, entry, at', named ∙ (text_eq_iff f boot_aggregate).0 q)
  ];
}
  where
    names : List Text
    names = map (λ (e : Entry). e.filename) entries

read_summary :
    (r : Result (List Entry)) {s : Summary}
    → (do entries ← r; ok (summarize (map (λ (e : Entry). e.filename) entries))) ≡ ok s
    → (entries : List Entry) × (r ≡ ok entries) × Describes entries s
read_summary (raise e) p = absurd (cc)
read_summary (ok entries) {s} p =
    (entries, refl, subst (Describes entries) (ok-injective p) (summarize-Describes entries))

-- A summary describes what a full read of the same output returns: the number of entries, no more
-- different names or modules than entries, and a boot aggregate exactly if an entry has that name.
pub read_ima_summary-Describes :
    (result : Ran Completed) {s : Summary}
    → read_ima_summary result ≡ ok s
    → (entries : List Entry) × (read_ima_log 0 result ≡ ok entries) × Describes entries s
unfolding read_ima_summary
read_ima_summary-Describes result p = read_summary (read_ima_log 0 result) p
