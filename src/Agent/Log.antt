-- ===== src/Agent/Log.antt =====
-- Reading the IMA log: the parser and the reading functions of agent/ima_reader.py. What `sudo cat`
-- prints is an argument: each call of a reading function runs it once.
pub mod Parsing
pub mod Reading
use tpm_attest.Prelude.{
  ℕ, zero, suc, ◌+◌, Bool, true, false, ◌||◌, Option, none, some, List, [], ◌∷◌, map, if◌then◌else◌,
  not, Text, codes, text_eq, is_empty, length, drop, keep_if, any, Result, ok, raise, runtime_error,
  ◌>>=◌,
}
use tpm_attest.Python.Int.{ℤ, is_zero}
use tpm_attest.Python.Process.{Ran, completed}
use tpm_attest.Python.Split.{strip, split, splitlines, ends_with}

-- the entry dict
pub record Entry : Type 0 where
  pub pcr : Text
  pub template_hash : Text
  pub template_name : Text
  pub file_hash : Text
  pub filename : Text

-- what `subprocess.run` returns, as far as the program reads it; `Ran Completed` has its exceptions
pub record Completed : Type 0 where
  pub returncode : ℤ
  pub stdout : Text

-- what follows the run
unfoldable pub printed_lines : Completed → Result (List Text)
printed_lines result =
    if is_zero result.returncode
    then ok (keep_if (λ ln. not (is_empty (strip ln))) (splitlines result.stdout))
    else raise runtime_error

unfoldable pub read_raw_lines : Ran Completed → Result (List Text)
unfolding completed printed_lines
read_raw_lines run = do result ← completed run; printed_lines result

-- fewer than five parts are no entry; `split` never returns more
unfoldable pub entry_of : List Text → Option Entry
entry_of (pcr ∷ template_hash ∷ template_name ∷ file_hash ∷ filename ∷ rest) = some (record {
  pcr = pcr;
  template_hash = template_hash;
  template_name = template_name;
  file_hash = file_hash;
  filename = filename;
})
entry_of _ = none

unfoldable pub parse_line : Text → Option Entry
unfolding entry_of
parse_line line = entry_of (split 32 4 (strip line))

-- the loop of `read_ima_log`
unfoldable pub parse_lines : List Text → List Entry
parse_lines [] = []
parse_lines (line ∷ lines) =
    let rest = parse_lines lines in elim (parse_line line) [ none ↦ rest | some e ↦ e ∷ rest ]

unfoldable pub read_ima_log : ℕ → Ran Completed → Result (List Entry)
read_ima_log start_line result = do
  all_lines ← read_raw_lines result
  ok (parse_lines (drop start_line all_lines))

-- the `sum` of `read_ima_log_line_count`
unfoldable pub count_lines : List Text → ℕ
count_lines [] = 0
count_lines (line ∷ lines) =
    let rest = count_lines lines in elim (parse_line line) [ none ↦ rest | some e ↦ suc rest ]

unfoldable pub read_ima_log_line_count : Ran Completed → Result ℕ
read_ima_log_line_count result = do all_lines ← read_raw_lines result; ok (count_lines all_lines)

pub record Summary : Type 0 where
  pub total_entries : ℕ
  pub unique_files : ℕ
  pub has_boot_aggregate : Bool
  pub modules_measured : ℕ

-- `len(set(names))`
unfoldable pub count_distinct : List Text → ℕ
count_distinct [] = 0
count_distinct (x ∷ xs) =
    let rest = count_distinct xs in if any (text_eq x) xs then rest else suc rest

abbrev pub boot_aggregate : Text
boot_aggregate = codes "boot_aggregate"

unfoldable pub is_module : Text → Bool
is_module f = ends_with f (codes ".ko") || ends_with f (codes ".ko.zst")

unfoldable pub summarize : List Text → Summary
unfolding count_distinct is_module
summarize filenames = record {
  total_entries = length filenames;
  unique_files = count_distinct filenames;
  has_boot_aggregate = any (λ f. text_eq f boot_aggregate) filenames;
  modules_measured = length (keep_if is_module filenames);
}

unfoldable pub read_ima_summary : Ran Completed → Result Summary
read_ima_summary result = do
  entries ← read_ima_log 0 result
  ok (summarize (map (λ e. e.filename) entries))
