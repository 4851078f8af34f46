-- ===== src/Agent/Log/Parsing.antt =====
-- What `_parse_line` accepts (agent/ima_reader.py).
use tpm_attest.Prelude.{◌≡◌, some, ◌∷◌, ◌++◌, Text}
use tpm_attest.Python.Split.Laws.{
  Lacks, HasEdges, split-cons, split-zero, strip-HasEdges, lstrip-append, StartsInk, EndsInk,
  EndsInk-join,
}
use tpm_attest.Agent.Log.{Entry, parse_line}

-- The line that the kernel writes for an entry.
abbrev pub format_line : Entry → Text
format_line e =
    e.pcr
    ++ 32 ∷ (e.template_hash ++ 32 ∷ (e.template_name ++ 32 ∷ (e.file_hash ++ 32 ∷ e.filename)))

-- The fields before the last hold no blank, the first starts and the last ends with no white space.
pub record IsPrintable (e : Entry) : Type 0 where
  pub pcr : Lacks 32 e.pcr
  pub template_hash : Lacks 32 e.template_hash
  pub template_name : Lacks 32 e.template_name
  pub file_hash : Lacks 32 e.file_hash
  pub start : StartsInk e.pcr
  pub end : EndsInk e.filename

format_line-edges : (e : Entry) → IsPrintable e → HasEdges (format_line e)
format_line-edges e h = (
  lstrip-append e.pcr _ h.start,
  (EndsInk-join e.pcr 32 _ (
      EndsInk-join e.template_hash 32 _
        (EndsInk-join e.template_name 32 _ (EndsInk-join e.file_hash 32 e.filename h.end)))).1,
)

-- A line that the kernel writes for a printable entry is parsed to that entry; a file name may
-- hold blanks.
pub parse_line-format_line : (e : Entry) → IsPrintable e → parse_line (format_line e) ≡ some e
unfolding parse_line
parse_line-format_line e h = rw (
  strip-HasEdges (format_line e) (format_line-edges e h),
  split-cons 32 3 e.pcr _ h.pcr,
  split-cons 32 2 e.template_hash _ h.template_hash,
  split-cons 32 1 e.template_name _ h.template_name,
  split-cons 32 0 e.file_hash e.filename h.file_hash,
  split-zero,
)
