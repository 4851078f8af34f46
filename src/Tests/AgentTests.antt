-- ===== src/Tests/AgentTests.antt =====
-- Runs of the functions of agent/ima_reader.py on small logs.
use tpm_attest.Prelude.{
  ◌≡◌, ◌≢◌, ◌⊎◌, ◌++◌, ℕ, refl, true, some, List, [], ◌∷◌, arith, codes, length, All, text_eq, ok,
  ◌>>=◌,
}
use tpm_attest.Python.Int.{pos}
use tpm_attest.Python.Split.{is_space, rstrip, strip, split, splitlines, ends_with}
use tpm_attest.Tests.{toy_sha, toy_sha-IsDigest, boot_entry, init_entry, Lacks-all, points_if}
use tpm_attest.Python.Process.{Ran, finished}
use tpm_attest.Agent.Log.{
  Entry, Completed, read_raw_lines, parse_line, parse_lines, read_ima_log, read_ima_log_line_count,
  summarize, read_ima_summary,
}
use tpm_attest.Agent.Log.Parsing.{format_line, IsPrintable, parse_line-format_line}
use tpm_attest.Agent.Log.Reading.{Describes, line_count-read, read_ima_summary-Describes}
use tpm_attest.Agent.Tree.{
  Tree, Proof, leaf_hash, leaf_hashes, build_ima_merkle_tree, build_incremental_merkle_tree,
  get_ima_proof,
}
use tpm_attest.Agent.Tree.PreImage.{IsTemplate, SameMeasurement}
use tpm_attest.Agent.Tree.Leaves.{ShaCollision, leaf_input, leaf_hash-index, leaf_hash-binding}
use tpm_attest.Agent.Tree.Builds.{
  IsTreeOver, build_ima_merkle_tree-IsTreeOver, build_incremental_merkle_tree-append,
}
use tpm_attest.Agent.Tree.Proofs.{Proves, get_ima_proof-Proves}
use tpm_attest.Agent.Tree.Binding.{SameLog, hash_inputs, build_ima_merkle_tree-binding}

abbrev log : List Entry
log = boot_entry ∷ init_entry ∷ init_entry ∷ []

log-not_empty : log ≢ []
log-not_empty e = absurd (cc)

build_ima_merkle_tree-IsTreeOver_example :
    (tree : Tree) × (build_ima_merkle_tree toy_sha log ≡ ok tree)
    × IsTreeOver toy_sha (leaf_hashes toy_sha 0 log) tree
build_ima_merkle_tree-IsTreeOver_example =
    build_ima_merkle_tree-IsTreeOver toy_sha log log-not_empty

build_incremental_merkle_tree-append_example :
    build_incremental_merkle_tree toy_sha (leaf_hashes toy_sha 0 log) (init_entry ∷ []) 3 ≡ (do
      tree ← build_ima_merkle_tree toy_sha (log ++ init_entry ∷ [])
      ok (leaf_hashes toy_sha 0 (log ++ init_entry ∷ []), tree))
build_incremental_merkle_tree-append_example =
    build_incremental_merkle_tree-append toy_sha log (init_entry ∷ [])

get_ima_proof-Proves_example :
    (p : Proof) × (get_ima_proof toy_sha log (pos 2) ≡ ok p) × Proves toy_sha log 2 init_entry p
get_ima_proof-Proves_example = get_ima_proof-Proves toy_sha log 2 refl

boot_entry-IsTemplate : IsTemplate boot_entry
boot_entry-IsTemplate = record {
  algorithm = codes "sha256";
  digest = codes "bb";
  file_hash = refl;
  pcr_lacks = Lacks-all 58 boot_entry.pcr refl;
  template_hash_lacks = Lacks-all 58 boot_entry.template_hash refl;
  algorithm_lacks = Lacks-all 58 (codes "sha256") refl;
  digest_lacks = Lacks-all 58 (codes "bb") refl;
  pcr_points = points_if boot_entry.pcr refl;
  template_hash_points = points_if boot_entry.template_hash refl;
  file_hash_points = points_if boot_entry.file_hash refl;
  filename_points = points_if boot_entry.filename refl;
}

init_entry-IsTemplate : IsTemplate init_entry
init_entry-IsTemplate = record {
  algorithm = codes "sha256";
  digest = codes "dd";
  file_hash = refl;
  pcr_lacks = Lacks-all 58 init_entry.pcr refl;
  template_hash_lacks = Lacks-all 58 init_entry.template_hash refl;
  algorithm_lacks = Lacks-all 58 (codes "sha256") refl;
  digest_lacks = Lacks-all 58 (codes "dd") refl;
  pcr_points = points_if init_entry.pcr refl;
  template_hash_points = points_if init_entry.template_hash refl;
  file_hash_points = points_if init_entry.file_hash refl;
  filename_points = points_if init_entry.filename refl;
}

log-IsTemplate : All IsTemplate log
log-IsTemplate = (boot_entry-IsTemplate, (init_entry-IsTemplate, (init_entry-IsTemplate, tt)))

abbrev log_tree : Tree
log_tree = (build_ima_merkle_tree-IsTreeOver toy_sha log log-not_empty).0

log_tree-built : build_ima_merkle_tree toy_sha log ≡ ok log_tree
log_tree-built = (build_ima_merkle_tree-IsTreeOver toy_sha log log-not_empty).1

build_ima_merkle_tree-binding_example :
    SameLog log log ⊎ ShaCollision toy_sha (hash_inputs toy_sha log) (hash_inputs toy_sha log)
build_ima_merkle_tree-binding_example =
    build_ima_merkle_tree-binding toy_sha toy_sha-IsDigest log log {t = log_tree} {u = log_tree}
      log_tree-built log_tree-built refl refl log-IsTemplate log-IsTemplate

leaf_hash-binding_example :
    SameMeasurement init_entry init_entry
    ⊎ ShaCollision toy_sha (leaf_input init_entry 1 ∷ []) (leaf_input init_entry 1 ∷ [])
leaf_hash-binding_example =
    leaf_hash-binding toy_sha init_entry init_entry 1 1 init_entry-IsTemplate init_entry-IsTemplate
      refl

-- a digest that forgets its input
abbrev zero_sha : List ℕ → List ℕ
zero_sha bs = []

one_two : ◌≢◌ {A = ℕ} 1 2
one_two e = absurd (omega (arith, e))

zero_sha-meets : leaf_hash zero_sha init_entry 1 ≡ leaf_hash zero_sha init_entry 2
unfolding leaf_hash
zero_sha-meets = refl

leaf_hash-index_example :
    ShaCollision zero_sha (leaf_input init_entry 1 ∷ []) (leaf_input init_entry 2 ∷ [])
leaf_hash-index_example = leaf_hash-index zero_sha init_entry init_entry 1 2 one_two zero_sha-meets

init_entry-IsPrintable : IsPrintable init_entry
unfolding is_space rstrip
init_entry-IsPrintable = record {
  pcr = Lacks-all 32 init_entry.pcr refl;
  template_hash = Lacks-all 32 init_entry.template_hash refl;
  template_name = Lacks-all 32 init_entry.template_name refl;
  file_hash = Lacks-all 32 init_entry.file_hash refl;
  start = refl;
  end = ((λ e. absurd (cc)), refl);
}

parse_line-format_line_example :
    parse_line (codes "10 cc ima-ng sha256:dd /opt/my init") ≡ some init_entry
parse_line-format_line_example = parse_line-format_line init_entry init_entry-IsPrintable

-- what `sudo cat` prints, with a line that is no entry
abbrev printed : Ran Completed
printed = finished (record {
  returncode = pos 0;
  stdout =
      format_line boot_entry ++ 10 ∷ (codes "garbage" ++ 10 ∷ (format_line init_entry ++ 10 ∷ []));
})

line_count-read_example :
    read_ima_log_line_count printed ≡ (do entries ← read_ima_log 0 printed; ok (length entries))
line_count-read_example = line_count-read printed

summary_t :
    read_ima_summary printed
    ≡ ok (record {
      total_entries = 2;
      unique_files = 2;
      has_boot_aggregate = true;
      modules_measured = 0;
    })
unfolding read_ima_summary read_ima_log read_raw_lines parse_lines parse_line summarize splitlines
    strip split ends_with text_eq
summary_t = refl

read_ima_summary-Describes_example :
    (entries : List Entry) × (read_ima_log 0 printed ≡ ok entries)
    × Describes entries (record {
      total_entries = 2;
      unique_files = 2;
      has_boot_aggregate = true;
      modules_measured = 0;
    })
read_ima_summary-Describes_example = read_ima_summary-Describes printed summary_t
