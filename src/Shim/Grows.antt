-- ===== src/Shim/Grows.antt =====
-- The log grows while the daemon serves its connections (phase3/shim.py).
use tpm_attest.Prelude.{
  ◌≡◌, refl, sym, ap, ◌∙◌, subst, List, [], ◌∷◌, ◌++◌, append_assoc, Text, Bytes, ok,
}
use mathlib.Core.List.{append-nil}
use tpm_attest.Agent.Log.{parse_lines, read_raw_lines}
use tpm_attest.Agent.Tree.{leaf_hashes}
use tpm_attest.Shim.{LeafCache, empty_cache}
use tpm_attest.Shim.Cache.{AllEntries, Caches}
use tpm_attest.Shim.Client.{Connection}

-- A connection reads the log twice, when it has grown by `mid` and by `new`.
pub record Reads (old : List Text) (conn : Connection) (mid new : List Text) : Type 0 where
  pub counted : read_raw_lines conn.count_log ≡ ok (old ++ mid)
  pub counted_entries : AllEntries (old ++ mid)
  pub read : read_raw_lines conn.host.entries_log ≡ ok (old ++ new)
  pub read_entries : AllEntries (old ++ new)

-- the log grows from the one list of lines to the other while the connections are served
pub data Grows : List Text → List Connection → List Text → Type 0 where
  rests : (lines : List Text) → Grows lines [] lines
  grows :
      {old last : List Text} {conns : List Connection} (conn : Connection) (mid new : List Text)
      → Reads old conn mid new
      → Grows (old ++ new) conns last
      → Grows old (conn ∷ conns) last

-- the cache holds the leaves of the first lines of the log
pub record CachesPrefix (sha256 : Bytes → Bytes) (lines : List Text) (cache : LeafCache)
    : Type 0 where
  pub held : List Text
  pub rest : List Text
  pub split : lines ≡ held ++ rest
  pub caches : Caches sha256 held cache

pub CachesPrefix-more :
    (sha256 : Bytes → Bytes) (lines more : List Text) {cache : LeafCache}
    → CachesPrefix sha256 lines cache
    → CachesPrefix sha256 (lines ++ more) cache
CachesPrefix-more sha256 lines more c = record {
  held = c.held;
  rest = c.rest ++ more;
  split = ap (λ (x : List Text). x ++ more) c.split ∙ append_assoc c.held c.rest more;
  caches = c.caches;
}

pub joined :
    {sha256 : Bytes → Bytes} {lines : List Text} {cache : LeafCache}
    (c : CachesPrefix sha256 lines cache) (more : List Text)
    → lines ++ more ≡ c.held ++ (c.rest ++ more)
joined c more = ap (λ (x : List Text). x ++ more) c.split ∙ append_assoc c.held c.rest more

-- what a connection reads, split behind the lines in the cache
pub Reads-held :
    {sha256 : Bytes → Bytes} {old mid new : List Text} {conn : Connection} {cache : LeafCache}
    → Reads old conn mid new
    → (c : CachesPrefix sha256 old cache) → Reads c.held conn (c.rest ++ mid) (c.rest ++ new)
Reads-held {sha256} {old} {mid} {new} r c = record {
  counted = r.counted ∙ ap ok (joined c mid);
  counted_entries = subst AllEntries (joined c mid) r.counted_entries;
  read = r.read ∙ ap ok (joined c new);
  read_entries = subst AllEntries (joined c new) r.read_entries;
}

pub empty-CachesPrefix : (sha256 : Bytes → Bytes) → CachesPrefix sha256 [] empty_cache
unfolding parse_lines leaf_hashes
empty-CachesPrefix sha256 = record {
  held = [];
  rest = [];
  split = refl;
  caches = record { leaves = refl; line_offset = refl };
}

pub Grows-append :
    {old last : List Text} {conns : List Connection}
    → Grows old conns last
    → (more : List Text) × (last ≡ old ++ more)
Grows-append (rests lines) = ([], sym (append-nil lines))
Grows-append (grows {old} conn mid new r g) =
    let (more, e) = Grows-append g in (new ++ more, e ∙ append_assoc old new more)
