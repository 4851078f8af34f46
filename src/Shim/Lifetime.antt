-- ===== src/Shim/Lifetime.antt =====
-- The reports of the shim over the life of the daemon (phase3/shim.py).
use tpm_attest.Prelude.{
  ◌≡◌, ◌⊎◌, refl, sym, ap, ◌∙◌, subst, inl, inr, List, [], ◌++◌, Option, some, none, Text, Bytes,
  Result, ok, raise,
}
use mathlib.Core.List.{append-nil}
use tpm_attest.Python.Json.{Json}
use tpm_attest.Python.Unicode.{Unicode}
use tpm_attest.Agent.Log.{parse_lines}
use tpm_attest.Agent.Tree.{Tree, build_ima_merkle_tree}
use tpm_attest.Shim.{LeafCache, empty_cache, ShimReport, Step, collect_report_incremental}
use tpm_attest.Shim.Grown.{collect_report_incremental-grown, collect_report_incremental-Caches}
use tpm_attest.Shim.Requests.{get_challenge}
use tpm_attest.Shim.Client.{
  Connection, Ending, closed, uncaught, read_handshake, with_report, with_nonce, with_handshake,
  with_received, handle_client, serve_rest, serve_loop,
}
use tpm_attest.Shim.Grows.{
  Reads, Grows, rests, grows, CachesPrefix, CachesPrefix-more, joined, Reads-held,
  empty-CachesPrefix, Grows-append,
}

module _ (u : Unicode) (sha256 : Bytes → Bytes) (machine_id : Text) where
  -- A call of the report, behind a cache of the first lines, leaves a cache of the first lines.
  collect-CachesPrefix :
      (conn : Connection) (nonce : Json) (old mid new : List Text) (cache : LeafCache)
      → Reads old conn mid new
      → CachesPrefix sha256 old cache
      → CachesPrefix sha256
          (old ++ new)
          (collect_report_incremental u sha256 machine_id conn.host conn.count_log conn.timestamp
            nonce cache).1
  collect-CachesPrefix conn nonce old mid new cache r c =
      let r' = Reads-held r c in
      elim (collect_report_incremental-Caches u sha256 machine_id conn.host conn.timestamp nonce
        c.held (c.rest ++ new) cache (c.rest ++ mid) conn.count_log c.caches r'.counted
        r'.counted_entries r'.read r'.read_entries) [
          | inl same ↦ record {
            held = c.held;
            rest = c.rest ++ new;
            split = joined c new;
            caches = same;
          }
          | inr whole ↦ record {
            held = c.held ++ (c.rest ++ new);
            rest = [];
            split = joined c new ∙ sym (append-nil (c.held ++ (c.rest ++ new)));
            caches = whole;
          }
        ]

  -- A report that is returned is that of a full build.
  report-over :
      (conn : Connection) (nonce : Json) (old mid new : List Text) (cache : LeafCache)
      {report : ShimReport}
      → Reads old conn mid new
      → CachesPrefix sha256 old cache
      → (collect_report_incremental u sha256 machine_id conn.host conn.count_log conn.timestamp
          nonce cache).0
        ≡ ok report
      → (tree : Tree) × (build_ima_merkle_tree sha256 (parse_lines (old ++ new)) ≡ ok tree)
        × (report.ima_merkle_root ≡ tree.root)
        × (report.ima_merkle_depth ≡ tree.depth)
        × (report.ima_leaf_count ≡ tree.leaf_count)
  report-over conn nonce old mid new cache r c h =
      let r' = Reads-held r c in
      let (tree, ran, root, depth, count, cached) =
        collect_report_incremental-grown u sha256 machine_id conn.host conn.timestamp nonce c.held
          (c.rest ++ new) cache (c.rest ++ mid) conn.count_log c.caches r'.counted
          r'.counted_entries r'.read r'.read_entries h in
      (
        tree,
        ap (λ (x : List Text). build_ima_merkle_tree sha256 (parse_lines x)) (joined c new) ∙ ran,
        root,
        depth,
        count,
      )

  -- the cache that the handler leaves
  abbrev IsLeft : Connection → LeafCache → LeafCache → Type 0
  IsLeft conn cache left =
      (left ≡ cache)
      ⊎ (nonce : Json) × (left
          ≡ (collect_report_incremental u sha256 machine_id conn.host conn.count_log conn.timestamp
              nonce cache).1)

  with_report-cache :
      (conn : Connection) (handshake : Json) (step : Step ShimReport)
      → (with_report conn handshake step).1 ≡ step.1
  unfolding with_report
  with_report-cache conn handshake (raise e, cache) = refl
  with_report-cache conn handshake (ok report, cache) = refl

  with_nonce-IsLeft :
      (conn : Connection) (handshake : Json) (cache : LeafCache) (challenge : Result Json)
      → IsLeft conn cache (with_nonce u sha256 machine_id conn handshake cache challenge).1
  unfolding with_nonce
  with_nonce-IsLeft conn handshake cache (raise e) = inl refl
  with_nonce-IsLeft conn handshake cache (ok nonce) =
      inr (nonce, with_report-cache conn handshake _)

  with_handshake-IsLeft :
      (conn : Connection) (cache : LeafCache) (handshake : Result Json)
      → IsLeft conn cache (with_handshake u sha256 machine_id conn cache handshake).1
  unfolding with_handshake
  with_handshake-IsLeft conn cache (raise e) = inl refl
  with_handshake-IsLeft conn cache (ok handshake) =
      with_nonce-IsLeft conn handshake cache (get_challenge conn.challenge_reply)

  received-IsLeft :
      (conn : Connection) (cache : LeafCache) (received : Option (Result Json))
      → IsLeft conn cache (with_received u sha256 machine_id conn cache received).1
  unfolding with_received
  received-IsLeft conn cache none = inl refl
  received-IsLeft conn cache (some loaded) =
      with_handshake-IsLeft conn cache (read_handshake loaded)

  handle_client-CachesPrefix :
      (conn : Connection) (old mid new : List Text) (cache : LeafCache)
      → Reads old conn mid new
      → CachesPrefix sha256 old cache
      → CachesPrefix sha256 (old ++ new) (handle_client u sha256 machine_id conn cache).1
  unfolding handle_client
  handle_client-CachesPrefix conn old mid new cache r c =
      elim (received-IsLeft conn cache conn.received) [
        | inl same ↦
            subst (CachesPrefix sha256 (old ++ new)) (sym same) (CachesPrefix-more sha256 old new c)
        | inr (nonce, same) ↦
            subst (CachesPrefix sha256 (old ++ new)) (sym same)
              (collect-CachesPrefix conn nonce old mid new cache r c)
      ]

  rest-CachesPrefix :
      (first : Ending × LeafCache) (rest : List Ending × LeafCache) (old new : List Text)
      → CachesPrefix sha256 old first.1
      → CachesPrefix sha256 (old ++ new) rest.1
      → CachesPrefix sha256 (old ++ new) (serve_rest first rest).1
  unfolding serve_rest
  rest-CachesPrefix (closed sent, cache) (endings, last) old new c d = d
  rest-CachesPrefix (uncaught e, cache) (endings, last) old new c d =
      CachesPrefix-more sha256 old new c

  -- However many connections are served, and whichever of them fail, the cache holds the leaves of the
  -- first lines of the log.
  serve_loop-CachesPrefix :
      {old last : List Text} {conns : List Connection} (cache : LeafCache)
      → Grows old conns last
      → CachesPrefix sha256 old cache
      → CachesPrefix sha256 last (serve_loop u sha256 machine_id conns cache).1
  unfolding serve_loop
  serve_loop-CachesPrefix cache (rests lines) c = c
  serve_loop-CachesPrefix cache (grows {old} {last} {conns} conn mid new r g) c =
      let first = handle_client u sha256 machine_id conn cache in
      let c' = handle_client-CachesPrefix conn old mid new cache r c in
      let (more, e) = Grows-append g in
      subst
        (λ (l : List Text).
          CachesPrefix sha256 l (serve_rest first (serve_loop u sha256 machine_id conns first.1)).1)
        (sym e)
        (rest-CachesPrefix first (serve_loop u sha256 machine_id conns first.1) (old ++ new) more c'
          (subst
            (λ (l : List Text).
              CachesPrefix sha256 l (serve_loop u sha256 machine_id conns first.1).1)
            e (serve_loop-CachesPrefix first.1 g c')))

  -- From the start of the daemon on, while every read of the log succeeds, the log only grows and
  -- all its lines are entries: after any connections, whatever else failed in them, a report that
  -- is collected has the root, the depth and the leaf count of a tree built over the whole log,
  -- although only the new lines were hashed.
  pub serve_loop-report :
      {last : List Text} {conns : List Connection} (conn : Connection) (nonce : Json)
      (mid new : List Text) {report : ShimReport}
      → Grows [] conns last
      → Reads last conn mid new
      → (collect_report_incremental u sha256 machine_id conn.host conn.count_log conn.timestamp
          nonce
          (serve_loop u sha256 machine_id conns empty_cache).1).0
        ≡ ok report
      → (tree : Tree) × (build_ima_merkle_tree sha256 (parse_lines (last ++ new)) ≡ ok tree)
        × (report.ima_merkle_root ≡ tree.root)
        × (report.ima_merkle_depth ≡ tree.depth)
        × (report.ima_leaf_count ≡ tree.leaf_count)
  serve_loop-report {last} {conns} conn nonce mid new g r h =
      let cache = (serve_loop u sha256 machine_id conns empty_cache).1 in
      let c = serve_loop-CachesPrefix empty_cache g (empty-CachesPrefix sha256) in
      report-over conn nonce last mid new cache r c h
