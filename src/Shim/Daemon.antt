-- ===== src/Shim/Daemon.antt =====
-- The daemon over many connections: where it ends, and what its cache holds (phase3/shim.py).
use tpm_attest.Prelude.{
  ◌≡◌, refl, List, [], ◌∷◌, ◌++◌, Option, some, All, Text, Bytes, Exception, ok, attribute_error,
}
use tpm_attest.Python.Json.{Json, Items, null, boolean, number, string, array, get}
use tpm_attest.Python.Unicode.{Unicode}
use tpm_attest.Shim.{LeafCache}
use tpm_attest.Shim.Client.{
  Connection, Payload, Ending, closed, uncaught, read_handshake, with_handshake, with_received,
  handle_client, serve_rest, serve_loop,
}

-- a JSON value that is not a dict
pub data IsNoDict : Json → Type 0 where
  is_null : IsNoDict null
  is_boolean : (b : _) → IsNoDict (boolean b)
  is_number : (literal : Text) (nonzero : _) → IsNoDict (number literal nonzero)
  is_string : (s : Text) → IsNoDict (string s)
  is_array : (items : Items) → IsNoDict (array items)

abbrev pub IsClosed : Ending → Type 0
IsClosed ending = (sent : Option Payload) × (ending ≡ closed sent)

module _ (u : Unicode) (sha256 : Bytes → Bytes) (machine_id : Text) where
  no_dict-uncaught :
      (conn : Connection) (cache : LeafCache) {handshake : Json}
      → IsNoDict handshake
      → with_received u sha256 machine_id conn cache (some (ok handshake))
        ≡ (uncaught attribute_error, cache)
  unfolding with_received with_handshake read_handshake get
  no_dict-uncaught conn cache is_null = refl
  no_dict-uncaught conn cache (is_boolean b) = refl
  no_dict-uncaught conn cache (is_number l z) = refl
  no_dict-uncaught conn cache (is_string s) = refl
  no_dict-uncaught conn cache (is_array items) = refl

  -- an exception leaves the handler, whatever the cache, which it leaves as it is
  abbrev pub IsStop : Exception → Connection → Type 0
  IsStop e conn =
      (cache : LeafCache) → handle_client u sha256 machine_id conn cache ≡ (uncaught e, cache)

  no_dict-IsStop :
      (conn : Connection) {handshake : Json}
      → conn.received ≡ some (ok handshake)
      → IsNoDict handshake
      → IsStop attribute_error conn
  unfolding handle_client
  no_dict-IsStop conn e n cache = rw e (no_dict-uncaught conn cache n)

  loop-stops :
      (e : Exception) (conn : Connection) (after : List Connection) (cache : LeafCache)
      → IsStop e conn
      → serve_loop u sha256 machine_id (conn ∷ after) cache ≡ (uncaught e ∷ [], cache)
  unfolding serve_loop serve_rest
  loop-stops e conn after cache h = rw (h cache) refl

  -- the loop over the connections behind one that was closed
  rest-IsClosed :
      (first : Ending × LeafCache) (rest : List Ending × LeafCache)
      → All IsClosed (serve_rest first rest).0
      → (serve_rest first rest ≡ (first.0 ∷ rest.0, rest.1)) × All IsClosed rest.0
  unfolding serve_rest
  rest-IsClosed (closed sent, cache) (endings, last) h = (refl, h.1)
  rest-IsClosed (uncaught e, cache) (endings, last) h = absurd (cc (h.0.1))

  rest-append :
      (first : Ending × LeafCache) (rest : List Ending × LeafCache) (more : List Ending)
      → All IsClosed (serve_rest first rest).0
      → serve_rest first (rest.0 ++ more, rest.1)
        ≡ ((serve_rest first rest).0 ++ more, (serve_rest first rest).1)
  unfolding serve_rest
  rest-append (closed sent, cache) (endings, last) more h = refl
  rest-append (uncaught e, cache) (endings, last) more h = absurd (cc (h.0.1))

  pub serve_loop-IsStop :
      (e : Exception) (before : List Connection) (conn : Connection) (after : List Connection)
      (cache : LeafCache)
      → All IsClosed (serve_loop u sha256 machine_id before cache).0
      → IsStop e conn
      → serve_loop u sha256 machine_id (before ++ conn ∷ after) cache ≡ (
        (serve_loop u sha256 machine_id before cache).0 ++ uncaught e ∷ [],
        (serve_loop u sha256 machine_id before cache).1,
      )
  unfolding serve_loop
  serve_loop-IsStop e [] conn after cache h stops = loop-stops e conn after cache stops
  serve_loop-IsStop e (b ∷ before) conn after cache h stops =
      let first = handle_client u sha256 machine_id b cache in
      let rest = serve_loop u sha256 machine_id before first.1 in
      let closed_rest = (rest-IsClosed first rest h).1 in
      rw (serve_loop-IsStop e before conn after first.1 closed_rest stops)
        (rest-append first rest (uncaught e ∷ []) h)

  -- If the connections before it were all closed, a handshake that is JSON but not a dict ends the
  -- daemon: its client gets nothing, no connection behind it is served, whatever these are, and the
  -- answers and the cache are those of the connections before it.
  pub serve_loop-stops :
      (before : List Connection) (conn : Connection) (after : List Connection) (cache : LeafCache)
      {handshake : Json}
      → All IsClosed (serve_loop u sha256 machine_id before cache).0
      → conn.received ≡ some (ok handshake)
      → IsNoDict handshake
      → serve_loop u sha256 machine_id (before ++ conn ∷ after) cache ≡ (
        (serve_loop u sha256 machine_id before cache).0 ++ uncaught attribute_error ∷ [],
        (serve_loop u sha256 machine_id before cache).1,
      )
  serve_loop-stops before conn after cache h e n =
      serve_loop-IsStop attribute_error before conn after cache h (no_dict-IsStop conn e n)
