-- ===== src/Demo/Launch.antt =====
-- The game starts only on the word of the server (demo_game/, phase3/shim.py).
use tpm_attest.Prelude.{◌≡◌, ◌≢◌, refl, sym, ap, ◌∙◌, subst, inr, true, some, Text, Bytes, text_eq}
use tpm_attest.Python.Json.{Json, Fields, object, get_field, truthy}
use tpm_attest.Python.Unicode.{Unicode}
use tpm_attest.Shim.{LeafCache}
use tpm_attest.Shim.Client.{
  Connection, Payload, valid, invalid, payload_fields, Ending, closed, handle_client,
}
use tpm_attest.Shim.Safety.{Attested, handle_client-Attested}
use tpm_attest.Demo.Bridge.{Query, loaded, failed, query_shim_direct}
use tpm_attest.Demo.Gate.{playing, State, Reach}
use tpm_attest.Demo.Threads.{valid_of, token_in, Reach-IsWhole, Reach-IsGranted}

-- What the bridge reads of a connection that ended so: the payload, or an exception, of the socket or
-- of the JSON reader.
pub data Arrives : Ending → Query → Type 0 where
  whole :
      (payload : Payload)
      → Arrives (closed (some payload)) (loaded (object (payload_fields payload)))
  lost : (ending : Ending) (message : Text) → Arrives ending (failed message)

object-injective : {a b : Fields} → object a ≡ object b → a ≡ b
object-injective p = cc

payload-valid :
    (payload : Payload)
    → truthy (valid_of (payload_fields payload)) ≡ true
    → payload ≡ valid (token_in (payload_fields payload))
unfolding payload_fields get_field text_eq truthy
payload-valid (valid token) h = refl
payload-valid (invalid reason) h = absurd (cc)

not-failed :
    (message : Text) (resp : Fields)
    → query_shim_direct (failed message) ≡ object resp
    → truthy (valid_of resp) ≢ true
unfolding query_shim_direct get_field text_eq truthy
not-failed message resp e h = let same = sym (object-injective e) in absurd (cc (rw same at h))

-- A response that counts as valid is the payload of an attestation.
arrived-valid :
    {ending : Ending} {query : Query} (resp : Fields)
    → Arrives ending query
    → query_shim_direct query ≡ object resp
    → truthy (valid_of resp) ≡ true
    → ending ≡ closed (some (valid (token_in resp)))
unfolding query_shim_direct
arrived-valid resp (whole payload) e h =
    let same = object-injective e in
    subst (λ (f : Fields). closed (some payload) ≡ closed (some (valid (token_in f)))) same
      (ap (λ (p : Payload). closed (some p)) (payload-valid payload (rw same h)))
arrived-valid resp (lost ending message) e h = absurd (not-failed message resp e h)

module _ (u : Unicode) (sha256 : Bytes → Bytes) (machine_id : Text) where
  -- Whatever order the threads run in, and whatever the network does: once the game runs, the
  -- connection of the bridge to the shim is one that the server attested. It confirmed, with the token
  -- that the game holds, a report that the machine quoted for the server's own challenge.
  pub launch-Attested :
      (conn : Connection) (cache : LeafCache) {query : Query} {s : State}
      → Arrives (handle_client u sha256 machine_id conn cache).0 query
      → Reach query s
      → s.phase ≡ playing
      → (token : Json) × (s.result.token ≡ some token)
        × Attested u sha256 machine_id conn cache token
  launch-Attested conn cache {query} {s} a r p =
      let (d, v) = Reach-IsGranted r (inr p) in
      let w = Reach-IsWhole r d in
      (
        token_in w.resp,
        w.token,
        handle_client-Attested u sha256 machine_id conn cache
            (arrived-valid w.resp a w.response (sym (ap truthy w.valid) ∙ v)),
      )
