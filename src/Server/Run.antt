-- ===== src/Server/Run.antt =====
-- Requests to server/main.py, one after the other.
use tpm_attest.Prelude.{List, [], ◌∷◌, Text}
use tpm_attest.Python.Unicode.{Unicode}
use tpm_attest.Server.Database.{Time, Db}
use tpm_attest.Server.Policy.{Config, Tools, AttestationReport, RegisterRequest}
use tpm_attest.Server.Handlers.{Response, Clock, challenge, register, attest, enroll}

-- a request, with what its handler reads of the clock and of the generators
pub data Request : Type 0 where
  get_challenge : Time → Text → Request
  post_register : Time → RegisterRequest → Request
  post_attest : Clock → Text → AttestationReport → Request
  post_enroll : Clock → AttestationReport → Request

module _ (cfg : Config) (u : Unicode) (tools : Tools) where
  unfoldable pub serve : Request → Db → Response × Db
  serve (get_challenge now token) db = challenge now token db
  serve (post_register now req) db = register cfg tools now req db
  serve (post_attest clock token report) db = attest cfg u tools clock token report db
  serve (post_enroll clock report) db = enroll cfg u tools clock report db

  -- the tables after all requests
  unfoldable pub run : List Request → Db → Db
  unfolding serve
  run [] db = db
  run (r ∷ requests) db = run requests (serve r db).1
