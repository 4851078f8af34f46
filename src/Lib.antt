-- ===== src/Lib.antt =====
-- tpm-attest: a Linux machine proves to a server, with a quote of its TPM and the log of the kernel's
-- integrity measurements (IMA), that it runs the software that was enrolled.
--
-- The agent (agent/) reads the PCRs (pcr_reader.py), reads the IMA log and hashes its entries into a
-- Merkle tree (ima_reader.py), and asks the TPM for a quote (report.py). The server (server/main.py)
-- issues nonces, registers machines, verifies reports and pins baselines; it keeps its state in three
-- SQLite tables. The shim (phase3/shim.py) runs beside a game: it collects reports with a cache of
-- leaf hashes, posts them to the server, and answers the game. The demo game (demo_game/) asks the
-- shim from a thread (eos_bridge.py) and starts when the answer is valid (game.py).
--
-- Files and code:
-- - Prelude: lists, texts, Boolean tests, exceptions as values.
-- - Python: what the program uses of the language and its library: decimal numerals, UTF-8 and hex,
--   `strip`, `split` and `splitlines`, `base64`, `int(s, 16)`, `int`, the values of `json.loads`, the
--   exceptions of `subprocess.run` and `mkdtemp`. The tables of Unicode (`str.lower`, decimal digits)
--   are an argument.
-- - Agent/Log: `_read_raw_lines`, `_parse_line`, `read_ima_log`, `read_ima_log_line_count` and
--   `read_ima_summary` of agent/ima_reader.py. What `sudo cat` prints is an argument.
-- - Agent/Merkle: the two `while` loops of agent/ima_reader.py over any operation on nodes.
-- - Agent/Tree: `_leaf_hash`, `build_ima_merkle_tree`, `build_incremental_merkle_tree` and
--   `get_ima_proof`. SHA-256 is an argument; `IsDigest` says that it returns 32 bytes.
-- - Agent/Pcr: `read_pcrs` of agent/pcr_reader.py, with its pattern for a line.
-- - Agent/Report: `read_ek_cert`, `_run_tpm_quote` and `generate_report` of agent/report.py. The runs
--   of the TPM tools are an argument, with the ways in which they do not run. Agent/Report/Raises has
--   the exceptions of each part.
-- - Shim, Shim/Cache, Grown, Raises: `_collect_report_incremental` of phase3/shim.py, with the cache
--   that it keeps.
-- - Shim/Requests: `_get_challenge` and `_post_report`. A body is what json.loads makes of it.
-- - Shim/Client: `_send_response`, `_handle_client` and the loop of `run_server`, for a sequence of
--   connections, with Shim/Payloads, Safety, Answers, Daemon, Unstarted, Grows and
--   Lifetime on what they promise.
-- - Shim/Registration, Shim/Enrolled: `_read_ak_pub_b64`, `_auto_register` and `run_server`.
-- - Demo/Bridge, Demo/Gate: the thread of demo_game/eos_bridge.py and the attestation phase of
--   `main` in demo_game/game.py, as a step relation, with Demo/Threads and Demo/Launch on when the
--   game starts.
-- - Demo/Floats, Objects, Frame, Play: the objects of demo_game/game.py, a frame of its loop and the
--   rounds, with Demo/Crowd, Limits, Fitness, Armed, Balance and Sound on what they keep. The floats are an
--   argument.
-- - System, System/Accepted: the shim connected to the server: the report as /attest receives it, the
--   JSON answers of the endpoints, and what stands behind a game that runs.
-- - Server/Interleaved: the handlers as threads whose steps are their transactions, with Server/Rows,
--   Spending and SingleUse on what they promise. The reads of the checks are one step.
-- - Server/Database: the tables and the helpers of server/main.py that read and write them.
-- - Server/Policy, Server/Checks: the settings, the bodies, and the checks of `_verify_report`.
-- - Server/Handlers, Server/Run: the endpoints, and sequences of requests.
-- - Server/Acceptance, Nonces, Replay, Freshness, Baselines, Enrollment, Pinning, Anchor, Registry,
--   Hardware, Scope, Window: what they promise.
-- - Tests: runs on concrete inputs.
--
-- A handler is a function from a request, the times that it reads and the random values that it draws
-- to its response and the tables it leaves. The programs that the server runs (tpm2_checkquote,
-- tpm2_readpublic) and the X.509 parser are the record `Tools`. Server/Run serves requests one
-- after the other; in Server/Interleaved any handler may run between two transactions of another.
--
-- The Merkle loops recur on fuel. The fuel is the length of the first layer: each round leaves at most
-- half of an even number of nodes, so that one node is left before the fuel ends.
--
-- Not modelled: the set-up of the sockets, the logging, the temporary files, but for whether their
-- directories are made on the client and the programs leave them (the server makes its own), the
-- transport by HTTP and the text of JSON (a body is the value that json.loads returns), the drawing of
-- the game and the events that only end it, the call of the SDK through ctypes, and the C programs,
-- which have no part in the verdict.
pub mod Prelude
pub mod Python
pub mod Agent
pub mod Server
pub mod Shim
pub mod Demo
pub mod System
pub mod Tests
