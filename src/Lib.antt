-- ===== src/Lib.antt =====
-- foxreq is a Python HTTP client that sends requests with the TLS and HTTP/2 fingerprint of a Firefox
-- build. Its Python code has two halves. tools/fingerprint reads captured bytes of a client (TLS
-- records with a ClientHello, the HTTP/2 connection prefix), turns them into evidence that two
-- captures can be compared by, and computes the fingerprints JA3 and JA4. python/foxreq is the
-- package: an API in front of worker processes, one for each profile, which the parent talks to over
-- pipes in frames of JSON metadata and a binary body.
--
-- Modules and the code that they are about:
--   - Prelude: lists, bytes in big-endian order, ASCII text, results; names from the library.
--   - Errors, Exec: python/foxreq/_exceptions.py, and methods that change a state and may raise.
--   - Binary: tools/fingerprint/binary.py and errors.py. The state of a Reader (bytes, offset, base
--     offset, path) is a record; a method is a function from it to a result and the next state. A
--     ParseError is its message, absolute offset and path; what Python itself raises (a negative
--     size) is another fault.
--   - Model: tools/fingerprint/model.py, one record for each dataclass.
--   - Tls: tools/fingerprint/tls.py, one function for each loop body and each block of the parser.
--     Tls/Encode is an independent printer of hellos and records.
--   - H2: tools/fingerprint/h2.py, with H2/Encode as the printer.
--   - Json: the values that the evidence is made of; a dict is its items in insertion order.
--   - Normalize: tools/fingerprint/normalize.py.
--   - Fingerprints: tools/fingerprint/fingerprints.py.
--   - Profile: tools/fingerprint/profile.py.
--   - Compare, Compare/Permutation: compare_evidence and PermutationPolicy of
--     tools/fingerprint/compare.py.
--   - Anchors: _encode_anchors of python/foxreq/_worker_session.py and _decode_anchors of
--     python/foxreq/_profile_worker.py, the two ends of one format.
--   - Ipc: python/foxreq/_ipc.py. A stream is a state with a read, or a write and a flush, that may
--     answer with anything; IsFaithfulSource and IsFaithfulSink say what a pipe does.
--   - Headers: python/foxreq/_headers.py.
--   - Worker/Request, Worker/Response, Worker/Failure: the metadata of the three kinds of frame, as
--     one side builds it and the other decodes it (_worker_session.py and _profile_worker.py).
--   - Worker/Process, Worker/Parent: ProfileWorkerSession of _worker_session.py. The state is the
--     world, the process that the session holds, the closed flag and the next identifier. An
--     exception of the package and one from outside it are told apart, since the handlers do.
--   - Worker/Child: run of _profile_worker.py, with the variable `native` as a flag.
--   - Api/Profiles, Api/Arguments, Api/Requests, Api/Pem, Api/Policy: python/foxreq/_profiles.py
--     and _normalize.py. Api/Response: Response.from_native of _models.py. Api/Settings,
--     Api/Session: Session of _api.py, with Api/Lifecycle as what its user is promised: the phases
--     of a session and the steps between them.
--   - Runtime/Names, Runtime/Manifest, Runtime/Installed: python/foxreq/_runtime_manifest.py, the
--     lock of a Firefox runtime and the check of an installed one.
--   - Tests: the theorems at concrete inputs.
--
-- Loops: `while reader.remaining` runs on as many rounds as there are bytes left, since a round that
-- does not raise consumes a byte; running out of rounds is a fault of its own, which is shown not to
-- occur. The loops of _ipc.py run on the number of bytes to move, since each round moves at least one.
-- The loop of the worker takes a round for each frame; as many rounds as there are bytes of input are
-- enough.
--
-- Parameters: hashlib's functions are functions on text; json.dumps and json.loads are a record
-- (JsonCodec, Codec), and that loads gives what was dumped is a hypothesis; str.lower, the
-- conversion of an int to a float and the addition of floats are functions. A float is its 64 bits.
-- The native session is the record Native; the operating system, the child process as the parent
-- sees it and the validation of the installed runtime are the record Host. Python's own library
-- (urllib, ipaddress, the IDNA codec) is the record Python, files and environment are the record
-- Environment, the two native sessions of the API are the record Natives, and the directories of an
-- installed runtime are the record FileSystem. The objects that stand for extension types in a
-- policy are the record Objects, which wants equality and the pair of type name and text to tell
-- them apart, as they do for the numbers and the strings of evidence. Offsets and lengths are
-- natural numbers, as Python's integers have no bound; the limits that the formats set are written
-- out.
--
-- Not modelled: the tools' command line; the response's text and JSON; the table of runtime locks,
-- which is generated; the capture, runtime and provenance scripts; the Rust and C code. In the text
-- of errors only ASCII occurs.
pub mod Prelude
pub mod Errors
pub mod Exec
pub mod Json
pub mod Binary
pub mod Model
pub mod Tls
pub mod H2
pub mod Normalize
pub mod Fingerprints
pub mod Profile
pub mod Compare
pub mod Anchors
pub mod Ipc
pub mod Headers
pub mod Worker
pub mod Api
pub mod Runtime
pub mod Tests
