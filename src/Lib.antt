-- ===== src/Lib.antt =====
-- The core of vcrpy, a library that records HTTP exchanges to a cassette and plays them back: what
-- a cassette holds and plays, how requests are made, compared and filtered, what a configuration
-- is made of, how connections and clients use a cassette, how they are put in place of the real
-- ones, and how cassette files are written, read and migrated.
--
-- The parts and their files. Paths are from the repository's root; the package is vcrmartin/.
--   Cassette, Cassette/...: vcrmartin/cassette.py, `class Cassette`, over any types of requests
--     and responses: `append`, `play_response`, `responses_of`, `rewind`, `can_play_response_for`,
--     `find_requests_with_most_matches`, `_load` and `_save`. The persister is an interface over a
--     state of the storage. Cassette/Reel is the abstract view of a cassette, a list of
--     interactions of which each is played or not; Cassette/Reachable has the states that the
--     operations lead to. Cassette/Messages: the message of vcrmartin/errors.py.
--   Matching: vcrmartin/matchers.py, `_evaluate_matcher`, `get_matchers_results`,
--     `requests_match`.
--   Matchers, Matchers/Bodies: vcrmartin/matchers.py, the matcher functions and the transformers
--     of bodies. Dechunk: its `_dechunk`.
--   Request, Request/Sorting: vcrmartin/request.py, `class Request`, and `read_body` of
--     vcrmartin/util.py.
--   CaseInsensitiveDict: the class of vcrmartin/util.py, with `HeadersDict` of
--     vcrmartin/request.py in CaseInsensitiveDict/Headers. Dict and Text are what the program uses
--     of Python's types.
--   Filters, Filters/...: vcrmartin/filters.py. A filter takes a request or a response and returns
--     another.
--   Config, Config/...: vcrmartin/config.py: it composes the filters to the callbacks of a cassette,
--     and looks its matchers and serializers up by name. Config/Creation: a new VCR. Config/Using:
--     `use_cassette`, and the decorated call of vcrmartin/cassette.py that comes of it.
--     Config/TestCase: the metaclass of `test_case`, which vcrmartin/util.py makes.
--   Unittest, Unittest/...: vcrmartin/unittest.py, the mixin for test cases.
--   Serialize, Serialize/...: vcrmartin/serialize.py, vcrmartin/serializers/compat.py, `_to_dict`
--     and `_from_dict` of vcrmartin/request.py, and vcrmartin/persisters/filesystem.py, a
--     persister for the cassette over a store of files.
--   Migration, Migration/...: vcrmartin/migration.py: files of the old format are rewritten over
--     the same store of files.
--   Context, Context/...: vcrmartin/cassette.py, `CassetteContextDecorator`, with
--     `current_cassette` of vcrmartin/constants.py: it loads a cassette, installs it, and saves it
--     at the end.
--   Connection, Connection/...: vcrmartin/stubs/__init__.py, `VCRConnection` and
--     `VCRHTTPResponse`: `request` makes a Request, and `getresponse` asks the cassette to play
--     it, or sends it on the real connection and appends what was received. Connection/Reading has
--     the reading methods of the response, and its headers, with vcrmartin/stubs/compat.py.
--   Clients, Clients/...: the wrapped functions of the clients that have connections of their own:
--     Clients/Httpx, Clients/Aiohttp and Clients/Tornado are vcrmartin/stubs/httpx_stubs.py,
--     aiohttp_stubs.py and tornado_stubs.py there; Clients/Grouping has the headers as a
--     dictionary of lists.
--   Patching, Patching/...: vcrmartin/patch.py, `CassettePatcherBuilder`: the attributes of the
--     clients are set to the stubs, and each stub remembers in `_baseclass` what was there before.
--   RecordMode: vcrmartin/record_mode.py. Prelude: shared types, tests and lemmas. Samples: small
--     parameters for the tests. Tests, in each part: runs and concrete cases.
--
-- State is passed explicitly, and an exception is a value: a function that can raise returns a
-- `Result`. A method that raises gives no new state; the steps of Context do, since leaving goes
-- on after an exception. A loop without a bound returns a `Run`, which says whether it has ended.
--
-- Fuel and bounds. The loop of `_dechunk` has one round more than the body has bytes, since each
-- round but the last moves the position on. The decoding of UTF-8 has as many rounds as there are
-- bytes. The walk along `_baseclass` has two steps more than there are entries: one that is longer
-- goes round a cycle. The playing of redirects of aiohttp has as many rounds as the cassette has
-- interactions, each of which is played once. `stream` has one round more than there are bytes
-- left. Numbers are Python's, without a bound.
--
-- Parameters stand for `urllib.parse`, JSON, forms and XML-RPC, zlib, the formatting of messages,
-- the real connection, the persister, the serializer, httpx, aiohttp with yarl, tornado, the
-- loaders of JSON and YAML, and `http.client.parse_headers`. Callbacks are pure functions that may
-- raise. Lower case is that of ASCII, as header names have it.
--
-- Not modelled: decorated generators and coroutines, and their scheduling; the YAML and JSON
-- formats; the old httpx format of cassettes and the cookies that the aiohttp stub takes from the
-- stored headers; the stub of pymongo, which cannot be imported, and the stubs that only join two
-- classes; setup.py and docs/conf.py; log lines; the attribute `length` of a response; and the
-- sharing of objects: the header that `VCRHTTPResponse` deletes is deleted in the cassette's
-- dictionary as well.
pub mod Prelude
pub mod Matching
pub mod RecordMode
pub mod Text
pub mod Dict
pub mod CaseInsensitiveDict
pub mod Dechunk
pub mod Request
pub mod Matchers
pub mod Filters
pub mod Cassette
pub mod Context
pub mod Serialize
pub mod Connection
pub mod Config
pub mod Samples
pub mod Patching
pub mod Clients
pub mod Migration
pub mod Unittest
