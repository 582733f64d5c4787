-- ===== src/Lib.antt =====
-- A model of the Python part of lidb: the query language liq, which is parsed and compiled to
-- parameterised SQL, and liorm, which registers compiled plans, executes them on the embedded engine
-- and keeps a hash-chained audit log; registry, a package registry over the two; and the probes and
-- benchmarks under scripts.
--
-- A source text goes through liq/parser.py (parse) to a statement, through stmt_to_ir to the JSON
-- that names the plan, and through liq/compiler.py (compile) to SQL and a schema of parameters. The
-- compiler asks liorm/catalog.py for every table and column. liorm/execute.py keeps the plans, checks
-- the parameters of a call against the schema and the SQL, and calls liorm/embed_engine.py.
-- liorm/capabilities.py says which profile may use raw SQL, and liorm/audit.py records denials.
--
-- Which module models which file:
--   Liq.Syntax, Liq.Lexical, Liq.Parser   liq/parser.py: the dataclasses, the regular expressions and
--       the helpers _ident to _predicate, and _parse_read to parse
--   Liq.Ir          stmt_to_ir of liq/parser.py, with a reader of the IR as its reference
--   Liq.Compiler    liq/compiler.py
--   Liq.Print       a printer of statements, the reference for the parser
--   Liorm.Catalog   liorm/catalog.py
--   Liorm.Capabilities   liorm/capabilities.py
--   Liorm.Execute   liorm/execute.py
--   Liorm.Audit     liorm/audit.py, with redact_query_log in Redact
--   Liorm.Embed     liorm/embed_engine.py: Flatten has _flatten_sql, Binary the search, build and call
--                   of lidb_embed, Session the globals, Seed seed_test_fixtures
--   Registry.Plans  registry/plans.py and registry/bootstrap.py
--   Registry.Records, Registry.Service   registry/service.py
--   Probes          scripts/security_probe.py (Security) and scripts/audit_probe.py (Race, Trail)
--   Bench           scripts/bench/emit_csv.py (Rows, Csv, Tiers), scripts/bench/harness_emit.py (Harness),
--       scripts/bench/tier_db_csv_impl.py (Percentile, Lab, Measure, Collect) and
--       scripts/bench/registry_oltp_compare.py (Percentile, Rig, Compare)
--   Pipeline        the way of a source text through compile, register_plan and execute
--   Errors          liq/errors.py and liorm/errors.py
--   Base, Str, Dict, Json   what the sources use of Python: exceptions, str, re, dict and json.dumps
--   Action          code that passes a state on and may raise
--
-- Each function has the name that it has in the source, without a leading underscore. A text is the
-- list of its code points. An exception is the `err` of an Outcome, with its class as a constructor
-- and what its message says as data. A loop over an index is a recursion over the tokens from that
-- index on. The state of the module globals is passed in and out: the dict of plans, the log, and
-- the state of the engine, of any type.
--
-- The loops of _parse_read and _parse_update run on fuel, one more than the number of tokens, which is
-- enough since every round takes at least one token; a loop without fuel raises out_of_fuel.
-- int() refuses numerals of more than 4300 digits, as Python does by default.
--
-- Parameters: SHA-256 with its hex digest (sha256_hex), float() and the clock (to_float, now), uuid4,
-- the repr of lists and dicts, and what execute needs of an engine (the record Engine), which Embed
-- fills over a Host: what runs a program, the file system, the environment and json.loads. A float
-- is kept as the text of its repr. The rows of the benchmarks take round() and str() of a float from a
-- record, and what git and the platform module answer; files are a dict from paths to texts. The scripts
-- that measure run on the records Lab, Floats, Rig and Ratios: programs, clocks, Postgres and floats.
--
-- The threads of audit_probe.py take their steps in the order of a schedule, which is an argument; those
-- that are not done at its end are run one after the other for as many steps as they have left.
--
-- Not modelled: the locks of the bridge (the engine is one step of a thread), what the scripts print
-- and write but for the CSV files, their command line parsers, the C++ engine and the SQL migrations.
-- str.split, strip and isdigit know the spaces and digits of Unicode; lower() is that of ASCII, which
-- is enough for the verbs in `parse`, since no other character has a lower case that is a letter of
-- the four verbs, and for the names that the platform module gives.
pub mod Base
pub mod Str
pub mod Errors
pub mod Action
pub mod Dict
pub mod Json
pub mod Liorm
pub mod Liq
pub mod Registry
pub mod Pipeline
pub mod Probes
pub mod Bench
