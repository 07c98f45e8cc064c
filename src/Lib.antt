-- ===== src/Lib.antt =====
-- Models of django-clickhouse-backend, a Django database backend for ClickHouse, and what is
-- proved about them. The program is the Python package clickhouse_backend.
--
-- Text is the list of its code points. Numbers are natural numbers, or integers of unbounded size
-- where the source has signs.
--
-- - Prelude and its children: shared notation, lists, text, bit fields, integers and
--   dictionaries.
-- - Snowflake: clickhouse_backend/idworker/snowflake.py. A worker is a record of the fields of
--   SnowflakeIDWorker, init is its constructor and get_id a call. The clock is the sequence of
--   its readings. The wait for the next millisecond takes fuel, one for each reading;
--   Snowflake.Answers says how much is enough. issue is the list of ids that a number of calls
--   gives. Not modelled: the reading of the environment variables.
-- - Driver.Pool: clickhouse_backend/driver/pool.py. A client is a number, which stands for the
--   object and its id, and is never used again. The connection inside belongs to
--   clickhouse_driver and is the parameter Driver. Methods return the state beside the result,
--   also where they raise. disconnect may raise, which push passes on and cleanup passes over;
--   the constructor of a client is taken not to raise. push is called with a client, as all its
--   callers do.
--
-- - Driver.Escape: clickhouse_backend/driver/escape.py. Value is what a parameter may be, and
--   escape_item the recursion of escape_param, with a flag for a value inside types.JSON. The
--   table of escapes and the decorator of clickhouse_driver are the parameter Escapes. Objects of
--   which the code only takes the str carry it. Datetimes with a time zone carry their fields in
--   UTC.
--
-- - Migrations: clickhouse_backend/patch/migrations.py. Migrations.Recorder is the patched
--   MigrationRecorder with its caches; the server, Django's query sets on it and the creation of
--   tables are the parameter Server, whose laws say what a filter, an update, an insertion and a
--   deletion do to the rows of the table of migrations; that an insertion is read at once takes
--   insert_distributed_sync where migrations are distributed, as the README asks for.
--   Migrations.Running is Migration.apply and Migration.unapply; project states, the operations'
--   own work and the query on all replicas are parameters.
--
-- - Models.Settings and Models.Engines: clickhouse_backend/models/engines.py. The checks of a
--   setting are functions, the tables of settings list them with the names they are for, and
--   normalize is the loop over the settings. A Family is a class with its replicated one;
--   plain_init and replicated_init are their constructors, distributed_init that of Distributed.
--   Django's Func is a parameter.
--
-- - Backend.Operations: clickhouse_backend/backend/operations.py. explain_query takes its
--   settings by their truth value; settings_sql takes the names of the server's settings; upper
--   is str.upper on ASCII. Backend.Operations.Ranges holds the ranges of the integer fields.
--
-- - Backend.Lookups: the SQL of lookups and of functions on dates in
--   clickhouse_backend/backend/operations.py. The default time zone is an argument.
--
-- - Models.Indexes: the names of indexes in clickhouse_backend/models/indexes.py, with Django's
--   digest of names as a parameter.
--
-- - Models.Fragments and Models.Compiler: clickhouse_backend/models/sql/compiler.py. A fragment
--   is SQL with placeholders and its values, and Whole says that each placeholder has its value.
--   Select.as_sql is SQLCompiler.as_sql on the parts that Django compiles, and Select.Statement
--   describes the whole statement; Insert.as_sql is SQLInsertCompiler.as_sql with the id worker;
--   Update has the compilers of UPDATE, DELETE and aggregates.
--
-- - Driver.Client: the pattern of clickhouse_backend/driver/client.py, read by hand from its
--   regular expression, and the branch of Client.execute. Driver.Connection: the cursors and
--   connections of clickhouse_backend/driver/connection.py, with Driver.Pool as their pool.
--
-- - Backend.Schema: clickhouse_backend/backend/schema.py. Ddl has a constructor for each template
--   of SQL and ddl_sql fills them. Alter is _alter_field as the list of its statements, Edit the
--   methods with the deferred statements, Compare is _field_should_be_altered. Django's helpers
--   that only fill these templates are written as the templates; its references and its other
--   statements are parameters.
--
-- - Models.Fields: data_types of clickhouse_backend/backend/base.py and the column types of
--   clickhouse_backend/models/fields. A GenericIPAddressField writes neither Nullable nor
--   LowCardinality. A field is a tree; the digits in a type and the members of an enumeration are
--   texts. Models.Fields.Validators: the validators of
--   clickhouse_backend/models/fields/integer.py.
--
-- - Backend.Introspection: get_field_type of clickhouse_backend/backend/introspection.py.
--
-- - Models.Fields.Values: the values of arrays, tuples and maps in
--   clickhouse_backend/models/fields/array.py, tuple.py and map.py. prepare is get_db_prep_value
--   and get_db_prep_save, Read.from_db what Django makes of a column. Models.Fields.Validate:
--   validate stands for validate and run_validators. Fields with one value, iteration over what
--   is no container, and equality of keys are parameters. Models.Fields.Checks: the base fields
--   of a tuple and the choices of an enumeration; sort is the stable sort of Python.
--
-- - Inspectdb: inspect_field_type of clickhouse_backend/management/commands/inspectdb.py, with
--   fuel for nested calls and for the loop over the items of a tuple; the calls that a type needs
--   are counted in Inspectdb.Source. The loop over the choices of an enumeration takes the length
--   of the text, which is enough.
--
-- - Models.Fields.Addresses: the fields of IP addresses in
--   clickhouse_backend/models/fields/__init__.py, with Python's ipaddress as a parameter; an
--   address is its number, and protocols are in small letters.
--
-- - Backend.Wrapper: get_new_connection of clickhouse_backend/backend/base.py. Calls of all
--   threads form a sequence, and each call says whether a connection can be made.
--
-- - Models.Query: clickhouse_backend/models/sql/query.py and clickhouse_backend/models/query.py.
--   The dictionaries of settings and the nodes of conditions are objects of a store; a Step is a
--   copy of a query, with new settings or new conditions.
--
-- Not modelled: in the schema editor the clauses of CREATE TABLE and indexes, the counts of
-- aliases in the compiler, the serialization, lookups and other checks of fields, the conversions
-- of enumerations, the constructors of indexes, the queries of introspection, Cursor.execute, the
-- creation of test databases, the command around inspect_field_type, and what is only
-- declarations for Django (features, names of SQL functions, patches that assign to classes).
-- Exceptions carry their class, and a text where it depends on the input.
pub mod Prelude
pub mod Snowflake
pub mod Driver
pub mod Migrations
pub mod Inspectdb
pub mod Models
pub mod Backend
