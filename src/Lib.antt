-- ===== src/Lib.antt =====
-- Verification of the DuckDB extension for Splunk logs (src/): the mapping of Splunk search
-- results to rows in the OpenTelemetry schema, and the HTTP client that fetches them.
--
-- A scan turns its parameters into a form (NormalizeSearchQuery, BuildExportBody), posts it
-- through SplunkClient::ExportSearch, which retries what may pass and streams the response, and
-- cuts the stream into lines. A line is a JSON record (ParseExportLine); the events in it become
-- rows (MapEvent), which a producer thread hands to the scan. The browser build fetches the whole
-- response first and decodes it as the scan asks for rows. A search comes from the named
-- parameters of the table function, or from a table of an attached catalog.
--
-- Files, and the code that they model:
--   Prelude, Prelude/*   shared types, tests and lemmas; bytes, decimal digits, integers
--   External, External/* what the extension calls and this repository does not hold: DuckDB's
--                        StringUtil and Timestamp, yyjson, IEEE doubles. Each is a record of
--                        operations, beside a record of the documented laws that proofs use
--   Errors               exceptions, and code that may throw one
--   Logs/Query           src/logs_table.cpp: NormalizeSearchQuery, BuildExportBody, BuildIndexQuery
--   Logs/Severity        SeverityToNumber
--   Logs/Lookup          GetStr, LookupStr
--   Logs/Time            ParseIso8601ToNanos, EpochToNanos, ParseSplunkTimeToNanos
--   Logs/Attributes      kResourceKeys, IsResourceKey, IsInternalField, BuildResourceAttributes,
--                        CopyNonInternalFields, BuildLogAttributes
--   Logs/Row             ParseRawObject (in Row/Raw), MapEvent with its three memoised values as
--                        a state that the columns pass on
--   Logs/Export          ExtractEventsFromRoot, ThrowIfSearchError, ParseExportLine
--   Logs/Stream          the producer thread of StartExport: `pending`, `produced`,
--                        `limit_reached` and the pushed rows
--   Logs/Scan            the buffer between the producer and SplunkLogsScan: a step is a critical
--                        section of one thread, and a state is reached by any interleaving
--   Logs/Scan/Wakeup     the producer's wait for space, and the notifications that end it
--   Logs/Thread          StartExport as a whole: the export with its retries feeds Logs/Stream,
--                        and what that pushes is what Logs/Scan hands over
--   Logs/Bound           what StartExport and FetchBrowserResponse take from the bind data, and
--                        the scans of both builds from the request to the rows
--   Logs/Schema          GetSplunkLogsSchema
--   Logs/Browser         FetchBrowserResponse and SplunkLogsScan of the browser build
--   Secret               src/splunk_secret.cpp and src/include/splunk_secret.hpp:
--                        CreateSplunkSecretFromConfig, ValueToBool, GetSplunkCredentials
--   Catalog              src/splunk_catalog.cpp: ParseExplicitIndexes, ParseDiscoveredIndexes,
--                        AttachSplunk
--   Catalog/Entries      SplunkTableEntry, SplunkSchemaEntry and SplunkCatalog: CreateInfo, Scan,
--                        LookupEntry, LookupSchema
--   Catalog/Session      SplunkTransactionManager, and the operations that call ThrowReadOnly
--   Bind                 src/logs_table.cpp: SplunkLogsBind, GetSplunkLogsTableScan; and
--                        GetScanFunction of src/splunk_catalog.cpp
--   Extension            src/splunk_extension.cpp: LoadInternal, and the registration of the
--                        secret, the storage extension and the table function
--   Client/Connection    src/splunk_client.cpp and src/include/splunk_client.hpp: SplunkClient,
--                        NormalizeUrl, CopyConfigTo, GetConnection, AddBrowserAuthHeaders
--   Client/Retry         IsRetryableTransportError, RateLimitRetryDelaySeconds and the native
--                        AuthenticatedRequest; Retry/Stoll is std::stoll, and Retry/Pool the
--                        cached connection over the attempts
--   Client/Transfer      the native ExportSearch with its content receiver
--   Client/Sleep         SleepCheckingInterrupt
--   Client/Discovery     the native ListIndexes
--   Client/Browser       AuthenticatedRequest, ExportSearch and ListIndexes of the browser build
--   Tests/*              concrete runs, and the theorems at concrete arguments
--
-- In C++ ParseExportLine first checks the whole record for an error and then calls back for each
-- event. Here it returns the events, and the caller runs its callback over them; a record that
-- fails has no callback in either. A JSON document is a data type, with the text of a string as
-- its bytes; where the code goes through `const char *`, `c_string` ends a text at its first NUL.
-- Exceptions keep their arguments, not the wording of their message.
--
-- Time and other threads are parameters: a Network says what each attempt is answered and whether
-- the query is interrupted before it or in the wait behind it; an Export says at which number of
-- rows a wait for space finds the scan cancelled or interrupted. A wait is its number of seconds;
-- in Client/Sleep it is the rounds of SleepCheckingInterrupt, on the readings of a clock.
--
-- Fuel: the retry loops get `retries` + 1 rounds, and attempt `retries` never waits; the loop over
-- a chunk gets one round more than it has bytes, and each round takes a newline. Counters are
-- natural numbers: `attempt` is at most `retries`, a 64-bit integer, and `produced` counts rows in
-- memory. The shift of the backoff is the exception: it is undefined from 64 on, and the model
-- says so with an outcome of its own. The sum of nanoseconds is taken in the integers.
--
-- The thread of the producer and the scan share a buffer under a mutex, so each critical section
-- is one step, and the steps come in any order. The loops of the browser scan get one round more
-- than the response has bytes left; the calls of the scan are DuckDB's, which stops at an empty
-- vector, and one call more than there are rows is enough. A sleep of s seconds gets 10 * s + 1
-- rounds, each of which sleeps for a tenth of a second at least.
--
-- Not modelled: the connection's socket and mutex, the wording of messages,
-- what DuckDB does with registered functions, and empty answers that DuckDB asks a catalog for.
-- SplunkClient::Cancel shows only in that the transfer of a cancelled scan may throw.
pub mod Prelude
pub mod Extension
pub mod External
pub mod Errors
pub mod Logs
pub mod Client
pub mod Secret
pub mod Catalog
pub mod Bind
pub mod Tests
