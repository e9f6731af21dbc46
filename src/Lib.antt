-- ===== src/Lib.antt =====
-- Soraban files tax forms with the IRS: a service imports payments, determines what is to be filed,
-- plans batches and has workers submit them. A PostgreSQL adapter keeps all state, and workers of
-- several processes claim batches from it. The central concerns are how often a batch may be
-- submitted, and that no worker acts on a batch that another has taken over.
--
-- Files and what they model:
--
-- Lifecycle: postgres/internal/app/lifecycle.go, the contract of the service with the adapter.
-- Store.Tables: the tables of postgres/db/migrations/000001_initial.sql as lists of rows.
-- Store.Transaction: `beginFirm`, `commit`, `mapError` and `validateFirmID` of
--   postgres/internal/store/store.go. A call is a function of an `Environment` (the database's
--   clock, the rows that others have locked, what goes wrong) and of the tables.
-- Store.Claims, Store.Events, Store.Acknowledge: postgres/internal/store/filing.go,
--   `ClaimNextBatch`, `eventTransition` with the Record… calls, `terminalTransition` and
--   `CompleteAcknowledgment`. An UPDATE is a map over the rows with its WHERE as a test.
-- Store.Machine: all these calls as the steps of one machine, and histories of them.
-- Store.Plan: `PlanBatches` of postgres/internal/store/filing.go; what it takes from identity.go
--   beside it is the interface `Identities`, which Store.Identity.Xml fills.
-- Store.Identity: identity.go. `hashSequence` and `filingKey` are in the file itself, `formatCents`
--   in Store.Identity.Money, `batchIdentity` in Store.Identity.Reference with `filingKeyString` of
--   determination.go, `canonicalXML` in Store.Identity.Xml.
-- Store.Import: postgres/internal/store/import.go, `ImportDataset` with the CASE of its validation.
-- Store.Vendors, Store.Determination: postgres/internal/store/determination.go,
--   `DetermineDataset` and `PaymentExplanation`, with the view of classified payments of the
--   migration. Vendors are told apart in Store.Vendors.
-- Importer: service/internal/importer/source.go, `Open` of a file that is there, `Next`, `SHA256`
--   and `Close`, and the loop of `CopyFrom` over `paymentCopySource` of import.go.
-- Store.Status: postgres/internal/store/status.go, `ClientStatus` and `FirmStatus`.
-- Store.Exceptions: `Exceptions` of the same file.
-- Store.Rate: postgres/internal/store/rate.go, `AcquireCallPermit`, `Finish` and `Close`.
-- Worker.Backoff, Worker.Process: service/internal/filing/worker.go. A worker is a tree of the calls
--   it makes, with a branch for every result, so that it can be run against any database and IRS.
-- IrsClient: service/internal/irsclient/client.go, what `Submit` and `Status` make of a reply. Its
--   answers are those that Worker.Process branches on. IrsClient.Accepting has the replies that
--   it takes.
-- IrsStub: irs/internal/stub, the service that stands for the IRS. IrsStub.Model and
--   IrsStub.Intake are the store of model.go and its `record`; IrsStub.Money, IrsStub.Decoding and
--   IrsStub.Server are the decoding and the two handlers of server.go. IrsStub.Preflight relates
--   its rejections to the adapter's, IrsStub.Decoding.Filed what it reads to what was planned, and
--   IrsStub.Server.Understanding its answers to IrsClient.
-- Examples: the theorems at concrete inputs, and tests.
-- Shared: tests on numbers and texts, lists of rows that are related one by one, integers.
--
-- SHA-256, the UTF-8 bytes of a text, the order and the hexadecimal encoding of PostgreSQL, its
-- tests of a date and of white space, the order of the rows of exceptions and of Go's texts, the float64 of the stub and its random values are parameters.
-- So is Go's encoding/xml: its encoder is a function, its decoder gives the tokens and the values of
-- a payload. A file of payments is the list of what the CSV reader gives for it, a request the list
-- of its parts. Durations are nanoseconds in ℤ, instants microseconds in ℕ, and one call has one
-- instant. Calls on the tables are transactions, one after the other; rows that another transaction
-- has locked are skipped by a claim, as SKIP LOCKED does.
--
-- Loops on fuel: the grouping of filings into batches has the number of filings as its fuel, and
-- that every filing is in a batch shows that it is enough. A decimal number has at most twenty
-- digits, which are enough for 64 bits. Copying the rows of a file takes as many rounds as it has
-- records, and one. The stub draws random values until one is new; where the list of values that it
-- is given is used up, it gives no result.
--
-- Not modelled: the connection pool, row-level security, the advisory locks beyond the point at
-- which they are taken, the goroutines of `Run`, the discovery of files and gzip, HTTP
-- itself and the requests that the client builds, the command line, the web pages and the
-- configuration.
pub mod Examples
pub mod Importer
pub mod IrsClient
pub mod IrsStub
pub mod Lifecycle
pub mod Shared
pub mod Store
pub mod Worker
