-- ===== src/Lib.antt =====
-- Tallybook meters requests, prices them, proves usage by Merkle trees that a Soroban contract
-- anchors, and keeps custody of payment-channel commitments. This library models its core.
--
-- * Merkle/Leaf.antt is internal/merkle/leaf.go: a metered request as the bytes of an ScVal map and
--   their hash. Merkle/Tree.antt is internal/merkle/tree.go: `BuildTree`, `Fold`, `VerifyProof`.
--   Merkle/Leaf/Billed.antt speaks of both.
-- * Meter/Schedule.antt is internal/meter/schedule.go: `ParseSchedule` and `Lookup`.
--   Meter/Pricing.antt is internal/meter/pricing.go: `NewCatalog`, `VersionAt`, `Price`. A priced
--   request's amount is what a leaf holds, so Meter/Pricing/Charges.antt speaks of both.
-- * Stellar/ScVal.antt and Stellar/Xdr.antt are internal/stellar/xdr.go: the SDK's values and the
--   conversions from and to Go values. Stellar/Registry.antt is internal/stellar/registry.go,
--   Stellar/PriceBook.antt is pricebook.go, Stellar/Channel.antt is channel.go and
--   Stellar/Events.antt is events.go beside it; they encode and decode by Stellar/Xdr.
--   Stellar/Toy.antt is a strkey codec for the tests.
-- * Stellar/Rpc.antt is rpc.go beside it, the JSON-RPC client: a session is the client with its
--   counter and the network. Stellar/Auth.antt and Stellar/Invoke.antt are invoke.go: authorization
--   entries, and the way of a call from its simulation to its transaction's outcome. They speak to a
--   `Node`, which Stellar/Invoke/Node.antt makes of the client and a clock.
-- * Store/Files.antt and Store/Migrate.antt are internal/store/migrate.go and migrations_fs.go: the
--   migration files, and applying them to a database, one transaction each.
--   Store/Files/Applied.antt puts the two together.
-- * Config/Values.antt, Config/Secrets.antt and Config/Load.antt are internal/config/config.go and
--   secret.go: the environment, variable by variable, the operator's secret, and `Load`.
-- * Custody/Verify.antt is internal/custody/verify.go. Custody/Table.antt is the table, trigger and
--   constraints of internal/store/migrations/0003_commitments.sql, and Custody/Overlap.antt inserts
--   into it that overlap. Custody/Submit.antt is `Store.Submit` of internal/custody/store.go over
--   Custody/Verify and Custody/Table.
-- * Httpapi/Metering.antt is internal/httpapi/metering.go, the middleware that prices a request by
--   Meter/Pricing and has it recorded by Httpapi/Requests.antt, which is internal/store/requests.go
--   and migrations/0002_requests.sql.
-- * Prelude.antt holds what they share: byte strings, integers, results, and Go's text functions.
--
-- A Go function with an error is a function into `Result`, with a data type of errors for each
-- component; a wrapped error keeps its cause. A pointer that may be nil is an `Option`. A byte is a
-- number, a byte string or a fixed-size array is a list of them, and `*big.Int` is `ℤ`. A Go map is
-- a list of pairs. Machine integers are numbers: arithmetic on them, of the i128 halves, of request
-- ids, fees, sequence numbers and ledgers, has its wrap-around written out. Code that changes the
-- world, such as a database or the network, takes it as an argument and hands it on.
--
-- The loop of `BuildTree` over its levels is a recursion on fuel, of one round for each leaf, which
-- is enough since each level is shorter than the one before. The loop of `pollTransaction` has fuel
-- for seventeen rounds: every pause takes two seconds, and the deadline is thirty seconds away.
-- Every other loop is structural.
--
-- Parameters stand for sha256, ed25519, the strkey codec, XDR and JSON encoding, HTTP, URLs,
-- durations, the Unicode tables, and what the text of a migration does; a theorem names what it asks
-- of them. The database's way to fail is an argument of `submit`, of `handle` and of `migrate`. Not
-- modelled are the texts of errors, the contexts that only carry cancellation to a library, the
-- tests, two calls of Migrate on one database that overlap, and that the commitments table refuses a
-- channel that is no UTF-8 text; the table of requests does refuse such texts in the model.
pub mod Prelude
pub mod Merkle
pub mod Stellar
pub mod Store
pub mod Meter
pub mod Custody
pub mod Httpapi
pub mod Config
