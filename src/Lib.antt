-- ===== src/Lib.antt =====
-- Models of mirage-chaff, a local interception proxy that answers requests for blocked domains with
-- decoys, and proofs about them. The program reads the name a client wants (TLS or QUIC), matches
-- it against the operator's rules, and serves a stub, a decoy or the origin's answer; an
-- administration site changes the rules.
--
-- Base: what the other parts share. Go strings and slices are lists of numbers (Text), maps are
-- association lists with one entry for a key (Dict), code that indexes slices runs in Scan, where
-- an index out of range is `panic` and a loop out of fuel is `stuck`.
--
-- Policy (internal/policy): Glob is compileGlob and the matching of its patterns, Rules is compile,
-- Match and CatalogRefs, Load is Load and ValidateBytes, Engine is Engine with its temporary
-- overrides and Decide, Aggregator is the aggregator of unmatched requests, whose specification is
-- Aggregator.Lru. The YAML decoder is an argument. Case mapping is that of ASCII.
--
-- Passthrough (internal/passthrough/sni.go): Sni is parseSNI, Peek is PeekClientHello, Prefix is
-- prefixConn. A connection is the list of bytes that it will still deliver.
--
-- Quic (internal/quic): Varint is readVarint, Frames is cryptoFrames, Join is joinCryptoChunks,
-- Initial is extractInitialCrypto, Extractor is SNIExtractor and ParseInitialSNI. HKDF and AES are
-- an argument (Initial.Crypto), of which only documented output lengths are assumed.
--
-- Server (internal/server): Breaker is the circuit breaker, Limits the rate limiter, whose tokens
-- are float64 with the rounding of each operation (Base.Float; no fused operation, as on amd64),
-- Fallback what an unmatched request is given and the stub-only gate, Intercept handleIntercept,
-- which puts Policy, RuleCatalog, Breaker and Limits together. Whether forwarding fails and whether
-- the mimic handler serves are arguments. Routing is route and doPassthrough, on Passthrough and
-- Policy. Process is the running server and its start (cmdRun, Run up to the listeners,
-- validateRefs, recorderOptions, with mimic.New, forward.New and resolver.New), Reload is reload,
-- and Reload.Events the server at work, as a sequence of reloads, requests and temporary overrides.
-- What the disk and the network give for the configuration, the stub catalog's names and the
-- imported rules is a reading, an argument of the start and of each reload.
--
-- Config (internal/config/config.go): the fields that the models read, Check and Defaults. Whether a
-- text is a duration and what it stands for, and the parsing of an address, are arguments; a duration
-- is not negative, and the two readings of the suffix d, in config and in aghmanaged, are taken as one.
--
-- RuleCatalog (internal/rulecatalog/catalog.go): Store.Lookup and Entry.VerifiedStubCatalog.
--
-- Mimic (internal/mimic): Generator is Generate with its helpers, Classify the families of media,
-- Cache the bounded cache of decoys, Range is parseRange. SHA-256 is an argument, of which only the
-- 32 bytes of a sum are assumed.
--
-- Stub (internal/stub): Serve and applyCORS. What the catalog renders is an argument.
--
-- Admin (internal/admin): Sessions is sessionManager (session.go), Users the accounts, roles and the
-- audit log (store.go) with BootstrapInitialAdmin (admin.go), Access is withAuth, handleLogin and
-- handleChangePassword (admin.go), Accounts the logout and the handlers of the accounts
-- (handlers.go), and answer_all the site as a sequence of requests. A request is one step, though
-- the program looks up an account, verifies the password and makes the session under three locks.
-- Password hashes, random tokens, VerifyPassword and whether the store can be saved are arguments.
-- Logins through OIDC are left out, as is the dummy hash that only evens out the time of a login.
--
-- Managed (internal/aghmanaged/manager.go): Types is the state of Manager and its data, Rows the
-- presets, overrides over entries and rows, Sources is ListSources, UpsertSource and DeleteSource,
-- Imports the import of a list and largeChange, Sync is SyncSource, ApproveSource, RejectSource and
-- SyncDue, Groups and Conflicts are buildConflicts, Resolve is ResolveConflict and
-- ResolveConflictByPriority, Overrides is PatchEntry, BulkPatchEntries and, in Overrides.Rollback,
-- Rollback, Feed is feedItem and rewriteLines, Target the resolution of the rewrites' target, Items
-- and Generate are generate with persistGenerationLocked, Settings is SetConfig, SetPreset and
-- SetEmergencyEmpty, Paging and Catalog are CatalogPage, CatalogFacets and SourceEntriesPage,
-- PendingDiff is pendingDiffLocked and PreviewSource. Invariant has the steps of the whole state.
-- SyncSource fetches without the lock: finish_sync takes the source from before the fetch and the
-- state from after, so the steps overlap as they may in the program. What a fetch and the resolver
-- give, the parsing of an address, the hash behind an id, and the times are arguments; iteration
-- over a map is that over its association list, whose order the sorting of the source takes away
-- again. Stored is copyStateLocked and what Open makes of a stored state. Left out: the JSON text of the
-- stored state and its writing (persistState), fetchSource, nextSync, ParseManualDomains, and the
-- fields of FeedStatus that only repeat settings.
--
-- Observability (internal/observability/record.go): Records is the data of Recorder, Redact is
-- RedactURL with the standard library's parsing of a query, Modes what each mode keeps of a record,
-- Recorder is Log with its ring, its counters and the record that it writes, Snapshot and
-- SnapshotSince, Analytics the summaries. Recorder.Stream has the loop of handleTrafficStream
-- (internal/admin/handlers.go). Counters are not cut to 64 bits.
--
-- Every operation that holds a lock in the source is one function from a state to a state; a call
-- sequence is a list. The clock's reading and random tokens are arguments. Times are nanoseconds.
--
-- Fuel: the loops of parseSNI and cryptoFrames get the length of their input, and each round takes
-- at least one byte of it; the loop of keystream gets the number of bytes wanted, and each round
-- adds 32; the loop of storeDecoy gets the number of entries, and each round drops one; the binary
-- digits of a float64 are counted with the number itself, which each round halves.
-- PeekClientHello has the eight rounds of the source.
--
-- Not modelled: listeners and their draining, forwarding, the relay of UDP flows, the administration's
-- other HTTP handlers and the text of its store, the hashing of passwords, the parsing of rule lists,
-- the text of the configuration file, certificates, resolving and the text of the metrics.
pub mod Base
pub mod Policy
pub mod Passthrough
pub mod Quic
pub mod Server
pub mod Mimic
pub mod Admin
pub mod Config
pub mod Managed
pub mod Observability
pub mod RuleCatalog
pub mod Stub
