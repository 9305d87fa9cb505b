-- ===== src/Lib.antt =====
-- Ajar Family: parental controls with one shared policy model. A backend keeps families, children,
-- devices, rules and access requests, and serves each device a signed snapshot of its policy; the
-- device evaluates every request against the snapshot with the shared evaluator.
--
-- The parts, and the file that models each:
-- Text, Prelude: strings and lists of the platform, with sorting (Prelude/Sort) and Boolean tests.
-- Web: the platform's URL class, as a record of operations that every definition takes.
-- Host, Host/Candidates: shared/categories/category-data.ts: normalizeHost, hostCandidates,
--   categoriesForHost.
-- Safety, Safety/Floor: shared/safety/safety-floor.ts: isSafetyFloorHost and its list.
-- YouTube, YouTube/Canonical, YouTube/Forms: shared/youtube/youtube-normalize.ts: normalizeYouTube and
--   youTubePolicyKey.
-- Policy/Model, Policy/Match, Policy/Evaluate: shared/policy/policy-model.ts: the types, matchTarget,
--   normalizeExactUrl, matchesPattern and the reference evaluator `evaluate`. Its proofs: Ranking (the
--   comparisons are preorders), Decisions and Verdicts (which rule decides), Guarantees, Pruning, Hosts,
--   Tightening and Chain (the reported CNAME chain), Playlists, Limits.
-- Targets, Targets/Shapes, Targets/Specific: shared/policy/target-validate.ts.
-- Cname, Cname/Chain: shared/net/cname.ts: followCnameChain.
-- Bloom, Bloom/Bits, Bloom/Members: shared/categories/bloom.ts: building and querying the compact
--   category filters.
-- Windows/Hosts, Windows/Filters, Windows/YouTube, Windows/Evaluate: windows/extension/background.js and
--   youtube-normalize.js: the port of the evaluator. Its proofs: Hosts/Agreement, YouTube/Agreement,
--   Evaluate/Walks and Evaluate/Agreement (against the shared evaluator), Evaluate/Matched (the ids it
--   names).
-- Windows/Resolver, Windows/Resolver/Agreement: windows/extension/cname-resolve.js: the cached chains.
-- Windows/Worker, Windows/Worker/Pages: the service worker of background.js: decide, spendOnce,
--   applySnapshot, restoreCachedPolicy, and the events of requests, routes and tabs. Its proofs: Spending,
--   Verdict, Clock.
-- Samples, Tests: sample inputs, tests and the theorems at concrete inputs.
-- Backend/Model: backend/src/domain/model.ts: the entities (AuditEvent without its detail).
-- Backend/Table, Backend/Table/Laws, Backend/Store: backend/src/store/memory.ts: a Map is the list of its
--   entries in insertion order; the tables that the services below use.
-- Backend/Model/Accounts, Backend/Store/Accounts, Backend/Store/Cascades: users, sessions, tokens and
--   passkeys of model.ts and memory.ts, and the cascades that erase a child, a family and an account.
-- Backend/Email, Backend/Family: backend/src/domain/services.ts: looksLikeEmail and FamilyService. Its
--   proofs: Parents (adding a parent), Erasure (removing a child).
-- Backend/Auth, Backend/Auth/Registration: AuthService. Its proofs: Reset (resetting a password).
-- Backend/Outcome: a DomainError as a value, with the store that the operation leaves.
-- Backend/Enrollment, Backend/Enrollment/SingleUse: backend/src/domain/services.ts: EnrollmentService,
--   DeviceService.heartbeat and remove.
-- Backend/Scopes, Backend/Scopes/Mapping: the roles, durationToExpiry, defaultScopeFor, applicableScopes,
--   mapScope.
-- Backend/Grants, Backend/Grants/Once: ApprovalService.consumeGrant and expireStaleRequests.
-- Backend/Assembly, Backend/Assembly/Complete, Backend/Assembly/Versions: PolicyService: buildSnapshot,
--   syncSince, clampSyncedVersion, addRule, revokeGrant, removeRule.
-- Backend/Requests, Backend/Requests/Deduplication: ApprovalService.createRequest,
--   normalizeReferrerHost.
-- Backend/Devices, Backend/Devices/Visible: DeviceService.listWithStatus, PolicyService.getDefaults and
--   setDefaults.
-- Backend/Categories, Backend/Categories/Coverage: backend/src/categories/provider.ts: compileFilters and
--   replace.
-- Backend/RateLimit, Backend/RateLimit/Bound, Backend/RateLimit/Patience:
--   backend/src/http/rate-limit.ts: RateLimiter and clientKey.
-- Backend/Days, Backend/Days/Midnight: backend/src/domain/time.ts: the end of a local day.
-- Backend/Decide, Backend/Decide/Once: ApprovalService.decide.
-- The services call one another as in the source: decide calls addRule, an approval's rule reaches a
-- device by buildSnapshot, and the device evaluates it with Policy.Evaluate.evaluate.
-- An operation of a service takes the time of its one clock reading and the fresh ids that it uses; it
-- returns an Outcome. The category provider, the snapshot's signature and the calendar (the
-- platform's zones, wall clocks and Date.UTC) are arguments; a duration in minutes is a whole number.
-- The RangeError of a time that no Date holds is an error code of its own.
--
-- How the model reads the source:
-- A string is the list of its character codes (Text); texts are ASCII, so toLowerCase is ASCII's.
-- An ISO-8601 time is the instant that Date.parse reads off it, an Option ℕ of milliseconds from 1970
-- on, `none` for NaN. A priority is an integer ℤ; a missing one is 0, as `?? 0` says. Array.sort is the
-- stable insertion sort by the source's comparator. A Set that is only asked `has` is a list. The
-- `reason` of a verdict is the data type Reason in place of the built string. The category filters of a
-- context are a function from hosts to categories. Optional fields are Option; a text is truthy when
-- it is not empty, as in the source.
-- A worker's event takes the two clock readings performance.now and Date.now; a sum of the two that
-- would be negative is 0. An extension's filters are held with their bits decoded.
-- The URL class, the DNS resolver, the clock, time zones, fresh ids, secrets, signature checks,
-- logarithms and base64 are parameters. The laws assumed of them are hypotheses of the theorems that use
-- them: base64 gives byte arrays back, and a zone is at most 14 hours ahead of UTC and does not change
-- its clocks between two instants that are named. Loops are structural recursion; followCnameChain's loop
-- is recursion on the rounds that
-- are left, which is the source's own bound.
--
-- Not modelled: the HTTP layer, the SQL store, mail and push delivery,
-- signing, password hashing, passkeys, the platform adapters in Swift and C#,
-- the Safari extension, the web console, and the Windows extension's messaging, enrollment and pages.
pub mod Prelude
pub mod Text
pub mod Web
pub mod Host
pub mod Bloom
pub mod Safety
pub mod Windows
pub mod YouTube
pub mod Policy
pub mod Targets
pub mod Cname
pub mod Backend
pub mod Samples
pub mod Tests
