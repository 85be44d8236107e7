-- ===== src/Lib.antt =====
-- Verification of the ldapium management backend (Go, ui/backend).
--
-- The backend is an HTTP server in front of an OpenLDAP directory. A request passes guards that
-- keep state in memory, a handler calls the directory client, and the answer goes back through an
-- error envelope. The modules follow the parts that decide something by themselves; each states
-- at its top which code it is about.
--
-- - Idempotency (ui/backend/internal/idempotency, ui/backend/internal/httpapi/idempotency.go): a
--   write may carry an Idempotency-Key. Key is ParseKey, Keyring the keys of request fingerprints
--   and their rotation, Store the bounded table of records with Begin, Complete, Release and Sweep
--   (a record's identity is a serial number, for the comparison of pointers in a handle), Outcome
--   what runIdempotent keeps of a handler's answer, and replays, Body the JSON of a keyed request
--   and strictBody, Request the middleware up to the handler and the runs of the server, in which
--   other requests arrive and end while a handler runs. Body.Sample is an encoding for the tests.
-- - Session (ui/backend/internal/session/store.go): the store of logins. A bound connection is a
--   number, and closing one adds it to a list, so that a connection closed twice or never shows.
-- - Limiter (ui/backend/internal/httpapi/login_limiter.go): Table is the bounded table of failures
--   per source with its list by age and its heap, Login the calls allow, admit, recordFailure and
--   failureCount over it.
-- - Passwords (ui/backend/internal/httpapi/password_limiter.go): the limit per account that counts
--   attempts in flight. A `finish` closure is a handle with the flag of its sync.Once, so that
--   closures called twice, late or never are runs of the model.
-- - Targets (ui/backend/internal/httpapi/machine_write_cred_limiter.go): the reservation of an
--   entry for one password write of a machine client at a time, with closures as in Passwords.
-- - Throttle (ui/backend/internal/httpapi/machine_limiter.go): the throttle of machine requests
--   per address, its reservations beside a table of Limiter.
-- - Listing (ui/backend/internal/ldapclient/page.go, ui/backend/internal/domain/page.go): the
--   bounded selection of a page, its assembly from the second lookup and the three filters.
-- - Validate (ui/backend/internal/validate/validate.go): the checks of names, mail
--   addresses, passwords and DNs.
-- - Revision (ui/backend/internal/domain/revision.go, ifMatchCSN of
--   ui/backend/internal/httpapi/conditional.go, ui/backend/internal/ldapclient/assertion.go):
--   entry revisions, their entity tags and the filters of conditional writes.
-- - Schema (ui/backend/internal/schema): the tokenizer of tokenize.go and ParseObjectClass of
--   objectclass.go, a cursor being the list of the tokens that are left; Schema.Effective the
--   index of classes and EffectiveAttributes, its three sets the state that a visit passes on.
-- - Backup (ui/backend/internal/backup): Backup, Records and Retention the job records of jobs.go
--   and jobs_store.go with the limits on them, Reconcile the verdict of jobs_reconcile.go on a run
--   whose server is gone, Manager the state of manager.go with its writes; Start, Cancelling,
--   Startup and Finish the operations of manager_jobs.go and run.go; Settings, Places and Saving
--   the policies of model.go, the names of storage.go and connections.go, and Save. System is a
--   run of the manager: a worker is an entry of `workers`, and an interleaving of requests, exits,
--   polls and ticks is a list of events. Backup.SingleFlight is about such runs.
-- - Pipeline (ui/backend/internal/httpapi/machine_write_pipeline.go, machine_write_ops.go,
--   machine_write_attributes.go, machine_conditional.go): a write of a machine client. Parameters
--   reads the request, Authorize is the steps 4 to 6, Execute the steps 8 and 9 and Serve the whole,
--   an answer being the list of what was done outside, in order, and the reply; what the limiter,
--   the idempotency record, the directory and the premise answer is the record `World`. Sends and
--   Password are about the sending of a password, Slot and Guards about what comes before.
-- - Prelude: tests on numbers, lists measured by native numbers, decided equality, maps as
--   association lists, bytes.
--
-- How the parts meet: the middleware of Request reads the key with Key and the body with Body,
-- calls Begin of Store with a fingerprint of Keyring, and after the handler Outcome completes or
-- releases the record; the login handler asks Limiter by source before it creates a Session, and
-- a change of a password asks Passwords by account before it checks the old one; a conditional
-- write takes the revision that Revision read from its header to the directory client; a list
-- handler gives the last position of a page of Listing back as a cursor. A write of a machine
-- goes through Pipeline, which reads its If-Match with Revision, begins its record in the
-- middleware of Request and holds the reservation of Targets while it sends a password. A start
-- of a backup asks the manager of Backup, whose worker runs beside it and whose end settles the
-- job.
--
-- Conventions. Names are the source's in snake case. A time is a number of its clock's ticks,
-- read by the caller and given to each operation; a duration is one too. Where the code subtracts
-- times the model says on which side it adds. A mutex is held for a whole method, so that a
-- method is one step, and an interleaving of requests is a list of steps, with any times. Go's
-- maps are association lists in which a key occurs once; no part depends on their order. A text
-- is its list of bytes where the code looks into it. Of a heap of container/heap the code uses the
-- root: Listing takes the greatest candidate of a list; Limiter keeps the keys in the order of Less,
-- with a Push, Fix or Remove wherever the code has one, and takes the first. A count that the code keeps as an int and never takes below zero is a natural number.
--
-- Backup counts time in nanoseconds, the zero time being 0, and sort.Slice is taken to be stable.
--
-- Bounds and fuel. Loops are recursion on lists, and on fuel in six places. The tokenizer takes
-- the length of its text, and Schema.Lexing shows that the text is then read to its end; the parser takes the
-- number of its tokens, since each turn reads at least one; a visit of a class takes one more
-- than the index has entries, since every visit on the way to it has marked another of them;
-- Listing.Traversal.traverse takes a number of pages, and its theorem gives the length of the
-- listing as enough; a new job tries ten identifiers, as the code does; the digits of a length
-- are written with one more turn than its value. The loop that waits for an orphan runs over the
-- list of what its polls find.
--
-- Parameters: HMAC, SHA-256 and hexadecimal encoding of the keyring, the decoder of encoding/json
-- (a body is the value that it reads), the text that json.Marshal gives a value,
-- strings.EqualFold, strings.ToLower of the listing and of the schema, the sort key of the
-- listing, the parsing and unmapping of addresses (net/netip) of the limiter, the escaping and
-- the compilation of LDAP filters (go-ldap), decoding hexadecimal text and comparing policies
-- (reflect.DeepEqual) in Backup; the disk, the lock of the worker, the random bytes and whether a
-- write succeeds are arguments of its operations. The comparisons of names of
-- machine_write_guard.go are the interface Pipeline.Policy.
--
-- Not modelled: normalizeDN (calls of go-ldap), random identifiers (given by the caller), log
-- lines and metrics; running the backup worker, its process group and its files; the audit record
-- of a machine write (classify), its deadlines and Retry-After; the budget and the rest of
-- machine clients, cursors, patches, the pattern of an e-mail address and configuration; and what
-- only moves data, the handlers, the directory client's searches and the server program. The web
-- interface, the image, the charts and the scripts are not Go.
pub mod Prelude
pub mod Idempotency
pub mod Session
pub mod Limiter
pub mod Passwords
pub mod Listing
pub mod Targets
pub mod Throttle
pub mod Validate
pub mod Revision
pub mod Backup
pub mod Pipeline
pub mod Schema
