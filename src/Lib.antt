-- ===== src/Lib.antt =====
-- The preprocessing worker of SFA for Enduro, in the order in which a package passes through it.
--
-- The preprocessing workflow (internal/workflows/preprocessing.go) receives a SIP, checks it, submits
-- its metadata to APIS and writes the preservation package; the poststorage workflow
-- (internal/workflows/poststorage.go) later delivers the METS file of the stored AIP to APIS. The
-- two share the metadata of internal/apis/custom_metadata.go. Both talk to APIS through the
-- activities of internal/apis, and hack/apis-mock serves APIS for local development.
--
-- Workflow: a workflow is a state monad (`Wf`). The state is the list of activities that were run,
--   newest first, each with its arguments and its answer, and the workflow's result. A function goes
--   on with a value or stops the workflow. `Workflow.Ensures` has the rules for reasoning about it.
-- Childwf: the results of github.com/artefactual-sdps/enduro/pkg/childwf, which are parameters, with
--   the laws on the outcome that the workflows rely on.
-- Preprocessing: `Execute`. `Events` has the activities, and the environment that answers each of
--   them as a function of all that was run before, so that every theorem holds for any behaviour of
--   the activities. `Intake`, `Validation`, `Import` and `Packaging` have the stages, and `Execute`
--   composes them. Where a helper of the source returns false after it recorded a failure, the model
--   stops the workflow, since `Execute` returns its result there. `Invariant` and `Trace` carry the
--   two proofs about complete runs.
-- Poststorage: `Execute`, `SessionHandler` and `getApisMetadata`. `Invariant`, `Sessions`, `Delivery`
--   and `Retries` hold what is proved about the loop over the sessions.
-- Apis: `Metadata` is internal/apis/custom_metadata.go, `Status` the types of internal/apis/gen that
--   are read, `Poll` the two polling activities, `Create` the two that post, `Client` is
--   internal/apis/client.go with the worker's set-up of the client.
-- Amss: internal/amss, over the contents of the files.
-- ApisMock: hack/apis-mock/internal/mock/server.go, with the polling activities run against it.
-- Activities: internal/activities. `ValidateStructure`, `VerifyManifest`, `TransformSip`, `Unbag` (with
--   internal/localact/is_bag.go) and `WriteIdentifierFile` are the files of these names; `AddPremis` has
--   those that add objects, events and agents, `AddPremisValidation` the one that adds an event for each
--   file a validator checks.
-- FileOps: the calls that change the file tree, as a state monad over the calls so far; each call is
--   answered by the environment. `Follows` and `Succeeds` have the rules for reasoning about it.
-- Manifest: internal/manifest/manifest.go, on the tokens of Go's encoding/xml.
-- Identifiers: internal/identifiers/identifiers.go.
-- Persistence: internal/persistence/ent/client and internal/localact/check_duplicate.go, over a
--   database that is a parameter with the laws of its unique index. `Registry` is the abstract view.
-- Formats: internal/fformat, internal/fvalidate and internal/activities/validate_files.go.
-- Config: internal/config/config.go and internal/apis/config.go.
-- Sip, Pips: internal/sip, internal/enums and internal/pips.
-- Premis: internal/premis. `Xml` is etree, a parameter with its laws, `Document` the functions that
--   change a document, `Order` and `Entities` the order of the entities, `Edits` sequences of edits.
-- Regexp: regular expressions, for `SIP.HasValidName` in `Sip.Names`.
-- FileSystem, FilePath: internal/fsutil, and the functions of Go's path/filepath that are used.
-- Prelude: the names that all modules share, and the functions of Go's strings, strconv, slices and
--   fmt. `Maps` has Go's maps: a `range` visits the entries in an order that is a parameter. `Sets` has
--   the sets of golang-set as a parameter with its laws, and `Integers` Go's int and time.Duration.
--
-- The file tree, the activities' answers, JSON, the digests, UUIDs, the database, viper, siegfried and
-- the run commands, `fsutil` of go.artefactual.dev/tools and the answers of APIS are parameters. The
-- loop over sessions recurs on the attempts that are left, five at the start, as in the source. The
-- polling loops end only by an answer: they recur on fuel, without a result when it is used up, and
-- the theorems on the mock service give fuel that is enough. `%q` keeps the characters beyond ASCII,
-- and `strings.ToLower` is written out for ASCII. The search in a PREMIS document has an answer for every
-- name, where etree panics for one with an apostrophe. Times, logs, and the timeouts and retries of Temporal
-- are not modelled. Neither are generated code, the start of the worker, and the remaining
-- activities of internal/activities.
pub mod Prelude
pub mod FilePath
pub mod FileSystem
pub mod Sip
pub mod Childwf
pub mod Workflow
pub mod Premis
pub mod Apis
pub mod Amss
pub mod Pips
pub mod Preprocessing
pub mod Poststorage
pub mod ApisMock
pub mod Activities
pub mod Manifest
pub mod Identifiers
pub mod Persistence
pub mod FileOps
pub mod Config
pub mod Formats
pub mod Regexp
