-- ===== src/Lib.antt =====
-- The Kubernetes operator that keeps external monitors of Mackerel in the state that custom
-- resources declare: for each `ExternalMonitor` resource it finds the live monitor, plans what to
-- do, calls the Mackerel API and reports in the status of the resource. A marker in the memo of a
-- monitor says which resource and which operator own it.
--
-- The parts, with the files that they model:
--   Prelude     shared names and lemmas: texts as lists of bytes, equality tests, a stable sort,
--               results.
--   Ownership   internal/ownership/marker.go. Pattern is the matching of the one regular expression
--               (the leftmost match, greedy runs), Escape the percent encoding, Marker
--               `BuildMarker`, `ParseMarker`, `ApplyMarker`, `RemoveMarker`; its children hold
--               their laws.
--   Api         api/v1alpha1/externalmonitor_types.go, the types of the resource; Scheme is
--               groupversion_info.go, their registration.
--   Monitor     internal/monitor/model.go and dualstack.go; Monitor/Hash is hash.go.
--   Planner     internal/planner/planner.go; Headers, Match, Decisions and Deletion hold the
--               specifications of its comparisons and of its two decisions.
--   Provider    internal/provider/mackerel.go: Convert the conversions, Operations the methods, and
--               Result the errors (with internal/provider/provider.go); New is
--               `NewMackerelProvider`.
--   Source      internal/source/externalmonitor.go, the desired state of a resource. Admission has
--               the bounds of the schema (api/v1alpha1/externalmonitor_types.go).
--   Program     programs that call the Mackerel API, the Kubernetes API and the clock; Runs says
--               what it is for all runs of a program to have a property.
--   Service     the monitors that Mackerel keeps, by their identifiers, and what a call may do to
--               them; Leads is what holds at the end of every run, Server a service with a state
--               that programs run against, and Honest a service that tells how things are.
--   Refinement  what one run of `Reconcile` may do to the monitors, as one abstract step; History is
--               of sequences of runs, by any reconcilers and for any resources; Search and Cleared
--               are of a deletion against an honest service.
--   Status      internal/status/externalmonitor.go.
--   Controller  internal/controller: Secrets is headers.go, with Once for its cache; the others are
--               externalmonitor_controller.go, with Find for `findActual`, Patch for the patches of
--               status and finalizers (Retried: the finalizers under concurrent writes),
--               Watch for `externalMonitorsForSecret` and `SetupWithManager`, and Reconcile for
--               `Reconcile`, whose halves are Deletion and Upsert. The other children of Reconcile
--               hold what is proved of its runs: Settled of a resource in order, Convergence of one
--               that was just written, Creation of one that has the finalizer but no monitor,
--               Renewal of one whose monitor has drifted, Removal of one that is being deleted,
--               Admitted of one that the API server admits and whose monitor is read back, Blocked
--               of one with a header that cannot be resolved; Retry says when a resource is
--               reconciled again, and Truthful what a status that is ready says; Live is what the
--               reconciliations of a live resource share.
--   Start       cmd/main.go: CommandLine the flags, Servers the options of the servers and of the
--               manager, Types `init`, Validation and Guarantees what holds of a process that starts.
--   DeepCopy    api/v1alpha1/zz_generated.deepcopy.go: Cells is the memory, with pointers as
--               addresses, Values and Kept say what a pointer means, Parts and Resource have the
--               values of the copies, Independent that nothing is shared; Items are the copies of a
--               list of resources, with ItemsIndependent.
--   Tests       the theorems at concrete inputs.
--
-- `Reconcile` is a `Program`: a tree with a branch for every answer that a call can have. A
-- statement about all of its runs therefore holds for all answers, errors included, and all
-- orders in which other clients change what is outside. The early returns of the Go code are
-- functions for the rest of the body, taken by the result that decides.
--
-- In Service, a call may fail at any time, and a write may have taken effect or not, whatever the
-- answer; a monitor that is read is the one that stands there, a list may leave monitors
-- out, a new monitor gets a free identifier, and the answers of the Kubernetes API are arbitrary but
-- for the name of the resource that is read. Of an honest service, a list holds all monitors, a
-- deletion that succeeds has removed the monitor, and one that finds it missing is right. No other
-- client of Mackerel writes a monitor while a run goes on.
--
-- A Go string is the list of its bytes. A pointer or a slice that may be nil is an `Option`. An
-- `int` is an integer, and the conversions to and from `uint64` have the tests of the source, for an
-- `int` of 64 bits. A map is an association list. All recursion is on lists, except that the attempts
-- of `retry.RetryOnConflict` are counted by a number of the library.
--
-- Parameters, which stand for code of libraries: `json.Marshal` and SHA-256 (`Digest`: 32 bytes),
-- `float64` (`Float64`: integers up to 2^53 are exact), `meta.SetStatusCondition` (`Conditions`),
-- the finalizer functions (`Finalizers`), and the semantic equality of statuses, the texts of
-- errors and the number of attempts (`Libraries`), the manager of controller-runtime (`Platform` and
-- `Manager`: the errors of its calls), the schemes of apimachinery (`Schemes`) and the copy of
-- metadata (`ObjectMetaCopy`). The answers of
-- mackerel-client-go and of the Kubernetes client are arbitrary.
--
-- Not modelled: which of the two Kubernetes clients reads (`apiReader`), logging, the parsing of
-- flags and the texts of wrapped errors, and the helpers of the end-to-end tests (test/utils).
pub mod Prelude
pub mod Ownership
pub mod Api
pub mod Monitor
pub mod Planner
pub mod Provider
pub mod Source
pub mod Program
pub mod Status
pub mod Service
pub mod Refinement
pub mod Controller
pub mod Start
pub mod DeepCopy
pub mod Tests
