-- ===== src/Lib.antt =====
-- A model of ahv-to-ove-operator, the Kubernetes operator that moves VMs from Nutanix AHV to
-- OpenShift Virtualization.
--
-- The program has two parts. The reconciler (controllers/) reads an AHVMigration resource, makes
-- calls to Prism, to the API server and to the guests, and writes the status of the resource; one
-- call of Reconcile is one step of a state machine over the phases. It reaches Prism by the
-- client of controllers/prism_client.go, and the guests by the scripts of
-- controllers/guest_prep.go. The delta-sync job (deltasync.go) copies the regions of a disk that
-- changed between two snapshots from a file on NFS to the disk of the new VM; the reconciler
-- makes a config map with the regions and a job for each disk and round.
--
--   Base           texts as lists of bytes, lists over the native numbers, int64 and int32 with their
--                  wrap-around, decimal numbers
--   Regions        mergeRegions, prepareRegions and totalRegionBytes of controllers/cbt_sync.go.
--                  Coverage, Separation, Widening and Kept: which bytes the merged regions hold, and in
--                  what form the list is; Disjointness: that they share no byte
--   Runner         runDeltaSync, syncRegion and writeZeros of deltasync.go on two files
--                  whose reads and writes may fail or be short. Copy, Region, Retry, Transfer: one
--                  region, its three attempts, the job; Round: a round of the synchronisation, from the
--                  changed regions to the bytes of the target; Loading: loadRegions, and its
--                  round trip with renderRegions; Flags, Command: the flags of the command, its exit
--                  status and the dispatch of main.go; Command/Jobs: the job of the reconciler run by
--                  it; Pool: the goroutines, as a step relation on their states
--   Api            api/v1alpha1/ahvmigration_types.go, and the errors that the controllers tell apart
--   Resources      the objects that the reconciler makes: names, data volumes
--                  (controllers/cdi_resources.go), virtual machines (controllers/kubevirt_resources.go),
--                  config maps and jobs of a round (controllers/cbt_sync.go)
--   Steps          the monad of actions over a trace, and the rules for what an action ends with
--   Prism          controllers/prism_client.go: doRequest and the monad of the methods over the trace of
--                  their requests. Documents and Decoders: JSON values and what is read from them;
--                  Client: NewPrismClient; Vms, Snapshots, Changes, Images, Power: the methods.
--                  Trails, Requests: proof rules; Waits, Making, Progress: the waits; Shutdown,
--                  Fallback: ShutdownVM; Attached, Sorting, Ordering, Paths: GetVMSnapshotPaths; Inventory:
--                  GetVMByUUID; Replies: ChangedRegions; Client/Accounts: NewPrismClient
--   Guest          controllers/guest_prep.go below its handler: Ssh, WinRm and the default script;
--                  Ran, PowerShell, Ports: what a script has done where it ends without an error
--   Controller     Effects: the calls of a handler, as a monad over the log of the calls and their
--                  answers; Status: setCondition, failMigration and the patch of the status; then the
--                  handlers of controllers/ahvmigration_controller.go (Start, Images, Volumes, Import,
--                  Warm, FinalSync, Machines, Testing, Reconcile), of controllers/guest_prep.go
--                  (GuestPrep) and of controllers/cbt_sync.go (Delta; Delta/Bytes, Starting, Convergence:
--                  what a round does with the regions that Prism has named)
--   Controller/Moves, Controller/Evidence, Controller/Gates
--                  proofs: the diagram of the phases, and what a handler has been told before it writes
--   Checks         concrete runs
--
-- A handler is a function of the log so far; the environment answers each call as it likes, and
-- its answers may depend on all that went before. So every interleaving with the outside is
-- covered, and a statement about a run holds whatever the cluster and Prism do. The methods of
-- the Prism client and the guest scripts are actions of the same kind over the trace of their own
-- requests; the handlers do not call them, but take each method as one call of their environment,
-- with any result of its type.
--
-- Bounds and fuel. The theorems on regions ask that offsets, lengths and their sums stay below
-- 2^62, so that no int64 sum wraps. The widening loop of prepareRegions has fuel 4; the gap grows
-- fourfold from 4 MiB to 1 GiB, so four rounds are enough. The loops of the runner have one round
-- for each byte of the region: each round moves at least one byte, or ends the loop with an
-- error. The waits of the Prism client have the number of attempts of the source, 60 or the
-- argument. The loop over the flags has one round for each argument, and any more rounds give the
-- same (Runner/Flags/Enough).
--
-- The goroutines of the job stand twice. run_delta_sync runs them one after another, and gives
-- the exit status. Pool runs them in any order, at most as many at a time as there are workers; a
-- step is a round of one of them, a read and the write of what it gave, or the start of the next
-- one. The results of the calls of a file may depend on all calls before, in both.
--
-- Not modelled: pauses between attempts of the job; lines that overflow the scanner's buffer; the
-- flags of the manager; the text of JSON, whose parser is a parameter (an object holds each key
-- once, spelled as the code spells it; a number is known by the integers that the code takes from
-- it); HTTP headers and certificates; the libraries for SSH and WinRM, which stand as calls;
-- white space outside ASCII; logging; the formatting of messages, which are kept as a format with
-- arguments, but where the text of an error is searched; url.Parse, which is a parameter; the
-- start of the manager in main.go, the generated deep copies, the console plugin and the
-- manifests.
pub mod Base
pub mod Regions
pub mod Runner
pub mod Api
pub mod Resources
pub mod Steps
pub mod Prism
pub mod Guest
pub mod Controller
mod Checks
