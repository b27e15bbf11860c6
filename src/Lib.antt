-- ===== src/Lib.antt =====
-- The FlexBlock driver of the container storage interface: a gRPC server that makes, resizes, copies
-- and deletes block volumes, on the host itself or through a storage management server, and mounts
-- them for the workloads of a node.
--
-- The parts of the program, and their files here:
--
--   pkg/flexblock/flexblock.go
--     the records, the size limits, the maps              Volume.antt
--     init, the configuration file                        Conf.antt, Conf/Laws.antt
--     getSnapshotID, getVolumePath                        Paths.antt
--     getClusterID                                        Remote/Cluster.antt, over Http.antt
--     createVol, getAndesVol, updateVol, deleteVol        Remote/Volumes.antt
--     createTarget                                        Remote/Target.antt
--     getVolumeByID, getVolumeByName, getSnapshotByName,
--       saveExistingVol, discoverExistingVol,
--       discoverExistingSnapshots                         Store.antt
--     createFlexblockVolume                               Driver/Create.antt, Driver/Disk.antt
--     updateFlexblockVolume                               Driver/Update.antt
--     deleteFlexblockVolume                               Driver/Delete.antt
--     loadFromSnapshot, loadFromVolume                    Driver/Load.antt
--     NewFlexBlockDriver, Run                             Identity.antt, Main.antt
--   pkg/flexblock/controllerserver.go                     Controller.antt, Controller/Create.antt,
--                                                         Controller/Volumes.antt, Controller/Snapshots.antt,
--                                                         Controller/TakeSnapshot.antt, Controller/Steps.antt
--   pkg/flexblock/nodeserver.go                           Node.antt, Node/Publish.antt,
--                                                         Node/Unpublish.antt, Node/Expand.antt
--   pkg/flexblock/identityserver.go                       Identity.antt
--   pkg/flexblock/server.go                               Endpoint.antt, Server.antt, Server/Lifecycle.antt
--   cmd/flexblockplugin/main.go                           Main.antt
--
-- A call of the container storage interface comes to the controller or the node service, which check
-- it and call the driver's functions; these run commands, send requests to the management server,
-- change the maps of volumes and snapshots, and write the map of volumes to its file. Rpc.antt puts the
-- calls of the three services together, each behind logGRPC: `serve` runs a list of them from a state.
-- Main.antt is the process up to the server: what it makes of the command line and where it listens.
-- Server/Lifecycle.antt has the steps of Run and of the goroutine that serves, in any order.
--
-- Spec.antt says what each call may do to the volumes, as a function from ids to name, size, access
-- type and kind, with no maps, commands or files; Spec/Serves.antt is about
-- `serve` and what it allows, Spec/Answers.antt about calls that are answered without an error.
--
-- State. `Globals` (Env.antt) holds the package's variables flexBlockVolumes,
-- flexBlockVolumeSnapshots and confinfo, and the list of the calls that have been made to the outside,
-- the newest first. A Go map is an association list with lookup, insert and erase; the order in which
-- `range` walks one is a parameter. A function of the driver is a `Go A` (Go.antt): from a state to a
-- result and a state. A result is a value, an error, a panic, or `pending`, where nothing comes back. An error keeps its
-- kind (a gRPC code, an error of the operating system, any other), not its message. What was changed
-- before an error stays changed.
--
-- Outside. `Env` (Env.antt) answers each call that the driver makes (a command, an HTTP request, a
-- file operation, a mount), as a function of all the calls before it, so that any behaviour of the
-- host and of the server is an environment. Sys.antt notes a call and takes its answer. Functions of
-- packages are fields of `Env` too: the JSON decoder, md5, the escaping of URLs, and the
-- regular-expression engine where the pattern holds a volume id. The fixed pattern of target numbers
-- is written out in Driver/Disk.antt. The theorems hold for every environment, but for those that
-- name a condition on it: `IsSilent` (Remote/Silent.antt: the management server answers nothing), with
-- `HostClears` and `HostResizes` (Driver/Unanswered.antt, Driver/Unresized.antt: the host's commands work),
-- `CanSave` (Driver/Laws.antt: the file of the volumes can be opened, and written) and `RangesOver`
-- and `RangesSnapshots` (Store/Range.antt, Controller/Listing.antt: a range over a map visits its entries
-- and no others), and `FileHolds` (Rpc/Restart.antt: what was written to the file is read from it).
--
-- Numbers. A size is an int64 and is kept as an integer; sizes are compared and divided, never
-- added. The int32 arithmetic of ListSnapshots wraps around and is written out in
-- Controller/Snapshots.antt, the overflow of a target number in Driver/Disk.antt. Texts are taken by
-- characters, but for the name of a new volume, whose length and whose rest behind the fourth byte are taken by
-- the bytes of UTF-8 (`byte_size` and `skip_bytes` of Prelude/Text.antt).
--
-- Fuel. The one loop that may not end is createTarget's, which polls the server. It runs on fuel,
-- which create_volume and node_publish_volume pass to it, and its result is `pending` where
-- the fuel ran out. Remote/Polling.antt is about how much is enough.
--
-- Not modelled: the error messages, and the log lines other than logGRPC's; flag.Parse (the flags are
-- a record); what grpc does with a registered service; calls that run at the same time, but for two of
-- CreateVolume, which Controller/Steps.antt splits at its look for the name and Controller/Race.antt runs in
-- between each other (the maps have no lock; `serve` takes the calls one after the other).
--
-- Proofs. Go/Frame.antt and Go/Keeps.antt have the rules for a function that leaves the maps and the
-- file alone and for an invariant that a function keeps; the files named Frame apply the first to each
-- part. Rpc/Invariant.antt and Rpc/Induction.antt reduce an invariant of all calls to one of creating,
-- deleting and resizing. Go/Inversion.antt takes a successful run apart, Go/Gives.antt has the rules
-- for what a function returns, Go/Returns.antt those for a function that cannot fail, Go/Leads.antt
-- those for what it may leave in the map, Go/Settles.antt those for what it has made of the map where
-- it succeeds, and Go/Ends.antt those for what is so then. Tests/ runs the driver on concrete inputs.

pub mod Prelude
pub mod Volume
pub mod Env
pub mod Go
pub mod Sys
pub mod Paths
pub mod Endpoint
pub mod Conf
pub mod Http
pub mod Remote
pub mod Store
pub mod Driver
pub mod Csi
pub mod Controller
pub mod Node
pub mod Identity
pub mod Server
pub mod Main
pub mod Rpc
pub mod Spec
pub mod Tests
