-- ===== src/Lib.antt =====
-- nativestor: an operator for local storage on Kubernetes, with two parts that keep state of their
-- own. TopoLVM storage: the operator reconciles a TopolvmCluster; it starts a job on each node, which
-- makes LVM volume groups from the node's disks and tells the result in a config map, from which the
-- operator fills the cluster's status, and it watches the nodes. Raw devices: a daemon on each node
-- publishes its disks as RawDevice objects, and a CSI driver hands whole devices out as volumes.
--
-- The files:
-- - Prelude and below: shared names, lists, Go's strings, maps and int64 (Prelude/Int.antt keeps the
--   wrap-around of 64 bits at each operation).
-- - Errors.antt: Go's error values, and what the libraries' tests on them are documented to do.
-- - Csi and below: driver/raw_device/controller.go. Device.antt has the RawDevice object
--   (apis/rawdevice/v1/rawdevice_types.go) and the two ways to the cluster's objects, the lister and
--   UpdateStatus, as an interface RawDeviceApi, with what the API server is documented to do as
--   IsApiServer, and that the lister has caught up as IsCurrent; Capacity.antt has
--   convertRequestCapacity and getCapacityByTopologyLabel;
--   Placement.antt getMaxCapacity and the loop of createVolume; Volumes.antt createVolume,
--   deleteVolume and getVolume; Controller.antt the RPC handlers, with their messages in
--   Controller/Requests.antt. The world is a type parameter that the handlers take and return.
-- - Exec and below: the Executor of pkg/util/exec/exec.go. A command answers by any function of the
--   calls before it; a run returns its value, its error or its panic with the list of its calls.
--   Steps.antt, Posts.antt and Results.antt have the rules for what a run calls and ends with.
-- - Sys and below: pkg/util/sys. Lvm.antt and Parse.antt have lvm.go, Loop.antt loop.go, Device.antt
--   and LocalDisk.antt device.go and the readers of disks.go, Disks.antt the rest of disks.go.
-- - VolumeGroup and below: pkg/operator/topolvm/volumegroup/preparevg.go, with its types in Types.antt
--   (apis/topolvm/v2/topolvmcluster_types.go, pkg/cluster/topolvm/type.go). Create.antt has createVg
--   and createVgRetry, Resize.antt checkVgIfExpand, checkVgIfShrink and checkVgIfDelete, Lvmd.antt
--   the two entries of the config map, Loops.antt checkLoopDevice, Plan.antt the loops of
--   provisionFirst and provisionWithNodeStatus, and Provision.antt these functions and provision. The
--   job's object is passed as what a function reads of it; a write through a pointer or a shared
--   slice that is read later is returned.
-- - Api.antt: programs that send requests to the API server, which answers by any function of the
--   requests before; a run returns its value or error with the list of its requests.
-- - K8s and below: pkg/operator/k8sutil, over typed clients (Client.antt). Delete.antt has delete.go,
--   options.go and deleteResourceAndWait, Status.antt UpdateStatus, ConfigMap.antt configmap.go,
--   Job.antt job.go, Deployment.antt what the operator calls of deployment.go.
-- - Operator and below: the operator of TopoLVM. Types.antt has the cluster's object; Monitor.antt
--   checkStatus of pkg/operator/topolvm/monitor/status.go, as a function of the API server's answers;
--   Finalizer.antt pkg/operator/controller/finalizer.go; Requests.antt what the controllers send, and
--   the state that they keep as a reading of it; Jobs.antt the jobs of
--   pkg/operator/topolvm/volumegroup/vgmanager.go and pkg/operator/topolvm/controller/cleanup.go;
--   Controller.antt, Cleaning.antt and Reconcile.antt topolvmcluster_controller.go, with psp.go and
--   csidriver.go; LvmdConfig.antt lvmdconfig_controller.go with UpdateStatus; CleanUp.antt
--   pkg/operator/topolvm/clean/clean.go. A Go map is its list of entries, which
--   checkStatus ranges over in the order in which they were made. Requests/Trace.antt and the
--   modules named Asked have the rules for what a run sends.
-- - Discover and below: pkg/operator/discover/discover.go, with k8sutil/rawdevice.go. Publish.antt has
--   what updateDeviceCM does, over a state of the world, Classes.antt checkDeviceClass and
--   checkLoopDevice, with ReSetupLoop of pkg/util/sys/loop.go, Udev.antt matchUdevEvent.
-- - Samples.antt in each part (in Operator also Trials.antt and CleanUp/Samples.antt): tests, and the
--   theorems at concrete inputs. VolumeGroup/Samples/Fake.antt has a codec for them.
--
-- Outside: the API server, LVM and the other commands, gRPC, Go's library (strconv, path, json), yaml,
-- uuid and sha256 are parameters; what is relied on is stated as a hypothesis. Loops are structural
-- recursion, those of counted tries on the tries that are left, so no fuel is needed. A run ends with
-- a panic at a text of lvm with no "=" in a token, a missing entry of a map of classes, a finalizer
-- that `remove` meets again past the end of its list, and a clean-up job that could not be made; the
-- last two are `none`. What waits on a clock (wait.Poll) is a parameter. Numbers of the CSI driver
-- and the sizes of raw devices wrap at 64 bits. Log messages are left out, and a formatted message
-- stands as its format.
--
-- Not modelled: the exporter of metrics and the certificates, the provisioner's controller, the raw
-- device operator, the node and identity services of the driver, the executor's processes, templates,
-- generated code, main functions and tests. Of k8sutil those helpers are left out that the modelled
-- parts do not call. A config map whose Data is nil is not in the model.
pub mod Prelude
pub mod Errors
pub mod Csi
pub mod Exec
pub mod Sys
pub mod VolumeGroup
pub mod Api
pub mod K8s
pub mod Operator
pub mod Discover
