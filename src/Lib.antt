-- ===== src/Lib.antt =====
-- acloud, the command line tool that creates, lists and deletes Android Virtual Devices on Google
-- Compute Engine, on remote hosts and on the local machine.
--
-- A command is parsed and checked (create/create_args.py), its hardware properties are read
-- (create/create_common.py, create/avd_spec.py), and it then works through the compute client
-- (internal/lib/gcompute_client.py), which stands on the API client
-- (internal/lib/base_cloud_client.py), which stands on the retrying and batching helpers
-- (internal/lib/utils.py). What came of it is gathered in a report (public/report.py). Deleting
-- (delete/delete.py, public/device_driver.py) takes instances that were listed and chosen
-- (list/list.py), groups the remote ones by zone and takes the locks of the local ones. Creating a
-- local instance (create/local_image_local_instance.py) selects an id by the lock files
-- (internal/lib/local_instance_lock.py); remote ones come from a pool (public/actions).
--
-- The files:
--   Base         names from the libraries, Boolean tests, lists, texts, dicts, exact fractions
--   Errors       errors.py: the classes of exceptions, parent and isinstance
--   Exec         code that reads and writes a world and may raise: a world is passed along, and
--                what was done before a raise stays done
--   Retry        utils.Retry, RetryExceptionType, PollAndWait
--   Batch        utils.BatchHttpRequestExecutor: Executor is the object, execute_once and execute
--                its methods
--   Cloud        base_cloud_client.BaseCloudApiClient
--   Compute      gcompute_client.ComputeClient: batches on instances, zones, machine sizes, quotas;
--                Compute/Keys has ssh keys in the metadata, Compute/Access single requests
--   Constants    internal/constants.py
--   HwProperty   create_common.ParseHWPropertyArgs, AVDSpec._ParseHWPropertyStr
--   Create       create.GetAvdCreatorClass and its dict
--   Args         create_args.VerifyArgs and its helpers, utils.CheckPortFree
--   Report       report.Status and report.Report, the evaluators of utils.py
--   Listing      the choices and filters of list.py, utils.GetAnswerFromList; Listing/Local has the
--                local instances, which are listed under their locks
--   Delete       DeleteInstances, DeleteRemoteInstances, the two local deletions,
--                AddDeletionResultToReport, DeleteAndroidVirtualDevices; Delete/Commands has Run,
--                DeleteInstanceByNames and CleanUpRemoteHost
--   Lock         local_instance_lock.LocalInstanceLock; Lock/System has its objects on one file
--   LocalInstance  names, directories and ports of local and goldfish instances (list/instance.py)
--   LocalCreate  local_image_local_instance.LocalImageLocalInstance; LocalCreate/LockFiles gives it the
--                locks of Lock, one object for each id
--   Config       config.AcloudConfig, AcloudConfigManager
--   DevicePool   public/actions/common_operations.py: DevicePool and CreateDevices; public/avd.py
--   Tunnel       utils.AutoConnect, EstablishWebRTCSshTunnel, ReleasePort
--   Reconnect    reconnect/reconnect.py
-- A child of a module holds what is proved of it, or a part of it; Tests holds concrete runs.
--
-- A function of the source has the same name here, in small letters with underscores. A loop is a
-- function of its own, and the body of a loop or of a `try` often is one too. Numbers are natural
-- numbers, and integers where the source can have negative ones; times and factors that Python keeps as floats are exact fractions. The Google API, the
-- file system, the ports, the clock and the locks are arguments; where a theorem needs some of their
-- documented behaviour, it is a hypothesis with a name (IsBatch, IsClock, Waits, IsLocking, IsFlock,
-- IsMarking, IsPlain).
--
-- Retry is a recursion on the rounds for which its test can hold, max_retries + 1. PollAndWait, which
-- WaitOnOperation calls with a limit of 1800 seconds, and ListWithMultiPages run on fuel, which is
-- enough from timeout_secs + 2 rounds on, for a clock that advances, and from the number of pages on.
--
-- Not modelled: printing, logging, timing and progress output; the argparse tables; the parsing of
-- an instance's configuration file; images, ssh.py, adb, builds, setup and metrics.
-- Messages that list supported values are shortened, since nothing reads them again.

pub mod Base
pub mod Errors
pub mod Exec
pub mod Retry
pub mod Batch
pub mod Constants
pub mod Cloud
pub mod HwProperty
pub mod Compute
pub mod Report
pub mod Args
pub mod Listing
pub mod Delete
pub mod Create
pub mod Lock
pub mod LocalInstance
pub mod LocalCreate
pub mod DevicePool
pub mod Config
pub mod Tunnel
pub mod Reconnect
mod Tests
