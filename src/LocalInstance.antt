-- ===== src/LocalInstance.antt =====
-- list/instance.py: the names, directories and ports of local instances. The directory for temporary
-- files is a parameter.
pub mod Names
pub mod Ports
use tools_acloud.Base.{
  ℕ, String, List, Option, Bool, some, if◌then◌else◌, ◌∷◌, ltb, leb, [], none, ◌+◌, ◌*◌, ◌||◌, ◌-◌,
  ◌/◌, suc,
}
use tools_acloud.Base.Text.{◌<>◌, str, path_join, strip_prefix, number_to_end}
use tools_acloud.Base.Ints.{ℤ, pos, str_ℤ, negsuc}
use tools_acloud.Listing.{Typed}
use tools_acloud.Constants

-- _LOCAL_INSTANCE_NAME_FORMAT
unfoldable pub get_local_instance_name : ℕ → String
get_local_instance_name local_instance_id = "local-instance-" <> str local_instance_id

module _ (temp_dir : String) where
  abbrev pub acloud_cvd_temp : String
  acloud_cvd_temp = path_join temp_dir "acloud_cvd_temp"

  unfoldable pub get_local_instance_home_dir : ℕ → String
  get_local_instance_home_dir local_instance_id =
      path_join acloud_cvd_temp (get_local_instance_name local_instance_id)

  -- The file of GetLocalInstanceLock.
  unfoldable pub get_local_instance_lock_path : ℕ → String
  get_local_instance_lock_path local_instance_id =
      path_join acloud_cvd_temp (get_local_instance_name local_instance_id <> ".lock")

  unfoldable pub get_local_instance_runtime_dir : ℕ → String
  get_local_instance_runtime_dir local_instance_id =
      path_join (get_local_instance_home_dir local_instance_id) "cuttlefish_runtime"

after_prefix : Option String → Option ℕ
after_prefix none = none
after_prefix (some rest) = number_to_end rest

-- _LOCAL_INSTANCE_NAME_PATTERN
unfoldable pub get_local_instance_id_by_name : String → Option ℕ
unfolding after_prefix
get_local_instance_id_by_name name = after_prefix (strip_prefix "local-instance-" name)

-- GetDefaultCuttlefishConfig and GetLocalInstanceConfig: the file, if there is one.
module _ (is_file : String → Bool) (home temp_dir : String) where
  if_file : String → Option String
  if_file path = if is_file path then some path else none

  unfoldable pub get_default_cuttlefish_config : Option String
  unfolding if_file
  get_default_cuttlefish_config =
      if_file (path_join (path_join home "cuttlefish_runtime") "cuttlefish_config.json")

  unfoldable pub get_local_instance_config : ℕ → Option String
  unfolding if_file
  get_local_instance_config local_instance_id = if_file (
      path_join (get_local_instance_runtime_dir temp_dir local_instance_id)
        "cuttlefish_config.json")

-- LocalGoldfishInstance. 5554 + (id - 1) * 2
unfoldable pub console_port : ℤ → ℤ
console_port (pos n) = pos (5552 + n * 2)
console_port (negsuc n) =
    if leb (suc n * 2) 5552 then pos (5552 - suc n * 2) else negsuc (suc n * 2 - 5552 - 1)

unfoldable pub device_serial : ℤ → String
device_serial local_instance_id = "emulator-" <> str_ℤ (console_port local_instance_id)

-- (port - 5554) // 2 + 1
unfoldable pub instance_id_of_port : ℕ → ℤ
instance_id_of_port port =
    if leb 5552 port then pos ((port - 5552) / 2) else negsuc ((5552 - port + 1) / 2 - 1)

port_of_serial : Option String → Option ℕ
port_of_serial none = none
port_of_serial (some rest) = number_to_end rest

with_port : Option ℕ → List ℤ → List ℤ
with_port none ids = ids
with_port (some port) ids = instance_id_of_port port ∷ ids

-- GetExistingInstances: the ids of the serials that adb lists.
unfoldable pub get_existing_instances : List String → List ℤ
unfolding port_of_serial with_port
get_existing_instances [] = []
get_existing_instances (serial ∷ serials) =
    with_port (port_of_serial (strip_prefix "emulator-" serial)) (get_existing_instances serials)

-- ADB_LOCAL_TRANSPORT_MAX_PORT as int() reads it, or the default.
unfoldable pub adb_max_port : Option Typed → ℕ
adb_max_port (some (Typed.number n)) = if ltb n 5554 || ltb Constants.max_port n then 5585 else n
adb_max_port (some Typed.word) = 5585
adb_max_port (some Typed.negative) = 5585
adb_max_port none = 5585

unfoldable pub get_max_number_of_instances : Option Typed → ℕ
unfolding adb_max_port
get_max_number_of_instances max_port = (adb_max_port max_port + 1 - 5554) / 2
