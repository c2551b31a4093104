-- ===== src/Constants.antt =====
-- internal/constants.py: the constants that the modelled code reads.
use tools_acloud.Base.{String, List, [], ◌∷◌, ℕ}

abbrev pub type_cheeps : String
type_cheeps = "cheeps"

abbrev pub type_cf : String
type_cf = "cuttlefish"

abbrev pub type_gce : String
type_gce = "gce"

abbrev pub type_gf : String
type_gf = "goldfish"

abbrev pub type_fvp : String
type_fvp = "fvp"

abbrev pub image_src_remote : String
image_src_remote = "remote_image"

abbrev pub image_src_local : String
image_src_local = "local_image"

abbrev pub instance_type_remote : String
instance_type_remote = "remote"

abbrev pub instance_type_local : String
instance_type_local = "local"

abbrev pub instance_type_host : String
instance_type_host = "host"

abbrev pub flavor_phone : String
flavor_phone = "phone"

abbrev pub all_flavors : List String
all_flavors = "phone" ∷ "auto" ∷ "wear" ∷ "tv" ∷ "iot" ∷ "tablet" ∷ "tablet_3g" ∷ []

abbrev pub hw_alias_cpus : String
hw_alias_cpus = "cpu"

abbrev pub hw_alias_resolution : String
hw_alias_resolution = "resolution"

abbrev pub hw_alias_dpi : String
hw_alias_dpi = "dpi"

abbrev pub hw_alias_memory : String
hw_alias_memory = "memory"

abbrev pub hw_alias_disk : String
hw_alias_disk = "disk"

abbrev pub hw_properties : List String
hw_properties =
    hw_alias_cpus ∷ hw_alias_resolution ∷ hw_alias_dpi ∷ hw_alias_memory ∷ hw_alias_disk ∷ []

abbrev pub hw_x_res : String
hw_x_res = "x_res"

abbrev pub hw_y_res : String
hw_y_res = "y_res"

abbrev pub user_answer_yes : List String
user_answer_yes = "y" ∷ "yes" ∷ "Y" ∷ []

abbrev pub ip : String
ip = "ip"

abbrev pub instance_name : String
instance_name = "instance_name"

abbrev pub gce_user : String
gce_user = "vsoc-01"

abbrev pub vnc_port : String
vnc_port = "vnc_port"

abbrev pub adb_port : String
adb_port = "adb_port"

abbrev pub ins_key_webrtc : String
ins_key_webrtc = "webrtc"

abbrev pub localhost : String
localhost = "127.0.0.1"

abbrev pub cmd_launch_cvd : String
cmd_launch_cvd = "launch_cvd"

abbrev pub env_android_host_out : String
env_android_host_out = "ANDROID_HOST_OUT"

abbrev pub list_cf_user_groups : List String
list_cf_user_groups = "kvm" ∷ "cvdnetwork" ∷ []

abbrev pub default_cf_boot_timeout : ℕ
default_cf_boot_timeout = 450

abbrev pub exit_by_user : ℕ
exit_by_user = 1

abbrev pub webrtc_local_port : ℕ
webrtc_local_port = 8443

abbrev pub cf_adb_port : ℕ
cf_adb_port = 6520

abbrev pub cf_vnc_port : ℕ
cf_vnc_port = 6444

abbrev pub cheeps_adb_port : ℕ
cheeps_adb_port = 9222

abbrev pub cheeps_vnc_port : ℕ
cheeps_vnc_port = 5900

abbrev pub gce_adb_port : ℕ
gce_adb_port = 5555

abbrev pub gce_vnc_port : ℕ
gce_vnc_port = 6444

abbrev pub gf_adb_port : ℕ
gf_adb_port = 5555

abbrev pub gf_vnc_port : ℕ
gf_vnc_port = 6444

abbrev pub fvp_adb_port : ℕ
fvp_adb_port = 5555

abbrev pub stage_init : ℕ
stage_init = 0

abbrev pub stage_gce : ℕ
stage_gce = 1

abbrev pub stage_artifact : ℕ
stage_artifact = 2

abbrev pub stage_boot_up : ℕ
stage_boot_up = 3

abbrev pub default_serial_port : ℕ
default_serial_port = 1

abbrev pub max_port : ℕ
max_port = 65535
