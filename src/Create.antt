-- ===== src/Create.antt =====
-- create/create.py: _CREATOR_CLASS_DICT and GetAvdCreatorClass. The classes themselves are their names.
pub mod Dispatch
use tools_acloud.Base.{
  true, false, [], none, some, Option, Bool, String, List, ◌∷◌, str_eq, ◌&&◌, if◌then◌else◌,
}
use tools_acloud.Constants
use tools_acloud.Exec.{Result, err, ok}
use tools_acloud.Errors.{exc, unsupported_instance_image_type}
use tools_acloud.Base.Text.{◌<>◌}

pub data CreatorClass : Type 0 where
  gce_local_image_remote_instance gce_remote_image_remote_instance : CreatorClass
  local_image_local_instance local_image_remote_instance local_image_remote_host : CreatorClass
  remote_image_remote_instance remote_image_local_instance remote_image_remote_host : CreatorClass
  cheeps_remote_image_remote_instance : CreatorClass
  goldfish_remote_image_remote_instance goldfish_local_image_local_instance : CreatorClass

-- A key of the dict: AVD type, image source, instance type.
pub record Spec : Type 0 where
  pub avd_type : String
  pub image_source : String
  pub instance_type : String

abbrev pub spec : String → String → String → Spec
spec avd_type image_source instance_type = record {
  avd_type = avd_type;
  image_source = image_source;
  instance_type = instance_type;
}

-- Equality of tuples.
abbrev pub spec_eq : Spec → Spec → Bool
spec_eq s t =
    str_eq s.avd_type t.avd_type
    && str_eq s.image_source t.image_source
    && str_eq s.instance_type t.instance_type

abbrev pub creator_class_dict : List (Spec × CreatorClass)
creator_class_dict =
    (
      spec Constants.type_gce Constants.image_src_local Constants.instance_type_remote,
      gce_local_image_remote_instance,
    )
    ∷ (
      spec Constants.type_gce Constants.image_src_remote Constants.instance_type_remote,
      gce_remote_image_remote_instance,
    )
    ∷ (
      spec Constants.type_cf Constants.image_src_local Constants.instance_type_local,
      local_image_local_instance,
    )
    ∷ (
      spec Constants.type_cf Constants.image_src_local Constants.instance_type_remote,
      local_image_remote_instance,
    )
    ∷ (
      spec Constants.type_cf Constants.image_src_local Constants.instance_type_host,
      local_image_remote_host,
    )
    ∷ (
      spec Constants.type_cf Constants.image_src_remote Constants.instance_type_remote,
      remote_image_remote_instance,
    )
    ∷ (
      spec Constants.type_cf Constants.image_src_remote Constants.instance_type_local,
      remote_image_local_instance,
    )
    ∷ (
      spec Constants.type_cf Constants.image_src_remote Constants.instance_type_host,
      remote_image_remote_host,
    )
    ∷ (
      spec Constants.type_cheeps Constants.image_src_remote Constants.instance_type_remote,
      cheeps_remote_image_remote_instance,
    )
    ∷ (
      spec Constants.type_gf Constants.image_src_remote Constants.instance_type_remote,
      goldfish_remote_image_remote_instance,
    )
    ∷ (
      spec Constants.type_gf Constants.image_src_local Constants.instance_type_local,
      goldfish_local_image_local_instance,
    )
    ∷ (
      spec Constants.type_fvp Constants.image_src_local Constants.instance_type_remote,
      local_image_remote_instance,
    )
    ∷ []

-- `.get(...)`
unfoldable pub get_class : Spec → List (Spec × CreatorClass) → Option CreatorClass
get_class s [] = none
get_class s ((t, c) ∷ classes) = if spec_eq t s then some c else get_class s classes

class_or_error : Spec → Option CreatorClass → Result CreatorClass
class_or_error s none = err (
    exc unsupported_instance_image_type (
      "unsupported creation of avd type: " <> s.avd_type <> ", instance type: " <> s.instance_type
      <> ", image source: " <> s.image_source))
class_or_error s (some c) = ok c

-- GetAvdCreatorClass
unfoldable pub get_avd_creator_class : String → String → String → Result CreatorClass
unfolding get_class class_or_error
get_avd_creator_class avd_type instance_type image_source =
    class_or_error (spec avd_type image_source instance_type)
      (get_class (spec avd_type image_source instance_type) creator_class_dict)
