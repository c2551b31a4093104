-- ===== src/Errors/Hierarchy.antt =====
-- `isinstance` against the chain of base classes.
use tools_acloud.Base.{
  ℕ, zero, suc, ◌≡◌, refl, sym, ap, ◌∙◌, true, arith, ==_iff, inl, inr, Bool-cases, ◌==◌, List, [],
  ◌∷◌,
}
use mathlib.Core.Path.{subst}
use mathlib.Core.Option.{some-injective}
use tools_acloud.Base.{get_elem?, some}
use tools_acloud.Errors.{
  base_exception, exception, system_exit, os_error, value_error, runtime_error, key_error,
  index_error, attribute_error, type_error, called_process_error, api_http_error, http_exception,
  http_lib2_error, ssl_error, access_token_refresh_error, driver_error, config_error,
  command_arg_error, gce_operation_timeout_error, get_gce_zone_error, http_error,
  resource_not_found_error, invalid_virtual_device_ip_error, has_retriable_requests_error,
  authentication_error, device_boot_error, no_subnetwork, device_connection_error, port_occupied,
  device_boot_timeout_error, setup_error, os_type_error, no_google_sdk_detected, no_billing_error,
  package_install_error, required_package_not_installed_error,
  unable_to_locate_pkg_on_repository_error, not_supported_platform_error, not_supported_field_name,
  create_error, get_android_build_env_var_error, check_path_error, check_gce_zones_quota_error,
  unsupported_instance_image_type, unsupported_flavor, unsupported_multi_adb_port,
  unsupported_create_args, get_build_id_error, not_supported_hw_property_error,
  malformed_dict_string_error, invalid_hw_property_error, get_local_image_error,
  get_cvd_local_host_package_error, get_sdk_repo_package_error, no_cuttlefish_common_installed,
  img_does_not_exist, unsupported_compression_file_type, launch_cvd_fail, subprocess_fail,
  no_execute_cmd, reconnect_error, no_instances_found, function_timeout_error, zip_image_error,
  unknown_avd_type, unknown_type, adb_disconnect_failed, unsupported_local_instance_id,
  invalid_instance_dir, ExcClass, parent, tag, is_sub_within, is_subclass, Exc, is_instance,
}

-- `d` is `c` or one of the bases above it, by the class statements.
data IsBase (d : ExcClass) : ExcClass → Type 0 where
  same : {c : ExcClass} → c ≡ d → IsBase d c
  above : {c : ExcClass} → IsBase d (parent c) → IsBase d c

-- The chain ends within four steps.
chain_top : (c : ExcClass) → parent (parent (parent (parent c))) ≡ ExcClass.base_exception
unfolding parent
chain_top ExcClass.base_exception = refl
chain_top _ = refl

-- The classes in the order of their tags.
all_classes : List ExcClass
all_classes =
    base_exception ∷ exception ∷ system_exit ∷ os_error ∷ value_error ∷ runtime_error ∷ key_error
    ∷ index_error ∷ attribute_error ∷ type_error ∷ called_process_error ∷ api_http_error
    ∷ http_exception ∷ http_lib2_error ∷ ssl_error ∷ access_token_refresh_error ∷ driver_error
    ∷ config_error ∷ command_arg_error ∷ gce_operation_timeout_error ∷ get_gce_zone_error
    ∷ http_error ∷ resource_not_found_error ∷ invalid_virtual_device_ip_error
    ∷ has_retriable_requests_error ∷ authentication_error ∷ device_boot_error ∷ no_subnetwork
    ∷ device_connection_error ∷ port_occupied ∷ device_boot_timeout_error ∷ setup_error
    ∷ os_type_error ∷ no_google_sdk_detected ∷ no_billing_error ∷ package_install_error
    ∷ required_package_not_installed_error ∷ unable_to_locate_pkg_on_repository_error
    ∷ not_supported_platform_error ∷ not_supported_field_name ∷ create_error
    ∷ get_android_build_env_var_error ∷ check_path_error ∷ check_gce_zones_quota_error
    ∷ unsupported_instance_image_type ∷ unsupported_flavor ∷ unsupported_multi_adb_port
    ∷ unsupported_create_args ∷ get_build_id_error ∷ not_supported_hw_property_error
    ∷ malformed_dict_string_error ∷ invalid_hw_property_error ∷ get_local_image_error
    ∷ get_cvd_local_host_package_error ∷ get_sdk_repo_package_error ∷ no_cuttlefish_common_installed
    ∷ img_does_not_exist ∷ unsupported_compression_file_type ∷ launch_cvd_fail ∷ subprocess_fail
    ∷ no_execute_cmd ∷ reconnect_error ∷ no_instances_found ∷ function_timeout_error
    ∷ zip_image_error ∷ unknown_avd_type ∷ unknown_type ∷ adb_disconnect_failed
    ∷ unsupported_local_instance_id ∷ invalid_instance_dir ∷ []

get_elem?-tag : (c : ExcClass) → get_elem? all_classes (tag c) ≡ some c
unfolding tag all_classes
get_elem?-tag ExcClass.base_exception = refl
get_elem?-tag _ = refl

tag_injective : (c d : ExcClass) → tag c ≡ tag d → c ≡ d
tag_injective c d h =
    some-injective c d (sym (get_elem?-tag c) ∙ ap (get_elem? all_classes) h ∙ get_elem?-tag d)

is_sub_within-IsBase : (n : ℕ) (c d : ExcClass) → is_sub_within n c d ≡ true → IsBase d c
unfolding is_sub_within
is_sub_within-IsBase zero c d h = same (tag_injective c d ((==_iff _ _).0 h))
is_sub_within-IsBase (suc n) c d h = elim (Bool-cases (tag c == tag d)) [
  | inl e ↦ same (tag_injective c d ((==_iff _ _).0 e))
  | inr e ↦ above (is_sub_within-IsBase n (parent c) d (rw e at h))
]

-- One step more finds nothing new.
fifth_step : (c d : ExcClass) → is_sub_within 5 c d ≡ true → is_sub_within 4 c d ≡ true
unfolding is_sub_within
fifth_step c d h = ground (arith, chain_top c, chain_top (parent c))

within-parent :
    (n : ℕ) (c d : ExcClass)
    → is_sub_within n (parent c) d ≡ true
    → is_sub_within (suc n) c d ≡ true
unfolding is_sub_within
within-parent n c d h = ground arith

within-same : (n : ℕ) (c d : ExcClass) → c ≡ d → is_sub_within (suc n) c d ≡ true
unfolding is_sub_within
within-same n c d e = ground (arith, ap tag e)

IsBase-is_sub_within : {d : ExcClass} (c : ExcClass) → IsBase d c → is_sub_within 4 c d ≡ true
IsBase-is_sub_within {d} c (same e) = within-same 3 c d e
IsBase-is_sub_within {d} c (above b) =
    fifth_step c d (within-parent 4 c d (IsBase-is_sub_within (parent c) b))

IsBase-trans : {b d : ExcClass} {c : ExcClass} → IsBase d c → IsBase b d → IsBase b c
IsBase-trans {b} (same e) h = subst (IsBase b) (sym e) h
IsBase-trans (above t) h = above (IsBase-trans t h)

-- An object of a class is an object of the classes above it.
pub is_instance-is_subclass :
    (e : Exc) (d b : ExcClass)
    → is_instance e d ≡ true
    → is_subclass d b ≡ true
    → is_instance e b ≡ true
unfolding is_subclass is_instance
is_instance-is_subclass e d b h k =
    IsBase-is_sub_within e.cls
      (IsBase-trans (is_sub_within-IsBase 4 e.cls d h) (is_sub_within-IsBase 4 d b k))
