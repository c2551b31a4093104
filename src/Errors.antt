-- ===== src/Errors.antt =====
-- errors.py: the exception classes, and `isinstance` by their hierarchy. The classes that the program
-- catches or raises from elsewhere stand here with their documented base classes.
pub mod Hierarchy
use tools_acloud.Base.{ℕ, zero, suc, Bool, ◌||◌, ◌==◌, String}

pub data ExcClass : Type 0 where
  -- Python's
  base_exception exception system_exit os_error value_error runtime_error key_error index_error :
      ExcClass
  attribute_error type_error : ExcClass
  -- subprocess, apiclient, http.client, httplib2, ssl, oauth2client
  called_process_error api_http_error http_exception http_lib2_error ssl_error : ExcClass
  access_token_refresh_error : ExcClass
  -- errors.py
  driver_error config_error command_arg_error gce_operation_timeout_error get_gce_zone_error :
      ExcClass
  http_error resource_not_found_error invalid_virtual_device_ip_error : ExcClass
  has_retriable_requests_error authentication_error device_boot_error no_subnetwork : ExcClass
  device_connection_error port_occupied device_boot_timeout_error setup_error os_type_error :
      ExcClass
  no_google_sdk_detected no_billing_error package_install_error : ExcClass
  required_package_not_installed_error unable_to_locate_pkg_on_repository_error : ExcClass
  not_supported_platform_error not_supported_field_name create_error : ExcClass
  get_android_build_env_var_error check_path_error check_gce_zones_quota_error : ExcClass
  unsupported_instance_image_type unsupported_flavor unsupported_multi_adb_port : ExcClass
  unsupported_create_args get_build_id_error not_supported_hw_property_error : ExcClass
  malformed_dict_string_error invalid_hw_property_error get_local_image_error : ExcClass
  get_cvd_local_host_package_error get_sdk_repo_package_error no_cuttlefish_common_installed :
      ExcClass
  img_does_not_exist unsupported_compression_file_type launch_cvd_fail subprocess_fail : ExcClass
  no_execute_cmd reconnect_error no_instances_found function_timeout_error zip_image_error :
      ExcClass
  unknown_avd_type unknown_type adb_disconnect_failed unsupported_local_instance_id : ExcClass
  invalid_instance_dir : ExcClass

-- The class that a class statement names as its base; `base_exception` is its own.
unfoldable pub parent : ExcClass → ExcClass
parent base_exception = base_exception
parent exception = base_exception
parent system_exit = base_exception
parent os_error = exception
parent value_error = exception
parent runtime_error = exception
parent key_error = exception
parent index_error = exception
parent attribute_error = exception
parent type_error = exception
parent called_process_error = exception
parent api_http_error = exception
parent http_exception = exception
parent http_lib2_error = exception
parent ssl_error = os_error
parent access_token_refresh_error = exception
parent driver_error = exception
parent config_error = driver_error
parent command_arg_error = driver_error
parent gce_operation_timeout_error = driver_error
parent get_gce_zone_error = driver_error
parent http_error = driver_error
parent resource_not_found_error = http_error
parent invalid_virtual_device_ip_error = driver_error
parent has_retriable_requests_error = driver_error
parent authentication_error = driver_error
parent device_boot_error = driver_error
parent no_subnetwork = driver_error
parent device_connection_error = driver_error
parent port_occupied = driver_error
parent device_boot_timeout_error = device_boot_error
parent setup_error = exception
parent os_type_error = setup_error
parent no_google_sdk_detected = setup_error
parent no_billing_error = setup_error
parent package_install_error = setup_error
parent required_package_not_installed_error = setup_error
parent unable_to_locate_pkg_on_repository_error = setup_error
parent not_supported_platform_error = setup_error
parent not_supported_field_name = setup_error
parent create_error = exception
parent get_android_build_env_var_error = create_error
parent check_path_error = create_error
parent check_gce_zones_quota_error = create_error
parent unsupported_instance_image_type = create_error
parent unsupported_flavor = create_error
parent unsupported_multi_adb_port = create_error
parent unsupported_create_args = create_error
parent get_build_id_error = create_error
parent not_supported_hw_property_error = create_error
parent malformed_dict_string_error = create_error
parent invalid_hw_property_error = create_error
parent get_local_image_error = create_error
parent get_cvd_local_host_package_error = create_error
parent get_sdk_repo_package_error = create_error
parent no_cuttlefish_common_installed = setup_error
parent img_does_not_exist = create_error
parent unsupported_compression_file_type = setup_error
parent launch_cvd_fail = create_error
parent subprocess_fail = create_error
parent no_execute_cmd = create_error
parent reconnect_error = exception
parent no_instances_found = reconnect_error
parent function_timeout_error = exception
parent zip_image_error = exception
parent unknown_avd_type = exception
parent unknown_type = exception
parent adb_disconnect_failed = exception
parent unsupported_local_instance_id = exception
parent invalid_instance_dir = exception

-- A number for each class, to compare classes by.
unfoldable pub tag : ExcClass → ℕ
tag base_exception = 0
tag exception = 1
tag system_exit = 2
tag os_error = 3
tag value_error = 4
tag runtime_error = 5
tag key_error = 6
tag index_error = 7
tag attribute_error = 8
tag type_error = 9
tag called_process_error = 10
tag api_http_error = 11
tag http_exception = 12
tag http_lib2_error = 13
tag ssl_error = 14
tag access_token_refresh_error = 15
tag driver_error = 16
tag config_error = 17
tag command_arg_error = 18
tag gce_operation_timeout_error = 19
tag get_gce_zone_error = 20
tag http_error = 21
tag resource_not_found_error = 22
tag invalid_virtual_device_ip_error = 23
tag has_retriable_requests_error = 24
tag authentication_error = 25
tag device_boot_error = 26
tag no_subnetwork = 27
tag device_connection_error = 28
tag port_occupied = 29
tag device_boot_timeout_error = 30
tag setup_error = 31
tag os_type_error = 32
tag no_google_sdk_detected = 33
tag no_billing_error = 34
tag package_install_error = 35
tag required_package_not_installed_error = 36
tag unable_to_locate_pkg_on_repository_error = 37
tag not_supported_platform_error = 38
tag not_supported_field_name = 39
tag create_error = 40
tag get_android_build_env_var_error = 41
tag check_path_error = 42
tag check_gce_zones_quota_error = 43
tag unsupported_instance_image_type = 44
tag unsupported_flavor = 45
tag unsupported_multi_adb_port = 46
tag unsupported_create_args = 47
tag get_build_id_error = 48
tag not_supported_hw_property_error = 49
tag malformed_dict_string_error = 50
tag invalid_hw_property_error = 51
tag get_local_image_error = 52
tag get_cvd_local_host_package_error = 53
tag get_sdk_repo_package_error = 54
tag no_cuttlefish_common_installed = 55
tag img_does_not_exist = 56
tag unsupported_compression_file_type = 57
tag launch_cvd_fail = 58
tag subprocess_fail = 59
tag no_execute_cmd = 60
tag reconnect_error = 61
tag no_instances_found = 62
tag function_timeout_error = 63
tag zip_image_error = 64
tag unknown_avd_type = 65
tag unknown_type = 66
tag adb_disconnect_failed = 67
tag unsupported_local_instance_id = 68
tag invalid_instance_dir = 69

-- Is `d` among `c` and its first `n` bases?
unfoldable pub is_sub_within : ℕ → ExcClass → ExcClass → Bool
is_sub_within zero c d = tag c == tag d
is_sub_within (suc n) c d = tag c == tag d || is_sub_within n (parent c) d

-- `issubclass(c, d)`: no class stands more than four steps below `base_exception`.
unfoldable pub is_subclass : ExcClass → ExcClass → Bool
unfolding is_sub_within parent tag
is_subclass = is_sub_within 4

-- An exception object: its class, its number (`code` of an HttpError, `errno` of an OSError, the
-- status of a SystemExit, 0 for the others), and `str(e)`.
pub record Exc : Type 0 where
  pub cls : ExcClass
  pub code : ℕ
  pub message : String

-- `isinstance(e, c)`
unfoldable pub is_instance : Exc → ExcClass → Bool
unfolding is_subclass
is_instance e c = is_subclass e.cls c

-- `raise C(message)`
abbrev pub exc : ExcClass → String → Exc
exc c m = record { cls = c; code = 0; message = m }
