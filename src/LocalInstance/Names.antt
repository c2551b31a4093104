-- ===== src/LocalInstance/Names.antt =====
-- The names and serials of local instances are read back.
use tools_acloud.Base.{some, ℕ, List, ◌≡◌, ◌∙◌, ap, [], ◌∷◌, map, refl, ◌+◌, ◌*◌, arith, ◌/◌, ◌-◌}
use tools_acloud.LocalInstance.{
  get_local_instance_id_by_name, get_local_instance_name, after_prefix, get_existing_instances,
  port_of_serial, with_port, device_serial, console_port, instance_id_of_port,
}
use tools_acloud.Base.Text.{str}
use tools_acloud.Base.Text.Digits.{number_to_end-str, strip_prefix-append}
use tools_acloud.Base.Ints.{pos}

-- GetLocalInstanceIdByName gives back the id that GetLocalInstanceName made the name of.
pub get_local_instance_id_by_name-name :
    (id : ℕ) → get_local_instance_id_by_name (get_local_instance_name id) ≡ some id
unfolding get_local_instance_id_by_name get_local_instance_name after_prefix
get_local_instance_id_by_name-name id =
    ap after_prefix (strip_prefix-append "local-instance-" (str id)) ∙ number_to_end-str id

same_id : (n : ℕ) → instance_id_of_port (5552 + n * 2) ≡ pos n
unfolding instance_id_of_port
same_id n = let e : (5552 + n * 2 - 5552) / 2 ≡ n = omega arith in ground (arith, e)

-- GetExistingInstances finds, of the serials of goldfish instances as adb lists them, the instances with
-- their ids, in order.
pub get_existing_instances-serials :
    (ids : List ℕ) → get_existing_instances (map (λ id. device_serial (pos id)) ids) ≡ map pos ids
unfolding get_existing_instances device_serial console_port port_of_serial with_port
get_existing_instances-serials [] = refl
get_existing_instances-serials (n ∷ ids) =
    let serial =
      ap port_of_serial (strip_prefix-append "emulator-" (str (5552 + n * 2)))
      ∙ number_to_end-str (5552 + n * 2) in
    rw serial (rw (same_id n) (ap (λ l. pos n ∷ l) (get_existing_instances-serials ids)))
