-- ===== src/LocalInstance/Ports.antt =====
-- The ports of goldfish instances.
use tools_acloud.Base.{some, ℕ, Option, ◌≡◌, refl, arith, ◌-◌, ◌%◌, ◌+◌, ◌*◌, ◌≤◌, ◌↔◌, none}
use tools_acloud.LocalInstance.{
  console_port, instance_id_of_port, adb_max_port, get_max_number_of_instances,
}
use tools_acloud.Base.Ints.{pos}
use tools_acloud.Listing.{Typed}

-- The console port of the id that is computed from a port is that port, or the even one below it.
console_port-instance_id_of_port :
    (port : ℕ) → console_port (instance_id_of_port port) ≡ pos (port - port % 2)
unfolding console_port instance_id_of_port
console_port-instance_id_of_port port = ground arith

limit_bounds : (env : Option Typed) → (5554 ≤ adb_max_port env) × (adb_max_port env ≤ 65535)
unfolding adb_max_port
limit_bounds none = (omega arith, omega arith)
limit_bounds (some Typed.word) = (omega arith, omega arith)
limit_bounds (some Typed.negative) = (omega arith, omega arith)
limit_bounds (some (Typed.number n)) = ground arith

-- The largest adb port is between 5554 and 65535, and an instance id from 1 on is at most the number of
-- instances exactly if the port after its console port, the one for adb, is at most that port.
pub get_max_number_of_instances-fits :
    (env : Option Typed) (id : ℕ)
    → (5554 ≤ adb_max_port env)
      × (adb_max_port env ≤ 65535)
      × ((c : ℕ) × (console_port (pos id) ≡ pos c)
          × ((id ≤ get_max_number_of_instances env) ↔ (c + 1 ≤ adb_max_port env)))
unfolding console_port get_max_number_of_instances
get_max_number_of_instances-fits env id =
    let (low, high) = limit_bounds env in
    (low, high, (5552 + id * 2, refl, (λ h. omega (arith, low), λ h. omega (arith, low))))
