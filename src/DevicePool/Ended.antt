-- ===== src/DevicePool/Ended.antt =====
-- How CreateDevices ends.
use tools_acloud.Base.{
  true, false, [], none, ℕ, String, List, ◌∷◌, ◌++◌, ◌≡◌, ◌⊎◌, ◌≤◌, length, All,
}
use tools_acloud.Base.Dict.{Dict, lookup}
use tools_acloud.DevicePool.{Device, Options, Factory, status_of, create_and_report}
use tools_acloud.DevicePool.Failures.{Found}
use tools_acloud.DevicePool.Reported.{Split}
use tools_acloud.Errors.{Exc, is_instance, driver_error}
use tools_acloud.Exec.{Result, ok, err, Exec}
use tools_acloud.Report.{init, Report, Record}
use tools_acloud.Report.Devices.{Holds}
use tools_acloud.Report.Severity.{HasSeverity}
use tools_acloud.Report.Status

-- What SetStatus(FAIL) comes to.
abbrev FailSet : Report → Result Report → Type 0
FailSet r (ok r') = (r'.errors ≡ r.errors) × ((m : ℕ) × HasSeverity r'.status m × (2 ≤ m))
FailSet r (err e) = is_instance e driver_error ≡ false

module _ {W : Type 0} (io : Factory W) (o : Options) (n : ℕ) where
  -- CreateInstance gave the name of the device, and GetInstanceIP its address.
  abbrev pub Made : Device → Type 0
  Made d =
      ((u : W) × (v : W) × (io.create_instance u ≡ (ok d.instance_name, v)))
      × ((u : W) × (v : W) × (io.get_instance_ip d.instance_name u ≡ (ok d.ip, v)))

  -- Every one of the n devices is reported under the key that the failures say.
  abbrev pub AllReported : Report → Type 0
  AllReported r =
      (ds : List Device) × (failures : Dict Exc) × (xs : List Record) × (ys : List Record)
      × (es : List String) × (length ds ≡ n)
      × All Made ds
      × Found io o ds failures
      × Split failures ds xs ys es
      × Holds r "devices" xs
      × Holds r "devices_failing_boot" ys
      × (r.errors ≡ es)
      × (r.status ≡ status_of failures)

  -- The `try` raised a DriverError: it is the last of the errors, and the report is one of a failure.
  abbrev pub DriverFailed : W → Report → Type 0
  DriverFailed w r =
      (e : Exc) × (s : Report × W) × (create_and_report io o n (init o.command, w) ≡ (err e, s))
      × (is_instance e driver_error ≡ true)
      × ((es : List String) × (r.errors ≡ es ++ e.message ∷ []))
      × ((m : ℕ) × HasSeverity r.status m × (2 ≤ m))

  abbrev pub Ended : W → Result Report × W → Type 0
  Ended w (ok r, _) = AllReported r ⊎ DriverFailed w r
  Ended w (err e, _) = is_instance e driver_error ≡ false

  -- What a `try` that raises nothing has come to.
  abbrev Caught : Result (Unit {0}) × (Report × W) → Type 0
  Caught (ok _, (r, w)) = AllReported r
  Caught (err e, s) = Unit

  -- The client's own report has no records of devices.
  abbrev pub IsPlain : Type 0
  IsPlain =
      (w : W)
      → (lookup "devices" (io.dict_report w) ≡ none)
        × (lookup "devices_failing_boot" (io.dict_report w) ≡ none)

  abbrev Many : ℕ → Result (List Device) × W → Type 0
  Many k (ok ds, w) = (length ds ≡ k) × All Made ds
  Many k (err e, w) = Unit
