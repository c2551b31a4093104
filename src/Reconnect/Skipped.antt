-- ===== src/Reconnect/Skipped.antt =====
-- The loop of reconnect.Run: the instances of an unknown type.
use tools_acloud.Base.{
  Bool, List, is_some, ◌≡◌, select, ◌∷◌, Bool-cases, inl, inr, refl, [], true, false,
}
use tools_acloud.Reconnect.{Device, Tools, reconnect_each}
use tools_acloud.Report.{Report}
use tools_acloud.Base.Dict.{lookup}
use tools_acloud.DevicePool.{avd_port_dict}
use tools_acloud.Exec.{Result, and_then, ok, err}

abbrev pub is_known : Device → Bool
is_known d = is_some (lookup d.avd_type avd_port_dict)

select-kept :
    (d : Device) (devices : List Device)
    → is_known d ≡ true
    → select is_known (d ∷ devices) ≡ d ∷ select is_known devices
select-kept d devices h = rw (select, h) refl

select-skipped :
    (d : Device) (devices : List Device)
    → is_known d ≡ false
    → select is_known (d ∷ devices) ≡ select is_known devices
select-skipped d devices h = rw (select, h) refl

module _ {W : Type 0} (io : Tools W) where
  same_rest :
      (autoconnect : Bool) (rest rest' : List Device)
      → ((s : Report × W)
          → reconnect_each io autoconnect rest s ≡ reconnect_each io autoconnect rest' s)
      → (r : Result (Unit {0}) × (Report × W))
      → and_then r (λ _. reconnect_each io autoconnect rest)
        ≡ and_then r (λ _. reconnect_each io autoconnect rest')
  same_rest autoconnect rest rest' h (ok _, s) = h s
  same_rest autoconnect rest rest' h (err e, s) = refl

  -- The loop over the instances does what it does over those of a known type alone, in the same order:
  -- the report, what is done of the world, and how it ends.
  pub reconnect_each-known :
      (autoconnect : Bool) (devices : List Device) (s : Report × W)
      → reconnect_each io autoconnect devices s
        ≡ reconnect_each io autoconnect (select is_known devices) s
  unfolding reconnect_each
  reconnect_each-known autoconnect [] s = refl
  reconnect_each-known autoconnect (d ∷ devices) s = elim (Bool-cases (is_known d)) [
    | inl h ↦ rw (select-kept d devices h) (
        rw h (
          same_rest autoconnect devices (select is_known devices)
            (reconnect_each-known autoconnect devices) _))
    | inr h ↦ rw (select-skipped d devices h) (rw h (reconnect_each-known autoconnect devices s))
  ]
