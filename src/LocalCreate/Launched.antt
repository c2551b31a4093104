-- ===== src/LocalCreate/Launched.antt =====
-- What the report of a launch says.
use tools_acloud.Exec.{Result, ok, err, Exec, and_then, handle, ◌>>=◌, pure}
use tools_acloud.Report.Devices.{Holds}
use tools_acloud.Report.Status
use tools_acloud.LocalCreate.{
  Host, boot_failure, create_instance, after_failed_launch, report_active, Spec, launch_cvd, Active,
  cvd_status_failure, when, prepare_launch_cvd_cmd, boot_timeout, returned_code,
}
use tools_acloud.Base.{
  String, ℕ, ◌≡◌, Option, [], ◌∷◌, Bool-cases, some, refl, inr, ◌⊎◌, inl, none, true, false, Bool,
}
use tools_acloud.Report.{
  init, Report, set_status, add_device_boot_failure, add_device, add_data, device_record, add_error,
  given,
}
use tools_acloud.Base.Dict.{lookup, insert, Dict}
use tools_acloud.Errors.{Exc, is_instance, launch_cvd_fail}
use tools_acloud.LocalInstance.{
  get_local_instance_name, get_local_instance_home_dir, get_local_instance_runtime_dir,
}
use tools_acloud.Constants
use tools_acloud.Base.Ints.{ℤ, is_zero}
use tools_acloud.Base.Text.{path_join, str}

module _ {W : Type 0} (io : Host W) (temp_dir : String) (id : ℕ) where
  -- The instance is up: its device with its ports, and no error.
  abbrev pub Up : Report → Active → Type 0
  Up r ins =
      (r.command ≡ "create")
      × (r.status ≡ Status.success)
      × (r.errors ≡ [])
      × Holds r "devices" (
          device_record (get_local_instance_name id) Constants.localhost ins.adb_port ins.vnc_port
          ∷ [])
      × Holds r "devices_failing_boot" []

  -- It is not: its device is among those that fail to boot, with the error.
  abbrev pub Down : Report → String → Type 0
  Down r error =
      (r.command ≡ "create")
      × (r.status ≡ Status.boot_fail)
      × (r.errors ≡ error ∷ [])
      × Holds r "devices_failing_boot"
          (device_record (get_local_instance_name id) Constants.localhost none none ∷ [])
      × Holds r "devices" []

  -- The process of launch_cvd has returned this code, in the environment of the instance and under the
  -- timeout, and has left this world.
  abbrev pub Exited : String → Spec → ℤ → W → Type 0
  Exited host spec code v =
      (cmd : String) × (u : W) × (io.run_process cmd
          ((Constants.env_android_host_out, host)
            ∷ ("HOME", get_local_instance_home_dir temp_dir id)
            ∷ ("CUTTLEFISH_INSTANCE", str id)
            ∷ [])
          (boot_timeout io temp_dir (given spec.boot_timeout_secs)) u
        ≡ (ok code, v))

  -- What a launch raises: LaunchCVDFail for a return code that is not 0, or what the system raised.
  pub data LaunchRaised (host : String) (spec : Spec) (e : Exc) : Type 0 where
    exited :
        (code : ℤ) (v : W)
        → Exited host spec code v
        → is_zero code ≡ false
        → e.cls ≡ launch_cvd_fail
        → LaunchRaised host spec e
    not_removed : (dir : String) (u v : W) → io.rmtree dir u ≡ (err e, v) → LaunchRaised host spec e
    not_made : (dir : String) (u v : W) → io.makedirs dir u ≡ (err e, v) → LaunchRaised host spec e
    not_run :
        (cmd : String) (env : Dict String) (t : ℕ) (u v : W)
        → io.run_process cmd env t u ≡ (err e, v)
        → LaunchRaised host spec e

  -- What is raised before the launch or after it.
  pub data Elsewhere (image host : String) (spec : Spec) (e : Exc) : Type 0 where
    releasing :
        (port : ℕ) (u v : W) → io.release_port port u ≡ (err e, v) → Elsewhere image host spec e
    preparing :
        (u v : W)
        → prepare_launch_cvd_cmd io temp_dir
            (path_join (path_join host "bin") Constants.cmd_launch_cvd)
            spec.hw_property
            spec.connect_adb
            image
            id
            spec.connect_webrtc
            spec.gpu
            u
          ≡ (err e, v)
        → Elsewhere image host spec e
    looking : (u v : W) → io.get_active_cvd id u ≡ (err e, v) → Elsewhere image host spec e
    showing_vnc :
        (r : Report) (u v : W)
        → io.launch_vnc_from_report r u ≡ (err e, v)
        → Elsewhere image host spec e
    showing_browser :
        (r : Report) (u v : W)
        → io.launch_browser_from_report r u ≡ (err e, v)
        → Elsewhere image host spec e
    unlocking :
        (port : Option ℕ) (u v : W)
        → io.auto_unlock_screen port u ≡ (err e, v)
        → Elsewhere image host spec e

  -- The launch returned 0, and GetActiveCVD, asked next, gave this.
  abbrev pub Launched : String → Spec → Option Active → Type 0
  Launched host spec o =
      (code : ℤ) × (u : W) × (v : W) × Exited host spec code u
      × (is_zero code ≡ true)
      × (io.get_active_cvd id u ≡ (ok o, v))

  -- What a launch that ended so, and the active instance after it, have to do with the report.
  abbrev pub Says : String → String → Spec → Result Report × W → Type 0
  Says image host spec (ok r, _) =
      ((ins : Active) × Launched host spec (some ins) × Up r ins)
      ⊎ (Launched host spec none × Down r cvd_status_failure)
      ⊎ ((e : Exc) × LaunchRaised host spec e
          × (is_instance e launch_cvd_fail ≡ true)
          × Down r e.message)
  Says image host spec (err e, _) =
      (LaunchRaised host spec e × (is_instance e launch_cvd_fail ≡ false))
      ⊎ Elsewhere image host spec e

  abbrev Ended : String → Spec → Result (Unit {0}) × W → Type 0
  Ended host spec (ok _, v) = (code : ℤ) × Exited host spec code v × (is_zero code ≡ true)
  Ended host spec (err e, v) = LaunchRaised host spec e

  module _ (host : String) (spec : Spec) where
    ran :
        (cmd : String) (u : W) (x : Result ℤ × W)
        → io.run_process cmd
            ((Constants.env_android_host_out, host)
              ∷ ("HOME", get_local_instance_home_dir temp_dir id)
              ∷ ("CUTTLEFISH_INSTANCE", str id)
              ∷ [])
            (boot_timeout io temp_dir (given spec.boot_timeout_secs))
            u
          ≡ x
        → Ended host spec
            (and_then x (returned_code io temp_dir (get_local_instance_runtime_dir temp_dir id)))
    unfolding returned_code
    ran cmd u (err e, v) h = not_run cmd _ _ u v h
    ran cmd u (ok code, v) h = elim (Bool-cases (is_zero code)) [
      | inl y ↦ rw y (code, (cmd, u, h), y)
      | inr n ↦ rw n (exited code v (cmd, u, h) n refl)
    ]

    then_Ended :
        (x : Result (Unit {0}) × W) (f : Unit {0} → Exec W (Unit {0}))
        → ((e : Exc) (v : W) → x ≡ (err e, v) → LaunchRaised host spec e)
        → ((v : W) → Ended host spec (f tt v))
        → Ended host spec (and_then x f)
    then_Ended (ok _, v) f raised h = h v
    then_Ended (err e, v) f raised h = raised e v refl

    launch_cvd-Ended :
        (cmd : String) (w : W)
        → Ended host spec (
            launch_cvd io temp_dir cmd id host
              (boot_timeout io temp_dir (given spec.boot_timeout_secs))
              w)
    unfolding launch_cvd
    launch_cvd-Ended cmd w =
        then_Ended (io.rmtree (get_local_instance_home_dir temp_dir id) w) _
          (λ e v h. not_removed _ w v h)
          λ u.
            then_Ended (io.makedirs (get_local_instance_runtime_dir temp_dir id) u) _
              (λ e v h. not_made _ u v h) (λ v. ran cmd v _ refl)

  boot_failure-Down :
      (error : String) (v : W)
      → (r : Report) × (boot_failure io temp_dir id error v ≡ (ok r, v)) × Down r error
  unfolding boot_failure set_status lookup add_device_boot_failure add_device add_data add_error
      insert
  boot_failure-Down error v = (_, refl, (refl, refl, refl, refl, refl))

  added-Up :
      (ins : Active)
      → (r : Report) × (r' : Report) × (set_status Status.success (init "create") ≡ ok r)
        × (add_device
              (get_local_instance_name id)
              Constants.localhost
              ins.adb_port
              ins.vnc_port
              "devices"
              r
            ≡ ok r')
        × Up r' ins
  unfolding set_status lookup add_device add_data add_error insert
  added-Up ins = (_, _, refl, refl, (refl, refl, refl, refl, refl))

  module _ (image host : String) (spec : Spec) where
    then_Says :
        {A : Type 0} (x : Result A × W) (f : A → Exec W Report)
        → ((e : Exc) (v : W) → x ≡ (err e, v) → Elsewhere image host spec e)
        → ((a : A) (v : W) → Says image host spec (f a v))
        → Says image host spec (and_then x f)
    then_Says (ok a, v) f raised h = h a v
    then_Says (err e, v) f raised h = inr (raised e v refl)

    when-Says :
        (b : Bool) (m : Exec W (Unit {0})) (f : Unit {0} → Exec W Report) (w : W)
        → ((e : Exc) (v : W) → m w ≡ (err e, v) → Elsewhere image host spec e)
        → ((v : W) → Says image host spec (f tt v))
        → Says image host spec (and_then (when b m w) f)
    when-Says true m f w raised h = then_Says (m w) f raised (λ _ v. h v)
    when-Says false m f w raised h = h w

    -- The report is shown to the user, and comes back as it is.
    shown :
        (port : Option ℕ) (r : Report) (v : W)
        → ((u : W) → Says image host spec (ok r, u))
        → Says image host spec (
            (when spec.connect_vnc (io.launch_vnc_from_report r) >>= λ _.
            when spec.connect_webrtc (io.launch_browser_from_report r) >>= λ _.
            when spec.unlock_screen (io.auto_unlock_screen port) >>= λ _. pure r)
              v)
    shown port r v h =
        when-Says spec.connect_vnc (io.launch_vnc_from_report r) _ v (λ e u x. showing_vnc r v u x)
          λ v1.
            when-Says spec.connect_webrtc (io.launch_browser_from_report r) _ v1
              (λ e u x. showing_browser r v1 u x)
              λ v2.
                when-Says spec.unlock_screen (io.auto_unlock_screen port) (λ _. pure r) v2
                  (λ e u x. unlocking port v2 u x) h

    report_active-Says :
        (x : Result (Option Active) × W) (u : W) (code : ℤ)
        → Exited host spec code u
        → is_zero code ≡ true
        → io.get_active_cvd id u ≡ x
        → Says image host spec (and_then x (report_active io temp_dir spec id))
    unfolding report_active
    report_active-Says (ok none, v) u code ex z e =
        let (r, same, down) = boot_failure-Down cvd_status_failure v in
        rw same (inr (inl ((code, u, v, ex, z, e), down)))
    report_active-Says (ok (some ins), v) u code ex z e =
        let (r, r', first, second, up) = added-Up ins in
        rw first (rw second (shown ins.adb_port r' v (λ u'. inl (ins, (code, u, v, ex, z, e), up))))
    report_active-Says (err x, v) u code ex z e = inr (looking u v e)

    failed-Says :
        (e : Exc) (v : W)
        → LaunchRaised host spec e
        → Says image host spec (after_failed_launch io temp_dir id e v)
    unfolding after_failed_launch
    failed-Says e v raised = elim (Bool-cases (is_instance e launch_cvd_fail)) [
      | inl y ↦
          let (r, same, down) = boot_failure-Down e.message v in
          rw y (rw same (inr (inr (e, raised, y, down))))
      | inr n ↦ rw n (inl (raised, n))
    ]

    launched-Says :
        (x : Result (Unit {0}) × W)
        → Ended host spec x
        → Says image host spec (
            handle x
              (λ _. io.get_active_cvd id >>= report_active io temp_dir spec id)
              (after_failed_launch io temp_dir id))
    launched-Says (ok _, v) (code, ex, z) =
        report_active-Says (io.get_active_cvd id v) v code ex z refl
    launched-Says (err e, v) raised = failed-Says e v raised

    -- _LaunchCvd and what comes after it.
    abbrev launched : String → Exec W Report
    launched cmd v =
        handle
          (launch_cvd io temp_dir cmd id host
            (boot_timeout io temp_dir (given spec.boot_timeout_secs)) v)
          (λ _. io.get_active_cvd id >>= report_active io temp_dir spec id)
          (after_failed_launch io temp_dir id)

    abbrev prepared : Exec W String
    prepared =
        prepare_launch_cvd_cmd io temp_dir
          (path_join (path_join host "bin") Constants.cmd_launch_cvd) spec.hw_property
          spec.connect_adb image id spec.connect_webrtc spec.gpu

    -- A report that _CreateInstance returns is a success with the device of the active instance and its
    -- ports, where launch_cvd has returned 0 and GetActiveCVD then gave that instance; a boot failure that
    -- says so, where it has returned 0 and GetActiveCVD then gave none; or a boot failure with the message
    -- of the LaunchCVDFail that the launch raised. A device is never under both keys. An exception that
    -- leaves it is one of the launch that is no LaunchCVDFail, or comes from before or after the launch.
    pub create_instance-Says :
        (w : W) → Says image host spec (create_instance io temp_dir id image host spec w)
    unfolding create_instance
    create_instance-Says w =
        when-Says spec.connect_webrtc (io.release_port Constants.webrtc_local_port)
          (λ _. prepared >>= launched) w (λ e v h. releasing _ w v h)
          λ u.
            then_Says (prepared u) launched (λ e v h. preparing u v h)
              λ cmd v. launched-Says _ (launch_cvd-Ended host spec cmd v)
