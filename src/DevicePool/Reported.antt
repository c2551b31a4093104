-- ===== src/DevicePool/Reported.antt =====
-- What the report of CreateDevices says of the devices.
use tools_acloud.Base.{
  [], none, some, String, Option, List, ◌∷◌, ◌++◌, ◌≡◌, ◌∙◌, ◌⊎◌, refl, inl, inr, ap, sym,
  if◌then◌else◌,
}
use tools_acloud.Base.Dict.{Dict, lookup, insert}
use tools_acloud.DevicePool.{
  Device, Ports, Options, Factory, device_dict, error_type, file_device, report_device, report_each,
  forward, device_ip, address, Ip,
}
use tools_acloud.Errors.{Exc}
use tools_acloud.Exec.{Exec, Result, ok, err, and_then, ◌>>=◌, pure}
use tools_acloud.Report.{Report, Record, txt, add_error, records, entry_or_nil}
use tools_acloud.Report.Devices.{Holds, add_data-Holds}
use tools_acloud.Report.Steps.{method, store_report, world}
use mathlib.Core.List.{append-nil, append_assoc}

-- The devices, in order, and what is said of them: the records of those that have no failure, the
-- records of those that have one, and the messages of the failures.
pub data Split (failures : Dict Exc)
    : List Device → List Record → List Record → List String → Type 0 where
  none_left : Split failures [] [] [] []
  booted :
      {ds : List Device} {xs ys : List Record} {es : List String} (d : Device) (ip : String)
      (ports : Option Ports)
      → lookup d.instance_name failures ≡ none
      → Split failures ds xs ys es
      → Split failures (d ∷ ds) (device_dict ip d ports ∷ xs) ys es
  failed :
      {ds : List Device} {xs ys : List Record} {es : List String} (d : Device) (ip : String)
      (ports : Option Ports) (e : Exc) (t : String)
      → lookup d.instance_name failures ≡ some e
      → error_type d.stage ≡ ok t
      → Split failures ds xs ys es
      → Split failures
          (d ∷ ds)
          xs
          (insert "error_type" (txt t) (device_dict ip d ports) ∷ ys)
          (e.message ∷ es)

module _ {W : Type 0} (io : Factory W) (o : Options) (failures : Dict Exc) where
  -- What one device leaves of a report with the records `l` and `m` under the two keys.
  abbrev One :
      Device → Report → List Record → List Record → Result (Unit {0}) × (Report × W) → Type 0
  One d r l m (ok _, (r', _)) =
      ((ip : String) × (ports : Option Ports) × (lookup d.instance_name failures ≡ none)
        × Holds r' "devices" (l ++ device_dict ip d ports ∷ [])
        × Holds r' "devices_failing_boot" m
        × (r'.errors ≡ r.errors)
        × (r'.status ≡ r.status))
      ⊎ ((ip : String) × (ports : Option Ports) × (e : Exc) × (t : String) × (lookup d.instance_name
              failures
            ≡ some e)
          × (error_type d.stage ≡ ok t)
          × Holds r' "devices" l
          × Holds r' "devices_failing_boot"
              (m ++ insert "error_type" (txt t) (device_dict ip d ports) ∷ [])
          × (r'.errors ≡ r.errors ++ e.message ∷ [])
          × (r'.status ≡ r.status))
  One d r l m (err e, _) = Unit

  -- What all devices leave of it.
  abbrev pub AllFiled :
      List Device → Report → List Record → List Record → Result (Unit {0}) × (Report × W) → Type 0
  AllFiled ds r l m (ok _, (r', _)) =
      (xs : List Record) × (ys : List Record) × (es : List String) × Split failures ds xs ys es
      × Holds r' "devices" (l ++ xs)
      × Holds r' "devices_failing_boot" (m ++ ys)
      × (r'.errors ≡ r.errors ++ es)
      × (r'.status ≡ r.status)
  AllFiled ds r l m (err e, _) = Unit

  file_none :
      (d : Device) (ip : String) (ports : Option Ports) (r : Report) (l m : List Record) (w : W)
      → lookup d.instance_name failures ≡ none
      → Holds r "devices" l
      → Holds r "devices_failing_boot" m
      → One d r l m (file_device io none d (device_dict ip d ports) (r, w))
  unfolding file_device method store_report
  file_none d ip ports r l m w e h k =
      let (r', added, held, rest, same) = add_data-Holds "devices" (device_dict ip d ports) r l h in
      rw added (
        inl (
          ip,
          ports,
          e,
          held,
          ap entry_or_nil (rest "devices_failing_boot" refl) ∙ k,
          ap (λ (x : Report). x.errors) same,
          ap (λ (x : Report). x.status) same,
        ))

  file_some :
      (d : Device) (ip : String) (ports : Option Ports) (r : Report) (l m : List Record) (w : W)
      (e : Exc)
      → lookup d.instance_name failures ≡ some e
      → Holds r "devices" l
      → Holds r "devices_failing_boot" m
      → (x : Result String) → error_type d.stage ≡ x
      → One d r l m (file_device io (some e) d (device_dict ip d ports) (r, w))
  unfolding file_device method store_report add_error
  file_some d ip ports r l m w e f h k (err z) y = rw y tt
  file_some d ip ports r l m w e f h k (ok t) y =
      let (r', added, held, rest, same) =
        add_data-Holds "devices_failing_boot" (insert "error_type" (txt t) (device_dict ip d ports))
          r m k in
      rw y (
        rw added (
          inr (
            ip,
            ports,
            e,
            t,
            f,
            y,
            ap entry_or_nil (rest "devices" refl) ∙ h,
            held,
            ap (λ (x : Report). x.errors ++ e.message ∷ []) same,
            ap (λ (x : Report). x.status) same,
          )))

  file-One :
      (d : Device) (ip : String) (ports : Option Ports) (r : Report) (l m : List Record) (w : W)
      → Holds r "devices" l
      → Holds r "devices_failing_boot" m
      → (x : Option Exc) → lookup d.instance_name failures ≡ x
      → One d r l m (file_device io x d (device_dict ip d ports) (r, w))
  file-One d ip ports r l m w h k none e = file_none d ip ports r l m w e h k
  file-One d ip ports r l m w h k (some x) e =
      file_some d ip ports r l m w x e h k (error_type d.stage) refl

  -- A step that leaves the report alone.
  then_One :
      {A : Type 0} (d : Device) (r : Report) (l m : List Record)
      → (x : Result A × W) (f : A → Exec (Report × W) (Unit {0}))
      → ((a : A) (v : W) → One d r l m (f a (r, v)))
      → One d r l m (and_then (x.0, (r, x.1)) f)
  then_One d r l m (ok a, v) f h = h a v
  then_One d r l m (err e, v) f h = tt

  report_device-One :
      (d : Device) (r : Report) (l m : List Record) (w : W)
      → Holds r "devices" l
      → Holds r "devices_failing_boot" m
      → One d r l m (report_device io o failures d (r, w))
  unfolding report_device
  report_device-One d r l m w h k =
      let filed = λ (ip : Ip) (ports : Option Ports).
        file_device io (lookup d.instance_name failures) d
          (device_dict (address io o ip) d ports) in
      let tunnel = λ (ip : Ip).
        if o.connect_webrtc then io.establish_webrtc_ssh_tunnel (address io o ip) else pure tt in
      then_One d r l m (device_ip d.ip d.instance_name, w)
        (λ ip. world (forward io o (address io o ip)) >>= λ ports.
          world (tunnel ip) >>= λ _. filed ip ports)
        λ ip v.
          then_One d r l m (forward io o (address io o ip) v)
            (λ ports. world (tunnel ip) >>= λ _. filed ip ports)
            λ ports u.
              then_One d r l m (tunnel ip u) (λ _. filed ip ports)
                λ _ t.
                  file-One d (address io o ip) ports r l m t h k (lookup d.instance_name failures)
                    refl

  more :
      (d : Device) (ds : List Device) (r : Report) (l m : List Record)
      → (x : Result (Unit {0}) × (Report × W)) → One d r l m x
      → ((r' : Report) (v : W) (l' m' : List Record)
          → Holds r' "devices" l'
          → Holds r' "devices_failing_boot" m'
          → AllFiled ds r' l' m' (report_each io o failures ds (r', v)))
      → AllFiled (d ∷ ds) r l m (and_then x (λ _. report_each io o failures ds))
  more d ds r l m (err e, s) h rest = tt
  more d ds r l m (ok _, (r', v)) (inl (ip, ports, e, h, k, er, st)) rest =
      onward (report_each io o failures ds (r', v)) (rest r' v _ m h k)
    where
      onward :
          (y : Result (Unit {0}) × (Report × W))
          → AllFiled ds r' (l ++ device_dict ip d ports ∷ []) m y
          → AllFiled (d ∷ ds) r l m y
      onward (err z, s) a = tt
      onward (ok _, s) (xs, ys, es, split, h', k', er', st') = (
        device_dict ip d ports ∷ xs,
        ys,
        es,
        booted d ip ports e split,
        h' ∙ ap records (append_assoc l _ xs),
        k',
        er' ∙ ap (λ x. x ++ es) er,
        st' ∙ st,
      )
  more d ds r l m (ok _, (r', v)) (inr (ip, ports, e, t, f, y, h, k, er, st)) rest =
      onward (report_each io o failures ds (r', v)) (rest r' v l _ h k)
    where
      onward :
          (z : Result (Unit {0}) × (Report × W))
          → AllFiled ds r' l (m ++ insert "error_type" (txt t) (device_dict ip d ports) ∷ []) z
          → AllFiled (d ∷ ds) r l m z
      onward (err z, s) a = tt
      onward (ok _, s) (xs, ys, es, split, h', k', er', st') = (
        xs,
        insert "error_type" (txt t) (device_dict ip d ports) ∷ ys,
        e.message ∷ es,
        failed d ip ports e t f y split,
        h',
        k' ∙ ap records (append_assoc m _ ys),
        er' ∙ ap (λ x. x ++ es) er ∙ append_assoc r.errors (e.message ∷ []) es,
        st' ∙ st,
      )

  pub report_each-filed :
      (ds : List Device) (r : Report) (l m : List Record) (w : W)
      → Holds r "devices" l
      → Holds r "devices_failing_boot" m
      → AllFiled ds r l m (report_each io o failures ds (r, w))
  unfolding report_each
  report_each-filed [] r l m w h k = (
    [],
    [],
    [],
    none_left,
    h ∙ ap records (sym (append-nil l)),
    k ∙ ap records (sym (append-nil m)),
    sym (append-nil r.errors),
    refl,
  )
  report_each-filed (d ∷ ds) r l m w h k =
      more d ds r l m (report_device io o failures d (r, w)) (report_device-One d r l m w h k)
        (λ r' v l' m' h' k'. report_each-filed ds r' l' m' v h' k')
