-- ===== src/DevicePool/Failures.antt =====
-- Where the failures of CreateDevices come from: WaitForBoot of the devices, or GetFailures.
use package.text.Mathlib.TextEquality.{eq_iff}
use mathlib.Core.Path.{subst}
use mathlib.Core.Option.{some-injective}
use tools_acloud.Base.{
  true, String, List, ◌⊎◌, ◌≡◌, is_some, Bool-cases, All, arith, ◌∷◌, some, [], false, none, inl,
  inr, refl, str_eq, if◌then◌else◌, sym, ap, ◌∙◌, Option-cases, Bool,
}
use tools_acloud.DevicePool.{Factory, Options, pool_wait_for_boot, Device, boot_failures}
use tools_acloud.Base.Dict.{lookup, insert, Dict, lookup-insert}
use tools_acloud.Errors.{Exc, is_instance, device_boot_error}
use tools_acloud.Exec.{Result, ok, err, handle, raise}

insert-All :
    (P : String × Exc → Type 0) (k : String) (v : Exc) (d : Dict Exc)
    → P (k, v)
    → All P d
    → All P (insert k v d)
unfolding insert
insert-All P k v [] h a = (h, tt)
insert-All P k v ((j, w) ∷ d) h (b, a) = elim (Bool-cases (str_eq j k)) [
  | inl y ↦ rw y (subst (λ x. P (x, v)) (sym ((eq_iff j k).0 y)) h, a)
  | inr n ↦ rw n (b, insert-All P k v d h a)
]

lookup-All :
    (P : String × Exc → Type 0) (k : String) (v : Exc) (d : Dict Exc)
    → lookup k d ≡ some v
    → All P d
    → P (k, v)
unfolding lookup
lookup-All P k v [] h a = absurd (cc)
lookup-All P k v ((j, w) ∷ d) h (b, a) = elim (Bool-cases (str_eq j k)) [
  | inl y ↦
      let same : some w ≡ some v = ground (arith, h, y) in
      subst (λ x. P (x, v)) ((eq_iff j k).0 y) (subst (λ x. P (j, x)) (some-injective w v same) b)
  | inr n ↦ lookup-All P k v d (ground (arith, h, n)) a
]

module _ {W : Type 0} (io : Factory W) (o : Options) where
  -- WaitForBoot of the client raised this DeviceBootError for the instance of this name.
  abbrev pub Raised : String × Exc → Type 0
  Raised (name, e) =
      (is_instance e device_boot_error ≡ true)
      × ((u : W) × (v : W) × (io.wait_for_boot name o.boot_timeout_secs u ≡ (err e, v)))

  -- WaitForBoot returned for the device.
  abbrev pub Waited : Device → Type 0
  Waited d =
      (u : W) × (v : W) × (io.wait_for_boot d.instance_name o.boot_timeout_secs u ≡ (ok tt, v))

  -- The device has no failure and has booted, or it has the failure that WaitForBoot raised for it.
  abbrev pub Booted : Dict Exc → Device → Type 0
  Booted failures d =
      ((lookup d.instance_name failures ≡ none) × Waited d)
      ⊎ ((e : Exc) × (lookup d.instance_name failures ≡ some e) × Raised (d.instance_name, e))

  -- Where the failures come from.
  abbrev pub Found : List Device → Dict Exc → Type 0
  Found ds failures =
      ((o.wait_for_boot ≡ true) × All (Booted failures) ds × All Raised failures)
      ⊎ ((o.wait_for_boot ≡ false) × ((u : W) × (v : W) × (io.get_failures u ≡ (ok failures, v))))

  abbrev pub OnFound : List Device → Result (Dict Exc) × W → Type 0
  OnFound ds (ok failures, w) = Found ds failures
  OnFound ds (err e, w) = Unit

  -- The device has been waited for, or its name has a failure.
  abbrev Tried : Dict Exc → Device → Type 0
  Tried f d = Waited d ⊎ (is_some (lookup d.instance_name f) ≡ true)

  abbrev After : Dict Exc → List Device → Result (Dict Exc) × W → Type 0
  After f ds (ok f', w) =
      All Raised f'
      × All (Tried f') ds
      × ((name : String) → is_some (lookup name f) ≡ true → is_some (lookup name f') ≡ true)
  After f ds (err e, w) = Unit

  one_more :
      (d : Device) (ds : List Device) (f f' : Dict Exc) (x : Result (Dict Exc) × W)
      → Waited d ⊎ (is_some (lookup d.instance_name f') ≡ true)
      → ((name : String) → is_some (lookup name f) ≡ true → is_some (lookup name f') ≡ true)
      → After f' ds x
      → After f (d ∷ ds) x
  one_more d ds f f' (ok g, w) t keeps (a, b, c) = (a, (kept t, b), λ name h. c name (keeps name h))
    where
      kept : Waited d ⊎ (is_some (lookup d.instance_name f') ≡ true) → Tried g d
      kept (inl h) = inl h
      kept (inr h) = inr (c d.instance_name h)
  one_more d ds f f' (err e, w) t keeps h = tt

  insert-keeps :
      (k : String) (e : Exc) (f : Dict Exc) (name : String)
      → is_some (lookup name f) ≡ true
      → is_some (lookup name (insert k e f)) ≡ true
  insert-keeps k e f name h = ground (arith, h, lookup-insert name k e f)

  insert-has : (k : String) (e : Exc) (f : Dict Exc) → is_some (lookup k (insert k e f)) ≡ true
  insert-has k e f = rw (lookup-insert k k e f) (rw ((eq_iff k k).1 refl) refl)

  pool_wait_for_boot-After :
      (ds : List Device) (f : Dict Exc) (w : W)
      → All Raised f
      → After f ds (pool_wait_for_boot io o.boot_timeout_secs ds f w)
  unfolding pool_wait_for_boot
  pool_wait_for_boot-After [] f w h = (h, tt, λ name k. k)
  pool_wait_for_boot-After (d ∷ ds) f w h =
      by_result (pool_wait_for_boot-After ds)
        (io.wait_for_boot d.instance_name o.boot_timeout_secs w) refl
    where
      by_result :
          ((f : Dict Exc) (w : W)
            → All Raised f
            → After f ds (pool_wait_for_boot io o.boot_timeout_secs ds f w))
          → (x : Result (Unit {0}) × W) → io.wait_for_boot d.instance_name o.boot_timeout_secs w ≡ x
          → After f (d ∷ ds) (
              handle x
                (λ _. pool_wait_for_boot io o.boot_timeout_secs ds f)
                (λ e.
                  if is_instance e device_boot_error
                  then pool_wait_for_boot io o.boot_timeout_secs ds (insert d.instance_name e f)
                  else raise e))
      by_result rest (ok _, v) e = one_more d ds f f _ (inl (w, v, e)) (λ name k. k) (rest f v h)
      by_result rest (err x, v) e = elim (Bool-cases (is_instance x device_boot_error)) [
        | inl y ↦ rw y (
            one_more d ds f (insert d.instance_name x f) _ (inr (insert-has d.instance_name x f))
              (insert-keeps d.instance_name x f)
              (rest (insert d.instance_name x f) v
                (insert-All Raised d.instance_name x f (y, (w, v, e)) h)))
        | inr n ↦ rw n tt
      ]

  Tried-Booted : (f : Dict Exc) (d : Device) → All Raised f → Tried f d → Booted f d
  Tried-Booted f d a t = elim (Option-cases (lookup d.instance_name f)) [
    | inl none_there ↦ inl (none_there, waited none_there t)
    | inr (e, there) ↦ inr (e, there, lookup-All Raised d.instance_name e f there a)
  ]
    where
      waited : lookup d.instance_name f ≡ none → Tried f d → Waited d
      waited h (inl k) = k
      waited h (inr k) = absurd (let p : false ≡ true = sym (ap is_some h) ∙ k in cc)

  all-Booted :
      (f : Dict Exc) (ds : List Device) → All Raised f → All (Tried f) ds → All (Booted f) ds
  all-Booted f [] a h = tt
  all-Booted f (d ∷ ds) a (t, h) = (Tried-Booted f d a t, all-Booted f ds a h)

  waited-Found :
      (ds : List Device) (x : Result (Dict Exc) × W)
      → o.wait_for_boot ≡ true
      → After [] ds x
      → OnFound ds x
  waited-Found ds (ok f, w) y (a, b, c) = inl (y, all-Booted f ds a b, a)
  waited-Found ds (err e, w) y h = tt

  given-Found :
      (ds : List Device) (u : W) (x : Result (Dict Exc) × W)
      → o.wait_for_boot ≡ false
      → io.get_failures u ≡ x
      → OnFound ds x
  given-Found ds u (ok f, w) n h = inr (n, (u, w, h))
  given-Found ds u (err e, w) n h = tt

  pub boot_failures-Found : (ds : List Device) (w : W) → OnFound ds (boot_failures io o ds w)
  unfolding boot_failures
  boot_failures-Found ds w = by_flag o.wait_for_boot refl
    where
      by_flag :
          (b : Bool)
          → o.wait_for_boot ≡ b
          → OnFound ds
              ((if b then pool_wait_for_boot io o.boot_timeout_secs ds [] else io.get_failures) w)
      by_flag true y = waited-Found ds _ y (pool_wait_for_boot-After ds [] w tt)
      by_flag false n = given-Found ds w _ n refl
