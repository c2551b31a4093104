-- ===== src/Args/Facts.antt =====
-- What each passed test of VerifyArgs says.
use tools_acloud.Base.{
  true, false, String, Bool, is_some, ℕ, str_eq, ◌≡◌, ◌⊎◌, All, ◌≤◌, refl, ltb, ◌&&◌, not, inl, inr,
  List, arith, ◌∷◌, Bool-cases, ◌||◌, [],
}
use tools_acloud.Constants
use tools_acloud.Args.{
  Args, Check, truthy, then_check, reject, is_missing, check_port_free, nonzero, equals,
  default_gpu, check_tools, check_hw_properties, check_parsed, verify_host_args, is_known,
  verify_local_args, text_of, verify_args, verify_rest,
}
use tools_acloud.Errors.{Exc}
use tools_acloud.Exec.{ok, err, Result}
use tools_acloud.Report.{given}
use tools_acloud.Base.Dict.{Dict, mem, keys}
use tools_acloud.HwProperty.{parse_hw_property_args}
use tools_acloud.Args.Accepts.{Absent, HwAccepted}

reject-ok :
    (c : Bool) (e : Exc) (next : Check) → reject c e next ≡ ok tt → (c ≡ false) × (next ≡ ok tt)
reject-ok true e next h = absurd (cc)
reject-ok false e next h = (refl, h)

then_check-ok : (a next : Check) → then_check a next ≡ ok tt → (a ≡ ok tt) × (next ≡ ok tt)
then_check-ok (ok tt) next h = (refl, h)
then_check-ok (err e) next h = absurd (cc)

nand : (a b : Bool) → (a && b) ≡ false → (a ≡ false) ⊎ (b ≡ false)
nand true b h = inr h
nand false b h = inl refl

nand_not : (a b : Bool) → (not a && b) ≡ false → (a ≡ true) ⊎ (b ≡ false)
nand_not true b h = inl refl
nand_not false b h = inr h

not-not : (a b : Bool) → (not a && not b) ≡ false → (a ≡ true) ⊎ (b ≡ true)
not-not true b h = inl refl
not-not false true h = inr refl
not-not false false h = absurd (cc)

and_not : (a b : Bool) → (a && not b) ≡ false → (a ≡ false) ⊎ (b ≡ true)
and_not a true h = inr refl
and_not true false h = absurd (cc)
and_not false false h = inl refl

small : (a : Bool) (n : ℕ) → (a && ltb 1 n) ≡ false → (a ≡ false) ⊎ (n ≤ 1)
small true n h = inr (ground arith)
small false n h = inl refl

small_swapped : (a : Bool) (n : ℕ) → (ltb 1 n && a) ≡ false → (a ≡ false) ⊎ (n ≤ 1)
small_swapped true n h = inr (ground arith)
small_swapped false n h = inl refl

check_tools-ok :
    (exists : String → Bool) (tool_dirs : List String)
    → check_tools exists tool_dirs ≡ ok tt
    → All (λ tool_dir. exists tool_dir ≡ true) tool_dirs
unfolding check_tools
check_tools-ok exists [] h = tt
check_tools-ok exists (t ∷ tool_dirs) h = elim (Bool-cases (exists t)) [
  | inl y ↦ (y, check_tools-ok exists tool_dirs (ground arith))
  | inr n ↦ absurd (ground arith)
]

check_hw_properties-ok :
    (names : List String)
    → check_hw_properties names ≡ ok tt
    → All (λ k. mem k Constants.hw_properties ≡ true) names
unfolding check_hw_properties
check_hw_properties-ok [] h = tt
check_hw_properties-ok (k ∷ names) h = elim (Bool-cases (mem k Constants.hw_properties)) [
  | inl y ↦ (y, check_hw_properties-ok names (ground arith))
  | inr n ↦ absurd (ground arith)
]

check_parsed-ok : (r : Result (Dict String)) → check_parsed r ≡ ok tt → HwAccepted r
unfolding check_parsed
check_parsed-ok (ok d) h = check_hw_properties-ok (keys d) h
check_parsed-ok (err e) h = absurd (cc)

both : (a b : Bool) → ((a || b) && not (a && b)) ≡ false → a ≡ b
both true true h = refl
both true false h = absurd (cc)
both false true h = absurd (cc)
both false false h = refl

pub Absent5 :
    (a b c d e : Bool)
    → (a || b || c || d || e) ≡ false
    → (a ≡ false) × (b ≡ false) × (c ≡ false) × (d ≡ false) × (e ≡ false)
Absent5 false false false false false h = (refl, refl, refl, refl, refl)
Absent5 true b c d e h = absurd (cc)
Absent5 false true c d e h = absurd (cc)
Absent5 false false true d e h = absurd (cc)
Absent5 false false false true e h = absurd (cc)
Absent5 false false false false true h = absurd (cc)

pub Absent3 : (a b c : Bool) → (a || b || c) ≡ false → (a ≡ false) × (b ≡ false) × (c ≡ false)
Absent3 false false false h = (refl, refl, refl)
Absent3 true b c h = absurd (cc)
Absent3 false true c h = absurd (cc)
Absent3 false false true h = absurd (cc)

-- What a passed sequence of tests says of each.
module _ (exists : String → Bool) (port_is_free : ℕ → Bool) (args : Args) where
  abbrev LocalFacts : Type 0
  LocalFacts =
      (is_missing exists args.local_image ≡ false)
      × ((equals args.local_system_image "" ≡ true)
          ⊎ (str_eq args.avd_type Constants.type_gf ≡ true))
      × (is_missing exists args.local_system_image ≡ false)
      × All (λ tool_dir. exists tool_dir ≡ true) args.local_tool
      × ((equals args.autoconnect Constants.ins_key_webrtc ≡ false)
          ⊎ (str_eq args.avd_type Constants.type_cf ≡ true))

  local_facts : verify_local_args exists args ≡ ok tt → LocalFacts
  unfolding verify_local_args
  local_facts h =
      let (a, h1) = reject-ok _ _ _ h in
      let (b, h2) = reject-ok _ _ _ h1 in
      let (c, h3) = reject-ok _ _ _ h2 in
      let (d, h4) = then_check-ok _ _ h3 in
      let (e, h5) = reject-ok _ _ _ h4 in
      (a, not-not _ _ b, c, check_tools-ok exists args.local_tool d, and_not _ _ e)

  abbrev HostFacts : Type 0
  HostFacts =
      (Absent args.remote_host ⊎ (is_some args.local_instance ≡ false))
      × (Absent args.remote_host ⊎ (args.num ≤ 1))
      × ((str_eq args.host_user Constants.gce_user ≡ true) ⊎ (is_some args.remote_host ≡ true))
      × (Absent args.host_ssh_private_key_path ⊎ (is_some args.remote_host ≡ true))

  host_facts : verify_host_args args ≡ ok tt → HostFacts
  unfolding verify_host_args
  host_facts h =
      let (a, h1) = reject-ok _ _ _ h in
      let (b, h2) = reject-ok _ _ _ h1 in
      let (c, h3) = reject-ok _ _ _ h2 in
      let (d, h4) = reject-ok _ _ _ h3 in (nand _ _ a, small _ _ b, not-not _ _ c, and_not _ _ d)

  abbrev pub RestFacts : Type 0
  RestFacts =
      ((str_eq args.avd_type Constants.type_cheeps ≡ true)
        ⊎ ((truthy args.stable_cheeps_host_image_name
              || truthy args.stable_cheeps_host_image_project
              || truthy args.username
              || truthy args.password
              || truthy args.cheeps_betty_image)
            ≡ false))
      × (truthy args.username ≡ truthy args.password)
      × ((truthy args.autoconnect ≡ true) ⊎ (args.unlock_screen ≡ false))
      × LocalFacts
      × HostFacts

  rest_facts : verify_rest exists args ≡ ok tt → RestFacts
  unfolding verify_rest
  rest_facts h =
      let (a, h1) = reject-ok _ _ _ h in
      let (b, h2) = reject-ok _ _ _ h1 in
      let (c, h3) = reject-ok _ _ _ h2 in
      let (d, h4) = then_check-ok _ _ h3 in
      (nand_not _ _ a, both _ _ b, nand_not _ _ c, local_facts d, host_facts h4)

  abbrev pub FirstFacts : Type 0
  FirstFacts =
      (Absent args.flavor ⊎ (is_known args.flavor ≡ true))
      × ((str_eq args.avd_type Constants.type_cf ≡ true)
          ⊎ ((truthy args.system_branch
                || truthy args.system_build_id
                || truthy args.system_build_target)
              ≡ false))
      × ((nonzero args.adb_port ≡ false) ⊎ (args.num ≤ 1))
      × ((is_some args.local_instance ≡ false) ⊎ (args.num ≤ 1))
      × ((is_some args.local_instance ≡ true) ⊎ (equals args.gpu default_gpu ≡ false))
      × (check_port_free port_is_free (given args.adb_port) ≡ ok tt)
      × HwAccepted (parse_hw_property_args (text_of args.hw_property))

  pub first_facts : verify_args exists port_is_free args ≡ ok tt → FirstFacts × RestFacts
  unfolding verify_args
  first_facts h =
      let (a, h1) = reject-ok _ _ _ h in
      let (b, h2) = reject-ok _ _ _ h1 in
      let (c, h3) = reject-ok _ _ _ h2 in
      let (d, h4) = reject-ok _ _ _ h3 in
      let (e, h5) = reject-ok _ _ _ h4 in
      let (f, h6) = then_check-ok _ _ h5 in
      let (g, h7) = then_check-ok _ _ h6 in
      (
        (
          and_not _ _ a,
          nand_not _ _ b,
          small_swapped _ _ c,
          small_swapped _ _ d,
          nand_not _ _ e,
          f,
          check_parsed-ok _ g,
        ),
        rest_facts h7,
      )
