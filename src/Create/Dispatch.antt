-- ===== src/Create/Dispatch.antt =====
-- Which creations GetAvdCreatorClass supports.
use tools_acloud.Base.{
  ◌∷◌, true, false, [], none, some, ◌≡◌, List, IsIn, &&-true, All, str_eq, ◌&&◌, String, Option,
  ◌↔◌, refl, inl, Bool-cases, arith, ap, inr, ◌∙◌, sym,
}
use tools_acloud.Create.{
  Spec, get_class, spec_eq, CreatorClass, class_or_error, get_avd_creator_class, creator_class_dict,
  spec,
}
use package.text.Mathlib.TextPositions.{eq_refl}
use package.text.Mathlib.TextEquality.{eq_iff}
use tools_acloud.Exec.{ok, err, Result}
use tools_acloud.Constants
use mathlib.Core.Path.{subst}
use tools_acloud.Errors.{
  Exc, is_instance, is_subclass, is_sub_within, unsupported_instance_image_type,
}
use tools_acloud.Create.{
  gce_local_image_remote_instance, gce_remote_image_remote_instance, local_image_local_instance,
  local_image_remote_instance, local_image_remote_host, remote_image_remote_instance,
  remote_image_local_instance, remote_image_remote_host, cheeps_remote_image_remote_instance,
  goldfish_remote_image_remote_instance, goldfish_local_image_local_instance,
}

spec-eq :
    (s t : Spec)
    → s.avd_type ≡ t.avd_type
    → s.image_source ≡ t.image_source
    → s.instance_type ≡ t.instance_type
    → s ≡ t
spec-eq s t p q r = cc

spec_eq-eq : (s t : Spec) → spec_eq s t ≡ true → s ≡ t
spec_eq-eq s t h =
    let (rest, c) =
      &&-true (str_eq s.avd_type t.avd_type && str_eq s.image_source t.image_source)
        (str_eq s.instance_type t.instance_type) h in
    let (a, b) =
      &&-true (str_eq s.avd_type t.avd_type) (str_eq s.image_source t.image_source) rest in
    spec-eq s t ((eq_iff s.avd_type t.avd_type).0 a) ((eq_iff s.image_source t.image_source).0 b)
      ((eq_iff s.instance_type t.instance_type).0 c)

spec_eq_refl : (s : Spec) → spec_eq s s ≡ true
spec_eq_refl s = rw (eq_refl s.avd_type) (rw (eq_refl s.image_source) (eq_refl s.instance_type))

entry-eq :
    (t s : Spec) (d c : CreatorClass) → t ≡ s → d ≡ c → ◌≡◌ {A = Spec × CreatorClass} (t, d) (s, c)
entry-eq t s d c p q = cc

get_class-IsIn :
    (s : Spec) (c : CreatorClass) (classes : List (Spec × CreatorClass))
    → get_class s classes ≡ some c
    → IsIn (s, c) classes
unfolding get_class
get_class-IsIn s c [] h = absurd (cc)
get_class-IsIn s c ((t, d) ∷ classes) h = elim (Bool-cases (spec_eq t s)) [
  | inl y ↦ inl (entry-eq t s d c (spec_eq-eq t s y) (ground arith))
  | inr n ↦ inr (get_class-IsIn s c classes (ground arith))
]

-- No later entry has the specification of an earlier one.
abbrev Distinct : List (Spec × CreatorClass) → Type 0
Distinct [] = Unit
Distinct ((t, _) ∷ classes) = All (λ x. spec_eq t x.0 ≡ false) classes × Distinct classes

first_misses :
    (t s : Spec) (c : CreatorClass) (classes : List (Spec × CreatorClass))
    → All (λ x. spec_eq t x.0 ≡ false) classes
    → IsIn (s, c) classes
    → spec_eq t s ≡ false
first_misses t s c [] h at = absurd at
first_misses t s c ((u, d) ∷ classes) h (inl e) =
    ap (λ (x : Spec × CreatorClass). spec_eq t x.0) (sym e) ∙ h.0
first_misses t s c ((u, d) ∷ classes) h (inr at) = first_misses t s c classes h.1 at

IsIn-get_class :
    (s : Spec) (c : CreatorClass) (classes : List (Spec × CreatorClass))
    → Distinct classes
    → IsIn (s, c) classes
    → get_class s classes ≡ some c
unfolding get_class
IsIn-get_class s c [] h at = absurd at
IsIn-get_class s c ((t, d) ∷ classes) h (inl e) =
    rw (ap (λ (x : Spec × CreatorClass). spec_eq x.0 s) e ∙ spec_eq_refl s)
      (ap (λ (x : Spec × CreatorClass). some x.1) e)
IsIn-get_class s c ((t, d) ∷ classes) h (inr at) =
    rw (first_misses t s c classes h.0 at) (IsIn-get_class s c classes h.1 at)

dict-Distinct : Distinct creator_class_dict
dict-Distinct = (
  (refl, (refl, (refl, (refl, (refl, (refl, (refl, (refl, (refl, (refl, (refl, tt))))))))))),
  (
    (refl, (refl, (refl, (refl, (refl, (refl, (refl, (refl, (refl, (refl, tt)))))))))),
    (
      (refl, (refl, (refl, (refl, (refl, (refl, (refl, (refl, (refl, tt))))))))),
      (
        (refl, (refl, (refl, (refl, (refl, (refl, (refl, (refl, tt)))))))),
        (
          (refl, (refl, (refl, (refl, (refl, (refl, (refl, tt))))))),
          (
            (refl, (refl, (refl, (refl, (refl, (refl, tt)))))),
            (
              (refl, (refl, (refl, (refl, (refl, tt))))),
              (
                (refl, (refl, (refl, (refl, tt)))),
                ((refl, (refl, (refl, tt))), ((refl, (refl, tt)), ((refl, tt), (tt, tt)))),
              ),
            ),
          ),
        ),
      ),
    ),
  ),
)

class_or_error-ok :
    (s : Spec) (o : Option CreatorClass) (c : CreatorClass)
    → (class_or_error s o ≡ ok c) ↔ (o ≡ some c)
unfolding class_or_error
class_or_error-ok s none c = (λ h. absurd (cc), λ h. absurd (cc))
class_or_error-ok s (some d) c = (λ h. cc, λ h. cc)

-- What each class creates, as its name says: devices of these types,
abbrev pub avd_types : CreatorClass → List String
avd_types gce_local_image_remote_instance = Constants.type_gce ∷ []
avd_types gce_remote_image_remote_instance = Constants.type_gce ∷ []
avd_types local_image_local_instance = Constants.type_cf ∷ []
avd_types local_image_remote_instance = Constants.type_cf ∷ Constants.type_fvp ∷ []
avd_types local_image_remote_host = Constants.type_cf ∷ []
avd_types remote_image_remote_instance = Constants.type_cf ∷ []
avd_types remote_image_local_instance = Constants.type_cf ∷ []
avd_types remote_image_remote_host = Constants.type_cf ∷ []
avd_types cheeps_remote_image_remote_instance = Constants.type_cheeps ∷ []
avd_types goldfish_remote_image_remote_instance = Constants.type_gf ∷ []
avd_types goldfish_local_image_local_instance = Constants.type_gf ∷ []

-- from an image that is
abbrev pub image_of : CreatorClass → String
image_of gce_local_image_remote_instance = Constants.image_src_local
image_of gce_remote_image_remote_instance = Constants.image_src_remote
image_of local_image_local_instance = Constants.image_src_local
image_of local_image_remote_instance = Constants.image_src_local
image_of local_image_remote_host = Constants.image_src_local
image_of remote_image_remote_instance = Constants.image_src_remote
image_of remote_image_local_instance = Constants.image_src_remote
image_of remote_image_remote_host = Constants.image_src_remote
image_of cheeps_remote_image_remote_instance = Constants.image_src_remote
image_of goldfish_remote_image_remote_instance = Constants.image_src_remote
image_of goldfish_local_image_local_instance = Constants.image_src_local

-- for an instance that runs
abbrev pub place_of : CreatorClass → String
place_of gce_local_image_remote_instance = Constants.instance_type_remote
place_of gce_remote_image_remote_instance = Constants.instance_type_remote
place_of local_image_local_instance = Constants.instance_type_local
place_of local_image_remote_instance = Constants.instance_type_remote
place_of local_image_remote_host = Constants.instance_type_host
place_of remote_image_remote_instance = Constants.instance_type_remote
place_of remote_image_local_instance = Constants.instance_type_local
place_of remote_image_remote_host = Constants.instance_type_host
place_of cheeps_remote_image_remote_instance = Constants.instance_type_remote
place_of goldfish_remote_image_remote_instance = Constants.instance_type_remote
place_of goldfish_local_image_local_instance = Constants.instance_type_local

abbrev pub Creates : CreatorClass → Spec → Type 0
Creates c s =
    IsIn s.avd_type (avd_types c) × (s.image_source ≡ image_of c) × (s.instance_type ≡ place_of c)

row-Creates : {x y : Spec × CreatorClass} → x ≡ y → Creates x.1 x.0 → Creates y.1 y.0
row-Creates e h = subst (λ (x : Spec × CreatorClass). Creates x.1 x.0) e h

dict-Creates : (s : Spec) (c : CreatorClass) → IsIn (s, c) creator_class_dict → Creates c s
dict-Creates s c (inl e) = row-Creates e (inl refl, refl, refl)
dict-Creates s c (inr (inl e)) = row-Creates e (inl refl, refl, refl)
dict-Creates s c (inr (inr (inl e))) = row-Creates e (inl refl, refl, refl)
dict-Creates s c (inr (inr (inr (inl e)))) = row-Creates e (inl refl, refl, refl)
dict-Creates s c (inr (inr (inr (inr (inl e))))) = row-Creates e (inl refl, refl, refl)
dict-Creates s c (inr (inr (inr (inr (inr (inl e)))))) = row-Creates e (inl refl, refl, refl)
dict-Creates s c (inr (inr (inr (inr (inr (inr (inl e))))))) = row-Creates e (inl refl, refl, refl)
dict-Creates s c (inr (inr (inr (inr (inr (inr (inr (inl e)))))))) =
    row-Creates e (inl refl, refl, refl)
dict-Creates s c (inr (inr (inr (inr (inr (inr (inr (inr (inl e))))))))) =
    row-Creates e (inl refl, refl, refl)
dict-Creates s c (inr (inr (inr (inr (inr (inr (inr (inr (inr (inl e)))))))))) =
    row-Creates e (inl refl, refl, refl)
dict-Creates s c (inr (inr (inr (inr (inr (inr (inr (inr (inr (inr (inl e))))))))))) =
    row-Creates e (inl refl, refl, refl)
dict-Creates s c (inr (inr (inr (inr (inr (inr (inr (inr (inr (inr (inr (inl e)))))))))))) =
    row-Creates e (inr (inl refl), refl, refl)
dict-Creates s c (inr (inr (inr (inr (inr (inr (inr (inr (inr (inr (inr (inr at)))))))))))) =
    absurd at

entry_of :
    (c : CreatorClass) (s : Spec) (a i p : String)
    → a ≡ s.avd_type
    → s.image_source ≡ i
    → s.instance_type ≡ p
    → ◌≡◌ {A = Spec × CreatorClass} (spec a i p, c) (s, c)
entry_of c s a i p x y z =
    entry-eq (spec a i p) s c c (spec-eq (spec a i p) s x (sym y) (sym z)) refl

Creates-dict : (c : CreatorClass) (s : Spec) → Creates c s → IsIn (s, c) creator_class_dict
Creates-dict gce_local_image_remote_instance s (inl x, y, z) =
    inl (entry_of gce_local_image_remote_instance s _ _ _ x y z)
Creates-dict gce_local_image_remote_instance s (inr at, y, z) = absurd at
Creates-dict gce_remote_image_remote_instance s (inl x, y, z) =
    inr (inl (entry_of gce_remote_image_remote_instance s _ _ _ x y z))
Creates-dict gce_remote_image_remote_instance s (inr at, y, z) = absurd at
Creates-dict local_image_local_instance s (inl x, y, z) =
    inr (inr (inl (entry_of local_image_local_instance s _ _ _ x y z)))
Creates-dict local_image_local_instance s (inr at, y, z) = absurd at
Creates-dict local_image_remote_instance s (inl x, y, z) =
    inr (inr (inr (inl (entry_of local_image_remote_instance s _ _ _ x y z))))
Creates-dict local_image_remote_instance s (inr (inl x), y, z) = inr (
    inr (
      inr (
        inr (
          inr (
            inr (
              inr (
                inr (
                  inr (inr (inr (inl (entry_of local_image_remote_instance s _ _ _ x y z))))))))))))
Creates-dict local_image_remote_instance s (inr (inr at), y, z) = absurd at
Creates-dict local_image_remote_host s (inl x, y, z) =
    inr (inr (inr (inr (inl (entry_of local_image_remote_host s _ _ _ x y z)))))
Creates-dict local_image_remote_host s (inr at, y, z) = absurd at
Creates-dict remote_image_remote_instance s (inl x, y, z) =
    inr (inr (inr (inr (inr (inl (entry_of remote_image_remote_instance s _ _ _ x y z))))))
Creates-dict remote_image_remote_instance s (inr at, y, z) = absurd at
Creates-dict remote_image_local_instance s (inl x, y, z) =
    inr (inr (inr (inr (inr (inr (inl (entry_of remote_image_local_instance s _ _ _ x y z)))))))
Creates-dict remote_image_local_instance s (inr at, y, z) = absurd at
Creates-dict remote_image_remote_host s (inl x, y, z) =
    inr (inr (inr (inr (inr (inr (inr (inl (entry_of remote_image_remote_host s _ _ _ x y z))))))))
Creates-dict remote_image_remote_host s (inr at, y, z) = absurd at
Creates-dict cheeps_remote_image_remote_instance s (inl x, y, z) = inr (
    inr (
      inr (
        inr (
          inr
            (inr (inr (inr (inl (entry_of cheeps_remote_image_remote_instance s _ _ _ x y z)))))))))
Creates-dict cheeps_remote_image_remote_instance s (inr at, y, z) = absurd at
Creates-dict goldfish_remote_image_remote_instance s (inl x, y, z) = inr (
    inr (
      inr (
        inr (
          inr (
            inr (
              inr (
                inr
                  (inr (inl (entry_of goldfish_remote_image_remote_instance s _ _ _ x y z))))))))))
Creates-dict goldfish_remote_image_remote_instance s (inr at, y, z) = absurd at
Creates-dict goldfish_local_image_local_instance s (inl x, y, z) = inr (
    inr (
      inr (
        inr (
          inr (
            inr (
              inr (
                inr (
                  inr
                    (inr (inl (entry_of goldfish_local_image_local_instance s _ _ _ x y z)))))))))))
Creates-dict goldfish_local_image_local_instance s (inr at, y, z) = absurd at

class_or_error-refused :
    (s : Spec) (o : Option CreatorClass) (e : Exc)
    → class_or_error s o ≡ err e
    → is_instance e unsupported_instance_image_type ≡ true
unfolding class_or_error is_instance is_subclass is_sub_within
class_or_error-refused s none e h =
    subst
      (λ (x : Result CreatorClass). elim x [
        | ok c ↦ Unit
        | err y ↦ is_instance y unsupported_instance_image_type ≡ true
      ])
      h refl
class_or_error-refused s (some c) e h = absurd (cc)

-- GetAvdCreatorClass gives a class exactly for the AVD types, the image source and the instance type
-- that the class is for, so that all of them are found and no two classes claim the same; and whatever
-- it raises is an UnsupportedInstanceImageType.
pub get_avd_creator_class-Creates :
    (avd_type instance_type image_source : String)
    → ((c : CreatorClass)
        → (get_avd_creator_class avd_type instance_type image_source ≡ ok c)
          ↔ Creates c (spec avd_type image_source instance_type))
      × ((e : Exc)
          → get_avd_creator_class avd_type instance_type image_source ≡ err e
          → is_instance e unsupported_instance_image_type ≡ true)
unfolding get_avd_creator_class
get_avd_creator_class-Creates avd_type instance_type image_source =
    let s = spec avd_type image_source instance_type in
    (
      λ c. (
        λ h.
            dict-Creates s c
              (get_class-IsIn s c creator_class_dict ((class_or_error-ok _ _ c).0 h)),
        λ h.
            (class_or_error-ok _ _ c).1
              (IsIn-get_class s c creator_class_dict dict-Distinct (Creates-dict c s h)),
      ),
      λ e h. class_or_error-refused s _ e h,
    )
