-- ===== src/Config/Verified.antt =====
-- What holds of a configuration once it is made.
use tools_acloud.Base.{
  true, false, [], none, String, All, ◌∷◌, ◌≡◌, ◌∙◌, refl, inl, inr, is_nil, str_eq, Bool-cases,
  arith, Bool, is_some, ◌⊎◌, Option-cases,
}
use tools_acloud.Base.Dict.{
  Dict, lookup, lookup-cons, NodupKeys, update, lookup-insert, lookup-update,
}
use tools_acloud.Base.Text.{is_empty}
use tools_acloud.Config.{
  delete_key, missing_of, disk_metadata, UserConfig, with_device, with_metadata, verified,
  InternalConfig, verify, AcloudConfig, ephemeral_data_size_mb, required_fields, or_else_ℤ,
  persistent_data_device, has_size, config_error, init, fields_of,
}
use package.text.Mathlib.TextEquality.{eq_iff}
use tools_acloud.Exec.{Result, ok, err}
use tools_acloud.Base.Ints.{is_positive, is_zero}

delete_key-lookup : (key : String) (d : Dict String) → lookup key (delete_key key d) ≡ none
unfolding delete_key lookup
delete_key-lookup key [] = refl
delete_key-lookup key ((k, v) ∷ d) = elim (Bool-cases (str_eq k key)) [
  | inl y ↦ rw y (delete_key-lookup key d)
  | inr n ↦ rw n (lookup-cons key k v (delete_key key d) ∙ rw n (delete_key-lookup key d))
]

delete_key-lookup_other :
    (key j : String) (d : Dict String)
    → str_eq key j ≡ false
    → lookup j (delete_key key d) ≡ lookup j d
unfolding delete_key lookup
delete_key-lookup_other key j [] ne = refl
delete_key-lookup_other key j ((k, v) ∷ d) ne = ground (
  arith,
  delete_key-lookup_other key j d ne,
  lookup-cons j k v (delete_key key d),
  eq_iff k key,
  eq_iff key j,
  eq_iff k j,
)

missing-All : (d : Dict String) → is_nil (missing_of d) ≡ true → All (λ f. is_empty f.1 ≡ false) d
missing-All [] h = tt
missing-All ((f, v) ∷ d) h = elim (Bool-cases (is_empty v)) [
  | inl y ↦ absurd (let p : false ≡ true = (rw y at h) in cc)
  | inr n ↦ (n, missing-All d (rw n at h))
]

-- What holds of a configuration that __init__ makes, and where it makes none.
abbrev pub Inited : UserConfig → InternalConfig → Result AcloudConfig → Type 0
Inited usr internal (ok cfg) =
    (cfg ≡ fields_of usr internal cfg.metadata_variable)
    × All (λ f. is_empty f.1 ≡ false) (required_fields cfg)
    × ((is_zero cfg.extra_data_disk_size_gb ≡ true)
        ⊎ (has_size cfg.extra_data_disk_size_gb cfg.precreated_data_image_map ≡ true))
    × ((is_positive cfg.extra_data_disk_size_gb ≡ false)
        ⊎ ((lookup ephemeral_data_size_mb cfg.metadata_variable ≡ none)
            × (is_some (lookup persistent_data_device cfg.metadata_variable) ≡ true)))
Inited usr internal (err e) =
    (e.cls ≡ config_error)
    × ((is_some (lookup ephemeral_data_size_mb usr.metadata_variable) ≡ true)
        ⊎ ((cfg : AcloudConfig) × (cfg ≡ fields_of usr internal cfg.metadata_variable)
            × ((is_nil (missing_of (required_fields cfg)) ≡ false)
                ⊎ ((is_zero cfg.extra_data_disk_size_gb ≡ false)
                    × (has_size cfg.extra_data_disk_size_gb cfg.precreated_data_image_map
                        ≡ false)))))

-- The metadata variables for a disk.
abbrev HasDisk : Bool → Dict String → Result (Dict String) → Type 0
HasDisk extra usr (ok d) =
    (extra ≡ false)
    ⊎ ((lookup ephemeral_data_size_mb d ≡ none)
        × (is_some (lookup persistent_data_device d) ≡ true))
HasDisk extra usr (err e) =
    (e.cls ≡ config_error) × (is_some (lookup ephemeral_data_size_mb usr) ≡ true)

kept_device :
    (usr d : Dict String) (device : String)
    → NodupKeys usr
    → is_some (
        lookup persistent_data_device
          (with_device (is_some (lookup persistent_data_device usr)) device (update d usr)))
      ≡ true
unfolding with_device
kept_device usr d device u = elim (Option-cases (lookup persistent_data_device usr)) [
  | inl n ↦
      rw n (
        rw (lookup-insert persistent_data_device persistent_data_device device (update d usr)) refl)
  | inr (v, e) ↦ rw e (rw (lookup-update persistent_data_device v d usr u e) refl)
]

disk_metadata-HasDisk :
    (extra : Bool) (usr d : Dict String) (device : String)
    → NodupKeys usr
    → HasDisk extra usr (disk_metadata extra usr device (update d usr))
unfolding disk_metadata
disk_metadata-HasDisk false usr d device u = inl refl
disk_metadata-HasDisk true usr d device u =
    elim (Bool-cases (is_some (lookup ephemeral_data_size_mb usr))) [
      | inl y ↦ rw y (refl, y)
      | inr n ↦
          let given =
            with_device (is_some (lookup persistent_data_device usr)) device (update d usr) in
          rw n (
            inr (
              delete_key-lookup ephemeral_data_size_mb given,
              rw (delete_key-lookup_other ephemeral_data_size_mb persistent_data_device given refl)
                  (kept_device usr d device u),
            ))
    ]

verified-Inited :
    (usr : UserConfig) (internal : InternalConfig) (cfg : AcloudConfig)
    → cfg ≡ fields_of usr internal cfg.metadata_variable
    → HasDisk
        (is_positive cfg.extra_data_disk_size_gb)
        usr.metadata_variable
        (ok cfg.metadata_variable)
    → Inited usr internal (verified cfg (verify cfg))
unfolding verified verify
verified-Inited usr internal cfg made disk =
    elim (Bool-cases (is_nil (missing_of (required_fields cfg)))) [
      | inr n ↦ rw n (refl, inr (cfg, made, inl n))
      | inl y ↦ elim (Bool-cases (is_zero cfg.extra_data_disk_size_gb)) [
        | inl z ↦ rw y (rw z (made, missing-All (required_fields cfg) y, inl z, disk))
        | inr s ↦
            elim (Bool-cases (has_size cfg.extra_data_disk_size_gb cfg.precreated_data_image_map)) [
              | inl k ↦ rw y (rw s (rw k (made, missing-All (required_fields cfg) y, inr k, disk)))
              | inr k ↦ rw y (rw s (rw k (refl, inr (cfg, made, inr (s, k)))))
            ]
      ]
    ]

with_metadata-Inited :
    (usr : UserConfig) (internal : InternalConfig) (x : Result (Dict String))
    → HasDisk
        (is_positive
          (or_else_ℤ usr.extra_data_disk_size_gb internal.default_usr_cfg.extra_data_disk_size_gb))
        usr.metadata_variable
        x
    → Inited usr internal (with_metadata usr internal x)
unfolding with_metadata fields_of
with_metadata-Inited usr internal (err e) (c, h) = (c, inl h)
with_metadata-Inited usr internal (ok d) h =
    verified-Inited usr internal (fields_of usr internal d) refl h

-- A configuration that __init__ makes has the fields of the two messages, and a value in each required
-- field; its extra data disk has size 0 or one for which there is an image; and with an extra data disk
-- it has a metadata variable for the device and none for the size of ephemeral data. Where __init__
-- raises, the exception is a ConfigError, and the user has set the size of ephemeral data, or a required
-- field is empty, or there is no image for the size of the disk. The user's metadata variables are a
-- dict, with one value to a key.
pub init-Inited :
    (usr : UserConfig) (internal : InternalConfig)
    → NodupKeys usr.metadata_variable
    → Inited usr internal (init usr internal)
unfolding init
init-Inited usr internal u = with_metadata-Inited usr internal _ (
    disk_metadata-HasDisk _ usr.metadata_variable internal.default_usr_cfg.metadata_variable
      internal.default_extra_data_disk_device u)
