-- ===== src/HwProperty/Parsed.antt =====
-- What _ParseHWPropertyStr makes of the properties.
use tools_acloud.HwProperty.Entries.{
  Key, all_keys, name_of, source_of, read_as, allowed, from_source,
}
use tools_acloud.Base.{true, String, ◌≡◌, All, ◌∷◌, false, none, IsIn}
use tools_acloud.Base.Dict.{lookup, Dict}
use tools_acloud.Errors.{is_instance, invalid_hw_property_error}
use tools_acloud.Exec.{Result, ok, err}
use tools_acloud.HwProperty.Failures.{HasSpecKeys}

-- A dict of properties has what the text gives, and nothing else; or some entry of the text is not allowed.
abbrev pub Parsed : Dict String → Result (Dict String) → Type 0
Parsed hw_dict (ok d) =
    All (λ x. allowed x.0 x.1 ≡ true) hw_dict
    × All (λ k. lookup (name_of k) d ≡ from_source (lookup (source_of k) hw_dict) (read_as k) none)
        all_keys
    × HasSpecKeys d
Parsed hw_dict (err e) =
    (is_instance e invalid_hw_property_error ≡ true)
    × ((key : String) × (value : String) × IsIn (key, value) hw_dict × (allowed key value ≡ false))

-- What the entries do to the properties so far.
abbrev SetsAll : Dict String → Dict String → Result (Dict String) → Type 0
SetsAll hw_dict d (ok d') =
    All (λ x. allowed x.0 x.1 ≡ true) hw_dict
    × All
        (λ k.
          lookup (name_of k) d'
          ≡ from_source (lookup (source_of k) hw_dict) (read_as k) (lookup (name_of k) d))
        all_keys
SetsAll hw_dict d (err e) =
    (is_instance e invalid_hw_property_error ≡ true)
    × ((key : String) × (value : String) × IsIn (key, value) hw_dict × (allowed key value ≡ false))

-- One entry, and then the others.
abbrev Both : String → String → Dict String → Dict String → Dict String → Dict String → Key → Type 0
Both key value hw_dict d d' d'' k =
    lookup (name_of k) d''
    ≡ from_source (lookup (source_of k) ((key, value) ∷ hw_dict)) (read_as k) (lookup (name_of k) d)
