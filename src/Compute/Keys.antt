-- ===== src/Compute/Keys.antt =====
-- internal/lib/gcompute_client.py: the ssh keys in the metadata of an instance. An item is a dict of texts.
pub mod Added
use tools_acloud.Base.{
  true, false, [], none, some, String, Bool, Option, List, ◌∷◌, ◌++◌, if◌then◌else◌, not, str_eq,
}
use tools_acloud.Base.Dict.{Dict, lookup, insert}
use tools_acloud.Base.Text.{◌<>◌, is_empty, contains_text, strip}
use tools_acloud.Errors.{exc, key_error, driver_error}
use tools_acloud.Exec.{Exec, Result, ok, err, pure, raise, ◌>>=◌}

abbrev pub Item : Type 0
Item = Dict String

-- _METADATA_KEY, _METADATA_KEY_VALUE and _SSH_KEYS_NAME
abbrev pub metadata_key : String
metadata_key = "key"

abbrev pub metadata_key_value : String
metadata_key_value = "value"

abbrev pub ssh_keys_name : String
ssh_keys_name = "sshKeys"

-- `item[key]`
unfoldable pub item_value : String → Option String → Result String
item_value key none = err (exc key_error key)
item_value key (some v) = ok v

-- The tests of RsaNotInMetadata on one item; `rest` is what the other items say.
unfoldable pub has_entry : Result String → String → Result Bool → Result Bool
has_entry (err e) entry rest = err e
has_entry (ok value) entry rest = if contains_text entry value then ok false else rest

unfoldable pub with_key : Result String → Item → String → Result Bool → Result Bool
unfolding has_entry item_value
with_key (err e) item entry rest = err e
with_key (ok key) item entry rest =
    if str_eq key ssh_keys_name
    then has_entry (item_value metadata_key_value (lookup metadata_key_value item)) entry rest
    else rest

-- RsaNotInMetadata, on the items.
unfoldable pub rsa_not_in_metadata : List Item → String → Result Bool
unfolding with_key item_value
rsa_not_in_metadata [] entry = ok true
rsa_not_in_metadata (item ∷ items) entry =
    with_key (item_value metadata_key (lookup metadata_key item)) item entry
      (rsa_not_in_metadata items entry)

-- `item.get(_METADATA_KEY, '') == _SSH_KEYS_NAME`
unfoldable pub is_ssh_key : Option String → Bool
is_ssh_key none = false
is_ssh_key (some key) = str_eq key ssh_keys_name

-- GetSshKeyFromMetadata
unfoldable pub get_ssh_key_from_metadata : List Item → Option Item
unfolding is_ssh_key
get_ssh_key_from_metadata [] = none
get_ssh_key_from_metadata (item ∷ items) =
    let rest = get_ssh_key_from_metadata items in
    if is_ssh_key (lookup metadata_key item) then some item else rest

-- `"\n".join(list(filter(None, [value, entry])))`
unfoldable pub joined : String → String → String
joined value entry =
    if is_empty value then entry else if is_empty entry then value else value <> "\n" <> entry

unfoldable pub with_value : Item → String → Result String → Result Item
unfolding joined
with_value item entry (err e) = err e
with_value item entry (ok value) = ok (insert metadata_key_value (joined value entry) item)

unfoldable pub item_first : List Item → Result Item → Result (List Item)
item_first items (ok item) = ok (item ∷ items)
item_first items (err e) = err e

unfoldable pub items_after : Item → Result (List Item) → Result (List Item)
items_after item (ok items) = ok (item ∷ items)
items_after item (err e) = err e

-- The item that GetSshKeyFromMetadata gives is changed in its place; without one an item is added.
unfoldable pub updated_items : String → List Item → Result (List Item)
unfolding is_ssh_key with_value item_first items_after item_value
updated_items entry [] =
    ok (((metadata_key, ssh_keys_name) ∷ (metadata_key_value, entry) ∷ []) ∷ [])
updated_items entry (item ∷ items) =
    let rest = updated_items entry items in
    if is_ssh_key (lookup metadata_key item)
    then item_first items
        (with_value item entry (item_value metadata_key_value (lookup metadata_key_value item)))
    else items_after item rest

module _ {W : Type 0}
    (set_instance_metadata : String → String → List Item → Exec W (Unit {0})) where
  -- UpdateRsaInMetadata
  unfoldable pub update_rsa_in_metadata : String → String → List Item → String → Exec W (Unit {0})
  unfolding updated_items
  update_rsa_in_metadata zone instance items entry = set_items (updated_items entry items)
    where
      set_items : Result (List Item) → Exec W (Unit {0})
      set_items (ok items') = set_instance_metadata zone instance items'
      set_items (err e) = raise e

  update_if : String → String → List Item → String → Result Bool → Exec W (Unit {0})
  unfolding update_rsa_in_metadata
  update_if zone instance items entry (err e) = raise e
  update_if zone instance items entry (ok missing) =
      if missing then update_rsa_in_metadata zone instance items entry else pure tt

  -- AddSshRsaInstanceMetadata, with GetRsaKey, GetZoneByInstance and the items of GetInstance.
  unfoldable pub add_ssh_rsa_instance_metadata :
      (String → Exec W String)
      → (String → Exec W String)
      → (String → String → Exec W (List Item))
      → String
      → String
      → String
      → Exec W (Unit {0})
  unfolding update_if rsa_not_in_metadata
  add_ssh_rsa_instance_metadata get_rsa_key get_zone get_items user ssh_rsa_path instance =
      get_rsa_key ssh_rsa_path >>= λ rsa. get_zone instance >>= λ zone.
      get_items instance zone >>= λ items.
      update_if zone instance items (user <> ":" <> rsa)
        (rsa_not_in_metadata items (user <> ":" <> rsa))

  -- GetRsaKey; `path` is expanded already.
  unfoldable pub get_rsa_key :
      (String → Exec W Bool)
      → (String → Exec W String)
      → (String → Exec W (Unit {0}))
      → String
      → Exec W String
  unfolding strip
  get_rsa_key exists read verify_rsa_pub_key path = exists path >>= λ there.
      if not there
      then raise (exc driver_error ("RSA file " <> path <> " does not exist."))
      else (read path >>= λ rsa. verify_rsa_pub_key (strip rsa) >>= λ _. pure (strip rsa))
