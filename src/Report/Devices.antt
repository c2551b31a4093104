-- ===== src/Report/Devices.antt =====
-- AddDevice and AddDeviceBootFailure: what a report holds afterwards.
use tools_acloud.Base.{
  ℕ, zero, suc, false, Option, none, some, List, [], ◌∷◌, ◌++◌, String, ◌≡◌, refl, str_eq, ap, ◌∙◌,
}
use text.Mathlib.TextPositions.{eq_refl}
use tools_acloud.Base.Dict.{lookup, insert, lookup-insert}
use tools_acloud.Base.Text.{◌<>◌, str}
use tools_acloud.Constants
use tools_acloud.Exec.{ok}
use tools_acloud.Report.{
  Value, Record, txt, given, num, records, Report, entry_or_nil, add_data, append_to, add_error,
  device_record, add_device_boot_failure,
}

-- The records under a key, where it holds records or nothing.
abbrev pub Holds : Report → String → List Record → Type 0
Holds r key l = entry_or_nil (lookup key r.contents) ≡ records l

append_to-eq :
    (key : String) (value : Record) (r : Report) (l : List Record)
    → Holds r key l
    → add_data key value r
      ≡ ok (record r { contents = insert key (records (l ++ value ∷ [])) r.contents })
unfolding append_to add_data
append_to-eq key value r l h = rw h refl

-- A record is added behind those of its key, and nothing else of the report changes.
pub add_data-Holds :
    (key : String) (value : Record) (r : Report) (l : List Record)
    → Holds r key l
    → (r' : Report) × (add_data key value r ≡ ok r')
      × Holds r' key (l ++ value ∷ [])
      × ((k : String) → str_eq key k ≡ false → lookup k r'.contents ≡ lookup k r.contents)
      × (r' ≡ record r { contents = r'.contents })
add_data-Holds key value r l h = (
  record r { contents = insert key (records (l ++ value ∷ [])) r.contents },
  append_to-eq key value r l h,
  rw lookup-insert (rw (eq_refl key) refl),
  λ k ne. lookup-insert k key _ r.contents ∙ rw ne refl,
  refl,
)

abbrev num_of : Option ℕ → Option Value
num_of none = none
num_of (some n) = some (num n)

abbrev address_with : String → Option ℕ → String
address_with address none = address
address_with address (some port) = address <> ":" <> str port

-- The record that AddDevice makes has the name; a port of adb exactly if one is given that is not 0,
-- and then the address ends in it; and a port of vnc exactly if one is given that is not 0.
device_record-fields :
    (name address : String) (adb vnc : Option ℕ)
    → let device = device_record name address adb vnc in
      (lookup Constants.instance_name device ≡ some (txt name))
      × (lookup Constants.ip device ≡ some (txt (address_with address (given adb))))
      × (lookup Constants.adb_port device ≡ num_of (given adb))
      × (lookup Constants.vnc_port device ≡ num_of (given vnc))
unfolding device_record lookup insert
device_record-fields name address none none = (refl, refl, refl, refl)
device_record-fields name address none (some zero) = (refl, refl, refl, refl)
device_record-fields name address none (some (suc m)) = (refl, refl, refl, refl)
device_record-fields name address (some zero) none = (refl, refl, refl, refl)
device_record-fields name address (some zero) (some zero) = (refl, refl, refl, refl)
device_record-fields name address (some zero) (some (suc m)) = (refl, refl, refl, refl)
device_record-fields name address (some (suc n)) none = (refl, refl, refl, refl)
device_record-fields name address (some (suc n)) (some zero) = (refl, refl, refl, refl)
device_record-fields name address (some (suc n)) (some (suc m)) = (refl, refl, refl, refl)

-- AddDeviceBootFailure adds one record, behind the others of `devices_failing_boot`, and one error
-- behind the others; the records of another key, the status and the command stay.
pub add_device_boot_failure-Holds :
    (name address error : String) (adb vnc : Option ℕ) (r : Report) (l : List Record) (k : String)
    → Holds r "devices_failing_boot" l
    → str_eq "devices_failing_boot" k ≡ false
    → (r' : Report) × (add_device_boot_failure name address adb vnc error r ≡ ok r')
      × Holds r' "devices_failing_boot" (l ++ device_record name address adb vnc ∷ [])
      × (r'.errors ≡ r.errors ++ error ∷ [])
      × (lookup k r'.contents ≡ lookup k r.contents)
      × (r'.status ≡ r.status)
      × (r'.command ≡ r.command)
unfolding add_device_boot_failure
add_device_boot_failure-Holds name address error adb vnc r l k h ne =
    let (r', e, held, rest, same) =
      add_data-Holds "devices_failing_boot" (device_record name address adb vnc) r l h in
    (
      add_error error r',
      rw e refl,
      held,
      ap (λ (x : Report). x.errors ++ error ∷ []) same,
      rest k ne,
      ap (λ (x : Report). x.status) same,
      ap (λ (x : Report). x.command) same,
    )
