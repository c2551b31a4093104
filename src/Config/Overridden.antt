-- ===== src/Config/Overridden.antt =====
-- What the arguments of a command change of the configuration.
use Prim.Native.Char.{Char}
use Prim.Native.String.{◌∷◌}
use text.Mathlib.TextLemmas.{cons-append}
use text.Mathlib.TextPositions.{starts_with-append}
use mathlib.Core.List.{append-nil}
use tools_acloud.Base.{
  true, ℕ, String, Bool, List, [], ◌≡◌, ◌∙◌, refl, ◌∷◌, not, select, select-append, select-select,
  select-true,
}
use tools_acloud.Base.Text.{◌<>◌, str, contains_text}
use tools_acloud.Config.{num_instances_arg, scrubbed_args}

abbrev pub is_num_arg : String → Bool
is_num_arg arg = contains_text num_instances_arg arg

contains_text-append : (c : Char) (s t : String) → contains_text (c ∷ s) ((c ∷ s) <> t) ≡ true
unfolding contains_text
contains_text-append c s t =
    let h = starts_with-append (c ∷ s) t in rw cons-append (rw (rw cons-append at h) refl)

new_arg : (num : ℕ) → is_num_arg (num_instances_arg <> "=" <> str num) ≡ true
new_arg num = contains_text-append "-" "num_instances" ("=" <> str num)

-- The launch arguments after create_cf has been given a number of instances: one of them sets the number,
-- the one that is given, and the others are those that there were, in order.
pub scrubbed_args-one :
    (num : ℕ) (args : List String)
    → (select is_num_arg (scrubbed_args num args) ≡ (num_instances_arg <> "=" <> str num) ∷ [])
      × (select (λ arg. not (is_num_arg arg)) (scrubbed_args num args)
          ≡ select (λ arg. not (is_num_arg arg)) args)
unfolding scrubbed_args
scrubbed_args-one num args =
    let others = select (λ arg. not (is_num_arg arg)) args in
    let last : List String = (num_instances_arg <> "=" <> str num) ∷ [] in
    let (none_left, same) = select-select is_num_arg args in
    let (kept, dropped) =
      select-true is_num_arg (num_instances_arg <> "=" <> str num) (new_arg num) in
    (
      select-append is_num_arg others last ∙ rw none_left kept,
      select-append (λ arg. not (is_num_arg arg)) others last
          ∙ rw same (rw dropped (append-nil others)),
    )
