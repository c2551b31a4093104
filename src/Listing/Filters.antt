-- ===== src/Listing/Filters.antt =====
-- What the filters of list/list.py find.
use mathlib.Core.List.{append-nil, append_assoc}
use tools_acloud.Base.{
  true, false, [], none, some, List, ◌∷◌, ◌≡◌, String, Option, inl, ◌⊎◌, is_nil, ◌++◌, inr, refl,
  ◌∙◌, map, str_eq, All, arith, Bool-cases, ℕ, sym, IsIn,
}
use tools_acloud.Base.Dict.{Dict, lookup, insert, lookup-insert}
use tools_acloud.Listing.{
  find_names, note_name, Instance, Found, instance_map, filter_instances_by_adb_port,
  filter_instances_by_names, port_from, no_port, has_port, found_or_error,
}
use tools_acloud.Exec.{Result, ok, err}
use tools_acloud.Errors.{no_instances_found}
use mathlib.Core.Path.{subst}
use package.text.Mathlib.TextEquality.{eq_iff}

-- The entry of each name, in the order of the names.
abbrev Matches : Dict Instance → List String → List Instance → Type 0
Matches d [] [] = Unit
Matches d [] (i ∷ l) = ⊥
Matches d (name ∷ names) [] = ⊥
Matches d (name ∷ names) (i ∷ l) = (lookup name d ≡ some i) × Matches d names l

note_name-missing :
    (name : String) (o : Option Instance) (f : Found)
    → is_nil f.missing_instance_names ≡ false
    → is_nil (note_name name o f).missing_instance_names ≡ false
unfolding note_name
note_name-missing name (some i) f h = h
note_name-missing name none f h = appended f.missing_instance_names
  where
    appended : (l : List String) → is_nil (l ++ name ∷ []) ≡ false
    appended [] = refl
    appended (x ∷ l) = refl

find_names-missing :
    (d : Dict Instance) (names : List String) (f : Found)
    → is_nil f.missing_instance_names ≡ false
    → is_nil (find_names d names f).missing_instance_names ≡ false
unfolding find_names
find_names-missing d [] f h = h
find_names-missing d (name ∷ names) f h =
    find_names-missing d names _ (note_name-missing name (lookup name d) f h)

abbrev Outcome : Dict Instance → List String → List Instance → Found → Type 0
Outcome d names before f =
    ((l : List Instance) × (f
        ≡ record { found_instances = before ++ l; missing_instance_names = [] })
      × Matches d names l)
    ⊎ ((name : String) × IsIn name names
        × (lookup name d ≡ none)
        × (is_nil f.missing_instance_names ≡ false))

find_names-Outcome :
    (d : Dict Instance) (names : List String) (before : List Instance)
    → Outcome d names before
        (find_names d names (record { found_instances = before; missing_instance_names = [] }))
unfolding find_names note_name
find_names-Outcome d [] before = inl ([], rw append-nil refl, tt)
find_names-Outcome d (name ∷ names) before =
    by_entry (lookup name d) refl (λ i. find_names-Outcome d names (before ++ i ∷ []))
  where
    by_entry :
        (o : Option Instance)
        → lookup name d ≡ o
        → ((i : Instance)
            → Outcome d names (before ++ i ∷ []) (
                find_names d names
                  (record { found_instances = before ++ i ∷ []; missing_instance_names = [] })))
        → Outcome d (name ∷ names) before (
            find_names d names
              (note_name name o (record { found_instances = before; missing_instance_names = [] })))
    by_entry none h later = inr (name, inl refl, h, find_names-missing d names _ refl)
    by_entry (some i) h later = elim (later i) [
      | inl (l, e, m) ↦ inl (i ∷ l, e ∙ rw append_assoc refl, (h, m))
      | inr (name', at, e, m) ↦ inr (name', inr at, e, m)
    ]

-- What the dict of the names says.
abbrev IsOf : List Instance → Dict Instance → Type 0
IsOf l d = (name : String) (i : Instance) → lookup name d ≡ some i → (i.name ≡ name) × IsIn i l

IsOf-instance_map :
    (is : List Instance) (l : List Instance) (d : Dict Instance)
    → ((i : Instance) → IsIn i is → IsIn i l)
    → IsOf l d
    → IsOf l (instance_map is d)
unfolding instance_map
IsOf-instance_map [] l d sub h = h
IsOf-instance_map (i ∷ is) l d sub h =
    IsOf-instance_map is l (insert i.name i d) (λ j at. sub j (inr at))
      (λ name j e. by_name name j (Bool-cases (str_eq i.name name)) e)
  where
    same :
        (name : String) (j : Instance)
        → str_eq i.name name ≡ true
        → lookup name (insert i.name i d) ≡ some j
        → i ≡ j
    same name j y e =
        let p : some i ≡ some j = (sym (rw (lookup-insert name i.name i d) (rw y refl)) ∙ e) in cc

    by_name :
        (name : String) (j : Instance)
        → (str_eq i.name name ≡ true) ⊎ (str_eq i.name name ≡ false)
        → lookup name (insert i.name i d) ≡ some j
        → (j.name ≡ name) × IsIn j l
    by_name name j (inl y) e =
        subst (λ x. (x.name ≡ name) × IsIn x l) (same name j y e)
          ((eq_iff i.name name).0 y, sub i (inl refl))
    by_name name j (inr n) e = h name j (ground (arith, lookup-insert name i.name i d))

not_that :
    (i : Instance) (name : String) (d : Dict Instance)
    → lookup name (insert i.name i d) ≡ none
    → (lookup name d ≡ none) × (str_eq i.name name ≡ false)
not_that i name d h = elim (Bool-cases (str_eq i.name name)) [
  | inl y ↦ absurd (ground (arith, lookup-insert name i.name i d))
  | inr n ↦ (ground (arith, lookup-insert name i.name i d), n)
]

-- An instance with the name is in the dict.
in_map :
    (is : List Instance) (d : Dict Instance) (name : String)
    → lookup name (instance_map is d) ≡ none
    → (lookup name d ≡ none) × All (λ i. str_eq i.name name ≡ false) is
unfolding instance_map
in_map [] d name h = (h, tt)
in_map (i ∷ is) d name h =
    let (a, b) = in_map is (insert i.name i d) name h in
    let (c, e) = not_that i name d a in (c, (e, b))

Matches-names :
    (l : List Instance) (d : Dict Instance)
    → IsOf l d
    → (names : List String) (found : List Instance) → Matches d names found
    → (map (λ i. i.name) found ≡ names) × All (λ i. IsIn i l) found
Matches-names l d h [] [] m = (refl, tt)
Matches-names l d h [] (i ∷ found) m = absurd m
Matches-names l d h (name ∷ names) [] m = absurd m
Matches-names l d h (name ∷ names) (i ∷ found) m =
    let (a, b) = h name i m.0 in let (e, at) = Matches-names l d h names found m.1 in (cc, (b, at))

IsOf-nil : (l : List Instance) → IsOf l []
unfolding lookup
IsOf-nil l name i h = absurd (cc)

-- What _FilterInstancesByNames says of the instances and the names.
abbrev pub FindsNames : List Instance → List String → Result (List Instance) → Type 0
FindsNames instances names (ok found) =
    (map (λ i. i.name) found ≡ names) × All (λ i. IsIn i instances) found
FindsNames instances names (err e) =
    (e.cls ≡ no_instances_found)
    × ((name : String) × IsIn name names × All (λ i. str_eq i.name name ≡ false) instances)

-- _FilterInstancesByNames gives, for each name in its order, an instance of that name from the list;
-- or else it raises NoInstancesFound, and then some name is that of no instance.
pub filter_instances_by_names-FindsNames :
    (instances : List Instance) (names : List String)
    → FindsNames instances names (filter_instances_by_names instances names)
unfolding filter_instances_by_names found_or_error
filter_instances_by_names-FindsNames instances names =
    by_outcome _ (find_names-Outcome (instance_map instances []) names [])
  where
    by_outcome :
        (f : Found)
        → Outcome (instance_map instances []) names [] f
        → FindsNames instances names (found_or_error f)
    by_outcome f (inl (found, e, m)) = rw e (
        Matches-names instances _
          (IsOf-instance_map instances instances [] (λ i at. at) (IsOf-nil instances)) names found
          m)
    by_outcome f (inr (name, at, h, ne)) = rw ne (refl, (name, at, (in_map instances [] name h).1))

-- What FilterInstancesByAdbPort says of the instances and the port.
abbrev pub FindsPort : List Instance → ℕ → Result (List Instance) → Type 0
FindsPort instances adb_port (ok found) =
    (before : List Instance) × (i : Instance) × (after : List Instance) × (found ≡ i ∷ [])
    × (instances ≡ before ++ i ∷ after)
    × (has_port i.adb_port adb_port ≡ true)
    × All (λ j. has_port j.adb_port adb_port ≡ false) before
FindsPort instances adb_port (err e) =
    (e.cls ≡ no_instances_found) × All (λ j. has_port j.adb_port adb_port ≡ false) instances

no_port-cls :
    (adb_port : ℕ) (names : List String) → (no_port adb_port names).cls ≡ no_instances_found
unfolding no_port
no_port-cls adb_port [] = refl
no_port-cls adb_port (n ∷ names) = refl

later_port :
    (i : Instance) (instances : List Instance) (adb_port : ℕ)
    → has_port i.adb_port adb_port ≡ false
    → (r : Result (List Instance)) → FindsPort instances adb_port r
    → FindsPort (i ∷ instances) adb_port r
later_port i instances adb_port n (ok found) (before, j, after, e, split, has, none_before) =
    (i ∷ before, j, after, e, rw split refl, has, (n, none_before))
later_port i instances adb_port n (err e) (c, h) = (c, (n, h))

port_from-FindsPort :
    (instances : List Instance) (adb_port : ℕ) (names : List String)
    → FindsPort instances adb_port (port_from instances adb_port names)
unfolding port_from
port_from-FindsPort [] adb_port names = (no_port-cls adb_port names, tt)
port_from-FindsPort (i ∷ instances) adb_port names =
    elim (Bool-cases (has_port i.adb_port adb_port)) [
      | inl y ↦ rw y ([], i, instances, refl, refl, y, tt)
      | inr n ↦
          rw n (later_port i instances adb_port n _ (port_from-FindsPort instances adb_port _))
    ]

-- FilterInstancesByAdbPort gives the first instance of the port, alone; or else it raises
-- NoInstancesFound, and then no instance has the port.
pub filter_instances_by_adb_port-FindsPort :
    (instances : List Instance) (adb_port : ℕ)
    → FindsPort instances adb_port (filter_instances_by_adb_port instances adb_port)
unfolding filter_instances_by_adb_port
filter_instances_by_adb_port-FindsPort instances adb_port =
    port_from-FindsPort instances adb_port []
