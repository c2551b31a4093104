-- ===== src/Compute/Zones.antt =====
-- How GetZonesByInstances groups the instances.
use tools_acloud.Base.{
  true, false, [], some, String, List, ◌≡◌, if◌then◌else◌, select, str_eq, ◌++◌, ◌∷◌, ◌∙◌,
  Bool-cases, ◌⊎◌, ap, inl, refl, inr, Bool,
}
use mathlib.Core.List.{append-nil, append_assoc}
use tools_acloud.Compute.{get_zones_by_instances, add_to_zone, zone_list, zones_from}
use tools_acloud.Base.Dict.{Dict, lookup, lookup-insert}
use tools_acloud.Exec.{Exec, ok}
use package.text.Mathlib.TextEquality.{eq_iff}

add_to_zone-lookup :
    (zone name z : String) (d : Dict (List String))
    → zone_list (lookup z (add_to_zone zone name d))
      ≡ (if str_eq zone z then zone_list (lookup z d) ++ name ∷ [] else zone_list (lookup z d))
unfolding add_to_zone
add_to_zone-lookup zone name z d =
    rw (lookup-insert z zone _ d) (by_zone (Bool-cases (str_eq zone z)))
  where
    by_zone :
        (str_eq zone z ≡ true) ⊎ (str_eq zone z ≡ false)
        → zone_list
            (if str_eq zone z then some (zone_list (lookup zone d) ++ name ∷ []) else lookup z d)
          ≡ (if str_eq zone z then zone_list (lookup z d) ++ name ∷ [] else zone_list (lookup z d))
    by_zone (inl y) = rw y (ap (λ k. zone_list (lookup k d) ++ name ∷ []) ((eq_iff zone z).0 y))
    by_zone (inr n) = rw n refl

appended :
    (i : String) (l rest : List String) (b : Bool)
    → (if b then l ++ i ∷ [] else l) ++ rest ≡ l ++ elim b [ true ↦ i ∷ rest | false ↦ rest ]
appended i l rest true = append_assoc l _ _
appended i l rest false = refl

module _ {W : Type 0} (get_zone : String → Exec W String) (zone : String → String)
    (answers : (i : String) (w : W) → (v : W) × (get_zone i w ≡ (ok (zone i), v))) where
  one_more :
      (z i : String) (instances l : List String)
      → (if str_eq (zone i) z then l ++ i ∷ [] else l) ++ select (λ j. str_eq (zone j) z) instances
        ≡ l ++ select (λ j. str_eq (zone j) z) (i ∷ instances)
  one_more z i instances l =
      appended i l (select (λ j. str_eq (zone j) z) instances) (str_eq (zone i) z)

  zones_from-select :
      (instances : List String) (d : Dict (List String)) (w : W)
      → (d' : Dict (List String)) × (v : W) × (zones_from get_zone instances d w ≡ (ok d', v))
        × ((z : String)
            → zone_list (lookup z d')
              ≡ zone_list (lookup z d) ++ select (λ i. str_eq (zone i) z) instances)
  unfolding zones_from
  zones_from-select [] d w = (d, w, refl, λ z. rw append-nil refl)
  zones_from-select (i ∷ instances) d w =
      let (v, e) = answers i w in
      let (d', u, e', h) = zones_from-select instances (add_to_zone (zone i) i d) v in
      (
        d',
        u,
        rw e e',
        λ z.
            h z
            ∙ ap (λ l. l ++ select (λ j. str_eq (zone j) z) instances)
                (add_to_zone-lookup (zone i) i z d)
            ∙ one_more z i instances (zone_list (lookup z d)),
      )

-- GetZonesByInstances, where the client can tell the zone of each instance: it ends, and the entry of
-- a zone is the instances that are in it, in their order and as often as they were given; a zone of
-- none has no instances.
pub get_zones_by_instances-select :
    {W : Type 0} (get_zone : String → Exec W String) (zone : String → String)
    → ((i : String) (w : W) → (v : W) × (get_zone i w ≡ (ok (zone i), v)))
    → (instances : List String) (w : W)
    → (d : Dict (List String)) × (v : W) × (get_zones_by_instances get_zone instances w ≡ (ok d, v))
      × ((z : String) → zone_list (lookup z d) ≡ select (λ i. str_eq (zone i) z) instances)
unfolding get_zones_by_instances lookup
get_zones_by_instances-select get_zone zone answers instances w =
    zones_from-select get_zone zone answers instances [] w
