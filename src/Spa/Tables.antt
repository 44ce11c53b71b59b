-- ===== src/Spa/Tables.antt =====
-- What the codec looks up by the id of a parameter object: its name, its type, its property table and
-- its class (src/wyreplumber/_spa_pod_types.py). A class is the SPA_OBJECT_ID that it is made with.
use wyreplumber.Prelude.{
  ℕ, ℤ, pos, negsuc, String, Option, none, some, List, [], ◌∷◌, ◌==◌, str_eq, if◌then◌else◌,
}
use wyreplumber.Spa.Specs.{
  PropertySpec, prop_info_specs, props_specs, format_specs, buffers_specs, meta_specs, io_specs,
  profile_specs, port_config_specs, route_specs, latency_specs, process_latency_specs, tag_specs,
  param_dict_specs,
}

abbrev pub at {ℓ} : {A : Type ℓ} → ℕ → List (ℕ × A) → Option A
at n [] = none
at n ((m, a) ∷ rest) = if m == n then some a else at n rest

-- `OBJECT_ID_TO_NAME`
abbrev object_id_to_name : List (ℕ × String)
object_id_to_name =
    (1, "PropInfo")
    ∷ (2, "Props")
    ∷ (3, "Format")
    ∷ (4, "Format")
    ∷ (5, "Buffers")
    ∷ (6, "Meta")
    ∷ (7, "IO")
    ∷ (8, "Profile")
    ∷ (9, "Profile")
    ∷ (10, "PortConfig")
    ∷ (11, "PortConfig")
    ∷ (12, "Route")
    ∷ (13, "Route")
    ∷ (15, "Latency")
    ∷ (16, "ProcessLatency")
    ∷ (17, "Tag")
    ∷ (19, "Capability")
    ∷ (18, "PeerEnumFormat")
    ∷ (20, "PeerCapability")
    ∷ []

-- `OBJECT_ID_TO_TYPE`
abbrev object_id_to_type : List (ℕ × ℕ)
object_id_to_type =
    (1, 262145)
    ∷ (2, 262146)
    ∷ (3, 262147)
    ∷ (4, 262147)
    ∷ (5, 262148)
    ∷ (6, 262149)
    ∷ (7, 262150)
    ∷ (8, 262151)
    ∷ (9, 262151)
    ∷ (10, 262152)
    ∷ (11, 262152)
    ∷ (12, 262153)
    ∷ (13, 262153)
    ∷ (15, 262155)
    ∷ (16, 262156)
    ∷ (17, 262157)
    ∷ (19, 262158)
    ∷ (18, 262159)
    ∷ (20, 262159)
    ∷ []

-- `OBJECT_PROPERTY_SPECS` and `OBJECT_PROPERTY_NAMES`, before `_make_property_table`
abbrev object_property_specs : List (ℕ × List PropertySpec)
object_property_specs =
    (1, prop_info_specs)
    ∷ (2, props_specs)
    ∷ (3, format_specs)
    ∷ (4, format_specs)
    ∷ (5, buffers_specs)
    ∷ (6, meta_specs)
    ∷ (7, io_specs)
    ∷ (8, profile_specs)
    ∷ (9, profile_specs)
    ∷ (10, port_config_specs)
    ∷ (11, port_config_specs)
    ∷ (12, route_specs)
    ∷ (13, route_specs)
    ∷ (15, latency_specs)
    ∷ (16, process_latency_specs)
    ∷ (17, tag_specs)
    ∷ (19, param_dict_specs)
    ∷ []

-- `OBJECT_CLASSES_BY_ID`
abbrev object_classes_by_id : List (ℕ × ℕ)
object_classes_by_id =
    (1, 1)
    ∷ (2, 2)
    ∷ (3, 4)
    ∷ (4, 4)
    ∷ (5, 5)
    ∷ (6, 6)
    ∷ (7, 7)
    ∷ (8, 9)
    ∷ (9, 9)
    ∷ (10, 11)
    ∷ (11, 11)
    ∷ (12, 13)
    ∷ (13, 13)
    ∷ (15, 15)
    ∷ (16, 16)
    ∷ (17, 17)
    ∷ (19, 19)
    ∷ []

-- `_make_property_table`: in a comprehension the last of two equal keys stays.
abbrev pub by_key : List PropertySpec → ℕ → Option PropertySpec
by_key [] n = none
by_key (s ∷ specs) n =
    let later = by_key specs n in
    elim later [ some t ↦ some t | none ↦ if s.key == n then some s else none ]

abbrev pub by_name : List PropertySpec → String → Option PropertySpec
by_name [] word = none
by_name (s ∷ specs) word =
    let later = by_name specs word in
    elim later [ some t ↦ some t | none ↦ if str_eq s.name word then some s else none ]

unfoldable pub specs_of : ℕ → List PropertySpec
specs_of object_id = elim (at object_id object_property_specs) [ none ↦ [] | some specs ↦ specs ]

-- `_property_spec_by_key` and `_property_spec_by_name`
unfoldable pub property_spec_by_key : (object_id prop_key : ℤ) → Option PropertySpec
unfolding specs_of
property_spec_by_key (pos i) (pos k) = by_key (specs_of i) k
property_spec_by_key (pos i) (negsuc k) = none
property_spec_by_key (negsuc i) k = none

unfoldable pub property_spec_by_name : (object_id : ℤ) → String → Option PropertySpec
unfolding specs_of
property_spec_by_name (pos i) word = by_name (specs_of i) word
property_spec_by_name (negsuc i) word = none

-- `_object_param_name` and `_object_type_for_id`
unfoldable pub object_param_name : ℤ → Option String
object_param_name (pos i) = at i object_id_to_name
object_param_name (negsuc i) = none

unfoldable pub object_type_for_id : ℤ → Option ℕ
object_type_for_id (pos i) = at i object_id_to_type
object_type_for_id (negsuc i) = none

-- `OBJECT_CLASSES_BY_ID.get(object_id)`
unfoldable pub object_class : ℤ → Option ℕ
object_class (pos i) = at i object_classes_by_id
object_class (negsuc i) = none
