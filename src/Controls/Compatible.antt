-- ===== src/Controls/Compatible.antt =====
-- What the profile test of `select_device_route` (controls.py) means: the profiles of a route against
-- the active profiles of its device.
use mathlib.Core.List.{Memᴰ}
use mathlib.Core.List.Memᴰ.{head, tail}
use wyreplumber.Prelude.{
  ℕ, true, false, ◌&&◌, List, [], ◌∷◌, Bool-cases, ◌≡◌, refl, sym, ◌∙◌, arith, ◌⊎◌, inl, inr, ◌==◌,
}
use wyreplumber.Model.Objects.{Profile, Route}
use wyreplumber.Controls.Selection.{member, active_profile_ids, is_disjoint, is_ruled_out}
use wyreplumber.Controls.ActiveProfiles.{is_active, active_profile_ids_lem}
use wyreplumber.Controls.Claims.{NoneOf}

-- The profile is an active one of the device.
abbrev pub IsActiveOn : (device_id : ℕ) → Profile → Type 0
IsActiveOn device_id p = (p.device_id ≡ device_id) × (p.active ≡ true)

-- The route names no profiles, or the device has no active profile, or the route names one of the
-- active profiles of the device.
abbrev pub IsCompatible : (device_id : ℕ) → List Profile → Route → Type 0
IsCompatible device_id ps route =
    (route.profile_ids ≡ [])
    ⊎ (NoneOf (IsActiveOn device_id) ps
        ⊎ ((p : Profile) × Memᴰ p ps × IsActiveOn device_id p × Memᴰ p.index route.profile_ids))

member-Mem : (n : ℕ) (ns : List ℕ) → member n ns ≡ true → Memᴰ n ns
member-Mem n [] h = absurd (ground (arith, h))
member-Mem n (m ∷ ns) h = elim (Bool-cases (n == m)) [
  | inl same ↦ head (ground (arith, same))
  | inr other ↦ tail (member-Mem n ns (ground (arith, other, h)))
]

-- Two lists that are not disjoint share a number.
is_disjoint-shared :
    (ids others : List ℕ)
    → is_disjoint ids others ≡ false
    → (i : ℕ) × (member i ids ≡ true) × (member i others ≡ true)
unfolding is_disjoint
is_disjoint-shared [] others h = absurd (ground (arith, h))
is_disjoint-shared (i ∷ ids) others h = elim (Bool-cases (member i others)) [
  | inl there ↦ (i, ground arith, there)
  | inr missing ↦
      let (j, a, b) = is_disjoint-shared ids others (ground (arith, missing, h)) in
      (j, ground (arith, a), b)
]

-- An index that is active is that of an active profile.
is_active-profile :
    (d i : ℕ) (ps : List Profile)
    → is_active d i ps ≡ true
    → (p : Profile) × Memᴰ p ps × IsActiveOn d p × (p.index ≡ i)
is_active-profile d i [] h = absurd (ground (arith, h))
is_active-profile d i (p ∷ ps) h =
    elim (Bool-cases (p.device_id == d && p.active && i == p.index)) [
      | inl this ↦
          (p, head refl, (ground (arith, this), ground (arith, this)), ground (arith, this))
      | inr other ↦
          let (q, there, active, same) = is_active-profile d i ps (ground (arith, other, h)) in
          (q, tail there, active, same)
    ]

member-none :
    (d : ℕ) (ps : List Profile) → active_profile_ids d ps ≡ [] → (i : ℕ) → is_active d i ps ≡ false
member-none d ps h i = sym ((active_profile_ids_lem d ps).1 i) ∙ rw h refl

idle : (d : ℕ) (ps : List Profile) → ((i : ℕ) → is_active d i ps ≡ false) → NoneOf (IsActiveOn d) ps
idle d [] h = tt
idle d (p ∷ ps) h =
    (λ active. ground (arith, active.0, active.1, h p.index), idle d ps (λ i. ground (arith, h i)))

pub is_ruled_out-IsCompatible :
    (d : ℕ) (ps : List Profile) (route : Route)
    → is_ruled_out (active_profile_ids d ps) route ≡ false
    → IsCompatible d ps route
unfolding is_ruled_out
is_ruled_out-IsCompatible d ps route h = elim (list_cases route.profile_ids) [
  | inl unnamed ↦ inl unnamed
  | inr (m, ms, named) ↦ elim (list_cases (active_profile_ids d ps)) [
    | inl none_active ↦ inr (inl (idle d ps (member-none d ps none_active)))
    | inr (n, ns, some_active) ↦
        let (i, a, b) =
          is_disjoint-shared (active_profile_ids d ps) route.profile_ids
            (ground (arith, named, some_active, h)) in
        let (p, there, active, same) =
          is_active-profile d i ps (sym ((active_profile_ids_lem d ps).1 i) ∙ a) in
        inr (inr (p, there, active, rw same (member-Mem i route.profile_ids b)))
  ]
]
  where
    list_cases : (ns : List ℕ) → (ns ≡ []) ⊎ ((m : ℕ) × (ms : List ℕ) × (ns ≡ m ∷ ms))
    list_cases [] = inl refl
    list_cases (m ∷ ms) = inr (m, ms, refl)
