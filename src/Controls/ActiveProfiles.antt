-- ===== src/Controls/ActiveProfiles.antt =====
-- `sorted(active_profile_ids)` of `select_device_route` (controls.py): a set in ascending order.
use wyreplumber.Prelude.{
  ℕ, ◌<◌, Bool, false, ◌&&◌, ◌||◌, List, [], ◌∷◌, ◌≡◌, refl, arith, inl, inr, Bool-cases, ◌==◌, ltb,
  All,
}
use wyreplumber.Model.Objects.{Profile}
use wyreplumber.Controls.Selection.{insert, member, active_profile_ids}

-- Whether an active profile of the device has the index.
abbrev pub is_active : (device_id index : ℕ) → List Profile → Bool
is_active d i [] = false
is_active d i (p ∷ ps) = (p.device_id == d && p.active && i == p.index) || is_active d i ps

-- Each number is below all that come after it.
abbrev pub Ascending : List ℕ → Type 0
Ascending [] = Unit
Ascending (n ∷ ns) = All (λ m. n < m) ns × Ascending ns

member-insert : (i n : ℕ) (ns : List ℕ) → member i (insert n ns) ≡ (i == n || member i ns)
member-insert i n [] = ground arith
member-insert i n (m ∷ ns) = ground (arith, member-insert i n ns)

All-below : (k n : ℕ) (ns : List ℕ) → k < n → All (λ m. n < m) ns → All (λ m. k < m) ns
All-below k n [] h all = tt
All-below k n (m ∷ ns) h all = (ground (arith, h, all.0), All-below k n ns h all.1)

All-insert : (k n : ℕ) (ns : List ℕ) → k < n → All (λ m. k < m) ns → All (λ m. k < m) (insert n ns)
All-insert k n [] h all = (h, tt)
All-insert k n (m ∷ ns) h all = elim (Bool-cases (n == m)) [
  | inl same ↦ rw same all
  | inr other ↦ rw other (elim (Bool-cases (ltb n m)) [
    | inl below ↦ rw below (h, all)
    | inr above ↦ rw above (all.0, All-insert k n ns h all.1)
  ])
]

insert-Ascending : (n : ℕ) (ns : List ℕ) → Ascending ns → Ascending (insert n ns)
insert-Ascending n [] h = (tt, tt)
insert-Ascending n (m ∷ ns) h = elim (Bool-cases (n == m)) [
  | inl same ↦ rw same h
  | inr other ↦ rw other (elim (Bool-cases (ltb n m)) [
    | inl below ↦
        let less : n < m = ground (arith, below) in rw below ((less, All-below n m ns less h.0), h)
    | inr above ↦
        let more : m < n = ground (arith, other, above) in
        rw above (All-insert m n ns more h.0, insert-Ascending n ns h.1)
  ])
]

-- The profiles that `select_device_route` compares with a route are the indexes of the active profiles
-- of its device, each once, in ascending order.
pub active_profile_ids_lem :
    (device_id : ℕ) (ps : List Profile)
    → Ascending (active_profile_ids device_id ps)
      × ((i : ℕ) → member i (active_profile_ids device_id ps) ≡ is_active device_id i ps)
unfolding active_profile_ids
active_profile_ids_lem d [] = (tt, λ i. refl)
active_profile_ids_lem d (p ∷ ps) =
    let (ascending, members) = active_profile_ids_lem d ps in
    elim (Bool-cases (p.device_id == d && p.active)) [
      | inl active ↦ rw active (
        insert-Ascending p.index (active_profile_ids d ps) ascending,
        λ i. ground (arith, active, member-insert i p.index (active_profile_ids d ps), members i),
      )
      | inr idle ↦ rw idle (ascending, λ i. ground (arith, idle, members i))
    ]
