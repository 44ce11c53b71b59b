-- ===== src/Controls/Choices.antt =====
-- When `select_device_profile` dispatches anything.
use wyreplumber.Prelude.{
  ℕ, String, Bool, true, false, not, ◌&&◌, List, [], ◌∷◌, some, ok, ◌≡◌, arith, inl, inr,
  Bool-cases, Option-cases, >>=-eq-ok, ok_eq, nat_eq, pair_eq, str_eq, str_eq_iff,
}
use wyreplumber.Builtins.{Builtins}
use wyreplumber.Model.Objects.{Profile}
use wyreplumber.Model.Index.{get, has}
use wyreplumber.Model.Snapshot.{Snapshot}
use wyreplumber.Mutation.Request.{Request}
use wyreplumber.Mutation.Observation.{confirmations_from}
use wyreplumber.Mutation.Execution.{World}
use wyreplumber.Mutation.Dispatch.{Allowed}
use wyreplumber.Controls.Pods.{Builder}
use wyreplumber.Controls.Selection.{is_unavailable, already, profile_request}
use wyreplumber.Controls.Profiles.{
  select_current_profile, select_profile_from, select_device_profile,
}
use wyreplumber.Controls.Dispatched.{attempt->>=, preflight-Allowed, Allowed-current}
use package.wyreplumber.Controls.{Options, later, preflight_is_stale}

module _ (py : Builtins) where
  pub already-Allowed :
      (w : World) (step : ℕ) (r d : Request) (s : Snapshot) (done : Bool)
      → already py r s ≡ ok done
      → Allowed py w step r s d
      → done ≡ false
  already-Allowed w step r d s done holds allowed =
      let (found, shown, counted) =
        >>=-eq-ok (confirmations_from s py r.confirmation_predicates) _ holds in
      ground (arith, ok_eq counted, allowed.unconfirmed found shown)

  module _ (w : World) (fuel : ℕ) where
    -- What stands between a validated selection of a profile and its dispatch.
    pub record MaySelectProfile (r : Request) (s : Snapshot) (p : Profile) (d : Request)
        : Type 0 where
      pub current : preflight_is_stale r s ≡ false
      pub device : has p.device_id s.devices_by_id ≡ true
      pub enumerated : Profile
      pub found : get (p.device_id, p.index) s.profiles_by_key ≡ some enumerated
      pub same_name : enumerated.name ≡ p.name
      pub available : is_unavailable enumerated.available ≡ false
      pub allowed : Allowed py (later 2 w) 1 r s d

    select_current_profile-Allowed :
        (r d : Request) (ds : List Request) (s : Snapshot) (p current : Profile)
        → (select_current_profile py w fuel r s p current).dispatched ≡ d ∷ ds
        → (ds ≡ []) × Allowed py (later 2 w) 1 r s d × (is_unavailable current.available ≡ false)
    unfolding select_current_profile
    select_current_profile-Allowed r d ds s p current h =
        let (done, holds, rest) = attempt->>= (already py r s) _ d ds h in
        elim (Bool-cases (not done && is_unavailable current.available)) [
          | inl refused ↦ absurd (ground (arith, refused, rest))
          | inr kept ↦
              let (only, allowed) =
                preflight-Allowed py (later 2 w) fuel s r d ds (ground (arith, kept, rest)) in
              (
                only,
                allowed,
                ground (arith, kept, already-Allowed (later 2 w) 1 r d s done holds allowed),
              )
        ]

    select_profile_from-MaySelectProfile :
        (r d : Request) (ds : List Request) (s : Snapshot) (p : Profile)
        → (select_profile_from py w fuel r s p).dispatched ≡ d ∷ ds
        → (ds ≡ []) × MaySelectProfile r s p d
    unfolding select_profile_from
    select_profile_from-MaySelectProfile r d ds s p h = elim (Bool-cases (preflight_is_stale r s)) [
      | inl stale ↦
          let (only, allowed) =
            preflight-Allowed py (later 2 w) fuel s r d ds (ground (arith, stale, h)) in
          absurd (ground (arith, stale, Allowed-current py (later 2 w) 1 r s d allowed))
      | inr current ↦ elim (Bool-cases (has p.device_id s.devices_by_id)) [
        | inr missing ↦ absurd (ground (arith, current, missing, h))
        | inl device ↦ elim (Option-cases (get (p.device_id, p.index) s.profiles_by_key)) [
          | inl gone ↦ absurd (ground (arith, current, device, gone, h))
          | inr (enumerated, found) ↦ elim (Bool-cases (str_eq enumerated.name p.name)) [
            | inr other ↦ absurd (ground (arith, current, device, found, other, h))
            | inl same ↦
                let (only, allowed, available) =
                  select_current_profile-Allowed r d ds s p enumerated
                    (ground (arith, current, device, found, same, h)) in
                (
                  only,
                  record {
                    current = current;
                    device = device;
                    enumerated = enumerated;
                    found = found;
                    same_name = (str_eq_iff enumerated.name p.name).0 same;
                    available = available;
                    allowed = allowed;
                  },
                )
          ]
        ]
      ]
    ]

    -- Selecting a profile dispatches at most one request, and only when the preflight, captured after
    -- the request is made, is of the generation and sequence that the request expects and has the
    -- device, which enumerates a profile with the index, and the name of that profile is the requested
    -- one and it is not unavailable; and `_execute_confirmed_mutation` allows the dispatch.
    pub select_device_profile-MaySelectProfile :
        (build : Builder) (fresh : String) (p : Profile) (options : Options) (d : Request)
        (ds : List Request)
        → (select_device_profile py w fuel build fresh p options).dispatched ≡ d ∷ ds
        → (ds ≡ [])
          × (r : Request) × (s : Snapshot) × (profile_request py build fresh (w.clock 0) p options
              ≡ ok r)
          × (w.capture 1 ≡ ok s)
          × MaySelectProfile r s p d
    unfolding select_device_profile
    select_device_profile-MaySelectProfile build fresh p options d ds h =
        let (r, made, from_request) =
          attempt->>= (profile_request py build fresh (w.clock 0) p options) _ d ds h in
        let (s, captured, from_preflight) = attempt->>= (w.capture 1) _ d ds from_request in
        let (only, may) = select_profile_from-MaySelectProfile r d ds s p from_preflight in
        (only, r, s, made, captured, may)
