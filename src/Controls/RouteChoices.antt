-- ===== src/Controls/RouteChoices.antt =====
-- When `select_device_route` dispatches anything.
use wyreplumber.Prelude.{
  ◌≢◌, ℕ, String, true, false, List, [], ◌∷◌, some, Result, ok, err, ◌≡◌, arith, inl, inr,
  Bool-cases, Option-cases, nat_eq, pair_eq, str_eq, str_eq_iff, pos, >>=-eq-ok, ap, sym, ◌∙◌, refl,
  always, Always-ok,
}
use wyreplumber.Value.{Value, int, bool, str, end}
use wyreplumber.Value.Checks.{boolean}
use wyreplumber.Builtins.{Builtins}
use wyreplumber.Model.Objects.{Route, unavailable}
use wyreplumber.Model.Index.{get, has}
use wyreplumber.Model.Relations.{same_direction}
use wyreplumber.Model.Resolves.{same_direction-eq}
use wyreplumber.Model.Snapshot.{Snapshot}
use wyreplumber.Mutation.Request.{Request}
use wyreplumber.Mutation.Execution.{World, execute}
use wyreplumber.Mutation.Dispatch.{Allowed}
use wyreplumber.Controls.Pods.{Pod, Builder, AudioFields, audio_properties}
use wyreplumber.Event.Kinds.{RuntimeObjectKind}
use wyreplumber.Model.Serialize.{◌↠◌}
use wyreplumber.Mutation.Kinds.{select_route}
use wyreplumber.Controls.Selection.{
  selection_request, field_predicates, given_properties, is_unavailable, already, route_request,
  route_spa_device, is_other_route, is_ruled_out, active_profile_ids, other_device,
}
use wyreplumber.Controls.Routes.{
  select_compatible_route, select_current_route, select_enumerated_route, select_route_from,
  select_device_route,
}
use wyreplumber.Controls.Choices.{already-Allowed}
use wyreplumber.Controls.Compatible.{IsCompatible, is_ruled_out-IsCompatible}
use wyreplumber.Controls.Dispatched.{attempt->>=, preflight-Allowed, Allowed-current}
use package.wyreplumber.Controls.{
  Options, later, preflight_is_stale, pipewire_identifier, target_of,
}

module _ (py : Builtins) where
  route_request-spa_device :
      (build : Builder) (fresh : String) (clock : ℕ) (route : Route) (audio : AudioFields)
      (save : Value) (options : Options) (r : Request) (spa_device : ℕ)
      → route_request py build fresh clock route audio save options ≡ ok (r, spa_device)
      → route_spa_device route ≡ ok spa_device
  unfolding route_request
  route_request-spa_device build fresh clock route audio save options r spa_device h =
      let (_, _, after_device) = >>=-eq-ok (pipewire_identifier (int (pos route.device_id))) _ h in
      let (_, _, after_index) =
        >>=-eq-ok (pipewire_identifier (int (pos route.index))) _ after_device in
      let (keep, _, after_save) = >>=-eq-ok (boolean save) _ after_index in
      let ((properties, expected), _, after_audio) =
        >>=-eq-ok (audio_properties py audio) _ after_save in
      let (read, found, after_read) = >>=-eq-ok (route_spa_device route) _ after_audio in
      let P : Request × ℕ → Type 0 = λ made. made.1 ≡ read in
      let same : spa_device ≡ read =
        always P
          (target_of RuntimeObjectKind.device (int (pos route.device_id))
            (("route_index", int (pos route.index)) ↠ end))
          _
          (λ target.
            always P
              (field_predicates py target
                (("active", bool true) ∷ ("name", str route.name) ∷ expected))
              _
              (λ predicates.
                always P
                  (selection_request py build fresh clock options select_route "Route"
                    route.device_id
                    (Pod.route (record {
                      index = route.index;
                      device = read;
                      save = keep;
                      props = given_properties properties;
                    }))
                    predicates)
                  _ (λ request. Always-ok P (request, read) refl)))
          (r, spa_device) after_read in
      found ∙ ap ok (sym same)

  module _ (w : World) (fuel : ℕ) where
    -- What stands between a validated selection of a route and its dispatch.
    pub record MaySelectRoute (r : Request) (s : Snapshot) (route : Route) (spa_device : ℕ)
        (d : Request) : Type 0 where
      pub current : preflight_is_stale r s ≡ false
      pub device : has route.device_id s.devices_by_id ≡ true
      pub enumerated : Route
      pub found : get (route.device_id, route.index) s.routes_by_key ≡ some enumerated
      pub same_name : enumerated.name ≡ route.name
      pub same_way : enumerated.direction ≡ route.direction
      pub same_spa_device : route_spa_device enumerated ≡ ok spa_device
      pub available : enumerated.available ≢ unavailable
      pub compatible : IsCompatible route.device_id s.profiles enumerated
      pub allowed : Allowed py (later 2 w) 1 r s d

    other_device-same :
        (read : Result ℕ) (spa_device : ℕ)
        → other_device read spa_device ≡ ok false
        → read ≡ ok spa_device
    other_device-same (ok c) spa_device same = ground (arith, same)
    other_device-same (err e) spa_device same = absurd (ground (arith, same))

    is_other_route-same :
        (current route : Route) (spa_device : ℕ)
        → is_other_route current route spa_device ≡ ok false
        → (current.name ≡ route.name)
          × (current.direction ≡ route.direction)
          × (route_spa_device current ≡ ok spa_device)
    unfolding is_other_route
    is_other_route-same current route spa_device same =
        elim (Bool-cases (str_eq current.name route.name)) [
          | inr named ↦ absurd (ground (arith, named, same))
          | inl named ↦ elim (Bool-cases (same_direction current.direction route.direction)) [
            | inr way ↦ absurd (ground (arith, named, way, same))
            | inl way ↦ (
              (str_eq_iff current.name route.name).0 named,
              same_direction-eq current.direction route.direction way,
              other_device-same (route_spa_device current) spa_device
                  (ground (arith, named, way, same)),
            )
          ]
        ]

    select_current_route-Allowed :
        (r d : Request) (ds : List Request) (s : Snapshot) (route current : Route)
        → (select_current_route py w fuel r s route current).dispatched ≡ d ∷ ds
        → (ds ≡ [])
          × Allowed py (later 2 w) 1 r s d
          × (is_unavailable current.available ≡ false)
          × (is_ruled_out (active_profile_ids route.device_id s.profiles) current ≡ false)
    unfolding select_current_route select_compatible_route
    select_current_route-Allowed r d ds s route current h =
        let (done, holds, rest) = attempt->>= (already py r s) _ d ds h in
        let executes : (executed : (execute py (later 2 w) fuel (some s) r).dispatched ≡ d ∷ ds)
            → (ds ≡ []) × Allowed py (later 2 w) 1 r s d × (done ≡ false) =
          λ executed.
            let (only, allowed) = preflight-Allowed py (later 2 w) fuel s r d ds executed in
            (only, allowed, already-Allowed py (later 2 w) 1 r d s done holds allowed) in
        elim (Bool-cases done) [
          | inl already_so ↦
              absurd (ground (arith, already_so, (executes (ground (arith, already_so, rest))).2))
          | inr news ↦
              let (only, allowed, _) = executes (ground (arith, news, rest)) in
              (only, allowed, ground (arith, news, rest), ground (arith, news, rest))
        ]

    select_enumerated_route-Allowed :
        (r d : Request) (ds : List Request) (s : Snapshot) (route current : Route) (spa_device : ℕ)
        → (select_enumerated_route py w fuel r s route current spa_device).dispatched ≡ d ∷ ds
        → (is_other_route current route spa_device ≡ ok false)
          × ((select_current_route py w fuel r s route current).dispatched ≡ d ∷ ds)
    unfolding select_enumerated_route
    select_enumerated_route-Allowed r d ds s route current spa_device h =
        let (other, tested, rest) =
          attempt->>= (is_other_route current route spa_device) _ d ds h in
        elim (Bool-cases other) [
          | inl changed ↦ absurd (ground (arith, changed, rest))
          | inr same ↦ (rw (← same) tested, ground (arith, same, rest))
        ]

    select_route_from-MaySelectRoute :
        (r d : Request) (ds : List Request) (s : Snapshot) (route : Route) (spa_device : ℕ)
        → (select_route_from py w fuel r s route spa_device).dispatched ≡ d ∷ ds
        → (ds ≡ []) × MaySelectRoute r s route spa_device d
    unfolding select_route_from
    select_route_from-MaySelectRoute r d ds s route spa_device h =
        elim (Bool-cases (preflight_is_stale r s)) [
          | inl stale ↦
              let (only, allowed) =
                preflight-Allowed py (later 2 w) fuel s r d ds (ground (arith, stale, h)) in
              absurd (ground (arith, stale, Allowed-current py (later 2 w) 1 r s d allowed))
          | inr current ↦ elim (Bool-cases (has route.device_id s.devices_by_id)) [
            | inr missing ↦ absurd (ground (arith, current, missing, h))
            | inl device ↦
                elim (Option-cases (get (route.device_id, route.index) s.routes_by_key)) [
                  | inl gone ↦ absurd (ground (arith, current, device, gone, h))
                  | inr (enumerated, found) ↦
                      let (tested, goes) =
                        select_enumerated_route-Allowed r d ds s route enumerated spa_device
                          (ground (arith, current, device, found, h)) in
                      let (same_name, same_way, same_spa_device) =
                        is_other_route-same enumerated route spa_device tested in
                      let (only, allowed, available, compatible) =
                        select_current_route-Allowed r d ds s route enumerated goes in
                      (
                        only,
                        record {
                          current = current;
                          device = device;
                          enumerated = enumerated;
                          found = found;
                          same_name = same_name;
                          same_way = same_way;
                          same_spa_device = same_spa_device;
                          available = λ same. ground (arith, same, available);
                          compatible =
                              is_ruled_out-IsCompatible route.device_id s.profiles enumerated
                                compatible;
                          allowed = allowed;
                        },
                      )
                ]
          ]
        ]

    -- Selecting a route dispatches at most one request, and only when the preflight, captured after
    -- the request is made, is of the generation and sequence that the request expects and has the
    -- device, which enumerates a route with the index, of the requested name, direction and SPA
    -- device; that route is not unavailable, and it names no profiles, or the device has no active
    -- profile, or it names one of the device's active profiles; and `_execute_confirmed_mutation`
    -- allows the dispatch.
    pub select_device_route-MaySelectRoute :
        (build : Builder) (fresh : String) (route : Route) (audio : AudioFields) (save : Value)
        (options : Options) (d : Request) (ds : List Request)
        → (select_device_route py w fuel build fresh route audio save options).dispatched ≡ d ∷ ds
        → (ds ≡ [])
          × (r : Request) × (spa_device : ℕ) × (s : Snapshot) × (route_request py build fresh
                (w.clock 0)
                route
                audio
                save
                options
              ≡ ok (r, spa_device))
          × (route_spa_device route ≡ ok spa_device)
          × (w.capture 1 ≡ ok s)
          × MaySelectRoute r s route spa_device d
    unfolding select_device_route
    select_device_route-MaySelectRoute build fresh route audio save options d ds h =
        let ((r, spa_device), made, from_request) =
          attempt->>= (route_request py build fresh (w.clock 0) route audio save options) _ d ds
            h in
        let (s, captured, from_preflight) = attempt->>= (w.capture 1) _ d ds from_request in
        let (only, may) =
          select_route_from-MaySelectRoute r d ds s route spa_device from_preflight in
        (
          only,
          r,
          spa_device,
          s,
          made,
          route_request-spa_device build fresh (w.clock 0) route audio save options r spa_device
              made,
          captured,
          may,
        )
