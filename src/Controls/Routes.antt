-- ===== src/Controls/Routes.antt =====
-- `select_device_route` of controls.py. The clock is read at step 0, the preflight is the capture at
-- step 1, and the executor, or a failure's clock, goes on at step 2.
use Prim.Native.String.{◌++◌ as ◌<>◌}
use wyreplumber.Prelude.{ℕ, String, not, none, some, ok, ◌>>=◌, if◌then◌else◌, nat_eq, pair_eq}
use wyreplumber.Value.{Value, list, end, field, text}
use wyreplumber.Builtins.{Builtins}
use wyreplumber.Model.Objects.{Route}
use wyreplumber.Model.Index.{get, has}
use wyreplumber.Model.Snapshot.{Snapshot}
use wyreplumber.Mutation.Request.{Request}
use wyreplumber.Mutation.Execution.{World, Execution, execute}
use wyreplumber.Controls.Pods.{Builder, AudioFields}
use wyreplumber.Controls.Selection.{
  is_unavailable, active_profile_ids, is_ruled_out, ids_value, is_other_route, already, not_present,
  not_enumerated, changed, not_available, route_request,
}
use package.wyreplumber.Controls.{Options, attempt, later, preflight_is_stale}

module _ (py : Builtins) (w : World) (fuel : ℕ) where
  open py use {repr}

  -- Once the route is available: the active profiles must not rule it out.
  unfoldable pub select_compatible_route : Request → Snapshot → (route current : Route) → Execution
  select_compatible_route r s route current =
      let active = active_profile_ids route.device_id s.profiles in
      if is_ruled_out active current
      then not_available py (w.clock 2) r
          ("route " <> repr route.name <> " is not valid for the active device profile")
          (field (text "active_profile_ids") (list (ids_value active)) end)
      else execute py (later 2 w) fuel (some s) r

  -- Once the route is identified.
  unfoldable pub select_current_route : Request → Snapshot → (route current : Route) → Execution
  unfolding select_compatible_route
  select_current_route r s route current = attempt (do
    done ← already py r s
    ok (
        if done
        then execute py (later 2 w) fuel (some s) r
        else if is_unavailable current.available
        then not_available py (w.clock 2) r
            ("route " <> repr route.name <> " is currently unavailable") end
        else select_compatible_route r s route current))

  -- Once the device enumerates a route with the index.
  unfoldable pub select_enumerated_route :
      Request → Snapshot → (route current : Route) → (spa_device : ℕ) → Execution
  unfolding select_current_route
  select_enumerated_route r s route current spa_device = attempt (do
    other ← is_other_route current route spa_device
    ok (
        if other
        then changed py (w.clock 2) r "the route index now identifies a different route" route.name
            current.name
        else select_current_route r s route current))

  -- `select_device_route`, from its preflight on
  unfoldable pub select_route_from : Request → Snapshot → Route → (spa_device : ℕ) → Execution
  unfolding select_enumerated_route
  select_route_from r s route spa_device =
      if preflight_is_stale r s
      then execute py (later 2 w) fuel (some s) r
      else if not (has route.device_id s.devices_by_id)
      then not_present py (w.clock 2) r route.device_id
      else elim (get (route.device_id, route.index) s.routes_by_key) [
        | none ↦ not_enumerated py (w.clock 2) r "route " route.index route.device_id
        | some current ↦ select_enumerated_route r s route current spa_device
      ]

  -- `select_device_route`
  unfoldable pub select_device_route :
      Builder → (fresh : String) → Route → AudioFields → (save : Value) → Options → Execution
  unfolding select_route_from
  select_device_route build fresh route audio save options = attempt (do
    (r, spa_device) ← route_request py build fresh (w.clock 0) route audio save options
    s ← w.capture 1
    ok (select_route_from r s route spa_device))
