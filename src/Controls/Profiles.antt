-- ===== src/Controls/Profiles.antt =====
-- `select_device_profile` of controls.py. The clock is read at step 0, the preflight is the capture at
-- step 1, and the executor, or a failure's clock, goes on at step 2.
use Prim.Native.String.{◌++◌ as ◌<>◌}
use wyreplumber.Prelude.{
  ℕ, String, not, ◌&&◌, none, some, ok, ◌>>=◌, if◌then◌else◌, str_eq, nat_eq, pair_eq,
}
use wyreplumber.Value.{end}
use wyreplumber.Builtins.{Builtins}
use wyreplumber.Model.Objects.{Profile}
use wyreplumber.Model.Index.{get, has}
use wyreplumber.Model.Snapshot.{Snapshot}
use wyreplumber.Mutation.Request.{Request}
use wyreplumber.Mutation.Execution.{World, Execution, execute}
use wyreplumber.Controls.Pods.{Builder}
use wyreplumber.Controls.Selection.{
  is_unavailable, already, not_present, not_enumerated, changed, not_available, profile_request,
}
use package.wyreplumber.Controls.{Options, attempt, later, preflight_is_stale}

module _ (py : Builtins) (w : World) (fuel : ℕ) where
  open py use {repr}

  -- Once the profile is identified.
  unfoldable pub select_current_profile : Request → Snapshot → (p current : Profile) → Execution
  select_current_profile r s p current = attempt (do
    done ← already py r s
    ok (
        if not done && is_unavailable current.available
        then not_available py (w.clock 2) r
            ("profile " <> repr p.name <> " is currently unavailable") end
        else execute py (later 2 w) fuel (some s) r))

  -- `select_device_profile`, from its preflight on
  unfoldable pub select_profile_from : Request → Snapshot → Profile → Execution
  unfolding select_current_profile
  select_profile_from r s p =
      if preflight_is_stale r s
      then execute py (later 2 w) fuel (some s) r
      else if not (has p.device_id s.devices_by_id)
      then not_present py (w.clock 2) r p.device_id
      else elim (get (p.device_id, p.index) s.profiles_by_key) [
        | none ↦ not_enumerated py (w.clock 2) r "profile " p.index p.device_id
        | some current ↦
            if not (str_eq current.name p.name)
            then changed py (w.clock 2) r "the profile index now identifies a different profile"
                p.name current.name
            else select_current_profile r s p current
      ]

  -- `select_device_profile`
  unfoldable pub select_device_profile : Builder → (fresh : String) → Profile → Options → Execution
  unfolding select_profile_from
  select_device_profile build fresh p options = attempt (do
    r ← profile_request py build fresh (w.clock 0) p options
    s ← w.capture 1
    ok (select_profile_from r s p))
