-- ===== src/Controls/Managed.antt =====
-- `create_managed_link` and `remove_managed_link` of controls.py.
use wyreplumber.Prelude.{
  ℕ, pos, String, false, not, none, some, List, [], ◌∷◌, Result, ok, value_error, ◌>>=◌, ◌>>◌,
  require, if◌then◌else◌, length, ltb,
}
use wyreplumber.Value.{Value, int, str, dict, nil, cons, end, field, text}
use wyreplumber.Value.Checks.{required_string, boolean}
use wyreplumber.Builtins.{Builtins}
use wyreplumber.Event.Kinds.{link}
use wyreplumber.Model.Objects.{Link}
use wyreplumber.Model.Serialize.{◌↠◌}
use wyreplumber.Model.Snapshot.{Snapshot}
use wyreplumber.Mutation.Kinds.{create_link, remove_link}
use wyreplumber.Mutation.Predicate.{Target, Predicate}
use wyreplumber.Mutation.Request.{Request}
use wyreplumber.Mutation.Observation.{link_of}
use wyreplumber.Mutation.Execution.{World, Execution, ends, execute}
use wyreplumber.Controls.Links.{
  Endpoints, LinkFields, validated_link_properties, with_passive, has_key, link_has_endpoints,
  same_topology, endpoint_fields, endpoints_of, link_ownership_conflict, validate_link_endpoints,
}
use package.wyreplumber.Controls.{
  Options, attempt, later, target_of, equals_at, absent_at, request_of, preflight_is_stale,
}

-- `matches[0].id if len(matches) == 1 else 0`
abbrev pub removed_id : List Link → ℕ
removed_id (l ∷ []) = l.id
removed_id _ = 0

module _ (py : Builtins) where
  -- The predicates that confirm a new link: one for each endpoint.
  abbrev pub endpoint_predicates : Target → Endpoints → Result (List Predicate)
  endpoint_predicates target e = do
    a ← equals_at py target (cons (str "output_node_id") nil) (int (pos e.output_node_id))
    b ← equals_at py target (cons (str "output_port_id") nil) (int (pos e.output_port_id))
    c ← equals_at py target (cons (str "input_node_id") nil) (int (pos e.input_node_id))
    d ← equals_at py target (cons (str "input_port_id") nil) (int (pos e.input_port_id))
    ok (a ∷ b ∷ c ∷ d ∷ [])

  -- The request of `create_managed_link`, with what the rest of it reads.
  unfoldable pub link_request :
      (fresh : String) (clock : ℕ) → LinkFields → Result ((Request × Endpoints) × (String × String))
  link_request fresh clock args = do
    owner ← required_string false args.owner
    desired_id ← required_string false args.desired_id
    e ← endpoints_of args
    passive ← boolean args.passive
    given ← validated_link_properties args.properties
    require (not (has_key "link.passive" given)) value_error
    target ←
        target_of link (str desired_id)
          (("owner", str owner) ↠ ("desired_id", str desired_id) ↠ endpoint_fields e)
    predicates ← endpoint_predicates target e
    r ←
        request_of py fresh clock args.options create_link target
          (field (text "properties") (dict (with_passive passive given)) end) predicates
    ok ((r, e), (owner, desired_id))

  module _ (w : World) where
    -- Once the endpoints are there: the links that carry the identity.
    unfoldable pub create_for :
        (fuel : ℕ) → Request → Snapshot → Endpoints → (claimants : List Link) → Execution
    create_for fuel r s e [] = elim (same_topology e s.links) [
      | [] ↦ execute py (later 2 w) fuel (some s) r
      | l ∷ ls ↦ ends (
          link_ownership_conflict py (w.clock 2) r
            "the requested topology already exists without this managed identity" (l ∷ ls))
    ]
    create_for fuel r s e (l ∷ []) =
        if link_has_endpoints l e
        then execute py (later 2 w) fuel (some s) r
        else ends (
            link_ownership_conflict py (w.clock 2) r
              "the managed identity already belongs to different endpoints" (l ∷ []))
    create_for fuel r s e (l ∷ m ∷ ls) = ends (
        link_ownership_conflict py (w.clock 2) r
          "multiple links already claim the same managed identity" (l ∷ m ∷ ls))

    -- `create_managed_link`, from its preflight on
    unfoldable pub create_from :
        (fuel : ℕ) → Request → Snapshot → Endpoints → (owner desired_id : String) → Execution
    unfolding create_for
    create_from fuel r s e owner desired_id =
        if preflight_is_stale r s
        then execute py (later 2 w) fuel (some s) r
        else elim (validate_link_endpoints py (w.clock 2) r s e) [
          | some failure ↦ ends failure
          | none ↦ create_for fuel r s e (link_of owner desired_id s.links)
        ]

    -- `create_managed_link`: the clock is read at step 0, and the preflight is the capture at step 1.
    unfoldable pub create_managed_link : (fuel : ℕ) → (fresh : String) → LinkFields → Execution
    unfolding create_from
    create_managed_link fuel fresh args = attempt (do
      ((r, e), (owner, desired_id)) ← link_request fresh (w.clock 0) args
      s ← w.capture 1
      ok (create_from fuel r s e owner desired_id))

    -- `remove_managed_link`, from its request on
    unfoldable pub remove_from : (fuel : ℕ) → Request → Snapshot → (matches : List Link) → Execution
    remove_from fuel r s matches =
        if preflight_is_stale r s
        then execute py (later 2 w) fuel (some s) r
        else if ltb 1 (length matches)
        then ends (
            link_ownership_conflict py (w.clock 2) r
              "multiple links claim the managed identity; none were removed" matches)
        else execute py (later 2 w) fuel (some s) r

    -- The request of `remove_managed_link`, for the links that carry the identity.
    unfoldable pub removal_request :
        (fresh owner desired_id : String) → Options → (matches : List Link) → Result Request
    removal_request fresh owner desired_id options matches = do
      target ←
          target_of link (str desired_id)
            (("owner", str owner) ↠ ("desired_id", str desired_id) ↠ end)
      predicate ← absent_at py target
      request_of py fresh (w.clock 1) options remove_link target
          (field (text "link_id") (int (pos (removed_id matches))) end) (predicate ∷ [])

    -- `remove_managed_link`: the preflight is the capture at step 0, the clock is read at step 1.
    unfoldable pub remove_managed_link :
        (fuel : ℕ) → (fresh : String) → (owner desired_id : Value) → Options → Execution
    unfolding remove_from
    remove_managed_link fuel fresh owner desired_id options = attempt (do
      o ← required_string false owner
      d ← required_string false desired_id
      s ← w.capture 0
      r ← removal_request fresh o d options (link_of o d s.links)
      ok (remove_from fuel r s (link_of o d s.links)))
