-- ===== src/Controls/Creation.antt =====
-- When `create_managed_link` of controls.py dispatches anything.
use wyreplumber.Prelude.{
  ok_eq, sym, ◌∙◌, >>=-eq-ok, ℕ, String, true, false, List, [], ◌∷◌, none, some, ok, ◌≡◌, refl,
  arith, ◌⊎◌, inl, inr, Bool-cases, Option-cases, nat_eq, str_eq, ap, require, not, value_error,
  always, Always-ok,
}
use wyreplumber.Value.{Value, dict, str, end, field, text}
use wyreplumber.Event.Kinds.{link}
use wyreplumber.Model.Serialize.{◌↠◌}
use wyreplumber.Value.Checks.{required_string, as_text, boolean}
use wyreplumber.Builtins.{Builtins}
use wyreplumber.Model.Objects.{Link, Node, Port, input, output}
use wyreplumber.Model.Resolves.{same_direction-eq}
use wyreplumber.Model.Index.{get}
use wyreplumber.Model.Snapshot.{Snapshot}
use wyreplumber.Mutation.Request.{Request}
use wyreplumber.Mutation.Kinds.{create_link}
use wyreplumber.Mutation.Observation.{link_of}
use wyreplumber.Mutation.Execution.{World, execute}
use wyreplumber.Mutation.Dispatch.{Allowed}
use wyreplumber.Controls.Links.{
  Endpoints, LinkFields, link_has_endpoints, same_topology, is_attached, validate_link_endpoints,
  endpoints_of, validated_link_properties, has_key, endpoint_fields, with_passive,
}
use wyreplumber.Controls.Claims.{
  Carries, Joins, NoneOf, OnlyOf, link_of-none, link_of-single, same_topology-none,
  link_has_endpoints-Joins,
}
use wyreplumber.Controls.Managed.{
  link_request, endpoint_predicates, create_for, create_from, create_managed_link,
}
use wyreplumber.Controls.Dispatched.{attempt->>=, preflight-Allowed, Allowed-current}
use package.wyreplumber.Controls.{
  pipewire_identifier, target_of, request_of, later, preflight_is_stale,
}

-- The four endpoints are in the snapshot, each port on its node and in its direction.
pub record AreAttached (s : Snapshot) (e : Endpoints) : Type 0 where
  pub output_node : Node
  pub output_port : Port
  pub input_node : Node
  pub input_port : Port
  pub output_node_found : get e.output_node_id s.nodes_by_id ≡ some output_node
  pub output_port_found : get e.output_port_id s.ports_by_id ≡ some output_port
  pub input_node_found : get e.input_node_id s.nodes_by_id ≡ some input_node
  pub input_port_found : get e.input_port_id s.ports_by_id ≡ some input_port
  pub output_on_node : output_port.node_id ≡ output_node.id
  pub input_on_node : input_port.node_id ≡ input_node.id
  pub goes_out : output_port.direction ≡ output
  pub comes_in : input_port.direction ≡ input

-- No link carries the identity and none joins the endpoints, or one link alone carries the identity,
-- and it joins the endpoints.
abbrev pub IsUnclaimed : Snapshot → Endpoints → (owner desired_id : String) → Type 0
IsUnclaimed s e owner desired_id =
    (NoneOf (Carries owner desired_id) s.links × NoneOf (Joins e) s.links)
    ⊎ ((l : Link) × OnlyOf (Carries owner desired_id) s.links l × Joins e l)

-- The endpoints and the identity are those of the call.
pub record AreAsked (args : LinkFields) (e : Endpoints) (owner desired_id : String) : Type 0 where
  pub output_node : pipewire_identifier args.output_node_id ≡ ok e.output_node_id
  pub output_port : pipewire_identifier args.output_port_id ≡ ok e.output_port_id
  pub input_node : pipewire_identifier args.input_node_id ≡ ok e.input_node_id
  pub input_port : pipewire_identifier args.input_port_id ≡ ok e.input_port_id
  pub owned : as_text args.owner ≡ some owner
  pub named : as_text args.desired_id ≡ some desired_id

pub required_string-eq :
    (v : Value) (s : String) → required_string false v ≡ ok s → as_text v ≡ some s
unfolding required_string
required_string-eq v s h = elim (Option-cases (as_text v)) [
  | inl other ↦ absurd (ground (arith, other, h))
  | inr (t, is) ↦ elim (Bool-cases (str_eq t "")) [
    | inl empty ↦ absurd (ground (arith, is, empty, h))
    | inr full ↦ ground (arith, is, full, h)
  ]
]

-- What `link_request` gives beside the request.
abbrev IsRead : Endpoints → String → String → (Request × Endpoints) × (String × String) → Type 0
IsRead e owner desired_id made = (made.0.1 ≡ e) × (made.1.0 ≡ owner) × (made.1.1 ≡ desired_id)

endpoints_of-AreAsked :
    (args : LinkFields) (e : Endpoints) (owner desired_id : String)
    → endpoints_of args ≡ ok e
    → required_string false args.owner ≡ ok owner
    → required_string false args.desired_id ≡ ok desired_id
    → AreAsked args e owner desired_id
endpoints_of-AreAsked args e owner desired_id h owned named =
    let (on, a, after_on) = >>=-eq-ok (pipewire_identifier args.output_node_id) _ h in
    let (op, b, after_op) = >>=-eq-ok (pipewire_identifier args.output_port_id) _ after_on in
    let (in_node, c, after_in) = >>=-eq-ok (pipewire_identifier args.input_node_id) _ after_op in
    let (ip, d, made) = >>=-eq-ok (pipewire_identifier args.input_port_id) _ after_in in
    rw (← ok_eq made) (record {
      output_node = a;
      output_port = b;
      input_node = c;
      input_port = d;
      owned = required_string-eq args.owner owner owned;
      named = required_string-eq args.desired_id desired_id named;
    })

module _ (py : Builtins) where
  link_request-AreAsked :
      (fresh : String) (clock : ℕ) (args : LinkFields) (r : Request) (e : Endpoints)
      (owner desired_id : String)
      → link_request py fresh clock args ≡ ok ((r, e), (owner, desired_id))
      → AreAsked args e owner desired_id
  unfolding link_request
  link_request-AreAsked fresh clock args r e owner desired_id h =
      let (o, owned, after_o) = >>=-eq-ok (required_string false args.owner) _ h in
      let (i, named, after_i) = >>=-eq-ok (required_string false args.desired_id) _ after_o in
      let (ends, read, after_ends) = >>=-eq-ok (endpoints_of args) _ after_i in
      let P = IsRead ends o i in
      let same : IsRead ends o i ((r, e), (owner, desired_id)) =
        always P (boolean args.passive) _
          (λ passive. always P (validated_link_properties args.properties) _ (λ given.
            always P (require (not (has_key "link.passive" given)) value_error) _ (λ plain.
              always P
                (target_of link (str i)
                  (("owner", str o) ↠ ("desired_id", str i) ↠ endpoint_fields ends))
                _
                (λ target. always P (endpoint_predicates py target ends) _ (λ predicates.
                  always P
                    (request_of py fresh clock args.options create_link target
                      (field (text "properties") (dict (with_passive passive given)) end)
                      predicates)
                    _ (λ made. Always-ok P ((made, ends), (o, i)) (refl, refl, refl)))))))
          ((r, e), (owner, desired_id)) after_ends in
      endpoints_of-AreAsked args e owner desired_id (read ∙ ap ok (sym same.0))
        (owned ∙ ap ok (sym same.1)) (named ∙ ap ok (sym same.2))

  validate_link_endpoints-AreAttached :
      (clock : ℕ) (r : Request) (s : Snapshot) (e : Endpoints)
      → validate_link_endpoints py clock r s e ≡ none
      → AreAttached s e
  unfolding validate_link_endpoints is_attached
  validate_link_endpoints-AreAttached clock r s e valid =
      elim (Option-cases (get e.output_node_id s.nodes_by_id)) [
        | inl gone ↦ absurd (ground (arith, gone, valid))
        | inr (on, a) ↦ elim (Option-cases (get e.input_node_id s.nodes_by_id)) [
          | inl gone ↦ absurd (ground (arith, a, gone, valid))
          | inr (in_node, b) ↦ elim (Option-cases (get e.output_port_id s.ports_by_id)) [
            | inl gone ↦ absurd (ground (arith, a, b, gone, valid))
            | inr (op, c) ↦ elim (Option-cases (get e.input_port_id s.ports_by_id)) [
              | inl gone ↦ absurd (ground (arith, a, b, c, gone, valid))
              | inr (ip, d) ↦
                  let attached : is_attached on op in_node ip ≡ true =
                    ground (arith, a, b, c, d, valid) in
                  record {
                    output_node = on;
                    output_port = op;
                    input_node = in_node;
                    input_port = ip;
                    output_node_found = a;
                    output_port_found = c;
                    input_node_found = b;
                    input_port_found = d;
                    output_on_node = ground (arith, attached);
                    input_on_node = ground (arith, attached);
                    goes_out = same_direction-eq op.direction output (ground (arith, attached));
                    comes_in = same_direction-eq ip.direction input (ground (arith, attached));
                  }
            ]
          ]
        ]
      ]

  unclaimed_lem :
      (s : Snapshot) (e : Endpoints) (owner desired_id : String)
      → ((link_of owner desired_id s.links ≡ []) × (same_topology e s.links ≡ []))
        ⊎ ((l : Link) × (link_of owner desired_id s.links ≡ l ∷ [])
            × (link_has_endpoints l e ≡ true))
      → IsUnclaimed s e owner desired_id
  unclaimed_lem s e owner desired_id (inl (free, apart)) =
      inl (link_of-none owner desired_id s.links free, same_topology-none e s.links apart)
  unclaimed_lem s e owner desired_id (inr (l, one, joined)) =
      inr (l, link_of-single owner desired_id s.links l one, link_has_endpoints-Joins e l joined)

  module _ (w : World) (fuel : ℕ) where
    -- What stands between a validated creation and its dispatch.
    pub record MayCreate (r : Request) (s : Snapshot) (e : Endpoints) (owner desired_id : String)
        (d : Request) : Type 0 where
      pub current : preflight_is_stale r s ≡ false
      pub endpoints : AreAttached s e
      pub unclaimed : IsUnclaimed s e owner desired_id
      pub allowed : Allowed py (later 2 w) 1 r s d

    create_for-IsUnclaimed :
        (r d : Request) (ds : List Request) (s : Snapshot) (e : Endpoints) (claimants : List Link)
        → (create_for py w fuel r s e claimants).dispatched ≡ d ∷ ds
        → ((execute py (later 2 w) fuel (some s) r).dispatched ≡ d ∷ ds)
          × (((claimants ≡ []) × (same_topology e s.links ≡ []))
              ⊎ ((l : Link) × (claimants ≡ l ∷ []) × (link_has_endpoints l e ≡ true)))
    unfolding create_for
    create_for-IsUnclaimed r d ds s e [] h = elim (topology_cases (same_topology e s.links)) [
      | inl free ↦ (ground (arith, free, h), inl (refl, free))
      | inr (l, ls, taken) ↦ absurd (ground (arith, taken, h))
    ]
      where
        topology_cases :
            (ls : List Link) → (ls ≡ []) ⊎ ((l : Link) × (rest : List Link) × (ls ≡ l ∷ rest))
        topology_cases [] = inl refl
        topology_cases (l ∷ ls) = inr (l, ls, refl)
    create_for-IsUnclaimed r d ds s e (l ∷ []) h = elim (Bool-cases (link_has_endpoints l e)) [
      | inl same ↦ (ground (arith, same, h), inr (l, refl, same))
      | inr other ↦ absurd (ground (arith, other, h))
    ]
    create_for-IsUnclaimed r d ds s e (l ∷ m ∷ ls) h = absurd (ground (arith, h))

    create_from-MayCreate :
        (r d : Request) (ds : List Request) (s : Snapshot) (e : Endpoints)
        (owner desired_id : String)
        → (create_from py w fuel r s e owner desired_id).dispatched ≡ d ∷ ds
        → (ds ≡ []) × MayCreate r s e owner desired_id d
    unfolding create_from
    create_from-MayCreate r d ds s e owner desired_id h =
        elim (Bool-cases (preflight_is_stale r s)) [
          | inl stale ↦
              let (only, allowed) =
                preflight-Allowed py (later 2 w) fuel s r d ds (ground (arith, stale, h)) in
              absurd (ground (arith, stale, Allowed-current py (later 2 w) 1 r s d allowed))
          | inr current ↦ elim (Option-cases (validate_link_endpoints py (w.clock 2) r s e)) [
            | inr (failure, refused) ↦ absurd (ground (arith, current, refused, h))
            | inl valid ↦
                let (executed, unclaimed) =
                  create_for-IsUnclaimed r d ds s e (link_of owner desired_id s.links)
                    (ground (arith, current, valid, h)) in
                let (only, allowed) = preflight-Allowed py (later 2 w) fuel s r d ds executed in
                (
                  only,
                  record {
                    current = current;
                    endpoints = validate_link_endpoints-AreAttached (w.clock 2) r s e valid;
                    unclaimed = unclaimed_lem s e owner desired_id unclaimed;
                    allowed = allowed;
                  },
                )
          ]
        ]

    -- Creating a managed link dispatches at most one request, and only when the preflight, captured
    -- after the request is made, is of the generation and sequence that the request expects; the four
    -- endpoints of the call are in it, each port on its node, one an output and one an input; either
    -- no link has the owner and the desired id of the call and no link joins the endpoints, or exactly
    -- one link has them and it joins the endpoints; and `_execute_confirmed_mutation` allows the
    -- dispatch.
    pub create_managed_link-MayCreate :
        (fresh : String) (args : LinkFields) (d : Request) (ds : List Request)
        → (create_managed_link py w fuel fresh args).dispatched ≡ d ∷ ds
        → (ds ≡ [])
          × (r : Request) × (e : Endpoints) × (owner : String) × (desired_id : String)
          × (s : Snapshot) × (link_request py fresh (w.clock 0) args
              ≡ ok ((r, e), (owner, desired_id)))
          × AreAsked args e owner desired_id
          × (w.capture 1 ≡ ok s)
          × MayCreate r s e owner desired_id d
    unfolding create_managed_link
    create_managed_link-MayCreate fresh args d ds h =
        let (((r, e), (owner, desired_id)), made, from_request) =
          attempt->>= (link_request py fresh (w.clock 0) args) _ d ds h in
        let (s, captured, from_preflight) = attempt->>= (w.capture 1) _ d ds from_request in
        let (only, may) = create_from-MayCreate r d ds s e owner desired_id from_preflight in
        (
          only,
          r,
          e,
          owner,
          desired_id,
          s,
          made,
          link_request-AreAsked fresh (w.clock 0) args r e owner desired_id made,
          captured,
          may,
        )
