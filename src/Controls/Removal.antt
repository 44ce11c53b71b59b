-- ===== src/Controls/Removal.antt =====
-- When `remove_managed_link` of controls.py dispatches anything, and what.
use wyreplumber.Prelude.{
  pos, ok_eq, sym, ◌∙◌, >>=-eq-ok, ℕ, String, false, List, [], ◌∷◌, some, ok, ◌≡◌, refl, arith, ◌⊎◌,
  inl, inr, Bool-cases, length, ◌≤◌, nat_eq,
}
use wyreplumber.Value.{Value, Fields, int, str, end, field, text}
use wyreplumber.Value.Json.{mapping}
use wyreplumber.Event.Kinds.{link}
use wyreplumber.Model.Serialize.{◌↠◌}
use wyreplumber.Mutation.Payload.{create-payload, pinned-payload}
use wyreplumber.Value.Checks.{required_string, as_text}
use wyreplumber.Builtins.{Builtins}
use wyreplumber.Model.Objects.{Link}
use wyreplumber.Model.Snapshot.{Snapshot}
use wyreplumber.Mutation.Request.{Request}
use wyreplumber.Mutation.Observation.{link_of}
use wyreplumber.Mutation.Execution.{World}
use wyreplumber.Mutation.Dispatch.{Allowed}
use wyreplumber.Controls.Claims.{Carries, NoneOf, OnlyOf, link_of-none, link_of-single}
use wyreplumber.Controls.Managed.{removed_id, remove_from, removal_request, remove_managed_link}
use wyreplumber.Controls.Dispatched.{attempt->>=, preflight-Allowed, Allowed-current}
use package.wyreplumber.Controls.{target_of, absent_at, Options, later, preflight_is_stale}
use wyreplumber.Controls.Creation.{required_string-eq}

-- The payload of a removal: the number of a link.
abbrev pub link_payload : ℕ → Fields
link_payload i = field (text "link_id") (int (pos i)) end

module _ (py : Builtins) where
  module _ (w : World) (fuel : ℕ) where
    -- What stands between a validated removal and its dispatch.
    pub record MayRemove (r : Request) (s : Snapshot) (d : Request) : Type 0 where
      pub current : preflight_is_stale r s ≡ false
      pub allowed : Allowed py (later 2 w) 1 r s d

    -- The request removes the only link of the identity, or the number 0 where no link has it.
    abbrev pub Removes : (s : Snapshot) (owner desired_id : String) → Request → Type 0
    Removes s owner desired_id d =
        (NoneOf (Carries owner desired_id) s.links × (d.payload ≡ link_payload 0))
        ⊎ ((l : Link) × OnlyOf (Carries owner desired_id) s.links l
            × (d.payload ≡ link_payload l.id))

    removes_lem :
        (s : Snapshot) (owner desired_id : String) (d : Request) (matches : List Link)
        → link_of owner desired_id s.links ≡ matches
        → length matches ≤ 1
        → d.payload ≡ link_payload (removed_id matches)
        → Removes s owner desired_id d
    removes_lem s owner desired_id d [] found single payload =
        inl (link_of-none owner desired_id s.links found, payload)
    removes_lem s owner desired_id d (l ∷ []) found single payload =
        inr (l, link_of-single owner desired_id s.links l found, payload)
    removes_lem s owner desired_id d (l ∷ m ∷ ms) found single payload =
        absurd (omega (arith, single))

    remove_from-MayRemove :
        (r d : Request) (ds : List Request) (s : Snapshot) (matches : List Link)
        → (remove_from py w fuel r s matches).dispatched ≡ d ∷ ds
        → (ds ≡ []) × MayRemove r s d × (length matches ≤ 1)
    unfolding remove_from
    remove_from-MayRemove r d ds s matches h = elim (Bool-cases (preflight_is_stale r s)) [
      | inl stale ↦
          let (only, allowed) =
            preflight-Allowed py (later 2 w) fuel s r d ds (ground (arith, stale, h)) in
          absurd (ground (arith, stale, Allowed-current py (later 2 w) 1 r s d allowed))
      | inr current ↦
          let single : length matches ≤ 1 = ground (arith, current, h) in
          let (only, allowed) =
            preflight-Allowed py (later 2 w) fuel s r d ds (ground (arith, current, single, h)) in
          (only, record { current = current; allowed = allowed }, single)
    ]

    removal_request-payload :
        (fresh owner desired_id : String) (options : Options) (matches : List Link) (r : Request)
        → removal_request py w fresh owner desired_id options matches ≡ ok r
        → r.payload ≡ link_payload (removed_id matches)
    unfolding removal_request mapping
    removal_request-payload fresh owner desired_id options matches r made =
        let (target, _, after_target) =
          >>=-eq-ok
            (target_of link (str desired_id)
              (("owner", str owner) ↠ ("desired_id", str desired_id) ↠ end))
            _ made in
        let (predicate, _, requested) = >>=-eq-ok (absent_at py target) _ after_target in
        sym (ok_eq (create-payload py fresh (w.clock 1) _ r requested))

    -- Removing a managed link dispatches at most one request, and only when at most one link of the
    -- captured snapshot has the owner and the desired id of the call, the snapshot is of the
    -- generation and sequence that the request expects, and `_execute_confirmed_mutation` allows the
    -- dispatch. The payload of the request is the id of that link, or 0 if there is none.
    pub remove_managed_link-MayRemove :
        (fresh : String) (owner desired_id : Value) (options : Options) (d : Request)
        (ds : List Request)
        → (remove_managed_link py w fuel fresh owner desired_id options).dispatched ≡ d ∷ ds
        → (ds ≡ [])
          × (o : String) × (i : String) × (s : Snapshot) × (r : Request) × (as_text owner ≡ some o)
          × (as_text desired_id ≡ some i)
          × (w.capture 0 ≡ ok s)
          × (removal_request py w fresh o i options (link_of o i s.links) ≡ ok r)
          × MayRemove r s d
          × Removes s o i d
    unfolding remove_managed_link
    remove_managed_link-MayRemove fresh owner desired_id options d ds h =
        let (o, owned, from_owner) = attempt->>= (required_string false owner) _ d ds h in
        let (i, named, from_id) =
          attempt->>= (required_string false desired_id) _ d ds from_owner in
        let (s, captured, from_preflight) = attempt->>= (w.capture 0) _ d ds from_id in
        let (r, made, from_request) =
          attempt->>= (removal_request py w fresh o i options (link_of o i s.links)) _ d ds
            from_preflight in
        let (only, may, single) =
          remove_from-MayRemove r d ds s (link_of o i s.links) from_request in
        let payload =
          pinned-payload py (later 2 w) r d s may.allowed.pinned_to
          ∙ removal_request-payload fresh o i options (link_of o i s.links) r made in
        (
          only,
          o,
          i,
          s,
          r,
          required_string-eq owner o owned,
          required_string-eq desired_id i named,
          captured,
          made,
          may,
          removes_lem s o i d (link_of o i s.links) refl single payload,
        )
