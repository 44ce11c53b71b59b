-- ===== src/Controls/Streaming.antt =====
-- When `set_stream_target` of controls.py dispatches anything, and what.
use package.text.Mathlib.Text.{starts_with}
use wyreplumber.Prelude.{
  ℕ, pos, String, true, false, List, [], ◌∷◌, Option, none, some, ok, ◌≡◌, refl, arith, inl, inr,
  ◌⊎◌, >>=-eq-ok, ok_eq, sym, ap, ◌∙◌, Bool-cases, Option-cases, require, str_eq, value_error,
  nat_eq,
}
use wyreplumber.Value.{Value, int, int_member, str, str_member}
use wyreplumber.Value.Checks.{lookup, as_text}
use wyreplumber.Value.Json.{mapping, freeze_json}
use wyreplumber.Builtins.{Builtins}
use wyreplumber.Model.Objects.{Node}
use wyreplumber.Model.Index.{get}
use wyreplumber.Model.Snapshot.{Snapshot}
use wyreplumber.Mutation.Request.{Request}
use wyreplumber.Mutation.Payload.{create-payload, pinned-payload}
use wyreplumber.Mutation.Execution.{World}
use wyreplumber.Mutation.Dispatch.{Allowed}
use wyreplumber.Controls.Metadata.{
  node_name, is_stream, node_of, non_empty, serial_text, stream_target_identity, serial_of,
  entry_payload, entry_predicates,
}
use wyreplumber.Controls.Defaults.{stream_of, stream_request, default_entry, set_stream_target}
use wyreplumber.Controls.Defaulting.{
  or_value_error-eq, require-eq, non_empty_lem, on_snapshot-Allowed,
}
use wyreplumber.Controls.Dispatched.{attempt->>=}
use package.wyreplumber.Controls.{Options, later, pipewire_identifier}

-- The class of the node is one of streams.
abbrev pub IsStream : Node → Type 0
IsStream n = (c : String) × (n.media_class ≡ some c) × (starts_with c "Stream/" ≡ true)

-- A name of the node that is not empty: its own, or its property `node.name`.
abbrev pub IsName : Node → String → Type 0
IsName n s =
    (str_eq s "" ≡ false)
    × ((n.name ≡ some s)
        ⊎ ((v : Value) × (lookup "node.name" n.properties ≡ some v) × (as_text v ≡ some s)))

module _ (py : Builtins) where
  -- The text of a serial number: a number that is not negative, or a text of digits.
  abbrev pub IsSerial : Value → String → Type 0
  IsSerial v s =
      ((k : ℕ) × ((v ≡ int (pos k)) ⊎ (v ≡ int_member (pos k))) × (s ≡ py.decimal k))
      ⊎ ((as_text v ≡ some s) × (py.is_decimal s ≡ true))

  abbrev pub HasSerial : Node → String → Type 0
  HasSerial n s = (v : Value) × (lookup "object.serial" n.properties ≡ some v) × IsSerial v s

  -- How metadata names a node: by its serial number, or, where it has none, by its name.
  abbrev pub Identifies : Node → (value type_name : String) → Type 0
  Identifies n value type_name =
      (HasSerial n value × (type_name ≡ "Spa:Id"))
      ⊎ (¬ ((s : String) × HasSerial n s) × IsName n value × (type_name ≡ "Spa:String"))

  non_empty-full :
      (o : Option String) (s : String) → non_empty o ≡ some s → (o ≡ some s) × (str_eq s "" ≡ false)
  non_empty-full none s h = absurd (ground (arith, h))
  non_empty-full (some t) s h = elim (Bool-cases (str_eq t "")) [
    | inl empty ↦ absurd (ground (arith, empty, h))
    | inr full ↦ (ground (arith, full, h), non_empty_lem (some t) s h)
  ]

  node_name-IsName : (n : Node) (s : String) → node_name n ≡ some s → IsName n s
  unfolding node_name
  node_name-IsName n s h = elim (Option-cases (non_empty n.name)) [
    | inr (t, own) ↦
        let (same, full) = non_empty-full n.name s (ground (arith, own, h)) in (full, inl same)
    | inl unnamed ↦ elim (Option-cases (lookup "node.name" n.properties)) [
      | inl missing ↦ absurd (ground (arith, unnamed, missing, h))
      | inr (v, found) ↦
          let (same, full) = non_empty-full (as_text v) s (ground (arith, unnamed, found, h)) in
          (full, inr (v, found, same))
    ]
  ]

  decimal_text :
      (t s : String) → serial_text py (str t) ≡ some s → (t ≡ s) × (py.is_decimal s ≡ true)
  decimal_text t s h = elim (Bool-cases (py.is_decimal t)) [
    | inl digits ↦ let same : t ≡ s = ground (arith, digits, h) in (same, rw (← same) digits)
    | inr other ↦ absurd (ground (arith, other, h))
  ]

  serial_text-IsSerial : (v : Value) (s : String) → serial_text py v ≡ some s → IsSerial v s
  serial_text-IsSerial (int (pos k)) s h = inl (k, inl refl, ground (arith, h))
  serial_text-IsSerial (int_member (pos k)) s h = inl (k, inr refl, ground (arith, h))
  serial_text-IsSerial (str t) s h =
      let (same, digits) = decimal_text t s h in inr (ap some same, digits)
  serial_text-IsSerial (str_member t) s h =
      let (same, digits) = decimal_text t s h in inr (ap some same, digits)
  serial_text-IsSerial _ s h = absurd (ground (arith, h))

  decimal-serial_text :
      (v : Value) (s : String)
      → as_text v ≡ some s
      → py.is_decimal s ≡ true
      → serial_text py v ≡ some s
  decimal-serial_text (str t) s same digits =
      let eq : t ≡ s = ground (arith, same) in rw (eq, digits) refl
  decimal-serial_text (str_member t) s same digits =
      let eq : t ≡ s = ground (arith, same) in rw (eq, digits) refl
  decimal-serial_text _ s same digits = absurd (ground (arith, same))

  IsSerial-serial_text : (v : Value) (s : String) → IsSerial v s → serial_text py v ≡ some s
  IsSerial-serial_text v s (inl (k, inl number, is)) = rw (number, is) refl
  IsSerial-serial_text v s (inl (k, inr number, is)) = rw (number, is) refl
  IsSerial-serial_text v s (inr (same, digits)) = decimal-serial_text v s same digits

  serial_of-HasSerial : (n : Node) (s : String) → serial_of py n ≡ some s → HasSerial n s
  serial_of-HasSerial n s h = elim (Option-cases (lookup "object.serial" n.properties)) [
    | inl missing ↦ absurd (ground (arith, missing, h))
    | inr (v, found) ↦ (v, found, serial_text-IsSerial v s (ground (arith, found, h)))
  ]

  HasSerial-serial_of : (n : Node) (s : String) → HasSerial n s → serial_of py n ≡ some s
  HasSerial-serial_of n s (v, found, is) = ground (arith, found, IsSerial-serial_text v s is)

  stream_target_identity-Identifies :
      (n : Node) (value type_name : String)
      → stream_target_identity py n ≡ ok (value, type_name)
      → Identifies n value type_name
  unfolding stream_target_identity
  stream_target_identity-Identifies n value type_name h = elim (Option-cases (serial_of py n)) [
    | inr (s, serial) ↦
        let same : (s ≡ value) × (type_name ≡ "Spa:Id") =
          (ground (arith, serial, h), ground (arith, serial, h)) in
        inl (serial_of-HasSerial n value (serial ∙ ap some same.0), same.1)
    | inl unnumbered ↦ elim (Option-cases (node_name n)) [
      | inl unnamed ↦ absurd (ground (arith, unnumbered, unnamed, h))
      | inr (s, named) ↦
          let same : s ≡ value = ground (arith, unnumbered, named, h) in
          inr (
            λ numbered. ground (arith, unnumbered, HasSerial-serial_of n numbered.0 numbered.1),
            node_name-IsName n value (named ∙ ap some same),
            ground (arith, unnumbered, named, h),
          )
    ]
  ]

  is_stream-IsStream : (n : Node) → is_stream n ≡ true → IsStream n
  is_stream-IsStream n h = elim (Option-cases n.media_class) [
    | inl none_given ↦ absurd (ground (arith, none_given, h))
    | inr (c, given) ↦ (c, given, ground (arith, given, h))
  ]

  stream_of-IsStream :
      (i : ℕ) (s : Snapshot) (stream : Node)
      → stream_of i s ≡ ok stream
      → IsStream stream × (get i s.nodes_by_id ≡ some stream)
  unfolding stream_of
  stream_of-IsStream i s stream h =
      let (n, found, after) = >>=-eq-ok (node_of i s) _ h in
      let (u, tested, done) = >>=-eq-ok (require (is_stream n) value_error) _ after in
      rw (← ok_eq done) (
        is_stream-IsStream n (require-eq _ _ u tested),
        or_value_error-eq (get i s.nodes_by_id) n found,
      )

  stream_request-Identifies :
      (fresh : String) (clock : ℕ) (s : Snapshot) (stream_id target_id : Value) (options : Options)
      (r : Request)
      → stream_request py fresh clock s stream_id target_id options ≡ ok r
      → (i : ℕ) × (j : ℕ) × (stream : Node) × (n : Node) × (value : String) × (type_name : String)
        × (pipewire_identifier stream_id ≡ ok i)
        × (pipewire_identifier target_id ≡ ok j)
        × (get i s.nodes_by_id ≡ some stream)
        × IsStream stream
        × (get j s.nodes_by_id ≡ some n)
        × Identifies n value type_name
        × (r.payload ≡ entry_payload (str value) (str type_name))
  unfolding stream_request mapping freeze_json
  stream_request-Identifies fresh clock s stream_id target_id options r made =
      let (i, a, after_a) = >>=-eq-ok (pipewire_identifier stream_id) _ made in
      let (j, b, after_b) = >>=-eq-ok (pipewire_identifier target_id) _ after_a in
      let (stream, c, after_c) = >>=-eq-ok (stream_of i s) _ after_b in
      let (n, found, after_n) = >>=-eq-ok (node_of j s) _ after_c in
      let ((value, type_name), identified, after_identity) =
        >>=-eq-ok (stream_target_identity py n) _ after_n in
      let (target, _, after_target) =
        >>=-eq-ok (default_entry s stream_id (str "target.object")) _ after_identity in
      let (predicates, _, requested) =
        >>=-eq-ok (entry_predicates py target (str value) (str type_name)) _ after_target in
      let (streamed, has_stream) = stream_of-IsStream i s stream c in
      (
        i,
        j,
        stream,
        n,
        value,
        type_name,
        a,
        b,
        has_stream,
        streamed,
        or_value_error-eq (get j s.nodes_by_id) n found,
        stream_target_identity-Identifies n value type_name identified,
        sym (ok_eq (create-payload py fresh clock _ r requested)),
      )

module _ (py : Builtins) (w : World) (fuel : ℕ) (fresh : String) where
  -- Setting a stream's target dispatches at most one request, and only when the captured snapshot has
  -- the stream's node, whose class begins with `Stream/`, and the target's node, which the payload of
  -- the request identifies, by its serial number, or, if it has none, by its name, which is not empty;
  -- and when `_execute_confirmed_mutation` allows the dispatch from that snapshot.
  pub set_stream_target-Allowed :
      (stream_id target_id : Value) (options : Options) (d : Request) (ds : List Request)
      → (set_stream_target py w fuel fresh stream_id target_id options).dispatched ≡ d ∷ ds
      → (ds ≡ [])
        × (i : ℕ) × (j : ℕ) × (s : Snapshot) × (stream : Node) × (n : Node) × (value : String)
        × (type_name : String) × (r : Request) × (pipewire_identifier stream_id ≡ ok i)
        × (pipewire_identifier target_id ≡ ok j)
        × (w.capture 0 ≡ ok s)
        × (get i s.nodes_by_id ≡ some stream)
        × IsStream stream
        × (get j s.nodes_by_id ≡ some n)
        × Identifies py n value type_name
        × (d.payload ≡ entry_payload (str value) (str type_name))
        × (stream_request py fresh (w.clock 1) s stream_id target_id options ≡ ok r)
        × Allowed py (later 2 w) 1 r s d
  unfolding set_stream_target
  set_stream_target-Allowed stream_id target_id options d ds h =
      let (_, _, rest) = attempt->>= (pipewire_identifier stream_id) _ d ds h in
      let (_, _, rest₁) = attempt->>= (pipewire_identifier target_id) _ d ds rest in
      let (only, s, r, captured, made, allowed) =
        on_snapshot-Allowed py w fuel fresh
          (λ s. stream_request py fresh (w.clock 1) s stream_id target_id options) d ds rest₁ in
      let (
        i, j, stream, n, value, type_name, a, b, has_stream, streamed, has_target, names, payload,
      ) =
        stream_request-Identifies py fresh (w.clock 1) s stream_id target_id options r made in
      (
        only,
        i,
        j,
        s,
        stream,
        n,
        value,
        type_name,
        r,
        a,
        b,
        captured,
        has_stream,
        streamed,
        has_target,
        names,
        pinned-payload py (later 2 w) r d s allowed.pinned_to ∙ payload,
        made,
        allowed,
      )
