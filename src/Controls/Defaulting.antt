-- ===== src/Controls/Defaulting.antt =====
-- When the metadata controls of controls.py that read a snapshot first dispatch anything.
use wyreplumber.Prelude.{
  ℕ, String, Bool, true, false, List, [], ◌∷◌, Option, none, some, Result, ok, ◌≡◌, refl, arith,
  inl, inr, ◌⊎◌, ap, >>=-eq-ok, ok_eq, Bool-cases, Option-cases, require, str_eq, str_eq_iff,
  value_error, Error, nat_eq,
}
use wyreplumber.Value.{Value}
use wyreplumber.Value.Checks.{lookup, as_text}
use wyreplumber.Builtins.{Builtins}
use wyreplumber.Model.Objects.{Node}
use wyreplumber.Model.Index.{get}
use wyreplumber.Model.Snapshot.{Snapshot}
use wyreplumber.Mutation.Request.{Request}
use wyreplumber.Mutation.Execution.{World}
use wyreplumber.Mutation.Dispatch.{Allowed}
use wyreplumber.Controls.Metadata.{
  node_name, default_node_metadata, class_or, same_class, or_value_error, node_of, non_empty,
}
use wyreplumber.Controls.Defaults.{
  DefaultNode, default_node, default_request, on_snapshot, set_default_node,
}
use wyreplumber.Controls.Dispatched.{attempt->>=, preflight-Allowed}
use package.wyreplumber.Controls.{Options, later, pipewire_identifier}

pub or_value_error-eq : {A : Type 0} (o : Option A) (a : A) → or_value_error o ≡ ok a → o ≡ some a
or_value_error-eq none a h = absurd (ground (arith, h))
or_value_error-eq (some b) a h = ground (arith, h)

pub require-eq : (test : Bool) (e : Error) (u : Unit {0}) → require test e ≡ ok u → test ≡ true
require-eq true e u h = refl
require-eq false e u h = absurd (ground (arith, h))

pub non_empty_lem : (o : Option String) (s : String) → non_empty o ≡ some s → str_eq s "" ≡ false
non_empty_lem none s h = absurd (ground (arith, h))
non_empty_lem (some t) s h = elim (Bool-cases (str_eq t "")) [
  | inl empty ↦ absurd (ground (arith, empty, h))
  | inr full ↦ let same : t ≡ s = ground (arith, full, h) in rw (← same) full
]

node_name_lem : (n : Node) (s : String) → node_name n ≡ some s → str_eq s "" ≡ false
unfolding node_name
node_name_lem n s h = elim (Option-cases (non_empty n.name)) [
  | inr (t, own) ↦ non_empty_lem n.name s (ground (arith, own, h))
  | inl unnamed ↦ elim (Option-cases (lookup "node.name" n.properties)) [
    | inl missing ↦ absurd (ground (arith, unnamed, missing, h))
    | inr (v, found) ↦ non_empty_lem (as_text v) s (ground (arith, unnamed, found, h))
  ]
]

-- A node that may become a default: its class is the one asked for and has a default, and its name is
-- not empty.
pub record IsDefaultable (n : Node) (given : Option String) (dn : DefaultNode) : Type 0 where
  pub media_class : String
  pub own_class : n.media_class ≡ some media_class
  pub selected : class_or given n.media_class ≡ some media_class
  pub asked : (given ≡ none) ⊎ ((given ≡ some "") ⊎ (given ≡ some media_class))
  pub known : default_node_metadata media_class ≡ some (dn.defaults_field, dn.key)
  pub named : node_name n ≡ some dn.name
  pub not_empty : str_eq dn.name "" ≡ false

same_class-eq : (o : Option String) (c : String) → same_class o c ≡ true → o ≡ some c
same_class-eq none c h = absurd (ground (arith, h))
same_class-eq (some d) c h = ground (arith, (str_eq_iff d c).0 h)

class_or_lem :
    (given own : Option String) (c : String)
    → class_or given own ≡ some c
    → (given ≡ none) ⊎ ((given ≡ some "") ⊎ (given ≡ some c))
class_or_lem none own c h = inl refl
class_or_lem (some t) own c h = elim (Bool-cases (str_eq t "")) [
  | inl empty ↦ inr (inl (ap some ((str_eq_iff t "").0 empty)))
  | inr full ↦ inr (inr (ground (arith, full, h)))
]

default_node-IsDefaultable :
    (n : Node) (given : Option String) (dn : DefaultNode)
    → default_node n given ≡ ok dn
    → IsDefaultable n given dn
unfolding default_node
default_node-IsDefaultable n given dn h =
    let (c, a, after_a) = >>=-eq-ok (or_value_error (class_or given n.media_class)) _ h in
    let (entry, b, after_b) = >>=-eq-ok (or_value_error (default_node_metadata c)) _ after_a in
    let (u, same, after_c) =
      >>=-eq-ok (require (same_class n.media_class c) value_error) _ after_b in
    let (name, named, done) = >>=-eq-ok (or_value_error (node_name n)) _ after_c in
    rw (← ok_eq done) (record {
      media_class = c;
      own_class = same_class-eq n.media_class c (require-eq _ _ u same);
      selected = or_value_error-eq _ c a;
      asked = class_or_lem given n.media_class c (or_value_error-eq _ c a);
      known = or_value_error-eq _ entry b;
      named = or_value_error-eq _ name named;
      not_empty = node_name_lem n name (or_value_error-eq _ name named);
    })

module _ (py : Builtins) (w : World) (fuel : ℕ) (fresh : String) where
  pub on_snapshot-Allowed :
      (make : Snapshot → Result Request) (d : Request) (ds : List Request)
      → (on_snapshot py w fuel fresh make).dispatched ≡ d ∷ ds
      → (ds ≡ [])
        × (s : Snapshot) × (r : Request) × (w.capture 0 ≡ ok s)
        × (make s ≡ ok r)
        × Allowed py (later 2 w) 1 r s d
  unfolding on_snapshot
  on_snapshot-Allowed make d ds h =
      let (s, captured, after) = attempt->>= (w.capture 0) _ d ds h in
      let (r, made, executed) = attempt->>= (make s) _ d ds after in
      let (only, allowed) = preflight-Allowed py (later 2 w) fuel s r d ds executed in
      (only, s, r, captured, made, allowed)

  -- Setting a default dispatches at most one request, and only for a node that the captured snapshot
  -- has under the id, whose class is the one asked for, where one is, and has a default, and whose
  -- name is not empty, when `_execute_confirmed_mutation` allows the dispatch from that snapshot.
  pub set_default_node-IsDefaultable :
      (node_id : Value) (given : Option String) (options : Options) (d : Request)
      (ds : List Request)
      → (set_default_node py w fuel fresh node_id given options).dispatched ≡ d ∷ ds
      → (ds ≡ [])
        × (i : ℕ) × (s : Snapshot) × (n : Node) × (dn : DefaultNode) × (r : Request)
        × (pipewire_identifier node_id ≡ ok i)
        × (w.capture 0 ≡ ok s)
        × (get i s.nodes_by_id ≡ some n)
        × (default_request py fresh (w.clock 1) s node_id given options ≡ ok r)
        × IsDefaultable n given dn
        × Allowed py (later 2 w) 1 r s d
  unfolding set_default_node default_request
  set_default_node-IsDefaultable node_id given options d ds h =
      let (i, identified, rest) = attempt->>= (pipewire_identifier node_id) _ d ds h in
      let (only, s, r, captured, made, allowed) =
        on_snapshot-Allowed (λ s. default_request py fresh (w.clock 1) s node_id given options) d ds
          rest in
      let (j, again, after_i) = >>=-eq-ok (pipewire_identifier node_id) _ made in
      let (n, found, after_n) = >>=-eq-ok (node_of j s) _ after_i in
      let (dn, checked, _) = >>=-eq-ok (default_node n given) _ after_n in
      (
        only,
        j,
        s,
        n,
        dn,
        r,
        again,
        captured,
        or_value_error-eq (get j s.nodes_by_id) n found,
        made,
        default_node-IsDefaultable n given dn checked,
        allowed,
      )
