-- ===== src/Controls/Claims.antt =====
-- What the searches of the managed link controls (controls.py) find: the links that carry an identity,
-- and the links that join given endpoints.
use wyreplumber.Prelude.{
  String, Bool, true, false, ◌&&◌, Option, none, some, List, [], ◌∷◌, ◌++◌, All, Bool-cases,
  Option-cases, sym, ◌≡◌, refl, ap, ◌∙◌, arith, inl, inr, str_eq, str_eq_iff, if◌then◌else◌,
}
use wyreplumber.Model.Objects.{Link}
use wyreplumber.Mutation.Observation.{link_of}
use wyreplumber.Controls.Links.{Endpoints, link_has_endpoints, same_topology}

-- The link has this owner and this desired id.
abbrev pub Carries : (owner desired_id : String) → Link → Type 0
Carries owner desired_id l = (l.owner ≡ some owner) × (l.desired_id ≡ some desired_id)

-- The link runs from the output port of the endpoints to their input port, on their nodes.
abbrev pub Joins : Endpoints → Link → Type 0
Joins e l =
    (l.output_node_id ≡ e.output_node_id)
    × (l.output_port_id ≡ e.output_port_id)
    × (l.input_node_id ≡ e.input_node_id)
    × (l.input_port_id ≡ e.input_port_id)

-- No element has the property.
abbrev pub NoneOf {ℓ} : {A : Type ℓ} → (A → Type 0) → List A → Type 0
NoneOf P xs = All (λ x. ¬ P x) xs

-- The element has the property, and no other of the list does.
abbrev pub OnlyOf {ℓ} : {A : Type ℓ} → (A → Type 0) → List A → A → Type ℓ
OnlyOf {A = A} P xs x =
    (before : List A) × (after : List A) × (xs ≡ before ++ x ∷ after)
    × P x
    × NoneOf P before
    × NoneOf P after

module _ (P : Link → Type 0) (test : Link → Bool) where
  abbrev kept : List Link → List Link
  kept [] = []
  kept (l ∷ ls) = let rest = kept ls in if test l then l ∷ rest else rest

  module _ (sound : (l : Link) → test l ≡ true → P l)
      (full : (l : Link) → P l → test l ≡ true) where
    refuted : (l : Link) → test l ≡ false → ¬ P l
    refuted l failed holds = ground (arith, failed, full l holds)

    kept-none : (ls : List Link) → kept ls ≡ [] → NoneOf P ls
    kept-none [] h = tt
    kept-none (l ∷ ls) h = elim (Bool-cases (test l)) [
      | inl passed ↦ absurd (ground (arith, passed, h))
      | inr failed ↦ (refuted l failed, kept-none ls (ground (arith, failed, h)))
    ]

    kept-single : (ls : List Link) (m : Link) → kept ls ≡ m ∷ [] → OnlyOf P ls m
    kept-single [] m h = absurd (ground (arith, h))
    kept-single (l ∷ ls) m h = elim (Bool-cases (test l)) [
      | inl passed ↦
          let same : l ≡ m = ground (arith, passed, h) in
          let rest : kept ls ≡ [] = ground (arith, passed, h) in
          rw (← same) ([], ls, refl, sound l passed, tt, kept-none ls rest)
      | inr failed ↦
          let (before, after, split, holds, none_before, none_after) =
            kept-single ls m (ground (arith, failed, h)) in
          (
            l ∷ before,
            after,
            ap (λ rest. l ∷ rest) split,
            holds,
            (refuted l failed, none_before),
            none_after,
          )
    ]

abbrev is_this : String → Option String → Bool
is_this s none = false
is_this s (some t) = str_eq s t

is_this-eq : (s : String) (o : Option String) → is_this s o ≡ true → o ≡ some s
is_this-eq s none h = absurd (ground (arith, h))
is_this-eq s (some t) h = ground (arith, (str_eq_iff s t).0 h)

is_this_refl : (s : String) (o : Option String) → o ≡ some s → is_this s o ≡ true
is_this_refl s o h = rw h ((str_eq_iff s s).1 refl)

module _ (owner desired_id : String) where
  abbrev carries : Link → Bool
  carries l = is_this owner l.owner && is_this desired_id l.desired_id

  carries-Carries : (l : Link) → carries l ≡ true → Carries owner desired_id l
  carries-Carries l h = (
    is_this-eq owner l.owner (ground (arith, h)),
    is_this-eq desired_id l.desired_id (ground (arith, h)),
  )

  Carries-carries : (l : Link) → Carries owner desired_id l → carries l ≡ true
  Carries-carries l h =
      ground (arith, is_this_refl owner l.owner h.0, is_this_refl desired_id l.desired_id h.1)

  link_of-kept :
      (ls : List Link) → link_of owner desired_id ls ≡ kept (Carries owner desired_id) carries ls
  unfolding link_of
  link_of-kept [] = refl
  link_of-kept (l ∷ ls) = elim (Option-cases l.owner) [
    | inl unowned ↦ ground (arith, unowned, link_of-kept ls)
    | inr (o, owned) ↦ elim (Option-cases l.desired_id) [
      | inl unnamed ↦ ground (arith, owned, unnamed, link_of-kept ls)
      | inr (d, named) ↦ ground (arith, owned, named, link_of-kept ls)
    ]
  ]

  pub link_of-none :
      (ls : List Link) → link_of owner desired_id ls ≡ [] → NoneOf (Carries owner desired_id) ls
  link_of-none ls h =
      kept-none (Carries owner desired_id) carries carries-Carries Carries-carries ls
        (sym (link_of-kept ls) ∙ h)

  pub link_of-single :
      (ls : List Link) (m : Link)
      → link_of owner desired_id ls ≡ m ∷ []
      → OnlyOf (Carries owner desired_id) ls m
  link_of-single ls m h =
      kept-single (Carries owner desired_id) carries carries-Carries Carries-carries ls m
        (sym (link_of-kept ls) ∙ h)

module _ (e : Endpoints) where
  pub link_has_endpoints-Joins : (l : Link) → link_has_endpoints l e ≡ true → Joins e l
  unfolding link_has_endpoints
  link_has_endpoints-Joins l h =
      (ground (arith, h), ground (arith, h), ground (arith, h), ground (arith, h))

  Joins-link_has_endpoints : (l : Link) → Joins e l → link_has_endpoints l e ≡ true
  unfolding link_has_endpoints
  Joins-link_has_endpoints l h = let (a, b, c, d) = h in ground (arith, a, b, c, d)

  same_topology-kept :
      (ls : List Link) → same_topology e ls ≡ kept (Joins e) (λ l. link_has_endpoints l e) ls
  unfolding same_topology
  same_topology-kept [] = refl
  same_topology-kept (l ∷ ls) = ground (arith, same_topology-kept ls)

  pub same_topology-none : (ls : List Link) → same_topology e ls ≡ [] → NoneOf (Joins e) ls
  same_topology-none ls h =
      kept-none (Joins e) (λ l. link_has_endpoints l e) link_has_endpoints-Joins
        Joins-link_has_endpoints ls (sym (same_topology-kept ls) ∙ h)
