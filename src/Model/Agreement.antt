-- ===== src/Model/Agreement.antt =====
-- `_find_unresolved_relationships` is right in both directions, and so is `is_coherent`.
use wyreplumber.Prelude.{
  ℕ, List, [], ◌∷◌, true, some, ◌≡◌, refl, sym, ◌∙◌, ◌↔◌, nat_eq, string_eq, pair_eq, arith, ok,
}
use wyreplumber.Builtins.{Builtins}
use wyreplumber.Model.Contents.{Contents}
use wyreplumber.Model.Relations.{
  device_missing, node_missing, port_missing, link_missing, profile_missing, route_missing,
  parameter_missing, defaults_missing, find_unresolved,
}
use wyreplumber.Model.Resolves.{Found, append-eq-nil, collect-All, DefaultResolves, Resolves}
use wyreplumber.Model.Converse.{everything_found}
use wyreplumber.Model.Snapshot.{Snapshot, SnapshotFields, runtime_snapshot, is_coherent, is_empty}
use wyreplumber.Model.Coherence.{
  device_resolves, node_resolves, port_resolves, link_resolves, profile_resolves, route_resolves,
  parameter_resolves, default_resolves, metadata_resolves,
}

-- The list that the code computes is empty exactly when everything resolves: forward.
module _ (c : Contents) (py : Builtins) where
  defaults_resolve :
      defaults_missing c ≡ []
      → DefaultResolves c c.defaults.audio_sink
        × (DefaultResolves c c.defaults.audio_source
            × (DefaultResolves c c.defaults.video_source
                × ((m : ℕ) → c.defaults.metadata_id ≡ some m → Found m c.metadata_by_id)))
  unfolding defaults_missing
  defaults_resolve h =
      let (sink, h₁) = append-eq-nil _ _ h in
      let (source, h₂) = append-eq-nil _ _ h₁ in
      let (video, meta) = append-eq-nil _ _ h₂ in
      (
        default_resolves c "audio_sink" c.defaults.audio_sink sink,
        (
          default_resolves c "audio_source" c.defaults.audio_source source,
          (
            default_resolves c "video_source" c.defaults.video_source video,
            metadata_resolves c c.defaults.metadata_id meta,
          ),
        ),
      )

  pub nothing_missing : find_unresolved c py ≡ [] → Resolves c
  unfolding find_unresolved
  nothing_missing h =
      let (ds, h₁) = append-eq-nil _ _ h in
      let (ns, h₂) = append-eq-nil _ _ h₁ in
      let (ps, h₃) = append-eq-nil _ _ h₂ in
      let (ls, h₄) = append-eq-nil _ _ h₃ in
      let (fs, h₅) = append-eq-nil _ _ h₄ in
      let (rs, h₆) = append-eq-nil _ _ h₅ in
      let (qs, d) = append-eq-nil _ _ h₆ in
      record {
        devices = collect-All (device_missing c) (device_resolves c) c.devices ds;
        nodes = collect-All (node_missing c) (node_resolves c) c.nodes ns;
        ports = collect-All (port_missing c) (port_resolves c) c.ports ps;
        links = collect-All (link_missing c) (link_resolves c) c.links ls;
        profiles = collect-All (profile_missing c) (profile_resolves c) c.profiles fs;
        routes = collect-All (route_missing c) (route_resolves c) c.routes rs;
        parameters = collect-All (parameter_missing c py) (parameter_resolves c py) c.parameters qs;
        audio_sink = (defaults_resolve d).0;
        audio_source = (defaults_resolve d).1.0;
        video_source = (defaults_resolve d).1.1.0;
        metadata = (defaults_resolve d).1.1.1;
      }

made_from :
    (py : Builtins) (args : SnapshotFields) (s : Snapshot)
    → runtime_snapshot py args ≡ ok s
    → s.unresolved_relationships ≡ find_unresolved s.contents py
unfolding runtime_snapshot
made_from py args s h = ground arith

empty_iff {ℓ} : {A : Type ℓ} (xs : List A) → (is_empty xs ≡ true) ↔ (xs ≡ [])
empty_iff [] = (λ h. refl, λ h. refl)
empty_iff (x ∷ xs) = (λ h. cc, λ h. cc)

-- A snapshot that the constructor returns is coherent exactly when each relationship of each of its
-- objects and defaults leads to an object of the snapshot, and each port that a node or a link names
-- is of the node and the direction that it is named for.
pub is_coherent_iff :
    (py : Builtins) (args : SnapshotFields) (s : Snapshot)
    → runtime_snapshot py args ≡ ok s
    → (is_coherent s ≡ true) ↔ Resolves s.contents
unfolding is_coherent
is_coherent_iff py args s made =
    let computed = made_from py args s made in
    let (empty, conversely) = empty_iff s.unresolved_relationships in
    (
      λ h. nothing_missing s.contents py (sym computed ∙ empty h),
      λ r. conversely (computed ∙ everything_found s.contents py r),
    )
