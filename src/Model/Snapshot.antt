-- ===== src/Model/Snapshot.antt =====
-- `RuntimeSnapshot` of src/wyreplumber/runtime/models.py: its constructor.
use wyreplumber.Prelude.{
  ℕ, String, Bool, true, false, ◌&&◌, ◌||◌, List, [], ◌∷◌, Result, ok, value_error, ◌>>=◌, ◌>>◌,
  require, ◌==◌, str_eq,
}
use wyreplumber.Value.{Value}
use wyreplumber.Value.Checks.{Identity, id, name, identifier}
use wyreplumber.Builtins.{Builtins, timestamp}
use wyreplumber.Model.Objects.{ConnectionHealth}
use wyreplumber.Model.Contents.{Collections, Contents, index_collections}
use wyreplumber.Model.Relations.{Unresolved, find_unresolved}

pub record Snapshot : Type 0 where
  pub generation : ℕ
  pub sequence : ℕ
  pub captured_at : String
  pub health : ConnectionHealth
  pub contents : Contents
  pub open contents use *
  pub unresolved_relationships : List Unresolved

pub record SnapshotFields : Type 0 where
  pub generation : Value
  pub sequence : Value
  pub captured_at : Value
  pub health : ConnectionHealth
  pub collections : Collections
  pub unresolved_relationships : List Unresolved

same_identity : Identity → Identity → Bool
same_identity (id a) (id b) = a == b
same_identity (name a) (name b) = str_eq a b
same_identity _ _ = false

same_unresolved : Unresolved → Unresolved → Bool
unfolding same_identity
same_unresolved a b =
    str_eq a.source_type b.source_type
    && (same_identity a.source_id b.source_id
        && (str_eq a.relation b.relation
            && (str_eq a.target_type b.target_type
                && (same_identity a.target_id b.target_id && str_eq a.reason b.reason))))

same_list : List Unresolved → List Unresolved → Bool
unfolding same_unresolved
same_list [] [] = true
same_list (a ∷ us) (b ∷ bs) = same_unresolved a b && same_list us bs
same_list _ _ = false

abbrev pub is_empty {ℓ} : {A : Type ℓ} → List A → Bool
is_empty [] = true
is_empty (x ∷ xs) = false

-- `RuntimeSnapshot.__post_init__`
unfoldable pub runtime_snapshot : Builtins → SnapshotFields → Result Snapshot
unfolding same_list
runtime_snapshot py args = do
  generation ← identifier args.generation
  sequence ← identifier args.sequence
  captured_at ← timestamp py args.captured_at
  require (args.health.generation == generation) value_error
  contents ← index_collections args.collections
  let computed = find_unresolved contents py
  require
      (is_empty args.unresolved_relationships || same_list args.unresolved_relationships computed)
      value_error
  ok (record {
    generation = generation;
    sequence = sequence;
    captured_at = captured_at;
    health = args.health;
    contents = contents;
    unresolved_relationships = computed;
  })

-- `is_coherent`
unfoldable pub is_coherent : Snapshot → Bool
is_coherent s = is_empty s.unresolved_relationships
