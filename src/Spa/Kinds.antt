-- ===== src/Spa/Kinds.antt =====
-- The type numbers of SPA pods (the SPA_TYPE_ constants of src/wyreplumber/_spa_pod_types.py).
use wyreplumber.Prelude.{
  ℕ, Option, none, some, List, [], ◌∷◌, ◌==◌, if◌then◌else◌, ◌≡◌, refl, ◌<◌, arith,
}

pub data PodKind : Type 0 where
  none_kind bool_kind id_kind int_kind long_kind float_kind double_kind string_kind bytes_kind :
      PodKind
  rectangle_kind fraction_kind bitmap_kind array_kind struct_kind object_kind sequence_kind :
      PodKind
  pointer_kind fd_kind choice_kind pod_kind : PodKind

abbrev pub kind_number : PodKind → ℕ
kind_number none_kind = 1
kind_number bool_kind = 2
kind_number id_kind = 3
kind_number int_kind = 4
kind_number long_kind = 5
kind_number float_kind = 6
kind_number double_kind = 7
kind_number string_kind = 8
kind_number bytes_kind = 9
kind_number rectangle_kind = 10
kind_number fraction_kind = 11
kind_number bitmap_kind = 12
kind_number array_kind = 13
kind_number struct_kind = 14
kind_number object_kind = 15
kind_number sequence_kind = 16
kind_number pointer_kind = 17
kind_number fd_kind = 18
kind_number choice_kind = 19
kind_number pod_kind = 20

abbrev kinds : List PodKind
kinds =
    none_kind ∷ bool_kind ∷ id_kind ∷ int_kind ∷ long_kind ∷ float_kind ∷ double_kind ∷ string_kind
    ∷ bytes_kind ∷ rectangle_kind ∷ fraction_kind ∷ bitmap_kind ∷ array_kind ∷ struct_kind
    ∷ object_kind ∷ sequence_kind ∷ pointer_kind ∷ fd_kind ∷ choice_kind ∷ pod_kind ∷ []

abbrev search_kind : ℕ → List PodKind → Option PodKind
search_kind n [] = none
search_kind n (k ∷ ks) = if kind_number k == n then some k else search_kind n ks

-- The type that a number names, if the codec knows it.
unfoldable pub kind_of : ℕ → Option PodKind
kind_of n = search_kind n kinds

pub kind_of-kind_number : (k : PodKind) → kind_of (kind_number k) ≡ some k
unfolding kind_of
kind_of-kind_number k = elim k as (λ k. kind_of (kind_number k) ≡ some k) [
  | none_kind ↦ refl
  | _ ↦ refl
]

pub kind_number-Bounded : (k : PodKind) → kind_number k < 4294967296
kind_number-Bounded k = grind arith
