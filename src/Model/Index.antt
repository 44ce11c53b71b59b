-- ===== src/Model/Index.antt =====
-- `_unique_index` of src/wyreplumber/runtime/models.py: a dictionary by key, or a ValueError on the
-- first duplicate.
use mathlib.Core.List.{append-nil, append_assoc}
use wyreplumber.Prelude.{
  Bool, true, false, not, ◌&&◌, ◌||◌, List, [], ◌∷◌, ◌++◌, map, Option, none, some, Result, ok, err,
  value_error, ◌≡◌, refl, arith, Eq, ◌===◌, if◌then◌else◌,
}

module _ {ℓ κ} {K : Type ℓ} ⦃e : Eq K⦄ {V : Type κ} where
  -- `index.get(key)`
  unfoldable pub get : K → List (K × V) → Option V
  get k [] = none
  get k ((j, v) ∷ m) = if j === k then some v else get k m

  -- `key in index`
  unfoldable pub has : K → List (K × V) → Bool
  unfolding get
  has k m = elim (get k m) [ none ↦ false | some v ↦ true ]

  -- The loop of `_unique_index`, from the dictionary built so far.
  unfoldable pub index_from : (V → K) → List (K × V) → List V → Result (List (K × V))
  index_from key built [] = ok built
  index_from key built (v ∷ vs) =
      let rest = index_from key (built ++ (key v, v) ∷ []) vs in
      if has (key v) built then err value_error else rest

  unfoldable pub unique_index : (V → K) → List V → Result (List (K × V))
  unfolding index_from
  unique_index key = index_from key []

  -- Whether a value of the list has the key.
  unfoldable pub occurs : (V → K) → K → List V → Bool
  occurs key k [] = false
  occurs key k (v ∷ vs) = k === key v || occurs key k vs

  -- Whether no two values have one key.
  unfoldable pub distinct : (V → K) → List V → Bool
  unfolding occurs
  distinct key [] = true
  distinct key (v ∷ vs) = not (occurs key (key v) vs) && distinct key vs

  -- Linear search.
  unfoldable pub find : (V → K) → K → List V → Option V
  find key k [] = none
  find key k (v ∷ vs) = if key v === k then some v else find key k vs

  clashes : (V → K) → List (K × V) → List V → Bool
  unfolding has
  clashes key built [] = false
  clashes key built (v ∷ vs) = has (key v) built || clashes key built vs

  has-append :
      (k j : K) (w : V) (m : List (K × V)) → has k (m ++ (j, w) ∷ []) ≡ (has k m || j === k)
  unfolding has
  has-append k j w [] = ground arith
  has-append k j w ((i, v) ∷ m) = ground (arith, has-append k j w m)

  clashes-append :
      (key : V → K) (j : K) (w : V) (built : List (K × V)) (vs : List V)
      → clashes key (built ++ (j, w) ∷ []) vs ≡ (clashes key built vs || occurs key j vs)
  unfolding clashes occurs
  clashes-append key j w built [] = refl
  clashes-append key j w built (v ∷ vs) =
      ground (arith, has-append (key v) j w built, clashes-append key j w built vs)

  abbrev pub entries : (V → K) → List V → List (K × V)
  entries key vs = map (λ v. (key v, v)) vs

  index_from_lem :
      (key : V → K) (built : List (K × V)) (vs : List V)
      → index_from key built vs ≡ (
          if distinct key vs && not (clashes key built vs)
          then ok (built ++ entries key vs)
          else err value_error)
  unfolding index_from distinct clashes
  index_from_lem key built [] = rw (append-nil built)
  index_from_lem key built (v ∷ vs) =
      rw
        (
          index_from_lem key (built ++ (key v, v) ∷ []) vs,
          clashes-append key (key v) v built vs,
          append_assoc built ((key v, v) ∷ []) (entries key vs),
        )
        (ground arith)

  -- No value clashes with the empty dictionary.
  clashes-nil : (key : V → K) (vs : List V) → clashes key [] vs ≡ false
  unfolding clashes
  clashes-nil key [] = refl
  clashes-nil key (v ∷ vs) = clashes-nil key vs

  -- The index exists exactly when no key occurs twice, and holds the values in order, each under
  -- its key; otherwise the constructor raises ValueError.
  pub unique_index_lem :
      (key : V → K) (vs : List V)
      → unique_index key vs ≡ (if distinct key vs then ok (entries key vs) else err value_error)
  unfolding unique_index
  unique_index_lem key vs = rw (index_from_lem key [] vs, clashes-nil key vs) (ground arith)

  -- A read of the index is a search of the values.
  pub get-entries : (key : V → K) (k : K) (vs : List V) → get k (entries key vs) ≡ find key k vs
  unfolding get find
  get-entries key k [] = refl
  get-entries key k (v ∷ vs) = ground (arith, get-entries key k vs)
