-- ===== src/Spa/Entries.antt =====
-- Python's dictionaries as Spa/Datum has them: what a change of one key leaves.
use wyreplumber.Prelude.{
  pos, negsuc, Bool, true, false, Bool-cases, Option, none, some, inl, inr, ◌⊎◌, ◌≡◌, refl, sym, ap,
  ◌∙◌, str_eq_iff, ==_iff, if_true, if_false,
}
use wyreplumber.Value.{Key, text, number}
use wyreplumber.Spa.Datum.{Datum, Entries, end, entry, key_eq, lookup, holds, put, remove}

key_eq-eq : (a b : Key) → key_eq a b ≡ true → a ≡ b
key_eq-eq (text a) (text b) h = ap (λ s. text s) ((str_eq_iff a b).0 h)
key_eq-eq (number (pos a)) (number (pos b)) h = ap (λ n. number (pos n)) ((==_iff a b).0 h)
key_eq-eq (number (negsuc a)) (number (negsuc b)) h = ap (λ n. number (negsuc n)) ((==_iff a b).0 h)
key_eq-eq (number (pos a)) (number (negsuc b)) h = cc
key_eq-eq (number (negsuc a)) (number (pos b)) h = cc
key_eq-eq (text a) (number b) h = cc
key_eq-eq (number a) (text b) h = cc

key_eq_refl : (k : Key) → key_eq k k ≡ true
key_eq_refl (text a) = (str_eq_iff a a).1 refl
key_eq_refl (number (pos a)) = (==_iff a a).1 refl
key_eq_refl (number (negsuc a)) = (==_iff a a).1 refl

pub lookup-head :
    (k j : Key) (v : Datum) (es : Entries) → key_eq j k ≡ true → lookup k (entry j v es) ≡ some v
lookup-head k j v es t = if_true (key_eq j k) (some v) (lookup k es) t

pub lookup-tail :
    (k j : Key) (v : Datum) (es : Entries)
    → key_eq j k ≡ false
    → lookup k (entry j v es) ≡ lookup k es
lookup-tail k j v es f = if_false (key_eq j k) (some v) (lookup k es) f

put-head :
    (k j : Key) (v w : Datum) (es : Entries)
    → key_eq j k ≡ true
    → put k v (entry j w es) ≡ entry j v es
put-head k j v w es t = if_true (key_eq j k) (entry j v es) (entry j w (put k v es)) t

pub put-tail :
    (k j : Key) (v w : Datum) (es : Entries)
    → key_eq j k ≡ false
    → put k v (entry j w es) ≡ entry j w (put k v es)
put-tail k j v w es f = if_false (key_eq j k) (entry j v es) (entry j w (put k v es)) f

pub lookup-put : (k : Key) (v : Datum) (es : Entries) → lookup k (put k v es) ≡ some v
lookup-put k v end = lookup-head k k v end (key_eq_refl k)
lookup-put k v (entry j w es) = elim (Bool-cases (key_eq j k)) [
  | inl t ↦ ap (lookup k) (put-head k j v w es t) ∙ lookup-head k j v es t
  | inr f ↦
      ap (lookup k) (put-tail k j v w es f) ∙ lookup-tail k j w (put k v es) f ∙ lookup-put k v es
]

abbrev pub there : Option Datum → Bool
there o = elim o [ none ↦ false | some v ↦ true ]

-- Other keys are as they were.
pub lookup-put-other :
    (j k : Key) (v : Datum) (es : Entries)
    → key_eq j k ≡ false
    → lookup k (put j v es) ≡ lookup k es
lookup-put-other j k v end f = lookup-tail k j v end f
lookup-put-other j k v (entry i w es) f = elim (Bool-cases (key_eq i j)) [
  | inl t ↦
      let same : i ≡ j = key_eq-eq i j t in
      let other : key_eq i k ≡ false = rw same f in
      ap (lookup k) (put-head j i v w es t)
      ∙ lookup-tail k i v es other
      ∙ sym (lookup-tail k i w es other)
  | inr g ↦ ap (lookup k) (put-tail j i v w es g) ∙ elim (Bool-cases (key_eq i k)) [
    | inl t ↦ lookup-head k i w (put j v es) t ∙ sym (lookup-head k i w es t)
    | inr n ↦
        lookup-tail k i w (put j v es) n
        ∙ lookup-put-other j k v es f
        ∙ sym (lookup-tail k i w es n)
  ]
]

-- A key of the mapping after a `put` is the one that was put, or was there.
pub holds-put :
    (j k : Key) (v : Datum) (es : Entries)
    → holds k (put j v es) ≡ true
    → (j ≡ k) ⊎ (holds k es ≡ true)
holds-put j k v es h = elim (Bool-cases (key_eq j k)) [
  | inl t ↦ inl (key_eq-eq j k t)
  | inr f ↦ inr (sym (ap there (lookup-put-other j k v es f)) ∙ h)
]

pub holds-remove : (j k : Key) (es : Entries) → holds k (remove j es) ≡ true → holds k es ≡ true
holds-remove j k end h = h
holds-remove j k (entry i v es) h = elim (Bool-cases (key_eq i k)) [
  | inl t ↦ ap there (lookup-head k i v es t)
  | inr f ↦ ap there (lookup-tail k i v es f) ∙ elim (Bool-cases (key_eq i j)) [
    | inl t ↦ rw t at h
    | inr g ↦ holds-remove j k es (ap there (sym (lookup-tail k i v (remove j es) f)) ∙ (rw g at h))
  ]
]
