-- ===== src/Spa/Names.antt =====
-- Reading the properties of a `SpaPodObject` by name and by number (src/wyreplumber/_spa_pod_types.py).
use wyreplumber.Prelude.{
  ℤ, String, true, false, Bool-cases, Option, none, some, Option-cases, inl, inr, List, [], ◌∷◌,
  ◌≡◌, refl, sym, ap, ◌∙◌, arith, if_true, if_false, str_eq, str_eq_iff, if◌then◌else◌,
}
use wyreplumber.Value.{Key, text, number}
use wyreplumber.Spa.Datum.{Datum, Entries, lookup, holds, put}
use wyreplumber.Spa.Specs.{PropertySpec}
use wyreplumber.Spa.Tables.{by_name, specs_of}
use wyreplumber.Spa.Objects.{SpaPodObject, storage_key, known_key, spec_of}
use wyreplumber.Spa.Entries.{there, lookup-put, holds-put}

-- No property of a known name is stored by its number.
abbrev pub AreNamed : List PropertySpec → Entries → Type 0
AreNamed specs es = (n : ℤ) → holds (number n) es ≡ true → spec_of specs (number n) ≡ none

abbrev pub IsNamed : SpaPodObject → Type 0
IsNamed o = AreNamed (specs_of o.of) o.properties

some_eq {ℓ} : {A : Type ℓ} {a b : A} → some a ≡ some b → a ≡ b
some_eq {a} h = ap (λ o. elim o [ some x ↦ x | none ↦ a ]) h

by_name-name :
    (specs : List PropertySpec) (word : String) (s : PropertySpec)
    → by_name specs word ≡ some s
    → s.name ≡ word
by_name-name [] word s h = cc
by_name-name (t ∷ specs) word s h = elim (Option-cases (by_name specs word)) [
  | inr (later, e) ↦
      let same : later ≡ s = some_eq (rw e at h) in
      by_name-name specs word s (e ∙ ap (λ l. some l) same)
  | inl e ↦ elim (Bool-cases (str_eq t.name word)) [
    | inl same_name ↦
        let same : t ≡ s = some_eq (rw same_name at rw e at h) in
        ap (λ r. r.name) (sym same) ∙ (str_eq_iff t.name word).0 same_name
    | inr other ↦ let gone : none ≡ some s = rw other at rw e at h in cc
  ]
]

pub AreNamed-put :
    (specs : List PropertySpec) (k : Key) (v : Datum) (es : Entries)
    → AreNamed specs es
    → AreNamed specs (put (storage_key k (spec_of specs k)) v es)
AreNamed-put specs k v es named n h = elim (Option-cases (spec_of specs k)) [
  | inl e ↦ elim (holds-put k (number n) v es (rw e at h)) [
    | inl same ↦ rw (← same) e
    | inr there ↦ named n there
  ]
  | inr (s, e) ↦ elim (holds-put (text s.name) (number n) v es (rw e at h)) [
    | inl same ↦ cc
    | inr there ↦ named n there
  ]
]

absent : (k : Key) (es : Entries) → holds k es ≡ false → lookup k es ≡ none
absent k es h = ground (arith, h)

-- A property stored under a name is found by that name and by its number.
unfoldable pub found : List PropertySpec → Key → Entries → Option Datum
found specs k es = lookup (if holds k es then k else known_key es k (spec_of specs k)) es

found-there :
    (specs : List PropertySpec) (k : Key) (es : Entries)
    → holds k es ≡ true
    → found specs k es ≡ lookup k es
unfolding found
found-there specs k es t = ap (λ q. lookup q es) (if_true (holds k es) _ _ t)

found-elsewhere :
    (specs : List PropertySpec) (k : Key) (es : Entries) (spec : Option PropertySpec)
    → holds k es ≡ false
    → spec_of specs k ≡ spec
    → found specs k es ≡ lookup (known_key es k spec) es
unfolding found
found-elsewhere specs k es spec f e =
    ap (λ q. lookup q es) (if_false (holds k es) _ _ f ∙ ap (known_key es k) e)

-- A name stands for itself.
known_key-text :
    (specs : List PropertySpec) (word : String) (es : Entries) (spec : Option PropertySpec)
    → spec_of specs (text word) ≡ spec
    → known_key es (text word) spec ≡ text word
unfolding spec_of
known_key-text specs word es none e = refl
known_key-text specs word es (some t) e =
    let same : text t.name ≡ text word = ap (λ w. text w) (by_name-name specs word t e) in
    elim (Bool-cases (holds (text t.name) es)) [
      | inl h ↦ if_true (holds (text t.name) es) _ _ h ∙ same
      | inr f ↦ if_false (holds (text t.name) es) _ _ f
    ]

pub found-text :
    (specs : List PropertySpec) (word : String) (es : Entries)
    → found specs (text word) es ≡ lookup (text word) es
found-text specs word es = elim (Bool-cases (holds (text word) es)) [
  | inl t ↦ found-there specs (text word) es t
  | inr f ↦
      found-elsewhere specs (text word) es _ f refl
      ∙ ap (λ q. lookup q es) (known_key-text specs word es _ refl)
]

pub found-number :
    (specs : List PropertySpec) (n : ℤ) (s : PropertySpec) (es : Entries)
    → AreNamed specs es
    → spec_of specs (number n) ≡ some s
    → found specs (number n) es ≡ lookup (text s.name) es
found-number specs n s es named e = elim (Bool-cases (holds (number n) es)) [
  | inl t ↦ let gone : some s ≡ none = sym e ∙ named n t in cc
  | inr f ↦
      found-elsewhere specs (number n) es (some s) f e
      ∙ elim (Bool-cases (holds (text s.name) es)) [
        | inl t ↦ ap (λ q. lookup q es) (if_true (holds (text s.name) es) _ _ t)
        | inr g ↦
            ap (λ q. lookup q es) (if_false (holds (text s.name) es) _ _ g)
            ∙ absent (number n) es f
            ∙ sym (absent (text s.name) es g)
      ]
]

pub found-put :
    (specs : List PropertySpec) (k : Key) (v : Datum) (es : Entries)
    → AreNamed specs es
    → found specs k (put (storage_key k (spec_of specs k)) v es) ≡ some v
unfolding spec_of
found-put specs (text word) v es named = elim (Option-cases (by_name specs word)) [
  | inl e ↦ found-text specs word _ ∙ rw e (lookup-put (text word) v es)
  | inr (s, e) ↦
      let same : text s.name ≡ text word = ap (λ w. text w) (by_name-name specs word s e) in
      found-text specs word _ ∙ rw e (rw same (lookup-put (text word) v es))
]
found-put specs (number n) v es named =
    let after = put (storage_key (number n) (spec_of specs (number n))) v es in
    elim (Option-cases (spec_of specs (number n))) [
      | inl e ↦
          let stored : lookup (number n) after ≡ some v =
            ap (λ spec. lookup (number n) (put (storage_key (number n) spec) v es)) e
            ∙ lookup-put (number n) v es in
          found-there specs (number n) after (ap there stored) ∙ stored
      | inr (s, e) ↦
          found-number specs n s after (AreNamed-put specs (number n) v es named) e
          ∙ ap (λ spec. lookup (text s.name) (put (storage_key (number n) spec) v es)) e
          ∙ lookup-put (text s.name) v es
    ]
