-- ===== src/Prelude/Exceptions.antt =====
-- Python's exceptions as values. Messages are kept only where the code reads them back.
use Prim.Native.Nat.{ℕ}
use Prim.Native.String.{String}
use mathlib.Core.Path.{◌≡◌, refl, ap, subst}
use mathlib.Core.Logic.{◌⊎◌, inl, inr}
use mathlib.Core.Bool.{Bool, true, false}
use mathlib.Core.List.{List, [], ◌∷◌}

pub data Error : Type 0 where
  type_error value_error overflow_error queue_empty queue_closed struct_error key_error : Error
  -- a message, that `_runtime_unavailable_outcome` searches
  runtime_error : String → Error
  -- RuntimeEventQueueResnapshotRequired: generation, sequence, reason
  queue_resnapshot : ℕ → ℕ → String → Error
  -- RuntimeContinuityError: code, expected generation, expected sequence
  continuity_error : String → ℕ → ℕ → Error
  -- OrchestrationContractCompatibilityError: installed, minimum, maximum
  contract_error : ℕ → ℕ → ℕ → Error
  -- RuntimePayloadError and RuntimeValueDecodeError: code
  payload_error decode_error : String → Error

pub data Result {ℓ} (A : Type ℓ) : Type ℓ where
  err : Error → Result A
  ok : A → Result A

-- The next statement, with what the one before it returned; an exception ends the block.
infixl 5 ◌>>=◌
abbrev pub ◌>>=◌ {ℓ κ} : {A : Type ℓ} {B : Type κ} → Result A → (A → Result B) → Result B
err e >>= k = err e
ok a >>= k = k a

-- The same after a statement whose value is not used.
infixl 5 ◌>>◌
abbrev pub ◌>>◌ {ℓ κ} : {A : Type ℓ} {B : Type κ} → Result A → Result B → Result B
step >> rest = step >>= λ ignored. rest

-- `if not test: raise error`
abbrev pub require : Bool → Error → Result (Unit {0})
require true e = ok tt
require false e = err e

-- `tuple(f(item) for item in values)`
abbrev pub traverse {ℓ κ} : {A : Type ℓ} {B : Type κ} → (A → Result B) → List A → Result (List B)
traverse f [] = ok []
traverse f (x ∷ xs) = do y ← f x; ys ← traverse f xs; ok (y ∷ ys)

-- A block that returned: its first statement returned, and so did the rest.
pub >>=-eq-ok {ℓ κ} :
    {A : Type ℓ} {B : Type κ} {final : B} (first : Result A) (rest : A → Result B)
    → first >>= rest ≡ ok final
    → (between : A) × (first ≡ ok between) × (rest between ≡ ok final)
>>=-eq-ok (err raised) rest returned = cc
>>=-eq-ok (ok between) rest returned = (between, refl, returned)

-- A block whose first statement returns, and whose rest does.
pub >>=-ok {ℓ κ} :
    {A : Type ℓ} {B : Type κ} {final : B} {between : A} (first : Result A) (rest : A → Result B)
    → first ≡ ok between
    → rest between ≡ ok final
    → first >>= rest ≡ ok final
>>=-ok first rest returned done = rw returned done

-- A block goes on with what its first statement returned.
pub >>=-step {ℓ κ} :
    {A : Type ℓ} {B : Type κ} {between : A} (first : Result A) (rest : A → Result B)
    → first ≡ ok between
    → first >>= rest ≡ rest between
>>=-step first rest returned = rw returned refl

-- Blocks that go on alike after what their first statement returned.
pub >>=-cong {ℓ κ} :
    {A : Type ℓ} {B : Type κ} (first : Result A) (f g : A → Result B)
    → ((a : A) → first ≡ ok a → f a ≡ g a)
    → first >>= f ≡ first >>= g
>>=-cong (err raised) f g h = refl
>>=-cong (ok a) f g h = h a refl

pub Result-cases {ℓ} :
    {A : Type ℓ} (r : Result A) → ((a : A) × (r ≡ ok a)) ⊎ ((e : Error) × (r ≡ err e))
Result-cases (ok a) = inl (a, refl)
Result-cases (err e) = inr (e, refl)

pub ok_eq {ℓ} : {A : Type ℓ} {a b : A} → ok a ≡ ok b → a ≡ b
ok_eq {a} h = ap (λ r. elim r [ ok x ↦ x | err e ↦ a ]) h

-- Whatever the computation returns has the property.
abbrev pub Always {ℓ} : {B : Type ℓ} → (B → Type 0) → Result B → Type ℓ
Always {B = B} P m = (b : B) → m ≡ ok b → P b

pub always {ℓ κ} :
    {A : Type ℓ} {B : Type κ} (P : B → Type 0) (m : Result A) (k : A → Result B)
    → ((a : A) → Always P (k a))
    → Always P (m >>= k)
always P (ok a) k every b h = every a b h
always P (err e) k every b h = cc

pub Always-ok {κ} : {B : Type κ} (P : B → Type 0) (c : B) → P c → Always P (ok c)
Always-ok P c holds b h = subst P (ok_eq h) holds
