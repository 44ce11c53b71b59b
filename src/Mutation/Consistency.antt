-- ===== src/Mutation/Consistency.antt =====
-- What every outcome that the constructor returns satisfies.
use mathlib.Core.Path.{subst}
use wyreplumber.Prelude.{
  Bool, false, Result, err, refl, ◌>>=◌, String, require, value_error, ok_eq, ◌>>◌, ℕ, true, Option,
  none, some, List, [], ◌∷◌, ok, ◌≡◌, ◌↔◌, ◌≢◌, arith, All, ◌==◌, ==_iff, &&_left, &&_right,
}
use wyreplumber.Builtins.{Builtins}
use wyreplumber.Mutation.Kinds.{MutationStatus, MutationOperation, confirmed, code_of_status}
use wyreplumber.Mutation.Outcome.{
  Failure, Confirmation, Outcome, OutcomeFields, one_generation, check_status, mutation_outcome,
}

one_generation-All :
    (g : ℕ) (cs : List Confirmation)
    → one_generation g cs ≡ true
    → All (λ (c : Confirmation). c.generation ≡ g) cs
unfolding one_generation
one_generation-All g [] h = tt
one_generation-All g (c ∷ cs) h = (
  (==_iff c.generation g).0 (&&_left _ (one_generation g cs) h),
  one_generation-All g cs (&&_right (c.generation == g) _ h),
)

pub record IsConsistent (o : Outcome) : Type 0 where
  pub success : (o.status ≡ confirmed) ↔ (o.failure ≡ none)
  pub shown : o.status ≡ confirmed → o.confirmations ≢ []
  pub classified : (f : Failure) → o.failure ≡ some f → code_of_status o.status f.code ≡ true
  pub generation : All (λ (c : Confirmation). c.generation ≡ o.generation) o.confirmations

status_consistent :
    (s : MutationStatus) (cs : List Confirmation) (f : Option Failure)
    → check_status s cs f ≡ ok tt
    → ((s ≡ confirmed) ↔ (f ≡ none))
      × ((s ≡ confirmed → cs ≢ []) × ((e : Failure) → f ≡ some e → code_of_status s e.code ≡ true))
unfolding check_status
status_consistent s cs f h = ((ground arith, ground arith), (ground arith, λ e named. ground arith))

-- The last three steps of the constructor.
last_steps :
    (single : Bool) (m : Result (Unit {0})) (p o : Outcome)
    → (require single value_error >>= λ _. m >>= λ _. ok p) ≡ ok o
    → (single ≡ true) × ((m ≡ ok tt) × (p ≡ o))
last_steps true (ok u) p o h = (refl, (refl, ok_eq h))
last_steps true (err e) p o h = cc
last_steps false m p o h = cc

-- The steps before them return.
first_steps :
    (id : Result String) (generation : Result ℕ) (op : Result MutationOperation)
    (status : Result MutationStatus) (at : Result String) (cs : List Confirmation)
    (f : Option Failure) (o : Outcome)
    → (do
      i ← id
      g ← generation
      k ← op
      s ← status
      t ← at
      require (one_generation g cs) value_error
      check_status s cs f
      ok (record {
        request_id = i;
        generation = g;
        operation = k;
        status = s;
        completed_at = t;
        confirmations = cs;
        failure = f;
      }))
      ≡ ok o
    → (check_status o.status o.confirmations o.failure ≡ ok tt)
      × (one_generation o.generation o.confirmations ≡ true)
first_steps (ok i) (ok g) (ok k) (ok s) (ok t) cs f o h =
    let (single, rest) = last_steps (one_generation g cs) (check_status s cs f) _ o h in
    subst
      (λ (p : Outcome).
        (check_status p.status p.confirmations p.failure ≡ ok tt)
        × (one_generation p.generation p.confirmations ≡ true))
      rest.1 (rest.0, single)
first_steps (err e) g op s t cs f o h = cc
first_steps (ok i) (err e) op s t cs f o h = cc
first_steps (ok i) (ok g) (err e) s t cs f o h = cc
first_steps (ok i) (ok g) (ok k) (err e) t cs f o h = cc
first_steps (ok i) (ok g) (ok k) (ok s) (err e) cs f o h = cc

module _ (py : Builtins) where
  checked :
      (args : OutcomeFields) (o : Outcome)
      → mutation_outcome py args ≡ ok o
      → (check_status o.status o.confirmations o.failure ≡ ok tt)
        × (one_generation o.generation o.confirmations ≡ true)
  unfolding mutation_outcome
  checked args o made = first_steps _ _ _ _ _ args.confirmations args.failure o made

  -- An outcome that the constructor returns is confirmed exactly when it has no failure; it then has
  -- confirmations; a failure's code is one that the status may have; and all confirmations are of the
  -- outcome's generation.
  pub mutation_outcome-IsConsistent :
      (args : OutcomeFields) (o : Outcome) → mutation_outcome py args ≡ ok o → IsConsistent o
  mutation_outcome-IsConsistent args o made =
      let (status, generation) = checked args o made in
      let (success, rest) = status_consistent o.status o.confirmations o.failure status in
      record {
        success = success;
        shown = rest.0;
        classified = rest.1;
        generation = one_generation-All o.generation o.confirmations generation;
      }
