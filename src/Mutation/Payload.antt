-- ===== src/Mutation/Payload.antt =====
-- What a request's constructors do with its payload: from `MutationRequest.create` to the request that
-- is dispatched.
use wyreplumber.Prelude.{
  ℕ, String, ok, ◌≡◌, arith, inl, inr, not, ◌&&◌, Option-cases, >>=-eq-ok, require, value_error,
  overflow_error, leb, ◌+◌,
}
use wyreplumber.Value.{dict, end, datetime, aware}
use wyreplumber.Value.Json.{mapping}
use wyreplumber.Value.Floats.{to_double, is_finite, is_negative}
use wyreplumber.Builtins.{Builtins}
use wyreplumber.Model.Snapshot.{Snapshot}
use wyreplumber.Mutation.Request.{
  Request, RequestFields, CreateFields, mutation_request, create, resequence, parse_timestamp,
  or_else,
}
use wyreplumber.Mutation.Execution.{World, pinned}

module _ (py : Builtins) where
  mutation_request-payload :
      (args : RequestFields) (r : Request)
      → mutation_request py args ≡ ok r
      → mapping args.payload ≡ ok r.payload
  unfolding mutation_request
  mutation_request-payload args r made = ground arith

  pub create-payload :
      (fresh : String) (clock : ℕ) (args : CreateFields) (r : Request)
      → create py fresh clock args ≡ ok r
      → mapping (or_else py args.payload (dict end)) ≡ ok r.payload
  unfolding create
  create-payload fresh clock args r made =
      let (timeout, t, made₁) = >>=-eq-ok (to_double py args.timeout) _ made in
      let (u, finite, made₂) =
        >>=-eq-ok (require (is_finite timeout && not (is_negative timeout)) value_error) _ made₁ in
      let (requested, q, made₃) =
        >>=-eq-ok (parse_timestamp py (or_else py args.now (datetime (aware clock)))) _ made₂ in
      elim (Option-cases (py.microseconds timeout)) [
        | inl over ↦ cc (rw over at made₃)
        | inr (delta, fits) ↦
            let (_, _, made₄) =
              >>=-eq-ok (require (leb (requested + delta) py.last_moment) overflow_error) _
                (rw fits at made₃) in
            mutation_request-payload _ r made₄
      ]

  resequence-payload :
      (r d : Request) (sequence : ℕ) → resequence py r sequence ≡ ok d → d.payload ≡ r.payload
  unfolding resequence mapping
  resequence-payload r d sequence h = ground arith

  pub pinned-payload :
      (w : World) (r d : Request) (s : Snapshot) → pinned py w r s ≡ ok d → d.payload ≡ r.payload
  unfolding resequence
  pinned-payload w r d s h = elim (Option-cases r.expected_sequence) [
    | inl unnamed ↦ ground (arith, unnamed, h)
    | inr (e, named) ↦ resequence-payload r d s.sequence (rw named at h)
  ]
