-- ===== src/Mutation/Deadline.antt =====
-- When a request expires.
use mathlib.Core.Path.{subst}
use wyreplumber.Prelude.{
  ok_eq, Option-cases, inl, inr, ℕ, ◌+◌, leb, some, ok, >>=-eq-ok, require, value_error,
  overflow_error, ◌&&◌, not, ◌≡◌, refl, sym, ap, ◌∙◌, arith, String,
}
use wyreplumber.Value.{
  Value, null, bool, int, float, bytes, int_member, list, tuple, dict, frozen, runtime, foreign,
  str, str_member, datetime, aware, naive,
}
use wyreplumber.Value.Floats.{to_double, is_finite, is_negative}
use wyreplumber.Builtins.{Builtins, timestamp}
use wyreplumber.Mutation.Request.{
  Request, RequestFields, CreateFields, parse_timestamp, mutation_request, create, is_expired,
  or_else,
}

module _ (py : Builtins) where
  open py use {from_iso, to_iso, from_iso-to_iso, microseconds}

  pub timestamp_aware : (t : ℕ) → timestamp py (datetime (aware t)) ≡ ok (to_iso t)
  unfolding timestamp
  timestamp_aware t = refl

  timestamp_printed : (t : ℕ) → timestamp py (str (to_iso t)) ≡ ok (to_iso t)
  unfolding timestamp
  timestamp_printed t = rw (from_iso-to_iso t) refl

  parse_printed : (t : ℕ) → parse_timestamp py (str (to_iso t)) ≡ ok t
  unfolding parse_timestamp
  parse_printed t = rw (timestamp_printed t, from_iso-to_iso t) refl

  pub parse_aware : (t : ℕ) → parse_timestamp py (datetime (aware t)) ≡ ok t
  unfolding parse_timestamp
  parse_aware t = rw (timestamp_aware t, from_iso-to_iso t) refl

  -- What the timestamp of a text is the text of.
  text_printed : (s out : String) → timestamp py (str s) ≡ ok out → (t : ℕ) × (out ≡ to_iso t)
  unfolding timestamp
  text_printed s out h = elim (Option-cases (from_iso s)) [
    | inl bad ↦ cc (rw (bad, timestamp) at h)
    | inr (naive, read) ↦ cc (rw (read, timestamp) at h)
    | inr (aware t, read) ↦ (t, sym (ok_eq (rw (read, timestamp) at h)))
  ]

  pub timestamp-printed :
      (v : Value) (out : String) → timestamp py v ≡ ok out → (t : ℕ) × (out ≡ to_iso t)
  unfolding timestamp
  timestamp-printed (str s) out h = text_printed s out h
  timestamp-printed (str_member s) out h = text_printed s out h
  timestamp-printed (datetime naive) out h = cc
  timestamp-printed (datetime (aware t)) out h = (t, sym (ok_eq h))
  timestamp-printed null out h = cc
  timestamp-printed (bool b) out h = cc
  timestamp-printed (int n) out h = cc
  timestamp-printed (float x) out h = cc
  timestamp-printed (bytes b) out h = cc
  timestamp-printed (int_member n) out h = cc
  timestamp-printed (list vs) out h = cc
  timestamp-printed (tuple vs) out h = cc
  timestamp-printed (dict fs) out h = cc
  timestamp-printed (frozen fs) out h = cc
  timestamp-printed (runtime g fs) out h = cc
  timestamp-printed (foreign g) out h = cc

  -- A timestamp that parses is normalized to the text of what it parses to.
  pub normalized :
      (v : Value) (t : ℕ) → parse_timestamp py v ≡ ok t → timestamp py v ≡ ok (to_iso t)
  unfolding parse_timestamp
  normalized v t h =
      let (out, stamped, _) = >>=-eq-ok (timestamp py v) _ h in
      let (u, printed) = timestamp-printed v out stamped in
      let moment : from_iso out ≡ some (aware u) = ap from_iso printed ∙ from_iso-to_iso u in
      let same : u ≡ t = ok_eq (rw (stamped, moment, parse_timestamp) at h) in
      stamped ∙ ap ok (printed ∙ ap to_iso same)

  pub is_expired_lem :
      (r : Request) (deadline clock : ℕ)
      → parse_timestamp py (str r.deadline_at) ≡ ok deadline
      → is_expired py r clock ≡ ok (leb deadline clock)
  unfolding is_expired
  is_expired_lem r deadline clock h = rw (parse_aware clock, h) refl

  pub mutation_request-deadline :
      (args : RequestFields) (r : Request) (t : ℕ)
      → mutation_request py args ≡ ok r
      → timestamp py args.deadline_at ≡ ok (to_iso t)
      → parse_timestamp py (str r.deadline_at) ≡ ok t
  unfolding mutation_request
  mutation_request-deadline args r t made h =
      let printed : r.deadline_at ≡ to_iso t = ground arith in
      subst (λ d. parse_timestamp py (str d) ≡ ok t) (sym printed) (parse_printed t)

  -- A request that `create` returns expires `timeout` after the moment it was requested at, and at
  -- no other time.
  pub create-is_expired :
      (fresh : String) (clock : ℕ) (args : CreateFields) (r : Request)
      → create py fresh clock args ≡ ok r
      → (timeout requested delta : ℕ) × (to_double py args.timeout ≡ ok timeout)
        × (microseconds timeout ≡ some delta)
        × (parse_timestamp py (or_else py args.now (datetime (aware clock))) ≡ ok requested)
        × ((later : ℕ) → is_expired py r later ≡ ok (leb (requested + delta) later))
  unfolding create
  create-is_expired fresh clock args r made =
      let (timeout, t, made₁) = >>=-eq-ok (to_double py args.timeout) _ made in
      let (u, finite, made₂) =
        >>=-eq-ok (require (is_finite timeout && not (is_negative timeout)) value_error) _ made₁ in
      let (requested, q, made₃) =
        >>=-eq-ok (parse_timestamp py (or_else py args.now (datetime (aware clock)))) _ made₂ in
      elim (Option-cases (microseconds timeout)) [
        | inl over ↦ cc (rw over at made₃)
        | inr (delta, fits) ↦
            let (_, _, made₄) =
              >>=-eq-ok (require (leb (requested + delta) py.last_moment) overflow_error) _
                (rw fits at made₃) in
            let deadline =
              mutation_request-deadline _ r (requested + delta) made₄
                (timestamp_aware (requested + delta)) in
            (
              timeout,
              requested,
              delta,
              t,
              fits,
              q,
              λ later. is_expired_lem r (requested + delta) later deadline,
            )
      ]
