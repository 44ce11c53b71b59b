-- ===== src/Queue/Sound.antt =====
-- The invariant of a history of the queue: what was received and what is pending, against what was
-- accepted.
use wyreplumber.Prelude.{
  none, queue_closed, ap, ℕ, ◌+◌, pos, Bool, true, false, List, [], ◌∷◌, ◌++◌, ◌≡◌, refl, sym, ◌∙◌,
  inl, inr, ok, err, arith, length, length-append, Bool-cases,
}
use mathlib.Core.Path.{subst}
use mathlib.Core.List.{append_assoc}
use wyreplumber.Value.{int}
use wyreplumber.Value.Checks.{identifier}
use wyreplumber.Builtins.{Builtins}
use wyreplumber.Event.{RuntimeEvent}
use wyreplumber.Queue.Publish.{
  Published, rejected, appended, lost, publish_lem, after_publish-Published,
}
use wyreplumber.Queue.Get.{poll, get_nowait}
use wyreplumber.Queue.Invariant.{
  pop-Pending, reset-IsValid, close-IsValid, or_false, Published-IsValid, Run, Run-append, IsValid,
}
use wyreplumber.Queue.History.{
  note_publish, note_reset, note_read, note_reset, History, Action, publishes, reads, resets,
  closes, step, run, begin,
}
use package.wyreplumber.Queue.{Queue, reset, close}

-- While deltas flow, what was received and what is pending make up what was accepted, one event
-- after another from the snapshot to the queue's position.
pub record Flowing (h : History) : Type 0 where
  pub whole : h.received ++ h.queue.events ≡ h.accepted
  pub in_order : Run h.generation h.sequence h.accepted
  pub generation : h.queue.generation ≡ h.generation
  pub position : h.sequence + length h.accepted ≡ h.queue.sequence

-- Once they do not, the consumer has had, or will have, a first part of what was accepted, and
-- then one event that asks for a snapshot.
pub record Halted (h : History) : Type 0 where
  pub clean : List RuntimeEvent
  pub missed : List RuntimeEvent
  pub notice : RuntimeEvent
  pub asks : notice.requires_resnapshot ≡ true
  pub delivered : h.received ++ h.queue.events ≡ clean ++ notice ∷ []
  pub split : clean ++ missed ≡ h.accepted
  pub in_order : Run h.generation h.sequence clean

abbrev pub Epoch : Bool → History → Type 0
Epoch false h = Flowing h
Epoch true h = Halted h

pub record IsSound (h : History) : Type 0 where
  pub valid : IsValid h.queue
  pub epoch : Epoch h.queue.resnapshot_required h

Run-prefix : (g s : ℕ) (xs ys : List RuntimeEvent) → Run g s (xs ++ ys) → Run g s xs
Run-prefix g s [] ys r = tt
Run-prefix g s (x ∷ xs) ys r = (r.0, Run-prefix g (s + 1) xs ys r.1)

publish-IsSound :
    {h : History} {e : RuntimeEvent} {r : Queue × Bool}
    → Published h.queue e r
    → IsSound h
    → IsSound (note_publish h e (ok r))
unfolding note_publish
publish-IsSound (rejected shut) s = s
publish-IsSound {h} {e} {r} (appended live f room) s =
    let flowing : h.queue.resnapshot_required ≡ false = or_false h.queue.closed _ live in
    let flow : Flowing h = subst (λ f. Epoch f h) flowing s.epoch in
    record {
      valid = Published-IsValid {e = e} (appended live f room) s.valid;
      epoch =
          subst (λ f. Epoch f (note_publish h e (ok r))) (sym flowing)
            (record {
              whole =
                  sym (append_assoc h.received h.queue.events (e ∷ []))
                  ∙ ap (λ l. l ++ e ∷ []) flow.whole;
              in_order =
                  Run-append h.generation h.sequence h.accepted e flow.in_order
                    (f.0 ∙ flow.generation, omega (arith, f.1, flow.position), f.2);
              generation = flow.generation;
              position = omega (arith, length-append h.accepted (e ∷ []), f.1, flow.position);
            });
    }
publish-IsSound {h} {e} (lost m reason live asks g p full) s =
    let flowing : h.queue.resnapshot_required ≡ false = or_false h.queue.closed _ live in
    let flow : Flowing h = subst (λ f. Epoch f h) flowing s.epoch in
    record {
      valid = Published-IsValid {e = e} (lost m reason live asks g p full) s.valid;
      epoch = record {
        clean = h.received;
        missed = h.queue.events ++ e ∷ [];
        notice = m;
        asks = asks;
        delivered = refl;
        split =
            sym (append_assoc h.received h.queue.events (e ∷ []))
            ∙ ap (λ l. l ++ e ∷ []) flow.whole;
        in_order =
            Run-prefix h.generation h.sequence h.received h.queue.events
              (rw (← flow.whole) at flow.in_order);
      };
    }

-- What `get_nowait` does to a history, by what is pending.
abbrev after_read : History → List RuntimeEvent → History
after_read h [] = h
after_read h (e ∷ es) = record h {
  queue = record h.queue { events = es };
  received = h.received ++ e ∷ [];
}

read_lem :
    (py : Builtins) (h : History) (es : List RuntimeEvent)
    → h.queue.events ≡ es
    → step py h reads ≡ after_read h es
unfolding step get_nowait poll note_read
read_lem py h [] p = ground arith
read_lem py h (e ∷ es) p = ground arith

read_flow :
    (flag : Bool) (h : History) (e : RuntimeEvent) (es : List RuntimeEvent)
    → h.queue.events ≡ e ∷ es
    → Epoch flag h
    → Epoch flag (after_read h (e ∷ es))
read_flow false h e es p flow = record {
  whole = append_assoc h.received (e ∷ []) es ∙ (rw p at flow.whole);
  in_order = flow.in_order;
  generation = flow.generation;
  position = flow.position;
}
read_flow true h e es p flow = record {
  clean = flow.clean;
  missed = flow.missed;
  notice = flow.notice;
  asks = flow.asks;
  delivered = append_assoc h.received (e ∷ []) es ∙ (rw p at flow.delivered);
  split = flow.split;
  in_order = flow.in_order;
}

read-IsSound :
    (h : History) (es : List RuntimeEvent)
    → h.queue.events ≡ es
    → IsSound h
    → IsSound (after_read h es)
read-IsSound h [] p s = s
read-IsSound h (e ∷ es) p s = record {
  valid = record {
    positive = s.valid.positive;
    bounded = omega (arith, s.valid.bounded, ap length p);
    pending =
        pop-Pending h.queue.resnapshot_required h.queue.generation h.queue.sequence e es
          (rw p at s.valid.pending);
  };
  epoch = read_flow h.queue.resnapshot_required h e es p s.epoch;
}

-- A queue with nothing pending that does not ask for a snapshot begins a sound history.
pub begin-IsSound :
    (q : Queue) → IsValid q → q.events ≡ [] → q.resnapshot_required ≡ false → IsSound (begin q)
begin-IsSound q v p flowing = record {
  valid = v;
  epoch =
      subst (λ f. Epoch f (begin q)) (sym flowing)
        (record { whole = p; in_order = tt; generation = refl; position = omega arith });
}

abbrev after_reset : Queue → ℕ → ℕ → Queue
after_reset q g s = record q {
  events = [];
  generation = g;
  sequence = s;
  resnapshot_required = false;
  discontinuity_reason = none;
}

reset_open :
    (q : Queue) (g s : ℕ)
    → q.closed ≡ false
    → reset q (int (pos g)) (int (pos s)) ≡ ok (after_reset q g s)
unfolding reset identifier
reset_open q g s still_open = ground arith

reset_closed :
    (h : History) (g s : ℕ)
    → h.queue.closed ≡ true
    → reset h.queue (int (pos g)) (int (pos s)) ≡ err queue_closed
unfolding reset identifier
reset_closed h g s shut = rw shut

close_flow :
    (flag : Bool) (h : History)
    → Epoch flag h
    → Epoch flag (record h { queue = record h.queue { closed = true } })
close_flow false h flow = record {
  whole = flow.whole;
  in_order = flow.in_order;
  generation = flow.generation;
  position = flow.position;
}
close_flow true h flow = record {
  clean = flow.clean;
  missed = flow.missed;
  notice = flow.notice;
  asks = flow.asks;
  delivered = flow.delivered;
  split = flow.split;
  in_order = flow.in_order;
}

-- Every call keeps a history sound.
pub step-IsSound : (py : Builtins) (h : History) (a : Action) → IsSound h → IsSound (step py h a)
unfolding step note_reset close
step-IsSound py h (publishes now e) s =
    rw (publish_lem py now h.queue e)
      (publish-IsSound (after_publish-Published py now h.queue e s.valid.bounded) s)
step-IsSound py h reads s =
    rw (read_lem py h h.queue.events refl) (read-IsSound h h.queue.events refl s)
step-IsSound py h (resets g n) s = elim (Bool-cases h.queue.closed) [
  | inl shut ↦ rw (reset_closed h g n shut) s
  | inr still_open ↦
      let returns = reset_open h.queue g n still_open in
      rw returns (
        begin-IsSound (after_reset h.queue g n)
          (reset-IsValid h.queue _ (int (pos g)) (int (pos n)) s.valid returns) refl refl)
]
step-IsSound py h closes s =
    let flow : Epoch h.queue.resnapshot_required (step py h closes) =
      close_flow h.queue.resnapshot_required h s.epoch in
    record { valid = close-IsValid h.queue s.valid; epoch = flow }

pub run-IsSound :
    (py : Builtins) (h : History) (actions : List Action) → IsSound h → IsSound (run py h actions)
unfolding run
run-IsSound py h [] s = s
run-IsSound py h (a ∷ rest) s = run-IsSound py (step py h a) rest (step-IsSound py h a s)
