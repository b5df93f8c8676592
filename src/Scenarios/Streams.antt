-- ===== src/Scenarios/Streams.antt =====
-- internal/events/stream.go with events whose content is a number.
use paihuo.Prelude.{ℕ, ◌≤◌, ◌≡◌, refl, Bool, true, [], ◌∷◌, ◌++◌, arith, length}
use paihuo.Events.{Event, Stream, offer, offer_all, append_event, publish, history}
use paihuo.Events.Resume.{missed, last_seen, IsNumbered, catch_up, history-resume}

abbrev event : ℕ → Event ℕ
event n = record { seq = n; content = n; created_at = n }

-- Three events in the table.
abbrev stream : Stream ℕ
stream = record {
  persistent = true;
  log = event 1 ∷ (event 2 ∷ (event 4 ∷ []));
  last_seq = 4;
  memory = [];
  next_seq = 0;
  subs = [] ∷ [];
}

stream-IsNumbered : IsNumbered stream
stream-IsNumbered = (omega arith, (omega arith, (omega arith, omega arith)))

abbrev all_marshal : ℕ → Bool
all_marshal n = true

-- The new event is stored and offered.
published :
    (publish all_marshal 0 9 7 stream).subs
    ≡ (record { seq = 5; content = 7; created_at = 9 } ∷ []) ∷ []
unfolding publish append_event offer_all offer
published = refl

caught_up : length (missed 1 stream.log) ≤ 2
caught_up = omega arith

history-resume_example :
    (missed 1 stream.log
      ≡ history 1 1 stream ++ missed (last_seen 1 (history 1 1 stream)) stream.log)
    × (length (history 1 1 stream) ≤ 1000)
    × (catch_up 2 1 1 stream ≡ missed 1 stream.log)
history-resume_example = history-resume 1 1 2 stream stream-IsNumbered refl caught_up
