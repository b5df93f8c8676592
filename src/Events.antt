-- ===== src/Events.antt =====
-- internal/events/stream.go, with the statements of internal/store/logs_events.go that it calls: events
-- are numbered, kept, and offered to subscribers whose queues are bounded. An event's type, task, role and
-- payload are one content of any type; whether it can be marshalled, and what stands for one that cannot,
-- are parameters. Callers leave the number of an event to the stream.
pub mod Resume
use paihuo.Prelude.{
  ℕ, zero, suc, ◌+◌, ◌-◌, Bool, true, false, ◌||◌, Option, none, some, List, [], ◌∷◌, ◌++◌, ◌==◌,
  ltb, if◌then◌else◌, length, take, drop, keep,
}

-- `Event`.
pub record Event (A : Type 0) : Type 0 where
  pub seq : ℕ
  pub content : A
  pub created_at : ℕ

-- `EventStream`: whether there is a store, its table `event_log` with AUTOINCREMENT's counter, the memory
-- that stands in for it, and the queue of each subscriber.
pub record Stream (A : Type 0) : Type 0 where
  pub persistent : Bool
  pub log : List (Event A)
  pub last_seq : ℕ
  pub memory : List (Event A)
  pub next_seq : ℕ
  pub subs : List (List (Event A))

-- `if limit <= 0 || limit > 1000 { limit = 500 }`.
abbrev pub page_size : ℕ → ℕ
page_size limit = if limit == 0 || ltb 1000 limit then 500 else limit

module _ {A : Type 0} where
  -- `select { case ch <- event: default: }` on a channel of capacity 256.
  unfoldable pub offer : Event A → List (Event A) → List (Event A)
  offer e queue = if ltb (length queue) 256 then queue ++ (e ∷ []) else queue

  unfoldable pub offer_all : Event A → List (List (Event A)) → List (List (Event A))
  offer_all e [] = []
  offer_all e (q ∷ qs) = offer e q ∷ offer_all e qs

  -- The memory keeps the last 1000 of more than 2000.
  abbrev pub trimmed : List (Event A) → List (Event A)
  trimmed es = if ltb 2000 (length es) then drop (length es - 1000) es else es

  -- `AppendEvent`.
  unfoldable pub append_event : ℕ → A → Stream A → Stream A × Event A
  append_event now content s =
      let e : Event A = record { seq = suc s.last_seq; content = content; created_at = now } in
      (record s { log = s.log ++ (e ∷ []); last_seq = suc s.last_seq }, e)

  unfoldable pub remember : ℕ → A → Stream A → Stream A × Event A
  remember now content s =
      let e : Event A = record { seq = suc s.next_seq; content = content; created_at = now } in
      (record s { memory = trimmed (s.memory ++ (e ∷ [])); next_seq = suc s.next_seq }, e)

  abbrev pub broadcast : Stream A × Event A → Stream A
  broadcast (s, e) = record s { subs = offer_all e s.subs }

  -- `Publish`.
  unfoldable pub publish : (A → Bool) → A → ℕ → A → Stream A → Stream A
  publish marshals failure now content s =
      let kept = if marshals content then content else failure in
      broadcast (if s.persistent then append_event now kept s else remember now kept s)

  -- `ListEventsAfter`: `WHERE seq > ? ORDER BY seq LIMIT ?`.
  unfoldable pub list_events_after : ℕ → ℕ → Stream A → List (Event A)
  list_events_after after limit s = take (page_size limit) (keep (λ e. ltb after e.seq) s.log)

  -- The loop over the memory, which breaks when the page is full.
  unfoldable pub page_of : ℕ → ℕ → List (Event A) → List (Event A)
  page_of after zero es = []
  page_of after (suc room) [] = []
  page_of after (suc room) (e ∷ es) =
      if ltb after e.seq then e ∷ page_of after room es else page_of after (suc room) es

  -- `History`.
  unfoldable pub history : ℕ → ℕ → Stream A → List (Event A)
  history after limit s =
      if s.persistent
      then list_events_after after (page_size limit) s
      else page_of after (page_size limit) s.memory
