-- ===== src/Indexer/Polling/Answers.antt =====
-- What the loop of a poll may rely on, and what it may miss.
use water_credits_backend.Prelude.{ℕ, ◌+◌, ◌≤◌, ◌<◌, ◌≡◌, none, some, List, [], Mem, ◌⊎◌, All}
use Prim.Native.String.{String}
use water_credits_backend.Indexer.Events.{DecodedEvent}
use water_credits_backend.Indexer.Polling.{
  max_events_per_page, Server, Env, max_ledger, page_end, next_page,
}

-- The answers of getEvents: events from the start ledger on, oldest first, cut off by a count that
-- may end inside a ledger. So every event of the chain before the last ledger of an answer is in it,
-- and an empty answer says that there is none in the ledgers that one call scans. A call may throw.
pub record AnswersInOrder (chain : List DecodedEvent) (server : Server) (ids : List String)
    : Type 0 where
  pub later :
      (start : ℕ) (events : List DecodedEvent)
      → server.get_events ids start ≡ some events
      → All (λ e. start ≤ e.ledger) events
  pub whole :
      (start : ℕ) (events : List DecodedEvent)
      → server.get_events ids start ≡ some events
      → (e : DecodedEvent) → Mem e chain
      → start ≤ e.ledger
      → ((events ≡ []) × (e.ledger < start + max_events_per_page)) ⊎ (e.ledger < max_ledger events)
      → Mem e events

-- The ledgers from which a loop that starts at `current` asks for events.
pub data IsAsked (env : Env) (ids : List String) : ℕ → ℕ → Type 0 where
  first : {current : ℕ} → IsAsked env ids current current
  further :
      {current start : ℕ}
      → IsAsked env ids ((next_page env ids current).processed_ledger_to + 1) start
      → IsAsked env ids current start

-- What the loop may pass over: an event of a page whose call threw, or one in the last ledger of an
-- answer, which the count may have cut off.
pub record MayMiss (env : Env) (ids : List String) (current : ℕ) (e : DecodedEvent) : Type 0 where
  pub start : ℕ
  pub asked : IsAsked env ids current start
  pub from : start ≤ e.ledger
  pub reason :
      ((env.server.get_events ids start ≡ none) × (e.ledger ≤ page_end env start))
      ⊎ ((events : List DecodedEvent) × (env.server.get_events ids start ≡ some events)
          × (e.ledger ≡ max_ledger events))
