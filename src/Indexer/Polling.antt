-- ===== src/Indexer/Polling.antt =====
-- IndexerService.doPoll: the cursor over the ledgers, and the pages of events.
pub mod Answers
pub mod Progress
use Prim.Native.String.{String}
use text.Mathlib.Text.{◌==◌ as str_eq}
use water_credits_backend.Prelude.{
  ℕ, zero, suc, ◌+◌, ◌-◌, min, max, Bool, Option, none, some, List, [], ◌∷◌, ltb, or_else,
  if◌then◌else◌,
}
use water_credits_backend.Indexer.Events.{DecodedEvent, Parsing, decode_event}
use water_credits_backend.Indexer.Handlers.{Db, dispatch}

-- The row `main` of indexer_cursor.
pub record IndexerCursor : Type 0 where
  pub last_indexed_ledger : Option ℕ
  pub last_indexed_at : Option ℕ

-- The contract ids of the configuration.
pub record Contracts : Type 0 where
  pub credit_factory : Option String
  pub verification_oracle : Option String
  pub retirement_registry : Option String
  pub governance : Option String

-- What the RPC server answers in a poll: getLatestLedger, and getEvents from a ledger on with its
-- topics and values decoded, where `none` is an exception.
pub record Server : Type 0 where
  pub latest_ledger : ℕ
  pub get_events : List String → ℕ → Option (List DecodedEvent)

pub record Env : Type 0 where
  pub key : String → ℕ
  pub now : ℕ
  pub parsing : Parsing
  pub contracts : Contracts
  pub server : Server

pub record State : Type 0 where
  pub cursor : Option IndexerCursor
  pub db : Db

-- MAX_EVENTS_PER_PAGE
abbrev pub max_events_per_page : ℕ
max_events_per_page = 10_000

-- `if (id) ids.push(id)`
abbrev pub push_if_set : Option String → List String → List String
push_if_set none ids = ids
push_if_set (some id) ids = if str_eq id "" then ids else id ∷ ids

unfoldable pub resolve_contract_ids : Contracts → List String
resolve_contract_ids c = push_if_set c.credit_factory (
    push_if_set c.verification_oracle
      (push_if_set c.retirement_registry (push_if_set c.governance [])))

abbrev pub max_ledger : List DecodedEvent → ℕ
max_ledger [] = 0
max_ledger (e ∷ rest) = max e.ledger (max_ledger rest)

-- The page of events, and the ledger that it was processed up to.
pub record Page : Type 0 where
  pub events : List DecodedEvent
  pub processed_ledger_to : ℕ

abbrev pub page_of : ℕ → Option (List DecodedEvent) → Page
page_of page_to none = record { events = []; processed_ledger_to = page_to }
page_of page_to (some []) = record { events = []; processed_ledger_to = page_to }
page_of page_to (some (e ∷ rest)) = record {
  events = e ∷ rest;
  processed_ledger_to = min (max_ledger (e ∷ rest)) page_to;
}

unfoldable pub fetch_events : Server → List String → ℕ → ℕ → Page
fetch_events server contract_ids from_ledger page_to =
    page_of page_to (server.get_events contract_ids from_ledger)

unfoldable pub process_events : Env → List DecodedEvent → Db → Db
unfolding decode_event dispatch
process_events env [] db = db
process_events env (raw ∷ rest) db = elim (decode_event env.parsing raw) [
  | none ↦ process_events env rest db
  | some event ↦ process_events env rest (dispatch env.key env.now event db)
]

abbrev pub page_end : Env → ℕ → ℕ
page_end env current = min (current + max_events_per_page - 1) env.server.latest_ledger

abbrev pub next_page : Env → List String → ℕ → Page
next_page env contract_ids current =
    fetch_events env.server contract_ids current (page_end env current)

-- One round of the loop: the events, then the cursor.
unfoldable pub poll_page : Env → Page → State → State
unfolding process_events
poll_page env page s = record {
  cursor = some (record {
    last_indexed_ledger = some page.processed_ledger_to;
    last_indexed_at = some env.now;
  });
  db = process_events env page.events s.db;
}

-- `while (currentLedger <= chainTipLedger)`; `none` means that the fuel ran out.
unfoldable pub poll_loop : ℕ → Env → List String → ℕ → State → Option State
unfolding fetch_events poll_page
poll_loop zero env contract_ids current s =
    if ltb env.server.latest_ledger current then some s else none
poll_loop (suc fuel) env contract_ids current s =
    let page = next_page env contract_ids current in
    let rest =
      poll_loop fuel env contract_ids (page.processed_ledger_to + 1) (poll_page env page s) in
    if ltb env.server.latest_ledger current then some s else rest

abbrev pub new_cursor : IndexerCursor
new_cursor = record { last_indexed_ledger = none; last_indexed_at = none }

-- Where contract ids are configured: the pages after the last indexed ledger.
abbrev pub poll_pages : Env → List String → ℕ → State → Option State
poll_pages env [] last s = some s
poll_pages env (id ∷ ids) last s =
    poll_loop (env.server.latest_ledger - last) env (id ∷ ids) (last + 1) s

abbrev pub poll_from : Env → IndexerCursor → State → Option State
poll_from env cursor s = elim cursor.last_indexed_ledger [
  | none ↦ some (record s {
    cursor = some (record cursor { last_indexed_ledger = some (env.server.latest_ledger - 1) });
  })
  | some last ↦
      if ltb env.server.latest_ledger (last + 1)
      then some s
      else poll_pages env (resolve_contract_ids env.contracts) last s
]

unfoldable pub do_poll : Env → State → Option State
unfolding resolve_contract_ids poll_loop
do_poll env s = poll_from env (or_else s.cursor new_cursor) s
