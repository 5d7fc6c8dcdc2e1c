-- ===== src/Indexer/Tests.antt =====
-- Runs of the indexer's operations, and the theorems at concrete inputs.
use mathlib.Core.Option.{some_inj}
use Prim.Native.String.{String}
use text.Mathlib.Text.{◌==◌ as str_eq}
use mathlib.Core.Option
use mathlib.Core.Bool.{true≢false}
use mathlib.Core.Logic.Or
use mathlib.Core.List.{Mem-prop, eq-or-mem_of_mem-cons, mem-cons_self, mem-cons_of_mem}
use mathlib.Core.Path.{sym, ◌∙◌}
use water_credits_backend.Prelude.{
  ℕ, pos, ◌≡◌, ◌≤◌, refl, ap, Bool, true, none, some, List, [], ◌∷◌, find_id, if◌then◌else◌, length,
  select, leb, All, Mem, inl, inr, Bool-cases, arith,
}
use water_credits_backend.Governance.Entities.{active, Proposal, Proposal-entity}
use water_credits_backend.Sensors.Entities.{submitted, ReadingBatch, ReadingBatch-entity}
use water_credits_backend.Oracle.Entities as OracleTables
use water_credits_backend.Oracle.Entities.{OracleSubmission, OracleSubmission-entity}
use water_credits_backend.Indexer.Events.{
  DecodedEvent, EventSource, IndexedEvent, reading_submitted, vote_cast, Parsing, decode_event,
}
use water_credits_backend.Indexer.Events.Decoding.{encode, decode_event-encode}
use water_credits_backend.Indexer.Handlers.{Db, dispatch}
use water_credits_backend.Indexer.Handlers.Idempotent.{tables, dispatch_again}
use water_credits_backend.Indexer.Handlers.Tally.{HasTally, dispatch-HasTally}
use water_credits_backend.Indexer.Polling.{
  IndexerCursor, Server, Env, State, resolve_contract_ids, do_poll,
}
use water_credits_backend.Indexer.Polling.Answers.{AnswersInOrder}
use water_credits_backend.Indexer.Polling.Progress.{HasPolled, do_poll-HasPolled}

abbrev parsing : Parsing
parsing = record { big_int = λ _. none; to_number = λ _. none }

abbrev key : String → ℕ
key s = if str_eq s "project-5" then 5 else if str_eq s "oracle" then 9 else 77

abbrev source : ℕ → EventSource
source ledger = record { contract_id = "C"; ledger = ledger; id = "0-1" }

abbrev reading : IndexedEvent
reading = reading_submitted (source 3) "project-5" "oracle" (pos 1) (pos 4)

abbrev vote_event : IndexedEvent
vote_event = vote_cast (source 5) (pos 12) "GVOTER" true

abbrev proposal : Proposal
proposal = record {
  id = 2;
  proposer = 1;
  title = "raise the fee";
  description = none;
  action_type = "config";
  action_params = none;
  votes_for = 0;
  votes_against = 0;
  status = active;
  deadline = 900;
  on_chain_proposal_id = some 12;
  execution_tx_hash = none;
  executed_by = none;
  executed_at = none;
  created_at = 0;
}

abbrev submission : OracleSubmission
submission = record {
  id = 6;
  project_id = 5;
  batch_id = some 8;
  oracle_address = 9;
  nonce = 1;
  tx_hash = "hash";
  status = OracleTables.submitted;
  readings_snapshot = [];
  result = none;
  created_at = 0;
}

abbrev batch : ReadingBatch
batch = record {
  id = 8;
  project_id = 5;
  status = submitted;
  reading_count = 2;
  credits_generated = none;
  submitted_at = some 1;
  confirmed_at = none;
  created_at = 0;
}

abbrev db : Db
db = record {
  projects = [];
  batches = batch ∷ [];
  submissions = submission ∷ [];
  users = [];
  retirements = [];
  proposals = proposal ∷ [];
  votes = [];
  messages = [];
}

decoded : decode_event parsing (encode reading) ≡ some reading
unfolding decode_event
decoded = refl

counted_vote :
    Option.map (λ p. p.votes_for) (find_id 2 (dispatch key 10 vote_event db).proposals) ≡ some 1
unfolding dispatch
counted_vote = refl

confirmed_once :
    Option.map
      (λ b. b.confirmed_at)
      (find_id 8 (dispatch key 20 reading (dispatch key 10 reading db)).batches)
    ≡ some (some 10)
unfolding dispatch
confirmed_once = refl

decode_event-encode_example : decode_event parsing (encode vote_event) ≡ some vote_event
decode_event-encode_example = decode_event-encode parsing vote_event refl

dispatch_again_example :
    tables (dispatch key 20 reading (dispatch key 10 reading db))
    ≡ tables (dispatch key 10 reading db)
dispatch_again_example = dispatch_again key 10 20 reading db

dispatch-HasTally_example : HasTally (dispatch key 10 vote_event db)
dispatch-HasTally_example =
    dispatch-HasTally key 10 vote_event db
      (record { counted = ((refl, refl), tt); one_each = λ id voter. omega arith })

-- A server that answers with every event of the chain from a ledger on.
abbrev chain : List DecodedEvent
chain = encode reading ∷ encode vote_event ∷ []

abbrev server : Server
server = record {
  latest_ledger = 7;
  get_events = λ _ start. some (select (λ e. leb start e.ledger) chain);
}

abbrev env : Env
env = record {
  key = key;
  now = 100;
  parsing = parsing;
  contracts = record {
    credit_factory = none;
    verification_oracle = some "C";
    retirement_registry = none;
    governance = none;
  };
  server = server;
}

abbrev cursor : IndexerCursor
cursor = record { last_indexed_ledger = some 2; last_indexed_at = some 50 }

abbrev state : State
state = record { cursor = some cursor; db = db }

polled : Option.map (λ s. length s.db.messages) (do_poll env state) ≡ some 2
unfolding do_poll
polled = refl

All-later :
    (start : ℕ) (events : List DecodedEvent)
    → All (λ e. start ≤ e.ledger) (select (λ e. leb start e.ledger) events)
All-later start [] = tt
All-later start (x ∷ xs) = elim (Bool-cases (leb start x.ledger)) [
  | inl later ↦ rw later (ground (arith, later), All-later start xs)
  | inr earlier ↦ rw earlier (All-later start xs)
]

mem-select :
    (p : DecodedEvent → Bool) (e : DecodedEvent) (events : List DecodedEvent)
    → p e ≡ true
    → Mem e events
    → Mem e (select p events)
mem-select p e [] h m = m
mem-select p e (x ∷ xs) h m = elim (Bool-cases (p x)) [
  | inl kept ↦ rw kept (
      Or.elim (Mem-prop {a = e} {l = x ∷ select p xs}) (eq-or-mem_of_mem-cons m)
        (λ same. rw same mem-cons_self) (λ later. mem-cons_of_mem x (mem-select p e xs h later)))
  | inr dropped ↦ rw dropped (
      Or.elim (Mem-prop {a = e} {l = select p xs}) (eq-or-mem_of_mem-cons m)
        (λ same. absurd (true≢false (sym h ∙ ap p same ∙ dropped)))
        (λ later. mem-select p e xs h later))
]

server-AnswersInOrder : AnswersInOrder chain server ("C" ∷ [])
server-AnswersInOrder = record {
  later = λ start events answered. rw (sym (some_inj.0 answered)) (All-later start chain);
  whole = λ start events answered e m from _.
      rw (sym (some_inj.0 answered))
        (mem-select (λ x. leb start x.ledger) e chain (ground arith) m);
}

do_poll-HasPolled_example : HasPolled chain env ("C" ∷ []) 3 state (do_poll env state)
unfolding resolve_contract_ids
do_poll-HasPolled_example =
    do_poll-HasPolled chain env "C" [] refl server-AnswersInOrder state cursor 2 refl refl
