-- ===== src/Indexer/Polling/Progress.antt =====
-- Every poll ends; which events it processes, and which it may miss.
use water_credits_backend.Prelude.{
  ℕ, zero, suc, ◌+◌, ◌-◌, ◌≤◌, ◌<◌, ◌≡◌, refl, Option, none, some, List, [], ◌∷◌, ◌++◌, Mem,
  mem-append_left, mem-append_right, ltb, arith, Bool-cases, Option-cases, inl, inr, ◌⊎◌, true,
  false, ◌∙◌, sym,
}
use mathlib.Core.Option
use Prim.Native.String.{String}
use water_credits_backend.Indexer.Events.{DecodedEvent, decode_event}
use water_credits_backend.Indexer.Handlers.{Db, dispatch}
use water_credits_backend.Indexer.Polling.{
  IndexerCursor, Env, State, resolve_contract_ids, max_ledger, Page, page_of, fetch_events,
  process_events, page_end, next_page, poll_page, poll_loop, poll_pages, do_poll,
}
use water_credits_backend.Indexer.Polling.Answers.{AnswersInOrder, first, further, MayMiss}

process_events-append :
    (env : Env) (xs ys : List DecodedEvent) (db : Db)
    → process_events env (xs ++ ys) db ≡ process_events env ys (process_events env xs db)
unfolding process_events
process_events-append env [] ys db = refl
process_events-append env (x ∷ xs) ys db = elim (Option-cases (decode_event env.parsing x)) [
  | inl unknown ↦ ground (arith, unknown, process_events-append env xs ys db)
  | inr (e, known) ↦
      ground (arith, known, process_events-append env xs ys (dispatch env.key env.now e db))
]

max_ledger-ge :
    (start : ℕ) (e : DecodedEvent) (rest : List DecodedEvent)
    → start ≤ e.ledger
    → start ≤ max_ledger (e ∷ rest)
max_ledger-ge start e rest h = omega arith

module _ (chain : List DecodedEvent) (env : Env) (ids : List String) where
  open env use {server}

  -- What the loop owes from a ledger on: the events that it processed, with every event of the chain
  -- up to the tip among them but for those that it may miss.
  pub record HasPolled (current : ℕ) (s : State) (polled : Option State) : Type 0 where
    pub final : State
    pub ends : polled ≡ some final
    pub events : List DecodedEvent
    pub processed : final.db ≡ process_events env events s.db
    pub complete :
        (e : DecodedEvent)
        → Mem e chain
        → current ≤ e.ledger
        → e.ledger ≤ server.latest_ledger
        → Mem e events ⊎ MayMiss env ids current e
    pub idle : server.latest_ledger < current → final ≡ s
    pub reached :
        current ≤ server.latest_ledger
        → Option.map (λ c. c.last_indexed_ledger) final.cursor ≡ some (some server.latest_ledger)

  -- A page makes progress, stays below the tip, and holds what the chain has up to its end but for
  -- what may be missed.
  abbrev IsSolid : ℕ → Page → Type 0
  IsSolid current page =
      (current ≤ page.processed_ledger_to)
      × (page.processed_ledger_to ≤ server.latest_ledger)
      × ((e : DecodedEvent)
          → Mem e chain
          → current ≤ e.ledger
          → e.ledger ≤ page.processed_ledger_to
          → Mem e page.events ⊎ MayMiss env ids current e)

  page-IsSolid :
      AnswersInOrder chain server ids
      → (current : ℕ) (answer : Option (List DecodedEvent)) → server.get_events ids current ≡ answer
      → current ≤ server.latest_ledger
      → IsSolid current (page_of (page_end env current) answer)
  page-IsSolid ordered current none thrown below = (
    omega arith,
    omega arith,
    λ e m from to.
        inr (record { start = current; asked = first; from = from; reason = inl (thrown, to) }),
  )
  page-IsSolid ordered current (some []) empty below = (
    omega arith,
    omega arith,
    λ e m from to. inl (ordered.whole current [] empty e m from (inl (refl, omega arith))),
  )
  page-IsSolid ordered current (some (x ∷ xs)) answered below =
      let later = ordered.later current (x ∷ xs) answered in
      (
        omega (arith, later.0),
        omega arith,
        λ e m from to. elim (Bool-cases (ltb e.ledger (max_ledger (x ∷ xs)))) [
          | inl before ↦ inl (ordered.whole current (x ∷ xs) answered e m from (inr (ground arith)))
          | inr last ↦ inr (record {
            start = current;
            asked = first;
            from = from;
            reason = inr (x ∷ xs, answered, ground arith);
          })
        ],
      )

  next_page-IsSolid :
      AnswersInOrder chain server ids
      → (current : ℕ) → current ≤ server.latest_ledger
      → IsSolid current (next_page env ids current)
  unfolding fetch_events
  next_page-IsSolid ordered current below =
      page-IsSolid ordered current (server.get_events ids current) refl below

  past : (current : ℕ) → server.latest_ledger < current → ltb server.latest_ledger current ≡ true
  past current h = ground arith

  nothing_left :
      (current : ℕ) (s : State) → server.latest_ledger < current → HasPolled current s (some s)
  unfolding process_events
  nothing_left current s over = record {
    final = s;
    ends = refl;
    events = [];
    processed = refl;
    complete = λ e m from to. absurd (omega arith);
    idle = λ _. refl;
    reached = λ below. absurd (omega arith);
  }

  further-MayMiss :
      (current : ℕ) (e : DecodedEvent)
      → MayMiss env ids ((next_page env ids current).processed_ledger_to + 1) e
      → MayMiss env ids current e
  further-MayMiss current e missed = record {
    start = missed.start;
    asked = further missed.asked;
    from = missed.from;
    reason = missed.reason;
  }

  -- A page, and what was polled after it.
  page-HasPolled :
      (current : ℕ) (s : State)
      → let page = next_page env ids current in
        IsSolid current page
        → (polled : Option State)
        → HasPolled (page.processed_ledger_to + 1) (poll_page env page s) polled
        → HasPolled current s polled
  unfolding poll_page
  page-HasPolled current s solid polled rest =
      let page = next_page env ids current in
      record {
        final = rest.final;
        ends = rest.ends;
        events = page.events ++ rest.events;
        processed = rest.processed ∙ sym (process_events-append env page.events rest.events s.db);
        complete = λ e m from to. elim (Bool-cases (ltb page.processed_ledger_to e.ledger)) [
          | inl later ↦ elim (rest.complete e m (ground arith) to) [
            | inl there ↦ inl (mem-append_right page.events there)
            | inr missed ↦ inr (further-MayMiss current e missed)
          ]
          | inr within ↦ elim (solid.2 e m from (ground arith)) [
            | inl there ↦ inl (mem-append_left rest.events there)
            | inr missed ↦ inr missed
          ]
        ];
        idle = λ over. absurd (omega (arith, solid.0, solid.1));
        reached = λ below. elim (Bool-cases (ltb page.processed_ledger_to server.latest_ledger)) [
          | inl more ↦ rest.reached (ground arith)
          | inr all_done ↦ rw (rest.idle (ground arith)) (ground (arith, solid.1))
        ];
      }

  poll_loop-HasPolled :
      AnswersInOrder chain server ids
      → (fuel current : ℕ) (s : State) → server.latest_ledger < current + fuel
      → HasPolled current s (poll_loop fuel env ids current s)
  unfolding poll_loop
  poll_loop-HasPolled ordered zero current s enough =
      rw (past current (omega arith)) (nothing_left current s (omega arith))
  poll_loop-HasPolled ordered (suc fuel) current s enough =
      elim (Bool-cases (ltb server.latest_ledger current)) [
        | inl over ↦ rw over (nothing_left current s (ground arith))
        | inr goes_on ↦
            let below : current ≤ server.latest_ledger = ground arith in
            let page = next_page env ids current in
            let solid = next_page-IsSolid ordered current below in
            let rest =
              poll_loop-HasPolled ordered fuel (page.processed_ledger_to + 1) (poll_page env page s)
                (omega (arith, solid.0)) in
            rw goes_on (page-HasPolled current s solid _ rest)
      ]

-- From a cursor there is nothing to do, or the pages after it.
module _ (env : Env) (s : State) (cursor : IndexerCursor) (last : ℕ)
    (there : s.cursor ≡ some cursor) (at : cursor.last_indexed_ledger ≡ some last) where
  poll-over : ltb env.server.latest_ledger (last + 1) ≡ true → do_poll env s ≡ some s
  unfolding do_poll
  poll-over over = ground (arith, there, at, over)

  poll-behind :
      ltb env.server.latest_ledger (last + 1) ≡ false
      → do_poll env s ≡ poll_pages env (resolve_contract_ids env.contracts) last s
  unfolding do_poll
  poll-behind behind = ground (arith, there, at, behind)

module _ (chain : List DecodedEvent) (env : Env) (id : String) (ids : List String)
    (configured : resolve_contract_ids env.contracts ≡ id ∷ ids)
    (ordered : AnswersInOrder chain env.server (id ∷ ids)) where
  -- Where contracts are configured and getEvents answers in order, a poll from a cursor ends with
  -- the loop's fuel, also where calls throw or answers are cut off. It leaves the tables as processing
  -- some events in turn does. Among them is every event of the chain after the cursor and up to the
  -- tip, but for those of a page whose call threw and those in the last ledger of an answer. The
  -- cursor moves to the tip, unless it is there or beyond, where nothing changes.
  pub do_poll-HasPolled :
      (s : State) (cursor : IndexerCursor) (last : ℕ)
      → s.cursor ≡ some cursor
      → cursor.last_indexed_ledger ≡ some last
      → HasPolled chain env (id ∷ ids) (last + 1) s (do_poll env s)
  do_poll-HasPolled s cursor last there at =
      elim (Bool-cases (ltb env.server.latest_ledger (last + 1))) [
        | inl over ↦
            rw (poll-over env s cursor last there at over)
              (nothing_left chain env (id ∷ ids) (last + 1) s (ground arith))
        | inr behind ↦
            rw (poll-behind env s cursor last there at behind, configured)
              (poll_loop-HasPolled chain env (id ∷ ids) ordered (env.server.latest_ledger - last)
                (last + 1) s (ground arith))
      ]
