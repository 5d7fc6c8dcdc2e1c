-- ===== src/Indexer/Events/Decoding.antt =====
-- decodeEvent reads back the events that the contracts emit, by the convention in indexer.types.ts.
use Prim.Native.String.{String}
use text.Mathlib.Text.{◌==◌ as str_eq}
use water_credits_backend.Prelude.{◌≡◌, refl, false, some, List, [], ◌∷◌}
use water_credits_backend.Indexer.Events.{
  Value, str, number, big, boolean, object, Fields, empty, field, DecodedEvent, EventSource,
  IndexedEvent, credit_mint, credit_retire, credit_transfer, reading_submitted, proposal_executed,
  vote_cast, Parsing, decode_event,
}

abbrev pub map_of : Fields → Value
map_of fields = object false "[object Object]" fields

abbrev pub emitted : EventSource → String → List Value → Fields → DecodedEvent
emitted source name keys fields = record {
  ledger = source.ledger;
  contract_id = source.contract_id;
  topics = str name ∷ keys;
  value = map_of fields;
  id = source.id;
}

-- The topics and the payload map of each event, as the comments of the decoder give them.
abbrev pub encode : IndexedEvent → DecodedEvent
encode (credit_mint source to amount) =
    emitted source "mint" (str to ∷ []) (field "amount" (big amount) empty)
encode (credit_retire source from amount purpose metadata_uri) =
    emitted source "retire" (str from ∷ []) (
      field "amount" (big amount)
        (field "purpose" (str purpose) (field "metadata_uri" (str metadata_uri) empty)))
encode (credit_transfer source from to amount) =
    emitted source "transfer" (str from ∷ str to ∷ []) (field "amount" (big amount) empty)
encode (reading_submitted source project_id oracle_address nonce credits_awarded) =
    emitted source "reading_submitted" (str project_id ∷ str oracle_address ∷ [])
      (field "nonce" (number nonce) (field "credits_awarded" (big credits_awarded) empty))
encode (proposal_executed source on_chain_proposal_id executed_by) =
    emitted source "proposal_executed" (number on_chain_proposal_id ∷ [])
      (field "executed_by" (str executed_by) empty)
encode (vote_cast source on_chain_proposal_id voter_wallet support) =
    emitted source "vote_cast" (number on_chain_proposal_id ∷ str voter_wallet ∷ [])
      (field "support" (boolean support) empty)

-- The addresses and the project id among the topics are not empty.
abbrev pub HasKeys : IndexedEvent → Type 0
HasKeys (credit_mint source to amount) = str_eq to "" ≡ false
HasKeys (credit_retire source from amount purpose metadata_uri) = str_eq from "" ≡ false
HasKeys (credit_transfer source from to amount) = (str_eq from "" ≡ false) × (str_eq to "" ≡ false)
HasKeys (reading_submitted source project_id oracle_address nonce credits_awarded) =
    (str_eq project_id "" ≡ false) × (str_eq oracle_address "" ≡ false)
HasKeys (proposal_executed source on_chain_proposal_id executed_by) = Unit
HasKeys (vote_cast source on_chain_proposal_id voter_wallet support) =
    str_eq voter_wallet "" ≡ false

-- decodeEvent reads every event that a contract emits back as it was, if the addresses and the
-- project id among its topics are not empty.
pub decode_event-encode :
    (parsing : Parsing) (e : IndexedEvent) → HasKeys e → decode_event parsing (encode e) ≡ some e
unfolding decode_event
decode_event-encode parsing (credit_mint source to amount) h = rw h refl
decode_event-encode parsing (credit_retire source from amount purpose metadata_uri) h = rw h refl
decode_event-encode parsing (credit_transfer source from to amount) h = rw (h.0, h.1) refl
decode_event-encode parsing (reading_submitted source project_id oracle_address nonce credits) h =
    rw (h.0, h.1) refl
decode_event-encode parsing (proposal_executed source on_chain_proposal_id executed_by) h = refl
decode_event-encode parsing (vote_cast source on_chain_proposal_id voter_wallet support) h =
    rw h refl
