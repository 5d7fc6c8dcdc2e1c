-- ===== src/Indexer/Events.antt =====
-- indexer.types.ts: decoded events, the typed events, and decodeEvent.
pub mod Decoding
use Prim.Native.String.{String}
use text.Mathlib.Text.{◌==◌ as str_eq}
use water_credits_backend.Prelude.{
  ℕ, ℤ, pos, Bool, true, false, Option, none, some, List, [], ◌∷◌, or_else, if◌then◌else◌,
}

-- What scValToNative makes of a ScVal. Its numbers are whole. `object` is an object or, with the
-- mark, an array: what its toString answers, and its keys with their values.
mutual
  pub data Value : Type 0 where
    missing : Value
    str : String → Value
    number : ℤ → Value
    big : ℤ → Value
    boolean : Bool → Value
    object : (is_array : Bool) → String → Fields → Value

  pub data Fields : Type 0 where
    empty : Fields
    field : String → Value → Fields → Fields

pub record DecodedEvent : Type 0 where
  pub ledger : ℕ
  pub contract_id : String
  pub topics : List Value
  pub value : Value
  pub id : String

pub record EventSource : Type 0 where
  pub contract_id : String
  pub ledger : ℕ
  pub id : String

-- IndexedEvent, by `kind`.
pub data IndexedEvent : Type 0 where
  credit_mint : EventSource → (to : String) (amount : ℤ) → IndexedEvent
  credit_retire :
      EventSource → (from : String) (amount : ℤ) (purpose metadata_uri : String) → IndexedEvent
  credit_transfer : EventSource → (from to : String) (amount : ℤ) → IndexedEvent
  reading_submitted :
      EventSource → (project_id oracle_address : String) (nonce credits_awarded : ℤ) → IndexedEvent
  proposal_executed : EventSource → (on_chain_proposal_id : ℤ) (executed_by : String) → IndexedEvent
  vote_cast :
      EventSource
      → (on_chain_proposal_id : ℤ) (voter_wallet : String) (support : Bool) → IndexedEvent

-- JavaScript's own readings of a text: `BigInt(s)`, where `none` is the exception, and `Number(s)`,
-- where `none` is NaN.
pub record Parsing : Type 0 where
  pub big_int : String → Option ℤ
  pub to_number : String → Option ℤ

abbrev pub as_string : Value → Option String
as_string (str s) = some s
as_string (object _ s _) = if str_eq s "[object Object]" then none else some s
as_string _ = none

abbrev pub as_map : Value → Option Fields
as_map (object false _ fields) = some fields
as_map _ = none

abbrev pub as_big_int : Parsing → Value → Option ℤ
as_big_int parsing (big n) = some n
as_big_int parsing (number n) = some n
as_big_int parsing (str s) = parsing.big_int s
as_big_int parsing _ = none

abbrev pub as_boolean : Value → Option Bool
as_boolean (boolean b) = some b
as_boolean _ = none

abbrev pub as_number : Parsing → Value → Option ℤ
as_number parsing (number n) = some n
as_number parsing (big n) = some n
as_number parsing (str s) = parsing.to_number s
as_number parsing _ = none

-- `keyTopics[i]` and `payload[key]`; what is not there is undefined.
abbrev pub first : List Value → Value
first [] = missing
first (v ∷ _) = v

abbrev pub second : List Value → Value
second (_ ∷ v ∷ _) = v
second _ = missing

abbrev pub lookup_field : String → Fields → Value
lookup_field key empty = missing
lookup_field key (field k v rest) = if str_eq k key then v else lookup_field key rest

-- `if (!s) return null`: an absent text, and the empty one.
abbrev pub as_filled : Value → Option String
as_filled v = elim (as_string v) [ none ↦ none | some s ↦ if str_eq s "" then none else some s ]

infixl 5 ◌>>=◌
abbrev pub ◌>>=◌ : {A B : Type 0} → Option A → (A → Option B) → Option B
none >>= f = none
some a >>= f = f a

module _ (parsing : Parsing) (source : EventSource) where
  unfoldable pub decode_mint : List Value → Value → Option IndexedEvent
  decode_mint keys value = do
    to ← as_filled (first keys)
    payload ← as_map value
    amount ← as_big_int parsing (lookup_field "amount" payload)
    some (credit_mint source to amount)

  unfoldable pub decode_retire : List Value → Value → Option IndexedEvent
  decode_retire keys value = do
    from ← as_filled (first keys)
    payload ← as_map value
    amount ← as_big_int parsing (lookup_field "amount" payload)
    some (
        credit_retire source from amount (or_else (as_string (lookup_field "purpose" payload)) "")
          (or_else (as_string (lookup_field "metadata_uri" payload)) ""))

  unfoldable pub decode_transfer : List Value → Value → Option IndexedEvent
  decode_transfer keys value = do
    from ← as_filled (first keys)
    to ← as_filled (second keys)
    payload ← as_map value
    amount ← as_big_int parsing (lookup_field "amount" payload)
    some (credit_transfer source from to amount)

  unfoldable pub decode_reading : List Value → Value → Option IndexedEvent
  decode_reading keys value = do
    project_id ← as_filled (first keys)
    oracle_address ← as_filled (second keys)
    payload ← as_map value
    nonce ← as_number parsing (lookup_field "nonce" payload)
    some (
        reading_submitted source project_id oracle_address nonce
          (or_else (as_big_int parsing (lookup_field "credits_awarded" payload)) (pos 0)))

  unfoldable pub decode_executed : List Value → Value → Option IndexedEvent
  decode_executed keys value = do
    on_chain_proposal_id ← as_number parsing (first keys)
    payload ← as_map value
    some (
        proposal_executed source on_chain_proposal_id
          (or_else (as_string (lookup_field "executed_by" payload)) ""))

  unfoldable pub decode_vote : List Value → Value → Option IndexedEvent
  decode_vote keys value = do
    on_chain_proposal_id ← as_number parsing (first keys)
    voter_wallet ← as_filled (second keys)
    payload ← as_map value
    support ← as_boolean (lookup_field "support" payload)
    some (vote_cast source on_chain_proposal_id voter_wallet support)

  unfoldable pub decode_named : String → List Value → Value → Option IndexedEvent
  unfolding decode_mint decode_retire decode_transfer decode_reading decode_executed decode_vote
  decode_named name keys value =
      if str_eq name "mint"
      then decode_mint keys value
      else if str_eq name "retire"
      then decode_retire keys value
      else if str_eq name "transfer"
      then decode_transfer keys value
      else if str_eq name "reading_submitted"
      then decode_reading keys value
      else if str_eq name "proposal_executed"
      then decode_executed keys value
      else if str_eq name "vote_cast"
      then decode_vote keys value
      else none

abbrev pub source_of : DecodedEvent → EventSource
source_of raw = record { contract_id = raw.contract_id; ledger = raw.ledger; id = raw.id }

unfoldable pub decode_topics : Parsing → EventSource → List Value → Value → Option IndexedEvent
unfolding decode_named
decode_topics parsing source (str name ∷ keys) value = decode_named parsing source name keys value
decode_topics parsing source _ value = none

unfoldable pub decode_event : Parsing → DecodedEvent → Option IndexedEvent
unfolding decode_topics
decode_event parsing raw = decode_topics parsing (source_of raw) raw.topics raw.value
