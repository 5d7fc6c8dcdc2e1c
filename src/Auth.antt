-- ===== src/Auth.antt =====
-- src/modules/auth/auth.service.ts: challenges in Redis, log-ins with a signed challenge, and refresh
-- tokens. Times are milliseconds.
pub mod Challenges
pub mod Rotation
pub mod RateLimit
mod Tests
use Prim.Native.String.{String}
use text.Mathlib.Text.{◌==◌ as str_eq}
use water_credits_backend.Prelude.{
  ℕ, ◌+◌, ◌*◌, Bool, true, false, not, ◌&&◌, Option, none, some, List, [], ◌∷◌, ltb, ◌==◌, is_some,
  if◌then◌else◌, Entity, find, find_id, update_id, save, ok, err, bad_request, unauthorized,
  conflict, service_unavailable, Result, Action, ◌>>=◌, ◌>>◌, pure, throw_if, require, modify, gets,
  lift,
}
use water_credits_backend.Users.{UserRole, farmer, User}

-- The row of a user with its column refresh_token, a hash.
pub record Account : Type 0 where
  pub user : User
  pub refresh_token : Option String

instance abbrev pub Account-entity : Entity Account
Account-entity = record { id_of = λ a. a.user.id }

-- The value of a key of Redis, and its end.
pub record Challenge : Type 0 where
  pub challenge : String
  pub expires_at : ℕ

-- Redis has at most one value for a key.
pub record Db : Type 0 where
  pub accounts : List Account
  pub challenges : ℕ → Option Challenge

pub record Tokens : Type 0 where
  pub access_token : String
  pub refresh_token : String

-- Redis answers; is too old for GETDEL; is too old and fails on DEL; or is down.
pub data Redis : Type 0 where
  up without_getdel without_del down : Redis

-- Around a call: the clock, Redis, the lower case of a wallet, the random text of a challenge, the
-- check of a signature by the Stellar SDK (`none` is an exception), the tokens that are signed for a
-- user in this call, the user that a valid token names, the hash of a token, and the id that the
-- database generates for a new user.
pub record Env : Type 0 where
  pub now : ℕ
  pub redis : Redis
  pub lower_case : ℕ → ℕ
  pub random : String
  pub verify_signature : ℕ → String → String → Option Bool
  pub tokens : User → Tokens
  pub verify_token : String → Option ℕ
  pub hash : String → String
  pub generated_id : List Account → ℕ

-- CHALLENGE_TTL_SECONDS
abbrev pub challenge_ttl_seconds : ℕ
challenge_ttl_seconds = 300

abbrev pub is_up : Redis → Bool
is_up down = false
is_up _ = true

abbrev pub set_key : ℕ → Option Challenge → (ℕ → Option Challenge) → ℕ → Option Challenge
set_key key value challenges k = if k == key then value else challenges k

module _ (env : Env) where
  abbrev pub new_challenge : Challenge
  new_challenge = record {
    challenge = env.random;
    expires_at = env.now + challenge_ttl_seconds * 1000;
  }

  -- SET key challenge EX ttl
  unfoldable pub generate_challenge : ℕ → Action Db Challenge
  generate_challenge wallet db =
      if is_up env.redis
      then (
        ok new_challenge,
        record db {
          challenges = set_key (env.lower_case wallet) (some new_challenge) db.challenges;
        },
      )
      else (err service_unavailable, db)

  -- GET key
  abbrev pub get_key : ℕ → Db → Option String
  get_key key db = elim (db.challenges key) [
    | none ↦ none
    | some c ↦ if ltb env.now c.expires_at then some c.challenge else none
  ]

  abbrev pub del_key : ℕ → Db → Db
  del_key key db = record db { challenges = set_key key none db.challenges }

  -- GETDEL key
  abbrev pub getdel : ℕ → Action Db (Option String)
  getdel key db = (ok (get_key key db), del_key key db)

  -- GET key, and DEL key if there is a value.
  abbrev pub get_and_del : ℕ → (del_fails : Bool) → Action Db (Option String)
  get_and_del key del_fails db = elim (get_key key db) [
    | none ↦ (ok none, db)
    | some value ↦
        if str_eq value ""
        then (ok (some value), db)
        else if del_fails
        then (err service_unavailable, db)
        else (ok (some value), del_key key db)
  ]

  abbrev pub consume_key : Redis → ℕ → Action Db (Option String)
  consume_key up key db = getdel key db
  consume_key without_getdel key db = get_and_del key false db
  consume_key without_del key db = get_and_del key true db
  consume_key down key db = (err service_unavailable, db)

  unfoldable pub consume_challenge : ℕ → Action Db (Option String)
  consume_challenge wallet = consume_key env.redis (env.lower_case wallet)

  -- `!stored || stored !== challenge`
  abbrev pub is_expected : Option String → String → Bool
  is_expected none challenge = false
  is_expected (some stored) challenge = not (str_eq stored "") && str_eq stored challenge

  -- An exception counts as an invalid signature.
  abbrev pub is_signed : ℕ → String → String → Bool
  is_signed wallet challenge signature = elim (env.verify_signature wallet challenge signature) [
    | none ↦ false
    | some valid ↦ valid
  ]

  abbrev pub find_active : ℕ → List Account → Option Account
  find_active wallet = find (λ a. a.user.wallet == wallet && a.user.is_active)

  unfoldable pub validate_stellar_signature : ℕ → String → String → Action Db (Option Account)
  unfolding consume_challenge
  validate_stellar_signature wallet signature challenge = do
    stored ← consume_challenge wallet
    gets (λ db.
        if is_expected stored challenge && is_signed wallet challenge signature
        then find_active wallet db.accounts
        else none)

  -- UPDATE users SET refresh_token = …
  abbrev pub keep_hash : ℕ → Option String → Db → Db
  keep_hash id token db = record db {
    accounts = update_id id (λ a. record a { refresh_token = token }) db.accounts;
  }

  unfoldable pub issue_tokens : User → Action Db Tokens
  issue_tokens user = do
    tokens ← pure (env.tokens user)
    modify (keep_hash user.id (some (env.hash tokens.refresh_token)))
    pure tokens

  unfoldable pub login : ℕ → String → String → Action Db (Tokens × User)
  unfolding validate_stellar_signature issue_tokens
  login wallet signature challenge = do
    found ← validate_stellar_signature wallet signature challenge
    account ← require found unauthorized
    throw_if (not account.user.is_active) unauthorized
    tokens ← issue_tokens account.user
    pure (tokens, account.user)

  abbrev pub new_account : ℕ → (email display_name : Option String) → List Account → Account
  new_account wallet email display_name accounts = record {
    user = record {
      id = env.generated_id accounts;
      wallet = wallet;
      email = email;
      display_name = display_name;
      role = farmer;
      is_active = true;
      is_kyc_verified = false;
    };
    refresh_token = none;
  }

  abbrev pub insert_account : ℕ → (email display_name : Option String) → Action Db Account
  insert_account wallet email display_name db =
      let a = new_account wallet email display_name db.accounts in
      (ok a, record db { accounts = save a db.accounts })

  unfoldable pub register :
      ℕ → String → String → (email display_name : Option String) → Action Db (Tokens × User)
  unfolding consume_challenge issue_tokens
  register wallet signature challenge email display_name = do
    stored ← consume_challenge wallet
    throw_if (not (is_expected stored challenge)) bad_request
    throw_if (not (is_signed wallet challenge signature)) unauthorized
    existing ← gets (λ db. find (λ a. a.user.wallet == wallet) db.accounts)
    throw_if (is_some existing) conflict
    account ← insert_account wallet email display_name
    tokens ← issue_tokens account.user
    pure (tokens, account.user)

  abbrev pub has_token : String → Account → Bool
  has_token token a = elim a.refresh_token [
    | none ↦ false
    | some stored ↦ not (str_eq stored "") && str_eq stored (env.hash token)
  ]

  abbrev pub find_holder : String → List Account → Option Account
  find_holder token accounts = elim (env.verify_token token) [
    | none ↦ none
    | some sub ↦ elim (find (λ a. a.user.id == sub && a.user.is_active) accounts) [
      | none ↦ none
      | some a ↦ if has_token token a then some a else none
    ]
  ]

  unfoldable pub refresh : String → Action Db Tokens
  unfolding issue_tokens
  refresh token = do
    found ← gets (λ db. find_holder token db.accounts)
    account ← require found unauthorized
    issue_tokens account.user

  unfoldable pub logout : ℕ → Action Db (Unit {0})
  logout user_id = modify (keep_hash user_id none)
