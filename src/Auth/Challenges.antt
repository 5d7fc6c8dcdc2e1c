-- ===== src/Auth/Challenges.antt =====
-- What an attempt to log in leaves of a challenge.
use Prim.Native.String.{String}
use package.text.Mathlib.Text.{◌==◌ as str_eq}
use mathlib.Core.Option.{some-injective}
use water_credits_backend.Prelude.{
  ℕ, ◌≤◌, ◌≡◌, ◌≢◌, ◌⊎◌, refl, ap, sym, ◌∙◌, Bool, true, false, ◌&&◌, Option, none, some, ltb,
  ==_refl, arith, Bool-cases, Option-cases, inl, inr, if◌then◌else◌, Result, HttpError, ok, err,
  bad_request, unauthorized, service_unavailable,
}
use water_credits_backend.Auth.{
  Account-entity, Challenge, Db, Redis, up, without_getdel, without_del, down, Env, get_key,
  del_key, get_and_del, consume_key, is_expected, is_signed, find_active, login, register,
}

-- No challenge is expected under the key at any later time.
abbrev pub IsSpent : ℕ → ℕ → Db → Type 0
IsSpent now key db =
    (later : Env) (challenge : String)
    → now ≤ later.now
    → is_expected later (get_key later key db) challenge ≡ false

deleted-IsSpent : (env : Env) (key : ℕ) (db : Db) → IsSpent env.now key (del_key env key db)
deleted-IsSpent env key db later challenge after = ground (arith, ==_refl key)

missing-IsSpent :
    (env : Env) (key : ℕ) (db : Db) → get_key env key db ≡ none → IsSpent env.now key db
missing-IsSpent env key db missing later challenge after = elim (Option-cases (db.challenges key)) [
  | inl nothing ↦ ground (arith, nothing)
  | inr (c, there) ↦ ground (arith, there)
]

blank-IsSpent :
    (env : Env) (key : ℕ) (db : Db) (value : String)
    → get_key env key db ≡ some value
    → str_eq value "" ≡ true
    → IsSpent env.now key db
blank-IsSpent env key db value there blank later challenge after =
    elim (Option-cases (db.challenges key)) [
      | inl nothing ↦ ground (arith, nothing)
      | inr (c, held) ↦ elim (Bool-cases (ltb later.now c.expires_at)) [
        | inr expired ↦ ground (arith, held, expired)
        | inl live ↦
            let same : some c.challenge ≡ some value = ground (arith, held) in
            ground
              (arith, held, live, ap (λ s. str_eq s "") (some-injective c.challenge value same))
      ]
    ]

-- Redis is not available and nothing is changed; or it answers what it has, which is spent then.
abbrev pub IsConsumed : Env → Redis → ℕ → Db → Type 0
IsConsumed env redis key db =
    (consume_key env redis key db ≡ (err service_unavailable, db))
    ⊎ ((after : Db) × (consume_key env redis key db ≡ (ok (get_key env key db), after))
        × IsSpent env.now key after)

get_and_del-IsConsumed :
    (env : Env) (key : ℕ) (db : Db) (del_fails : Bool)
    → (get_and_del env key del_fails db ≡ (err service_unavailable, db))
      ⊎ ((after : Db) × (get_and_del env key del_fails db ≡ (ok (get_key env key db), after))
          × IsSpent env.now key after)
get_and_del-IsConsumed env key db del_fails = elim (Option-cases (get_key env key db)) [
  | inl missing ↦ inr (db, ground (arith, missing), missing-IsSpent env key db missing)
  | inr (value, there) ↦ elim (Bool-cases (str_eq value "")) [
    | inl blank ↦ inr (db, ground (arith, there, blank), blank-IsSpent env key db value there blank)
    | inr filled ↦ elim (Bool-cases del_fails) [
      | inl broken ↦ inl (ground (arith, there, filled, broken))
      | inr works ↦
          inr (del_key env key db, ground (arith, there, filled, works), deleted-IsSpent env key db)
    ]
  ]
]

consume_key-IsConsumed :
    (env : Env) (redis : Redis) (key : ℕ) (db : Db) → IsConsumed env redis key db
consume_key-IsConsumed env up key db = inr (del_key env key db, refl, deleted-IsSpent env key db)
consume_key-IsConsumed env without_getdel key db = get_and_del-IsConsumed env key db false
consume_key-IsConsumed env without_del key db = get_and_del-IsConsumed env key db true
consume_key-IsConsumed env down key db = inl refl

still-IsSpent :
    (now key key' : ℕ) (db db' : Db)
    → key ≡ key'
    → db'.challenges ≡ db.challenges
    → IsSpent now key db
    → IsSpent now key' db'
still-IsSpent now key key' db db' same_key same_challenges spent later challenge after =
    ap (λ (o : Option Challenge). is_expected later (live later o) challenge)
      (ap (λ (i : ℕ). db'.challenges i) (sym same_key) ∙ ap (λ f. f key) same_challenges)
    ∙ spent later challenge after
  where
    live : Env → Option Challenge → Option String
    live e none = none
    live e (some c) = if ltb e.now c.expires_at then some c.challenge else none

-- The call did not succeed.
abbrev pub IsRefused : {A : Type 0} → Result A → Type 0
IsRefused r = (e : HttpError) × (r ≡ err e)

module _ (env : Env) (wallet : ℕ) (signature challenge : String) (db : Db) where
  login-unavailable :
      consume_key env env.redis (env.lower_case wallet) db ≡ (err service_unavailable, db)
      → login env wallet signature challenge db ≡ (err service_unavailable, db)
  unfolding login
  login-unavailable off = ground (arith, off)

  -- An answer that is not the expected challenge is unauthorized.
  login-unexpected :
      (stored : Option String) (after : Db)
      → consume_key env env.redis (env.lower_case wallet) db ≡ (ok stored, after)
      → is_expected env stored challenge ≡ false
      → login env wallet signature challenge db ≡ (err unauthorized, after)
  unfolding login
  login-unexpected stored after answered wrong = ground (arith, answered, wrong)

  -- After Redis answered, a log-in changes accounts only.
  login-challenges :
      (stored : Option String) (after : Db)
      → consume_key env env.redis (env.lower_case wallet) db ≡ (ok stored, after)
      → (login env wallet signature challenge db).1.challenges ≡ after.challenges
  unfolding login
  login-challenges stored after answered =
      elim (Bool-cases
        (is_expected env stored challenge && is_signed env wallet challenge signature)) [
          | inr bad ↦ ground (arith, answered, bad)
          | inl good ↦ elim (Option-cases (find_active env wallet after.accounts)) [
            | inl no_user ↦ ground (arith, answered, good, no_user)
            | inr (a, found) ↦ elim (Bool-cases a.user.is_active) [
              | inl active ↦ ground (arith, answered, good, found, active)
              | inr inactive ↦ ground (arith, answered, good, found, inactive)
            ]
          ]
        ]

module _ (env : Env) (wallet : ℕ) (signature challenge : String)
    (email display_name : Option String) (db : Db) where
  register-unavailable :
      consume_key env env.redis (env.lower_case wallet) db ≡ (err service_unavailable, db)
      → register env wallet signature challenge email display_name db
        ≡ (err service_unavailable, db)
  unfolding register
  register-unavailable off = ground (arith, off)

  register-unexpected :
      (stored : Option String) (after : Db)
      → consume_key env env.redis (env.lower_case wallet) db ≡ (ok stored, after)
      → is_expected env stored challenge ≡ false
      → register env wallet signature challenge email display_name db ≡ (err bad_request, after)
  unfolding register
  register-unexpected stored after answered wrong = ground (arith, answered, wrong)

-- Under a spent key, nobody logs in or registers.
module _ (later : Env) (wallet : ℕ) (signature challenge : String) (now : ℕ) (db : Db)
    (spent : IsSpent now (later.lower_case wallet) db) (after : now ≤ later.now) where
  spent-login : IsRefused (login later wallet signature challenge db).0
  spent-login = elim (consume_key-IsConsumed later later.redis (later.lower_case wallet) db) [
    | inl off ↦ (
      service_unavailable,
      ap (λ r. r.0) (login-unavailable later wallet signature challenge db off),
    )
    | inr (db', answered, _) ↦ (
      unauthorized,
      ap (λ r. r.0)
          (login-unexpected later wallet signature challenge db
            (get_key later (later.lower_case wallet) db) db' answered
            (spent later challenge after)),
    )
  ]

  spent-register :
      (email display_name : Option String)
      → IsRefused (register later wallet signature challenge email display_name db).0
  spent-register email display_name =
      elim (consume_key-IsConsumed later later.redis (later.lower_case wallet) db) [
        | inl off ↦ (
          service_unavailable,
          ap (λ r. r.0)
              (register-unavailable later wallet signature challenge email display_name db off),
        )
        | inr (db', answered, _) ↦ (
          bad_request,
          ap (λ r. r.0)
              (register-unexpected later wallet signature challenge email display_name db
                (get_key later (later.lower_case wallet) db) db' answered
                (spent later challenge after)),
        )
      ]

-- After an attempt to log in, successful or not, for which Redis was available, no later attempt to
-- log in or to register with the same wallet succeeds, whatever its challenge and signature, before a
-- new challenge is generated.
pub login_once :
    (env later : Env) (wallet : ℕ) (signature challenge signature' challenge' : String)
    (email display_name : Option String) (db : Db)
    → (login env wallet signature challenge db).0 ≢ err service_unavailable
    → later.lower_case wallet ≡ env.lower_case wallet
    → env.now ≤ later.now
    → IsRefused
        (login later wallet signature' challenge' (login env wallet signature challenge db).1).0
      × IsRefused
          (register later wallet signature' challenge' email display_name
            (login env wallet signature challenge db).1).0
login_once env later wallet signature challenge signature' challenge' email display_name db answered
      same after =
    elim (consume_key-IsConsumed env env.redis (env.lower_case wallet) db) [
      | inl off ↦
          absurd
            (answered (ap (λ r. r.0) (login-unavailable env wallet signature challenge db off)))
      | inr (db', consumed, gone) ↦
          let stored = get_key env (env.lower_case wallet) db in
          let left = (login env wallet signature challenge db).1 in
          let spent : IsSpent env.now (later.lower_case wallet) left =
            still-IsSpent env.now (env.lower_case wallet) (later.lower_case wallet) db' left
              (sym same) (login-challenges env wallet signature challenge db stored db' consumed)
              gone in
          (
            spent-login later wallet signature' challenge' env.now left spent after,
            spent-register later wallet signature' challenge' env.now left spent after email
                display_name,
          )
    ]
