-- ===== src/Auth/Rotation.antt =====
-- What a refresh leaves of the tokens.
use Prim.Native.String.{String}
use package.text.Mathlib.Text.{◌==◌ as str_eq}
use package.text.Mathlib.TextEquality.{eq_iff}
use mathlib.Core.Option.{some-injective}
use water_credits_backend.Prelude.{
  ℕ, ◌≡◌, refl, ap, sym, ◌∙◌, Bool, false, ◌&&◌, none, some, List, ◌==◌, arith, Option-cases, inl,
  inr, find, find_found, find-update_id, ok, err, unauthorized,
}
use water_credits_backend.Auth.{
  Account, Account-entity, Db, Tokens, Env, keep_hash, find_holder, refresh,
}

module _ (env : Env) (token : String) (db : Db) where
  refresh-unknown :
      find_holder env token db.accounts ≡ none → refresh env token db ≡ (err unauthorized, db)
  unfolding refresh
  refresh-unknown unknown = ground arith

  refresh-holder :
      (a : Account)
      → find_holder env token db.accounts ≡ some a
      → refresh env token db ≡ (
        ok (env.tokens a.user),
        keep_hash env a.user.id (some (env.hash (env.tokens a.user).refresh_token)) db,
      )
  unfolding refresh
  refresh-holder a found = ground arith

abbrev pub is_active_user : ℕ → Account → Bool
is_active_user id a = a.user.id == id && a.user.is_active

-- The holder of a token is the active user that the token names.
record IsHeld (env : Env) (token : String) (accounts : List Account) (a : Account) : Type 0 where
  pub named : env.verify_token token ≡ some a.user.id
  pub found : find (is_active_user a.user.id) accounts ≡ some a

held :
    (env : Env) (token : String) (accounts : List Account) (a : Account)
    → find_holder env token accounts ≡ some a
    → IsHeld env token accounts a
held env token accounts a h = elim (Option-cases (env.verify_token token)) [
  | inl invalid ↦ absurd (ground (arith, invalid))
  | inr (sub, valid) ↦ elim (Option-cases (find (is_active_user sub) accounts)) [
    | inl missing ↦ absurd (ground (arith, valid, missing))
    | inr (b, there) ↦
        let same : some b ≡ some a = ground (arith, valid, there) in
        let its_id : sub ≡ a.user.id =
          ground
            (arith, find_found (is_active_user sub) accounts b there, some-injective b a same) in
        record {
          named = valid ∙ ap some its_id;
          found = ap (λ i. find (is_active_user i) accounts) (sym its_id) ∙ there ∙ same;
        }
  ]
]

-- A later call in the same configuration: the same hashes, and a token that is still valid names the
-- same user.
pub record IsLater (env later : Env) : Type 0 where
  pub hash : (token : String) → later.hash token ≡ env.hash token
  pub names :
      (token : String) (id : ℕ)
      → later.verify_token token ≡ some id
      → env.verify_token token ≡ some id

module _ (env later : Env) (same : IsLater env later) (token : String) (db : Db) (a : Account)
    (h : find_holder env token db.accounts ≡ some a) where
  abbrev new_token : String
  new_token = (env.tokens a.user).refresh_token

  abbrev kept : Db
  kept = keep_hash env a.user.id (some (env.hash new_token)) db

  -- The user is found again, with the hash of the new token.
  found_again :
      find (is_active_user a.user.id) kept.accounts
      ≡ some (record a { refresh_token = some (env.hash new_token) })
  found_again = ground (
    arith,
    (held env token db.accounts a h).found,
    find-update_id (is_active_user a.user.id) a.user.id
        (λ x. record x { refresh_token = some (env.hash new_token) }) db.accounts (λ x. refl),
  )

  old_refused :
      str_eq (env.hash new_token) (env.hash token) ≡ false
      → find_holder later token kept.accounts ≡ none
  old_refused different = elim (Option-cases (later.verify_token token)) [
    | inl invalid ↦ ground (arith, invalid)
    | inr (sub, valid) ↦
        let id : sub ≡ a.user.id =
          some-injective sub a.user.id
            (sym (same.names token sub valid) ∙ (held env token db.accounts a h).named) in
        ground (arith, valid ∙ ap some id, found_again, different, same.hash token)
  ]

  new_accepted :
      later.verify_token new_token ≡ some a.user.id
      → str_eq (env.hash new_token) "" ≡ false
      → find_holder later new_token kept.accounts
        ≡ some (record a { refresh_token = some (env.hash new_token) })
  new_accepted valid filled = ground (
    arith,
    valid,
    found_again,
    filled,
    same.hash new_token,
    (eq_iff (env.hash new_token) (env.hash new_token)).1 refl,
  )

-- Where a refresh succeeds, the token that it took is refused from then on, and the one that it gave
-- is accepted, as long as that is valid for the user: tokens with different hashes, neither empty,
-- and the same secrets at both times.
pub refresh_rotates :
    (env later : Env) (token : String) (db : Db) (tokens : Tokens)
    → IsLater env later
    → (refresh env token db).0 ≡ ok tokens
    → str_eq (env.hash tokens.refresh_token) (env.hash token) ≡ false
    → str_eq (env.hash tokens.refresh_token) "" ≡ false
    → later.verify_token tokens.refresh_token ≡ env.verify_token token
    → ((refresh later token (refresh env token db).1).0 ≡ err unauthorized)
      × ((given : Tokens) × ((refresh later tokens.refresh_token (refresh env token db).1).0
            ≡ ok given))
refresh_rotates env later token db tokens same success different filled valid =
    elim (Option-cases (find_holder env token db.accounts)) [
      | inl unknown ↦ absurd (ground (arith, refresh-unknown env token db unknown))
      | inr (a, h) ↦
          let its : env.tokens a.user ≡ tokens = ground (arith, refresh-holder env token db a h) in
          let new : String = (env.tokens a.user).refresh_token in
          let old_hash : str_eq (env.hash new) (env.hash token) ≡ false =
            ap (λ (t : Tokens). str_eq (env.hash t.refresh_token) (env.hash token)) its
            ∙ different in
          let new_hash : str_eq (env.hash new) "" ≡ false =
            ap (λ (t : Tokens). str_eq (env.hash t.refresh_token) "") its ∙ filled in
          let named : later.verify_token new ≡ some a.user.id =
            ap (λ (t : Tokens). later.verify_token t.refresh_token) its
            ∙ valid
            ∙ (held env token db.accounts a h).named in
          rw (refresh-holder env token db a h, sym its)
            (
              ap (λ r. r.0)
                  (refresh-unknown later token (kept env later same token db a h)
                    (old_refused env later same token db a h old_hash)),
              (
                later.tokens a.user,
                ap (λ r. r.0)
                    (refresh-holder later new (kept env later same token db a h)
                      (record a { refresh_token = some (env.hash new) })
                      (new_accepted env later same token db a h named new_hash)),
              ),
            )
    ]
