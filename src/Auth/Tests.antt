-- ===== src/Auth/Tests.antt =====
-- Runs of the log-in, and the theorems at concrete inputs.
use Prim.Native.String.{String}
use package.text.Mathlib.Text.{◌==◌ as str_eq}
use water_credits_backend.Prelude.{
  true, too_many_requests, ℕ, ◌≡◌, refl, true, false, none, some, [], ◌∷◌, ok, err, unauthorized,
  arith,
}
use water_credits_backend.Users.{farmer, User}
use water_credits_backend.Auth.{
  Account-entity, Db, Tokens, without_getdel, Env, generate_challenge, login, register, refresh,
}
use water_credits_backend.Auth.Challenges.{IsRefused, login_once}
use water_credits_backend.Auth.RateLimit.{RateLimit, Counters, can_activate}
use water_credits_backend.Auth.Rotation.{refresh_rotates}

abbrev user : User
user = record {
  id = 3;
  wallet = 30;
  email = none;
  display_name = none;
  role = farmer;
  is_active = true;
  is_kyc_verified = false;
}

-- The wallet 30 signs what it should as "signed", and every token is user 3's.
abbrev at : ℕ → String → Env
at now token = record {
  now = now;
  redis = without_getdel;
  lower_case = λ wallet. wallet;
  random = "c0ffee";
  verify_signature = λ wallet challenge signature. some (str_eq signature "signed");
  tokens = λ _. record { access_token = "access"; refresh_token = token };
  verify_token = λ _. some 3;
  hash = λ token'. token';
  generated_id = λ _. 9;
}

abbrev start : Db
start = record {
  accounts = record { user = user; refresh_token = none } ∷ [];
  challenges = λ _. none;
}

abbrev challenged : Db
challenged = (generate_challenge (at 1000 "first") 30 start).1

abbrev logged_in : Db
logged_in = (login (at 2000 "first") 30 "signed" "c0ffee" challenged).1

logged :
    (login (at 2000 "first") 30 "signed" "c0ffee" challenged).0
    ≡ ok (record { access_token = "access"; refresh_token = "first" }, user)
unfolding login generate_challenge
logged = refl

too_late : (login (at 400_000 "first") 30 "signed" "c0ffee" challenged).0 ≡ err unauthorized
unfolding login generate_challenge
too_late = refl

login_once_example :
    IsRefused (login (at 3000 "second") 30 "signed" "c0ffee" logged_in).0
    × IsRefused (register (at 3000 "second") 30 "signed" "c0ffee" none none logged_in).0
unfolding login generate_challenge
login_once_example =
    login_once (at 2000 "first") (at 3000 "second") 30 "signed" "c0ffee" "signed" "c0ffee" none none
      challenged (λ h. cc) refl (omega arith)

refresh_rotates_example :
    ((refresh (at 5000 "third") "first" (refresh (at 4000 "second") "first" logged_in).1).0
      ≡ err unauthorized)
    × ((given : Tokens) × ((refresh
            (at 5000 "third")
            "second"
            (refresh (at 4000 "second") "first" logged_in).1).0
          ≡ ok given))
unfolding login generate_challenge refresh
refresh_rotates_example =
    refresh_rotates (at 4000 "second") (at 5000 "third") "first" logged_in
      (record { access_token = "access"; refresh_token = "second" })
      (record { hash = λ _. refl; names = λ _ _ h. h }) refl refl refl refl

-- Two requests in a second: the third is refused, and one of the next second is not.
abbrev limit : RateLimit
limit = record { max_requests = 2; window_ms = 1000 }

abbrev ask : ℕ → Counters → Counters
ask now counters = (can_activate now true (some limit) 7 counters).1

limited :
    ((can_activate 300 true (some limit) 7 (ask 200 (ask 100 (λ _. none)))).0
      ≡ err too_many_requests)
    × ((can_activate 1100 true (some limit) 7 (ask 200 (ask 100 (λ _. none)))).0 ≡ ok true)
unfolding can_activate
limited = (refl, refl)
