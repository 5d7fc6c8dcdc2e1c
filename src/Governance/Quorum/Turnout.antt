-- ===== src/Governance/Quorum/Turnout.antt =====
-- What the quorum test of a proposal means.
use native.Mathlib.Decide.{dec_lt}
use native.Mathlib.Nat.{le-div_iff_mul-le, mul_comm}
use water_credits_backend.Prelude.{ℕ, ◌+◌, ◌*◌, ◌/◌, ◌≤◌, ◌≡◌, ◌↔◌, true, some, arith, ◌⊎◌}
use water_credits_backend.Governance.Entities.{GovernanceConfig}
use water_credits_backend.Governance.Quorum.{evaluate_quorum}

-- In percentage mode the test without division agrees with the reported turnout: the quorum is met
-- exactly if the turnout, rounded down to whole basis points, reaches the threshold.
pub evaluate_quorum_turnout :
    (votes_for votes_against eligible turnout : ℕ) (config : GovernanceConfig)
    → (evaluate_quorum votes_for votes_against config eligible).turnout_basis_points ≡ some turnout
    → ((evaluate_quorum votes_for votes_against config eligible).quorum_met ≡ true)
      ↔ (config.quorum_basis_points ≤ turnout)
unfolding evaluate_quorum
evaluate_quorum_turnout votes_for votes_against eligible turnout config h =
    elim (dec_lt 0 eligible) [
      | no none_there ↦ absurd (ground arith)
      | yes voters ↦
          let division =
            le-div_iff_mul-le {k = eligible} {x = config.quorum_basis_points}
              {y = (votes_for + votes_against) * 10000} voters in
          (
            λ met.
                let fits : config.quorum_basis_points * eligible
                    ≤ (votes_for + votes_against) * 10000 =
                  ground (arith, mul_comm config.quorum_basis_points eligible) in
                let share = division.1 fits in ground arith,
            λ reached.
                let same : turnout ≡ (votes_for + votes_against) * 10000 / eligible =
                  ground arith in
                let fits = division.0 (rw (← same) reached) in
                ground (arith, mul_comm config.quorum_basis_points eligible),
          )
    ]

-- With no eligible voter, or with the percentage switched off, the legacy number of votes decides.
pub evaluate_quorum-absolute :
    (votes_for votes_against eligible : ℕ) (config : GovernanceConfig)
    → (config.quorum_basis_points ≡ 0) ⊎ (eligible ≡ 0)
    → ((evaluate_quorum votes_for votes_against config eligible).quorum_met ≡ true)
      ↔ (config.quorum ≤ votes_for + votes_against)
unfolding evaluate_quorum
evaluate_quorum-absolute votes_for votes_against eligible config h =
    (λ e. ground arith, λ e. ground arith)

-- More votes on either side never lose a quorum.
pub evaluate_quorum_mono :
    (f a f' a' eligible : ℕ) (config : GovernanceConfig)
    → f ≤ f'
    → a ≤ a'
    → (evaluate_quorum f a config eligible).quorum_met ≡ true
    → (evaluate_quorum f' a' config eligible).quorum_met ≡ true
unfolding evaluate_quorum
evaluate_quorum_mono f a f' a' eligible config hf ha met = ground arith
