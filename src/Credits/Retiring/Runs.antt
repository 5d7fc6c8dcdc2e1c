-- ===== src/Credits/Retiring/Runs.antt =====
-- Requests and jobs of retirements, one after the other.
use water_credits_backend.Prelude.{ℕ}
use water_credits_backend.Credits.Entities.{Retirement-entity}
use water_credits_backend.Credits.Retiring.{
  RetireCreditsDto, RetirementJob, World, RetireEnv, retire, JobEnv, process_retirement,
}
use water_credits_backend.Credits.Retiring.Once.{
  IsOnce, HasRealHashes, SavesHashes, HasNewIds, process_retirement-IsOnce, retire-IsOnce,
}

-- A request of a user, or an attempt of a job, in whatever surroundings; Bull attempts a job again
-- that has thrown.
pub data Step (w : World) : World → Type 0 where
  request :
      (env : RetireEnv) (user_id : ℕ) (dto : RetireCreditsDto)
      → HasNewIds env
      → Step w (retire env user_id dto w).1
  attempt :
      (env : JobEnv) (job : RetirementJob)
      → HasRealHashes env
      → SavesHashes env
      → Step w (process_retirement env job w).1

pub data Steps (start : World) : World → Type 0 where
  here : Steps start start
  next : {w w' : World} → Steps start w → Step w w' → Steps start w'

Step-IsOnce : {w w' : World} → Step w w' → IsOnce w → IsOnce w'
Step-IsOnce {w} (request env user_id dto ids) h = retire-IsOnce env user_id dto w ids h
Step-IsOnce {w} (attempt env job hashes keeps) h =
    process_retirement-IsOnce env job w hashes keeps h

-- Where it was so at the start, then after any sequence of retire requests and of attempts of their
-- jobs, the call of a retirement was answered as a success exactly once if the stored retirement has
-- a transaction's hash, and never otherwise. New rows have new ids, the hashes that are answered are
-- not placeholders, and a row with such a hash is saved when a job saves it; the balance query, the
-- queue, the call, the other saves of a job, the notification and the certificate may fail.
pub Steps-IsOnce : {start w : World} → Steps start w → IsOnce start → IsOnce w
Steps-IsOnce here h = h
Steps-IsOnce (next steps step) h = Step-IsOnce step (Steps-IsOnce steps h)
