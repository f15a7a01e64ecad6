-- ===== src/Challenge/Phases.antt =====
-- Phases of a challenge over time: `derived_phase` at later instants (adl_lite/challenge.py).
use adl_lite.Prelude.{ℕ, ◌≤◌, ◌≡◌, Bool, true, false, arith}
use adl_lite.Prelude.Result.{ok}
use adl_lite.Challenge.{Phase, opened, revealed, ChallengeState}
use adl_lite.Challenge.Manager.{phase_at}

-- A phase that an event or the time has ended.
abbrev pub is_terminal : Phase → Bool
is_terminal opened = false
is_terminal revealed = false
is_terminal _ = true

-- A challenge whose derived phase at an instant is terminal has the same derived phase at every
-- later instant.
pub derived_phase_is_stable :
    (st : ChallengeState) (now later : ℕ) (ph : Phase)
    → now ≤ later
    → phase_at now st ≡ ok ph
    → is_terminal ph ≡ true
    → phase_at later st ≡ ok ph
unfolding phase_at
derived_phase_is_stable st now later ph le h t = ground (arith, le, h, t)
