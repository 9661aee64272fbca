-- ===== src/Health/Tests.antt =====
-- The theorem on /health at a concrete input.
use system_uni.Prelude.{none, some, [], ◌∷◌}
use system_uni.Session.{World}
use system_uni.Worker.Sample.{quiet, empty}
use system_uni.Health.{health_checks}
use system_uni.Health.Laws.{AllHealthy, health_checks-AllHealthy}

abbrev world : World
world = record { db = empty; tick = 0 }

-- Redis is gone at both checks.
health_checks-AllHealthy_example :
    AllHealthy quiet 2 (health_checks quiet (none ∷ none ∷ []) (some 1) world)
health_checks-AllHealthy_example = health_checks-AllHealthy quiet (none ∷ none ∷ []) 1 world
