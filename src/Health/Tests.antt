-- ===== src/Health/Tests.antt =====
-- Probes of concrete registries.
use acat_go_common.Common.{◌≡◌, ◌⊎◌, none, some, [], ◌∷◌}
use acat_go_common.Common.Int.{pos}
use acat_go_common.Apperr.{plain}
use acat_go_common.Health.{Registry, ready}
use acat_go_common.Health.Ready.{Fails, AllPass, ready_decides}

abbrev two_checks : Registry
two_checks = ("mysql", none) ∷ ("redis", some (plain "refused")) ∷ []

ready_decides_example :
    (AllPass two_checks
      × ((ready two_checks).http_status ≡ pos 200)
      × ((ready two_checks).status ≡ "UP"))
    ⊎ (Fails two_checks
        × ((ready two_checks).http_status ≡ pos 503)
        × ((ready two_checks).status ≡ "DOWN"))
ready_decides_example = ready_decides two_checks
