-- ===== src/Ban/Tests.antt =====
-- Seven attempts of address 1 within 600 milliseconds, and one of address 2.
use otchronos.Prelude.{◌≤◌, ◌≡◌, refl, none, [], ◌∷◌, arith}
use otchronos.Ban.{IpConnectMap}
use otchronos.Ban.Flood.{Attempts, accepted, is_flood, accepted_lem}

abbrev seven : Attempts
seven = (1100, 1) ∷ (1200, 1) ∷ (1250, 2) ∷ (1300, 1) ∷ (1400, 1) ∷ (1500, 1) ∷ (1600, 1) ∷ []

abbrev nobody : IpConnectMap
nobody ip = none

accepted_lem_example : accepted 1 ((1000, 1) ∷ seven) nobody ≤ 5
unfolding is_flood
accepted_lem_example = accepted_lem 1 1000 seven nobody refl (omega arith) refl

five_accepted : accepted 1 ((1000, 1) ∷ seven) nobody ≡ 5
unfolding accepted
five_accepted = refl
