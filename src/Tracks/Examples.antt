-- ===== src/Tracks/Examples.antt =====
-- adversarial_cognition/tracks.py at a report of three systems.
use adversarial_cognition.Prelude.{◌≡◌, refl, none, some, List, [], ◌∷◌, get}
use adversarial_cognition.Tracks.{Entry, group_by_track, group_from, track_for_interface}

abbrev systems : List Entry
systems =
    record { name = "marciana"; status = "executed"; interface = some "direct-api" }
    ∷ record { name = "letta-agent"; status = "executed"; interface = some "agent-loop" }
    ∷ record { name = "mem0"; status = "unavailable"; interface = none }
    ∷ []

grouped : group_by_track systems ≡ record { stores = "marciana" ∷ []; agents = "letta-agent" ∷ [] }
unfolding group_by_track group_from track_for_interface get
grouped = refl
