-- ===== src/Storage/Replay.antt =====
-- Replaying writes in parts.
use realtime_ride_matching_e.Prelude.{◌≡◌, refl, List, [], ◌∷◌, ◌++◌}
use realtime_ride_matching_e.Storage.Tables.{Tables, Write, apply, replay}

pub replay-append :
    (ws vs : List Write) (t : Tables) → replay (ws ++ vs) t ≡ replay vs (replay ws t)
replay-append [] vs t = refl
replay-append (x ∷ ws) vs t = replay-append ws vs (apply t x)
