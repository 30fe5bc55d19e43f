-- ===== src/Simulation/Bursting.antt =====
-- A burst of requests against a server that names what it creates.
use realtime_ride_matching_e.Prelude.{ℕ, ◌≡◌, true, Option, none, some}
use realtime_ride_matching_e.Simulation.Client.{Reply, Request, Outside, is_success}
use realtime_ride_matching_e.Simulation.Runner.{Simulation}

-- A successful reply carries the id of what it is about.
abbrev pub NamesIt : Option Reply → Type 0
NamesIt none = Unit
NamesIt (some r) = is_success r.status_code ≡ true → (id : ℕ) × (r.body.id ≡ some id)

abbrev pub NamesAll : Outside → Type 0
NamesAll out = (request : Request) (world : ℕ) → NamesIt (out.send request world).0
