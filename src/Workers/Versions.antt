-- ===== src/Workers/Versions.antt =====
-- What PostgreSQL promises the workers about `rides`, without its statements: one committed version
-- of each row, and at most one uncommitted version, which only the worker that wrote it sees.
use realtime_ride_matching_e.Prelude.{ℕ, ◌≡◌, false, Option, none, some, ◌==◌}
use realtime_ride_matching_e.Models.{Ride, RideStatus, requested}
use realtime_ride_matching_e.Storage.Tables.{Assignment, with_ride_status}
use realtime_ride_matching_e.Storage.Uniqueness.{Compatible}
use realtime_ride_matching_e.Lifecycle.{MayBecome, AssignsWhen}

pub record Versions : Type 0 where
  -- the committed row under an id, and the version of it that a worker has written
  pub base : ℕ → Option Ride
  pub own : (worker id : ℕ) → Option Ride

-- What a worker reads.
abbrev pub or_else {ℓ} : {A : Type ℓ} → Option A → Option A → Option A
or_else none b = b
or_else (some a) b = some a

abbrev pub seen : Versions → ℕ → ℕ → Option Ride
seen v i id = or_else (v.own i id) (v.base id)

-- One statement's change of a row: a new ride, or a move along the life cycle.
pub data Moves : Option Ride → Ride → Type 0 where
  created : (r : Ride) → r.status ≡ requested → r.driver_id ≡ none → Moves none r
  moved :
      (r : Ride) (to : RideStatus) (extra : Option Assignment) (at : ℕ)
      → MayBecome r.status to
      → AssignsWhen to extra
      → Moves (some r) (with_ride_status to extra at r)

-- A worker may write a row that no other has written, if the new version keeps the constraints
-- beside every row that the worker sees and beside what the others have written.
pub record MayWrite (v : Versions) (i id : ℕ) (new : Ride) : Type 0 where
  pub unlocked : (j : ℕ) → (j == i) ≡ false → v.own j id ≡ none
  pub fits : (b : ℕ) (q : Ride) → (b == id) ≡ false → seen v i b ≡ some q → Compatible new q
  pub undisputed : (j b : ℕ) (q : Ride) → (j == i) ≡ false → v.own j b ≡ some q → Compatible new q
  pub move : Moves (seen v i id) new

-- What a step leaves as it was.
abbrev pub SameBase : Versions → Versions → Type 0
SameBase v v' = (id : ℕ) → v'.base id ≡ v.base id

abbrev pub SameOthers : Versions → Versions → ℕ → Type 0
SameOthers v v' i = (j id : ℕ) → (j == i) ≡ false → v'.own j id ≡ v.own j id

abbrev pub Forgets : Versions → ℕ → Type 0
Forgets v' i = (id : ℕ) → v'.own i id ≡ none

pub data RowStep (v v' : Versions) : Type 0 where
  stays : SameBase v v' → ((j id : ℕ) → v'.own j id ≡ v.own j id) → RowStep v v'
  writes :
      (i id : ℕ) (new : Ride)
      → MayWrite v i id new
      → SameBase v v'
      → SameOthers v v' i
      → v'.own i id ≡ some new
      → ((x : ℕ) → (x == id) ≡ false → v'.own i x ≡ v.own i x)
      → RowStep v v'
  -- COMMIT
  publishes :
      (i : ℕ)
      → ((id : ℕ) → v'.base id ≡ seen v i id)
      → SameOthers v v' i
      → Forgets v' i
      → RowStep v v'
  -- ROLLBACK, or the worker is gone
  discards : (i : ℕ) → SameBase v v' → SameOthers v v' i → Forgets v' i → RowStep v v'
