-- ===== src/RideService/Retry.antt =====
-- A client that repeats its request: app/services/ride_service.py with one key twice.
use realtime_ride_matching_e.Prelude.{
  ◌≡◌, refl, ap, ◌∙◌, sym, subst, Bool, true, some, List, [], ◌∷◌, ◌++◌, arith, if◌then◌else◌,
  select, String, eq_iff, ==_self,
}
use realtime_ride_matching_e.Config.{Env}
use realtime_ride_matching_e.Models.{Ride}
use realtime_ride_matching_e.Storage.Constraints.{same_key}
use realtime_ride_matching_e.Storage.Tables.{Tables}
use realtime_ride_matching_e.Program.State.{Shared, World}
use realtime_ride_matching_e.Program.Commands.{Result, ok, err, idempotency_key_conflict}
use realtime_ride_matching_e.Program.Exec.{Platform, run}
use realtime_ride_matching_e.Program.Cases.{started}
use realtime_ride_matching_e.RideService.{RideRequest, matches, create_ride}
use realtime_ride_matching_e.RideService.Idempotency.{with_key, create_ride_replays}
use realtime_ride_matching_e.RideService.Creation.{
  IsUnused, NewRide, Created, created, refused_row, failed_commit, create_ride-Created,
}

new_of_Created :
    (env : Env) (req : RideRequest) (t : Tables) (r : Ride) (a : Result Ride × World)
    → Created env req t a
    → a.0 ≡ ok r
    → NewRide env req t r a.1.shared.db
new_of_Created env req t r a (created r' n) e =
    subst (λ x. NewRide env req t x a.1.shared.db) (cc e) n
new_of_Created env req t r a (refused_row r' i k same) e = absurd (cc e)
new_of_Created env req t r a (failed_commit same) e = absurd (cc e)

select-append_kept {ℓ} :
    {A : Type ℓ} (keep : A → Bool) (xs : List A) (x : A)
    → keep x ≡ true
    → select keep xs ≡ []
    → select keep (xs ++ x ∷ []) ≡ x ∷ []
select-append_kept keep [] x k e = ground arith
select-append_kept keep (y ∷ xs) x k e = ground (arith, select-append_kept keep xs x k)

keyed_row :
    (env : Env) (req : RideRequest) (t t' : Tables) (r : Ride) (key : String)
    → req.idempotency_key ≡ some key
    → NewRide env req t r t'
    → with_key key r ≡ true
keyed_row env req t t' r key keyed n =
    ap (λ (x : Ride). with_key key x) n.row
    ∙ ap (λ k. same_key k (some key)) keyed
    ∙ (eq_iff key key).1 refl

-- The two coordinates are numbers: equal to themselves.
matches_row :
    (env : Env) (req : RideRequest) (t t' : Tables) (r : Ride)
    → env.floats.eq req.pickup_lat req.pickup_lat ≡ true
    → env.floats.eq req.pickup_lng req.pickup_lng ≡ true
    → NewRide env req t r t'
    → matches env r req ≡ true
unfolding matches
matches_row env req t t' r lat lng n =
    ap (λ (x : Ride). matches env x req) n.row ∙ rw (==_self req.rider_id, lat, lng) refl

-- A request that stored a ride under a key that no ride had, and is repeated in a new session, with
-- coordinates that are numbers: the second call returns the same ride and changes nothing that sessions
-- share.
pub create_ride_twice :
    ⦃p : Platform⦄ (env : Env) (req : RideRequest) (key : String) (s : Shared) (r : Ride)
    → req.idempotency_key ≡ some key
    → IsUnused (some key) s.db
    → env.floats.eq req.pickup_lat req.pickup_lat ≡ true
    → env.floats.eq req.pickup_lng req.pickup_lng ≡ true
    → (run (create_ride env req) (started s)).0 ≡ ok r
    → ((run (create_ride env req) (started (run (create_ride env req) (started s)).1.shared)).0
        ≡ ok r)
      × ((run
            (create_ride env req)
            (started (run (create_ride env req) (started s)).1.shared)).1.shared
          ≡ (run (create_ride env req) (started s)).1.shared)
create_ride_twice env req key s r keyed unused lat lng got =
    let s' = (run (create_ride env req) (started s)).1.shared in
    let n =
      new_of_Created env req s.db r (run (create_ride env req) (started s))
        (create_ride-Created env req s (subst (λ k. IsUnused k s.db) (sym keyed) unused)) got in
    let used : select (with_key key) s'.db.rides ≡ r ∷ [] =
      ap (λ (u : Tables). select (with_key key) u.rides) n.tables
      ∙ select-append_kept (with_key key) s.db.rides r (keyed_row env req s.db s'.db r key keyed n)
          unused in
    let again = create_ride_replays env req key s' r [] keyed used in
    (
      again.0
          ∙ ap (λ b. if b then ok r else err idempotency_key_conflict)
              (matches_row env req s.db s'.db r lat lng n),
      again.1,
    )
