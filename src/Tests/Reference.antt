-- ===== src/Tests/Reference.antt =====
-- Two platforms: one on which nothing fails, and one whose Redis does not reply to the release of a
-- lock.
use realtime_ride_matching_e.Prelude.{◌≡◌, refl, inl, inr, ◌⊎◌}
use realtime_ride_matching_e.Program.State.{World}
use realtime_ride_matching_e.Program.Commands.{
  Cmd, Resp, compare_and_delete, err, redis_connection_error,
}
use realtime_ride_matching_e.Program.Effects.{effect, Varies}
use realtime_ride_matching_e.Program.Exec.{Platform}
use realtime_ride_matching_e.Matching.Success.{Commits}
use realtime_ride_matching_e.Matching.Locking.{Answers}

instance abbrev pub reliable : Platform
reliable = record { answer = λ c w. effect c w; documented = λ c w. inl refl }

pub reliable-Answers : Answers
reliable-Answers = record { to_set = λ key token ttl w. refl; to_delete = λ key token w. refl }

pub reliable-Commits : Commits
unfolding effect
reliable-Commits = record { to_commit = λ w. refl }

-- The release is carried out, and the reply is lost.
abbrev deaf_answer : (c : Cmd) → World → Resp c × World
deaf_answer (compare_and_delete key token) w =
    (err redis_connection_error, (effect (compare_and_delete key token) w).1)
deaf_answer c w = effect c w

pub deaf_documented :
    (c : Cmd) (w : World) → (deaf_answer c w ≡ effect c w) ⊎ Varies c w (deaf_answer c w)
unfolding effect
deaf_documented (compare_and_delete key token) w = inr (inr refl)
deaf_documented _ w = inl refl

abbrev pub deaf : Platform
deaf = record { answer = deaf_answer; documented = deaf_documented }
