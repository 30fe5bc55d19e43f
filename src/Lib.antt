-- ===== src/Lib.antt =====
-- Verification library of the real-time ride-matching engine.
--
-- The program is a web service that matches riders to drivers. A request becomes a ride
-- (app/services/ride_service.py), which is priced (app/pricing) and matched at once
-- (app/matching/matcher.py): candidates are found by rings of H3 cells and ranked by distance, each
-- is claimed by a lock in Redis (app/redis/lock.py), read again, and assigned by a conditional
-- UPDATE and a commit through the repositories (app/storage/repositories). Cancelling and completing
-- move the ride on and free the driver. Counters, latencies and events are kept in the process
-- (app/observability), and the routes (app/api, app/main.py) put these together.
--
-- How the code corresponds to the modules:
--   Config                 app/config.py, and what the code takes from outside (Env)
--   Floats                 the float arithmetic that Env carries, with the laws some proofs need
--   Models, Storage        app/models: rows, constraints, and the writes of the statements
--   Redis                  the keys that app/redis/lock.py uses, and its release script
--   Program                the code's calls of the session, of Redis and of the clock as commands, and
--                          control flow: sequence, raise, try/except, try/finally (Commands);
--                          PostgreSQL with SQLAlchemy's session, Redis and the runtime are the
--                          parameter Platform (Exec), which answers commands as it is documented to
--                          (Effects), may fail at each commit and each call of Redis, and moves the
--                          clock as it likes; one worker's run (Exec), the laws of runs, and
--                          session_scope of app/storage/database.py (SessionScope)
--   Repositories           app/storage/repositories
--   Matching               app/matching, app/redis/lock.py and app/pricing/zones.py
--   Pricing                app/pricing/surge.py
--   RideService            app/services/ride_service.py
--   Workers                workers whose calls are interleaved; the versions of rows that PostgreSQL
--                          keeps for them (Versions), as the specification that each step refines
--   Lifecycle              the moves of a ride's status that the code may ask for
--   Observability          app/observability, and the life of the event bus under app/api/websocket.py
--                          and the lifespan of app/main.py (Lifespan)
--   Api                    app/api, app/schemas and app/main.py: the functions of the routes, the
--                          payloads, what is read from a request (Routing), and the way from it to
--                          its response (App)
--   Simulation             app/simulation; random.Random, the server and the clock are parameters, and
--                          threads of a pool run in the order of their list
--   Tests                  runs on small data, and instances of the theorems
--
-- What the documentation of these services says, and the proofs rest on, is the field `documented` of
-- Platform, and Tests.Reference has two platforms that satisfy it. A hypothesis that Redis answers or
-- that commits go through is named where it is needed (Answers, Commits). The range check of the
-- validation library, Field(ge, le), and its parser of UUIDs are the parameter Validator. Env has what
-- the Numeric(4, 2) column of surge_multiplier gives back for a float.
--
-- A function of the code that calls the database, Redis or the clock is a program over commands with
-- the function's own name. A loop of these is structural recursion: over the rings that are left, or
-- over the ranked candidates, so no fuel is needed.
--
-- The theorems on one operation run one worker to the end of its program. Workers interleaves the
-- calls of any number of workers, each with one request in its own session (get_db of
-- app/storage/database.py), in any order and with any deaths; a statement on `rides` that PostgreSQL
-- would keep waiting for another transaction is not run before that one ends. Locks of driver rows
-- are left out there, so that more orders are possible than in PostgreSQL, and so are deadlocks,
-- where PostgreSQL ends one of the transactions with an error.
--
-- The simulation's request loop runs on fuel: one more than the riders that are left to fire, since
-- each burst fires at least one.
--
-- Left out: the static dashboard, the migrations, log lines, printed reports, the texts of
-- messages, the JSON of responses, the database error of a multiplier of 100 or more, which its
-- column has no room for, and that of a new driver or rider whose UUID is taken. A UUID is a number, and an H3 cell is its 64-bit index.

pub mod Prelude
pub mod Floats
pub mod Config
pub mod Models
pub mod Storage
pub mod Redis
pub mod Observability
pub mod Program
pub mod Repositories
pub mod Matching
pub mod Pricing
pub mod RideService
pub mod Api
pub mod Lifecycle
pub mod Workers
pub mod Simulation
pub mod Tests
