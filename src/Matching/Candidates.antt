-- ===== src/Matching/Candidates.antt =====
-- app/matching/candidate_search.py: which drivers a search finds, and in what order.
use realtime_ride_matching_e.Prelude.{
  ◌∙◌, ℕ, zero, suc, ◌+◌, ◌-◌, ◌≤◌, ◌<◌, ◌≡◌, refl, true, false, List, [], arith, length, ap, sym,
  subst, map, leb, inl, inr, ◌⊎◌, Bool-cases, if◌then◌else◌,
}
use mathlib.Core.List.{Perm}
use mathlib.Core.List.Perm
use realtime_ride_matching_e.Floats.{Float}
use realtime_ride_matching_e.Config.{Env}
use realtime_ride_matching_e.Models.{Driver}
use realtime_ride_matching_e.Storage.Tables.{driver_id_of}
use realtime_ride_matching_e.Program.State.{Shared, World}
use realtime_ride_matching_e.Program.Commands.{Result, ok, ret}
use realtime_ride_matching_e.Program.Exec.{Platform, run}
use realtime_ride_matching_e.Program.Laws.{run-bind}
use realtime_ride_matching_e.Program.Rests.{resting}
use realtime_ride_matching_e.Program.Cases.{started}
use realtime_ride_matching_e.Matching.Geo.{cells_within_ring, latlng_to_h3}
use realtime_ride_matching_e.Matching.Rings.{put_all_fresh}
use realtime_ride_matching_e.Matching.Ranking.{Candidate, measured, rank_candidates}
use realtime_ride_matching_e.Matching.Order.{IsRanked, sort_ranked-Perm, sort_ranked-IsRanked}
use realtime_ride_matching_e.Matching.Search.{
  near, HasUniqueIds, IsNested, in_ring, gathered, length-gathered, gathered-Perm, gathered_fresh,
  list_available-run,
}
use realtime_ride_matching_e.Matching.CandidateSearch.{search_rings, find_ranked_candidates}

-- The rings before `last + 1` were searched: either they gave enough or they were all that there are,
-- and no earlier ring ended the search.
pub record Searched (env : Env) (cell : ℕ) (s : Shared) (rounds k : ℕ)
    (a : Result (List Driver) × World) : Type 0 where
  pub rings : ℕ
  pub started_before : k ≤ rings
  pub one_searched : 0 < rounds → k < rings
  pub bounded : rings ≤ k + rounds
  pub answer : a ≡ (
    ok (gathered env cell s.db.drivers rings),
    resting s (gathered env cell s.db.drivers rings) [],
  )
  pub ended :
      (rings ≡ k + rounds)
      ⊎ (env.settings.match_target_candidates ≤ length (gathered env cell s.db.drivers rings))
  pub not_before :
      (j : ℕ)
      → k < j
      → j < rings
      → length (gathered env cell s.db.drivers j) < env.settings.match_target_candidates

module _ ⦃p : Platform⦄ (env : Env) (cell : ℕ) (s : Shared) (unique : HasUniqueIds s.db.drivers)
    (nested : IsNested env cell) where
  abbrev seen : ℕ → List Driver
  seen = gathered env cell s.db.drivers

  -- One round of the loop.
  one_ring :
      (rounds k : ℕ)
      → run (search_rings env cell (suc rounds) k (seen k)) (resting s (seen k) [])
        ≡ run
            (if leb env.settings.match_target_candidates (length (seen (suc k)))
              then ret (seen (suc k))
              else search_rings env cell rounds (suc k) (seen (suc k)))
            (resting s (seen (suc k)) [])
  unfolding search_rings
  one_ring rounds k =
      let ring = in_ring env cell s.db.drivers k in
      let fresh = gathered_fresh env cell s.db.drivers nested unique k in
      let next : (k + 1) ≡ suc k = omega arith in
      simp
        (
          run-bind,
          list_available-run s (seen k) (cells_within_ring env cell k) fresh,
          put_all_fresh driver_id_of (seen k) ring fresh,
          next,
        )
        refl

  pub search_rings-Searched :
      (rounds k : ℕ)
      → Searched env cell s rounds k
          (run (search_rings env cell rounds k (seen k)) (resting s (seen k) []))
  unfolding search_rings run
  search_rings-Searched zero k = record {
    rings = k;
    started_before = omega arith;
    one_searched = λ h. omega (arith, h);
    bounded = omega arith;
    answer = refl;
    ended = inl (omega arith);
    not_before = λ j h h'. omega (arith, h, h');
  }
  search_rings-Searched (suc rounds) k =
      let target = env.settings.match_target_candidates in
      let rest = search_rings-Searched rounds (suc k) in
      subst (Searched env cell s (suc rounds) k) (sym (one_ring rounds k))
        (elim (Bool-cases (leb target (length (seen (suc k))))) [
          | inl e ↦ rw e (record {
            rings = suc k;
            started_before = omega arith;
            one_searched = λ h. omega arith;
            bounded = omega arith;
            answer = refl;
            ended = inr (ground (arith, e));
            not_before = λ j h h'. omega (arith, h, h');
          })
          | inr e ↦ rw e (record {
            rings = rest.rings;
            started_before = omega (arith, rest.started_before);
            one_searched = λ h. omega (arith, rest.started_before);
            bounded = omega (arith, rest.bounded);
            answer = rest.answer;
            ended = ground (arith, rest.ended);
            not_before = λ j h h'. elim (the_split k j h) [
              | inl q ↦ subst (λ i. length (seen i) < target) (sym q) (ground (arith, e))
              | inr q ↦ rest.not_before j q h'
            ];
          })
        ])
    where
      the_split : (k j : ℕ) → k < j → (j ≡ suc k) ⊎ (suc k < j)
      the_split k j h = omega (arith, h)

-- What a search answers: the rings that it went through decide who is a candidate.
pub record Found (env : Env) (lat lng : Float) (cell : ℕ) (s : Shared)
    (a : Result (List Candidate) × World) : Type 0 where
  pub last : ℕ
  pub candidates : List Candidate
  pub answer : a.0 ≡ ok candidates
  pub unchanged : a.1.shared ≡ s
  pub drivers :
      Perm candidates (map (measured env.floats lat lng) (near env cell last s.db.drivers))
  pub ranked : IsRanked env.floats candidates
  pub within : last ≤ env.settings.match_max_ring
  pub enough :
      last < env.settings.match_max_ring
      → env.settings.match_target_candidates ≤ length (near env cell last s.db.drivers)
  pub too_few_before :
      (k : ℕ)
      → k < last
      → length (near env cell k s.db.drivers) < env.settings.match_target_candidates

too_early : (last n m : ℕ) → n ≡ suc last → n ≡ 0 + (m + 1) → last < m → ⊥
too_early last n m q r h = omega (arith, q, r, h)

module _ ⦃p : Platform⦄ (env : Env) (lat lng : Float) (s : Shared) where
  abbrev cell_of : ℕ
  cell_of = latlng_to_h3 env lat lng env.settings.h3_resolution

  search-Found :
      (last : ℕ)
      → IsNested env cell_of
      → ((a b : Float) → env.floats.lt a b ≡ true → env.floats.lt b a ≡ false)
      → (h : Searched env cell_of s
          (env.settings.match_max_ring + 1)
          0
          (run (search_rings env cell_of (env.settings.match_max_ring + 1) 0 []) (started s)))
      → h.rings ≡ suc last
      → Found env lat lng cell_of s (run (find_ranked_candidates env lat lng) (started s))
  unfolding find_ranked_candidates rank_candidates run
  search-Found last nested asymm h q =
      let rows = gathered env cell_of s.db.drivers in
      let size = length-gathered env cell_of s.db.drivers nested in
      let result : run (find_ranked_candidates env lat lng) (started s) ≡ (
        ok (rank_candidates env.floats lat lng (rows (suc last))),
        resting s (rows (suc last)) [],
      ) =
        simp (run-bind, h.answer, q) refl in
      record {
        last = last;
        candidates = rank_candidates env.floats lat lng (rows (suc last));
        answer = ap (λ (a : Result (List Candidate) × World). a.0) result;
        unchanged = ap (λ (a : Result (List Candidate) × World). a.1.shared) result;
        drivers =
            Perm.trans
              (sort_ranked-Perm env.floats (map (measured env.floats lat lng) (rows (suc last))))
              (Perm.map (measured env.floats lat lng)
                (gathered-Perm env cell_of s.db.drivers nested last));
        ranked =
            sort_ranked-IsRanked env.floats asymm
              (map (measured env.floats lat lng) (rows (suc last)));
        within = omega (arith, q, h.bounded);
        enough = λ fewer. elim h.ended [
          | inl r ↦ absurd (too_early last h.rings env.settings.match_max_ring q r fewer)
          | inr r ↦
              subst (λ n. env.settings.match_target_candidates ≤ n)
                (ap (λ i. length (rows i)) q ∙ size last) r
        ];
        too_few_before = λ k earlier.
            subst (λ n. n < env.settings.match_target_candidates) (size k)
              (h.not_before (suc k) (omega arith) (omega (arith, q, earlier)));
      }

  -- From a new session, where no two drivers have the same id, a disk of cells holds the smaller ones
  -- and `<` on floats is asymmetric: a search returns, and changes nothing that sessions share. Its
  -- candidates are just the available drivers in one disk around the pickup point, each once, with the
  -- distance that haversine_km gives, and none is nearer than the one before it. The disk is the
  -- smallest that holds the wanted number of them, or else the largest that is searched.
  pub find_ranked_candidates-Found :
      HasUniqueIds s.db.drivers
      → IsNested env cell_of
      → ((a b : Float) → env.floats.lt a b ≡ true → env.floats.lt b a ≡ false)
      → Found env lat lng cell_of s (run (find_ranked_candidates env lat lng) (started s))
  find_ranked_candidates-Found unique nested asymm =
      let h =
        search_rings-Searched env cell_of s unique nested (env.settings.match_max_ring + 1) 0 in
      search-Found (h.rings - 1) nested asymm h (omega (arith, h.one_searched (omega arith)))
