-- ===== src/Observability/FanOut.antt =====
-- What one round of the broadcast loop of app/observability/events.py does.
use realtime_ride_matching_e.Prelude.{
  append_assoc, append_nil, ◌||◌, fun_ext, ==_iff, ℕ, ◌≡◌, refl, ◌∙◌, ap, sym, Bool, true, false,
  not, ◌&&◌, some, List, [], ◌∷◌, ◌++◌, map, inl, inr, arith, select, contains, ◌==◌, Bool-cases,
}
use realtime_ride_matching_e.Observability.Events.{
  Event, EventBus, send_to_each, broadcast_round, discard,
}

-- Each connection of a list, as the receiver of an event.
abbrev pub addressed : Event → List ℕ → List (ℕ × Event)
addressed e = map (λ ws. (ws, e))

send_to_each_delivers :
    (alive : ℕ → Bool) (e : Event) (targets : List ℕ) (bus : EventBus)
    → (send_to_each alive e targets bus).delivered
      ≡ bus.delivered ++ addressed e (select alive targets)
unfolding send_to_each
send_to_each_delivers alive e [] bus = sym (append_nil bus.delivered)
send_to_each_delivers alive e (ws ∷ rest) bus = elim (Bool-cases (alive ws)) [
  | inl up ↦
      rw (up, send_to_each)
        (send_to_each_delivers alive e rest
            (record bus { delivered = bus.delivered ++ (ws, e) ∷ [] })
          ∙ append_assoc bus.delivered ((ws, e) ∷ []) (addressed e (select alive rest)))
  | inr down ↦
      rw (down, send_to_each)
        (send_to_each_delivers alive e rest
          (record bus { connections = discard ws bus.connections }))
]

select_all : (xs : List ℕ) → select (λ c. true) xs ≡ xs
select_all [] = refl
select_all (x ∷ xs) = ap (λ l. x ∷ l) (select_all xs)

select-select {ℓ} :
    {A : Type ℓ} (f g : A → Bool) (xs : List A)
    → select f (select g xs) ≡ select (λ x. f x && g x) xs
select-select f g [] = refl
select-select f g (x ∷ xs) = ground (arith, select-select f g xs)

-- Which connections stay: those that the event was not for, and those that it reached.
abbrev stays : (ℕ → Bool) → List ℕ → ℕ → Bool
stays alive targets c = not (contains c targets) || alive c

stays_reached :
    (alive : ℕ → Bool) (ws : ℕ) (rest : List ℕ) (c : ℕ)
    → alive ws ≡ true
    → stays alive rest c ≡ stays alive (ws ∷ rest) c
stays_reached alive ws rest c up = ground (arith, ==_iff ws c)

stays_failed :
    (alive : ℕ → Bool) (ws : ℕ) (rest : List ℕ) (c : ℕ)
    → alive ws ≡ false
    → (stays alive rest c && not (c == ws)) ≡ stays alive (ws ∷ rest) c
stays_failed alive ws rest c down = ground (arith, ==_iff ws c)

send_to_each_keeps :
    (alive : ℕ → Bool) (e : Event) (targets : List ℕ) (bus : EventBus)
    → (send_to_each alive e targets bus).connections ≡ select (stays alive targets) bus.connections
unfolding send_to_each
send_to_each_keeps alive e [] bus = sym (select_all bus.connections)
send_to_each_keeps alive e (ws ∷ rest) bus = elim (Bool-cases (alive ws)) [
  | inl up ↦
      rw (up, send_to_each)
        (send_to_each_keeps alive e rest (record bus { delivered = bus.delivered ++ (ws, e) ∷ [] })
          ∙ ap (λ f. select f bus.connections) (fun_ext (λ c. stays_reached alive ws rest c up)))
  | inr down ↦
      rw (down, send_to_each)
        (send_to_each_keeps alive e rest (record bus { connections = discard ws bus.connections })
          ∙ select-select (stays alive rest) (λ c. not (c == ws)) bus.connections
          ∙ ap (λ f. select f bus.connections) (fun_ext (λ c. stays_failed alive ws rest c down)))
]

stays_within :
    (alive : ℕ → Bool) (xs ys : List ℕ)
    → ((c : ℕ) → contains c xs ≡ true → contains c ys ≡ true)
    → select (stays alive ys) xs ≡ select alive xs
stays_within alive [] ys h = refl
stays_within alive (x ∷ xs) ys h =
    let rest = stays_within alive xs ys (λ c q. h c (ground (arith, q))) in
    ground (arith, rest, h x (ground arith))

send_to_each_queue :
    (alive : ℕ → Bool) (e : Event) (targets : List ℕ) (bus : EventBus)
    → (send_to_each alive e targets bus).queue ≡ bus.queue
unfolding send_to_each
send_to_each_queue alive e [] bus = refl
send_to_each_queue alive e (ws ∷ rest) bus = elim (Bool-cases (alive ws)) [
  | inl up ↦
      rw (up, send_to_each)
        (send_to_each_queue alive e rest (record bus { delivered = bus.delivered ++ (ws, e) ∷ [] }))
  | inr down ↦
      rw (down, send_to_each)
        (send_to_each_queue alive e rest (record bus { connections = discard ws bus.connections }))
]

abbrev pub attached : ℕ → List Event → List ℕ → List (ℕ × Event) → EventBus
attached maxsize items connections delivered = record {
  queue = some (record { maxsize = maxsize; items = items });
  connections = connections;
  delivered = delivered;
}

-- One round of the loop, with an event waiting: the event leaves the queue, every connection to which a
-- send succeeds gets it once, in order, and those to which it fails are dropped, and no others.
pub broadcast_round_lem :
    (alive : ℕ → Bool) (maxsize : ℕ) (e : Event) (waiting : List Event) (connections : List ℕ)
    (delivered : List (ℕ × Event))
    → ((broadcast_round alive (attached maxsize (e ∷ waiting) connections delivered)).queue
        ≡ some (record { maxsize = maxsize; items = waiting }))
      × ((broadcast_round alive (attached maxsize (e ∷ waiting) connections delivered)).delivered
          ≡ delivered ++ addressed e (select alive connections))
      × ((broadcast_round alive (attached maxsize (e ∷ waiting) connections delivered)).connections
          ≡ select alive connections)
unfolding broadcast_round
broadcast_round_lem alive maxsize e waiting connections delivered =
    let bus = attached maxsize waiting connections delivered in
    (
      send_to_each_queue alive e connections bus,
      send_to_each_delivers alive e connections bus,
      send_to_each_keeps alive e connections bus
          ∙ stays_within alive connections connections (λ c q. q),
    )
