-- ===== src/Observability/Fifo.antt =====
-- The event bus of app/observability/events.py over many events: a bounded first-in, first-out queue
-- before a fan-out.
use realtime_ride_matching_e.Prelude.{
  ℕ, zero, suc, ◌≤◌, ◌<◌, ◌≡◌, refl, sym, ◌∙◌, ap, Bool, not, ◌&&◌, some, List, [], ◌∷◌, ◌++◌,
  append_assoc, append_nil, arith, length, length-append, select, leb, ◌==◌, if◌then◌else◌,
  Bool-cases, inl, inr,
}
use realtime_ride_matching_e.Observability.Events.{Event, EventBus, publish, broadcast_round}
use realtime_ride_matching_e.Observability.FanOut.{addressed, attached, broadcast_round_lem}

abbrev pub take {ℓ} : {A : Type ℓ} → ℕ → List A → List A
take zero xs = []
take (suc n) [] = []
take (suc n) (x ∷ xs) = x ∷ take n xs

-- The requests publish one event after another.
unfoldable pub publish_all : List Event → EventBus → EventBus
publish_all [] bus = bus
publish_all (e ∷ es) bus = publish_all es (publish bus e)

-- The loop runs for a number of rounds.
unfoldable pub broadcast_rounds : ℕ → (ℕ → Bool) → EventBus → EventBus
broadcast_rounds zero alive bus = bus
broadcast_rounds (suc n) alive bus = broadcast_rounds n alive (broadcast_round alive bus)

-- What is sent when each event in turn goes to all connections.
abbrev pub deliveries : List Event → List ℕ → List (ℕ × Event)
deliveries [] connections = []
deliveries (e ∷ es) connections = addressed e connections ++ deliveries es connections

take-all {ℓ} : {A : Type ℓ} (n : ℕ) (xs : List A) → length xs ≤ n → take n xs ≡ xs
take-all zero [] h = refl
take-all zero (x ∷ xs) h = absurd (omega arith)
take-all (suc n) [] h = refl
take-all (suc n) (x ∷ xs) h = ap (λ l. x ∷ l) (take-all n xs (omega arith))

-- A full queue keeps what it has.
take-full {ℓ} : {A : Type ℓ} (n : ℕ) (xs ys : List A) → length xs ≡ n → take n (xs ++ ys) ≡ xs
take-full zero [] ys h = refl
take-full zero (x ∷ xs) ys h = absurd (omega arith)
take-full (suc n) [] ys h = absurd (omega arith)
take-full (suc n) (x ∷ xs) ys h = ap (λ l. x ∷ l) (take-full n xs ys (omega arith))

take-dropped {ℓ} :
    {A : Type ℓ} (n : ℕ) (xs : List A) (y : A) (ys : List A)
    → n ≤ length xs
    → take n (xs ++ y ∷ ys) ≡ take n (xs ++ ys)
take-dropped zero xs y ys h = refl
take-dropped (suc n) [] y ys h = absurd (omega arith)
take-dropped (suc n) (x ∷ xs) y ys h = ap (λ l. x ∷ l) (take-dropped n xs y ys (omega arith))

publish_one :
    (m : ℕ) (e : Event) (items : List Event) (cs : List ℕ) (sent : List (ℕ × Event))
    → publish (attached m items cs sent) e ≡ (
        if not (m == 0) && leb m (length items)
        then attached m items cs sent
        else attached m (items ++ e ∷ []) cs sent)
unfolding publish
publish_one m e items cs sent = elim (Bool-cases (not (m == 0) && leb m (length items))) [
  | inl h ↦ rw h refl
  | inr h ↦ rw h refl
]

-- A bounded queue holds the oldest events, up to its size.
publish_all-take :
    (m : ℕ) (es items : List Event) (cs : List ℕ) (sent : List (ℕ × Event))
    → 0 < m
    → length items ≤ m
    → publish_all es (attached m items cs sent) ≡ attached m (take m (items ++ es)) cs sent
unfolding publish_all
publish_all-take m [] items cs sent pos fits =
    ap (λ l. attached m l cs sent)
      (sym
        (take-all m (items ++ []) (omega (arith, length-append {0} items [])) ∙ append_nil items))
publish_all-take m (e ∷ es) items cs sent pos fits =
    elim (Bool-cases (not (m == 0) && leb m (length items))) [
      | inl full ↦
          let size : m ≤ length items = ground (arith, full) in
          rw (publish_one m e items cs sent, full)
            (publish_all-take m es items cs sent pos fits
              ∙ ap (λ l. attached m l cs sent) (sym (take-dropped m items e es size)))
      | inr room ↦
          let size : length items < m = ground (arith, room, pos) in
          rw (publish_one m e items cs sent, room)
            (publish_all-take m es (items ++ e ∷ []) cs sent pos
                (omega (arith, length-append {0} items (e ∷ [])))
              ∙ ap (λ l. attached m (take m l) cs sent) (append_assoc items (e ∷ []) es))
    ]

-- The bus is determined by what it holds.
same_bus :
    (bus : EventBus) (m : ℕ) (items : List Event) (cs : List ℕ) (sent : List (ℕ × Event))
    → bus.queue ≡ some (record { maxsize = m; items = items })
    → bus.delivered ≡ sent
    → bus.connections ≡ cs
    → bus ≡ attached m items cs sent
same_bus bus m items cs sent q d c = ground (arith, q, d, c)

broadcast_rounds_lem :
    (alive : ℕ → Bool) (m : ℕ) (es : List Event) (cs : List ℕ) (sent : List (ℕ × Event))
    → select alive cs ≡ cs
    → broadcast_rounds (length es) alive (attached m es cs sent)
      ≡ attached m [] cs (sent ++ deliveries es cs)
unfolding broadcast_rounds
broadcast_rounds_lem alive m [] cs sent up = ap (λ l. attached m [] cs l) (sym (append_nil sent))
broadcast_rounds_lem alive m (e ∷ es) cs sent up =
    let (q, d, c) = broadcast_round_lem alive m e es cs sent in
    let once : broadcast_round alive (attached m (e ∷ es) cs sent)
        ≡ attached m es cs (sent ++ addressed e cs) =
      same_bus (broadcast_round alive (attached m (e ∷ es) cs sent)) m es cs
        (sent ++ addressed e cs) q (d ∙ ap (λ l. sent ++ addressed e l) up) (c ∙ up) in
    ap (broadcast_rounds (length es) alive) once
    ∙ broadcast_rounds_lem alive m es cs (sent ++ addressed e cs) up
    ∙ ap (λ l. attached m [] cs l) (append_assoc sent (addressed e cs) (deliveries es cs))

-- With a queue of positive size that starts empty, and while sends succeed: of the events that are
-- published, each of the first ones that find room goes to every connection once, in the order of
-- publication; the rest are dropped, the queue is empty afterwards and every connection is kept.
pub publish-broadcast :
    (alive : ℕ → Bool) (m : ℕ) (es : List Event) (cs : List ℕ) (sent : List (ℕ × Event))
    → 0 < m
    → select alive cs ≡ cs
    → broadcast_rounds (length (take m es)) alive (publish_all es (attached m [] cs sent))
      ≡ attached m [] cs (sent ++ deliveries (take m es) cs)
publish-broadcast alive m es cs sent pos up =
    ap (broadcast_rounds (length (take m es)) alive)
      (publish_all-take m es [] cs sent pos (omega arith))
    ∙ broadcast_rounds_lem alive m (take m es) cs sent up
