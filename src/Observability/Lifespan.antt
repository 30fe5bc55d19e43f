-- ===== src/Observability/Lifespan.antt =====
-- The life of the event bus: the lifespan of app/main.py and the endpoint of app/api/websocket.py.
-- What happens on the event loop of one lifespan is a sequence; a socket is named by a number.
use realtime_ride_matching_e.Prelude.{
  ℕ, ◌≡◌, ◌≤◌, ◌<◌, refl, Bool, true, false, not, ◌&&◌, ◌||◌, none, List, [], ◌∷◌, ◌++◌, ◌==◌,
  if◌then◌else◌, contains, select, length, arith, count, Bool-cases, inl, inr, ◌+◌, length-append,
  subst, sym, ==_iff,
}
use realtime_ride_matching_e.Observability.Events.{
  Event, EventBus, attach, detach, publish, put_nowait, register, unregister, discard,
  broadcast_round, is_full,
}
use realtime_ride_matching_e.Observability.FanOut.{attached, addressed, broadcast_round_lem}

pub data Happening : Type 0 where
  -- websocket.accept(), event_bus.register(websocket)
  opens : (ws : ℕ) → Happening
  -- receive_text() returns: nothing is done with the text
  receives : (ws : ℕ) → Happening
  -- WebSocketDisconnect, or any other end of the endpoint: event_bus.unregister(websocket)
  closes : (ws : ℕ) → Happening
  -- a request thread publishes
  publishes : (e : Event) → Happening
  -- the broadcast task takes its next turn; `alive` says to which sockets a send succeeds
  broadcasts : (alive : ℕ → Bool) → Happening

unfoldable pub happen : Happening → EventBus → EventBus
happen (opens ws) bus = register bus ws
happen (receives ws) bus = bus
happen (closes ws) bus = unregister bus ws
happen (publishes e) bus = publish bus e
happen (broadcasts alive) bus = broadcast_round alive bus

unfoldable pub happen_all : List Happening → EventBus → EventBus
unfolding happen
happen_all [] bus = bus
happen_all (h ∷ hs) bus = happen_all hs (happen h bus)

-- The server of one process, from its start to its shutdown.
unfoldable pub lifespan : ℕ → List Happening → EventBus → EventBus
unfolding happen_all
lifespan maxsize hs bus = detach (happen_all hs (attach bus maxsize))

-- Whether the socket has been opened, and not closed since.
abbrev pub is_open : ℕ → List Happening → Bool → Bool
is_open ws [] now = now
is_open ws (opens k ∷ hs) now = is_open ws hs (k == ws || now)
is_open ws (closes k ∷ hs) now = is_open ws hs (not (k == ws) && now)
is_open ws (h ∷ hs) now = is_open ws hs now

contains-discard :
    (ws k : ℕ) (l : List ℕ) → contains ws (discard k l) ≡ (contains ws l && not (ws == k))
contains-discard ws k [] = refl
contains-discard ws k (x ∷ l) = ground (arith, contains-discard ws k l)

contains-append : (ws k : ℕ) (l : List ℕ) → contains ws (l ++ k ∷ []) ≡ (contains ws l || k == ws)
contains-append ws k [] = ground arith
contains-append ws k (x ∷ l) = ground (arith, contains-append ws k l)

count-append : (ws k : ℕ) (l : List ℕ) → count ws (l ++ k ∷ []) ≡ count ws l + count ws (k ∷ [])
count-append ws k [] = ground arith
count-append ws k (x ∷ l) = ground (arith, count-append ws k l)

count-absent : (ws : ℕ) (l : List ℕ) → contains ws l ≡ false → count ws l ≡ 0
count-absent ws [] h = refl
count-absent ws (x ∷ l) h = ground (arith, count-absent ws l)

count-select : (ws : ℕ) (keep : ℕ → Bool) (l : List ℕ) → count ws (select keep l) ≤ count ws l
count-select ws keep [] = omega arith
count-select ws keep (x ∷ l) = ground (arith, count-select ws keep l)

contains-select :
    (ws : ℕ) (keep : ℕ → Bool) (l : List ℕ)
    → contains ws (select keep l) ≡ true
    → contains ws l ≡ true
contains-select ws keep [] h = h
contains-select ws keep (x ∷ l) h = ground (arith, contains-select ws keep l)

-- An attached bus: its queue is within its size, and of the connections, `ws` is there at most once,
-- and only if it is open.
pub data AtWork (maxsize ws : ℕ) (open_now : Bool) : EventBus → Type 0 where
  at_work :
      (items : List Event) (connections : List ℕ) (delivered : List (ℕ × Event))
      → (0 < maxsize → length items ≤ maxsize)
      → (contains ws connections ≡ true → open_now ≡ true)
      → count ws connections ≤ 1
      → AtWork maxsize ws open_now (attached maxsize items connections delivered)

broadcast_round_bus :
    (alive : ℕ → Bool) (maxsize : ℕ) (e : Event) (items : List Event) (cs : List ℕ)
    (sent : List (ℕ × Event))
    → broadcast_round alive (attached maxsize (e ∷ items) cs sent)
      ≡ attached maxsize items (select alive cs) (sent ++ addressed e (select alive cs))
broadcast_round_bus alive maxsize e items cs sent =
    let (queue, delivered, connections) = broadcast_round_lem alive maxsize e items cs sent in
    λ i. record { queue = queue i; connections = connections i; delivered = delivered i }

module _ (maxsize ws : ℕ) where
  opened_known :
      (k : ℕ) (now : Bool) (cs : List ℕ)
      → (contains ws cs ≡ true → now ≡ true)
      → contains ws (if contains k cs then cs else cs ++ k ∷ []) ≡ true
      → (k == ws || now) ≡ true
  opened_known k now cs known h = elim (Bool-cases (contains k cs)) [
    | inl e ↦ let there : contains ws cs ≡ true = rw e at h in ground (arith, known there)
    | inr e ↦
        let there : contains ws (cs ++ k ∷ []) ≡ true = rw e at h in
        ground (arith, contains-append ws k cs, known)
  ]

  opened_once :
      (k : ℕ) (cs : List ℕ)
      → count ws cs ≤ 1
      → count ws (if contains k cs then cs else cs ++ k ∷ []) ≤ 1
  opened_once k cs once = elim (Bool-cases (contains k cs)) [
    | inl e ↦ rw e once
    | inr e ↦ rw e (ground (arith, count-append ws k cs, count-absent k cs e, ==_iff k ws))
  ]

  closed_known :
      (k : ℕ) (now : Bool) (cs : List ℕ)
      → (contains ws cs ≡ true → now ≡ true)
      → contains ws (discard k cs) ≡ true
      → (not (k == ws) && now) ≡ true
  closed_known k now cs known h = ground (arith, contains-discard ws k cs, known, ==_iff k ws)

  enqueued :
      (items : List Event) (e : Event)
      → is_full (record { maxsize = maxsize; items = items }) ≡ false
      → 0 < maxsize
      → length items ≤ maxsize
      → length (items ++ e ∷ []) ≤ maxsize
  enqueued items e room pos small = ground (arith, length-append items (e ∷ []))

  happen-AtWork :
      (h : Happening) (now : Bool) (bus : EventBus)
      → AtWork maxsize ws now bus
      → AtWork maxsize ws (is_open ws (h ∷ []) now) (happen h bus)
  unfolding happen register unregister publish put_nowait broadcast_round
  happen-AtWork (opens k) now _ (at_work items cs sent small known once) =
      at_work items (if contains k cs then cs else cs ++ k ∷ []) sent small
        (opened_known k now cs known) (opened_once k cs once)
  happen-AtWork (receives k) now _ a = a
  happen-AtWork (closes k) now _ (at_work items cs sent small known once) =
      at_work items (discard k cs) sent small (closed_known k now cs known)
        (ground (arith, count-select ws (λ c. not (c == k)) cs))
  happen-AtWork (publishes e) now _ (at_work items cs sent small known once) =
      elim (Bool-cases (is_full (record { maxsize = maxsize; items = items }))) [
        | inl full ↦ rw full (at_work items cs sent small known once)
        | inr room ↦ rw room (
            at_work (items ++ e ∷ []) cs sent (λ pos. enqueued items e room pos (small pos)) known
              once)
      ]
  happen-AtWork (broadcasts alive) now _ (at_work [] cs sent small known once) =
      at_work [] cs sent small known once
  happen-AtWork (broadcasts alive) now _ (at_work (e ∷ items) cs sent small known once) =
      subst (AtWork maxsize ws now) (sym (broadcast_round_bus alive maxsize e items cs sent)) (
        at_work items (select alive cs) (sent ++ addressed e (select alive cs))
          (λ pos. omega (arith, small pos)) (λ h. known (contains-select ws alive cs h))
          (omega (arith, count-select ws alive cs)))

  is_open_step :
      (h : Happening) (hs : List Happening) (now : Bool)
      → is_open ws hs (is_open ws (h ∷ []) now) ≡ is_open ws (h ∷ hs) now
  is_open_step (opens k) hs now = refl
  is_open_step h hs now = refl

  happen_all-AtWork :
      (hs : List Happening) (now : Bool) (bus : EventBus)
      → AtWork maxsize ws now bus
      → AtWork maxsize ws (is_open ws hs now) (happen_all hs bus)
  unfolding happen_all
  happen_all-AtWork [] now bus a = a
  happen_all-AtWork (h ∷ hs) now bus a =
      subst (λ o. AtWork maxsize ws o (happen_all hs (happen h bus))) (is_open_step h hs now)
        (happen_all-AtWork hs (is_open ws (h ∷ []) now) (happen h bus) (happen-AtWork h now bus a))

-- From a bus with no connections, whatever happens in a lifespan and in whichever order: the queue
-- never holds more events than its size, if that is positive, and each socket is among the connections
-- at most once, and only if it was opened and has not been closed since. After the shutdown there are
-- neither a queue nor connections, and what is published then is dropped.
pub lifespan_lem :
    (maxsize : ℕ) (hs : List Happening) (bus : EventBus)
    → bus.connections ≡ []
    → ((ws : ℕ) → AtWork maxsize ws (is_open ws hs false) (happen_all hs (attach bus maxsize)))
      × ((lifespan maxsize hs bus).queue ≡ none)
      × ((lifespan maxsize hs bus).connections ≡ [])
      × ((e : Event) → publish (lifespan maxsize hs bus) e ≡ lifespan maxsize hs bus)
unfolding lifespan attach detach publish
lifespan_lem maxsize hs bus empty = (
  λ ws. happen_all-AtWork maxsize ws hs false (attach bus maxsize) (
      subst (λ cs. AtWork maxsize ws false (attached maxsize [] cs bus.delivered)) (sym empty)
        (at_work [] [] bus.delivered (λ pos. omega arith) (λ h. h) (omega arith))),
  refl,
  refl,
  λ e. refl,
)
