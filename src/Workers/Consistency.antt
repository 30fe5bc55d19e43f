-- ===== src/Workers/Consistency.antt =====
-- Whatever the workers do, the versions of the rows keep the constraints.
use realtime_ride_matching_e.Prelude.{
  ℕ, ◌≡◌, false, Option, none, some, ◌==◌, arith, Bool-cases, Option-cases, inl, inr, sym, ◌∙◌, ◌⊎◌,
  ◌≢◌, refl, ==_iff,
}
use realtime_ride_matching_e.Models.{Ride}
use realtime_ride_matching_e.Storage.Uniqueness.{Compatible, Compatible-symm}
use realtime_ride_matching_e.Workers.Versions.{
  Versions, seen, or_else, MayWrite, SameBase, SameOthers, Forgets, RowStep, stays, writes,
  publishes, discards,
}

-- Any two rows keep the constraints beside each other.
abbrev pub Distinct : (ℕ → Option Ride) → Type 0
Distinct f =
    (a b : ℕ) (r q : Ride) → (a == b) ≡ false → f a ≡ some r → f b ≡ some q → Compatible r q

pub record IsConsistent (v : Versions) : Type 0 where
  pub committed : Distinct v.base
  pub visible : (i : ℕ) → Distinct (seen v i)
  pub apart : (i j id : ℕ) (r : Ride) → (j == i) ≡ false → v.own i id ≡ some r → v.own j id ≡ none
  pub cross :
      (i j a b : ℕ) (r q : Ride)
      → (j == i) ≡ false
      → v.own i a ≡ some r
      → v.own j b ≡ some q
      → Compatible r q

pub Distinct-same : (f g : ℕ → Option Ride) → ((x : ℕ) → g x ≡ f x) → Distinct f → Distinct g
Distinct-same f g e d a b r q n p s = d a b r q n (sym (e a) ∙ p) (sym (e b) ∙ s)

-- A pair of rows, each of which is the worker's own or the base's.
Distinct-mixed :
    (base own : ℕ → Option Ride)
    → ((a b : ℕ) (r q : Ride) → (a == b) ≡ false → own a ≡ some r → own b ≡ some q → Compatible r q)
    → ((a b : ℕ) (r q : Ride)
        → (a == b) ≡ false
        → own a ≡ some r
        → own b ≡ none
        → base b ≡ some q
        → Compatible r q)
    → Distinct base
    → Distinct (λ x. or_else (own x) (base x))
Distinct-mixed base own oo ob bb a b r q n p s = go (own a) (own b) refl refl p s
  where
    go :
        (x y : Option Ride)
        → own a ≡ x
        → own b ≡ y
        → or_else x (base a) ≡ some r
        → or_else y (base b) ≡ some q
        → Compatible r q
    go (some c) (some d) e f p s = oo a b r q n (e ∙ p) (f ∙ s)
    go (some c) none e f p s = ob a b r q n (e ∙ p) f s
    go none (some d) e f p s = Compatible-symm (ob b a q r (ground (arith, n)) (f ∙ s) e p)
    go none none e f p s = bb a b r q n p s

same_no : (a b : ℕ) → (a == b) ≡ false → a ≢ b
same_no a b n e = ground arith

pub none-ne-some : (r : Ride) → none ≢ some r
none-ne-some r e = cc

module _ (v v' : Versions) (c : IsConsistent v) where
  -- What follows for the next state where one worker keeps what it has written.
  base-same : SameBase v v' → Distinct v'.base
  base-same e = Distinct-same v.base v'.base e c.committed

  seen-same : (i : ℕ) → SameBase v v' → ((id : ℕ) → v'.own i id ≡ v.own i id) → Distinct (seen v' i)
  seen-same i e o = Distinct-same (seen v i) (seen v' i) (λ x. rw (e x, o x)) (c.visible i)

  stays-IsConsistent : SameBase v v' → ((j id : ℕ) → v'.own j id ≡ v.own j id) → IsConsistent v'
  stays-IsConsistent e o = record {
    committed = base-same e;
    visible = λ i. seen-same i e (o i);
    apart = λ i j id r n h. o j id ∙ c.apart i j id r n (sym (o i id) ∙ h);
    cross = λ i j a b r q n h k. c.cross i j a b r q n (sym (o i a) ∙ h) (sym (o j b) ∙ k);
  }

  own-of_Forgets :
      (i : ℕ)
      → SameOthers v v' i
      → Forgets v' i
      → (j id : ℕ) (r : Ride) → v'.own j id ≡ some r
      → v.own j id ≡ some r
  own-of_Forgets i o f j id r h = elim (Bool-cases (j == i)) [
    | inl e ↦
        let gone : v'.own j id ≡ none = rw ((==_iff j i).0 e) (f id) in
        absurd (none-ne-some r (sym gone ∙ h))
    | inr m ↦ sym (o j id m) ∙ h
  ]

  -- The worker `i` has no versions of its own any more.
  Forgets-IsConsistent :
      (i : ℕ)
      → SameOthers v v' i
      → Forgets v' i
      → Distinct v'.base
      → ((j : ℕ) → (j == i) ≡ false → Distinct (seen v' j))
      → IsConsistent v'
  Forgets-IsConsistent i o f d vis = record {
    committed = d;
    visible = λ j. elim (Bool-cases (j == i)) [
      | inl e ↦ Distinct-same v'.base (seen v' j) (λ x. rw ((==_iff j i).0 e, f x)) d
      | inr n ↦ vis j n
    ];
    apart = λ j k id r n h. elim (Bool-cases (k == i)) [
      | inl e ↦ rw ((==_iff k i).0 e) (f id)
      | inr m ↦ o k id m ∙ c.apart j k id r n (own-of_Forgets i o f j id r h)
    ];
    cross = λ j k a b r q n h l.
        c.cross j k a b r q n (own-of_Forgets i o f j a r h) (own-of_Forgets i o f k b q l);
  }

  -- Another worker sees its own versions, and beside them what has been committed now.
  publishes-visible :
      (i j : ℕ)
      → ((id : ℕ) → v'.base id ≡ seen v i id)
      → SameOthers v v' i
      → (j == i) ≡ false
      → Distinct (seen v' j)
  publishes-visible i j p o n =
      Distinct-same (λ x. or_else (v.own j x) (seen v i x)) (seen v' j) (λ x. rw (p x, o j x n))
        (Distinct-mixed (seen v i) (v.own j) (λ a b r q m h k. c.visible j a b r q m (rw h) (rw k))
          (λ a b r q m h k l. beside a b r q m h k l (Option-cases (v.own i b))) (c.visible i))
    where
      beside :
          (a b : ℕ) (r q : Ride)
          → (a == b) ≡ false
          → v.own j a ≡ some r
          → v.own j b ≡ none
          → seen v i b ≡ some q
          → (v.own i b ≡ none) ⊎ ((x : Ride) × (v.own i b ≡ some x))
          → Compatible r q
      beside a b r q m h k l (inl e) = c.visible j a b r q m (rw h) (rw k (rw e at l))
      beside a b r q m h k l (inr (x, e)) =
          c.cross j i a b r q (ground (arith, n)) h (e ∙ (rw e at l))

  publishes-IsConsistent :
      (i : ℕ)
      → ((id : ℕ) → v'.base id ≡ seen v i id)
      → SameOthers v v' i
      → Forgets v' i
      → IsConsistent v'
  publishes-IsConsistent i p o f =
      Forgets-IsConsistent i o f (Distinct-same (seen v i) v'.base p (c.visible i))
        (λ j n. publishes-visible i j p o n)

  discards-IsConsistent :
      (i : ℕ) → SameBase v v' → SameOthers v v' i → Forgets v' i → IsConsistent v'
  discards-IsConsistent i e o f =
      Forgets-IsConsistent i o f (base-same e) (λ j n. seen-same j e (λ id. o j id n))

-- One worker writes one row.
module _ (v v' : Versions) (c : IsConsistent v) (i id : ℕ) (new : Ride) (may : MayWrite v i id new)
    (base : SameBase v v') (others : SameOthers v v' i) (here : v'.own i id ≡ some new)
    (elsewhere : (x : ℕ) → (x == id) ≡ false → v'.own i x ≡ v.own i x) where
  -- A version in the new state is the new one, or one of the old state.
  data WasOwn (j a : ℕ) (r : Ride) : Type 0 where
    written : (j ≡ i) → (a ≡ id) → r ≡ new → WasOwn j a r
    before : ((j == i) ≡ false) ⊎ ((a == id) ≡ false) → v.own j a ≡ some r → WasOwn j a r

  was_own : (j a : ℕ) (r : Ride) → v'.own j a ≡ some r → WasOwn j a r
  was_own j a r h = elim (Bool-cases (j == i)) [
    | inr n ↦ before (inl n) (sym (others j a n) ∙ h)
    | inl e ↦
        let j_is : j ≡ i = (==_iff j i).0 e in
        elim (Bool-cases (a == id)) [
          | inl q ↦ let a_is : a ≡ id = (==_iff a id).0 q in written j_is a_is (cc)
          | inr n ↦
              before (inr n)
                (let old : v'.own j a ≡ v.own j a = rw j_is (elsewhere a n) in sym old ∙ h)
        ]
  ]

  -- What the writer sees: the new row under its id, and all else as before.
  seen_here : seen v' i id ≡ some new
  seen_here = rw here

  seen_elsewhere : (x : ℕ) → (x == id) ≡ false → seen v' i x ≡ seen v i x
  seen_elsewhere x n = rw (elsewhere x n, base x)

  writer-visible : Distinct (seen v' i)
  writer-visible a b r q n h k = elim (Bool-cases (a == id)) [
    | inl e ↦
        let a_is : a ≡ id = (==_iff a id).0 e in
        let r_is : r ≡ new = cc (seen_here) in
        let far : (b == id) ≡ false = ground arith in
        rw r_is (may.fits b q far (sym (seen_elsewhere b far) ∙ k))
    | inr m ↦ elim (Bool-cases (b == id)) [
      | inl e ↦
          let b_is : b ≡ id = (==_iff b id).0 e in
          let q_is : q ≡ new = cc (seen_here) in
          rw q_is (Compatible-symm (may.fits a r m (sym (seen_elsewhere a m) ∙ h)))
      | inr l ↦ c.visible i a b r q n (sym (seen_elsewhere a m) ∙ h) (sym (seen_elsewhere b l) ∙ k)
    ]
  ]

  beside_old : (j k x : ℕ) (r : Ride) → (k == j) ≡ false → v.own j x ≡ some r → v'.own k x ≡ none
  beside_old j k x r n h = elim (Bool-cases (k == i)) [
    | inr m ↦ others k x m ∙ c.apart j k x r n h
    | inl e ↦
        let k_is : k ≡ i = (==_iff k i).0 e in
        elim (Bool-cases (x == id)) [
          | inl q ↦
              let x_is : x ≡ id = (==_iff x id).0 q in
              let far : (j == i) ≡ false = ground arith in
              absurd (none-ne-some r (sym (may.unlocked j far) ∙ (rw x_is at h)))
          | inr m ↦
              let old : v'.own k x ≡ v.own k x = rw k_is (elsewhere x m) in
              old ∙ c.apart j k x r n h
        ]
  ]

  writes-apart : (j k x : ℕ) (r : Ride) → (k == j) ≡ false → WasOwn j x r → v'.own k x ≡ none
  writes-apart j k x r n (before _ h) = beside_old j k x r n h
  writes-apart j k x r n (written j_is x_is r_is) =
      let far : (k == i) ≡ false = ground arith in rw x_is (others k id far ∙ may.unlocked k far)

  writes-cross :
      (j k a b : ℕ) (r q : Ride) → (k == j) ≡ false → WasOwn j a r → WasOwn k b q → Compatible r q
  writes-cross j k a b r q n (before _ h) (before _ l) = c.cross j k a b r q n h l
  writes-cross j k a b r q n (written j_is a_is r_is) (before _ l) =
      rw r_is (may.undisputed k b q (ground arith) l)
  writes-cross j k a b r q n (before _ h) (written k_is b_is q_is) =
      rw q_is (Compatible-symm (may.undisputed j a r (ground arith) h))
  writes-cross j k a b r q n (written j_is a_is r_is) (written k_is b_is q_is) =
      absurd (same_no k j n (k_is ∙ sym j_is))

  writes-IsConsistent : IsConsistent v'
  writes-IsConsistent = record {
    committed = base-same v v' c base;
    visible = λ j. elim (Bool-cases (j == i)) [
      | inl e ↦ rw ((==_iff j i).0 e) writer-visible
      | inr n ↦ seen-same v v' c j base (λ x. others j x n)
    ];
    apart = λ j k x r n h. writes-apart j k x r n (was_own j x r h);
    cross = λ j k a b r q n h l. writes-cross j k a b r q n (was_own j a r h) (was_own k b q l);
  }

-- Every step keeps the constraints in what is committed, in what each worker sees, and between the
-- uncommitted versions of different workers.
pub RowStep-IsConsistent : {v v' : Versions} → RowStep v v' → IsConsistent v → IsConsistent v'
RowStep-IsConsistent {v} {v'} (stays e o) c = stays-IsConsistent v v' c e o
RowStep-IsConsistent {v} {v'} (writes i id new may base others here elsewhere) c =
    writes-IsConsistent v v' c i id new may base others here elsewhere
RowStep-IsConsistent {v} {v'} (publishes i p o f) c = publishes-IsConsistent v v' c i p o f
RowStep-IsConsistent {v} {v'} (discards i e o f) c = discards-IsConsistent v v' c i e o f
