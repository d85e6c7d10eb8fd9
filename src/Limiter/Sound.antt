-- ===== src/Limiter/Sound.antt =====
-- No slot is lost, made up or given twice, and no slot lies free while a coroutine waits for one.
use arodonata.Common.{
  ℕ, ◌+◌, ◌≤◌, ◌≡◌, ◌⊎◌, ◌≢◌, max, inl, inr, refl, Bool, some, List, [], ◌∷◌, ◌++◌, length,
  length-append, ltb, ◌==◌, if◌then◌else◌, arith, Bool-cases, Option-cases, ap, ◌∙◌,
}
use arodonata.Limiter.{
  SlotQueue, Waiter, new_queue, enter, release_slot, cancel, abandon, concurrent_limit,
  remove_waiter, take_handed,
}
use arodonata.Limiter.Places.{
  occurs, occurs-append, slots, occurs-slots-append, places, given, places-hand_over,
  given-hand_over, hand_over-limit, hand_over_no_idle, occurs-range_from, range_from-length,
}
use arodonata.Limiter.Steps.{Step, enters, resumes, leaves, cancels, abandons, Reach, here, next}

-- Each slot below the limit is in exactly one place, and a slot is free only if nobody waits.
pub record IsSound (q : SlotQueue) : Type 0 where
  pub once : (a : ℕ) → places a q ≡ (if ltb a q.limit then 1 else 0)
  pub all_given : given q ≡ q.limit
  pub no_idle : (q.available_slots ≡ []) ⊎ (q.waiters ≡ [])

new_queue-IsSound : (n : ℕ) → IsSound (new_queue n)
unfolding new_queue
new_queue-IsSound n = record {
  once = λ a. ground (arith, occurs-range_from a 0 n);
  all_given = omega (arith, range_from-length 0 n);
  no_idle = inr refl;
}

enter-IsSound :
    (over : Bool) (future : ℕ) (q : SlotQueue) → IsSound q → IsSound (enter over future q).1
unfolding enter
enter-IsSound over future q v = record {
  once = λ a. ground (arith, v.once a);
  all_given = ground arith;
  no_idle = ground arith;
}

resumes-IsSound :
    (future slot : ℕ) (before after : List (ℕ × ℕ)) (q : SlotQueue)
    → q.handed ≡ before ++ (future, slot) ∷ after
    → IsSound q
    → IsSound (record q { handed = before ++ after; held = slot ∷ q.held })
resumes-IsSound future slot before after q e v = record {
  once = λ a. ground (
    arith,
    v.once a,
    ap (λ h. occurs a (slots h)) e,
    occurs-slots-append a before after,
    occurs-slots-append a before ((future, slot) ∷ after),
  );
  all_given = omega (
    arith,
    v.all_given,
    ap length e,
    length-append before after,
    length-append before ((future, slot) ∷ after),
  );
  no_idle = v.no_idle;
}

-- A queue from which one slot is missing: it is out of its place, on its way to the next.
record IsShort (slot : ℕ) (q : SlotQueue) : Type 0 where
  once : (a : ℕ) → (if slot == a then 1 else 0) + places a q ≡ (if ltb a q.limit then 1 else 0)
  all_given : given q + 1 ≡ q.limit
  no_idle : (q.available_slots ≡ []) ⊎ (q.waiters ≡ [])

release_slot-IsSound : (slot : ℕ) (q : SlotQueue) → IsShort slot q → IsSound (release_slot slot q)
unfolding release_slot
release_slot-IsSound slot q v = record {
  once = λ a. rw (places-hand_over a q.waiters slot q, hand_over-limit q.waiters slot q) (v.once a);
  all_given = rw (given-hand_over q.waiters slot q, hand_over-limit q.waiters slot q) v.all_given;
  no_idle = hand_over_no_idle q.waiters slot q v.no_idle;
}

leaves-IsShort :
    (slot : ℕ) (before after : List ℕ) (q : SlotQueue)
    → q.held ≡ before ++ slot ∷ after
    → IsSound q
    → IsShort slot (record q { held = before ++ after })
leaves-IsShort slot before after q e v = record {
  once = λ a. ground (
    arith,
    v.once a,
    ap (occurs a) e,
    occurs-append a before after,
    occurs-append a before (slot ∷ after),
  );
  all_given = omega (
    arith,
    v.all_given,
    ap length e,
    length-append before after,
    length-append before (slot ∷ after),
  );
  no_idle = v.no_idle;
}

cancel-nil : (future : ℕ) (ws : List Waiter) → ws ≡ [] → cancel future ws ≡ []
unfolding cancel
cancel-nil future [] e = refl
cancel-nil future (w ∷ ws) e = cc

remove_waiter-nil :
    (future : ℕ) (ws ws' : List Waiter) → remove_waiter future ws ≡ some ws' → ws ≢ []
unfolding remove_waiter
remove_waiter-nil future [] ws' e = cc
remove_waiter-nil future (w ∷ ws) ws' e = λ p. cc

take_handed_lem :
    (future slot : ℕ) (hs rest : List (ℕ × ℕ))
    → take_handed future hs ≡ some (slot, rest)
    → ((a : ℕ) → occurs a (slots hs) ≡ (if slot == a then 1 else 0) + occurs a (slots rest))
      × (length hs ≡ length rest + 1)
unfolding take_handed
take_handed_lem future slot [] rest e = cc
take_handed_lem future slot ((f, s) ∷ hs) rest e = elim (Bool-cases (f == future)) [
  | inl here_it_is ↦ (λ a. ground arith, ground arith)
  | inr further ↦ elim (Option-cases (take_handed future hs)) [
    | inl absent ↦ absurd (ground arith)
    | inr ((slot', hs'), found) ↦
        let ih = take_handed_lem future slot' hs hs' found in
        (λ a. ground (arith, ih.0 a), ground (arith, ih.1))
  ]
]

abandon-IsSound : (future : ℕ) (q : SlotQueue) → IsSound q → IsSound (abandon future q)
unfolding abandon
abandon-IsSound future q v = elim (Option-cases (remove_waiter future q.waiters)) [
  | inr (ws, found) ↦
      rw (found, abandon)
        (record {
          once = v.once;
          all_given = v.all_given;
          no_idle = ground (arith, remove_waiter-nil future q.waiters ws);
        })
  | inl absent ↦ elim (Option-cases (take_handed future q.handed)) [
    | inl none_handed ↦ rw (absent, none_handed, abandon) v
    | inr ((slot, rest), found) ↦
        let fact = take_handed_lem future slot q.handed rest found in
        rw (absent, found, abandon)
          (release_slot-IsSound slot _ (record {
            once = λ a. omega (arith, v.once a, fact.0 a);
            all_given = omega (arith, v.all_given, fact.1);
            no_idle = v.no_idle;
          }))
  ]
]

Step-IsSound : {q r : SlotQueue} → Step q r → IsSound q → IsSound r
Step-IsSound (enters over future q) v = enter-IsSound over future q v
Step-IsSound (resumes future slot before after q e) v =
    resumes-IsSound future slot before after q e v
Step-IsSound (leaves slot before after q e) v =
    release_slot-IsSound slot _ (leaves-IsShort slot before after q e v)
Step-IsSound (cancels future q) v = record {
  once = v.once;
  all_given = v.all_given;
  no_idle = ground (arith, cancel-nil future q.waiters);
}
Step-IsSound (abandons future q) v = abandon-IsSound future q v

Reach-IsSound_from : {q r : SlotQueue} → Reach q r → IsSound q → IsSound r
Reach-IsSound_from here v = v
Reach-IsSound_from (next path s) v = Step-IsSound s (Reach-IsSound_from path v)

-- In every interleaving of the coroutines, timeouts and cancellations included, each slot below the
-- limit is in exactly one place (free, handed to a waiter that has not run yet, or held), there is no
-- other slot, and none is free while a waiter stands in the deque.
pub Reach-IsSound : (n : ℕ) {q : SlotQueue} → Reach (new_queue n) q → IsSound q
Reach-IsSound n path = Reach-IsSound_from path (new_queue-IsSound n)

concurrent_limit_bounds : (n : ℕ) → (1 ≤ concurrent_limit n) × (concurrent_limit n ≤ 20)
unfolding concurrent_limit
concurrent_limit_bounds n = omega arith

abandon-limit : (future : ℕ) (q : SlotQueue) → (abandon future q).limit ≡ q.limit
unfolding abandon release_slot
abandon-limit future q = elim (Option-cases (remove_waiter future q.waiters)) [
  | inr (ws, found) ↦ rw (found, abandon) refl
  | inl absent ↦ elim (Option-cases (take_handed future q.handed)) [
    | inl none_handed ↦ rw (absent, none_handed, abandon) refl
    | inr ((slot, rest), found) ↦
        rw (absent, found, abandon) (hand_over-limit q.waiters slot (record q { handed = rest }))
  ]
]

Step-limit : {q r : SlotQueue} → Step q r → r.limit ≡ q.limit
unfolding enter release_slot
Step-limit (enters over future q) = ground arith
Step-limit (resumes future slot before after q e) = refl
Step-limit (leaves slot before after q e) = hand_over-limit q.waiters slot _
Step-limit (cancels future q) = refl
Step-limit (abandons future q) = abandon-limit future q

Reach-limit : {q r : SlotQueue} → Reach q r → r.limit ≡ q.limit
Reach-limit here = refl
Reach-limit (next path s) = Step-limit s ∙ Reach-limit path

-- Whatever limit is requested, at most that many coroutines (one, if none is requested) are in the
-- body of `slot` at a time, and never more than twenty.
pub held-le-limit :
    (requested : ℕ) (q : SlotQueue)
    → Reach (new_queue (concurrent_limit requested)) q
    → (length q.held ≤ max 1 requested) × (length q.held ≤ 20)
unfolding concurrent_limit new_queue
held-le-limit requested q path =
    let v = Reach-IsSound (concurrent_limit requested) path in
    omega (arith, v.all_given, Reach-limit path)
