-- ===== src/Limiter/Places.antt =====
-- Where the slots of a queue are, as numbers of occurrences, and what handing one over changes.
use arodonata.Common.{
  ℕ, zero, suc, ◌+◌, ◌≡◌, ◌⊎◌, inr, refl, List, [], ◌∷◌, ◌++◌, length, length-append, ltb, ◌==◌,
  if◌then◌else◌, arith, ap,
}
use arodonata.Limiter.{SlotQueue, Waiter, hand_over, range_from}

abbrev pub slots : List (ℕ × ℕ) → List ℕ
slots [] = []
slots ((future, slot) ∷ hs) = slot ∷ slots hs

pub slots-append : (xs ys : List (ℕ × ℕ)) → slots (xs ++ ys) ≡ slots xs ++ slots ys
slots-append [] ys = refl
slots-append ((f, s) ∷ xs) ys = ap (◌∷◌ s) (slots-append xs ys)

module _ (a : ℕ) where
  -- How often slot `a` stands in a list.
  abbrev pub occurs : List ℕ → ℕ
  occurs [] = 0
  occurs (slot ∷ rest) = (if slot == a then 1 else 0) + occurs rest

  pub occurs-append : (front back : List ℕ) → occurs (front ++ back) ≡ occurs front + occurs back
  occurs-append [] back = omega arith
  occurs-append (slot ∷ rest) back = omega (arith, occurs-append rest back)

  pub occurs-slots-append :
      (xs ys : List (ℕ × ℕ)) → occurs (slots (xs ++ ys)) ≡ occurs (slots xs) + occurs (slots ys)
  occurs-slots-append xs ys = rw (slots-append xs ys) (occurs-append (slots xs) (slots ys))

-- In how many places slot `a` is: free, handed to a waiter, or held.
abbrev pub places : ℕ → SlotQueue → ℕ
places a q = occurs a q.available_slots + occurs a (slots q.handed) + occurs a q.held

abbrev pub given : SlotQueue → ℕ
given q = length q.available_slots + length q.handed + length q.held

pub places-hand_over :
    (a : ℕ) (ws : List Waiter) (slot : ℕ) (q : SlotQueue)
    → places a (hand_over ws slot q) ≡ (if slot == a then 1 else 0) + places a q
unfolding hand_over
places-hand_over a [] slot q = omega (arith, occurs-append a q.available_slots (slot ∷ []))
places-hand_over a (w ∷ ws) slot q =
    ground
      (arith, places-hand_over a ws slot q, occurs-slots-append a q.handed ((w.future, slot) ∷ []))

pub given-hand_over :
    (ws : List Waiter) (slot : ℕ) (q : SlotQueue) → given (hand_over ws slot q) ≡ given q + 1
unfolding hand_over
given-hand_over [] slot q = omega (arith, length-append q.available_slots (slot ∷ []))
given-hand_over (w ∷ ws) slot q =
    ground (arith, given-hand_over ws slot q, length-append q.handed ((w.future, slot) ∷ []))

pub hand_over-limit :
    (ws : List Waiter) (slot : ℕ) (q : SlotQueue) → (hand_over ws slot q).limit ≡ q.limit
unfolding hand_over
hand_over-limit [] slot q = refl
hand_over-limit (w ∷ ws) slot q = ground (arith, hand_over-limit ws slot q)

pub hand_over_no_idle :
    (ws : List Waiter) (slot : ℕ) (q : SlotQueue)
    → (q.available_slots ≡ []) ⊎ (ws ≡ [])
    → let r = hand_over ws slot q in (r.available_slots ≡ []) ⊎ (r.waiters ≡ [])
unfolding hand_over
hand_over_no_idle [] slot q h = inr refl
hand_over_no_idle (w ∷ ws) slot q h = ground (arith, hand_over_no_idle ws slot q)

pub occurs-range_from :
    (a start n : ℕ)
    → occurs a (range_from start n)
      ≡ (if ltb a start then 0 else if ltb a (start + n) then 1 else 0)
unfolding range_from
occurs-range_from a start zero = ground arith
occurs-range_from a start (suc n) = ground (arith, occurs-range_from a (suc start) n)

pub range_from-length : (start n : ℕ) → length (range_from start n) ≡ n
unfolding range_from
range_from-length start zero = refl
range_from-length start (suc n) = ap suc (range_from-length (suc start) n)
