-- ===== src/Base/IntMap.antt =====
-- std::map<int, V> as an association list in the order of its keys. A std::set<int> is a map to
-- the type with one element.
use veloc.Base.Tests.{if◌then◌else◌}
use veloc.Base.Int.{ℤ, ◌<ℤ◌, ◌==ℤ◌, ltb_ℤ, ==ℤ_refl, ==ℤ_false}
use Prim.Native.Nat.{ℕ, zero, suc, ◌≤◌}
use mathlib.Core.Path.{◌≡◌, refl}
use mathlib.Core.Option.{Option, none, some}
use mathlib.Core.List.{List, [], ◌∷◌, ◌++◌}
use native.Mathlib.Omega.{arith}
use veloc.Base.Lists.{length, drop}

abbrev pub IntMap {ℓ} : Type ℓ → Type ℓ
IntMap V = List (ℤ × V)

module _ {ℓ} {V : Type ℓ} where
  -- map::find
  unfoldable pub find : ℤ → IntMap V → Option V
  find k [] = none
  find k ((j, v) ∷ m) = if k ==ℤ j then some v else find k m

  -- map::insert, which keeps the value of a key that is there
  unfoldable pub insert : ℤ → V → IntMap V → IntMap V
  insert k v [] = (k, v) ∷ []
  insert k v ((j, w) ∷ m) =
      if ltb_ℤ k j
      then (k, v) ∷ (j, w) ∷ m
      else if k ==ℤ j
      then (j, w) ∷ m
      else (j, w) ∷ insert k v m

  -- map::insert_or_assign
  unfoldable pub assign : ℤ → V → IntMap V → IntMap V
  assign k v [] = (k, v) ∷ []
  assign k v ((j, w) ∷ m) =
      if ltb_ℤ k j
      then (k, v) ∷ (j, w) ∷ m
      else if k ==ℤ j
      then (k, v) ∷ m
      else (j, w) ∷ assign k v m

  -- map::erase by key
  unfoldable pub erase : ℤ → IntMap V → IntMap V
  erase k [] = []
  erase k ((j, w) ∷ m) = if k ==ℤ j then m else (j, w) ∷ erase k m

  -- Every key is above `b`, and they rise along the list.
  abbrev pub Above : ℤ → IntMap V → Type 0
  Above b [] = Unit
  Above b ((k, _) ∷ m) = (b <ℤ k) × Above k m

  abbrev pub IsOrdered : IntMap V → Type 0
  IsOrdered [] = Unit
  IsOrdered ((k, _) ∷ m) = Above k m

  pub Above-mono : (a b : ℤ) (m : IntMap V) → a <ℤ b → Above b m → Above a m
  Above-mono a b [] h _ = tt
  Above-mono a b ((k, v) ∷ m) h (hk, hm) = (omega arith, hm)

  pub Above-IsOrdered : (b : ℤ) (m : IntMap V) → Above b m → IsOrdered m
  Above-IsOrdered b [] _ = tt
  Above-IsOrdered b ((k, v) ∷ m) (_, h) = h

  pub find_below : (k b : ℤ) (m : IntMap V) → Above b m → (k ≡ b) → find k m ≡ none
  unfolding find ◌==ℤ◌
  find_below k b [] _ _ = refl
  find_below k b ((j, w) ∷ m) (hj, h) e =
      ground (arith, find_below k k m (Above-mono k j m (ground arith) h) refl)

  pub Above-assign : (b k : ℤ) (v : V) (m : IntMap V) → Above b m → b <ℤ k → Above b (assign k v m)
  unfolding assign ◌==ℤ◌
  Above-assign b k v [] _ h = (h, tt)
  Above-assign b k v ((j, w) ∷ m) (hj, hm) h = ground (arith, Above-assign j k v m hm)

  pub Above-insert : (b k : ℤ) (v : V) (m : IntMap V) → Above b m → b <ℤ k → Above b (insert k v m)
  unfolding insert ◌==ℤ◌
  Above-insert b k v [] _ h = (h, tt)
  Above-insert b k v ((j, w) ∷ m) (hj, hm) h = ground (arith, Above-insert j k v m hm)

  pub Above-erase : (b k : ℤ) (m : IntMap V) → Above b m → Above b (erase k m)
  unfolding erase ◌==ℤ◌
  Above-erase b k [] _ = tt
  Above-erase b k ((j, w) ∷ m) (hj, hm) = ground (arith, Above-erase j k m hm, Above-mono b j m)

  -- The value that std::map keeps for a key: the one that it has, or else the new one.
  abbrev pub kept : Option V → V → V
  kept none v = v
  kept (some w) v = w

  pub assign-IsOrdered : (k : ℤ) (v : V) (m : IntMap V) → IsOrdered m → IsOrdered (assign k v m)
  unfolding assign ◌==ℤ◌
  assign-IsOrdered k v [] _ = tt
  assign-IsOrdered k v ((j, w) ∷ m) h = ground (arith, Above-assign j k v m h)

  pub insert-IsOrdered : (k : ℤ) (v : V) (m : IntMap V) → IsOrdered m → IsOrdered (insert k v m)
  unfolding insert ◌==ℤ◌
  insert-IsOrdered k v [] _ = tt
  insert-IsOrdered k v ((j, w) ∷ m) h = ground (arith, Above-insert j k v m h)

  pub erase-IsOrdered : (k : ℤ) (m : IntMap V) → IsOrdered m → IsOrdered (erase k m)
  unfolding erase ◌==ℤ◌
  erase-IsOrdered k [] _ = tt
  erase-IsOrdered k ((j, w) ∷ m) h = ground (arith, Above-erase j k m h, Above-IsOrdered j m h)

  -- A key above all the others goes to the end.
  abbrev pub Below : IntMap V → ℤ → Type 0
  Below [] b = Unit
  Below ((k, _) ∷ m) b = (k <ℤ b) × Below m b

  pub Below-mono : (a b : ℤ) (m : IntMap V) → a <ℤ b → Below m a → Below m b
  Below-mono a b [] h _ = tt
  Below-mono a b ((k, v) ∷ m) h (hk, hm) = (omega arith, Below-mono a b m h hm)

  pub Below-snoc :
      (m : IntMap V) (k b : ℤ) (v : V) → Below m b → k <ℤ b → Below (m ++ (k, v) ∷ []) b
  Below-snoc [] k b v _ h = (h, tt)
  Below-snoc ((j, w) ∷ m) k b v (hj, hm) h = (hj, Below-snoc m k b v hm h)

  pub insert_last : (k : ℤ) (v : V) (m : IntMap V) → Below m k → insert k v m ≡ m ++ (k, v) ∷ []
  unfolding insert ◌==ℤ◌
  insert_last k v [] _ = refl
  insert_last k v ((j, w) ∷ m) (hj, h) = ground (arith, insert_last k v m h)

  pub insert_first : (k : ℤ) (v : V) (m : IntMap V) → Above k m → insert k v m ≡ (k, v) ∷ m
  unfolding insert
  insert_first k v [] _ = refl
  insert_first k v ((j, w) ∷ m) (hj, h) = ground arith

  pub Above-drop : (k : ℤ) (n : ℕ) (m : IntMap V) → Above k m → Above k (drop n m)
  Above-drop k zero m h = h
  Above-drop k (suc n) [] h = tt
  Above-drop k (suc n) ((j, w) ∷ m) (hj, h) = Above-drop k n m (Above-mono k j m hj h)

  pub find_last : (k : ℤ) (v : V) (m : IntMap V) → Below m k → find k (m ++ (k, v) ∷ []) ≡ some v
  unfolding find
  find_last k v [] _ = rw (==ℤ_refl k)
  find_last k v ((j, w) ∷ m) (hj, h) = rw (==ℤ_false k j (omega arith)) (find_last k v m h)

  pub length-erase : (k : ℤ) (m : IntMap V) → length (erase k m) ≤ length m
  unfolding erase ◌==ℤ◌
  length-erase k [] = omega arith
  length-erase k ((j, w) ∷ m) = ground (arith, length-erase k m)

-- The laws by which the rest of the development reads a map.
module _ {V : Type 0} where
  pub find-assign :
      (j k : ℤ) (v : V) (m : IntMap V)
      → find j (assign k v m) ≡ (if j ==ℤ k then some v else find j m)
  unfolding find assign ◌==ℤ◌
  find-assign j k v [] = refl
  find-assign j k v ((i, w) ∷ m) = ground (arith, find-assign j k v m)

  pub find-insert :
      (j k : ℤ) (v : V) (m : IntMap V)
      → IsOrdered m
      → find j (insert k v m) ≡ (if j ==ℤ k then some (kept (find k m) v) else find j m)
  unfolding find insert ◌==ℤ◌
  find-insert j k v [] _ = refl
  find-insert j k v ((i, w) ∷ m) h = ground (
    arith,
    find-insert j k v m (Above-IsOrdered i m h),
    λ (lt : k <ℤ i). find_below k k m (Above-mono k i m lt h) refl,
  )

  pub find-erase :
      (j k : ℤ) (m : IntMap V)
      → IsOrdered m
      → find j (erase k m) ≡ (if j ==ℤ k then none else find j m)
  unfolding find erase ◌==ℤ◌
  find-erase j k [] _ = ground arith
  find-erase j k ((i, w) ∷ m) h =
      ground (arith, find-erase j k m (Above-IsOrdered i m h), find_below j i m h)
