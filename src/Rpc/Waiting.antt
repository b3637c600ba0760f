-- ===== src/Rpc/Waiting.antt =====
-- `wait_for_transmission_rpc`: the loop that tries to connect once a second. Time is counted in
-- milliseconds from the first reading of the clock.
use linux_iso_seeder.Base.{
  ℕ, zero, suc, ◌+◌, ◌*◌, ◌<◌, ◌≤◌, ◌≡◌, refl, ◌↔◌, ◌⊎◌, Bool, true, false, Option, none, some,
  if◌then◌else◌, ltb, ltb→lt, lt→ltb, Bool-cases, inl, inr, arith,
}

-- What the n-th attempt meets: whether the port accepts it, and how long it and the sleep after it
-- take, beyond the second that is slept.
pub record Attempts : Type 0 where
  pub accepts : ℕ → Bool
  pub cost : ℕ → ℕ

module _ (attempts : Attempts) where
  open attempts use {accepts, cost}

  -- Each round costs a unit of fuel.
  unfoldable pub wait_loop : ℕ → ℕ → ℕ → ℕ → Option Bool
  wait_loop timeout zero n elapsed = none
  wait_loop timeout (suc fuel) n elapsed =
      let later = wait_loop timeout fuel (suc n) (elapsed + cost n + 1000) in
      if ltb elapsed timeout then (if accepts n then some true else later) else some false

  -- A second passes in each round: the timeout bounds the rounds.
  unfoldable pub wait_for_transmission_rpc : ℕ → Option Bool
  unfolding wait_loop
  wait_for_transmission_rpc timeout = wait_loop (timeout * 1000) (suc timeout) 0 0

  -- When the n-th attempt begins.
  abbrev pub begins : ℕ → ℕ
  begins zero = 0
  begins (suc n) = begins n + cost n + 1000

  begins_mono : (k n m : ℕ) → n + k ≡ m → begins n ≤ begins m
  begins_mono zero n m e =
      let same_attempt : n ≡ m = omega (arith, e) in rw same_attempt (omega arith)
  begins_mono (suc k) n m e =
      let later : begins (suc n) ≤ begins m = begins_mono k (suc n) m (omega (arith, e)) in
      omega (arith, later)

  round-returns :
      (timeout fuel n elapsed : ℕ)
      → (elapsed < timeout
          → (answer : Bool) × (wait_loop timeout fuel (suc n) (elapsed + cost n + 1000)
              ≡ some answer))
      → (answer : Bool) × (wait_loop timeout (suc fuel) n elapsed ≡ some answer)
  unfolding wait_loop
  round-returns timeout fuel n elapsed later = elim (Bool-cases (ltb elapsed timeout)) [
    | inr over ↦ (false, rw over refl)
    | inl due ↦ elim (Bool-cases (accepts n)) [
      | inl open_port ↦ (true, rw (due, open_port) refl)
      | inr shut ↦
          (let (answer, e) = later (ltb→lt elapsed timeout due) in (answer, rw (due, shut) e))
    ]
  ]

  loop-returns :
      (timeout fuel n elapsed : ℕ)
      → timeout ≤ elapsed + fuel * 1000
      → (answer : Bool) × (wait_loop timeout (suc fuel) n elapsed ≡ some answer)
  loop-returns timeout zero n elapsed h =
      round-returns timeout zero n elapsed (λ due. absurd (omega (arith, h, due)))
  loop-returns timeout (suc fuel) n elapsed h =
      round-returns timeout (suc fuel) n elapsed
        (λ due. loop-returns timeout fuel (suc n) (elapsed + cost n + 1000) (omega (arith, h)))

  accepted-of-loop :
      (timeout fuel n : ℕ)
      → wait_loop timeout fuel n (begins n) ≡ some true
      → (m : ℕ) × (accepts m ≡ true) × (begins m < timeout)
  unfolding wait_loop
  accepted-of-loop timeout zero n h = cc
  accepted-of-loop timeout (suc fuel) n h = elim (Bool-cases (ltb (begins n) timeout)) [
    | inr over ↦ absurd (cc (rw over at h))
    | inl due ↦ elim (Bool-cases (accepts n)) [
      | inl open_port ↦ (n, open_port, ltb→lt (begins n) timeout due)
      | inr shut ↦ accepted-of-loop timeout fuel (suc n) (rw (due, shut) at h)
    ]
  ]

  round-of-accepted :
      (timeout fuel n : ℕ)
      → begins n < timeout
      → (accepts n ≡ true) ⊎ (wait_loop timeout fuel (suc n) (begins (suc n)) ≡ some true)
      → wait_loop timeout (suc fuel) n (begins n) ≡ some true
  unfolding wait_loop
  round-of-accepted timeout fuel n due (inl accepted) =
      rw (lt→ltb (begins n) timeout due, accepted) refl
  round-of-accepted timeout fuel n due (inr later) = elim (Bool-cases (accepts n)) [
    | inl accepted ↦ rw (lt→ltb (begins n) timeout due, accepted) refl
    | inr shut ↦ rw (lt→ltb (begins n) timeout due, shut) later
  ]

  -- An attempt that is still to come is reached.
  loop-of-accepted :
      (timeout fuel n k m : ℕ)
      → n + k ≡ m
      → timeout ≤ begins n + fuel * 1000
      → accepts m ≡ true
      → begins m < timeout
      → wait_loop timeout (suc fuel) n (begins n) ≡ some true
  loop-of-accepted timeout zero n k m e h accepted due =
      absurd (omega (arith, h, due, begins_mono k n m e))
  loop-of-accepted timeout (suc fuel) n zero m e h accepted due =
      let at : m ≡ n = omega (arith, e) in
      round-of-accepted timeout (suc fuel) n (rw at at due) (inl (rw at at accepted))
  loop-of-accepted timeout (suc fuel) n (suc k) m e h accepted due =
      round-of-accepted timeout (suc fuel) n (omega (arith, due, begins_mono (suc k) n m e)) (
        inr (
          loop-of-accepted timeout fuel (suc n) k m (omega (arith, e)) (omega (arith, h)) accepted
            due))

  -- However long the attempts take, the loop ends within its fuel; and it
  -- gives True exactly if the port accepts an attempt that begins within the timeout.
  pub wait_for_transmission_rpc-returns :
      (timeout : ℕ)
      → ((answer : Bool) × (wait_for_transmission_rpc timeout ≡ some answer))
        × ((wait_for_transmission_rpc timeout ≡ some true)
            ↔ ((m : ℕ) × (accepts m ≡ true) × (begins m < timeout * 1000)))
  unfolding wait_for_transmission_rpc
  wait_for_transmission_rpc-returns timeout = (
    loop-returns (timeout * 1000) timeout 0 0 (omega arith),
    (
      accepted-of-loop (timeout * 1000) (suc timeout) 0,
      λ (m, accepted, due).
          loop-of-accepted (timeout * 1000) timeout 0 m m (omega arith) (omega arith) accepted due,
    ),
  )
