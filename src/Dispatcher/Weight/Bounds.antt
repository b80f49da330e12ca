-- ===== src/Dispatcher/Weight/Bounds.antt =====
-- The confidence weighting: its cap, and the table it weighs.
use satan_attrd.Prelude.{◌≡◌, ◌⊎◌, inl, inr, refl, false, All, arith}
use satan_attrd.Prelude.Int.{◌≤ℤ◌, ◌+ℤ◌, neg}
use satan_attrd.F64.{F64, lt, nought, abs}
use satan_attrd.Types.Attribute.{friction}
use satan_attrd.Types.Outcome.{OutcomeReason, worked, neutral, ignored, contradicted, harmful}
use satan_attrd.Tuning
use satan_attrd.Tuning.{confidence_magnitude_cap, outcome_base_deltas, tiny, small}
use satan_attrd.Dispatcher.Weight.{Confidence, low, medium, high, weight_delta}
use satan_attrd.Dispatcher.Tables.{base_deltas, base_of}

-- In the direction of the entry, no nearer to 0, and within the cap of 0.30.
abbrev pub IsRaised : F64 → F64 → Type 0
IsRaised b x =
    ((nought ≤ℤ b) × (b ≤ℤ x) × (x ≤ℤ confidence_magnitude_cap))
    ⊎ ((b ≤ℤ nought) × (x ≤ℤ b) × (neg confidence_magnitude_cap ≤ℤ x))

-- Of a table entry: low confidence halves it, medium keeps it, and high confidence raises it.
abbrev pub IsWeighed : F64 → Type 0
IsWeighed b =
    (weight_delta b low +ℤ weight_delta b low ≡ b)
    × (weight_delta b medium ≡ b)
    × IsRaised b (weight_delta b high)

still : IsWeighed nought
unfolding weight_delta ◌+ℤ◌ abs tiny small Tuning.medium Tuning.high neg confidence_magnitude_cap
still = (refl, refl, inl (omega arith, omega arith, omega arith))

tiny_up : IsWeighed tiny
unfolding weight_delta ◌+ℤ◌ abs tiny small Tuning.medium Tuning.high neg confidence_magnitude_cap
tiny_up = (refl, refl, inl (omega arith, omega arith, omega arith))

tiny_down : IsWeighed (neg tiny)
unfolding weight_delta ◌+ℤ◌ abs tiny small Tuning.medium Tuning.high neg confidence_magnitude_cap
tiny_down = (refl, refl, inr (omega arith, omega arith, omega arith))

small_up : IsWeighed small
unfolding weight_delta ◌+ℤ◌ abs tiny small Tuning.medium Tuning.high neg confidence_magnitude_cap
small_up = (refl, refl, inl (omega arith, omega arith, omega arith))

small_down : IsWeighed (neg small)
unfolding weight_delta ◌+ℤ◌ abs tiny small Tuning.medium Tuning.high neg confidence_magnitude_cap
small_down = (refl, refl, inr (omega arith, omega arith, omega arith))

medium_up : IsWeighed Tuning.medium
unfolding weight_delta ◌+ℤ◌ abs tiny small Tuning.medium Tuning.high neg confidence_magnitude_cap
medium_up = (refl, refl, inl (omega arith, omega arith, omega arith))

medium_down : IsWeighed (neg Tuning.medium)
unfolding weight_delta ◌+ℤ◌ abs tiny small Tuning.medium Tuning.high neg confidence_magnitude_cap
medium_down = (refl, refl, inr (omega arith, omega arith, omega arith))

high_up : IsWeighed Tuning.high
unfolding weight_delta ◌+ℤ◌ abs tiny small Tuning.medium Tuning.high neg confidence_magnitude_cap
high_up = (refl, refl, inl (omega arith, omega arith, omega arith))

high_down : IsWeighed (neg Tuning.high)
unfolding weight_delta ◌+ℤ◌ abs tiny small Tuning.medium Tuning.high neg confidence_magnitude_cap
high_down = (refl, refl, inr (omega arith, omega arith, omega arith))

-- For each entry of the outcome table: low confidence halves it, medium keeps it, and high
-- confidence gives a value in the direction of the entry, no nearer to 0 and at most 0.30 in size.
pub table_weights : (r : OutcomeReason) → All IsWeighed (base_deltas r)
unfolding outcome_base_deltas
table_weights worked =
    (still, (still, (tiny_down, (small_down, (small_down, (still, (small_up, (still, tt))))))))
table_weights neutral = (still, (still, (still, (still, (still, (still, (still, (still, tt))))))))
table_weights ignored =
    (still, (small_down, (small_up, (small_up, (still, (still, (small_up, (still, tt))))))))
table_weights contradicted =
    (still, (medium_down, (medium_up, (medium_up, (still, (small_down, (still, (small_up, tt))))))))
table_weights harmful =
    (still, (high_down, (high_up, (high_up, (still, (still, (still, (medium_up, tt))))))))

-- No outcome asks for more friction, at any confidence.
pub friction_falls :
    (r : OutcomeReason) (c : Confidence)
    → lt nought (weight_delta (base_of (base_deltas r) friction) c) ≡ false
unfolding weight_delta outcome_base_deltas base_of
friction_falls worked low = refl
friction_falls worked medium = refl
friction_falls worked high = refl
friction_falls neutral low = refl
friction_falls neutral medium = refl
friction_falls neutral high = refl
friction_falls ignored low = refl
friction_falls ignored medium = refl
friction_falls ignored high = refl
friction_falls contradicted low = refl
friction_falls contradicted medium = refl
friction_falls contradicted high = refl
friction_falls harmful low = refl
friction_falls harmful medium = refl
friction_falls harmful high = refl
