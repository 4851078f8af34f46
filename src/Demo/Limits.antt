-- ===== src/Demo/Limits.antt =====
-- The limits of the screen, whatever the floats are (demo_game/game.py).
use tpm_attest.Prelude.{
  ℕ, ◌^◌, ◌≤◌, ◌<◌, ◌≡◌, ◌∙◌, Bool, false, if◌then◌else◌, if_both, arith, le→not-ltb,
}
use tpm_attest.Python.Int.{pos}
use tpm_attest.Demo.Floats.{Floats, IsOrdered, min_of, max_of}
use tpm_attest.Demo.Objects.{move}

module _ (fl : Floats) where
  abbrev int : ℕ → fl.Float
  int n = fl.of_int (pos n)

  -- neither below the one nor above the other
  abbrev pub IsBetween : ℕ → ℕ → fl.Float → Type 0
  IsBetween low high a = (fl.lt a (int low) ≡ false) × (fl.lt (int high) a ≡ false)

  module _ (laws : IsOrdered fl) where
    max_of-IsAbove : (low : ℕ) (a : fl.Float) → fl.lt (max_of fl (int low) a) (int low) ≡ false
    unfolding max_of
    max_of-IsAbove low a =
        if_both (λ (c : fl.Float). fl.lt c (int low) ≡ false) (fl.lt (int low) a)
          (λ above. laws.lt_asymm (int low) a above) (λ below. laws.lt_irrefl (int low))

    min_of-IsBelow : (high : ℕ) (a : fl.Float) → fl.lt (int high) (min_of fl (int high) a) ≡ false
    unfolding min_of
    min_of-IsBelow high a =
        if_both (λ (c : fl.Float). fl.lt (int high) c ≡ false) (fl.lt a (int high))
          (λ below. laws.lt_asymm a (int high) below) (λ above. laws.lt_irrefl (int high))

    clamp-IsBetween :
        (low high : ℕ) (a : fl.Float)
        → high < 2 ^ 53
        → low ≤ high
        → IsBetween low high (max_of fl (int low) (min_of fl (int high) a))
    unfolding max_of
    clamp-IsBetween low high a big le = (
      max_of-IsAbove low (min_of fl (int high) a),
      if_both (λ (c : fl.Float). fl.lt (int high) c ≡ false)
          (fl.lt (int low) (min_of fl (int high) a)) (λ above. min_of-IsBelow high a)
          (λ below. laws.lt-of_int high low big (omega (arith, big, le)) ∙ le→not-ltb high low le),
    )

    pub move-IsBetween :
        (less more : Bool) (low high : ℕ) (a : fl.Float)
        → high < 2 ^ 53
        → low ≤ high
        → IsBetween low high (move fl less more low high a)
    unfolding move
    move-IsBetween less more low high a big le =
        let speed = fl.literal 55 1 in
        let back = if less then fl.sub a speed else a in
        clamp-IsBetween low high (if more then fl.add back speed else back) big le
