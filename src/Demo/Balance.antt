-- ===== src/Demo/Balance.antt =====
-- What the player's bullets score (demo_game/game.py).
use tpm_attest.Prelude.{
  ℕ, ◌+◌, ◌≡◌, inl, inr, Bool, true, if◌then◌else◌, Bool-cases, if_both, &&-eq-true, List, [], ◌∷◌,
  arith,
}
use tpm_attest.Demo.Floats.{Floats}
use tpm_attest.Demo.Objects.{decrement, is_spent, Bullet, Enemy, hit_enemy}
use tpm_attest.Demo.Frame.{Round, Gains, both, gain_of, hits, strike, strikes, shoot_enemies}

module _ (fl : Floats) where
  -- the enemies that live, and their scores
  unfoldable pub live_count : List (Enemy fl) → ℕ
  live_count [] = 0
  live_count (e ∷ es) = (if e.alive then 1 else 0) + live_count es

  unfoldable pub live_score : List (Enemy fl) → ℕ
  live_score [] = 0
  live_score (e ∷ es) = (if e.alive then e.score else 0) + live_score es

  -- what the enemies lose is what the gains add
  abbrev IsBalanced : List (Enemy fl) → List (Enemy fl) → Gains fl → Type 0
  IsBalanced before after gains =
      (live_score before ≡ gains.score + live_score after)
      × (live_count before ≡ gains.killed + live_count after)

  abbrev IsEven : Enemy fl → Bool × Enemy fl → Type 0
  IsEven e turn =
      (e.score ≡ (gain_of fl turn).score + (if turn.1.alive then turn.1.score else 0))
      × (1 ≡ (gain_of fl turn).killed + (if turn.1.alive then 1 else 0))

  hit_enemy-IsEven : (e : Enemy fl) → e.alive ≡ true → IsEven e (hit_enemy fl e)
  unfolding hit_enemy gain_of
  hit_enemy-IsEven e a =
      if_both (IsEven e) (is_spent (decrement e.hp)) (λ spent. (omega arith, omega arith))
        (λ left. (rw a (omega arith), rw a (omega arith)))

  pub hits-alive : (b : Bullet fl) (e : Enemy fl) → hits fl b e ≡ true → e.alive ≡ true
  unfolding hits
  hits-alive b e h = (&&-eq-true e.alive _ h).0

  struck-IsBalanced :
      (e : Enemy fl) (turn : Bool × Enemy fl) (es after : List (Enemy fl)) (gains : Gains fl)
      → e.alive ≡ true
      → IsEven e turn
      → IsBalanced es after gains
      → IsBalanced (e ∷ es) (turn.1 ∷ after) (both fl (gain_of fl turn) gains)
  unfolding both live_count live_score
  struck-IsBalanced e turn es after gains a even rest =
      (rw a (omega (arith, even.0, rest.0)), rw a (omega (arith, even.1, rest.1)))

  missed-IsBalanced :
      (e : Enemy fl) (es after : List (Enemy fl)) (gains : Gains fl)
      → IsBalanced es after gains
      → IsBalanced (e ∷ es) (e ∷ after) gains
  unfolding live_count live_score
  missed-IsBalanced e es after gains rest = (omega (arith, rest.0), omega (arith, rest.1))

  strike-IsBalanced :
      (b : Bullet fl) (es : List (Enemy fl)) → IsBalanced es (strike fl b es).1 (strike fl b es).2
  unfolding strike
  strike-IsBalanced b [] = (omega arith, omega arith)
  strike-IsBalanced b (e ∷ es) =
      let rest = strike-IsBalanced b es in
      if_both (λ (r : Bool × List (Enemy fl) × Gains fl). IsBalanced (e ∷ es) r.1 r.2) (hits fl b e)
        (λ hit.
          struck-IsBalanced e (hit_enemy fl e) es _ (strike fl b es).2 (hits-alive b e hit)
            (hit_enemy-IsEven e (hits-alive b e hit)) rest)
        (λ missed. missed-IsBalanced e es _ (strike fl b es).2 rest)

  strikes-IsBalanced :
      (bs : List (Bullet fl)) (es : List (Enemy fl))
      → IsBalanced es (strikes fl bs es).1 (strikes fl bs es).2
  unfolding strikes both
  strikes-IsBalanced [] es = (omega arith, omega arith)
  strikes-IsBalanced (b ∷ bs) es = elim (Bool-cases b.alive) [
    | inl alive ↦
        let one = strike-IsBalanced b es in
        let rest = strikes-IsBalanced bs (strike fl b es).1 in
        rw alive (omega (arith, one.0, rest.0), omega (arith, one.1, rest.1))
    | inr dead ↦ rw dead (strikes-IsBalanced bs es)
  ]

  -- The player's bullets lose nothing and count nothing twice, however many of them meet in one enemy
  -- and however many enemies one of them meets: the score rises by the scores of the enemies that die
  -- of them, and the kills by their number.
  pub shoot_enemies-balance :
      (s : Round fl)
      → ((shoot_enemies fl s).score + live_score (shoot_enemies fl s).enemies
          ≡ s.score + live_score s.enemies)
        × ((shoot_enemies fl s).enemies_killed + live_count (shoot_enemies fl s).enemies
            ≡ s.enemies_killed + live_count s.enemies)
  unfolding shoot_enemies
  shoot_enemies-balance s =
      let b = strikes-IsBalanced s.bullets s.enemies in (omega (arith, b.0), omega (arith, b.1))
