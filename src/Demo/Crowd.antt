-- ===== src/Demo/Crowd.antt =====
-- The number of enemies and the count of the wave (demo_game/game.py).
use tpm_attest.Prelude.{
  ℕ, suc, ◌+◌, ◌*◌, ◌≤◌, ◌<◌, ◌≡◌, refl, inl, inr, Bool, false, ◌&&◌, if◌then◌else◌, leb, ltb,
  ltb→lt, &&-eq-true, Bool-cases, if_both, List, [], ◌∷◌, arith, length, length-append, keep_if,
}
use tpm_attest.Demo.Floats.{Floats}
use tpm_attest.Demo.Objects.{
  Keys, Bullet, Enemy, Draw, new_enemy, Player, hit_player, decrement, is_spent,
}
use tpm_attest.Demo.Frame.{
  Round, Input, steer, spawn, update_enemies, update_all, hits, strike, strikes, shoot_enemies,
}
use tpm_attest.Demo.Play.{
  is_rammed, take_shots, take_rams, withstand, defend, prune, advance, frame,
}

not-leb→lt : (a b : ℕ) → leb a b ≡ false → b < a
not-leb→lt a b h = ground arith

module _ (fl : Floats) where
  -- the enemies of the wave are at most so many, and the target of the wave is known
  pub record IsCounted (s : Round fl) : Type 0 where
    pub crowd : length s.enemies ≤ 6 + s.wave
    pub target : s.wave_target ≡ 4 + 4 * s.wave

  length-keep_if {ℓ} : {A : Type ℓ} (p : A → Bool) (xs : List A) → length (keep_if p xs) ≤ length xs
  length-keep_if p [] = omega arith
  length-keep_if p (x ∷ xs) = elim (Bool-cases (p x)) [
    | inl h ↦ rw h (omega (arith, length-keep_if p xs))
    | inr h ↦ rw h (omega (arith, length-keep_if p xs))
  ]

  length-update_enemies :
      (reload : ℕ → ℕ) (n : ℕ) (es : List (Enemy fl))
      → length (update_enemies fl reload n es).0 ≡ length es
  unfolding update_enemies
  length-update_enemies reload n [] = refl
  length-update_enemies reload n (e ∷ es) = omega (arith, length-update_enemies reload (suc n) es)

  length-strike : (b : Bullet fl) (es : List (Enemy fl)) → length (strike fl b es).1 ≡ length es
  unfolding strike
  length-strike b [] = refl
  length-strike b (e ∷ es) = elim (Bool-cases (hits fl b e)) [
    | inl h ↦ rw h (omega (arith, length-strike b es))
    | inr h ↦ rw h (omega (arith, length-strike b es))
  ]

  length-strikes :
      (bs : List (Bullet fl)) (es : List (Enemy fl)) → length (strikes fl bs es).1 ≡ length es
  unfolding strikes
  length-strikes [] es = refl
  length-strikes (b ∷ bs) es = elim (Bool-cases b.alive) [
    | inl h ↦ rw h (omega (arith, length-strikes bs (strike fl b es).1, length-strike b es))
    | inr h ↦ rw h (length-strikes bs es)
  ]

  length-take_rams :
      (p : Player fl) (es : List (Enemy fl)) → length (take_rams fl p es).1 ≡ length es
  unfolding take_rams
  length-take_rams p [] = refl
  length-take_rams p (e ∷ es) =
      let p' = if is_rammed fl e p then hit_player fl p else p in
      omega (arith, length-take_rams p' es)

  steer-IsCounted : (keys : Keys) (s : Round fl) → IsCounted s → IsCounted (steer fl keys s)
  unfolding steer
  steer-IsCounted keys s c = record { crowd = c.crowd; target = c.target }

  spawn-IsCounted : (draw : Draw fl) (s : Round fl) → IsCounted s → IsCounted (spawn fl draw s)
  unfolding spawn
  spawn-IsCounted draw s c =
      elim (Bool-cases (is_spent (decrement s.spawn_cd) && ltb (length s.enemies) (6 + s.wave))) [
        | inl h ↦
            let room =
              ltb→lt (length s.enemies) (6 + s.wave)
                (&&-eq-true (is_spent (decrement s.spawn_cd)) _ h).1 in
            rw h (record {
              crowd = omega (arith, room, length-append s.enemies (new_enemy fl draw s.wave ∷ []));
              target = c.target;
            })
        | inr h ↦ rw h (record { crowd = c.crowd; target = c.target })
      ]

  update_all-IsCounted :
      (reload : ℕ → ℕ) (s : Round fl) → IsCounted s → IsCounted (update_all fl reload s)
  unfolding update_all
  update_all-IsCounted reload s c = record {
    crowd = omega (arith, c.crowd, length-update_enemies reload 0 s.enemies);
    target = c.target;
  }

  shoot_enemies-IsCounted : (s : Round fl) → IsCounted s → IsCounted (shoot_enemies fl s)
  unfolding shoot_enemies
  shoot_enemies-IsCounted s c = record {
    crowd = omega (arith, c.crowd, length-strikes s.bullets s.enemies);
    target = c.target;
  }

  withstand-IsCounted : (s : Round fl) → IsCounted s → IsCounted (withstand fl s)
  unfolding withstand
  withstand-IsCounted s c = record {
    crowd =
        omega (arith, c.crowd, length-take_rams (take_shots fl s.player s.e_bullets).0 s.enemies);
    target = c.target;
  }

  defend-IsCounted : (s : Round fl) → IsCounted s → IsCounted (defend fl s)
  unfolding defend
  defend-IsCounted s c =
      if_both IsCounted s.player.alive (λ alive. withstand-IsCounted s c) (λ dead. c)

  prune-IsCounted : (s : Round fl) → IsCounted s → IsCounted (prune fl s)
  unfolding prune
  prune-IsCounted s c = record {
    crowd = omega (arith, c.crowd, length-keep_if (λ (e : Enemy fl). e.alive) s.enemies);
    target = c.target;
  }

  -- behind the test for the end of the wave
  advance-IsCounted :
      (s : Round fl)
      → IsCounted s
      → IsCounted (advance fl s) × ((advance fl s).enemies_killed < (advance fl s).wave_target)
  unfolding advance
  advance-IsCounted s c = elim (Bool-cases (leb s.wave_target s.enemies_killed)) [
    | inl h ↦ rw h (
      record { crowd = omega (arith, c.crowd); target = omega (arith, c.target) },
      omega (arith, c.target),
    )
    | inr h ↦ rw h (c, not-leb→lt s.wave_target s.enemies_killed h)
  ]

  -- A frame keeps the count, and ends with fewer kills than the wave asks for.
  pub frame-IsCounted :
      (input : Input fl) (s : Round fl)
      → IsCounted s
      → IsCounted (frame fl input s)
        × ((frame fl input s).enemies_killed < (frame fl input s).wave_target)
  unfolding frame
  frame-IsCounted input s c = advance-IsCounted _ (
      prune-IsCounted _ (
        defend-IsCounted _ (
          shoot_enemies-IsCounted _ (
            update_all-IsCounted input.reload _
              (spawn-IsCounted input.draw _ (steer-IsCounted input.keys s c))))))
