-- ===== src/Demo/Sound.antt =====
-- What holds in every frame of every game (demo_game/game.py).
use tpm_attest.Prelude.{
  ℕ, ◌+◌, ◌≤◌, ◌<◌, ◌≡◌, refl, ◌&&◌, leb, ltb, if_both, not-ltb→le, ltb→lt, arith, length, All,
}
use tpm_attest.Demo.Floats.{Floats, IsOrdered}
use tpm_attest.Demo.Objects.{Keys, Draw, decrement, is_spent}
use tpm_attest.Demo.Frame.{Round, new_round, Input, steer, spawn, update_all, shoot_enemies}
use tpm_attest.Demo.Play.{
  larger, withstand, defend, prune, advance, frame, Game, next_frame, retry, Plays, begins, plays,
  retries,
}
use tpm_attest.Demo.Crowd.{IsCounted, frame-IsCounted}
use tpm_attest.Demo.Fitness.{IsFit, frame-IsFit, new_player-IsFit}
use tpm_attest.Demo.Armed.{IsManned, frame-IsManned}

module _ (fl : Floats) where
  -- the invariant of a round, between two frames
  pub record IsSound (s : Round fl) : Type 0 where
    pub counted : IsCounted fl s
    pub unfinished : s.enemies_killed < s.wave_target
    pub fit : IsFit fl s.player
    pub manned : All (IsManned fl) s.enemies

  module _ (laws : IsOrdered fl) where
    new_round-IsSound : IsSound (new_round fl)
    new_round-IsSound = record {
      counted = record { crowd = omega arith; target = omega arith };
      unfinished = omega arith;
      fit = new_player-IsFit fl laws;
      manned = _;
    }

    -- One frame, alone: also a frame in which the player dies.
    pub frame-IsSound : (input : Input fl) (s : Round fl) → IsSound s → IsSound (frame fl input s)
    frame-IsSound input s h =
        let (counted, unfinished) = frame-IsCounted fl input s h.counted in
        record {
          counted = counted;
          unfinished = unfinished;
          fit = frame-IsFit fl laws input s h.fit;
          manned = frame-IsManned fl input s h.manned;
        }

    -- If the order of the floats obeys its laws: in every frame of every game, whatever the keys
    -- and the random numbers are, there are at most 6 enemies and one for each wave, each of them
    -- lives and has 1 to 3 points, the wave asks for 4 kills and 4 for each wave and has not got
    -- them all, and the player has 0 to 3 points, lives exactly while one is left, and is on the
    -- screen.
    pub Plays-IsSound : {g : Game fl} → Plays fl g → IsSound g.round
    unfolding next_frame retry
    Plays-IsSound begins = new_round-IsSound
    Plays-IsSound (plays {g} input p alive) = frame-IsSound input g.round (Plays-IsSound p)
    Plays-IsSound (retries p dead) = new_round-IsSound

  spawn-score : (draw : Draw fl) (s : Round fl) → (spawn fl draw s).score ≡ s.score
  unfolding spawn
  spawn-score draw s =
      if_both (λ (r : Round fl). r.score ≡ s.score)
        (is_spent (decrement s.spawn_cd) && ltb (length s.enemies) (6 + s.wave)) (λ room. refl)
        (λ full. refl)

  defend-score : (s : Round fl) → (defend fl s).score ≡ s.score
  unfolding defend withstand
  defend-score s =
      if_both (λ (r : Round fl). r.score ≡ s.score) s.player.alive (λ alive. refl) (λ dead. refl)

  advance-score : (s : Round fl) → (advance fl (prune fl s)).score ≡ s.score
  unfolding advance prune
  advance-score s =
      if_both (λ (r : Round fl). r.score ≡ s.score) (leb s.wave_target s.enemies_killed)
        (λ done. refl) (λ more. refl)

  shoot_enemies-score :
      (reload : ℕ → ℕ) (s : Round fl) → s.score ≤ (shoot_enemies fl (update_all fl reload s)).score
  unfolding shoot_enemies update_all
  shoot_enemies-score reload s = omega arith

  steer-score : (keys : Keys) (s : Round fl) → (steer fl keys s).score ≡ s.score
  unfolding steer
  steer-score keys s = refl

  frame-score : (input : Input fl) (s : Round fl) → s.score ≤ (frame fl input s).score
  unfolding frame
  frame-score input s =
      let steered = steer fl input.keys s in
      let spawned = spawn fl input.draw steered in
      let fought = shoot_enemies fl (update_all fl input.reload spawned) in
      omega (
        arith,
        steer-score input.keys s,
        spawn-score input.draw steered,
        shoot_enemies-score input.reload spawned,
        defend-score fought,
        advance-score (defend fl fought),
      )

  larger-le : (a b : ℕ) → (a ≤ larger a b) × (b ≤ larger a b)
  unfolding larger
  larger-le a b =
      if_both (λ (c : ℕ). (a ≤ c) × (b ≤ c)) (ltb a b)
        (λ less. let lt = ltb→lt a b less in (omega (arith, lt), omega arith))
        (λ more. (omega arith, not-ltb→le a b more))

  -- A frame never lowers the score or the high score, and ends with a high score that is no less than
  -- the score; a new round keeps the high score.
  pub next_frame-raises :
      (input : Input fl) (g : Game fl)
      → (g.round.score ≤ (next_frame fl input g).round.score)
        × (g.highscore ≤ (next_frame fl input g).highscore)
        × ((next_frame fl input g).round.score ≤ (next_frame fl input g).highscore)
        × (g.highscore ≤ (retry fl g).highscore)
  unfolding next_frame retry
  next_frame-raises input g =
      let (kept, raised) = larger-le g.highscore (frame fl input g.round).score in
      (frame-score input g.round, kept, raised, (larger-le g.highscore g.round.score).0)
