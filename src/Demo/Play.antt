-- ===== src/Demo/Play.antt =====
-- The end of a frame, and the rounds of the game (demo_game/game.py).
use tpm_attest.Prelude.{
  ℕ, ◌+◌, ◌≡◌, Bool, true, false, not, ◌&&◌, if◌then◌else◌, leb, ltb, List, [], ◌∷◌, ◌++◌, keep_if,
}
use tpm_attest.Demo.Floats.{Floats}
use tpm_attest.Demo.Objects.{Bullet, Enemy, Explosion, new_explosion, Player, hit_player}
use tpm_attest.Demo.Frame.{
  is_near, Round, new_round, Input, steer, spawn, update_all, shoot_enemies,
}

-- `max(a, b)` of integers
unfoldable pub larger : ℕ → ℕ → ℕ
larger a b = if ltb a b then b else a

module _ (fl : Floats) where
  -- a shot that meets the player
  unfoldable pub is_shot : Bullet fl → Player fl → Bool
  unfolding is_near
  is_shot b p = b.alive && is_near fl b.x b.y p.x p.y 16

  -- `for b in e_bullets:`
  unfoldable pub take_shots :
      Player fl → List (Bullet fl) → Player fl × List (Bullet fl) × List (Explosion fl)
  unfolding is_shot hit_player new_explosion
  take_shots p [] = (p, [], [])
  take_shots p (b ∷ bullets) =
      let hit = is_shot b p in
      let p' = if hit then hit_player fl p else p in
      let (last, rest, bursts) = take_shots p' bullets in
      (
        last,
        (if hit then record b { alive = false } else b) ∷ rest,
        if hit && not p'.alive then new_explosion fl p'.x p'.y ∷ bursts else bursts,
      )

  -- an enemy that meets the player
  unfoldable pub is_rammed : Enemy fl → Player fl → Bool
  unfolding is_near
  is_rammed e p = e.alive && is_near fl e.x e.y p.x p.y (e.r + 14)

  -- `for e in enemies:`, the bodies
  unfoldable pub take_rams :
      Player fl → List (Enemy fl) → Player fl × List (Enemy fl) × List (Explosion fl)
  unfolding is_rammed hit_player new_explosion
  take_rams p [] = (p, [], [])
  take_rams p (e ∷ enemies) =
      let hit = is_rammed e p in
      let p' = if hit then hit_player fl p else p in
      let (last, rest, bursts) = take_rams p' enemies in
      (
        last,
        (if hit then record e { alive = false } else e) ∷ rest,
        if hit then new_explosion fl e.x e.y ∷ bursts else bursts,
      )

  -- the collisions with the player
  unfoldable pub withstand : Round fl → Round fl
  unfolding take_shots take_rams
  withstand s =
      let (shot, e_bullets, bursts) = take_shots s.player s.e_bullets in
      let (rammed, enemies, crashes) = take_rams shot s.enemies in
      record s {
        player = rammed;
        e_bullets = e_bullets;
        enemies = enemies;
        explosions = (s.explosions ++ bursts) ++ crashes;
      }

  -- `if player.alive:`
  unfoldable pub defend : Round fl → Round fl
  unfolding withstand
  defend s = if s.player.alive then withstand s else s

  -- the dead objects go
  unfoldable pub prune : Round fl → Round fl
  prune s = record s {
    bullets = keep_if (λ (b : Bullet fl). b.alive) s.bullets;
    e_bullets = keep_if (λ (b : Bullet fl). b.alive) s.e_bullets;
    enemies = keep_if (λ (e : Enemy fl). e.alive) s.enemies;
    explosions = keep_if (λ (x : Explosion fl). x.alive) s.explosions;
  }

  -- `if enemies_killed >= wave_target:`
  unfoldable pub advance : Round fl → Round fl
  advance s =
      if leb s.wave_target s.enemies_killed
      then record s { wave = s.wave + 1; enemies_killed = 0; wave_target = s.wave_target + 4 }
      else s

  -- the body of `while running:`
  unfoldable pub frame : Input fl → Round fl → Round fl
  unfolding steer spawn update_all shoot_enemies defend prune advance
  frame input s = advance (
      prune (
        defend (
          shoot_enemies fl
            (update_all fl input.reload (spawn fl input.draw (steer fl input.keys s))))))

  -- the variables of `main`
  pub record Game : Type 0 where
    pub highscore : ℕ
    pub round : Round fl

  abbrev pub new_game : Game
  new_game = record { highscore = 0; round = new_round fl }

  unfoldable pub next_frame : Input fl → Game → Game
  unfolding frame larger
  next_frame input g =
      let round = frame input g.round in
      record { highscore = larger g.highscore round.score; round = round }

  -- behind the screen "GAME OVER", with R
  unfoldable pub retry : Game → Game
  unfolding larger
  retry g = record { highscore = larger g.highscore g.round.score; round = new_round fl }

  -- the games that the two loops come to: frames while the player lives, a new round after it
  pub data Plays : Game → Type 0 where
    begins : Plays new_game
    plays :
        {g : Game} (input : Input fl)
        → Plays g
        → g.round.player.alive ≡ true
        → Plays (next_frame input g)
    retries : {g : Game} → Plays g → g.round.player.alive ≡ false → Plays (retry g)
