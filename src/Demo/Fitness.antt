-- ===== src/Demo/Fitness.antt =====
-- The player of the game: hit points, cool-downs and position (demo_game/game.py).
use tpm_attest.Prelude.{
  leb, length, subst, ℕ, zero, suc, ◌+◌, ◌≤◌, ◌<◌, ◌≡◌, refl, sym, ◌∙◌, true, false, ◌&&◌,
  if◌then◌else◌, ltb, ◌==◌, if_both, List, [], ◌∷◌, arith, not-ltb→le, lt→ltb,
}
use tpm_attest.Python.Int.{pos}
use tpm_attest.Demo.Floats.{Floats, IsOrdered}
use tpm_attest.Demo.Limits.{IsBetween, move-IsBetween}
use tpm_attest.Demo.Objects.{
  Keys, Bullet, Enemy, Draw, Player, new_player, decrement, is_spent, count_down, update_player,
  try_shoot, hit_player,
}
use tpm_attest.Demo.Frame.{Round, Input, fly, steer, spawn, update_all, shoot_enemies}
use tpm_attest.Demo.Play.{
  is_shot, is_rammed, take_shots, take_rams, withstand, defend, prune, advance, frame,
}

module _ (fl : Floats) where
  -- The player has 0 to 3 points and lives while there is one left; within a frame, a player that has
  -- just died is spared. The ship is on the screen.
  pub record IsFit (p : Player fl) : Type 0 where
    pub points : ℕ
    pub hp : p.hp ≡ pos points
    pub at_most : points ≤ 3
    pub lives : p.alive ≡ ltb 0 points
    pub shoot_cd : p.shoot_cd ≤ 10
    pub invincible : p.invincible ≤ 90
    pub x : IsBetween fl 20 1004 p.x
    pub y : IsBetween fl 60 748 p.y

  abbrev IsSpared : Player fl → Type 0
  IsSpared p = IsFit p × (p.alive ≡ false → 0 < p.invincible)

  -- a player with a point left is hit
  harmed-IsSpared :
      (p : Player fl) (n : ℕ)
      → p.hp ≡ pos (suc n)
      → n ≤ 2
      → p.alive ≡ true
      → IsFit p
      → IsSpared (record p {
        hp = decrement p.hp;
        invincible = 90;
        alive = if is_spent (decrement p.hp) then false else p.alive;
      })
  unfolding decrement is_spent
  harmed-IsSpared p zero h le a f = rw h (
    record {
      points = 0;
      hp = refl;
      at_most = omega arith;
      lives = refl;
      shoot_cd = f.shoot_cd;
      invincible = omega arith;
      x = f.x;
      y = f.y;
    },
    λ dead. omega arith,
  )
  harmed-IsSpared p (suc n) h le a f = rw h (
    record {
      points = suc n;
      hp = refl;
      at_most = omega (arith, le);
      lives = a ∙ sym (lt→ltb 0 (suc n) (omega arith));
      shoot_cd = f.shoot_cd;
      invincible = omega arith;
      x = f.x;
      y = f.y;
    },
    λ dead. omega arith,
  )

  struck-IsSpared :
      (p : Player fl) (n : ℕ)
      → p.hp ≡ pos n
      → n ≤ 3
      → p.alive ≡ ltb 0 n
      → IsFit p
      → (p.alive ≡ false → 0 < p.invincible)
      → ltb 0 p.invincible ≡ false
      → IsSpared (record p {
        hp = decrement p.hp;
        invincible = 90;
        alive = if is_spent (decrement p.hp) then false else p.alive;
      })
  struck-IsSpared p zero h le a f s bare =
      let spared = s a in
      let none_left = not-ltb→le 0 p.invincible bare in absurd (omega (arith, spared, none_left))
  struck-IsSpared p (suc n) h le a f s bare =
      harmed-IsSpared p n h (omega (arith, le)) (a ∙ lt→ltb 0 (suc n) (omega arith)) f

  hit_player-IsSpared : (p : Player fl) → IsSpared p → IsSpared (hit_player fl p)
  unfolding hit_player
  hit_player-IsSpared p (f, s) =
      if_both IsSpared (ltb 0 p.invincible) (λ safe. (f, s))
        (λ bare. struck-IsSpared p f.points f.hp f.at_most f.lives f s bare)

  take_shots-IsSpared :
      (p : Player fl) (bs : List (Bullet fl)) → IsSpared p → IsSpared (take_shots fl p bs).0
  unfolding take_shots
  take_shots-IsSpared p [] s = s
  take_shots-IsSpared p (b ∷ bs) s =
      take_shots-IsSpared (if is_shot fl b p then hit_player fl p else p) bs
        (if_both IsSpared (is_shot fl b p) (λ hit. hit_player-IsSpared p s) (λ missed. s))

  take_rams-IsSpared :
      (p : Player fl) (es : List (Enemy fl)) → IsSpared p → IsSpared (take_rams fl p es).0
  unfolding take_rams
  take_rams-IsSpared p [] s = s
  take_rams-IsSpared p (e ∷ es) s =
      take_rams-IsSpared (if is_rammed fl e p then hit_player fl p else p) es
        (if_both IsSpared (is_rammed fl e p) (λ hit. hit_player-IsSpared p s) (λ missed. s))

  defend-IsFit : (s : Round fl) → IsFit s.player → IsFit (defend fl s).player
  unfolding defend withstand
  defend-IsFit s f =
      if_both (λ (r : Round fl). IsFit r.player) s.player.alive
        (λ alive.
          (take_rams-IsSpared _ s.enemies
            (take_shots-IsSpared s.player s.e_bullets (f, λ dead. absurd (cc)))).0)
        (λ dead. f)

  count_down-le : (n : ℕ) → count_down n ≤ n
  unfolding count_down
  count_down-le zero = omega arith
  count_down-le (suc n) = omega arith

  -- the limits of the screen, whatever the floats are
  module _ (laws : IsOrdered fl) where
    update_player-IsFit : (keys : Keys) (p : Player fl) → IsFit p → IsFit (update_player fl keys p)
    unfolding update_player
    update_player-IsFit keys p f = record {
      points = f.points;
      hp = f.hp;
      at_most = f.at_most;
      lives = f.lives;
      shoot_cd = omega (arith, f.shoot_cd, count_down-le p.shoot_cd);
      invincible = omega (arith, f.invincible, count_down-le p.invincible);
      x = move-IsBetween fl laws keys.left keys.right 20 1004 p.x (omega arith) (omega arith);
      y = move-IsBetween fl laws keys.up keys.down 60 748 p.y (omega arith) (omega arith);
    }

    fly-IsFit : (keys : Keys) (p : Player fl) → IsFit p → IsFit (fly fl keys p).1
    unfolding fly try_shoot
    fly-IsFit keys p f =
        let moved = update_player fl keys p in
        let fit = update_player-IsFit keys p f in
        if_both (λ (r : List (Bullet fl) × Player fl). IsFit r.1) keys.fire
          (λ shoots.
            if_both (λ (r : List (Bullet fl) × Player fl). IsFit r.1) (moved.shoot_cd == 0)
              (λ ready. record {
                points = fit.points;
                hp = fit.hp;
                at_most = fit.at_most;
                lives = fit.lives;
                shoot_cd = omega arith;
                invincible = fit.invincible;
                x = fit.x;
                y = fit.y;
              })
              (λ loading. fit))
          (λ quiet. fit)

    steer-IsFit : (keys : Keys) (s : Round fl) → IsFit s.player → IsFit (steer fl keys s).player
    unfolding steer
    steer-IsFit keys s f =
        if_both (λ (r : List (Bullet fl) × Player fl). IsFit r.1) s.player.alive
          (λ alive. fly-IsFit keys s.player f) (λ dead. f)

    advance-player : (s : Round fl) → (advance fl s).player ≡ s.player
    unfolding advance
    advance-player s =
        if_both (λ (r : Round fl). r.player ≡ s.player) (leb s.wave_target s.enemies_killed)
          (λ done. refl) (λ more. refl)

    spawn-player : (draw : Draw fl) (s : Round fl) → (spawn fl draw s).player ≡ s.player
    unfolding spawn
    spawn-player draw s =
        if_both (λ (r : Round fl). r.player ≡ s.player)
          (is_spent (decrement s.spawn_cd) && ltb (length s.enemies) (6 + s.wave)) (λ spawned. refl)
          (λ full. refl)

    others-player :
        (reload : ℕ → ℕ) (s : Round fl)
        → (shoot_enemies fl (update_all fl reload s)).player ≡ s.player
    unfolding shoot_enemies update_all
    others-player reload s = refl

    pruned-player : (s : Round fl) → (prune fl s).player ≡ s.player
    unfolding prune
    pruned-player s = refl

    -- a frame keeps the player fit
    pub frame-IsFit :
        (input : Input fl) (s : Round fl) → IsFit s.player → IsFit (frame fl input s).player
    unfolding frame
    frame-IsFit input s f =
        let steered = steer fl input.keys s in
        let spawned = spawn fl input.draw steered in
        let fought = shoot_enemies fl (update_all fl input.reload spawned) in
        let before = others-player input.reload spawned ∙ spawn-player input.draw steered in
        let after =
          advance-player (prune fl (defend fl fought)) ∙ pruned-player (defend fl fought) in
        subst IsFit (sym after)
          (defend-IsFit fought (subst IsFit (sym before) (steer-IsFit input.keys s f)))

    pub new_player-IsFit : IsFit (new_player fl)
    new_player-IsFit = record {
      points = 3;
      hp = refl;
      at_most = omega arith;
      lives = refl;
      shoot_cd = omega arith;
      invincible = omega arith;
      x = (
        laws.lt-of_int 512 20 (omega arith) (omega arith),
        laws.lt-of_int 1004 512 (omega arith) (omega arith),
      );
      y = (
        laws.lt-of_int 668 60 (omega arith) (omega arith),
        laws.lt-of_int 748 668 (omega arith) (omega arith),
      );
    }
