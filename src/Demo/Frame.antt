-- ===== src/Demo/Frame.antt =====
-- A frame of the game loop, in the order of its statements (demo_game/game.py).
use tpm_attest.Prelude.{
  ℕ, suc, ◌+◌, ◌-◌, ◌*◌, Bool, true, false, ◌&&◌, if◌then◌else◌, ltb, List, [], ◌∷◌, ◌++◌, length,
  map,
}
use tpm_attest.Python.Int.{ℤ, pos}
use tpm_attest.Demo.Floats.{Floats}
use tpm_attest.Demo.Objects.{
  decrement, is_spent, Keys, Bullet, new_bullet, update_bullet, Enemy, Draw, new_enemy,
  update_enemy, can_shoot, hit_enemy, Explosion, new_explosion, update_explosion, Player,
  new_player, update_player, try_shoot,
}

module _ (fl : Floats) where
  abbrev int : ℕ → fl.Float
  int n = fl.of_int (pos n)

  -- `abs(a-c)<r and abs(b-d)<r`
  unfoldable pub is_near : fl.Float → fl.Float → fl.Float → fl.Float → ℕ → Bool
  is_near a b c d r =
      fl.lt (fl.absolute (fl.sub a c)) (int r) && fl.lt (fl.absolute (fl.sub b d)) (int r)

  -- the local variables of the round that is played
  pub record Round : Type 0 where
    pub score : ℕ
    pub wave : ℕ
    pub player : Player fl
    pub bullets : List (Bullet fl)
    pub e_bullets : List (Bullet fl)
    pub enemies : List (Enemy fl)
    pub explosions : List (Explosion fl)
    pub spawn_cd : ℤ
    pub enemies_killed : ℕ
    pub wave_target : ℕ

  abbrev pub new_round : Round
  new_round = record {
    score = 0;
    wave = 1;
    player = new_player fl;
    bullets = [];
    e_bullets = [];
    enemies = [];
    explosions = [];
    spawn_cd = pos 80;
    enemies_killed = 0;
    wave_target = 8;
  }

  -- the keys of a frame, and its random numbers: a new enemy, and the reload of each enemy in its turn
  pub record Input : Type 0 where
    pub keys : Keys
    pub draw : Draw fl
    pub reload : ℕ → ℕ

  -- the player moves, and then shoots
  unfoldable pub fly : Keys → Player fl → List (Bullet fl) × Player fl
  unfolding update_player try_shoot
  fly keys p =
      let moved = update_player fl keys p in if keys.fire then try_shoot fl moved else ([], moved)

  -- `if player.alive:`, and `bullets += …`
  unfoldable pub steer : Keys → Round → Round
  unfolding fly
  steer keys s =
      let (shots, player) = if s.player.alive then fly keys s.player else ([], s.player) in
      record s { player = player; bullets = s.bullets ++ shots }

  -- `max(20, 80 - wave*8)`: on ℕ the difference stops at 0, where the maximum is 20 as well
  unfoldable pub respawn : ℕ → ℕ
  respawn wave = let rest = 80 - wave * 8 in if ltb 20 rest then rest else 20

  unfoldable pub spawn : Draw fl → Round → Round
  unfolding respawn new_enemy decrement is_spent
  spawn draw s =
      let spawn_cd = decrement s.spawn_cd in
      if is_spent spawn_cd && ltb (length s.enemies) (6 + s.wave)
      then record s {
        enemies = s.enemies ++ new_enemy fl draw s.wave ∷ [];
        spawn_cd = pos (respawn s.wave);
      }
      else record s { spawn_cd = spawn_cd }

  -- the shot of an enemy, in front of those of the enemies behind it
  unfoldable pub shot_of : Bool × Enemy fl → List (Bullet fl) → List (Bullet fl)
  unfolding new_bullet
  shot_of (shoots, e) rest =
      if shoots then new_bullet fl e.x (fl.add e.y (int e.r)) (pos 5) ∷ rest else rest

  -- `for e in enemies:` the enemy moves, and shoots if it can
  unfoldable pub update_enemies : (ℕ → ℕ) → ℕ → List (Enemy fl) → List (Enemy fl) × List (Bullet fl)
  unfolding update_enemy can_shoot shot_of
  update_enemies reload n [] = ([], [])
  update_enemies reload n (e ∷ enemies) =
      let turn = can_shoot fl (reload n) (update_enemy fl e) in
      let rest = update_enemies reload (suc n) enemies in (turn.1 ∷ rest.0, shot_of turn rest.1)

  unfoldable pub update_all : (ℕ → ℕ) → Round → Round
  unfolding update_enemies update_bullet update_explosion
  update_all reload s =
      let (enemies, shots) = update_enemies reload 0 s.enemies in
      record s {
        bullets = map (update_bullet fl) s.bullets;
        e_bullets = map (update_bullet fl) s.e_bullets ++ shots;
        enemies = enemies;
        explosions = map (update_explosion fl) s.explosions;
      }

  -- what the hits of a frame add
  pub record Gains : Type 0 where
    pub score : ℕ
    pub killed : ℕ
    pub bursts : List (Explosion fl)

  abbrev pub no_gains : Gains
  no_gains = record { score = 0; killed = 0; bursts = [] }

  unfoldable pub both : Gains → Gains → Gains
  both a b = record {
    score = a.score + b.score;
    killed = a.killed + b.killed;
    bursts = a.bursts ++ b.bursts;
  }

  unfoldable pub gain_of : Bool × Enemy fl → Gains
  unfolding new_explosion
  gain_of (true, e) = record { score = e.score; killed = 1; bursts = new_explosion fl e.x e.y ∷ [] }
  gain_of (false, e) = no_gains

  unfoldable pub hits : Bullet fl → Enemy fl → Bool
  unfolding is_near
  hits b e = e.alive && is_near b.x b.y e.x e.y e.r

  -- The inner loop, for a bullet that is alive at its start: the bullet goes on through the enemies
  -- behind the first it hits. The Boolean says whether it hit one.
  unfoldable pub strike : Bullet fl → List (Enemy fl) → Bool × List (Enemy fl) × Gains
  unfolding hits hit_enemy gain_of both
  strike b [] = (false, [], no_gains)
  strike b (e ∷ enemies) =
      let (struck, rest, gains) = strike b enemies in
      if hits b e
      then (let turn = hit_enemy fl e in (true, turn.1 ∷ rest, both (gain_of turn) gains))
      else (struck, e ∷ rest, gains)

  -- the outer loop
  unfoldable pub strikes :
      List (Bullet fl) → List (Enemy fl) → List (Bullet fl) × List (Enemy fl) × Gains
  unfolding strike both
  strikes [] enemies = ([], enemies, no_gains)
  strikes (b ∷ bullets) enemies =
      let (struck, struck_enemies, gains) = strike b enemies in
      let (bs, es, gs) = strikes bullets (if b.alive then struck_enemies else enemies) in
      (
        (if b.alive && struck then record b { alive = false } else b) ∷ bs,
        es,
        if b.alive then both gains gs else gs,
      )

  unfoldable pub shoot_enemies : Round → Round
  unfolding strikes
  shoot_enemies s =
      let (bullets, enemies, gains) = strikes s.bullets s.enemies in
      record s {
        bullets = bullets;
        enemies = enemies;
        score = s.score + gains.score;
        enemies_killed = s.enemies_killed + gains.killed;
        explosions = s.explosions ++ gains.bursts;
      }
