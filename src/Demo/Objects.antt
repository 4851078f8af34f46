-- ===== src/Demo/Objects.antt =====
-- The objects of the game (demo_game/game.py), less what is only drawn.
use tpm_attest.Prelude.{
  ℕ, zero, suc, ◌+◌, ◌-◌, Bool, true, false, ◌||◌, if◌then◌else◌, ◌==◌, ltb, List, [], ◌∷◌,
}
use tpm_attest.Python.Int.{ℤ, pos, negsuc}
use tpm_attest.Demo.Floats.{Floats, min_of, max_of}

-- `W, H`
abbrev pub width : ℕ
width = 1024

abbrev pub height : ℕ
height = 768

-- `n -= 1`
unfoldable pub decrement : ℤ → ℤ
decrement (pos zero) = negsuc 0
decrement (pos (suc n)) = pos n
decrement (negsuc n) = negsuc (suc n)

-- `n <= 0`
unfoldable pub is_spent : ℤ → Bool
is_spent (pos zero) = true
is_spent (pos (suc n)) = false
is_spent (negsuc n) = true

-- `if n > 0: n -= 1`
unfoldable pub count_down : ℕ → ℕ
count_down zero = 0
count_down (suc n) = n

-- `random.randint(0, 2)`
pub data Kind : Type 0 where
  drone cruiser bomber : Kind

unfoldable pub radius_of : Kind → ℕ
radius_of drone = 18
radius_of cruiser = 22
radius_of bomber = 16

unfoldable pub hp_of : Kind → ℕ
hp_of drone = 1
hp_of cruiser = 3
hp_of bomber = 2

unfoldable pub score_of : Kind → ℕ
score_of drone = 100
score_of cruiser = 300
score_of bomber = 200

-- the keys of the player: each of the first four is down if the arrow or the letter is
pub record Keys : Type 0 where
  pub left : Bool
  pub right : Bool
  pub up : Bool
  pub down : Bool
  pub fire : Bool

module _ (fl : Floats) where
  abbrev int : ℕ → fl.Float
  int n = fl.of_int (pos n)

  pub record Bullet : Type 0 where
    pub x : fl.Float
    pub y : fl.Float
    pub vy : fl.Float
    pub alive : Bool

  -- `Bullet(x, y, vy)`
  unfoldable pub new_bullet : fl.Float → fl.Float → ℤ → Bullet
  new_bullet x y vy = record { x = x; y = y; vy = fl.of_int vy; alive = true }

  unfoldable pub update_bullet : Bullet → Bullet
  update_bullet b =
      let y = fl.add b.y b.vy in
      record b {
        y = y;
        alive =
            if fl.lt y (fl.of_int (negsuc 9)) || fl.lt (int (height + 10)) y
            then false
            else b.alive;
      }

  pub record Enemy : Type 0 where
    pub kind : Kind
    pub r : ℕ
    pub x : fl.Float
    pub y : fl.Float
    pub vx : fl.Float
    pub vy : fl.Float
    pub hp : ℤ
    pub score : ℕ
    pub angle : fl.Float
    pub shoot_cd : ℤ
    pub alive : Bool

  -- what `Enemy.__init__` draws at random
  pub record Draw : Type 0 where
    pub kind : Kind
    pub x : ℤ
    pub y : ℤ
    pub spread : fl.Float
    pub vx : fl.Float
    pub shoot_cd : ℕ

  -- `Enemy(wave)`: its speed is at least 0.8
  unfoldable pub new_enemy : Draw → ℕ → Enemy
  unfolding radius_of hp_of score_of max_of
  new_enemy draw wave = record {
    kind = draw.kind;
    r = radius_of draw.kind;
    x = fl.of_int draw.x;
    y = fl.of_int draw.y;
    vx = draw.vx;
    vy =
        max_of fl (fl.literal 8 1)
          (fl.add (fl.add (fl.literal 14 1) (fl.mul (fl.literal 25 2) (int wave))) draw.spread);
    hp = pos (hp_of draw.kind);
    score = score_of draw.kind;
    angle = fl.literal 0 1;
    shoot_cd = pos draw.shoot_cd;
    alive = true;
  }

  -- At the edges the enemy turns, below the screen it is gone.
  unfoldable pub update_enemy : Enemy → Enemy
  unfolding decrement
  update_enemy e =
      let x = fl.add e.x e.vx in
      let y = fl.add e.y e.vy in
      record e {
        x = x;
        y = y;
        angle = fl.add e.angle (fl.literal 15 1);
        vx = if fl.lt x (int e.r) || fl.lt (int (width - e.r)) x then fl.negate e.vx else e.vx;
        alive = if fl.lt (int (height + 40)) y then false else e.alive;
        shoot_cd = decrement e.shoot_cd;
      }

  -- `can_shoot`, with the random time to the next shot
  unfoldable pub can_shoot : ℕ → Enemy → Bool × Enemy
  unfolding is_spent
  can_shoot reload e =
      if is_spent e.shoot_cd then (true, record e { shoot_cd = pos reload }) else (false, e)

  -- `Enemy.hit`: whether it was the last
  unfoldable pub hit_enemy : Enemy → Bool × Enemy
  unfolding decrement is_spent
  hit_enemy e =
      let hp = decrement e.hp in
      if is_spent hp
      then (true, record e { hp = hp; alive = false })
      else (false, record e { hp = hp })

  pub record Explosion : Type 0 where
    pub x : fl.Float
    pub y : fl.Float
    pub t : fl.Float
    pub alive : Bool

  unfoldable pub new_explosion : fl.Float → fl.Float → Explosion
  new_explosion x y = record { x = x; y = y; t = fl.literal 0 1; alive = true }

  -- `t >= 1.0`, of numbers
  unfoldable pub update_explosion : Explosion → Explosion
  update_explosion ex =
      let t = fl.add ex.t (fl.literal 4 2) in
      record ex { t = t; alive = if fl.lt t (fl.literal 10 1) then ex.alive else false }

  pub record Player : Type 0 where
    pub x : fl.Float
    pub y : fl.Float
    pub hp : ℤ
    pub shoot_cd : ℕ
    pub invincible : ℕ
    pub alive : Bool

  abbrev pub new_player : Player
  new_player = record {
    x = int 512;
    y = int 668;
    hp = pos 3;
    shoot_cd = 0;
    invincible = 0;
    alive = true;
  }

  -- the two keys of an axis, the one for less first, and the limits of the screen
  unfoldable pub move : Bool → Bool → ℕ → ℕ → fl.Float → fl.Float
  unfolding min_of max_of
  move less more low high at_start =
      let speed = fl.literal 55 1 in
      let back = if less then fl.sub at_start speed else at_start in
      let forth = if more then fl.add back speed else back in
      max_of fl (int low) (min_of fl (int high) forth)

  unfoldable pub update_player : Keys → Player → Player
  unfolding move count_down
  update_player keys p = record p {
    x = move keys.left keys.right 20 (width - 20) p.x;
    y = move keys.up keys.down 60 (height - 20) p.y;
    shoot_cd = count_down p.shoot_cd;
    invincible = count_down p.invincible;
  }

  unfoldable pub try_shoot : Player → List Bullet × Player
  unfolding new_bullet
  try_shoot p =
      if p.shoot_cd == 0
      then (new_bullet p.x (fl.sub p.y (int 20)) (negsuc 9) ∷ [], record p { shoot_cd = 10 })
      else ([], p)

  -- `Player.hit`: no harm in the frames after a hit
  unfoldable pub hit_player : Player → Player
  unfolding decrement is_spent
  hit_player p =
      if ltb 0 p.invincible
      then p
      else (let hp = decrement p.hp in
          record p { hp = hp; invincible = 90; alive = if is_spent hp then false else p.alive })
