-- ===== src/Demo/Armed.antt =====
-- The enemies of the game that live have hit points left (demo_game/game.py).
use tpm_attest.Prelude.{
  ℕ, zero, suc, ◌+◌, ◌≤◌, ◌≡◌, refl, Bool, true, false, ◌&&◌, if◌then◌else◌, ltb, leb, if_both,
  List, [], ◌∷◌, arith, length, All, All-append, keep_if,
}
use tpm_attest.Python.Int.{pos}
use tpm_attest.Demo.Floats.{Floats}
use tpm_attest.Demo.Objects.{
  Kind, drone, cruiser, bomber, hp_of, decrement, is_spent, Keys, Bullet, Enemy, Draw, new_enemy,
  update_enemy, can_shoot, hit_enemy, Player, hit_player,
}
use tpm_attest.Demo.Frame.{
  Round, Gains, Input, steer, spawn, update_enemies, update_all, hits, strike, strikes,
  shoot_enemies,
}
use tpm_attest.Demo.Balance.{hits-alive}
use tpm_attest.Demo.Play.{
  is_rammed, take_shots, take_rams, withstand, defend, prune, advance, frame,
}

kind-points : (kind : Kind) → (n : ℕ) × (pos (hp_of kind) ≡ pos (suc n)) × (n ≤ 2)
unfolding hp_of
kind-points drone = (0, refl, omega arith)
kind-points cruiser = (2, refl, omega arith)
kind-points bomber = (1, refl, omega arith)

if_false : (b c : Bool) → (if b then false else c) ≡ true → c ≡ true
if_false true c h = absurd (cc)
if_false false c h = h

module _ (fl : Floats) where
  -- 1 to 3 points
  abbrev pub HasPoints : Enemy fl → Type 0
  HasPoints e = (n : ℕ) × (e.hp ≡ pos (suc n)) × (n ≤ 2)

  abbrev IsArmed : Enemy fl → Type 0
  IsArmed e = e.alive ≡ true → HasPoints e

  -- an enemy on the field: it lives, and has points
  abbrev pub IsManned : Enemy fl → Type 0
  IsManned e = (e.alive ≡ true) × HasPoints e

  new_enemy-IsArmed : (draw : Draw fl) (wave : ℕ) → IsArmed (new_enemy fl draw wave)
  unfolding new_enemy
  new_enemy-IsArmed draw wave a = kind-points draw.kind

  update_enemy-IsArmed : (e : Enemy fl) → IsArmed e → IsArmed (update_enemy fl e)
  unfolding update_enemy
  update_enemy-IsArmed e h a = h (if_false _ e.alive a)

  can_shoot-IsArmed : (n : ℕ) (e : Enemy fl) → IsArmed e → IsArmed (can_shoot fl n e).1
  unfolding can_shoot
  can_shoot-IsArmed n e h =
      if_both (λ (r : Bool × Enemy fl). IsArmed r.1) (is_spent e.shoot_cd) (λ shoots. h)
        (λ waits. h)

  update_enemies-IsArmed :
      (reload : ℕ → ℕ) (n : ℕ) (es : List (Enemy fl))
      → All IsArmed es
      → All IsArmed (update_enemies fl reload n es).0
  unfolding update_enemies
  update_enemies-IsArmed reload n [] h = h
  update_enemies-IsArmed reload n (e ∷ es) h = (
    can_shoot-IsArmed (reload n) (update_enemy fl e) (update_enemy-IsArmed e h.0),
    update_enemies-IsArmed reload (suc n) es h.1,
  )

  -- an enemy with points left loses one
  lowered-IsArmed : (e : Enemy fl) (n : ℕ) → e.hp ≡ pos (suc n) → n ≤ 2 → IsArmed (hit_enemy fl e).1
  unfolding hit_enemy decrement is_spent
  lowered-IsArmed e zero hp le = rw hp (λ a. absurd (cc))
  lowered-IsArmed e (suc n) hp le = rw hp (λ a. (n, refl, omega (arith, le)))

  hit_enemy-IsArmed : (e : Enemy fl) → e.alive ≡ true → IsArmed e → IsArmed (hit_enemy fl e).1
  hit_enemy-IsArmed e a h = let (n, hp, le) = h a in lowered-IsArmed e n hp le

  strike-IsArmed :
      (b : Bullet fl) (es : List (Enemy fl)) → All IsArmed es → All IsArmed (strike fl b es).1
  unfolding strike
  strike-IsArmed b [] h = h
  strike-IsArmed b (e ∷ es) h =
      if_both (λ (r : Bool × List (Enemy fl) × Gains fl). All IsArmed r.1) (hits fl b e)
        (λ hit. (hit_enemy-IsArmed e (hits-alive fl b e hit) h.0, strike-IsArmed b es h.1))
        (λ missed. (h.0, strike-IsArmed b es h.1))

  strikes-IsArmed :
      (bs : List (Bullet fl)) (es : List (Enemy fl))
      → All IsArmed es
      → All IsArmed (strikes fl bs es).1
  unfolding strikes
  strikes-IsArmed [] es h = h
  strikes-IsArmed (b ∷ bs) es h =
      strikes-IsArmed bs (if b.alive then (strike fl b es).1 else es)
        (if_both (All IsArmed) b.alive (λ alive. strike-IsArmed b es h) (λ dead. h))

  take_rams-IsArmed :
      (p : Player fl) (es : List (Enemy fl)) → All IsArmed es → All IsArmed (take_rams fl p es).1
  unfolding take_rams
  take_rams-IsArmed p [] h = h
  take_rams-IsArmed p (e ∷ es) h = (
    if_both IsArmed (is_rammed fl e p) (λ hit. λ a. absurd (cc)) (λ missed. h.0),
    take_rams-IsArmed (if is_rammed fl e p then hit_player fl p else p) es h.1,
  )

  keep_if-IsArmed :
      (es : List (Enemy fl))
      → All IsArmed es
      → All IsManned (keep_if (λ (e : Enemy fl). e.alive) es)
  keep_if-IsArmed [] h = _
  keep_if-IsArmed (e ∷ es) h =
      if_both (All IsManned) e.alive (λ alive. ((alive, h.0 alive), keep_if-IsArmed es h.1))
        (λ dead. keep_if-IsArmed es h.1)

  manned-IsArmed : (es : List (Enemy fl)) → All IsManned es → All IsArmed es
  manned-IsArmed [] h = h
  manned-IsArmed (e ∷ es) h = (λ alive. h.0.1, manned-IsArmed es h.1)

  spawn-IsArmed :
      (draw : Draw fl) (s : Round fl)
      → All IsArmed s.enemies
      → All IsArmed (spawn fl draw s).enemies
  unfolding spawn
  spawn-IsArmed draw s h =
      if_both (λ (r : Round fl). All IsArmed r.enemies)
        (is_spent (decrement s.spawn_cd) && ltb (length s.enemies) (6 + s.wave))
        (λ room.
          All-append IsArmed s.enemies (new_enemy fl draw s.wave ∷ []) h
            (new_enemy-IsArmed draw s.wave, _))
        (λ full. h)

  fought-IsArmed :
      (reload : ℕ → ℕ) (s : Round fl)
      → All IsArmed s.enemies
      → All IsArmed (shoot_enemies fl (update_all fl reload s)).enemies
  unfolding shoot_enemies update_all
  fought-IsArmed reload s h =
      strikes-IsArmed (update_all fl reload s).bullets (update_enemies fl reload 0 s.enemies).0
        (update_enemies-IsArmed reload 0 s.enemies h)

  defend-IsArmed : (s : Round fl) → All IsArmed s.enemies → All IsArmed (defend fl s).enemies
  unfolding defend withstand
  defend-IsArmed s h =
      if_both (λ (r : Round fl). All IsArmed r.enemies) s.player.alive
        (λ alive. take_rams-IsArmed (take_shots fl s.player s.e_bullets).0 s.enemies h) (λ dead. h)

  prune-IsManned : (s : Round fl) → All IsArmed s.enemies → All IsManned (prune fl s).enemies
  unfolding prune
  prune-IsManned s h = keep_if-IsArmed s.enemies h

  advance-IsManned : (s : Round fl) → All IsManned s.enemies → All IsManned (advance fl s).enemies
  unfolding advance
  advance-IsManned s h =
      if_both (λ (r : Round fl). All IsManned r.enemies) (leb s.wave_target s.enemies_killed)
        (λ done. h) (λ more. h)

  steer-IsArmed :
      (keys : Keys) (s : Round fl) → All IsManned s.enemies → All IsArmed (steer fl keys s).enemies
  unfolding steer
  steer-IsArmed keys s h = manned-IsArmed s.enemies h

  -- a frame leaves enemies that live and have points
  pub frame-IsManned :
      (input : Input fl) (s : Round fl)
      → All IsManned s.enemies
      → All IsManned (frame fl input s).enemies
  unfolding frame
  frame-IsManned input s h =
      let steered = steer fl input.keys s in
      let spawned = spawn fl input.draw steered in
      let fought = shoot_enemies fl (update_all fl input.reload spawned) in
      advance-IsManned (prune fl (defend fl fought)) (
        prune-IsManned (defend fl fought) (
          defend-IsArmed fought (
            fought-IsArmed input.reload spawned
              (spawn-IsArmed input.draw steered (steer-IsArmed input.keys s h)))))
