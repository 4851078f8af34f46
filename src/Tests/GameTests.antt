-- ===== src/Tests/GameTests.antt =====
-- Frames of the demo game (demo_game/game.py), with natural numbers for its floats.
use tpm_attest.Prelude.{
  ℕ, ◌+◌, ◌-◌, ◌*◌, ◌/◌, ◌^◌, ◌≤◌, ◌≡◌, refl, true, false, ltb, [], ◌∷◌, arith,
}
use tpm_attest.Python.Int.{ℤ, pos, negsuc}
use tpm_attest.Demo.Floats.{Floats, IsOrdered}
use tpm_attest.Demo.Objects.{drone, cruiser, Keys, Draw, new_bullet, new_enemy}
use tpm_attest.Demo.Frame.{Round, new_round, Input, shoot_enemies}
use tpm_attest.Demo.Play.{new_game, next_frame, retry, begins, plays}
use tpm_attest.Demo.Balance.{live_count, live_score, shoot_enemies-balance}
use tpm_attest.Demo.Sound.{IsSound, Plays-IsSound, next_frame-raises}

abbrev of_integer : ℤ → ℕ
of_integer (pos n) = n
of_integer (negsuc n) = 0

abbrev plain : Floats
plain = record {
  Float = ℕ;
  of_int = of_integer;
  literal = λ m k. m / 10 ^ k;
  add = λ a b. a + b;
  sub = λ a b. a - b;
  mul = λ a b. a * b;
  negate = λ a. a;
  absolute = λ a. a;
  lt = ltb;
}

lt_irrefl : (a : ℕ) → ltb a a ≡ false
lt_irrefl a = ground arith

lt_asymm : (a b : ℕ) → ltb a b ≡ true → ltb b a ≡ false
lt_asymm a b h = ground arith

plain-IsOrdered : IsOrdered plain
plain-IsOrdered = record {
  lt_irrefl = lt_irrefl;
  lt_asymm = lt_asymm;
  lt-of_int = λ m n hm hn. refl;
}

abbrev keys : Keys
keys = record { left = true; right = false; up = true; down = false; fire = true }

abbrev draw : Draw plain
draw = record { kind = drone; x = pos 512; y = pos 640; spread = 0; vx = 0; shoot_cd = 60 }

abbrev input : Input plain
input = record { keys = keys; draw = draw; reload = λ n. 90 }

Plays-IsSound_example :
    IsSound plain (next_frame plain input (next_frame plain input (new_game plain))).round
unfolding next_frame
Plays-IsSound_example =
    Plays-IsSound plain plain-IsOrdered (plays input (plays input begins refl) refl)

-- two bullets meet a drone and a cruiser
abbrev meeting : Round plain
meeting = record (new_round plain) {
  bullets = new_bullet plain 512 640 (negsuc 9) ∷ new_bullet plain 513 640 (negsuc 9) ∷ [];
  enemies = new_enemy plain draw 1 ∷ new_enemy plain (record draw { kind = cruiser }) 1 ∷ [];
}

-- The drone is shot once, and the cruiser twice.
meeting_t : (shoot_enemies plain meeting).score ≡ 100
unfolding shoot_enemies new_enemy new_bullet
meeting_t = refl

shoot_enemies-balance_example :
    ((shoot_enemies plain meeting).score + live_score plain (shoot_enemies plain meeting).enemies
      ≡ meeting.score + live_score plain meeting.enemies)
    × ((shoot_enemies plain meeting).enemies_killed
          + live_count plain (shoot_enemies plain meeting).enemies
        ≡ meeting.enemies_killed + live_count plain meeting.enemies)
shoot_enemies-balance_example = shoot_enemies-balance plain meeting

next_frame-raises_example :
    (meeting.score
      ≤ (next_frame plain input (record { highscore = 0; round = meeting })).round.score)
    × (0 ≤ (next_frame plain input (record { highscore = 0; round = meeting })).highscore)
    × ((next_frame plain input (record { highscore = 0; round = meeting })).round.score
        ≤ (next_frame plain input (record { highscore = 0; round = meeting })).highscore)
    × (0 ≤ (retry plain (record { highscore = 0; round = meeting })).highscore)
next_frame-raises_example =
    next_frame-raises plain input (record { highscore = 0; round = meeting })
