-- ===== src/League/Ids.antt =====
-- The identifiers of the baseline opponents. They count down from the largest of 64 bits, the uniform
-- baseline's at even and the random one's at odd distances. A game's number is below 2 ^ 62 here: the
-- source's difference is not cut at 0.
use connect4codex.Prelude.{ℕ, ◌-◌, ◌*◌, ◌/◌, ◌%◌, Option, none, some, ltb, ◌==◌, if◌then◌else◌}

-- (1 << 64) - 1
abbrev pub uniform_model_id : ℕ
uniform_model_id = 18446744073709551615

-- (1 << 64) - 2
abbrev pub random_model_id : ℕ
random_model_id = 18446744073709551614

-- None stands for the ValueError.
unfoldable pub baseline_model_id : ℕ → ℕ → Option ℕ
baseline_model_id kind game_id =
    if kind == uniform_model_id
    then some (uniform_model_id - 2 * game_id)
    else if kind == random_model_id
    then some (random_model_id - 2 * game_id)
    else none

unfoldable pub baseline_of : ℕ → ℕ × ℕ
baseline_of delta =
    if delta % 2 == 0 then (uniform_model_id, delta / 2) else (random_model_id, (delta - 1) / 2)

unfoldable pub baseline_kind_and_game : ℕ → Option (ℕ × ℕ)
baseline_kind_and_game model_id =
    if ltb model_id 9223372036854775808
    then none
    else if ltb uniform_model_id model_id
    then none
    else some (baseline_of (uniform_model_id - model_id))
