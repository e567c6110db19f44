-- ===== src/Gear/Score.antt =====
-- `GearScore` of src/gear/score.rs. An `f32` and an `i32` are given by their 32 bits.
use fc2_systemdetection.Prelude.{Bool, List, [], if◌then◌else◌, ltb, not, ℕ, ◌==◌, ◌∷◌}

-- The bits of -3.4028235e38, 0.0, 0.8 and 1.0.
abbrev pub score_uncomputed : ℕ
score_uncomputed = 0xFF7F_FFFF

abbrev pub float_zero : ℕ
float_zero = 0

abbrev pub float_good : ℕ
float_good = 0x3F4C_CCCD

abbrev pub float_one : ℕ
float_one = 0x3F80_0000

-- A pair for an array of two; the first is the CPU's, the second the GPU's.
pub record GearScore : Type 0 where
  pub scores : ℕ × ℕ
  pub confidence : ℕ × ℕ

-- `GearScore::new`
unfoldable pub new_score : GearScore
new_score = record {
  scores = (score_uncomputed, score_uncomputed);
  confidence = (float_one, float_one);
}

-- `(0..2).contains`; the bits of a negative `i32` are 2 ^ 31 or more.
abbrev pub is_score_type : ℕ → Bool
is_score_type score_type = ltb score_type 2

abbrev pub item : ℕ × ℕ → ℕ → ℕ
item (cpu, gpu) idx = if idx == 0 then cpu else gpu

abbrev pub set_item : ℕ × ℕ → ℕ → ℕ → ℕ × ℕ
set_item (cpu, gpu) idx x = if idx == 0 then (x, gpu) else (cpu, x)

-- `compute_score`
unfoldable pub compute_score : GearScore → ℕ → ℕ → ℕ × GearScore
compute_score s score_type param = if not (is_score_type score_type) then (score_type, s) else (
  score_type,
  record {
    scores = set_item s.scores score_type float_good;
    confidence = set_item s.confidence score_type float_one;
  },
)

-- The floats of the caller, by their addresses.
abbrev pub Floats : Type 0
Floats = ℕ → ℕ

abbrev pub write_float : Floats → ℕ → ℕ → Floats
write_float floats pointer x a = if a == pointer then x else floats a

-- `get_score`; `confidence_out` is an address, 0 for null. Two floats that are no zero and no NaN are
-- equal exactly if their bits are, so the test for the sentinel compares bits.
unfoldable pub get_score : GearScore → Floats → ℕ → ℕ → ℕ → ℕ × GearScore × Floats
unfolding compute_score
get_score s floats score_type param confidence_out =
    if not (is_score_type score_type)
    then (float_zero, s, floats)
    else (let s' =
          if item s.scores score_type == score_uncomputed
          then (compute_score s score_type param).1
          else s in
        (
          item s'.scores score_type,
          s',
          if confidence_out == 0
              then floats
              else write_float floats confidence_out (item s'.confidence score_type),
        ))

-- A call of the game.
pub data ScoreCall : Type 0 where
  call_get : ℕ → ℕ → ℕ → ScoreCall
  call_compute : ℕ → ℕ → ScoreCall

abbrev pub run_score_call : ScoreCall → GearScore × Floats → GearScore × Floats
run_score_call (call_get score_type param confidence_out) (s, floats) =
    let (score, s', floats') = get_score s floats score_type param confidence_out in (s', floats')
run_score_call (call_compute score_type param) (s, floats) =
    ((compute_score s score_type param).1, floats)

abbrev pub run_score_calls : List ScoreCall → GearScore × Floats → GearScore × Floats
run_score_calls [] state = state
run_score_calls (c ∷ cs) state = run_score_calls cs (run_score_call c state)
