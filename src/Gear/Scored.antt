-- ===== src/Gear/Scored.antt =====
-- The scores that src/gear/score.rs gives.
use fc2_systemdetection.Gear.Score.{
  Floats, GearScore, ScoreCall, call_compute, call_get, compute_score, float_good, float_one,
  float_zero, get_score, is_score_type, item, new_score, run_score_calls, score_uncomputed,
  write_float,
}
use fc2_systemdetection.Prelude.{
  Bool-cases, List, [], arith, false, if◌then◌else◌, inl, inr, not, refl, ℕ, ◌&&◌, ◌==◌, ◌∷◌, ◌≡◌,
  ◌⊎◌,
}

-- Each score is not computed yet, or is the good one; the confidences are 1.
abbrev IsScore : ℕ → Type 0
IsScore x = (x ≡ score_uncomputed) ⊎ (x ≡ float_good)

record IsSettling (s : GearScore) : Type 0 where
  cpu_score : IsScore s.scores.0
  gpu_score : IsScore s.scores.1
  cpu_sure : s.confidence.0 ≡ float_one
  gpu_sure : s.confidence.1 ≡ float_one

type_cases : (t : ℕ) → (t ≡ 0) ⊎ ((t ≡ 1) ⊎ (is_score_type t ≡ false))
type_cases t = elim (Bool-cases (is_score_type t)) [
  | inr none_such ↦ inr (inr none_such)
  | inl fits ↦ elim (Bool-cases (t == 0)) [
    | inl first ↦ inl (ground arith)
    | inr second ↦ inr (inl (ground arith))
  ]
]

compute_score-IsSettling :
    (s : GearScore) (t param : ℕ) → IsSettling s → IsSettling (compute_score s t param).1
unfolding compute_score
compute_score-IsSettling s t param h = elim (type_cases t) [
  | inr (inr none_such) ↦ rw (none_such, compute_score) h
  | inl first ↦ rw first (record {
    cpu_score = inr refl;
    gpu_score = h.gpu_score;
    cpu_sure = refl;
    gpu_sure = h.gpu_sure;
  })
  | inr (inl second) ↦ rw second (record {
    cpu_score = h.cpu_score;
    gpu_score = inr refl;
    cpu_sure = h.cpu_sure;
    gpu_sure = refl;
  })
]

get_score-IsSettling :
    (s : GearScore) (floats : Floats) (t param out : ℕ)
    → IsSettling s
    → IsSettling (get_score s floats t param out).1
unfolding get_score
get_score-IsSettling s floats t param out h = elim (Bool-cases (is_score_type t)) [
  | inr none_such ↦ rw (none_such, get_score) h
  | inl fits ↦ elim (Bool-cases (item s.scores t == score_uncomputed)) [
    | inl first ↦
        rw (fits, first, get_score)
          (rw (fits, compute_score) at (compute_score-IsSettling s t param h))
    | inr later ↦ rw (fits, later, get_score) h
  ]
]

run_score_calls-IsSettling :
    (cs : List ScoreCall) (s : GearScore) (floats : Floats)
    → IsSettling s
    → IsSettling (run_score_calls cs (s, floats)).0
run_score_calls-IsSettling [] s floats h = h
run_score_calls-IsSettling (call_get t param out ∷ cs) s floats h =
    let (score, s', floats') = get_score s floats t param out in
    run_score_calls-IsSettling cs s' floats' (get_score-IsSettling s floats t param out h)
run_score_calls-IsSettling (call_compute t param ∷ cs) s floats h =
    run_score_calls-IsSettling cs (compute_score s t param).1 floats
      (compute_score-IsSettling s t param h)

-- What a call of `get_score` gives and writes.
abbrev pub ScoreSpec : ℕ → ℕ → Floats → ℕ × GearScore × Floats → Type 0
ScoreSpec t out floats (score, s, floats') =
    (score ≡ (if is_score_type t then float_good else float_zero))
    × (floats'
        ≡ (if is_score_type t && not (out == 0) then write_float floats out float_one else floats))

flip :
    (out : ℕ) (floats given : Floats)
    → (if out == 0 then floats else given) ≡ (if not (out == 0) then given else floats)
flip out floats given = elim (Bool-cases (out == 0)) [
  | inl null ↦ rw null refl
  | inr set ↦ rw set refl
]

get_settled :
    (s : GearScore) (floats : Floats) (t param out : ℕ)
    → IsSettling s
    → ScoreSpec t out floats (get_score s floats t param out)
unfolding get_score compute_score
get_settled s floats t param out h =
    let written = flip out floats (write_float floats out float_one) in
    elim (type_cases t) [
      | inr (inr none_such) ↦ rw (none_such, get_score) (refl, refl)
      | inl first ↦ elim h.cpu_score [
        | inl start ↦ rw (first, start, get_score) (refl, written)
        | inr good ↦ rw (first, good, h.cpu_sure, get_score) (refl, written)
      ]
      | inr (inl second) ↦ elim h.gpu_score [
        | inl start ↦ rw (second, start, get_score) (refl, written)
        | inr good ↦ rw (second, good, h.gpu_sure, get_score) (refl, written)
      ]
    ]

-- After any calls of `get_score` and `compute_score` on a new object, `get_score` gives 0.8 for the
-- types 0 and 1, writing the confidence 1.0 where the pointer is not null, and 0.0 for all other
-- types, writing nothing.
pub run_score_calls-get_score :
    (cs : List ScoreCall) (floats : Floats) (t param out : ℕ)
    → ScoreSpec t out (run_score_calls cs (new_score, floats)).1 (
        get_score
          (run_score_calls cs (new_score, floats)).0
          (run_score_calls cs (new_score, floats)).1
          t
          param
          out)
unfolding new_score
run_score_calls-get_score cs floats t param out =
    let state = run_score_calls cs (new_score, floats) in
    get_settled state.0 state.1 t param out (
      run_score_calls-IsSettling cs new_score floats
        (record { cpu_score = inl refl; gpu_score = inl refl; cpu_sure = refl; gpu_sure = refl }))
