-- ===== src/Patches/Resolve.antt =====
-- What `find_signature_target` and `checked_known_signature_write` resolve to.
use fc2_systemdetection.Scan.Pattern
use fc2_systemdetection.Memory.Checked.{WriteState, validate_bytes}
use fc2_systemdetection.Memory.Os.{Machine, Os}
use fc2_systemdetection.Patches.Error.{Rejection, from_scan, scan_error}
use fc2_systemdetection.Patches.Target.{
  find_signature_target, judge_match, judge_matches, push_judged, select_target,
}
use fc2_systemdetection.Prelude.{
  >>=-eq-ok, Bool-cases, List, Member, Option, Option-cases, Result, Result-cases, [], ap, arith,
  checked_add, checked_add-eq-some, err, if◌then◌else◌, inl, inr, is_empty, length, map_err-ok, ok,
  ok-injective, refl, subst, sym, ℕ, ◌+◌, ◌<◌, ◌∙◌, ◌∷◌, ◌≡◌, ◌⊎◌,
}
use fc2_systemdetection.Scan.Error.{ScanScope, invalid_pattern}
use fc2_systemdetection.Scan.Image.{ModuleImage, contains_relative_target, scan}
use fc2_systemdetection.Scan.Pattern.{Pattern, len, parse_parts}
use fc2_systemdetection.Scan.Search.{
  IsMatch, TargetInside, contains_relative_target-inside, scan-IsMatch,
}
use fc2_systemdetection.Text.{Text, split_whitespace}

pub parse_positive : (text : Text) (p : Pattern) → Pattern.parse text ≡ ok p → 0 < Pattern.len p
unfolding Pattern.parse
parse_positive text p h = elim (Option-cases (parse_parts (split_whitespace text))) [
  | inl bad ↦ absurd (ground (arith, rw (bad, Pattern.parse) at h))
  | inr (bytes, good) ↦ positive bytes (rw (good, Pattern.parse) at h)
]
  where
    positive :
        (bytes : List (Option ℕ))
        → (if is_empty bytes then err (invalid_pattern text) else ok (record { bytes = bytes }))
          ≡ ok p
        → 0 < Pattern.len p
    positive [] e = cc
    positive (b ∷ bs) e = rw (← ok-injective e) (omega arith)

select_target-ok :
    (signature : Text) (n : ℕ) (accepted : List ℕ) (rejected : List Rejection) (t : ℕ)
    → select_target signature n accepted rejected ≡ ok t
    → accepted ≡ t ∷ []
unfolding select_target
select_target-ok signature n [] rejected t h = cc
select_target-ok signature n (a ∷ []) rejected t h = ap (λ x. x ∷ []) (ok-injective h)
select_target-ok signature n (a ∷ b ∷ as') rejected t h = cc

module _ {Pages : Type 0} ⦃os : Os Pages⦄ where
  -- The match is accepted, with this target: it lies at the offset behind the match, in the same
  -- section, and holds the expected bytes or the replacement.
  pub record Accepts (m : Machine Pages) (image : ModuleImage) (scope : ScanScope)
      (target_offset : ℕ) (expected replacement : List ℕ) (start target : ℕ) : Type 0 where
    pub target_is : target ≡ start + target_offset
    pub inside : TargetInside image scope start target (length expected)
    pub state : WriteState
    pub valid : validate_bytes m target expected replacement ≡ ok state

  module _ (m : Machine Pages) (image : ModuleImage) (scope : ScanScope) (target_offset : ℕ)
      (expected replacement : List ℕ) where
    abbrev judge : ℕ → Result Rejection ℕ
    judge = judge_match m image scope target_offset expected replacement

    abbrev accepted_of : List ℕ → List ℕ
    accepted_of starts = (judge_matches m image scope target_offset expected replacement starts).0

    judge_match-Accepts :
        (start target : ℕ)
        → judge start ≡ ok target
        → Accepts m image scope target_offset expected replacement start target
    unfolding judge_match
    judge_match-Accepts start target h = elim (Option-cases (checked_add start target_offset)) [
      | inl past ↦ absurd (ground (arith, h))
      | inr (at, fits) ↦
          elim (Bool-cases (contains_relative_target image start at (length expected) scope)) [
            | inr outside ↦ absurd (ground (arith, h))
            | inl inside ↦ elim (Result-cases (validate_bytes m at expected replacement)) [
              | inr (e, bad) ↦ absurd (ground (arith, h))
              | inl (s, good) ↦
                  let same : at ≡ target = ground (arith, h) in
                  record {
                    target_is = sym same ∙ (checked_add-eq-some start target_offset fits).0;
                    inside =
                        subst (λ x. TargetInside image scope start x (length expected)) same
                          (contains_relative_target-inside image start at (length expected) scope
                            inside);
                    state = s;
                    valid = rw (← same) good;
                  }
            ]
          ]
    ]

    accepted-ok :
        (s : ℕ) (ss : List ℕ) {a : ℕ} → judge s ≡ ok a → accepted_of (s ∷ ss) ≡ a ∷ accepted_of ss
    unfolding judge_matches
    accepted-ok s ss good =
        ap
          (λ r.
            (push_judged r (judge_matches m image scope target_offset expected replacement ss)).0)
          good

    accepted-err :
        (s : ℕ) (ss : List ℕ) {e : Rejection}
        → judge s ≡ err e
        → accepted_of (s ∷ ss) ≡ accepted_of ss
    unfolding judge_matches
    accepted-err s ss bad =
        ap
          (λ r.
            (push_judged r (judge_matches m image scope target_offset expected replacement ss)).0)
          bad

    accepted_from :
        (starts : List ℕ) (t : ℕ)
        → Member t (accepted_of starts)
        → (start : ℕ) × Member start starts × (judge start ≡ ok t)
    unfolding judge_matches
    accepted_from [] t h = absurd h
    accepted_from (s ∷ ss) t h = elim (Result-cases (judge s)) [
      | inr (e, bad) ↦
          let (start, listed, good) = accepted_from ss t (rw (accepted-err s ss bad) at h) in
          (start, inr listed, good)
      | inl (a, good) ↦
          let either : (t ≡ a) ⊎ Member t (accepted_of ss) = rw (accepted-ok s ss good) at h in
          elim either [
            | inl here ↦ (s, inl refl, rw here good)
            | inr later ↦
                let (start, listed, fine) = accepted_from ss t later in (start, inr listed, fine)
          ]
    ]

    accepted_all :
        (starts : List ℕ) (start t : ℕ)
        → Member start starts
        → judge start ≡ ok t
        → Member t (accepted_of starts)
    unfolding judge_matches
    accepted_all [] start t h good = absurd h
    accepted_all (s ∷ ss) start t (inl e) good =
        rw (accepted-ok s ss {a = t} (rw (← e) good)) (inl refl)
    accepted_all (s ∷ ss) start t (inr h) good = elim (Result-cases (judge s)) [
      | inr (e, bad) ↦ rw (accepted-err s ss bad) (accepted_all ss start t h good)
      | inl (a, fine) ↦ rw (accepted-ok s ss fine) (inr (accepted_all ss start t h good))
    ]

    -- Where the search for a signature has found its target.
    pub record ResolvesTo (signature : Text) (target : ℕ) : Type 0 where
      pub pattern : Pattern
      pub parsed : Pattern.parse signature ≡ ok pattern
      pub start : ℕ
      pub is_match : IsMatch image pattern scope start
      pub accepted : Accepts m image scope target_offset expected replacement start target
      pub only :
          (other t : ℕ)
          → Member other (scan image pattern scope)
          → judge_match m image scope target_offset expected replacement other ≡ ok t
          → (other ≡ start) × (t ≡ target)

    -- A signature resolves to a target only if the signature occurs in a section of the scope, the
    -- target lies at the offset behind the occurrence in the same section, its bytes are the
    -- expected ones or the replacement, and of no other occurrence the target is accepted.
    pub find_signature_target-ResolvesTo :
        (signature : Text) (target : ℕ)
        → find_signature_target m image signature scope target_offset expected replacement
          ≡ ok target
        → ResolvesTo signature target
    unfolding find_signature_target
    find_signature_target-ResolvesTo signature target h =
        let (pattern, parsing, searched) = >>=-eq-ok (from_scan (Pattern.parse signature)) _ h in
        let parsed = map_err-ok scan_error (Pattern.parse signature) parsing in
        let raw = scan image pattern scope in
        elim (Bool-cases (is_empty raw)) [
          | inl nothing ↦ absurd (ground (arith, rw nothing at searched))
          | inr something ↦
              let one =
                select_target-ok signature (length raw) (accepted_of raw) _ target
                  (rw something at searched) in
              let (start, listed, judged) = accepted_from raw target (rw one (inl refl)) in
              let accepted = judge_match-Accepts start target judged in
              record {
                pattern = pattern;
                parsed = parsed;
                start = start;
                is_match =
                    scan-IsMatch image pattern scope start (parse_positive signature pattern parsed)
                      listed;
                accepted = accepted;
                only = λ other t other_listed good.
                    let same : t ≡ target =
                      sole (rw one at (accepted_all raw other t other_listed good)) in
                    let again = judge_match-Accepts other t good in
                    (omega (arith, again.target_is, accepted.target_is, same), same);
              }
        ]
      where
        sole : {t : ℕ} → Member t (target ∷ []) → t ≡ target
        sole (inl e) = e
        sole (inr h) = absurd h
