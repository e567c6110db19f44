-- ===== src/Patches/Target.antt =====
-- `find_signature_target` and `checked_known_signature_write` of src/patches/mod.rs.
use fc2_systemdetection.Scan.Pattern
use fc2_systemdetection.Memory.Checked.{validate_bytes}
use fc2_systemdetection.Memory.Os.{Machine, Os}
use fc2_systemdetection.Patches.Error.{
  Planned, Rejection, ambiguous_target, bytes_rejected, from_scan, known_target_precedes_offset,
  no_context_at_known_start, no_validated_target, signature_not_found, target_leaves_section,
  target_overflow,
}
use fc2_systemdetection.Patches.Plan.{CheckedWrite, validated}
use fc2_systemdetection.Prelude.{
  List, Result, [], any, checked_add, checked_sub, err, if◌then◌else◌, is_empty, length, none, not,
  ok, ok_or, some, ℕ, ◌==◌, ◌>>=◌, ◌∷◌,
}
use fc2_systemdetection.Scan.Error.{ScanScope}
use fc2_systemdetection.Scan.Image.{ModuleImage, address_from_rva, contains_relative_target, scan}
use fc2_systemdetection.Scan.Pattern.{Pattern, len, matches}
use fc2_systemdetection.Text.{Text}

-- The `match accepted.as_slice()`.
unfoldable pub select_target : Text → ℕ → List ℕ → List Rejection → Planned ℕ
select_target signature raw_count [] rejected =
    err (no_validated_target signature raw_count rejected)
select_target signature raw_count (target ∷ []) rejected = ok target
select_target signature raw_count (a ∷ b ∷ accepted) rejected =
    err (ambiguous_target signature (a ∷ b ∷ accepted))

-- One match is pushed to the accepted targets or to the rejected matches.
abbrev pub push_judged : Result Rejection ℕ → List ℕ × List Rejection → List ℕ × List Rejection
push_judged (ok target) (accepted, rejected) = (target ∷ accepted, rejected)
push_judged (err reason) (accepted, rejected) = (accepted, reason ∷ rejected)

module _ {Pages : Type 0} ⦃os : Os Pages⦄ where
  -- The body of the loop over the matches: the target of a match, or why it is rejected.
  unfoldable pub judge_match :
      Machine Pages → ModuleImage → ScanScope → ℕ → List ℕ → List ℕ → ℕ → Result Rejection ℕ
  judge_match m image scope target_offset expected replacement start =
      elim (checked_add start target_offset) [
        | none ↦ err (target_overflow start)
        | some target ↦
            if not (contains_relative_target image start target (length expected) scope)
            then err (target_leaves_section start target)
            else elim (validate_bytes m target expected replacement) [
              | ok state ↦ ok target
              | err error ↦ err (bytes_rejected error)
            ]
      ]

  -- The loop: the accepted targets, and the reasons of the rejected matches.
  unfoldable pub judge_matches :
      Machine Pages
      → ModuleImage
      → ScanScope
      → ℕ
      → List ℕ
      → List ℕ
      → List ℕ
      → List ℕ × List Rejection
  unfolding judge_match
  judge_matches m image scope target_offset expected replacement [] = ([], [])
  judge_matches m image scope target_offset expected replacement (start ∷ starts) =
      push_judged (judge_match m image scope target_offset expected replacement start)
        (judge_matches m image scope target_offset expected replacement starts)

  unfoldable pub find_signature_target :
      Machine Pages → ModuleImage → Text → ScanScope → ℕ → List ℕ → List ℕ → Planned ℕ
  unfolding judge_matches
  find_signature_target m image signature scope target_offset expected replacement =
      from_scan (Pattern.parse signature) >>= λ pattern.
      let raw_matches = scan image pattern scope in
      if is_empty raw_matches
      then err (signature_not_found signature scope)
      else let judged =
          judge_matches m image scope target_offset expected replacement raw_matches in
        select_target signature (length raw_matches) judged.0 judged.1

  -- `checked_known_signature_write` from the RVA on at which the signature must start.
  unfoldable pub known_context_write :
      Machine Pages
      → ModuleImage
      → Text
      → Pattern.Pattern
      → ScanScope
      → ℕ
      → ℕ
      → List ℕ
      → List ℕ
      → Planned CheckedWrite
  known_context_write m image signature pattern scope start_rva target_rva expected replacement =
      from_scan (address_from_rva image start_rva (Pattern.len pattern) scope) >>= λ expected_start.
      let matches = scan image pattern scope in
      if not (any (λ a. a == expected_start) matches)
      then err (
          no_validated_target signature (length matches) (no_context_at_known_start start_rva ∷ []))
      else (from_scan (address_from_rva image target_rva (length expected) scope) >>= λ target.
          validated m target expected replacement)

  unfoldable pub checked_known_signature_write :
      Machine Pages
      → ModuleImage
      → Text
      → ScanScope
      → ℕ
      → ℕ
      → List ℕ
      → List ℕ
      → Planned CheckedWrite
  unfolding known_context_write
  checked_known_signature_write m image signature scope target_rva target_offset expected
        replacement =
      from_scan (Pattern.parse signature) >>= λ pattern.
      ok_or
        (no_validated_target signature 0
          (known_target_precedes_offset target_rva target_offset ∷ []))
        (checked_sub target_rva target_offset)
      >>= λ start_rva.
          known_context_write m image signature pattern scope start_rva target_rva expected
            replacement
