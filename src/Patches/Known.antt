-- ===== src/Patches/Known.antt =====
-- What `checked_known_signature_write` resolves to, and the writes that `validated` makes.
use fc2_systemdetection.Scan.Pattern
use fc2_systemdetection.Memory.Checked.{WriteState, validate_bytes}
use fc2_systemdetection.Memory.Os.{Machine, Os}
use fc2_systemdetection.Patches.Error.{from_memory, from_scan, memory_error, scan_error}
use fc2_systemdetection.Patches.Plan.{CheckedWrite, validated}
use fc2_systemdetection.Patches.Resolve.{parse_positive}
use fc2_systemdetection.Patches.Target.{checked_known_signature_write, known_context_write}
use fc2_systemdetection.Prelude.{
  >>=-eq-ok, Bool-cases, List, Member, any, arith, checked_sub, inl, inr, length, map_err-ok, ok,
  ok-injective, ok_or, ok_or-ok, refl, some, subst, true, ℕ, ◌+◌, ◌-◌, ◌<◌, ◌==◌, ◌>>=◌, ◌≡◌, ◌≤◌,
}
use fc2_systemdetection.Scan.Error.{ScanScope}
use fc2_systemdetection.Scan.Image.{ModuleImage, address_from_rva, scan}
use fc2_systemdetection.Scan.Pattern.{Pattern, len}
use fc2_systemdetection.Scan.Search.{
  IsMatch, RvaInside, address_from_rva-inside, any-exists, scan-IsMatch,
}
use fc2_systemdetection.Text.{Text}

any_eq : (xs : List ℕ) (a : ℕ) → any (λ x. x == a) xs ≡ true → Member a xs
any_eq xs a h =
    let (x, listed, same) = any-exists (λ x. x == a) xs h in
    let e : x ≡ a = ground arith in subst (λ y. Member y xs) e listed

checked_sub-eq-some : (a b : ℕ) {c : ℕ} → checked_sub a b ≡ some c → (c ≡ a - b) × (b ≤ a)
checked_sub-eq-some a b h = ground arith

module _ {Pages : Type 0} ⦃os : Os Pages⦄ where
  -- A write that has been validated holds what it was made of, and its destination holds the
  -- expected bytes or the replacement.
  pub record IsValidated (m : Machine Pages) (address : ℕ) (expected replacement : List ℕ)
      (w : CheckedWrite) : Type 0 where
    pub address_is : w.address ≡ address
    pub expected_is : w.expected ≡ expected
    pub replacement_is : w.replacement ≡ replacement
    pub state : WriteState
    pub valid : validate_bytes m address expected replacement ≡ ok state

  pub validated-IsValidated :
      (m : Machine Pages) (address : ℕ) (expected replacement : List ℕ) (w : CheckedWrite)
      → validated m address expected replacement ≡ ok w
      → IsValidated m address expected replacement w
  unfolding validated
  validated-IsValidated m address expected replacement w h =
      let (state, valid, made) =
        >>=-eq-ok (from_memory (validate_bytes m address expected replacement)) _ h in
      subst (IsValidated m address expected replacement) (ok-injective made) (record {
        address_is = refl;
        expected_is = refl;
        replacement_is = refl;
        state = state;
        valid = map_err-ok memory_error (validate_bytes m address expected replacement) valid;
      })

  -- The write of a known build: the signature has a match at the known place, and the target lies
  -- in one section of the scope.
  pub record KnownWrite (m : Machine Pages) (image : ModuleImage) (signature : Text)
      (scope : ScanScope) (target_rva target_offset : ℕ) (expected replacement : List ℕ)
      (w : CheckedWrite) : Type 0 where
    pub pattern : Pattern
    pub parsed : Pattern.parse signature ≡ ok pattern
    pub offset_fits : target_offset ≤ target_rva
    pub is_match : IsMatch image pattern scope (image.base + (target_rva - target_offset))
    pub inside : RvaInside image scope target_rva (length expected)
    pub write : IsValidated m (image.base + target_rva) expected replacement w

  record KnownContext (m : Machine Pages) (image : ModuleImage) (pattern : Pattern)
      (scope : ScanScope) (start_rva target_rva : ℕ) (expected replacement : List ℕ)
      (w : CheckedWrite) : Type 0 where
    is_match : IsMatch image pattern scope (image.base + start_rva)
    inside : RvaInside image scope target_rva (length expected)
    write : IsValidated m (image.base + target_rva) expected replacement w

  module _ (m : Machine Pages) (image : ModuleImage) (scope : ScanScope) (target_rva : ℕ)
      (expected replacement : List ℕ) (w : CheckedWrite) where
    known_target :
        from_scan (address_from_rva image target_rva (length expected) scope)
            >>= (λ target. validated m target expected replacement)
          ≡ ok w
        → RvaInside image scope target_rva (length expected)
          × IsValidated m (image.base + target_rva) expected replacement w
    known_target h =
        let (target, placed, made) =
          >>=-eq-ok (from_scan (address_from_rva image target_rva (length expected) scope)) _ h in
        let (target_is, inside) =
          address_from_rva-inside image target_rva (length expected) scope target
            (map_err-ok scan_error _ placed) in
        (
          inside,
          subst (λ a. IsValidated m a expected replacement w) target_is
              (validated-IsValidated m target expected replacement w made),
        )

    known_context_write-KnownContext :
        (signature : Text) (pattern : Pattern) (start_rva : ℕ)
        → 0 < Pattern.len pattern
        → known_context_write m image signature pattern scope start_rva target_rva expected
            replacement
          ≡ ok w
        → KnownContext m image pattern scope start_rva target_rva expected replacement w
    unfolding known_context_write
    known_context_write-KnownContext signature pattern start_rva positive h =
        let (start, placed, searched) =
          >>=-eq-ok (from_scan (address_from_rva image start_rva (Pattern.len pattern) scope)) _
            h in
        let start_is =
          (address_from_rva-inside image start_rva (Pattern.len pattern) scope start
            (map_err-ok scan_error _ placed)).0 in
        elim (Bool-cases (any (λ a. a == start) (scan image pattern scope))) [
          | inr absent ↦ absurd (ground (arith, rw absent at searched))
          | inl listed ↦
              let (inside, write) = known_target (rw listed at searched) in
              record {
                is_match = rw (← start_is) (
                    scan-IsMatch image pattern scope start positive
                      (any_eq (scan image pattern scope) start listed));
                inside = inside;
                write = write;
              }
        ]

  -- The write of a known build is made only where the whole signature occurs at the known place, and
  -- the target's bytes lie in one section of the scope and are the expected ones or the replacement.
  pub checked_known_signature_write-KnownWrite :
      (m : Machine Pages) (image : ModuleImage) (signature : Text) (scope : ScanScope)
      (target_rva target_offset : ℕ) (expected replacement : List ℕ) (w : CheckedWrite)
      → checked_known_signature_write m image signature scope target_rva target_offset expected
          replacement
        ≡ ok w
      → KnownWrite m image signature scope target_rva target_offset expected replacement w
  unfolding checked_known_signature_write
  checked_known_signature_write-KnownWrite m image signature scope target_rva target_offset expected
        replacement w h =
      let (pattern, parsing, located) = >>=-eq-ok (from_scan (Pattern.parse signature)) _ h in
      let parsed = map_err-ok scan_error (Pattern.parse signature) parsing in
      let (start_rva, placed, addressed) =
        >>=-eq-ok (ok_or _ (checked_sub target_rva target_offset)) _ located in
      let (start_is, fits) =
        checked_sub-eq-some target_rva target_offset
          (ok_or-ok _ (checked_sub target_rva target_offset) placed) in
      let c =
        known_context_write-KnownContext m image scope target_rva expected replacement w signature
          pattern start_rva (parse_positive signature pattern parsed) addressed in
      record {
        pattern = pattern;
        parsed = parsed;
        offset_fits = fits;
        is_match = subst (λ x. IsMatch image pattern scope (image.base + x)) start_is c.is_match;
        inside = c.inside;
        write = c.write;
      }
