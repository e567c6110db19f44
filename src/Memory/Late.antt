-- ===== src/Memory/Late.antt =====
-- The errors of `write_checked` of src/patches/memory.rs that arise once the write is made.
use fc2_systemdetection.Memory.Again.{write_checked_classified}
use fc2_systemdetection.Memory.Bytes.{Bytes, poke}
use fc2_systemdetection.Memory.Checked.{
  Checked, MemoryError, WriteState, already_applied, applied, classify_bytes,
  flush_instruction_cache, is_refused, next_region, query_readable, read_bytes, restore_protection,
  validate_bytes, validate_lengths, validate_readable_range, verify_write,
  writable_protection_for_single_region, write_checked, write_classified, write_region,
  write_unprotected, write_verification,
}
use fc2_systemdetection.Memory.Os.{Machine, Os}
use fc2_systemdetection.Memory.Total.{writable}
use fc2_systemdetection.Memory.Walk.{walk}
use fc2_systemdetection.Prelude.{
  Bool, Bool-cases, List, Option, Option-cases, String, bit_and, checked_add, err, false,
  if◌then◌else◌, inl, inr, is_empty, leb, length, list_eq, ltb, min, none, not, ok, ok_or, refl,
  some, subst, suc, sym, true, zero, ℕ, ◌==◌, ◌>>=◌, ◌||◌, ◌≡◌,
}

-- The error is one of the three that come after the write, and names the address.
abbrev pub IsLateAt : ℕ → MemoryError → Type 0
IsLateAt a (restore_protection b reason) = b ≡ a
IsLateAt a (flush_instruction_cache b reason) = b ≡ a
IsLateAt a (write_verification b expected actual) = b ≡ a
IsLateAt a _ = ⊥

-- The result is no such error.
abbrev IsEarly : {A : Type 0} → Checked A → Type 0
IsEarly (ok a) = Unit
IsEarly (err e) = (b : ℕ) → ¬ IsLateAt b e

IsEarly-then :
    {A B : Type 0} (r : Checked A) (f : A → Checked B)
    → IsEarly r
    → ((a : A) → IsEarly (f a))
    → IsEarly (r >>= f)
IsEarly-then (ok a) f first next = next a
IsEarly-then (err e) f first next = first

ok_or-IsEarly :
    {A : Type 0} (e : MemoryError) (o : Option A) → ((b : ℕ) → ¬ IsLateAt b e) → IsEarly (ok_or e o)
ok_or-IsEarly e none early = early
ok_or-IsEarly e (some a) early = tt

if-IsEarly :
    {A : Type 0} (b : Bool) (r s : Checked A) → IsEarly r → IsEarly s → IsEarly (if b then r else s)
if-IsEarly true r s first second = first
if-IsEarly false r s first second = second

walk-IsEarly :
    (region : ℕ → Checked ℕ) (lost : MemoryError) (end fuel c : ℕ)
    → ((d : ℕ) → IsEarly (region d))
    → ((b : ℕ) → ¬ IsLateAt b lost)
    → IsEarly (walk region lost end fuel c)
unfolding walk
walk-IsEarly region lost end zero c early lost_early =
    if-IsEarly (ltb c end) (err lost) (ok tt) lost_early tt
walk-IsEarly region lost end (suc fuel) c early lost_early = elim (Bool-cases (ltb c end)) [
  | inr past ↦ rw (past, walk) tt
  | inl more ↦
      rw (more, walk)
        (IsEarly-then (region c) _ (early c)
          (λ r. walk-IsEarly region lost end fuel (min r end) early lost_early))
]

module _ {Pages : Type 0} ⦃os : Os Pages⦄ where
  query_readable-IsEarly : (pages : Pages) (c : ℕ) → IsEarly (query_readable pages c)
  unfolding query_readable
  query_readable-IsEarly pages c = elim (Option-cases (os.virtual_query pages c)) [
    | inl failed ↦ rw (failed, query_readable) (λ b late. late)
    | inr (s, found) ↦
        rw (found, query_readable)
          (if-IsEarly (not (s.state == os.flags.mem_commit)) _ _ (λ b late. late)
            (if-IsEarly (is_refused os.flags s.protect) _ _ (λ b late. late)
              (IsEarly-then (ok_or _ (checked_add s.base_address s.region_size)) _
                (ok_or-IsEarly _ (checked_add s.base_address s.region_size) (λ b late. late))
                (λ r. tt))))
  ]

  next_region-IsEarly : (pages : Pages) (c : ℕ) → IsEarly (next_region pages c)
  unfolding next_region
  next_region-IsEarly pages c =
      IsEarly-then (query_readable pages c) _ (query_readable-IsEarly pages c)
        (λ found. if-IsEarly (leb found.0 c) _ _ (λ b late. late) tt)

  read_bytes-IsEarly : (m : Machine Pages) (a n : ℕ) → IsEarly (read_bytes m a n)
  unfolding read_bytes validate_readable_range
  read_bytes-IsEarly m a n =
      IsEarly-then (validate_readable_range m.pages a n) _
        (if-IsEarly (n == 0) (ok tt) _ tt (
          IsEarly-then (ok_or _ (checked_add a n)) _
            (ok_or-IsEarly _ (checked_add a n) (λ b late. late))
            (λ end.
              walk-IsEarly (next_region m.pages) _ end n a (next_region-IsEarly m.pages)
                (λ b late. late))))
        (λ checked. tt)

  validate_bytes-IsEarly :
      (m : Machine Pages) (a : ℕ) (expected replacement : List ℕ)
      → IsEarly (validate_bytes m a expected replacement)
  unfolding validate_bytes validate_lengths classify_bytes
  validate_bytes-IsEarly m a expected replacement =
      IsEarly-then (validate_lengths expected replacement) _
        (if-IsEarly (is_empty replacement) _ _ (λ b late. late)
          (if-IsEarly (not (length expected == length replacement)) _ _ (λ b late. late) tt))
        (λ checked.
          IsEarly-then (read_bytes m a (length expected)) _
            (read_bytes-IsEarly m a (length expected))
            (λ actual.
              if-IsEarly (list_eq actual replacement) _ _ tt
                (if-IsEarly (list_eq actual expected) _ _ tt (λ b late. late))))

  writable-IsEarly :
      (pages : Pages) (a n : ℕ) → IsEarly (writable_protection_for_single_region pages a n)
  unfolding writable_protection_for_single_region
  writable-IsEarly pages a n =
      IsEarly-then (ok_or _ (checked_add a n)) _
        (ok_or-IsEarly _ (checked_add a n) (λ b late. late))
        (λ end. IsEarly-then (query_readable pages a) _ (query_readable-IsEarly pages a) (λ found.
          let base = bit_and found.1 0xFF in
          if-IsEarly (ltb found.0 end) _ _ (λ b late. late)
            (if-IsEarly {A = ℕ}
              (base == os.flags.page_execute_read
                || base == os.flags.page_execute_readwrite
                || base == os.flags.page_execute_writecopy)
              (ok os.flags.page_execute_readwrite) (ok os.flags.page_readwrite) tt tt)))

  -- A late error stands for a write that is made, at the address that it names.
  abbrev pub TellsLate : Bytes → ℕ → List ℕ → Checked WriteState × Machine Pages → Type 0
  TellsLate mem a replacement (ok s, m') = Unit
  TellsLate mem a replacement (err e, m') =
      (b : ℕ) → IsLateAt b e → (a ≡ b) × (m'.bytes ≡ poke mem a replacement)

  early-TellsLate :
      (mem : Bytes) (a : ℕ) (replacement : List ℕ) (e : MemoryError) (m' : Machine Pages)
      → ((b : ℕ) → ¬ IsLateAt b e)
      → TellsLate mem a replacement (err e, m')
  early-TellsLate mem a replacement e m' early b late = absurd (early b late)

  verified-TellsLate :
      (after m : Machine Pages) (mem : Bytes) (a : ℕ) (replacement : List ℕ) (x y : Option String)
      → m.bytes ≡ poke mem a replacement
      → TellsLate mem a replacement (verify_write after a replacement x y, m)
  unfolding verify_write
  verified-TellsLate after m mem a replacement (some x) y now = λ b late. (late, now)
  verified-TellsLate after m mem a replacement none (some y) now = λ b late. (late, now)
  verified-TellsLate after m mem a replacement none none now =
      read _ (read_bytes-IsEarly after a (length replacement))
    where
      read :
          (r : Checked (List ℕ))
          → IsEarly r
          → TellsLate mem a replacement (
            (r >>= λ actual.
                if list_eq actual replacement
                then ok applied
                else err (write_verification a replacement actual)),
            m,
          )
      read (err e) early = early-TellsLate mem a replacement e m early
      read (ok actual) early = elim (Bool-cases (list_eq actual replacement)) [
        | inl same ↦ rw same tt
        | inr other ↦ rw other (λ b late. (late, now))
      ]

  write_unprotected-TellsLate :
      (m : Machine Pages) (a : ℕ) (replacement : List ℕ) (p : Pages) (old : Option ℕ)
      → TellsLate m.bytes a replacement (write_unprotected m a replacement p old)
  unfolding write_unprotected
  write_unprotected-TellsLate m a replacement p none = λ b late. absurd late
  write_unprotected-TellsLate m a replacement p (some old) =
      verified-TellsLate _ _ m.bytes a replacement _ _ refl

  write_region-TellsLate :
      (m : Machine Pages) (a : ℕ) (replacement : List ℕ) (w : Checked ℕ)
      → IsEarly w
      → TellsLate m.bytes a replacement (write_region m a replacement w)
  unfolding write_region
  write_region-TellsLate m a replacement (err e) early =
      early-TellsLate m.bytes a replacement e m early
  write_region-TellsLate m a replacement (ok writable) early =
      write_unprotected-TellsLate m a replacement _ _

  write_classified-TellsLate :
      (m : Machine Pages) (a : ℕ) (replacement : List ℕ) (c : Checked WriteState)
      → IsEarly c
      → TellsLate m.bytes a replacement (write_classified m a replacement c)
  unfolding write_classified
  write_classified-TellsLate m a replacement (err e) early =
      early-TellsLate m.bytes a replacement e m early
  write_classified-TellsLate m a replacement (ok already_applied) early = tt
  write_classified-TellsLate m a replacement (ok applied) early =
      write_region-TellsLate m a replacement _ (writable-IsEarly m.pages a (length replacement))

  pub write_checked-TellsLate :
      (m : Machine Pages) (a : ℕ) (expected replacement : List ℕ)
      → TellsLate m.bytes a replacement (write_checked m a expected replacement)
  write_checked-TellsLate m a expected replacement =
      subst (TellsLate m.bytes a replacement)
        (sym (write_checked_classified m a expected replacement))
        (write_classified-TellsLate m a replacement _
          (validate_bytes-IsEarly m a expected replacement))
