-- ===== src/Offline/Copy.antt =====
-- The process around the copy that `validate_dunia_file` of src/patches/offline.rs makes.
use fc2_systemdetection.Memory.Bytes.{Bytes, InRange}
use fc2_systemdetection.Memory.Os.{Machine, Os}
use fc2_systemdetection.Offline.Frame.{validate_image-frame}
use fc2_systemdetection.Offline.Validate.{validate_dunia_file, with_mapping}
use fc2_systemdetection.Patches.Containment.{IsInScope, IsPatchable}
use fc2_systemdetection.Prelude.{
  All, All-Member, Bool-cases, List, Member, Result, Result-cases, String, [], arith, err, inl, inr,
  leb, ltb, map, ok, refl, subst, sym, usize_mod, ℕ, ◌&&◌, ◌+◌, ◌<◌, ◌∙◌, ◌∷◌, ◌≡◌, ◌≤◌,
}
use fc2_systemdetection.Scan.Error.{ScanScope, code_scope, read_only_data}
use fc2_systemdetection.Scan.FileImage.{FileMappedModule, from_pe_file}
use fc2_systemdetection.Scan.Layout.{IsInside}
use fc2_systemdetection.Scan.Mapped.{IsFileImage, IsMapped, from_pe_file-IsFileImage}
use fc2_systemdetection.Scan.Range.{Portex}
use fc2_systemdetection.Scan.Sections.{PeHeaders, SectionHeader, to_section}

header-IsInside :
    (size : ℕ) (hs : List SectionHeader) (h : SectionHeader)
    → All (IsInside size) (map to_section hs)
    → Member h hs
    → IsInside size (to_section h)
header-IsInside size [] h inside absent = absurd absent
header-IsInside size (k ∷ ks) h (here, inside) (inl same) =
    subst (λ x. IsInside size (to_section x)) (sym same) here
header-IsInside size (k ∷ ks) h (here, inside) (inr later) = header-IsInside size ks h inside later

-- The sections of the image that `from_pe_file` makes lie in its mapping.
scope_inside :
    (file : List ℕ) (base : ℕ) (headers : PeHeaders) (mapped : FileMappedModule) (scope : ScanScope)
    (b : ℕ)
    → IsFileImage file base headers mapped
    → IsInScope mapped.image scope b
    → InRange base mapped.image.size b
scope_inside file base headers mapped scope b f s =
    let k =
      All-Member (IsMapped file headers.section_headers) mapped.image.sections s.section f.filled
        s.in_scope.listed in
    let inside : s.section.metadata.rva + s.section.metadata.size ≤ mapped.image.size =
      rw (k.metadata_is, f.size_is)
        (header-IsInside headers.size_of_image headers.section_headers k.header f.acceptable.inside
          k.listed) in
    let (from, below) = s.inside in
    (omega (arith, from, f.base_is), omega (arith, below, f.base_is, inside))

patchable_inside :
    (file : List ℕ) (base : ℕ) (headers : PeHeaders) (mapped : FileMappedModule) (b : ℕ)
    → IsFileImage file base headers mapped
    → IsPatchable mapped.image b
    → InRange base mapped.image.size b
patchable_inside file base headers mapped b f (inl s) =
    scope_inside file base headers mapped code_scope b f s
patchable_inside file base headers mapped b f (inr s) =
    scope_inside file base headers mapped read_only_data b f s

with_mapping_outside :
    (mem : Bytes) (base size : ℕ) (mapping : Bytes) (b : ℕ)
    → ¬ InRange base size b
    → with_mapping mem base size mapping b ≡ mem b
with_mapping_outside mem base size mapping b out =
    elim (Bool-cases (leb base b && ltb b (base + size))) [
      | inr elsewhere ↦ rw elsewhere refl
      | inl inside ↦ absurd (out (ground arith, ground arith))
    ]

from_pe_file_parsed :
    {PortexError : Type 0} (portex : Portex PortexError) (base : ℕ) (file : List ℕ)
    (mapped : FileMappedModule)
    → from_pe_file portex base file ≡ ok mapped
    → (headers : PeHeaders) × (portex.from_slice file ≡ ok headers)
unfolding from_pe_file
from_pe_file_parsed portex base file mapped e = elim (Result-cases (portex.from_slice file)) [
  | inl found ↦ found
  | inr (fault, refused) ↦ absurd (ground (arith, rw refused at e))
]

-- Where the image sizes that Portex parses fit a `usize`, `validate_dunia_file` leaves every byte of
-- the process outside the heap copy of the image as it was, whatever it returns; if the file cannot
-- be read or mapped it changes no byte.
pub validate_dunia_file-frame :
    {Pages PortexError : Type 0} ⦃os : Os Pages⦄ (portex : Portex PortexError) (m : Machine Pages)
    (heap : ℕ) (read : Result String (List ℕ)) (b : ℕ)
    → ((file : List ℕ) (headers : PeHeaders)
        → portex.from_slice file ≡ ok headers
        → headers.size_of_image < usize_mod)
    → ((file : List ℕ) (mapped : FileMappedModule)
        → read ≡ ok file
        → from_pe_file portex heap file ≡ ok mapped
        → ¬ InRange heap mapped.image.size b)
    → (validate_dunia_file portex m heap read).1.bytes b ≡ m.bytes b
unfolding validate_dunia_file
validate_dunia_file-frame portex m heap (err e) b small out = refl
validate_dunia_file-frame portex m heap (ok file) b small out =
    elim (Result-cases (from_pe_file portex heap file)) [
      | inr (e, refused) ↦ rw (refused, validate_dunia_file) refl
      | inl (mapped, made) ↦
          let (headers, parsed) = from_pe_file_parsed portex heap file mapped made in
          let f =
            from_pe_file-IsFileImage portex heap file headers mapped parsed
              (small file headers parsed) made in
          let outside = out file mapped refl made in
          rw (made, validate_dunia_file)
            (validate_image-frame b _ mapped.image _
                (λ p. outside (patchable_inside file heap headers mapped b f p))
              ∙ with_mapping_outside m.bytes heap mapped.image.size mapped.mapping b outside)
    ]
