-- ===== src/Tests/Fixture.antt =====
-- A small process with one region of pages, and a module in it.
use Prim.Native.Char.{code}
use fc2_systemdetection.Memory.Bytes.{Bytes, peek, poke}
use fc2_systemdetection.Memory.Os.{Machine, Os, PageFlags, QueryLaws, Region}
use fc2_systemdetection.Memory.Protect.{ProtectLaws}
use fc2_systemdetection.Patches.Containment.{IsPatchable}
use fc2_systemdetection.Patches.Plan.{CheckedWrite}
use fc2_systemdetection.Patches.Run.{Modules}
use fc2_systemdetection.Prelude.{
  Bool, List, Option, Result, [], arith, err, false, get_or, if◌then◌else◌, inl, inr, ltb, none, ok,
  some, suc, true, ℕ, ◌&&◌, ◌++◌, ◌+◌, ◌-◌, ◌==◌, ◌>>=◌, ◌||◌, ◌∷◌, ◌≡◌,
}
use fc2_systemdetection.Scan.FileImage.{FileMappedModule, slice, zeroed}
use fc2_systemdetection.Scan.Image.{LoadedSection, ModuleImage, from_module}
use fc2_systemdetection.Scan.Range.{Portex, ReadFault}
use fc2_systemdetection.Scan.Sections.{PeHeaders, SectionHeader, to_section}
use fc2_systemdetection.Scan.Snapshot.{from_module-IsSnapshot}

abbrev pub win_flags : PageFlags
win_flags = record {
  mem_commit = 0x1000;
  page_guard = 0x100;
  page_readonly = 0x02;
  page_readwrite = 0x04;
  page_writecopy = 0x08;
  page_execute_read = 0x20;
  page_execute_readwrite = 0x40;
  page_execute_writecopy = 0x80;
}

-- One committed region of 64 KiB at address 0.
abbrev pub region : Region
region = record { base_address = 0; region_size = 0x10000; state = 0x1000; protect = 0x20 }

abbrev pub query : ℕ → Option Region
query a = if ltb a 0x10000 then some region else none

-- Every call succeeds.
instance abbrev pub calm_os : Os (Unit {0})
calm_os = record {
  flags = win_flags;
  virtual_query = λ p a. query a;
  virtual_protect = λ p a n protection. (p, some 0x20);
  flush_instruction_cache = λ p a n. (p, true);
  last_os_error = λ p. "";
}

-- Pages count the calls of `VirtualProtect`; the second call and all later ones are refused.
instance abbrev pub refusing_os : Os ℕ
refusing_os = record {
  flags = win_flags;
  virtual_query = λ p a. query a;
  virtual_protect = λ p a n protection. (suc p, if p == 0 then some 0x20 else none);
  flush_instruction_cache = λ p a n. (p, true);
  last_os_error = λ p. "access denied";
}

pub calm_laws : QueryLaws calm_os
calm_laws = record {
  covers = λ p a r found. (ground (arith, query), ground (arith, query));
  fits = λ p a r found. ground (arith, query);
  uniform = λ p a b r found inside.
      (region, ground (arith, query), ground (arith, query), ground (arith, query));
}

pub calm-ProtectLaws : ProtectLaws calm_os
calm-ProtectLaws = record {
  queries = calm_laws;
  keeps = λ p a n protection old last one positive granted restored b k several page kept. kept;
  flush_keeps = λ p a n b k kept. kept;
}

-- The code of the module, behind one other byte: an occurrence of the signature `jackal_tapes`.
abbrev pub code_bytes : List ℕ
code_bytes = 0x90 ∷ 0x80 ∷ 0x7E ∷ 0x74 ∷ 0x00 ∷ 0x75 ∷ 0x0A ∷ 0x3B ∷ 0xCA ∷ 0x75 ∷ []

-- The code stands at 0x1040; all other bytes are 0.
abbrev pub memory : Bytes
memory a = if ltb a 0x1040 then 0 else get_or code_bytes (a - 0x1040) 0

abbrev pub calm : Machine (Unit {0})
calm = record { bytes = memory; pages = tt }

abbrev pub refusing : Machine ℕ
refusing = record { bytes = memory; pages = 0 }

abbrev pub text_header : SectionHeader
text_header = record {
  name_str = ".text";
  virtual_size = 16;
  virtual_address = 0x40;
  size_of_raw_data = 12;
  pointer_to_raw_data = 0;
  is_executable = true;
  is_readable = true;
  is_writable = false;
}

abbrev pub rdata_header : SectionHeader
rdata_header = record text_header {
  name_str = ".rdata";
  virtual_address = 0x80;
  is_executable = false;
}

abbrev pub headers : PeHeaders
headers = record {
  is_64bit = false;
  is_i386 = true;
  machine = 0x14C;
  is_dll = true;
  size_of_image = 0x100;
  section_headers = text_header ∷ rdata_header ∷ [];
}

-- A parser that reads two bytes and then returns these headers.
abbrev pub portex : Portex ReadFault
portex = record {
  generic = λ fault. fault;
  to_text = λ fault. "";
  from_slice = λ file. ok headers;
  read_from = λ read_at size. read_at 0 2 >>= λ magic. ok headers;
}

abbrev pub load_section : SectionHeader → LoadedSection
load_section h = record {
  metadata = to_section h;
  bytes = peek memory (0x1000 + h.virtual_address) 16;
}

abbrev pub image : ModuleImage
image = record {
  base = 0x1000;
  size = 0x100;
  sections = load_section text_header ∷ load_section rdata_header ∷ [];
}

-- The write of `jackal_tapes`, and one to the byte before the code.
abbrev pub write : CheckedWrite
write = record { address = 0x1046; expected = 0x0A ∷ []; replacement = 0x14 ∷ [] }

abbrev pub other_write : CheckedWrite
other_write = record { address = 0x1040; expected = 0x91 ∷ []; replacement = 0x92 ∷ [] }

abbrev pub modules : Modules (Unit {0}) ℕ
modules = record {
  handle = λ p. some 0x1000;
  information = λ p h. ok (0x1000, 0x100);
  file_name = λ p h capacity. record { returned = 1; buffer = 0x41 ∷ []; error = "" };
  metadata_len = λ path. some 5;
}

-- A file of 15 bytes: a magic number, the offset of the raw data, and the raw data of both
-- sections.
abbrev pub file : List ℕ
file = 0x4D ∷ 0x5A ∷ 3 ∷ code_bytes ++ (0xC3 ∷ 0xC3 ∷ [])

-- The headers of a file whose raw data start at an offset.
abbrev pub headers_at : ℕ → PeHeaders
headers_at raw_start = record headers {
  section_headers =
      record text_header { pointer_to_raw_data = raw_start }
      ∷ record rdata_header { pointer_to_raw_data = raw_start + 8; size_of_raw_data = 4 }
      ∷ [];
}

abbrev pub file_text : SectionHeader
file_text = record text_header { pointer_to_raw_data = 3 }

abbrev pub file_rdata : SectionHeader
file_rdata = record rdata_header { pointer_to_raw_data = 11; size_of_raw_data = 4 }

abbrev pub file_headers : PeHeaders
file_headers = record headers { section_headers = file_text ∷ file_rdata ∷ [] }

-- A parser that looks for the magic number and takes the offset of the raw data; `none` is the
-- error of a file that does not start so.
abbrev pub parse_start : List ℕ → Result (Option ReadFault) PeHeaders
parse_start bytes =
    if get_or bytes 0 0 == 0x4D && get_or bytes 1 0 == 0x5A
    then ok (headers_at (get_or bytes 2 0))
    else err none

abbrev pub file_portex : Portex (Option ReadFault)
file_portex = record {
  generic = some;
  to_text = λ fault. "";
  from_slice = parse_start;
  read_from = λ read_at size. read_at 0 3 >>= parse_start;
}

abbrev pub file_mapping : Bytes
file_mapping = poke (poke zeroed 0x40 (slice file 3 12)) 0x80 (slice file 11 4)

abbrev pub file_section : SectionHeader → LoadedSection
file_section h = record { metadata = to_section h; bytes = peek file_mapping h.virtual_address 16 }

abbrev pub file_mapped : FileMappedModule
file_mapped = record {
  image = record {
    base = 0x5000;
    size = 0x100;
    sections = file_section file_text ∷ file_section file_rdata ∷ [];
  };
  mapping = file_mapping;
}

-- The headers, and one byte of the first section.
abbrev pub loader_changed : ℕ → Bool
loader_changed i = ltb i 3 || i == 0x48

-- A process in which the loader has put the file at 0x1000, with its headers and one byte changed.
abbrev pub loaded_file : Machine (Unit {0})
loaded_file = record {
  bytes = λ a.
      if ltb a 0x1000
      then 0
      else if ltb a 0x1003
      then get_or file (a - 0x1000) 0
      else if a == 0x1048
      then 0x99
      else file_mapping (a - 0x1000);
  pages = tt;
}

-- The address 0 is in no section of an image that is taken of the module.
pub outside_image :
    (dunia : ℕ) (found : ModuleImage)
    → modules.handle tt ≡ some dunia
    → from_module portex calm (modules.information tt dunia) ≡ ok found
    → ¬ IsPatchable found 0
outside_image dunia found is_handle inspected patchable =
    let snapshot = from_module-IsSnapshot portex calm 0x1000 0x100 found (omega arith) inspected in
    elim patchable [
      | inl code ↦ omega (arith, snapshot.base_set, code.inside.0)
      | inr data_ ↦ omega (arith, snapshot.base_set, data_.inside.0)
    ]
