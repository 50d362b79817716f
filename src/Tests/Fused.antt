-- ===== src/Tests/Fused.antt =====
-- The fused run over two files that can be mapped.
use par2rust.Base.{
  ℕ, ◌≡◌, refl, ◌^◌, ◌<◌, arith, List, [], ◌∷◌, length, All, if◌then◌else◌, ◌==◌, some,
}
use par2rust.Buffer.{IsBytes}
use par2rust.Error.{gives}
use par2rust.Encode.Kernels.{table_kernel}
use par2rust.Source.{FileSystem, contains_nul, source_file, par_chunks, chunks_on}
use par2rust.Create.{run_create, total_input_blocks, div_ceil}
use par2rust.Create.Guards.{Admissible}
use par2rust.Create.Fused.{Input, run_create_fused, total_slices}
use par2rust.Create.Fused.Passes.{AreMapped, no_files, one_more, slices_of, sources_of, scan_of}
use par2rust.Create.Fused.Agreement.{run_create_fused-run_create}
use par2rust.Create.Fused.Fallback.{IsReadable, AreReadable, after_scans-run_create}
use par2rust.Create.Fused.Fallback
use par2rust.Source.Reads.{Delivers, is_answered}
use par2rust.Create.Fused.{after_scans}
use par2rust.Base.{none, inl}
use par2rust.Source.{up_to}
use par2rust.Tests.Packets.{constant_md5}
use par2rust.Tests.Creation.{opts}
use par2rust.Tests.Scans.{keeping, keeping-Streams}
use par2rust.Create.Delivery.{delivered_slices}
use par2rust.Create.Delivery.Slices.{delivered_slices-slices_of}

-- The file at a path of one byte, and the one at any other.
abbrev pub contents : List ℕ → List ℕ
contents path = if length path == 1 then 1 ∷ 2 ∷ 3 ∷ 4 ∷ 5 ∷ 6 ∷ 7 ∷ 8 ∷ 9 ∷ [] else 0xff ∷ []

abbrev fs : FileSystem
fs = record {
  metadata = λ path. gives (length (contents path));
  open_file = λ path. gives (record {
    reader = record { rest = contents path; answers = [] };
    mmap = some (contents path);
  });
}

abbrev first_input : Input
first_input = record { path = b'a' ∷ []; display_name = b'a' ∷ [] }

abbrev second_input : Input
second_input = record { path = b'/' ∷ b'b' ∷ []; display_name = b'b' ∷ [] }

abbrev inputs : List Input
inputs = first_input ∷ second_input ∷ []

abbrev pub files : List (List ℕ)
files = contents first_input.path ∷ contents second_input.path ∷ []

inputs-AreMapped : AreMapped fs 8 inputs files
unfolding contains_nul
inputs-AreMapped =
    one_more
      (record {
        named = refl;
        measured = refl;
        not_empty = omega arith;
        file = _;
        opens = refl;
        maps = refl;
        fits = omega arith;
      })
      (one_more
        (record {
          named = refl;
          measured = refl;
          not_empty = omega arith;
          file = _;
          opens = refl;
          maps = refl;
          fits = omega arith;
        })
        no_files)

files-IsBytes : All IsBytes files
files-IsBytes = (
  (
    omega arith,
    (
      omega arith,
      (
        omega arith,
        (
          omega arith,
          (omega arith, (omega arith, (omega arith, (omega arith, (omega arith, tt))))),
        ),
      ),
    ),
  ),
  ((omega arith, tt), tt),
)

inputs-Admissible : Admissible opts (sources_of constant_md5 length fs table_kernel 8 inputs files)
unfolding Admissible total_input_blocks sources_of source_file scan_of par_chunks chunks_on
inputs-Admissible = (omega arith, omega arith, omega arith, omega arith, refl, omega arith)

inputs-few : total_slices 8 (9 ∷ 1 ∷ []) < 2 ^ 64
unfolding total_slices div_ceil
inputs-few = omega arith

run_create_fused-run_create_example :
    run_create_fused constant_md5 length fs table_kernel keeping
      (λ output first count. output)
      opts
      inputs
      []
    ≡ run_create constant_md5
        (λ output first count. output)
        table_kernel
        opts
        (sources_of constant_md5 length fs table_kernel 8 inputs files)
        (slices_of 8 files)
run_create_fused-run_create_example =
    run_create_fused-run_create constant_md5 length fs table_kernel keeping
      (λ output first count. output) opts [] inputs-AreMapped files-IsBytes inputs-Admissible
      inputs-few

-- The same files where nothing can be mapped, and the first reads are short.
abbrev pub slow_fs : FileSystem
slow_fs = record {
  metadata = λ path. gives (length (contents path));
  open_file = λ path. gives (record {
    reader = record { rest = contents path; answers = up_to 0 ∷ up_to 2 ∷ [] };
    mmap = none;
  });
}

inputs-AreReadable : AreReadable slow_fs inputs files
unfolding contains_nul Delivers is_answered
inputs-AreReadable =
    Fallback.one_more
      (record {
        named = refl;
        measured = refl;
        not_empty = omega arith;
        file = _;
        opens = refl;
        maps = inl refl;
        holds = refl;
        delivers = (refl, (refl, tt));
      })
      (Fallback.one_more
        (record {
          named = refl;
          measured = refl;
          not_empty = omega arith;
          file = _;
          opens = refl;
          maps = inl refl;
          holds = refl;
          delivers = (refl, (refl, tt));
        })
        Fallback.no_files)

after_scans-run_create_example :
    after_scans constant_md5 length slow_fs table_kernel keeping
      (λ output first count. output)
      opts
      []
      []
      inputs
    ≡ run_create constant_md5
        (λ output first count. output)
        table_kernel
        opts
        (sources_of constant_md5 length slow_fs table_kernel 8 inputs files)
        []
after_scans-run_create_example =
    after_scans-run_create constant_md5 length slow_fs table_kernel keeping
      (λ output first count. output) keeping-Streams opts [] (omega arith) refl inputs-AreReadable

delivered_slices-slices_of_example :
    delivered_slices slow_fs 8 (sources_of constant_md5 length slow_fs table_kernel 8 inputs files)
    ≡ gives (slices_of 8 files)
delivered_slices-slices_of_example =
    delivered_slices-slices_of constant_md5 length slow_fs table_kernel 8 (omega arith)
      inputs-AreReadable
