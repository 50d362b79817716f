-- ===== src/Lib.antt =====
-- par2rust creates PAR2 recovery sets. This library models the arithmetic and the formats that
-- decide whether a set can repair its files, and proves them correct.
--
-- The parts and their files:
--
-- Galois models src/galois.rs: the field GF(2^16) by tables of logarithms. `gf16_tables`,
-- `gf_mul`, `gf_pow` and `gf_inv` have the names of the source; a table is a function from its
-- index. Under Galois, Double and Powers follow the loop of `build_tables`, Tables says what it
-- leaves in the tables, and Field, Inverse, Repeated and Polynomial prove the laws.
-- Buffer holds the loops over little-endian symbols that all kernels share, and Buffer/Symbols
-- the contract of a kernel, `AddsProduct`.
-- ReedSolomon models src/reedsolomon.rs: `generate_input_bases`, `RsEncoder::new`, `coefficient`
-- and the scalar kernel.
-- GaloisSimd models src/galois_simd.rs and src/galois_simd/gfni.rs: the byte tables and the nibble
-- tables, GaloisSimd/X86 the SSSE3 and AVX2 kernels, GaloisSimd/Neon the NEON kernel,
-- GaloisSimd/Gfni the matrices and the two GFNI kernels, GaloisSimd/Dispatch what a machine selects.
-- GaloisSimd/Vectors has the instructions of std::arch that they use, as functions on the bytes of a
-- vector, and GaloisSimd/Wide the loop over chunks that all of them run. Under Gfni, Digits and
-- Packing are about binary digits and the rows of a packed matrix, and Matrices shows what a matrix
-- does to a byte.
-- Format models src/format.rs, and Format/Framing has a reader of packets written from the format.
-- Packet models src/packet: a builder for each kind of packet. Packet/Bodies has their sizes,
-- Packet/Sorting the order of the file ids, Packet/Reading and Packet/Comments what is read back.
-- Encode models the pass of src/creator.rs over the input slices, `encode_all_recovery_blocks`.
-- It takes a kernel with its contract, which Encode/Kernels fills with whatever a machine selects.
-- Encode/Order is about the order of the slices, and Encode/Tiled
-- models the inner loop in blocks of a slice. Encode/Fused models the pass of
-- the fused run over one mapped file, `encode_file_slices_into_buffers`.
-- Error models src/error.rs.
-- Source models src/source.rs: `scan_with_progress` with its guards, the scan over a map of the file
-- and the scan by reads, `read_full` and `compute_file_id`. Source/Reads is about reads that are
-- short, Source/Scans about what both scans deliver. Source/Progress models how the workers of a
-- scan
-- count slices and publish progress events, as steps that come in any order.
-- Md5Neon models src/md5_mb_neon.rs: `digest4`, with the padding of each lane; Md5Neon/Block has the
-- macro `step!` and `md5_block`, Vectors the NEON instructions on words. Md5Neon/Reference writes
-- MD5 from RFC 1321, with the constants computed from the series of the sine. Rounds and Blocks
-- follow the words of one lane, Loads and Padding the blocks that it reads, Digests the whole.
-- Volume models `VolumeScheme` and `resolve_volume_sizes` of src/creator.rs with the splits.
-- Create models `run_create_with_progress` of src/creator.rs: the guards in order, the critical
-- packets, the ranges of the volumes and the files that are written. Create/Guards is about the
-- guards, Create/Suggestion about the slice size that an error suggests, Create/Volumes about what
-- the volumes hold and what they read back to. Create/Fused models
-- `run_create_fused` with its fall back; Counts counts the slices of a file, Passes follows the loop
-- over mapped files, Agreement compares the two runs, and Fallback is about the
-- run that is fallen back on.
-- Create/Delivery models `SourceReader` and the order in which the pass opens and reads the files.
-- Create/Paths models paths and `derive_volume_filename`, Create/Paths/Files `write_atomic` with
-- what the operating system may refuse; Names and Atomic are about them.
-- Cli models the values of src/main.rs: `parse_slice_size`, `Redundancy` and its `from_str`,
-- `resolve_redundancy` and `build_volume_scheme`. Cli/Numbers is about numbers in decimal digits,
-- Cli/Choices describes what the flags for volumes ask for, Blocks what `-r` does. Cli/Inputs
-- models the list of inputs
-- and the walk of directories, Cli/Run `run_create_cli` and the exit code, with Requests and
-- Agreement
-- about what is asked for and what comes of it, Cli/Reporter
-- `CliReporter` over progress bars that are a crate's, `BarOps`; under them are the proofs.
-- Base has the shared helpers: lists and tests over native numbers, bits, little-endian bytes,
-- and `Checked` for code that may panic. Tests has the runs at concrete inputs.
--
-- How the source corresponds: a byte is a number below 2^8 and a buffer a list of bytes. A number
-- of w bits keeps its wrap-around as `% 2 ^ w` where the source can wrap. A panic, a failed
-- assertion or debug assertion, and an index out of range are `none` of `Checked`. A Rust error is
-- a constructor of `Result`; its text is a constructor with the numbers that it prints. A loop
-- that mutates a buffer is a recursion that returns the new buffer.
--
-- Fuel: `gcd` has one round more than its second argument, which decreases; Gcd shows the equation
-- of the source. The exponential split has as many rounds as blocks, each of which hands out at
-- least one. The cut at a cap has as many rounds as blocks, each of which takes a positive cap.
-- The padding of a comment has three rounds. `read_full` has as many rounds as
-- the buffer has free bytes, and the scan by reads one more than the file has bytes: each round but
-- the last reads one. The theorems on sums and on alignment show that all
-- of these are enough.
--
-- MD5 and CRC-32 are crates and are parameters: `Md5`, a function from bytes to 16 bytes, with its
-- streaming form `Md5Ctx`, and a function from bytes to a number. That the streaming form digests
-- the pieces joined is the hypothesis `Streams`. What the operating system does with a path, and how
-- many bytes each read gives, are arguments of the scan.
--
-- Not modelled: when the events of the encoding are published, and paths on Windows. The walk of a
-- directory is a crate's and an argument. The run takes the naming of volumes as a parameter, and
-- its writes succeed; file input and output are outside. The workers of the pass write disjoint
-- rows, and the model computes the rows one after the other; the workers of a scan hash disjoint
-- slices, and the model lists their checksums in order.
pub mod Base
pub mod Galois
pub mod Buffer
pub mod ReedSolomon
pub mod GaloisSimd
pub mod Format
pub mod Packet
pub mod Encode
pub mod Volume
pub mod Error
pub mod Md5Neon
pub mod Source
pub mod Create
pub mod Cli
pub mod Tests
