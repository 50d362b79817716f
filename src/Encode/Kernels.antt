-- ===== src/Encode/Kernels.antt =====
-- Whatever a machine selects is a kernel.
use par2rust.GaloisSimd.Dispatch.{Dispatch, table_scalar, gf_mul_xor_dispatch}
use par2rust.GaloisSimd.Dispatch.Contract.{gf_mul_xor_dispatch-AddsProduct}
use par2rust.Encode.{Kernel}

abbrev pub dispatch_kernel : Dispatch → Kernel
dispatch_kernel dispatch = record {
  gf_mul_xor = gf_mul_xor_dispatch dispatch;
  adds = gf_mul_xor_dispatch-AddsProduct dispatch;
}

-- Where no vector instructions are.
abbrev pub table_kernel : Kernel
table_kernel = dispatch_kernel table_scalar
