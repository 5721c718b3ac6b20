-- ===== src/CairoRun/Layout.antt =====
-- cairo_run/cairo_layout.rs: the layouts of a run by name.
use Prim.Native.String.{String}

pub data CairoLayout : Type 0 where
  plain small dex recursive starknet starknet_with_keccak recursive_large_output all_cairo
        all_solidity dynamic :
      CairoLayout

unfoldable pub as_str : CairoLayout → String
as_str plain = "plain"
as_str small = "small"
as_str dex = "dex"
as_str recursive = "recursive"
as_str starknet = "starknet"
as_str starknet_with_keccak = "starknet_with_keccak"
as_str recursive_large_output = "recursive_large_output"
as_str all_cairo = "all_cairo"
as_str all_solidity = "all_solidity"
as_str dynamic = "dynamic"
