-- ===== src/Inet.antt =====
-- include/inet.h: addresses of either family.
pub mod Parse
use honas.Common.{ℕ, List}

-- `struct in_addr46`: the address in network byte order. `unsupported` is any other family, 0 among
-- them.
pub data InAddr46 : Type 0 where
  addr4 : List ℕ → InAddr46
  addr6 : List ℕ → InAddr46
  unsupported : InAddr46
