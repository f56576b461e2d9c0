-- ===== src/Swd/Interface/Memory/Chunks.antt =====
-- The chunks of a bulk read.

use airfrog.Prelude.{ℕ, ◌+◌, ◌*◌, ◌%◌, ◌≡◌, ◌≤◌, ◌<◌, arith}
use airfrog.Prelude.Bits.{bit_and_low_mask}
use airfrog.Swd.Interface.Memory.{chunk_size}

-- A chunk that starts at a word's address is not empty if words are wanted, has no more words than
-- that, and ends within the 1 KB block in which it starts.
pub chunk_size-bounds :
    (addr remaining : ℕ)
    → addr % 4 ≡ 0
    → 0 < remaining
    → (0 < chunk_size addr remaining)
      × (chunk_size addr remaining ≤ remaining)
      × (addr % 1024 + 4 * chunk_size addr remaining ≤ 1024)
unfolding chunk_size
chunk_size-bounds addr remaining a r = let low = bit_and_low_mask 10 addr in omega (arith, low)
