-- ===== src/Core/Stm/Sectors.antt =====
-- The flash sectors of `StmDetails` in airfrog-core/src/stm.rs. `get_sectors_from_word_range` fills
-- an array from its start and returns how many entries it filled; here it returns those entries.
pub mod Ranges
use airfrog.Prelude.{
  ℕ, ◌+◌, ◌-◌, ◌*◌, ◌%◌, ◌^◌, suc, Bool, true, false, ◌&&◌, not, ltb, leb, if◌then◌else◌, Option,
  none, some, List, [], ◌∷◌, take, get_or,
}
use airfrog.Core.Stm.{StmDetails, is_stm32f4, flash_size_bytes}

abbrev pub kb : ℕ → ℕ
kb n = n * 1024

abbrev pub max_sectors : ℕ
max_sectors = 12

-- `SECTOR_SIZES_BYTES`
abbrev pub sector_sizes : List ℕ
sector_sizes =
    kb 16
    ∷ kb 16
    ∷ kb 16
    ∷ kb 64
    ∷ kb 128
    ∷ kb 128
    ∷ kb 128
    ∷ kb 128
    ∷ kb 128
    ∷ kb 128
    ∷ kb 128
    ∷ kb 128
    ∷ []

-- The summing loop of `get_sector_size_bytes`: whether the total stays within the flash.
unfoldable pub sum_fits : ℕ → ℕ → List ℕ → Bool
sum_fits total_size flash_size [] = true
sum_fits total_size flash_size (size ∷ rest) =
    let more = sum_fits (total_size + size) flash_size rest in
    if ltb flash_size (total_size + size) then false else more

-- `self.flash_size_bytes()?` and what follows it.
unfoldable pub sector_size_within : ℕ → Option ℕ → Option ℕ
sector_size_within sector (some flash_size) =
    if sum_fits 0 flash_size (take (sector + 1) sector_sizes)
    then some (get_or sector_sizes sector 0)
    else none
sector_size_within sector none = none

unfoldable pub get_sector_size_bytes : StmDetails → ℕ → Option ℕ
get_sector_size_bytes d sector =
    if not (is_stm32f4 d)
    then none
    else if ltb sector max_sectors
    then sector_size_within sector (flash_size_bytes d)
    else none

-- The loop of `get_sectors_from_word_range` over the sectors that are left, from number
-- `sector_num` at `current_address` on.
unfoldable pub sectors_from : ℕ → ℕ → ℕ → ℕ → List ℕ → List ℕ
sectors_from start_bytes range_end_bytes sector_num current_address [] = []
sectors_from start_bytes range_end_bytes sector_num current_address (sector_size ∷ rest) =
    let next_address = current_address + sector_size in
    let later = sectors_from start_bytes range_end_bytes (sector_num + 1) next_address rest in
    let more = if ltb range_end_bytes next_address then [] else later in
    if leb start_bytes (current_address + sector_size - 1) && leb current_address range_end_bytes
    then sector_num ∷ more
    else more

-- From the checks on. The bytes are computed in `u32`, which wraps.
unfoldable pub sectors_within : ℕ → ℕ → Option ℕ → Option (List ℕ)
sectors_within start_word end_word (some flash_size) =
    let start_bytes = start_word * 4 % 2 ^ 32 in
    let end_bytes = end_word * 4 % 2 ^ 32 in
    if ltb flash_size ((end_bytes + 4) % 2 ^ 32)
    then none
    else some (sectors_from start_bytes (end_bytes + 3) 0 0 sector_sizes)
sectors_within start_word end_word none = none

unfoldable pub get_sectors_from_word_range : StmDetails → ℕ → ℕ → Option (List ℕ)
get_sectors_from_word_range d start_word end_word =
    if not (is_stm32f4 d)
    then none
    else if ltb end_word start_word
    then none
    else sectors_within start_word end_word (flash_size_bytes d)
