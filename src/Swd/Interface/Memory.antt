-- ===== src/Swd/Interface/Memory.antt =====
-- Memory access of `SwdInterface` in airfrog-swd/src/interface.rs: single words, and bulk reads in
-- chunks that end at each 1 KB boundary, where TAR may stop counting up.
pub mod Chunks
pub mod Reports
use airfrog.Prelude.{
  ℕ, zero, suc, ◌+◌, ◌-◌, ◌*◌, ◌/◌, ◌%◌, ◌^◌, ◌==◌, Bool, true, false, not, ◌||◌, ◌&&◌, min,
  bit_and, List, [], ◌∷◌, ◌++◌, if◌then◌else◌, length, take, drop, Option, some,
}
use airfrog.Bin.Error.{Result, ok, err}
use airfrog.Core.Csw
use airfrog.Core.Select
use airfrog.Core.CtrlStat.{set_cdbgpwrupreq, set_csyspwrupreq, cdbgpwrupack, csyspwrupack}
use airfrog.Swd.Error.{SwdError}
use airfrog.Swd.Interface.State.{
  Transport, Interface, Act, continue, ◌>>=◌, ◌>>◌, check_version, pure,
}
use airfrog.Swd.Interface.Access.{
  ctrl_stat_address, update_dp_select, write_dp_register, read_dp_register, write_ap_register,
  read_ap_register,
}
use airfrog.Swd.Interface.Bulk.{
  BulkError, Stored, BulkRead, step, drw_address, stopping, write_drw_bulk, read_drw_bulk,
}

abbrev pub csw_address : ℕ
csw_address = 0x00

abbrev pub tar_address : ℕ
tar_address = 0x04

abbrev pub idr_address : ℕ
idr_address = 0xfc

-- `SWD_MEMORY_BOUNDARY`
abbrev pub memory_boundary : ℕ
memory_boundary = 0x400

-- The words read in one round: those before the next boundary, and no more than are wanted.
unfoldable pub chunk_size : ℕ → ℕ → ℕ
chunk_size addr remaining =
    min remaining ((memory_boundary - bit_and addr (memory_boundary - 1)) / 4)

-- `.map_err(|(e, partial)| (e, total_read + partial))?`
abbrev pub after_chunk : {W : Type 0} → List ℕ → Stored W → (List ℕ → BulkRead W) → Stored W
after_chunk words ((ok _, more), s) f = f more s
after_chunk words ((err (BulkError.stopped e n), more), s) f =
    ((err (BulkError.stopped e (length words + n)), words ++ more), s)
after_chunk words ((err BulkError.panicked, more), s) f =
    ((err BulkError.panicked, words ++ more), s)

-- `.map_err(|(e, partial)| (e, total_written + partial))`
abbrev pub adding :
    {W : Type 0}
    → ℕ
    → Result BulkError (Unit {0}) × Interface W
    → Result BulkError (Unit {0}) × Interface W
adding total (ok _, s) = (ok tt, s)
adding total (err (BulkError.stopped e n), s) = (err (BulkError.stopped e (total + n)), s)
adding total (err BulkError.panicked, s) = (err BulkError.panicked, s)

module _ (t : Transport) where
  -- The last step of `read_mem` and `write_mem`, if TAR has been read back right.
  abbrev pub if_tar : {A : Type 0} → ℕ → ℕ → Act t.Wire SwdError A → Act t.Wire SwdError A
  if_tar addr readback act s =
      if addr == readback then act s else (err SwdError.operation_failed, s)

  unfoldable pub read_mem : ℕ → Act t.Wire SwdError ℕ
  read_mem addr = do
    write_ap_register t tar_address addr
    tar_readback ← read_ap_register t tar_address
    if_tar addr tar_readback (read_ap_register t drw_address)

  unfoldable pub write_mem : ℕ → ℕ → Act t.Wire SwdError (Unit {0})
  write_mem addr word = do
    write_ap_register t tar_address addr
    tar_readback ← read_ap_register t tar_address
    if_tar addr tar_readback (write_ap_register t drw_address word)

  -- The loop of `read_mem_bulk`; a round reads at least one word, so that as many rounds as there
  -- are words are enough.
  unfoldable pub read_chunks : ℕ → ℕ → ℕ → Bool → List ℕ → BulkRead t.Wire
  read_chunks zero addr remaining fast words s = ((ok tt, words), s)
  read_chunks (suc rounds) addr remaining fast words s =
      if remaining == 0
      then ((ok tt, words), s)
      else (let chunk = chunk_size addr remaining in
          step words (write_ap_register t tar_address addr s) (λ _ s₁.
            after_chunk words (read_drw_bulk t chunk fast s₁) (λ more s₂.
              read_chunks rounds ((addr + chunk * 4) % 2 ^ 32) (remaining - chunk) fast
                (words ++ more) s₂)))

  unfoldable pub read_mem_bulk : ℕ → ℕ → Bool → BulkRead t.Wire
  read_mem_bulk addr count fast s =
      if not (bit_and addr 0x3 == 0)
      then ((err (BulkError.stopped SwdError.api 0), []), s)
      else read_chunks count addr count fast [] s

  -- The loop of `write_mem_bulk`, which takes its words in the same chunks.
  unfoldable pub write_chunks : ℕ → ℕ → List ℕ → Bool → ℕ → Act t.Wire BulkError (Unit {0})
  write_chunks rounds addr [] fast written s = (ok tt, s)
  write_chunks zero addr words fast written s = (ok tt, s)
  write_chunks (suc rounds) addr words fast written s =
      let chunk = chunk_size addr (length words) in
      continue (stopping written (write_ap_register t tar_address addr s)) (λ _ s₁.
        continue (adding written (write_drw_bulk t (take chunk words) fast s₁)) (λ _.
          write_chunks rounds ((addr + chunk * 4) % 2 ^ 32) (drop chunk words) fast
            (written + chunk)))

  unfoldable pub write_mem_bulk : ℕ → List ℕ → Bool → Act t.Wire BulkError (Unit {0})
  write_mem_bulk addr buf fast s =
      if not (bit_and addr 0x3 == 0)
      then (err (BulkError.stopped SwdError.api 0), s)
      else write_chunks (length buf) addr buf fast 0 s

  unfoldable pub power_up_debug_domain : Act t.Wire SwdError (Unit {0})
  power_up_debug_domain s =
      continue (check_version s, s)
        (λ _. do
          update_dp_select t Select.default
          write_dp_register t ctrl_stat_address (set_csyspwrupreq (set_cdbgpwrupreq 0 true) true)
          status ← read_dp_register t ctrl_stat_address
          λ s'.
              if not (cdbgpwrupack status) || not (csyspwrupack status)
              then (err SwdError.operation_failed, s')
              else (ok tt, record s' { powered_up = true }))

  abbrev pub addrinc_of : Bool → ℕ
  addrinc_of addr_inc = if addr_inc then Csw.addrinc_single else Csw.addrinc_off

  abbrev store_addr_inc : Bool → Act t.Wire SwdError (Unit {0})
  store_addr_inc b s = (ok tt, record s { addr_inc = b })

  abbrev store_idr : ℕ → Act t.Wire SwdError (Unit {0})
  store_idr idr s = (ok tt, record s { idr = some idr })

  -- The readback and the IDR are compared with what is expected only to log a warning.
  unfoldable pub configure_mem_ap : Act t.Wire SwdError (Unit {0})
  configure_mem_ap s =
      if s.check_power && not s.powered_up
      then (err SwdError.not_ready, s)
      else (do
        _ ← read_ap_register t csw_address
        λ s₁.
            write_ap_register t csw_address (Csw.set_addrinc Csw.default (addrinc_of s₁.addr_inc))
              s₁
        csw_readback ← read_ap_register t csw_address
        store_addr_inc (not (Csw.addrinc csw_readback == Csw.addrinc_off))
        idr ← read_ap_register t idr_address
        store_idr idr)
          s

  -- The rest of `set_addr_inc` when CSW has to change.
  unfoldable pub change_addr_inc : ℕ → Act t.Wire SwdError (Unit {0})
  change_addr_inc csw = do
    write_ap_register t csw_address csw
    final_csw ← read_ap_register t csw_address
    λ s. if final_csw == csw then (ok tt, s) else (err SwdError.operation_failed, s)

  unfoldable pub set_addr_inc : Bool → Act t.Wire SwdError (Unit {0})
  set_addr_inc addr_inc = do
    csw ← read_ap_register t csw_address
    λ s.
        if (Csw.addrinc csw == Csw.addrinc_off && not addr_inc)
          || (Csw.addrinc csw == Csw.addrinc_single && addr_inc)
        then (ok tt, s)
        else change_addr_inc (Csw.set_addrinc csw (addrinc_of addr_inc)) s
