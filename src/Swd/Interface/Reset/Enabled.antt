-- ===== src/Swd/Interface/Reset/Enabled.antt =====
-- The steps of `enable_target` keep what the accesses keep, and power the debug domain up.
use airfrog.Prelude.{ℕ, Bool, true, not, ◌&&◌, ◌||◌, ◌==◌, Option, some, none}
use airfrog.Bin.Error.{Result, ok, err}
use airfrog.Core.Csw
use airfrog.Core.Select
use airfrog.Core.CtrlStat.{cdbgpwrupack, csyspwrupack}
use airfrog.Core.Cortex.{idcode_m0, idcode_m0_plus, idcode_m3, idcode_m4, idcode_m33}
use airfrog.Core.Stm.{StmDeviceId, family, known}
use airfrog.Core.Mcu.{Mcu}
use airfrog.Swd.Error.{SwdError}
use airfrog.Swd.Interface.State.{Transport, Interface, Act, check_version}
use airfrog.Swd.Interface.Access.{write_ap_register, ctrl_stat_address}
use airfrog.Swd.Interface.Memory.{
  power_up_debug_domain, configure_mem_ap, addrinc_of, csw_address, idr_address,
}
use airfrog.Swd.Interface.Identify.{
  read_uid, read_flash_size, stm_details, get_stm32, get_stm32g0_or, get_rp2040, get_mcu, known_or,
  stm32g0_idcode_address,
}
use airfrog.Swd.Interface.Reset.Steady.{
  IsSteady, Keeps, chain-Keeps, branch-Keeps, either-Keeps, idle-Keeps, read_mem-Keeps,
  read_ap_register-Keeps, write_ap_register-Keeps, read_dp_register-Keeps, write_dp_register-Keeps,
  update_dp_select-Keeps,
}

module _ (t : Transport) (P : Interface t.Wire → Type 0) (d : IsSteady t P) where
  read_uid-Keeps : (addr : Option ℕ) → Keeps t P d (read_uid t addr)
  unfolding read_uid
  read_uid-Keeps (some addr) = chain-Keeps t P d _ _ (read_mem-Keeps t P d _) (λ _.
      chain-Keeps t P d _ _ (read_mem-Keeps t P d _)
        (λ _. chain-Keeps t P d _ _ (read_mem-Keeps t P d _) (λ _. idle-Keeps t P d (λ _. ok _))))
  read_uid-Keeps none = idle-Keeps t P d (λ _. ok none)

  read_flash_size-Keeps : (addr : Option ℕ) → Keeps t P d (read_flash_size t addr)
  unfolding read_flash_size
  read_flash_size-Keeps (some addr) =
      chain-Keeps t P d _ _ (read_mem-Keeps t P d _) (λ _. idle-Keeps t P d (λ _. ok _))
  read_flash_size-Keeps none = idle-Keeps t P d (λ _. ok none)

  stm_details-Keeps : (idcode : ℕ) (id : StmDeviceId) → Keeps t P d (stm_details t idcode id)
  unfolding stm_details
  stm_details-Keeps idcode id =
      chain-Keeps t P d _ _ (read_uid-Keeps _)
        (λ _. chain-Keeps t P d _ _ (read_flash_size-Keeps _) (λ _. idle-Keeps t P d (λ _. ok _)))

  get_stm32-Keeps : (idcode : ℕ) → Keeps t P d (get_stm32 t idcode)
  unfolding get_stm32
  get_stm32-Keeps idcode =
      chain-Keeps t P d _ _ (read_mem-Keeps t P d _) (λ id. stm_details-Keeps idcode id)

  known_or-Keeps :
      (idcode : ℕ) (otherwise : Act t.Wire SwdError Mcu)
      → Keeps t P d otherwise
      → (x : Result SwdError ℕ × Interface t.Wire) → P x.1
      → P (known_or t idcode otherwise x).1
  unfolding Keeps
  known_or-Keeps idcode otherwise k (ok id, s) h =
      branch-Keeps t P d (λ _. known (family id)) (stm_details t idcode id) otherwise
        (stm_details-Keeps idcode id) k s h
  known_or-Keeps idcode otherwise k (err e, s) h = k s h

  get_stm32g0_or-Keeps :
      (idcode : ℕ) (otherwise : Act t.Wire SwdError Mcu)
      → Keeps t P d otherwise
      → Keeps t P d (get_stm32g0_or t idcode otherwise)
  unfolding get_stm32g0_or Keeps
  get_stm32g0_or-Keeps idcode otherwise k s h =
      known_or-Keeps idcode otherwise k _ (read_mem-Keeps t P d stm32g0_idcode_address s h)

  get_rp2040-Keeps : (idcode : ℕ) → Keeps t P d (get_rp2040 t idcode)
  unfolding get_rp2040
  get_rp2040-Keeps idcode =
      chain-Keeps t P d _ _ (read_mem-Keeps t P d _)
        (λ _. chain-Keeps t P d _ _ (read_mem-Keeps t P d _) (λ _. idle-Keeps t P d (λ _. ok _)))

  pub get_mcu-Keeps : (idcode : ℕ) → Keeps t P d (get_mcu t idcode)
  unfolding get_mcu
  get_mcu-Keeps idcode =
      either-Keeps t P d (idcode == idcode_m3 || idcode == idcode_m4) _ _ (get_stm32-Keeps idcode) (
        either-Keeps t P d (idcode == idcode_m0 || idcode == idcode_m0_plus) _ _
          (get_stm32g0_or-Keeps idcode _ (get_rp2040-Keeps idcode))
          (either-Keeps t P d (idcode == idcode_m33) _ _
            (idle-Keeps t P d (λ _. ok (Mcu.unknown idcode)))
            (get_stm32g0_or-Keeps idcode _ (idle-Keeps t P d (λ _. ok (Mcu.unknown idcode))))))

  store_addr_inc-Keeps :
      (b : Bool) → Keeps t P d {A = Unit {0}} (λ s. (ok tt, record s { addr_inc = b }))
  unfolding Keeps
  store_addr_inc-Keeps b s h = d.on_addr_inc s b h

  store_idr-Keeps : (v : ℕ) → Keeps t P d {A = Unit {0}} (λ s. (ok tt, record s { idr = some v }))
  unfolding Keeps
  store_idr-Keeps v s h = d.on_idr s v h

  write_csw-Keeps : Keeps t P d (λ s.
      write_ap_register t csw_address (Csw.set_addrinc Csw.default (addrinc_of t s.addr_inc)) s)
  unfolding Keeps
  write_csw-Keeps s h = write_ap_register-Keeps t P d csw_address _ s h

  pub configure_mem_ap-Keeps : Keeps t P d (configure_mem_ap t)
  unfolding configure_mem_ap
  configure_mem_ap-Keeps =
      branch-Keeps t P d (λ s. s.check_power && not s.powered_up) _ _
        (idle-Keeps t P d (λ _. err SwdError.not_ready))
        (chain-Keeps t P d _ _ (read_ap_register-Keeps t P d csw_address) (λ _.
          chain-Keeps t P d _ _ write_csw-Keeps (λ _.
            chain-Keeps t P d _ _ (read_ap_register-Keeps t P d csw_address) (λ _.
              chain-Keeps t P d _ _ (store_addr_inc-Keeps _) (λ _.
                chain-Keeps t P d _ _ (read_ap_register-Keeps t P d idr_address)
                  (λ idr. store_idr-Keeps idr))))))

  powered-Keeps : Keeps t P d {A = Unit {0}} (λ s. (ok tt, record s { powered_up = true }))
  unfolding Keeps
  powered-Keeps s h = d.on_power s h

  pub power_up_debug_domain-Keeps : Keeps t P d (power_up_debug_domain t)
  unfolding power_up_debug_domain
  power_up_debug_domain-Keeps =
      chain-Keeps t P d (λ s. (check_version s, s)) _ (idle-Keeps t P d check_version)
        (λ _. chain-Keeps t P d _ _ (update_dp_select-Keeps t P d Select.default) (λ _.
          chain-Keeps t P d _ _ (write_dp_register-Keeps t P d ctrl_stat_address _) (λ _.
            chain-Keeps t P d _ _ (read_dp_register-Keeps t P d ctrl_stat_address) (λ status.
              branch-Keeps t P d (λ _. not (cdbgpwrupack status) || not (csyspwrupack status)) _ _
                (idle-Keeps t P d (λ _. err SwdError.operation_failed)) powered-Keeps))))
