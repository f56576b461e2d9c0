-- ===== src/Swd/Interface/Reset/Connected.antt =====
-- What a reset leaves behind: a target that is identified and powered, or nothing of the old one.
use airfrog.Prelude.{ℕ, true, false, Option, some, none, ◌≡◌, refl}
use airfrog.Bin.Error.{Result, ok, err}
use airfrog.Core.Select
use airfrog.Core.Select.{Select}
use airfrog.Core.Mcu.{Mcu}
use airfrog.Swd.Error.{SwdError}
use airfrog.Swd.Interface.State.{
  Transport, Interface, Version, continue, check_version, reset_internal_state,
}
use airfrog.Swd.Interface.Access.{
  read_idcode, clear_errors, update_dp_select, write_dp_register, ctrl_stat_address,
}
use airfrog.Swd.Interface.Bulk.{read_rd_buff_fast}
use airfrog.Swd.Interface.Memory.{power_up_debug_domain}
use airfrog.Swd.Interface.Reset.{
  enable_target, connect, reset_target, reset_sequence_v1, reset_sequence_v2, identify, start,
  forgetting, with_version, unwrap, store_details,
}
use airfrog.Swd.Interface.Reset.Steady.{
  IsSteady, Keeps, chain-Keeps, idle-Keeps, clear_errors-Keeps, read_wire-Keeps,
}
use airfrog.Swd.Interface.Reset.Recalls.{
  Recalls, IsPowered, Answers, read_idcode-Gave, read_ctrl_stat-Leads, acked-Leads,
}
use airfrog.Swd.Interface.Reset.Leads.{OnOk, Anything, Leads, chain-Leads, skip-Leads, keeps-Leads}
use airfrog.Swd.Interface.Reset.Enabled.{
  get_mcu-Keeps, configure_mem_ap-Keeps, power_up_debug_domain-Keeps,
}

-- Nothing is known of the target.
abbrev pub IsForgotten : {W : Type 0} → Interface W → Type 0
IsForgotten s = (s.idcode ≡ none) × (s.mcu ≡ none)

-- The target has been identified by the given version of the protocol, with the IDCODE that it gave,
-- and the power-up of its debug domain and of the system has been acknowledged.
abbrev pub IsConnected : (t : Transport) → Recalls t → Version → Interface t.Wire → Type 0
IsConnected t d version s =
    ((idcode : ℕ) × (s.idcode ≡ some idcode) × d.Gave idcode s.protocol)
    × ((mcu : Mcu) × (s.mcu ≡ some mcu))
    × IsPowered t d s
    × (s.reset_version ≡ some version)

-- What a reset by the given version ends in.
abbrev pub Settled :
    (t : Transport) → Recalls t → Version → Result SwdError (Unit {0}) × Interface t.Wire → Type 0
Settled t d version (ok _, s) = IsConnected t d version s
Settled t d version (err _, s) = IsForgotten s × (s.reset_version ≡ none)

module _ (t : Transport) (d : Recalls t) where
  abbrev forgotten : IsSteady t IsForgotten
  forgotten = record {
    on_write = λ s op w b h. h;
    on_read = λ s op b h. h;
    on_pause = λ s h. h;
    on_select = λ s v h. h;
    on_addr_inc = λ s b h. h;
    on_idr = λ s v h. h;
    on_power = λ s h. h;
  }

  abbrev IsReset : Version → Interface t.Wire → Type 0
  IsReset version s = s.reset_version ≡ some version

  abbrev reset_by : (version : Version) → IsSteady t (IsReset version)
  reset_by version = record {
    on_write = λ s op w b h. h;
    on_read = λ s op b h. h;
    on_pause = λ s h. h;
    on_select = λ s v h. h;
    on_addr_inc = λ s b h. h;
    on_idr = λ s v h. h;
    on_power = λ s h. h;
  }

  abbrev powered : IsSteady t (IsPowered t d)
  powered = record {
    on_write = λ s op w b h. (h.0, d.acked_write _ w op b _ h.1);
    on_read = λ s op b h. (h.0, d.acked_read _ op b _ h.1);
    on_pause = λ s h. (h.0, d.acked_pause _ _ h.1);
    on_select = λ s v h. h;
    on_addr_inc = λ s b h. h;
    on_idr = λ s v h. h;
    on_power = λ s h. (refl, h.1);
  }

  abbrev given : (v : ℕ) → IsSteady t (λ s. d.Gave v s.protocol)
  given v = record {
    on_write = λ s op w b h. d.gave_write v _ w op b _ h;
    on_read = λ s op b h. d.gave_read v _ op b _ h;
    on_pause = λ s h. d.gave_pause v _ _ h;
    on_select = λ s u h. h;
    on_addr_inc = λ s b h. h;
    on_idr = λ s u h. h;
    on_power = λ s h. h;
  }

  enable_target-Keeps :
      (P : Interface t.Wire → Type 0) (e : IsSteady t P) (idcode : ℕ)
      → Keeps t P e (enable_target t idcode)
  unfolding enable_target read_rd_buff_fast
  enable_target-Keeps P e idcode = chain-Keeps t P e _ _ (clear_errors-Keeps t P e) (λ _.
      chain-Keeps t P e _ _ (read_wire-Keeps t P e _ _) (λ _.
        chain-Keeps t P e _ _ (power_up_debug_domain-Keeps t P e) (λ _.
          chain-Keeps t P e _ _ (configure_mem_ap-Keeps t P e) (λ _.
            chain-Keeps t P e _ _ (get_mcu-Keeps t P e idcode)
              (λ mcu. idle-Keeps t P e (λ _. ok (some mcu)))))))

  power_up-Leads : Leads t (Anything t) (power_up_debug_domain t) (λ _. IsPowered t d)
  unfolding power_up_debug_domain
  power_up-Leads =
      skip-Leads t _ (λ s. (check_version s, s)) _
        (λ _. skip-Leads t _ (update_dp_select t Select.default) _ (λ _.
          skip-Leads t _ (write_dp_register t ctrl_stat_address _) _ (λ _.
            chain-Leads t _ (Answers t d) _ _ _ (read_ctrl_stat-Leads t d) (acked-Leads t d))))

  abbrev Identified : Option Mcu → Interface t.Wire → Type 0
  Identified found s = ((mcu : Mcu) × (found ≡ some mcu)) × IsPowered t d s

  found-Leads : (mcu : Mcu) → Leads t (IsPowered t d) (λ s. (ok (some mcu), s)) Identified
  unfolding Leads
  found-Leads mcu s h = ((mcu, refl), h)

  enable_target-Leads : (idcode : ℕ) → Leads t (Anything t) (enable_target t idcode) Identified
  unfolding enable_target
  enable_target-Leads idcode = skip-Leads t _ (clear_errors t) _ (λ _.
      skip-Leads t _ (read_rd_buff_fast t false) _ (λ _.
        chain-Leads t _ (λ _. IsPowered t d) _ _ _ power_up-Leads
          (λ _.
            chain-Leads t _ (λ _. IsPowered t d) _ _ _
              (keeps-Leads t (IsPowered t d) powered _
                (configure_mem_ap-Keeps t (IsPowered t d) powered))
              (λ _.
                chain-Leads t _ (λ _. IsPowered t d) _ _ _
                  (keeps-Leads t (IsPowered t d) powered _
                    (get_mcu-Keeps t (IsPowered t d) powered idcode))
                  (λ mcu. found-Leads mcu)))))

  settled :
      (version : Version) (idcode : ℕ) (x : Result SwdError (Option Mcu) × Interface t.Wire)
      → IsForgotten x.1
      → IsReset version x.1
      → d.Gave idcode x.1.protocol
      → OnOk t Identified x
      → Settled t d version (continue (forgetting x) (store_details t idcode))
  settled version idcode (ok found, s) h r g (identified, p) = ((idcode, refl, g), identified, p, r)
  settled version idcode (err e, s) h r g i = (h, refl)

  pub connect-Settled :
      (version : Version) (idcode : ℕ) (s : Interface t.Wire)
      → IsForgotten s
      → IsReset version s
      → d.Gave idcode s.protocol
      → Settled t d version (connect t idcode s)
  unfolding connect Keeps Leads
  connect-Settled version idcode s h r g =
      settled version idcode (enable_target t idcode s)
        (enable_target-Keeps IsForgotten forgotten idcode s h)
        (enable_target-Keeps (IsReset version) (reset_by version) idcode s r)
        (enable_target-Keeps (λ s₁. d.Gave idcode s₁.protocol) (given idcode) idcode s g)
        (enable_target-Leads idcode s tt)

  -- The state after the reset sequence, whose IDCODE may not be answered.
  abbrev pub IsCleared : Interface t.Wire → Type 0
  IsCleared s = IsForgotten s × (s.reset_version ≡ none)

  abbrev cleared : IsSteady t IsCleared
  cleared = record {
    on_write = λ s op w b h. h;
    on_read = λ s op b h. h;
    on_pause = λ s h. h;
    on_select = λ s v h. h;
    on_addr_inc = λ s b h. h;
    on_idr = λ s v h. h;
    on_power = λ s h. h;
  }

  abbrev identified :
      Version → Result SwdError ℕ × Interface t.Wire → Result SwdError ℕ × Interface t.Wire
  identified version x = continue x (λ idcode s. (ok idcode, with_version (some version) s))

  Settled-v1 :
      (x : Result SwdError ℕ × Interface t.Wire)
      → IsCleared x.1
      → OnOk t (λ v s. d.Gave v s.protocol) x
      → Settled t d Version.v1 (continue (identified Version.v1 x) (connect t))
  Settled-v1 (ok idcode, s) h g = connect-Settled Version.v1 idcode _ h.0 refl g
  Settled-v1 (err e, s) h g = h

  Settled-v2 :
      (x : Result SwdError ℕ × Interface t.Wire)
      → IsCleared x.1
      → OnOk t (λ v s. d.Gave v s.protocol) x
      → Settled t d Version.v2 (
          continue
            (continue (identified Version.v2 x) (λ idcode s. (ok (some idcode), s)))
            (λ idcode. connect t (unwrap idcode)))
  Settled-v2 (ok idcode, s) h g = connect-Settled Version.v2 idcode _ h.0 refl g
  Settled-v2 (err e, s) h g = h

  pub read_idcode-IsCleared : (s : Interface t.Wire) → IsCleared s → IsCleared (read_idcode t s).1
  unfolding read_idcode Keeps
  read_idcode-IsCleared s h = read_wire-Keeps t IsCleared cleared _ true s h

  -- Whatever state it starts in, a reset that succeeds leaves the IDCODE that the target has given, a
  -- type for it, which may be that of an unknown MCU, the version of the protocol that was asked for,
  -- and the power-up of the debug domain and of the system noted, which the target has acknowledged in
  -- both bits of CTRL/STAT; a reset that fails leaves no IDCODE, no type and no protocol version behind.
  pub reset_target-Settled :
      (version : Version) (s : Interface t.Wire) → Settled t d version (reset_target t version s)
  unfolding reset_target reset_sequence_v1 reset_sequence_v2 identify start reset_internal_state
  reset_target-Settled Version.v1 s =
      Settled-v1 _ (read_idcode-IsCleared _ ((refl, refl), refl)) (read_idcode-Gave t d _)
  reset_target-Settled Version.v2 s =
      Settled-v2 _ (read_idcode-IsCleared _ ((refl, refl), refl)) (read_idcode-Gave t d _)
