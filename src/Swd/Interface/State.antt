-- ===== src/Swd/Interface/State.antt =====
-- The state of `SwdInterface`, and what it asks of the layer below: the single transfers, a pause and
-- the line sequences. Swd/Interface/Wired fills this interface with the transfers of Swd/Transfer.
use airfrog.Prelude.{ℕ, Bool, true, false, Option, none, some}
use airfrog.Bin.Error.{Result, ok, err}
use airfrog.Core.Select
use airfrog.Core.Select.{Select}
use airfrog.Swd.Error.{SwdError}
use airfrog.Swd.Command.{SwdOp}
use airfrog.Core.Mcu.{Mcu}
use airfrog.Swd.Wire.Protocol.{Speed, LineState}

pub data Version : Type 0 where
  v1 v2 : Version

-- `do_write_op` and `do_read_op`, with the number of retries; `Timer::after` in microseconds; the
-- line sequences at the head of the two resets, `line_reset_after`, and `do_write_target_sel`, which
-- never fails; and the line operations of `set_swd_speed` and `clock_raw`.
pub record Transport : Type 1 where
  pub Wire : Type 0
  pub write_op : ℕ → SwdOp → ℕ → Bool → Wire → Result SwdError (Unit {0}) × Wire
  pub read_op : ℕ → SwdOp → Bool → Wire → Result SwdError ℕ × Wire
  pub pause : ℕ → Wire → Wire
  pub enter : Version → Wire → Wire
  pub line_reset : Wire → Wire
  pub target_sel : ℕ → Wire → Wire
  pub speed : Speed → Wire → Wire
  pub current_speed : Wire → Speed
  pub level : LineState → Wire → Wire
  pub clocks : ℕ → Wire → Wire

pub record Interface (W : Type 0) : Type 0 where
  pub protocol : W
  pub idcode : Option ℕ
  pub mcu : Option Mcu
  pub idr : Option ℕ
  pub powered_up : Bool
  pub dp_select : Select
  pub addr_inc : Bool
  pub wait_retries : ℕ
  pub check_power : Bool
  pub reset_version : Option Version

abbrev pub default_wait_retries : ℕ
default_wait_retries = 2

unfoldable pub new_interface : {W : Type 0} → W → Interface W
new_interface protocol = record {
  protocol = protocol;
  idcode = none;
  mcu = none;
  idr = none;
  powered_up = false;
  dp_select = Select.default;
  addr_inc = false;
  wait_retries = default_wait_retries;
  check_power = true;
  reset_version = none;
}

unfoldable pub reset_internal_state : {W : Type 0} → Interface W → Interface W
reset_internal_state s = record s {
  idcode = none;
  mcu = none;
  idr = none;
  powered_up = false;
  dp_select = Select.default;
  addr_inc = false;
  check_power = true;
  reset_version = none;
}

unfoldable pub set_wait_retries : {W : Type 0} → ℕ → Interface W → Interface W
set_wait_retries retries s = record s { wait_retries = retries }

-- `self.idcode.is_some()`
unfoldable pub is_connected : {W : Type 0} → Interface W → Bool
is_connected s = elim s.idcode [ some _ ↦ true | none ↦ false ]

-- `self.reset_version.ok_or(SwdError::NotReady)`
abbrev version_or_not_ready : Option Version → Result SwdError Version
version_or_not_ready (some v) = ok v
version_or_not_ready none = err SwdError.not_ready

abbrev version_of : Option Mcu → Option Version → Result SwdError Version
version_of (some (Mcu.stm32 _)) reset_version = ok Version.v1
version_of (some (Mcu.rp _)) reset_version = ok Version.v2
version_of (some (Mcu.unknown _)) reset_version = version_or_not_ready reset_version
version_of none reset_version = version_or_not_ready reset_version

unfoldable pub check_version : {W : Type 0} → Interface W → Result SwdError Version
check_version s = version_of s.mcu s.reset_version

-- An operation on the interface: its result, or the error that ended it, and the state after it.
abbrev pub Act : Type 0 → Type 0 → Type 0 → Type 0
Act W E A = Interface W → Result E A × Interface W

abbrev pub pure : {W E A : Type 0} → A → Act W E A
pure a s = (ok a, s)

abbrev pub continue :
    {W E A B : Type 0} → Result E A × Interface W → (A → Act W E B) → Result E B × Interface W
continue (ok a, s) f = f a s
continue (err e, s) f = (err e, s)

-- The `?` operator between awaited calls.
infixl 5 ◌>>=◌
abbrev pub ◌>>=◌ : {W E A B : Type 0} → Act W E A → (A → Act W E B) → Act W E B
◌>>=◌ m f s = continue (m s) f

infixl 5 ◌>>◌
abbrev pub ◌>>◌ : {W E B : Type 0} → Act W E (Unit {0}) → Act W E B → Act W E B
◌>>◌ m n s = continue (m s) (λ _. n)
