-- ===== src/Bin/Op.antt =====
-- `Op` of airfrog-bin/src/lib.rs: the operations that a client can ask for.
use airfrog.Prelude.{ℕ, List}
use airfrog.Bin.Speed.{Speed, LineLevel}

pub data RegType : Type 0 where
  dp ap : RegType

pub record MultiReg : Type 0 where
  pub reg_type : RegType
  pub reg : ℕ
  pub value : ℕ

pub data Op : Type 0 where
  dp_read : ℕ → Op
  dp_write : ℕ → ℕ → Op
  ap_read : ℕ → Op
  ap_write : ℕ → ℕ → Op
  -- register, count
  ap_bulk_read : ℕ → ℕ → Op
  ap_bulk_write : ℕ → List ℕ → Op
  -- count, the writes
  multi_reg_write : ℕ → List MultiReg → Op
  ping reset_target : Op
  -- level, post level, cycles
  clock : LineLevel → LineLevel → ℕ → Op
  set_speed : Speed → Op
  disconnect : Op
