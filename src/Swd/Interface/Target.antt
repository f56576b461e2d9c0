-- ===== src/Swd/Interface/Target.antt =====
-- A target for the tests that answers at once: registers and a memory without errors.
use airfrog.Prelude.{
  ℕ, ◌+◌, ◌≡◌, ◌≢◌, ◌==◌, ==_iff, refl, ap, arith, Bool, true, Bool-cases, inl, inr, if◌then◌else◌,
}
use airfrog.Bin.Error.{Result, ok, err}
use airfrog.Swd.Error.{SwdError}
use airfrog.Swd.Command.{SwdOp}
use airfrog.Swd.Wire.Protocol.{Speed}
use airfrog.Swd.Interface.State.{Transport, Interface, new_interface}
use airfrog.Swd.Interface.Access.{select_address}
use airfrog.Swd.Interface.Coherent.{Selects}
use airfrog.Prelude.{List, [], ◌∷◌, ◌++◌}
use airfrog.Swd.Interface.Bulk.{drw_address}
use airfrog.Swd.Interface.Written.{DrwLog}

-- The target's registers that matter here, and its memory.
pub record Target : Type 0 where
  pub select : ℕ
  pub tar : ℕ
  pub rd_buff : ℕ
  pub memory : ℕ → ℕ
  -- The words written to DRW, the latest last.
  pub log : List ℕ

unfoldable pub answer_write : ℕ → SwdOp → ℕ → Bool → Target → Result SwdError (Unit {0}) × Target
answer_write n (SwdOp.dp_write a) word single p =
    (ok tt, if a == 0x08 then record p { select = word } else p)
answer_write n (SwdOp.ap_write a) word single p = (
  ok tt,
  if a == 0x04
      then record p { tar = word }
      else if a == 0x0c
      then record p {
        memory = λ x. if x == p.tar then word else p.memory x;
        log = p.log ++ word ∷ [];
      }
      else p,
)
answer_write n _ word single p = (err (SwdError.no_ack 7), p)

unfoldable pub answer_read : ℕ → SwdOp → Bool → Target → Result SwdError ℕ × Target
answer_read n (SwdOp.dp_read a) single p = (ok (if a == 0x0c then p.rd_buff else 0xf0000040), p)
answer_read n (SwdOp.ap_read a) single p = (
  ok p.rd_buff,
  record p { rd_buff = if a == 0x04 then p.tar else if a == 0x0c then p.memory p.tar else 0 },
)
answer_read n _ single p = (err (SwdError.no_ack 7), p)

abbrev pub target_transport : Transport
target_transport = record {
  Wire = Target;
  write_op = answer_write;
  read_op = answer_read;
  pause = λ us p. p;
  enter = λ v p. record p { select = 0 };
  line_reset = λ p. p;
  target_sel = λ w p. p;
  current_speed = λ p. Speed.turbo;
  speed = λ v p. p;
  level = λ l p. p;
  clocks = λ n p. p;
}

pub select_kept :
    (n : ℕ) (op : SwdOp) (word : ℕ) (single : Bool) (p : Target)
    → op ≢ SwdOp.dp_write select_address
    → (answer_write n op word single p).1.select ≡ p.select
unfolding answer_write
select_kept n (SwdOp.dp_write a) word single p h = elim (Bool-cases (a == 0x08)) [
  | inl e ↦ absurd (h (ap SwdOp.dp_write ((==_iff a 0x08).0 e)))
  | inr e ↦ rw e refl
]
select_kept n (SwdOp.ap_write a) word single p h = ground arith
select_kept n (SwdOp.dp_read a) word single p h = refl
select_kept n (SwdOp.ap_read a) word single p h = refl

pub read_keeps :
    (n : ℕ) (op : SwdOp) (single : Bool) (p : Target)
    → (answer_read n op single p).1.select ≡ p.select
unfolding answer_read
read_keeps n (SwdOp.dp_write a) single p = refl
read_keeps n (SwdOp.ap_write a) single p = refl
read_keeps n (SwdOp.dp_read a) single p = refl
read_keeps n (SwdOp.ap_read a) single p = refl

pub select_set :
    (n word : ℕ) (single : Bool) (p : Target)
    → (answer_write n (SwdOp.dp_write select_address) word single p).0 ≡ ok tt
    → (answer_write n (SwdOp.dp_write select_address) word single p).1.select ≡ word
unfolding answer_write
select_set n word single p h = refl

abbrev pub target_selects : Selects target_transport
target_selects = record {
  selected = λ p. p.select;
  set = select_set;
  kept_by_write = select_kept;
  kept_by_read = read_keeps;
}

-- An interface whose target is powered up and has bank 0 selected.
abbrev pub ready : Interface Target
ready =
    record (new_interface
      (record { select = 0; tar = 0; rd_buff = 0; memory = λ a. a + 1; log = [] })) {
        powered_up = true;
      }

pub log_written :
    (n word : ℕ) (single : Bool) (p : Target)
    → (answer_write n (SwdOp.ap_write drw_address) word single p).0 ≡ ok tt
    → (answer_write n (SwdOp.ap_write drw_address) word single p).1.log ≡ p.log ++ word ∷ []
unfolding answer_write
log_written n word single p h = refl

pub log_kept :
    (n word : ℕ) (single : Bool) (p : Target) (e : SwdError)
    → (answer_write n (SwdOp.ap_write drw_address) word single p).0 ≡ err e
    → (answer_write n (SwdOp.ap_write drw_address) word single p).1.log ≡ p.log
unfolding answer_write
log_kept n word single p e h = absurd cc

pub log_other :
    (n : ℕ) (op : SwdOp) (word : ℕ) (single : Bool) (p : Target)
    → op ≢ SwdOp.ap_write drw_address
    → (answer_write n op word single p).1.log ≡ p.log
unfolding answer_write
log_other n (SwdOp.ap_write a) word single p h = elim (Bool-cases (a == 0x0c)) [
  | inl e ↦ absurd (h (ap SwdOp.ap_write ((==_iff a 0x0c).0 e)))
  | inr e ↦ rw e (ground arith)
]
log_other n (SwdOp.dp_write a) word single p h = ground arith
log_other n (SwdOp.dp_read a) word single p h = refl
log_other n (SwdOp.ap_read a) word single p h = refl

pub log_read :
    (n : ℕ) (op : SwdOp) (single : Bool) (p : Target) → (answer_read n op single p).1.log ≡ p.log
unfolding answer_read
log_read n (SwdOp.dp_write a) single p = refl
log_read n (SwdOp.ap_write a) single p = refl
log_read n (SwdOp.dp_read a) single p = refl
log_read n (SwdOp.ap_read a) single p = refl

abbrev pub target_log : DrwLog target_transport
target_log = record {
  log = λ p. p.log;
  written = log_written;
  not_written = log_kept;
  other_write = log_other;
  read_nothing = log_read;
}
