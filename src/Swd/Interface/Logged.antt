-- ===== src/Swd/Interface/Logged.antt =====
-- A transport that keeps what its reads were answered with, for the history of a reset at work.
use airfrog.Prelude.{ℕ, List, [], ◌∷◌, ◌≡◌, refl, ◌⊎◌, inl, inr}
use airfrog.Bin.Error.{Result, ok, err}
use airfrog.Swd.Error.{SwdError}
use airfrog.Swd.Command.{SwdOp}
use airfrog.Swd.Interface.State.{Transport, Interface}
use airfrog.Swd.Interface.Reset.Recalls.{Recalls, BothAcked}

-- The reads that were answered, the latest first.
abbrev pub Answers : Type 0
Answers = List (SwdOp × ℕ)

abbrev pub noted : SwdOp → Result SwdError ℕ → Answers → Answers
noted op (ok v) l = (op, v) ∷ l
noted op (err _) l = l

abbrev pub Heard : SwdOp → ℕ → Answers → Type 0
Heard op v [] = ⊥
Heard op v (x ∷ l) = (x ≡ (op, v)) ⊎ Heard op v l

pub noted-Heard :
    (op : SwdOp) (x : Result SwdError ℕ) (v : ℕ) (l : Answers)
    → x ≡ ok v
    → Heard op v (noted op x l)
noted-Heard op (ok a) v l h = let same : a ≡ v = cc in inl (rw same refl)
noted-Heard op (err e) v l h = absurd cc

pub Heard-noted :
    (op new_op : SwdOp) (x : Result SwdError ℕ) (v : ℕ) (l : Answers)
    → Heard op v l
    → Heard op v (noted new_op x l)
Heard-noted op new_op (ok a) v l h = inr h
Heard-noted op new_op (err e) v l h = h

module _ (t : Transport) where
  abbrev pub logged : Transport
  logged = record {
    Wire = t.Wire × Answers;
    write_op =
        λ n op word b p. ((t.write_op n op word b p.0).0, ((t.write_op n op word b p.0).1, p.1));
    read_op = λ n op b p. (
      (t.read_op n op b p.0).0,
      ((t.read_op n op b p.0).1, noted op (t.read_op n op b p.0).0 p.1),
    );
    pause = λ us p. (t.pause us p.0, p.1);
    enter = λ v p. (t.enter v p.0, []);
    line_reset = λ p. (t.line_reset p.0, p.1);
    target_sel = λ w p. (t.target_sel w p.0, p.1);
    current_speed = λ p. t.current_speed p.0;
    speed = λ v p. (t.speed v p.0, p.1);
    level = λ l p. (t.level l p.0, p.1);
    clocks = λ n p. (t.clocks n p.0, p.1);
  }

  abbrev pub logged_recalls : Recalls logged
  logged_recalls = record {
    Gave = λ v p. Heard (SwdOp.dp_read 0x00) v p.1;
    Acked = λ p. (status : ℕ) × Heard (SwdOp.dp_read 0x04) status p.1 × BothAcked status;
    gives = λ n v b p h. noted-Heard (SwdOp.dp_read 0x00) _ v p.1 h;
    acks = λ n status b p h both. (status, noted-Heard (SwdOp.dp_read 0x04) _ status p.1 h, both);
    gave_write = λ v n word op b p h. h;
    gave_read = λ v n op b p h. Heard-noted (SwdOp.dp_read 0x00) op _ v p.1 h;
    gave_pause = λ v us p h. h;
    acked_write = λ n word op b p h. h;
    acked_read = λ n op b p h. (h.0, Heard-noted (SwdOp.dp_read 0x04) op _ h.0 p.1 h.1, h.2);
    acked_pause = λ us p h. h;
  }

  -- An interface whose transport begins to keep them.
  abbrev pub logging : Interface t.Wire → Interface logged.Wire
  logging s = record {
    protocol = (s.protocol, []);
    idcode = s.idcode;
    mcu = s.mcu;
    idr = s.idr;
    powered_up = s.powered_up;
    dp_select = s.dp_select;
    addr_inc = s.addr_inc;
    wait_retries = s.wait_retries;
    check_power = s.check_power;
    reset_version = s.reset_version;
  }
