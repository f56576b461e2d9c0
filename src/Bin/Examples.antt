-- ===== src/Bin/Examples.antt =====
-- Tests of the binary API, and its theorems at concrete inputs. The reader is a list of bytes.
use airfrog.Prelude.{
  ℕ, ◌≤◌, ◌<◌, ◌≡◌, refl, arith, List, [], ◌∷◌, ◌++◌, length, take, drop, leb, if◌then◌else◌,
}
use airfrog.Bin.Error.{Result, ok, err}
use airfrog.Bin.Command.{from_byte, remaining_bytes, var_bytes}
use airfrog.Bin.Op.{Op, RegType}
use airfrog.Bin.Parse.{parse_regs, parse_count}
use airfrog.Bin.Reader.{Reader, Delivers}
use airfrog.Bin.Recv.{recv_op}
use airfrog.Bin.Format.{encode}
use airfrog.Bin.RoundTrip.{recv_op-encode}

read_list : ℕ → List ℕ → Result (Unit {0}) (List ℕ) × List ℕ
read_list n s = if leb n (length s) then (ok (take n s), drop n s) else (err tt, [])

abbrev list_reader : Reader
list_reader = record { State = List ℕ; Error = Unit {0}; read_exact = read_list }

read_list-take :
    (n : ℕ) (s : List ℕ)
    → n ≤ length s
    → ((read_list n s).0 ≡ ok (take n s)) × ((read_list n s).1 ≡ drop n s)
unfolding read_list
read_list-take n s h = ground arith

read_list_short : (n : ℕ) (s : List ℕ) → length s < n → (e : Unit {0}) × ((read_list n s).0 ≡ err e)
unfolding read_list
read_list_short n s h = (tt, ground arith)

abbrev list_delivers : Delivers list_reader
list_delivers = record { pending = λ s. s; delivers = read_list-take; fails = read_list_short }

abbrev two_writes : Op
two_writes = Op.multi_reg_write 2 (
    record { reg_type = RegType.dp; reg = 8; value = 0xf0 }
    ∷ record { reg_type = RegType.ap; reg = 4; value = 0x20001000 }
    ∷ [])

recv-two_writes :
    (recv_op list_reader
      (0x14 ∷ 2 ∷ 0 ∷ 0 ∷ 8 ∷ 0xf0 ∷ 0 ∷ 0 ∷ 0 ∷ 1 ∷ 4 ∷ 0 ∷ 0x10 ∷ 0 ∷ 0x20 ∷ 0xf0 ∷ []))
    ≡ (ok two_writes, 0xf0 ∷ [])
unfolding recv_op read_list from_byte parse_regs parse_count remaining_bytes var_bytes
recv-two_writes = refl

recv_op-encode_example :
    ((recv_op list_reader (encode two_writes ++ 0xf0 ∷ [])).0 ≡ ok two_writes)
    × ((recv_op list_reader (encode two_writes ++ 0xf0 ∷ [])).1 ≡ 0xf0 ∷ [])
unfolding encode
recv_op-encode_example =
    recv_op-encode list_reader list_delivers two_writes (0xf0 ∷ []) (encode two_writes ++ 0xf0 ∷ [])
      (omega arith) refl
