-- ===== src/Target/Requests/Limits.antt =====
-- The bound on the words of a bulk request in airfrog/src/target/mod.rs.
use airfrog.Prelude.{ℕ, ◌<◌, ◌≡◌, refl, arith, ltb, true, ◌⊎◌, inl, inr, List, length}
use airfrog.Bin.Error.{Result, ok, err}
use airfrog.Swd.Interface.State.{Transport}
use airfrog.Target.Types.{ErrorKind, AirfrogError, Command, default, with_error}
use airfrog.Target.State.{Target}
use airfrog.Target.HexText.{Text}
use airfrog.Target.Rest.{
  Handler, checked, refuse, rest_check_data_len, rest_get_bulk_data, rest_get_addr,
  rest_get_ap_index, rest_get_ap_register,
}
use airfrog.Target.Requests.{
  rest_read_mem_bulk, rest_write_mem_bulk, rest_write_flash_bulk, rest_raw_bulk_read_ap_reg,
  rest_raw_bulk_write_ap_reg, dispatch, handle_request,
}

-- A bulk command for more than 256 words, by its count or by the words in it.
unfoldable pub IsOversized : Command → Type 0
IsOversized (Command.read_mem_bulk _ count) = 256 < count
IsOversized (Command.write_mem_bulk _ words) = 256 < length words
IsOversized (Command.write_flash_bulk _ words) = 256 < length words
IsOversized (Command.raw_bulk_read_ap_reg _ _ count) = 256 < count
IsOversized (Command.raw_bulk_write_ap_reg _ _ count words) = (256 < count) ⊎ (256 < length words)
IsOversized _ = ⊥

too_many : (count : ℕ) → 256 < count → rest_check_data_len count ≡ refuse ErrorKind.too_large
unfolding rest_check_data_len
too_many count h = let over : ltb 256 count ≡ true = ground arith in rw over refl

too_long : (ss : List Text) → 256 < length ss → rest_get_bulk_data ss ≡ refuse ErrorKind.too_large
unfolding rest_get_bulk_data
too_long ss h = rw (too_many (length ss) h) refl

module _ (t : Transport) (n : ℕ) where
  -- The handler ends in an error, and does nothing.
  abbrev Refuses : Handler t n → Target t.Wire → Type 0
  Refuses handler s = (e : AirfrogError) × (handler s ≡ (ok (err e), s))

  checked-Refuses :
      {A : Type 0} (r : Result AirfrogError A) (f : A → Handler t n) (s : Target t.Wire)
      → ((a : A) → Refuses (f a) s)
      → Refuses (checked t n r f) s
  checked-Refuses (ok a) f s h = h a
  checked-Refuses (err e) f s h = (e, refl)

  refused-Refuses :
      {A : Type 0} (r : Result AirfrogError A) (f : A → Handler t n) (s : Target t.Wire)
      → r ≡ refuse ErrorKind.too_large
      → Refuses (checked t n r f) s
  refused-Refuses r f s h = (AirfrogError.airfrog_kind ErrorKind.too_large, rw h refl)

  dispatch-Refuses :
      (command : Command) (s : Target t.Wire)
      → IsOversized command
      → Refuses (dispatch t n command) s
  unfolding dispatch IsOversized rest_read_mem_bulk rest_write_mem_bulk rest_write_flash_bulk
      rest_raw_bulk_read_ap_reg rest_raw_bulk_write_ap_reg
  dispatch-Refuses (Command.read_mem_bulk addr count) s h =
      checked-Refuses (rest_get_addr addr) _ s
        (λ _. refused-Refuses (rest_check_data_len count) _ s (too_many count h))
  dispatch-Refuses (Command.write_mem_bulk addr words) s h =
      checked-Refuses (rest_get_addr addr) _ s
        (λ _. refused-Refuses (rest_get_bulk_data words) _ s (too_long words h))
  dispatch-Refuses (Command.write_flash_bulk addr words) s h =
      checked-Refuses (rest_get_addr addr) _ s
        (λ _. refused-Refuses (rest_get_bulk_data words) _ s (too_long words h))
  dispatch-Refuses (Command.raw_bulk_read_ap_reg ap_index register count) s h =
      checked-Refuses (rest_get_ap_index ap_index) _ s (λ _.
        checked-Refuses (rest_get_ap_register register) _ s
          (λ _. refused-Refuses (rest_check_data_len count) _ s (too_many count h)))
  dispatch-Refuses (Command.raw_bulk_write_ap_reg ap_index register count words) s (inl h) =
      checked-Refuses (rest_get_ap_index ap_index) _ s (λ _.
        checked-Refuses (rest_get_ap_register register) _ s (λ _.
          checked-Refuses (rest_get_bulk_data words) _ s
            (λ _. refused-Refuses (rest_check_data_len count) _ s (too_many count h))))
  dispatch-Refuses (Command.raw_bulk_write_ap_reg ap_index register count words) s (inr h) =
      checked-Refuses (rest_get_ap_index ap_index) _ s (λ _.
        checked-Refuses (rest_get_ap_register register) _ s
          (λ _. refused-Refuses (rest_get_bulk_data words) _ s (too_long words h)))
  dispatch-Refuses _ s h = absurd h

  -- A bulk command for more than 256 words is answered with an error, and neither the target nor the
  -- rest of the state is touched. The count of a command is that of the request after its cut to 32
  -- bits, and the words of a command are as many as the request has.
  pub handle_request-refuses :
      (command : Command) (s : Target t.Wire)
      → IsOversized command
      → (e : AirfrogError) × (handle_request t n command s ≡ (ok (with_error e default), s))
  unfolding handle_request
  handle_request-refuses command s h =
      let (e, refused) = dispatch-Refuses command s h in (e, rw refused refl)
