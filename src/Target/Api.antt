-- ===== src/Target/Api.antt =====
-- `Command::from_rest` of airfrog/src/target/request.rs: the command that a REST request asks for.
-- `serde_json` is a parameter.
pub mod Paths
pub mod Only
use airfrog.Prelude.{
  ℕ, ◌%◌, ◌^◌, Bool, true, false, if◌then◌else◌, Option, some, none, List, [], ◌∷◌, map,
}
use airfrog.Bin.Error.{Result, ok, err}
use airfrog.Swd.Wire.Protocol.{Speed, LineState}
use airfrog.Config.Wifi.{Settings}
use airfrog.Target.HexText.{Text}
use airfrog.Target.Types.{ErrorKind, AirfrogError, SettingsSource, Command}
use airfrog.Target.Path.{ascii, same_text, strip_prefix, split, to_lower, parse_u32}

-- `Method` of airfrog/src/http/mod.rs.
pub data Method : Type 0 where
  get post : Method

-- `Rest` of airfrog/src/http/mod.rs.
pub data Rest : Type 0 where
  target raw swd_config : Rest

-- What the requests use of `serde_json`: `from_str`, the index by a key, the accessors of a value,
-- and `from_value` into `Settings`.
pub record RestJson : Type 1 where
  pub Value : Type 0
  pub from_str : Text → Option Value
  pub at : Value → Text → Value
  pub as_str : Value → Option Text
  pub as_u64 : Value → Option ℕ
  pub as_array : Value → Option (List Value)
  pub to_settings : Value → Option Settings

abbrev pub Parsed : Type 0
Parsed = Result AirfrogError Command

abbrev pub invalid : {A : Type 0} → ErrorKind → Result AirfrogError A
invalid kind = err (AirfrogError.airfrog_kind kind)

-- `.ok_or(AirfrogError::Airfrog(ErrorKind::InvalidBody))?`
abbrev pub needed : {A B : Type 0} → Option A → (A → Result AirfrogError B) → Result AirfrogError B
needed none f = invalid ErrorKind.invalid_body
needed (some a) f = f a

-- An arm of a `match` on the path: a literal, or a guard `starts_with` with its `strip_prefix`.
abbrev pub at_path : Text → Text → Parsed → Parsed → Parsed
at_path literal path arm others = if same_text path literal then arm else others

abbrev pub below : Option Text → (Text → Parsed) → Parsed → Parsed
below none arm others = others
below (some rest) arm others = arm rest

abbrev pub no_path : Parsed
no_path = invalid ErrorKind.invalid_path

-- `split('/')` into an AP's index and a register.
abbrev pub two_parts : List Text → (Text → Text → Parsed) → Parsed
two_parts (ap_index ∷ register ∷ []) f = f ap_index register
two_parts _ f = no_path

abbrev pub ap_path : Text → (Text → Text → Parsed) → Parsed
ap_path path_params f = two_parts (split path_params) f

abbrev pub sector_of : Option ℕ → Parsed
sector_of none = no_path
sector_of (some sector) = ok (Command.erase_sector sector)

unfoldable pub get_level : Text → Result AirfrogError LineState
get_level level_str =
    let lower = map to_lower level_str in
    if same_text lower (ascii "low")
    then ok LineState.low
    else if same_text lower (ascii "high")
    then ok LineState.high
    else if same_text lower (ascii "input")
    then ok LineState.input
    else invalid ErrorKind.invalid_body

unfoldable pub speed_of_text : Text → Result AirfrogError Speed
speed_of_text speed_str =
    if same_text speed_str (ascii "Slow")
    then ok Speed.slow
    else if same_text speed_str (ascii "Medium")
    then ok Speed.medium
    else if same_text speed_str (ascii "Fast")
    then ok Speed.fast
    else if same_text speed_str (ascii "Turbo")
    then ok Speed.turbo
    else invalid ErrorKind.invalid_body

-- `?`
abbrev pub and_then :
    {A B : Type 0} → Result AirfrogError A → (A → Result AirfrogError B) → Result AirfrogError B
and_then (ok a) f = f a
and_then (err e) f = err e

module _ (j : RestJson) where
  abbrev pub Body : Type 0
  Body = Option j.Value

  abbrev pub str_at : Text → Body → (Text → Parsed) → Parsed
  str_at key body f = needed body (λ b. needed (j.as_str (j.at b key)) f)

  -- `as_u64()`, and `as usize` or `as u32`: both have 32 bits.
  abbrev pub count_at : Body → (ℕ → Parsed) → Parsed
  count_at body f =
      needed body (λ b. needed (j.as_u64 (j.at b (ascii "count"))) (λ count. f (count % 2 ^ 32)))

  abbrev pub cons_str : Option Text → Option (List Text) → Option (List Text)
  cons_str (some s) (some ss) = some (s ∷ ss)
  cons_str _ _ = none

  -- `.map(|v| v.as_str()…).collect::<Result<Vec<_>, _>>()`
  unfoldable pub strings : List j.Value → Option (List Text)
  strings [] = some []
  strings (v ∷ vs) = cons_str (j.as_str v) (strings vs)

  abbrev pub words_at : Body → (List Text → Parsed) → Parsed
  words_at body f =
      needed body
        (λ b. needed (j.as_array (j.at b (ascii "data"))) (λ array. needed (strings array) f))

  abbrev pub settings_at : SettingsSource → Body → Parsed
  settings_at source body =
      needed body
        (λ b. needed (j.to_settings b) (λ settings. ok (Command.update_settings source settings)))

  unfoldable pub from_rest_config : Method → Text → Body → Parsed
  from_rest_config Method.get path body =
      at_path (ascii "/runtime/speed") path (ok Command.get_speed) no_path
  from_rest_config Method.post path body =
      at_path (ascii "/runtime/speed") path
        (str_at (ascii "speed") body
          (λ speed_str. and_then (speed_of_text speed_str) (λ speed. ok (Command.set_speed speed))))
        (at_path (ascii "/runtime") path (settings_at SettingsSource.from_runtime body)
          (at_path (ascii "/swd/flash") path (settings_at SettingsSource.from_flash body) no_path))

  -- The other arms on the flash.
  abbrev pub flash_arms : Text → Body → Parsed
  flash_arms path body =
      below (strip_prefix (ascii "/flash/erase-sector/") path) (λ addr. sector_of (parse_u32 addr))
        (at_path (ascii "/flash/erase-all") path (ok Command.erase_all) (
          below (strip_prefix (ascii "/flash/write/") path)
            (λ addr. str_at (ascii "data") body (λ word. ok (Command.write_flash_word addr word)))
            (below (strip_prefix (ascii "/flash/bulk/write/") path)
              (λ addr. words_at body (λ words. ok (Command.write_flash_bulk addr words))) no_path)))

  unfoldable pub from_rest_target : Method → Text → Body → Parsed
  from_rest_target Method.get path body = at_path (ascii "/status") path (ok Command.get_status) (
      at_path (ascii "/details") path (ok Command.get_details) (
        at_path (ascii "/errors") path (ok Command.get_errors) (
          below (strip_prefix (ascii "/memory/read/") path) (λ addr. ok (Command.read_mem addr))
            no_path)))
  from_rest_target Method.post path body = at_path (ascii "/reset") path (ok Command.reset) (
      at_path (ascii "/clear-errors") path (ok Command.clear_errors) (
        below (strip_prefix (ascii "/memory/write/") path)
          (λ addr. str_at (ascii "data") body (λ word. ok (Command.write_mem addr word)))
          (below (strip_prefix (ascii "/memory/bulk/read/") path)
            (λ addr. count_at body (λ count. ok (Command.read_mem_bulk addr count)))
            (below (strip_prefix (ascii "/memory/bulk/write/") path)
              (λ addr. words_at body (λ words. ok (Command.write_mem_bulk addr words)))
              (at_path (ascii "/flash/unlock") path (ok Command.unlock_flash) (
                at_path (ascii "/flash/lock") path (ok Command.lock_flash)
                  (flash_arms path body)))))))

  abbrev pub clock_of : Body → Parsed
  clock_of body = str_at (ascii "level") body (λ level_str. and_then (get_level level_str) (λ level.
      str_at (ascii "post_level") body (λ post_level_str.
        and_then (get_level post_level_str)
          (λ post_level. count_at body (λ count. ok (Command.clock level post_level count))))))

  unfoldable pub from_rest_raw : Method → Text → Body → Parsed
  from_rest_raw Method.get path body =
      below (strip_prefix (ascii "/dp/read/") path)
        (λ register. ok (Command.raw_read_dp_reg register))
        (below (strip_prefix (ascii "/ap/read/") path)
          (λ rest.
            ap_path rest (λ ap_index register. ok (Command.raw_read_ap_reg ap_index register)))
          no_path)
  from_rest_raw Method.post path body = at_path (ascii "/reset") path (ok Command.raw_reset) (
      below (strip_prefix (ascii "/dp/write/") path)
        (λ register.
          str_at (ascii "data") body (λ word. ok (Command.raw_write_dp_reg register word)))
        (below (strip_prefix (ascii "/ap/write/") path)
          (λ rest. ap_path rest (λ ap_index register.
            str_at (ascii "data") body
              (λ word. ok (Command.raw_write_ap_reg ap_index register word))))
          (below (strip_prefix (ascii "/ap/bulk/read/") path)
            (λ rest. ap_path rest (λ ap_index register.
              count_at body (λ count. ok (Command.raw_bulk_read_ap_reg ap_index register count))))
            (below (strip_prefix (ascii "/ap/bulk/write/") path)
              (λ rest. ap_path rest (λ ap_index register. count_at body (λ count.
                words_at body
                  (λ words. ok (Command.raw_bulk_write_ap_reg ap_index register count words)))))
              (at_path (ascii "/clock") path (clock_of body) no_path)))))

  abbrev pub of_type : Rest → Method → Text → Body → Parsed
  of_type Rest.target = from_rest_target
  of_type Rest.raw = from_rest_raw
  of_type Rest.swd_config = from_rest_config

  -- `parse_json_body` of airfrog/src/http/json.rs.
  unfoldable pub parse_json_body : Option Text → Result AirfrogError Body
  parse_json_body none = ok none
  parse_json_body (some text) = needed (j.from_str text) (λ value. ok (some value))

  unfoldable pub from_rest : Rest → Method → Text → Option Text → Parsed
  from_rest rest_type method path body =
      and_then (parse_json_body body) (of_type rest_type method path)
