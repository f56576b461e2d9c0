-- ===== src/Target/Api/Only.antt =====
-- Which commands a request can become, in `from_rest` of airfrog/src/target/request.rs.
use airfrog.Prelude.{◌≡◌, if_both, Option, some, none, List, [], ◌∷◌}
use airfrog.Bin.Error.{Result, ok, err}
use airfrog.Target.HexText.{Text}
use airfrog.Target.Types.{AirfrogError, Command, SettingsSource}
use airfrog.Target.Path.{ascii, same_text, strip_prefix, split}
use airfrog.Target.Api.{
  Method, Rest, RestJson, Parsed, at_path, below, two_parts, needed, and_then, no_path,
  speed_of_text, parse_json_body, of_type, from_rest_config, from_rest_target, from_rest_raw,
  from_rest,
}
use airfrog.Target.Api.Paths.{same_text-≡}

-- The command of a request, if it has one, satisfies the predicate.
unfoldable pub Only : (Command → Type 0) → Parsed → Type 0
Only P (ok c) = P c
Only P (err e) = Unit

-- A command that only looks.
unfoldable pub IsQuery : Command → Type 0
IsQuery Command.get_status = Unit
IsQuery Command.get_details = Unit
IsQuery Command.get_errors = Unit
IsQuery Command.get_speed = Unit
IsQuery (Command.read_mem _) = Unit
IsQuery (Command.raw_read_dp_reg _) = Unit
IsQuery (Command.raw_read_ap_reg _ _) = Unit
IsQuery _ = ⊥

-- A command that stores settings comes from that path.
unfoldable pub StoresAt : Text → Text → Command → Type 0
StoresAt literal path (Command.update_settings SettingsSource.from_flash _) = path ≡ literal
StoresAt literal path _ = Unit

module _ (P : Command → Type 0) where
  at_path-Only :
      (literal path : Text) (arm others : Parsed)
      → (path ≡ literal → Only P arm)
      → Only P others
      → Only P (at_path literal path arm others)
  at_path-Only literal path arm others h k =
      if_both (Only P) (same_text path literal) arm others
        (λ same. h (same_text-≡ path literal same)) (λ _. k)

  below-Only :
      (rest : Option Text) (arm : Text → Parsed) (others : Parsed)
      → ((r : Text) → Only P (arm r))
      → Only P others
      → Only P (below rest arm others)
  below-Only none arm others h k = k
  below-Only (some r) arm others h k = h r

  two_parts-Only :
      (parts : List Text) (f : Text → Text → Parsed)
      → ((a r : Text) → Only P (f a r))
      → Only P (two_parts parts f)
  unfolding Only
  two_parts-Only [] f h = tt
  two_parts-Only (a ∷ []) f h = tt
  two_parts-Only (a ∷ r ∷ []) f h = h a r
  two_parts-Only (a ∷ r ∷ b ∷ parts) f h = tt

  needed-Only :
      {A : Type 0} (a : Option A) (f : A → Parsed) → ((x : A) → Only P (f x)) → Only P (needed a f)
  unfolding Only
  needed-Only none f h = tt
  needed-Only (some x) f h = h x

  and_then-Only :
      {A : Type 0} (r : Result AirfrogError A) (f : A → Parsed)
      → ((x : A) → Only P (f x))
      → Only P (and_then r f)
  unfolding Only
  and_then-Only (ok x) f h = h x
  and_then-Only (err e) f h = tt

  no_path-Only : Only P no_path
  unfolding Only
  no_path-Only = tt

  ok-Only : (c : Command) → P c → Only P (ok c)
  unfolding Only
  ok-Only c h = h

module _ (j : RestJson) where
  from_rest_target-IsQuery :
      (path : Text) (body : Option j.Value) → Only IsQuery (from_rest_target j Method.get path body)
  unfolding from_rest_target IsQuery
  from_rest_target-IsQuery path body =
      at_path-Only IsQuery _ path _ _ (λ _. ok-Only IsQuery Command.get_status tt)
        (at_path-Only IsQuery _ path _ _ (λ _. ok-Only IsQuery Command.get_details tt)
          (at_path-Only IsQuery _ path _ _ (λ _. ok-Only IsQuery Command.get_errors tt)
            (below-Only IsQuery (strip_prefix (ascii "/memory/read/") path) _ _
              (λ addr. ok-Only IsQuery (Command.read_mem addr) tt) (no_path-Only IsQuery))))

  from_rest_raw-IsQuery :
      (path : Text) (body : Option j.Value) → Only IsQuery (from_rest_raw j Method.get path body)
  unfolding from_rest_raw IsQuery
  from_rest_raw-IsQuery path body =
      below-Only IsQuery (strip_prefix (ascii "/dp/read/") path) _ _
        (λ register. ok-Only IsQuery (Command.raw_read_dp_reg register) tt)
        (below-Only IsQuery (strip_prefix (ascii "/ap/read/") path) _ _
          (λ rest.
            two_parts-Only IsQuery (split rest) _
              (λ a r. ok-Only IsQuery (Command.raw_read_ap_reg a r) tt))
          (no_path-Only IsQuery))

  from_rest_config-IsQuery :
      (path : Text) (body : Option j.Value) → Only IsQuery (from_rest_config j Method.get path body)
  unfolding from_rest_config IsQuery
  from_rest_config-IsQuery path body =
      at_path-Only IsQuery _ path _ _ (λ _. ok-Only IsQuery Command.get_speed tt)
        (no_path-Only IsQuery)

  of_type-IsQuery :
      (rest_type : Rest) (path : Text) (body : Option j.Value)
      → Only IsQuery (of_type j rest_type Method.get path body)
  of_type-IsQuery Rest.target = from_rest_target-IsQuery
  of_type-IsQuery Rest.raw = from_rest_raw-IsQuery
  of_type-IsQuery Rest.swd_config = from_rest_config-IsQuery

  -- Whatever its path and its body, a GET request becomes no command but those that read the status,
  -- the details, the errors, the speed, a word of memory or a register.
  pub from_rest-IsQuery :
      (rest_type : Rest) (path : Text) (body : Option Text)
      → Only IsQuery (from_rest j rest_type Method.get path body)
  unfolding from_rest
  from_rest-IsQuery rest_type path body =
      and_then-Only IsQuery (parse_json_body j body) _ (of_type-IsQuery rest_type path)

  -- A request below `/api/config/swd` that stores settings has the rest `/swd/flash` of its path.
  pub from_rest_config-StoresAt :
      (method : Method) (path : Text) (body : Option j.Value)
      → Only (StoresAt (ascii "/swd/flash") path) (from_rest_config j method path body)
  unfolding from_rest_config StoresAt
  from_rest_config-StoresAt Method.get path body =
      let P = StoresAt (ascii "/swd/flash") path in
      at_path-Only P _ path _ _ (λ _. ok-Only P Command.get_speed tt) (no_path-Only P)
  from_rest_config-StoresAt Method.post path body =
      let P = StoresAt (ascii "/swd/flash") path in
      at_path-Only P _ path _ _
        (λ _. needed-Only P body _ (λ b.
          needed-Only P (j.as_str (j.at b (ascii "speed"))) _ (λ speed_str.
            and_then-Only P (speed_of_text speed_str) _
              (λ speed. ok-Only P (Command.set_speed speed) tt))))
        (at_path-Only P _ path _ _
          (λ _. needed-Only P body _ (λ b. needed-Only P (j.to_settings b) _ (λ settings.
            ok-Only P (Command.update_settings SettingsSource.from_runtime settings) tt)))
          (at_path-Only P _ path _ _
            (λ e. needed-Only P body _ (λ b. needed-Only P (j.to_settings b) _ (λ settings.
              ok-Only P (Command.update_settings SettingsSource.from_flash settings) e)))
            (no_path-Only P)))
