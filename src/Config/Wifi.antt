-- ===== src/Config/Wifi.antt =====
-- `WrappedConfig::wifi_config` of airfrog/src/config.rs, and the conversions of `Swd` from and to the
-- settings of the target task.
use airfrog.Prelude.{
  ℕ, ◌+◌, ◌*◌, ◌^◌, ◌==◌, ◌≡◌, refl, arith, Bool, not, ◌&&◌, if◌then◌else◌, Option, some, none,
  List, [], ◌∷◌, get_or,
}
use mathlib.Core.Option
use airfrog.Swd.Wire.Protocol.{Speed}
use airfrog.Config.Netmask.{netmask_to_prefix}
use airfrog.Config.Net.{Net, NetMode}
use airfrog.Config.Partition.{Swd, WrappedConfig}
use airfrog.Config.Text.{get_string, ap_password}

-- What is told to `embassy_net`.
pub data NetConfig : Type 0 where
  dhcp : NetConfig
  static_v4 :
      (address : List ℕ) (prefix : ℕ) (gateway : List ℕ) (dns_servers : List (List ℕ)) → NetConfig

pub record InterfaceConfig : Type 0 where
  pub ssid : List ℕ
  pub password : List ℕ
  pub net : NetConfig

pub record Wifi : Type 0 where
  pub mode : NetMode
  pub sta_if : Option InterfaceConfig
  pub ap_if : Option InterfaceConfig

-- `u32::from_be_bytes`
abbrev pub u32_from_be_bytes : List ℕ → ℕ
u32_from_be_bytes bs =
    get_or bs 0 0 * 2 ^ 24 + get_or bs 1 0 * 2 ^ 16 + get_or bs 2 0 * 2 ^ 8 + get_or bs 3 0

abbrev pub all_are : ℕ → List ℕ → Bool
all_are v bs =
    (get_or bs 0 0 == v) && (get_or bs 1 0 == v) && (get_or bs 2 0 == v) && (get_or bs 3 0 == v)

unfoldable pub dns_list : List (List ℕ) → List (List ℕ)
dns_list [] = []
dns_list (ip ∷ ips) =
    let rest = dns_list ips in
    if not (all_are 0 ip) && not (all_are 0xff ip) then ip ∷ rest else rest

unfoldable pub static_config : (ip netmask gateway : List ℕ) → List (List ℕ) → NetConfig
static_config ip netmask gateway dns =
    NetConfig.static_v4 ip (netmask_to_prefix (u32_from_be_bytes netmask)) gateway (dns_list dns)

-- `unwrap_or_default()`
abbrev pub or_empty : Option (List ℕ) → List ℕ
or_empty none = []
or_empty (some s) = s

unfoldable pub sta_config : Net → NetConfig
sta_config n =
    if n.sta_v4_dhcp == 1
    then NetConfig.dhcp
    else static_config n.sta_v4_ip n.sta_v4_netmask n.sta_v4_gw (n.sta_v4_dns0 ∷ n.sta_v4_dns1 ∷ [])

unfoldable pub wifi_config : WrappedConfig → Wifi
wifi_config w = record {
  mode = w.net.mode;
  sta_if =
      Option.map
        (λ ssid. record {
          ssid = ssid;
          password = or_empty (get_string w.net.sta_password);
          net = sta_config w.net;
        })
        (get_string w.net.sta_ssid);
  ap_if =
      Option.map
        (λ ssid. record {
          ssid = ssid;
          password = or_empty (ap_password w.net);
          net = static_config w.net.ap_v4_ip w.net.ap_v4_netmask w.net.ap_v4_ip [];
        })
        (get_string w.net.ap_ssid);
}

-- `Settings` of airfrog/src/target/mod.rs.
pub record Settings : Type 0 where
  pub speed : Speed
  pub auto_connect : Bool
  pub keepalive : Bool
  pub refresh : Bool

unfoldable pub settings_of_swd : Swd → Settings
settings_of_swd s = record {
  speed = s.speed;
  auto_connect = s.auto_connect == 1;
  keepalive = s.keep_alive == 1;
  refresh = s.refresh == 1;
}

abbrev pub flag : Bool → ℕ
flag b = if b then 1 else 0

unfoldable pub swd_of_settings : Settings → Swd
swd_of_settings s = record {
  speed = s.speed;
  auto_connect = flag s.auto_connect;
  keep_alive = flag s.keepalive;
  refresh = flag s.refresh;
  pad0 = 0;
}

flag-is_one : (b : Bool) → (flag b == 1) ≡ b
flag-is_one b = ground arith

-- Settings that are put into the configuration are taken out of it unchanged.
pub settings_of_swd-swd_of_settings : (s : Settings) → settings_of_swd (swd_of_settings s) ≡ s
unfolding settings_of_swd swd_of_settings
settings_of_swd-swd_of_settings s =
    rw (flag-is_one s.auto_connect, flag-is_one s.keepalive, flag-is_one s.refresh) refl
