-- ===== src/Config/Net.antt =====
-- `NetMode` and `Net` of airfrog/src/config.rs, and the text that `Net` holds as arrays of bytes. Text
-- is its UTF-8 bytes.
use airfrog.Prelude.{
  ℕ, zero, suc, ◌≡◌, refl, Bool, true, false, Option, some, none, List, [], ◌∷◌, ◌++◌, length,
  get_or, map,
}
use mathlib.Core.Option
use airfrog.Prelude.Bytes.{u32_to_le_bytes}
use airfrog.Config.Layout.{u32_of, joined, fields, fields-joined}

pub data NetMode : Type 0 where
  sta_fallback_to_ap ap_only : NetMode

unfoldable pub is_sta : NetMode → Bool
is_sta NetMode.sta_fallback_to_ap = true
is_sta NetMode.ap_only = false

unfoldable pub is_ap : NetMode → Bool
is_ap NetMode.sta_fallback_to_ap = true
is_ap NetMode.ap_only = true

-- `#[repr(u32)]`
abbrev pub mode_number : NetMode → ℕ
mode_number NetMode.sta_fallback_to_ap = 0
mode_number NetMode.ap_only = 1

-- A number that no mode has makes the `Net` undefined behaviour.
abbrev pub mode_of : ℕ → Option NetMode
mode_of zero = some NetMode.sta_fallback_to_ap
mode_of (suc zero) = some NetMode.ap_only
mode_of (suc (suc n)) = none

pub record Net : Type 0 where
  pub mode : NetMode
  pub sta_ssid : List ℕ
  pub sta_password : List ℕ
  pub sta_v4_dhcp : ℕ
  pub pad0 : List ℕ
  pub sta_v4_ip : List ℕ
  pub sta_v4_netmask : List ℕ
  pub sta_v4_gw : List ℕ
  pub sta_v4_dns0 : List ℕ
  pub sta_v4_dns1 : List ℕ
  pub sta_v4_ntp : List ℕ
  pub ap_ssid : List ℕ
  pub ap_password : List ℕ
  pub ap_v4_ip : List ℕ
  pub ap_v4_netmask : List ℕ

-- The fields of a `Net` as bytes, in the order of `#[repr(C)]`.
unfoldable pub net_fields : Net → List (List ℕ)
net_fields n =
    u32_to_le_bytes (mode_number n.mode)
    ∷ n.sta_ssid
    ∷ n.sta_password
    ∷ (n.sta_v4_dhcp ∷ [])
    ∷ n.pad0
    ∷ n.sta_v4_ip
    ∷ n.sta_v4_netmask
    ∷ n.sta_v4_gw
    ∷ n.sta_v4_dns0
    ∷ n.sta_v4_dns1
    ∷ n.sta_v4_ntp
    ∷ n.ap_ssid
    ∷ n.ap_password
    ∷ n.ap_v4_ip
    ∷ n.ap_v4_netmask
    ∷ []

abbrev pub net_sizes : List ℕ
net_sizes = 4 ∷ 32 ∷ 64 ∷ 1 ∷ 3 ∷ 4 ∷ 4 ∷ 4 ∷ 4 ∷ 4 ∷ 4 ∷ 32 ∷ 64 ∷ 4 ∷ 4 ∷ []

unfoldable pub net_of_fields : List (List ℕ) → Option Net
net_of_fields
      (mode ∷ sta_ssid ∷ sta_password ∷ sta_v4_dhcp ∷ pad0 ∷ sta_v4_ip ∷ sta_v4_netmask ∷ sta_v4_gw
        ∷ sta_v4_dns0 ∷ sta_v4_dns1 ∷ sta_v4_ntp ∷ ap_ssid ∷ ap_password ∷ ap_v4_ip ∷ ap_v4_netmask
        ∷ []) =
    Option.map
      (λ m. record {
        mode = m;
        sta_ssid = sta_ssid;
        sta_password = sta_password;
        sta_v4_dhcp = get_or sta_v4_dhcp 0 0;
        pad0 = pad0;
        sta_v4_ip = sta_v4_ip;
        sta_v4_netmask = sta_v4_netmask;
        sta_v4_gw = sta_v4_gw;
        sta_v4_dns0 = sta_v4_dns0;
        sta_v4_dns1 = sta_v4_dns1;
        sta_v4_ntp = sta_v4_ntp;
        ap_ssid = ap_ssid;
        ap_password = ap_password;
        ap_v4_ip = ap_v4_ip;
        ap_v4_netmask = ap_v4_netmask;
      })
      (mode_of (u32_of mode))
net_of_fields _ = none

-- `Net::from_bytes`
unfoldable pub net_from_bytes : List ℕ → Option Net
net_from_bytes bs = net_of_fields (fields net_sizes bs)

-- The arrays have the lengths of their types.
unfoldable pub HasNetSizes : Net → Type 0
HasNetSizes n = map length (net_fields n) ≡ net_sizes

mode_of-bytes : (m : NetMode) → mode_of (u32_of (u32_to_le_bytes (mode_number m))) ≡ some m
mode_of-bytes NetMode.sta_fallback_to_ap = refl
mode_of-bytes NetMode.ap_only = refl

net_of_fields-fields : (n : Net) → net_of_fields (net_fields n) ≡ some n
unfolding net_of_fields net_fields
net_of_fields-fields n = rw (mode_of-bytes n.mode) refl

-- A `Net` that is copied to a slice is the one that is read there.
pub net_from_bytes-joined :
    (n : Net) (rest : List ℕ)
    → HasNetSizes n
    → net_from_bytes (joined (net_fields n) ++ rest) ≡ some n
unfolding net_from_bytes HasNetSizes
net_from_bytes-joined n rest h =
    rw (fields-joined net_sizes (net_fields n) rest h) (net_of_fields-fields n)
