-- ===== src/Config/Json.antt =====
-- `Net::deserialize` of airfrog/src/config.rs, over the accessors of `serde_json::Value`.
use airfrog.Prelude.{
  ℕ, ◌==◌, ltb, Bool, true, false, not, ◌&&◌, if◌then◌else◌, Option, some, none, List, [], ◌∷◌,
  get_or, length, replicate,
}
use airfrog.Config.Layout.{padded}
use airfrog.Config.Netmask.{netmask_ok}
use airfrog.Config.Net.{Net, NetMode}
use airfrog.Config.NetKey.{NetKey}
use airfrog.Config.Wifi.{u32_from_be_bytes}

-- What `deserialize` uses of `serde_json`; text is its UTF-8 bytes.
pub record Json : Type 1 where
  pub Value : Type 0
  pub Object : Type 0
  pub as_object : Value → Option Object
  pub get : Object → NetKey → Option Value
  pub as_str : Value → Option (List ℕ)
  pub as_array : Value → Option (List Value)
  pub as_u64 : Value → Option ℕ
  pub as_bool : Value → Option Bool

infixl 5 ◌>>=◌
abbrev pub ◌>>=◌ {ℓ κ} : {A : Type ℓ} {B : Type κ} → Option A → (A → Option B) → Option B
none >>= f = none
some a >>= f = f a

-- `"StaFallbackToAp"` and `"ApOnly"`
abbrev pub sta_fallback_to_ap_text : List ℕ
sta_fallback_to_ap_text =
    0x53 ∷ 0x74 ∷ 0x61 ∷ 0x46 ∷ 0x61 ∷ 0x6c ∷ 0x6c ∷ 0x62 ∷ 0x61 ∷ 0x63 ∷ 0x6b ∷ 0x54 ∷ 0x6f ∷ 0x41
    ∷ 0x70 ∷ []

abbrev pub ap_only_text : List ℕ
ap_only_text = 0x41 ∷ 0x70 ∷ 0x4f ∷ 0x6e ∷ 0x6c ∷ 0x79 ∷ []

abbrev pub same_text : List ℕ → List ℕ → Bool
same_text [] [] = true
same_text (x ∷ xs) (y ∷ ys) = (x == y) && same_text xs ys
same_text _ _ = false

unfoldable pub mode_of_text : List ℕ → Option NetMode
mode_of_text s =
    if same_text s sta_fallback_to_ap_text
    then some NetMode.sta_fallback_to_ap
    else if same_text s ap_only_text
    then some NetMode.ap_only
    else none

module _ (j : Json) where
  abbrev pub text_at : j.Object → NetKey → Option (List ℕ)
  text_at obj key = j.get obj key >>= j.as_str

  -- The loop of `parse_ip`.
  unfoldable pub ip_bytes : List j.Value → Option (List ℕ)
  ip_bytes [] = some []
  ip_bytes (v ∷ vs) =
      let rest = ip_bytes vs in
      j.as_u64 v >>= (λ num. if ltb 255 num then none else rest >>= (λ bs. some (num ∷ bs)))

  unfoldable pub parse_ip : j.Object → NetKey → Option (List ℕ)
  parse_ip obj key =
      j.get obj key >>= j.as_array >>= (λ arr. if not (length arr == 4) then none else ip_bytes arr)

  unfoldable pub parse_netmask : j.Object → NetKey → Bool → Option (List ℕ)
  parse_netmask obj key class_c = parse_ip obj key >>= (λ ip.
      if class_c && not (get_or ip 3 0 == 0)
      then none
      else if not (netmask_ok (u32_from_be_bytes ip))
      then none
      else some ip)

  unfoldable pub parse_mode : j.Object → Option NetMode
  parse_mode obj = text_at obj NetKey.mode >>= mode_of_text

  -- The password of the access point, of at least 8 bytes.
  unfoldable pub parse_ap_password : j.Object → Option (List ℕ)
  parse_ap_password obj =
      text_at obj NetKey.ap_password >>= (λ s. if ltb (length s) 8 then none else some s)

  unfoldable pub parse_dhcp : j.Object → Option ℕ
  parse_dhcp obj = j.get obj NetKey.sta_v4_dhcp >>= j.as_bool >>= (λ b. some (if b then 1 else 0))

  unfoldable pub deserialize_object : j.Object → Option Net
  deserialize_object obj = do
    mode ← parse_mode obj
    sta_ssid ← text_at obj NetKey.sta_ssid
    sta_password ← text_at obj NetKey.sta_password
    ap_ssid ← text_at obj NetKey.ap_ssid
    ap_password ← parse_ap_password obj
    dhcp ← parse_dhcp obj
    sta_v4_ip ← parse_ip obj NetKey.sta_v4_ip
    sta_v4_netmask ← parse_netmask obj NetKey.sta_v4_netmask false
    sta_v4_gw ← parse_ip obj NetKey.sta_v4_gw
    sta_v4_dns0 ← parse_ip obj NetKey.sta_v4_dns0
    sta_v4_dns1 ← parse_ip obj NetKey.sta_v4_dns1
    sta_v4_ntp ← parse_ip obj NetKey.sta_v4_ntp
    ap_v4_ip ← parse_ip obj NetKey.ap_v4_ip
    ap_v4_netmask ← parse_netmask obj NetKey.ap_v4_netmask true
    some (record {
      mode = mode;
      sta_ssid = padded 32 sta_ssid;
      sta_password = padded 64 sta_password;
      sta_v4_dhcp = dhcp;
      pad0 = replicate 3 0;
      sta_v4_ip = sta_v4_ip;
      sta_v4_netmask = sta_v4_netmask;
      sta_v4_gw = sta_v4_gw;
      sta_v4_dns0 = sta_v4_dns0;
      sta_v4_dns1 = sta_v4_dns1;
      sta_v4_ntp = sta_v4_ntp;
      ap_ssid = padded 32 ap_ssid;
      ap_password = padded 64 ap_password;
      ap_v4_ip = ap_v4_ip;
      ap_v4_netmask = ap_v4_netmask;
    })

  unfoldable pub deserialize : j.Value → Option Net
  deserialize value = j.as_object value >>= deserialize_object
