-- ===== src/Config/Accepted.antt =====
-- What `Net::deserialize` of airfrog/src/config.rs accepts.
use airfrog.Prelude.{
  ℕ, suc, ◌==◌, ◌≡◌, refl, ap, ◌∙◌, arith, ltb, Bool, true, false, not, ◌&&◌, if◌then◌else◌, Option,
  some, none, List, [], ◌∷◌, get_or, length,
}
use airfrog.Config.Layout.{length-padded}
use airfrog.Config.Netmask.{netmask_ok}
use airfrog.Config.Net.{Net, HasNetSizes, net_fields}
use airfrog.Config.NetKey.{NetKey}
use airfrog.Config.Wifi.{u32_from_be_bytes}
use airfrog.Config.Json.{
  Json, ◌>>=◌, text_at, ip_bytes, parse_ip, parse_netmask, parse_mode, parse_ap_password,
  parse_dhcp, deserialize_object, deserialize,
}

-- If there is a result, it has the property.
unfoldable Yields : {A : Type 0} → (A → Type 0) → Option A → Type 0
Yields P none = Unit {0}
Yields P (some a) = P a

chain-Yields :
    {A B : Type 0} (P : A → Type 0) (Q : B → Type 0) (o : Option A) (f : A → Option B)
    → Yields P o
    → ((a : A) → P a → Yields Q (f a))
    → Yields Q (o >>= f)
unfolding Yields
chain-Yields P Q none f h k = tt
chain-Yields P Q (some a) f h k = k a h

abbrev Any : {A : Type 0} → A → Type 0
Any a = Unit {0}

Any-Yields : {A : Type 0} (o : Option A) → Yields Any o
unfolding Yields
Any-Yields none = tt
Any-Yields (some a) = tt

if-Yields :
    {A : Type 0} (P : A → Type 0) (c : Bool) (m n : Option A)
    → (c ≡ true → Yields P m)
    → (c ≡ false → Yields P n)
    → Yields P (if c then m else n)
if-Yields P true m n h k = h refl
if-Yields P false m n h k = k refl

Yields-some : {A : Type 0} (P : A → Type 0) (o : Option A) (a : A) → Yields P o → o ≡ some a → P a
unfolding Yields
Yields-some P o a h e = rw e at h

weaken-Yields :
    {A : Type 0} (P Q : A → Type 0) (o : Option A) → ((a : A) → P a → Q a) → Yields P o → Yields Q o
unfolding Yields
weaken-Yields P Q none k h = tt
weaken-Yields P Q (some a) k h = k a h

-- A netmask that the check has passed.
unfoldable pub IsNetmask : List ℕ → Type 0
IsNetmask ip = (length ip ≡ 4) × (netmask_ok (u32_from_be_bytes ip) ≡ true)

-- The arrays have their lengths, both netmasks have passed the check, and that of the access point
-- ends in a zero byte.
unfoldable pub IsAccepted : Net → Type 0
IsAccepted n =
    HasNetSizes n
    × IsNetmask n.sta_v4_netmask
    × IsNetmask n.ap_v4_netmask
    × (get_or n.ap_v4_netmask 3 0 ≡ 0)

module _ (j : Json) where
  ip_bytes-length : (vs : List j.Value) → Yields (λ bs. length bs ≡ length vs) (ip_bytes j vs)
  unfolding ip_bytes Yields
  ip_bytes-length [] = refl
  ip_bytes-length (v ∷ vs) =
      chain-Yields Any _ (j.as_u64 v)
        (λ num. if ltb 255 num then none else ip_bytes j vs >>= (λ bs. some (num ∷ bs)))
        (Any-Yields _)
        (λ num _.
          if-Yields _ (ltb 255 num) none _ (λ _. tt)
            (λ _.
              chain-Yields (λ bs. length bs ≡ length vs) _ (ip_bytes j vs) (λ bs. some (num ∷ bs))
                (ip_bytes-length vs) (λ bs h. ap suc h)))

  parse_ip-length :
      (obj : j.Object) (key : NetKey) → Yields (λ bs. length bs ≡ 4) (parse_ip j obj key)
  unfolding parse_ip Yields
  parse_ip-length obj key =
      chain-Yields Any _ (j.get obj key >>= j.as_array)
        (λ arr. if not (length arr == 4) then none else ip_bytes j arr) (Any-Yields _)
        (λ arr _.
          if-Yields _ (not (length arr == 4)) none (ip_bytes j arr) (λ _. tt)
            (λ e.
              let four : length arr ≡ 4 = ground arith in
              weaken-Yields _ _ (ip_bytes j arr) (λ bs h. h ∙ four) (ip_bytes-length arr)))

  parse_netmask-IsNetmask :
      (obj : j.Object) (key : NetKey) (class_c : Bool)
      → Yields
          (λ ip. IsNetmask ip × (class_c ≡ true → get_or ip 3 0 ≡ 0))
          (parse_netmask j obj key class_c)
  unfolding parse_netmask Yields IsNetmask
  parse_netmask-IsNetmask obj key class_c =
      chain-Yields (λ bs. length bs ≡ 4) _ (parse_ip j obj key)
        (λ ip.
          if class_c && not (get_or ip 3 0 == 0)
          then none
          else if not (netmask_ok (u32_from_be_bytes ip))
          then none
          else some ip)
        (parse_ip-length obj key)
        (λ ip len.
          if-Yields _ (class_c && not (get_or ip 3 0 == 0)) none _ (λ _. tt)
            (λ c.
              if-Yields _ (not (netmask_ok (u32_from_be_bytes ip))) none (some ip) (λ _. tt)
                (λ m. ((len, ground arith), λ isc. ground arith))))

  deserialize_object-IsAccepted : (obj : j.Object) → Yields IsAccepted (deserialize_object j obj)
  unfolding deserialize_object Yields IsAccepted IsNetmask HasNetSizes net_fields
  deserialize_object-IsAccepted obj =
      chain-Yields Any _ (parse_mode j obj) _ (Any-Yields _) (λ mode _.
        chain-Yields Any _ (text_at j obj NetKey.sta_ssid) _ (Any-Yields _) (λ sta_ssid _.
          chain-Yields Any _ (text_at j obj NetKey.sta_password) _ (Any-Yields _) (λ sta_password _.
            chain-Yields Any _ (text_at j obj NetKey.ap_ssid) _ (Any-Yields _) (λ ap_ssid _.
              chain-Yields Any _ (parse_ap_password j obj) _ (Any-Yields _) (λ ap_password _.
                chain-Yields Any _ (parse_dhcp j obj) _ (Any-Yields _) (λ dhcp _.
                  chain-Yields _ _ (parse_ip j obj NetKey.sta_v4_ip) _ (parse_ip-length obj _)
                    (λ ip ip_l.
                      chain-Yields _ _ (parse_netmask j obj NetKey.sta_v4_netmask false) _
                        (parse_netmask-IsNetmask obj _ _)
                        (λ mask mask_ok.
                          chain-Yields _ _ (parse_ip j obj NetKey.sta_v4_gw) _
                            (parse_ip-length obj _)
                            (λ gw gw_l.
                              chain-Yields _ _ (parse_ip j obj NetKey.sta_v4_dns0) _
                                (parse_ip-length obj _)
                                (λ dns0 dns0_l.
                                  chain-Yields _ _ (parse_ip j obj NetKey.sta_v4_dns1) _
                                    (parse_ip-length obj _)
                                    (λ dns1 dns1_l.
                                      chain-Yields _ _ (parse_ip j obj NetKey.sta_v4_ntp) _
                                        (parse_ip-length obj _)
                                        (λ ntp ntp_l.
                                          chain-Yields _ _ (parse_ip j obj NetKey.ap_v4_ip) _
                                            (parse_ip-length obj _)
                                            (λ ap_ip ap_ip_l.
                                              chain-Yields _ _
                                                (parse_netmask j obj NetKey.ap_v4_netmask true) _
                                                (parse_netmask-IsNetmask obj _ _)
                                                (λ ap_mask ap_mask_ok. (
                                                  rw
                                                      (
                                                        length-padded 32 sta_ssid,
                                                        length-padded 64 sta_password,
                                                        ip_l,
                                                        mask_ok.0.0,
                                                        gw_l,
                                                        dns0_l,
                                                        dns1_l,
                                                        ntp_l,
                                                        length-padded 32 ap_ssid,
                                                        length-padded 64 ap_password,
                                                        ap_ip_l,
                                                        ap_mask_ok.0.0,
                                                      )
                                                      refl,
                                                  mask_ok.0,
                                                  ap_mask_ok.0,
                                                  ap_mask_ok.1 refl,
                                                )))))))))))))))

  -- A network configuration that is accepted from the web has arrays of the right lengths, netmasks
  -- that pass the check, and a netmask of the access point that ends in a zero byte.
  pub deserialize-IsAccepted :
      (value : j.Value) (n : Net) → deserialize j value ≡ some n → IsAccepted n
  unfolding deserialize
  deserialize-IsAccepted value n h =
      Yields-some IsAccepted (deserialize j value) n
        (chain-Yields Any _ (j.as_object value) (deserialize_object j) (Any-Yields _)
          (λ obj _. deserialize_object-IsAccepted obj))
        h
