-- ===== src/Config/NetKey.antt =====
-- The keys of the object that `Net::deserialize` of airfrog/src/config.rs reads.

pub data NetKey : Type 0 where
  mode sta_ssid sta_password sta_v4_dhcp sta_v4_ip sta_v4_netmask sta_v4_gw : NetKey
  sta_v4_dns0 sta_v4_dns1 sta_v4_ntp ap_ssid ap_password ap_v4_ip ap_v4_netmask : NetKey
