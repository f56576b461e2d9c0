-- ===== src/Config/Examples.antt =====
-- The theorems on the configuration at concrete inputs. The flash has one partition, at index 2, and
-- the checksum is the sum of the bytes.
use airfrog.Prelude.{
  ℕ, ◌+◌, ◌-◌, ◌%◌, ◌^◌, ◌==◌, ◌<◌, ◌≡◌, ◌↔◌, refl, arith, Bool, true, false, if◌then◌else◌, some,
  none, List, [], ◌∷◌, ◌++◌,
}
use airfrog.Bin.Error.{ok}
use airfrog.Config.Layout.{total, padded, write_at, joined}
use airfrog.Config.Net.{Net, NetMode}
use airfrog.Config.Netmask.{netmask_ok, netmask_to_prefix, count_ones, netmask_ok_iff}
use airfrog.Config.Partition.{
  WrappedConfig, build_config_partition, create_static_config, laid_out, blank, config_fields,
}
use airfrog.Config.Partition.RoundTrip.{create_static_config-build}
use airfrog.Config.Store.{
  Storage, Started, Defaults, default_config, default_net, default_swd, default_header,
  config_part_type, read_from_partition, write_to_partition, get_partition_entry, store_config,
  read_config,
}
use airfrog.Config.Store.Loaded.{
  IsSane, loads, default_net-HasNetSizes, default_config-IsStorable, read_config-loads,
}
use airfrog.Config.Store.Stored.{IsFaithful, read_config-store_config}
use airfrog.Config.NetKey.{NetKey}
use airfrog.Config.Json.{
  Json, deserialize, deserialize_object, parse_mode, parse_ip, parse_netmask, parse_ap_password,
  parse_dhcp, ip_bytes, mode_of_text, ap_only_text,
}
use airfrog.Config.Accepted.{IsAccepted, deserialize-IsAccepted}
use airfrog.Config.Text.{is_utf8, is_utf8_from, lead, trimmed, get_string}

abbrev one_partition : Storage
one_partition = record {
  State = List ℕ;
  Table = Unit {0};
  Entry = Unit {0};
  read_partition_table = λ s. (some tt, s);
  get_partition = λ pt i. if i == 2 then some tt else none;
  partition_type = λ part. 0x81;
  len = λ part. 0x400;
  read = λ part offset size s. (some s, s);
  write = λ part offset bs s. (true, bs);
}

one_partition-IsFaithful : IsFaithful one_partition
one_partition-IsFaithful = record {
  table_keeps = λ s. refl;
  read_keeps = λ part offset n s. refl;
  table_stays = λ part offset bs s h. refl;
  written = λ part offset bs s h. refl;
}

abbrev sum : List ℕ → ℕ
sum bs = total bs % 2 ^ 32

sum-is_u32 : (bs : List ℕ) → sum bs < 2 ^ 32
sum-is_u32 bs = omega arith

abbrev release : Defaults
release = record {
  part_index = 2;
  major = 0;
  minor = 1;
  patch = 7;
  sta_ssid_text = [];
  sta_password_text = [];
  mac = 0 ∷ 1 ∷ 2 ∷ 3 ∷ 0xab ∷ 0xcd ∷ [];
}

release-IsSane : IsSane 5 release
unfolding IsSane
release-IsSane = (omega arith, omega arith, omega arith, omega arith)

abbrev fresh : WrappedConfig
fresh = record { config = default_config release; net = default_net release; swd = default_swd }

netmask_ok_iff_example :
    (netmask_ok 0xffff_fe00 ≡ true)
    ↔ (0xffff_fe00 + 2 ^ (32 - netmask_to_prefix 0xffff_fe00) ≡ 2 ^ 32)
netmask_ok_iff_example = netmask_ok_iff 0xffff_fe00 (omega arith)

holed_mask : netmask_ok 0xff00_ff00 ≡ false
unfolding netmask_ok
holed_mask = refl

prefix_23 : netmask_to_prefix 0xffff_fe00 ≡ 23
unfolding netmask_to_prefix count_ones
prefix_23 = refl

create_static_config-build_example :
    create_static_config sum 5 (build_config_partition sum 5 fresh.config fresh.net fresh.swd).0
    ≡ ok (record {
      config = (build_config_partition sum 5 fresh.config fresh.net fresh.swd).1;
      net = fresh.net;
      swd = fresh.swd;
    })
create_static_config-build_example =
    create_static_config-build sum 5 sum-is_u32 fresh.config fresh.net fresh.swd
      (default_config-IsStorable 5 release release-IsSane) (default_net-HasNetSizes release)

read_config-loads_example :
    (read_config one_partition sum 5 release (1 ∷ 2 ∷ [])).0
    ≡ loads one_partition sum 5 release sum-is_u32
        (read_from_partition one_partition sum 5 release 2 0 config_part_type 0x400 (1 ∷ 2 ∷ [])).0
read_config-loads_example =
    read_config-loads one_partition sum 5 release sum-is_u32 (1 ∷ 2 ∷ []) release-IsSane

stored_ok : (store_config one_partition sum 5 release fresh []).0.0 ≡ ok tt
unfolding store_config read_from_partition write_to_partition get_partition_entry
    build_config_partition laid_out blank write_at joined config_fields default_config
    default_header
stored_ok = refl

read_config-store_config_example :
    (read_config one_partition sum 5 release
      (store_config one_partition sum 5 release fresh []).0.1).0
    ≡ Started.loaded (store_config one_partition sum 5 release fresh []).1
read_config-store_config_example =
    read_config-store_config one_partition sum 5 release sum-is_u32 one_partition-IsFaithful fresh
      [] (default_config-IsStorable 5 release release-IsSane) (default_net-HasNetSizes release)
      stored_ok

-- "Zürich"
abbrev zurich : List ℕ
zurich = 0x5a ∷ 0xc3 ∷ 0xbc ∷ 0x72 ∷ 0x69 ∷ 0x63 ∷ 0x68 ∷ []

zurich_utf8 : is_utf8 zurich ≡ true
unfolding is_utf8_from lead
zurich_utf8 = refl

-- Text that is cut within a character is lost.
cut_text : get_string (padded 2 zurich) ≡ none
unfolding get_string padded write_at is_utf8_from lead trimmed
cut_text = refl

-- The values of one request.
data Sent : Type 0 where
  text : List ℕ → Sent
  number : ℕ → Sent
  truth : Bool → Sent
  four : Sent → Sent → Sent → Sent → Sent
  settings : Sent

abbrev sent : NetKey → Sent
sent NetKey.mode = text ap_only_text
sent NetKey.sta_ssid = text zurich
sent NetKey.sta_password = text []
sent NetKey.sta_v4_dhcp = truth true
sent NetKey.ap_ssid = text zurich
sent NetKey.ap_password = text (zurich ++ zurich)
sent NetKey.sta_v4_netmask = four (number 255) (number 255) (number 254) (number 0)
sent NetKey.ap_v4_netmask = four (number 255) (number 255) (number 255) (number 0)
sent _ = four (number 10) (number 0) (number 0) (number 1)

abbrev request : Json
request = record {
  Value = Sent;
  Object = Unit {0};
  as_object = λ v. elim v [ settings ↦ some tt | _ ↦ none ];
  get = λ o key. some (sent key);
  as_str = λ v. elim v [ text s ↦ some s | _ ↦ none ];
  as_array = λ v. elim v [ four a b c d ↦ some (a ∷ b ∷ c ∷ d ∷ []) | _ ↦ none ];
  as_u64 = λ v. elim v [ number n ↦ some n | _ ↦ none ];
  as_bool = λ v. elim v [ truth b ↦ some b | _ ↦ none ];
}

abbrev received : Net
received = record (default_net release) {
  mode = NetMode.ap_only;
  sta_ssid = padded 32 zurich;
  sta_v4_ip = 10 ∷ 0 ∷ 0 ∷ 1 ∷ [];
  sta_v4_netmask = 255 ∷ 255 ∷ 254 ∷ 0 ∷ [];
  sta_v4_gw = 10 ∷ 0 ∷ 0 ∷ 1 ∷ [];
  sta_v4_dns0 = 10 ∷ 0 ∷ 0 ∷ 1 ∷ [];
  sta_v4_dns1 = 10 ∷ 0 ∷ 0 ∷ 1 ∷ [];
  sta_v4_ntp = 10 ∷ 0 ∷ 0 ∷ 1 ∷ [];
  ap_ssid = padded 32 zurich;
  ap_password = padded 64 (zurich ++ zurich);
  ap_v4_ip = 10 ∷ 0 ∷ 0 ∷ 1 ∷ [];
}

request_is_received : deserialize request settings ≡ some received
unfolding deserialize deserialize_object parse_mode parse_ip parse_netmask parse_ap_password
    parse_dhcp ip_bytes mode_of_text netmask_ok default_net
request_is_received = refl

deserialize-IsAccepted_example : IsAccepted received
deserialize-IsAccepted_example =
    deserialize-IsAccepted request settings received request_is_received
