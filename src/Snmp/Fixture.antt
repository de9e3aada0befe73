-- ===== src/Snmp/Fixture.antt =====
-- internal/snmpload/plan.go: the identity of one SNMP episode, derived from the run.
use oscar_corrtest.Base.{
  ℕ, ◌%◌, String, Bool, ◌&&◌, ◌||◌, not, List, [], ◌∷◌, ltb, leb, ◌==◌, str_eq, if◌then◌else◌, all,
  length, codes, decimal, ◌⧺◌, Result, ok, err,
}

pub data Error : Type 0 where
  bad_options unknown_profile bad_identity unknown_family : Error

pub record Varbind : Type 0 where
  pub oid : String
  pub kind : String
  pub value : String

pub record Episode : Type 0 where
  pub family : String
  pub token : String
  pub mapping : String
  pub mapping_source : String
  pub mapping_sha256 : String
  pub alert_name : String
  pub alert_group : String
  pub agent : String
  pub severity : String
  pub alert_key : String
  pub problem_oid : String
  pub clear_oid : String
  pub varbinds : List Varbind

-- [A-Za-z0-9_-]
abbrev id_char : ℕ → Bool
id_char c =
    (leb b'A' c && leb c b'Z')
    || (leb b'a' c && leb c b'z')
    || (leb b'0' c && leb c b'9')
    || c == b'_'
    || c == b'-'

unfoldable pub run_id_ok : String → Bool
run_id_ok s = leb 1 (length (codes s)) && leb (length (codes s)) 80 && all id_char (codes s)

abbrev bind_s : String → String → Varbind
bind_s oid value = record { oid = oid; kind = "s"; value = value }

abbrev bind_u : String → String → Varbind
bind_u oid value = record { oid = oid; kind = "u"; value = value }

abbrev dhcpv6_episode : String → String → Episode
dhcpv6_episode token iface = record {
  family = "dhcpv6-limit";
  token = token;
  mapping = "1.3.6.1.4.1.2636.3.62.62.2.3";
  mapping_source = "juniper-jdhcpv6-mapping.json";
  mapping_sha256 = "a108b4efdc582f2fbcc80de40277c48320c6c3728e5d09b82fa0d5097eba534a";
  alert_name = "jnx_jdhcpv6_local_server_interface_limit_status";
  alert_group = "jnxJdhcpv6LocalServerInterfaceLimitStatus";
  agent = "JUNIPER-JDHCPV6-MIB";
  severity = "major";
  alert_key = "jnxJdhcpv6RouterName:" ⧺ token ⧺ ", jnxJdhcpv6LocalServerInterfaceName:" ⧺ iface;
  problem_oid = "1.3.6.1.4.1.2636.3.62.62.2.3" ⧺ ".0.1";
  clear_oid = "1.3.6.1.4.1.2636.3.62.62.2.3" ⧺ ".0.2";
  varbinds =
      bind_s "1.3.6.1.4.1.2636.3.62.62.2.4.1.0" token
      ∷ bind_s "1.3.6.1.4.1.2636.3.62.62.2.4.2.0" iface
      ∷ bind_u "1.3.6.1.4.1.2636.3.62.62.2.4.3.0" "2048"
      ∷ [];
}

abbrev dhcp_episode : String → String → Episode
dhcp_episode token iface = record {
  family = "dhcp-limit";
  token = token;
  mapping = "1.3.6.1.4.1.2636.3.61.61.1.3";
  mapping_source = "juniper-jdhcp-jdhcp-1-3-mapping.json";
  mapping_sha256 = "97816fe5ee90dc61434f64b042604d6bbd3622a08d6ab33402703681c34cd462";
  alert_name = "jnx_jdhcp_local_server_interface_limit_status";
  alert_group = "jnxJdhcpLocalServerInterfaceLimitStatus";
  agent = "JUNIPER-JDHCP-MIB";
  severity = "major";
  alert_key = "jnxJdhcpRouterName:" ⧺ token ⧺ ", jnxJdhcpLocalServerInterfaceName:" ⧺ iface;
  problem_oid = "1.3.6.1.4.1.2636.3.61.61.1.3" ⧺ ".0.2";
  clear_oid = "1.3.6.1.4.1.2636.3.61.61.1.3" ⧺ ".0.3";
  varbinds =
      bind_s "1.3.6.1.4.1.2636.3.61.61.1.4.2.0" token
      ∷ bind_s "1.3.6.1.4.1.2636.3.61.61.1.4.4.0" iface
      ∷ bind_u "1.3.6.1.4.1.2636.3.61.61.1.4.5.0" "1024"
      ∷ [];
}

abbrev aaa_mapping : String
aaa_mapping = "1.3.6.1.4.1.2636.3.51.1"

abbrev aaa_episode : String → Episode
aaa_episode token = record {
  family = "aaa-server";
  token = token;
  mapping = aaa_mapping;
  mapping_source = "juniper-user-aaa-mapping.json";
  mapping_sha256 = "d830dd889e87773fad3ad87a54c8eac6869cf7dac2ed4fb95798e521a812dad9";
  alert_name = "jnx_access_auth_server_status";
  alert_group = "jnxAccessAuthServerStatus";
  agent = "JUNIPER-USER-AAA-MIB";
  severity = "critical";
  alert_key = "jnxUserAAAServerName:" ⧺ token;
  problem_oid = aaa_mapping ⧺ ".0.3";
  clear_oid = aaa_mapping ⧺ ".0.4";
  varbinds = bind_s (aaa_mapping ⧺ ".1.3.1.0") token ∷ [];
}

abbrev pool_episode : String → Episode
pool_episode token = record {
  family = "address-pool";
  token = token;
  mapping = aaa_mapping;
  mapping_source = "juniper-user-aaa-mapping.json";
  mapping_sha256 = "d830dd889e87773fad3ad87a54c8eac6869cf7dac2ed4fb95798e521a812dad9";
  alert_name = "jnx_access_auth_address_pool_threshold_status";
  alert_group = "jnxAccessAuthAddressPoolThresholdStatus";
  agent = "JUNIPER-USER-AAA-MIB";
  severity = "major";
  alert_key = "jnxUserAAAAddressPoolName:" ⧺ token;
  problem_oid = aaa_mapping ⧺ ".0.5";
  clear_oid = aaa_mapping ⧺ ".0.6";
  varbinds = bind_s (aaa_mapping ⧺ ".1.3.2.0") token ∷ [];
}

unfoldable pub token_of : String → ℕ → String
token_of run_id sequence = "ct-" ⧺ run_id ⧺ "-" ⧺ decimal sequence

abbrev interface : String → ℕ → String
interface tail sequence = "ge-0/0/" ⧺ decimal (sequence % 48) ⧺ tail

-- The `switch` on the family.
unfoldable pub by_family : String → ℕ → String → Result Error Episode
unfolding token_of
by_family run_id sequence family =
    let token = token_of run_id sequence in
    if str_eq family "dhcpv6-limit"
    then ok (dhcpv6_episode token (interface ".200" sequence))
    else if str_eq family "dhcp-limit"
    then ok (dhcp_episode token (interface ".100" sequence))
    else if str_eq family "aaa-server"
    then ok (aaa_episode token)
    else if str_eq family "address-pool"
    then ok (pool_episode token)
    else err unknown_family

unfoldable pub fixture : String → ℕ → String → Result Error Episode
fixture run_id sequence family =
    if not (run_id_ok run_id) || ltb 15000 sequence
    then err bad_identity
    else by_family run_id sequence family
