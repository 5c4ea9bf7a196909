-- ===== src/Tests/Config.antt =====
-- The configuration: common/config.c.
use re203_projet_reseau.Prelude.{◌≡◌, refl, none, some, codes, pos, ok, arith}
use re203_projet_reseau.Libc.Decimal.{show_int, digits}
use re203_projet_reseau.Messages.Regexes.{first_match}
use re203_projet_reseau.Config.{SoftwareType, Configuration, read_line}
use re203_projet_reseau.Config.Settings.{Setting, read_line-setting}
use re203_projet_reseau.Tests.{prefix_matcher}

abbrev unset : Configuration
unset = record {
  type = SoftwareType.router;
  controller_address = none;
  router_port = none;
  controller_port = none;
  poll_timeout_value = none;
  controller_update_interval = none;
  router_update_interval = none;
  default_ttl_value = none;
  default_ping_packet_count = none;
  default_packet_timeout_value = none;
  default_dv_timeout_value = none;
}

read_line-setting_example :
    read_line prefix_matcher unset (codes "router-port = 4242\n")
    ≡ ok (record unset { router_port = some (pos 4242) })
unfolding first_match show_int digits
read_line-setting_example =
    read_line-setting prefix_matcher Setting.router_port (pos 4242) unset (omega arith) refl
