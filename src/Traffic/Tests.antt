-- ===== src/Traffic/Tests.antt =====
-- The traffic filter at concrete policies.
use ecs_dev_desktop.Common.{true, false, [], ◌∷◌, ◌≡◌, refl, string_eq}
use ecs_dev_desktop.Traffic.{
  TrafficFilterPolicy, allow, block, compile_traffic_filter, validate_traffic_filter_policy,
  is_cidr, is_country, effective_asns, compiled, type_error, ipv6_not_supported, not_a_cidr,
  admits_no_sources, ip, geo, asn, managed_anonymous,
}
use ecs_dev_desktop.Traffic.Compiled.{IsFaithful, compile-IsFaithful}

abbrev office : TrafficFilterPolicy
office = record {
  mode = allow;
  cidrs = "203.0.113.0/24" ∷ [];
  countries = "DE" ∷ [];
  asns = 64500 ∷ 14061 ∷ [];
  presets = "digitalocean" ∷ "ovh" ∷ [];
  block_anonymous = true;
}

office_compiles :
    compile_traffic_filter office
    ≡ compiled (record {
      default_action = block;
      rules =
          managed_anonymous
          ∷ ip allow ("203.0.113.0/24" ∷ [])
          ∷ geo allow ("DE" ∷ [])
          ∷ asn allow (14061 ∷ 16276 ∷ 64500 ∷ [])
          ∷ [];
    })
unfolding compile_traffic_filter validate_traffic_filter_policy effective_asns is_cidr is_country
office_compiles = refl

refused_cidrs :
    validate_traffic_filter_policy
      (record office { cidrs = "10.0.0.256/8" ∷ "2001:db8::/32" ∷ "010.0.0.1/8" ∷ [] })
    ≡ not_a_cidr "10.0.0.256/8" ∷ ipv6_not_supported "2001:db8::/32" ∷ not_a_cidr "010.0.0.1/8" ∷ []
unfolding validate_traffic_filter_policy is_cidr is_country
refused_cidrs = refl

lockout_refused :
    validate_traffic_filter_policy (record {
      mode = allow;
      cidrs = [];
      countries = [];
      asns = [];
      presets = [];
      block_anonymous = false;
    })
    ≡ admits_no_sources ∷ []
unfolding validate_traffic_filter_policy
lockout_refused = refl

inherited_preset_throws :
    compile_traffic_filter (record office { presets = "constructor" ∷ [] }) ≡ type_error
unfolding compile_traffic_filter validate_traffic_filter_policy effective_asns is_cidr is_country
inherited_preset_throws = refl

compile-IsFaithful_example : IsFaithful office (compile_traffic_filter office)
compile-IsFaithful_example = compile-IsFaithful office
