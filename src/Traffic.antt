-- ===== src/Traffic.antt =====
-- packages/core/src/system/traffic-filter.ts: the traffic filter of an administrator, its validation and
-- its compilation to rules of a web firewall. A regular expression is a test on code points.
mod Tests
pub mod Meaning
pub mod Compiled
use Prim.Native.Char.{code}
use Prim.Native.String.{◌∷◌ as cons_char, [] as empty_string}
use ecs_dev_desktop.Common.{
  ℕ, String, Bool, true, false, not, ◌&&◌, ◌||◌, Option, none, some, List, [], ◌∷◌, ◌++◌, ◌==◌,
  nat_eq, string_eq, leb, ltb, length, includes, sort_by, if◌then◌else◌,
}

pub data FilterMode : Type 0 where
  allow block : FilterMode

pub record TrafficFilterPolicy : Type 0 where
  pub mode : FilterMode
  pub cidrs : List String
  pub countries : List String
  pub asns : List ℕ
  pub presets : List String
  pub block_anonymous : Bool

-- `NETWORK_PRESET_ASNS[name]` of a key that the object itself has
abbrev pub network_preset_asns : String → Option (List ℕ)
network_preset_asns name =
    if name == "aws"
    then some (16509 ∷ 14618 ∷ 8987 ∷ 39111 ∷ [])
    else (if name == "gcp"
        then some (15169 ∷ 396982 ∷ 19527 ∷ [])
        else (if name == "azure"
            then some (8075 ∷ 8068 ∷ 8069 ∷ 12076 ∷ [])
            else (if name == "oracle"
                then some (31898 ∷ 7160 ∷ [])
                else (if name == "digitalocean"
                    then some (14061 ∷ [])
                    else (if name == "linode"
                        then some (63949 ∷ 48429 ∷ [])
                        else (if name == "ovh"
                            then some (16276 ∷ [])
                            else (if name == "hetzner"
                                then some (24940 ∷ 213230 ∷ [])
                                else (if name == "vultr"
                                    then some (20473 ∷ [])
                                    else (if name == "cloudflare"
                                        then some (13335 ∷ [])
                                        else none)))))))))

-- The keys that every object inherits, none of whose values can be iterated.
abbrev pub inherited_keys : List String
inherited_keys =
    "constructor" ∷ "toString" ∷ "toLocaleString" ∷ "valueOf" ∷ "hasOwnProperty" ∷ "isPrototypeOf"
    ∷ "propertyIsEnumerable" ∷ "__proto__" ∷ "__defineGetter__" ∷ "__defineSetter__"
    ∷ "__lookupGetter__" ∷ "__lookupSetter__" ∷ []

abbrev pub points : String → List ℕ
points empty_string = []
points (cons_char c s) = code c ∷ points s

abbrev pub between : ℕ → ℕ → ℕ → Bool
between lo hi c = leb lo c && leb c hi

-- `(25[0-5]|2[0-4][0-9]|1[0-9]{2}|[1-9]?[0-9])`
abbrev pub is_octet : List ℕ → Bool
is_octet (a ∷ []) = between b'0' b'9' a
is_octet (a ∷ b ∷ []) = between b'1' b'9' a && between b'0' b'9' b
is_octet (a ∷ b ∷ c ∷ []) =
    (a == b'1' && between b'0' b'9' b && between b'0' b'9' c)
    || (a == b'2' && between b'0' b'4' b && between b'0' b'9' c)
    || (a == b'2' && b == b'5' && between b'0' b'5' c)
is_octet _ = false

-- `(3[0-2]|[12]?[0-9])`
abbrev pub is_prefix_length : List ℕ → Bool
is_prefix_length (a ∷ []) = between b'0' b'9' a
is_prefix_length (a ∷ b ∷ []) =
    (a == b'3' && between b'0' b'2' b) || (between b'1' b'2' a && between b'0' b'9' b)
is_prefix_length _ = false

-- The parts of a text between the marks.
abbrev pub first_part : ℕ → List (List ℕ) → List (List ℕ)
first_part c [] = (c ∷ []) ∷ []
first_part c (part ∷ parts) = (c ∷ part) ∷ parts

abbrev pub split_at : ℕ → List ℕ → List (List ℕ)
split_at mark [] = [] ∷ []
split_at mark (c ∷ cs) =
    let rest = split_at mark cs in if c == mark then [] ∷ rest else first_part c rest

abbrev pub are_octets : List (List ℕ) → Bool
are_octets (a ∷ b ∷ c ∷ d ∷ []) = is_octet a && is_octet b && is_octet c && is_octet d
are_octets _ = false

abbrev pub is_network : List (List ℕ) → Bool
is_network (address ∷ prefix ∷ []) = are_octets (split_at b'.' address) && is_prefix_length prefix
is_network _ = false

-- `CIDR_RE.test(s)`: no octet and no prefix length has a dot or a slash in it.
unfoldable pub is_cidr : String → Bool
is_cidr s = is_network (split_at b'/' (points s))

abbrev pub is_country_points : List ℕ → Bool
is_country_points (a ∷ b ∷ []) = between b'A' b'Z' a && between b'A' b'Z' b
is_country_points _ = false

unfoldable pub is_country : String → Bool
is_country s = is_country_points (points s)

abbrev pub asn_max : ℕ
asn_max = 4_294_967_295

pub data PolicyIssue : Type 0 where
  ipv6_not_supported not_a_cidr : String → PolicyIssue
  not_a_country : String → PolicyIssue
  not_an_asn : ℕ → PolicyIssue
  unknown_preset : String → PolicyIssue
  admits_no_sources : PolicyIssue

abbrev pub is_own_preset : String → Bool
is_own_preset p = elim (network_preset_asns p) [ none ↦ false | some _ ↦ true ]

-- `p in NETWORK_PRESET_ASNS`
abbrev pub is_preset : String → Bool
is_preset p = is_own_preset p || includes inherited_keys p

abbrev pub cidr_issues : List String → List PolicyIssue
cidr_issues [] = []
cidr_issues (s ∷ ss) =
    let rest = cidr_issues ss in
    if is_cidr s
    then rest
    else (if includes (points s) b':' then ipv6_not_supported s ∷ rest else not_a_cidr s ∷ rest)

abbrev pub country_issues : List String → List PolicyIssue
country_issues [] = []
country_issues (c ∷ cs) =
    let rest = country_issues cs in if is_country c then rest else not_a_country c ∷ rest

-- A number that is an integer and not negative, by its type.
-- A number is natural here, so that it is an integer and not negative.
abbrev pub asn_issues : List ℕ → List PolicyIssue
asn_issues [] = []
asn_issues (n ∷ ns) =
    let rest = asn_issues ns in if leb n 0 || ltb asn_max n then not_an_asn n ∷ rest else rest

abbrev pub preset_issues : List String → List PolicyIssue
preset_issues [] = []
preset_issues (p ∷ ps) =
    let rest = preset_issues ps in if is_preset p then rest else unknown_preset p ∷ rest

abbrev pub is_empty : {A : Type 0} → List A → Bool
is_empty [] = true
is_empty (x ∷ xs) = false

abbrev pub admits_nothing : TrafficFilterPolicy → Bool
admits_nothing p = is_empty p.cidrs && is_empty p.countries && is_empty p.asns && is_empty p.presets

abbrev pub lockout_issues : FilterMode → Bool → List PolicyIssue
lockout_issues allow true = admits_no_sources ∷ []
lockout_issues allow false = []
lockout_issues block nothing = []

unfoldable pub validate_traffic_filter_policy : TrafficFilterPolicy → List PolicyIssue
validate_traffic_filter_policy p =
    cidr_issues p.cidrs
    ++ (country_issues p.countries
        ++ (asn_issues p.asns
            ++ (preset_issues p.presets ++ lockout_issues p.mode (admits_nothing p))))

-- `set.add(n)`
abbrev pub set_add : ℕ → List ℕ → List ℕ
set_add n set = if includes set n then set else set ++ n ∷ []

abbrev pub add_all : List ℕ → List ℕ → List ℕ
add_all [] set = set
add_all (n ∷ ns) set = add_all ns (set_add n set)

-- `none` where the loop throws, because the value of an inherited key cannot be iterated
abbrev pub values_by : Option (List ℕ) → String → Option (List ℕ)
values_by (some ns) p = some ns
values_by none p = if includes inherited_keys p then none else some []

abbrev pub preset_values : String → Option (List ℕ)
preset_values p = values_by (network_preset_asns p) p

abbrev pub add_values : Option (List ℕ) → List ℕ → Option (List ℕ)
add_values none set = none
add_values (some ns) set = some (add_all ns set)

abbrev pub add_presets : List String → Option (List ℕ) → Option (List ℕ)
add_presets [] set = set
add_presets (p ∷ ps) none = none
add_presets (p ∷ ps) (some set) = add_presets ps (add_values (preset_values p) set)

abbrev pub sorted_set : Option (List ℕ) → Option (List ℕ)
sorted_set none = none
sorted_set (some set) = some (sort_by (λ n. n) set)

unfoldable pub effective_asns : TrafficFilterPolicy → Option (List ℕ)
effective_asns p = sorted_set (add_presets p.presets (some (add_all p.asns [])))

pub data CompiledRule : Type 0 where
  ip geo : FilterMode → List String → CompiledRule
  asn : FilterMode → List ℕ → CompiledRule
  managed_anonymous : CompiledRule

pub record CompiledTrafficFilter : Type 0 where
  pub default_action : FilterMode
  pub rules : List CompiledRule

pub data Compilation : Type 0 where
  compiled : CompiledTrafficFilter → Compilation
  invalid : List PolicyIssue → Compilation
  type_error : Compilation

-- A rule that is pushed before the others when the test holds.
abbrev pub push_if : Bool → CompiledRule → List CompiledRule → List CompiledRule
push_if b rule rest = if b then rule ∷ rest else rest

abbrev pub other : FilterMode → FilterMode
other allow = block
other block = allow

abbrev pub match_rules : TrafficFilterPolicy → List ℕ → List CompiledRule
match_rules p asns = push_if (not (is_empty p.cidrs)) (ip p.mode p.cidrs) (
    push_if (not (is_empty p.countries)) (geo p.mode p.countries)
      (push_if (not (is_empty asns)) (asn p.mode asns) []))

abbrev pub compile_with : TrafficFilterPolicy → Option (List ℕ) → Compilation
compile_with p none = type_error
compile_with p (some asns) = compiled (record {
  default_action = other p.mode;
  rules = push_if p.block_anonymous managed_anonymous (match_rules p asns);
})

unfoldable pub compile_traffic_filter : TrafficFilterPolicy → Compilation
compile_traffic_filter p =
    if is_empty (validate_traffic_filter_policy p)
    then compile_with p (effective_asns p)
    else invalid (validate_traffic_filter_policy p)
