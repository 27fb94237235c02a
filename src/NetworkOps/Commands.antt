-- ===== src/NetworkOps/Commands.antt =====
-- classify_command of app/services/network_ops_execution.py. The regular expressions and the text
-- functions of Python are parameters.
use net_ops_guard.Prelude.{String, Bool, List, [], ◌∷◌, any, str_eq, if◌then◌else◌}

pub data Classification : Type 0 where
  read_only configuration destructive unknown : Classification

-- `strip`, `lower`, `startswith` (text, prefix), and `search` of a pattern compiled with IGNORECASE
-- (pattern, text), as a test.
pub record CommandText : Type 0 where
  pub strip : String → String
  pub lower : String → String
  pub startswith : String → String → Bool
  pub search : String → String → Bool

abbrev pub read_only_prefixes : List String
read_only_prefixes =
    "show" ∷ "terminal length" ∷ "terminal width" ∷ "terminal no" ∷ "ping" ∷ "traceroute" ∷ "who"
    ∷ "show running-config" ∷ "show run" ∷ []

abbrev pub config_mode_prefixes : List String
config_mode_prefixes =
    "configure" ∷ "interface" ∷ "router" ∷ "aaa" ∷ "line" ∷ "vlan" ∷ "ip " ∷ "ipv6 "
    ∷ "spanning-tree" ∷ "no " ∷ "hostname" ∷ "banner" ∷ "crypto" ∷ "access-list" ∷ "class-map"
    ∷ "policy-map" ∷ "username" ∷ "enable secret" ∷ "enable password" ∷ "snmp-server" ∷ "ntp"
    ∷ "logging" ∷ "tacacs-server" ∷ "radius-server" ∷ "vty" ∷ "console" ∷ "write" ∷ []

abbrev pub destructive_patterns : List String
destructive_patterns =
    "^\\s*reload\\b" ∷ "^\\s*erase\\b" ∷ "^\\s*write\\s+erase\\b" ∷ "^\\s*delete\\b"
    ∷ "^\\s*format\\b" ∷ []

module _ (text : CommandText) where
  unfoldable pub classify_command : String → Classification
  classify_command command =
      let stripped = text.strip command in
      let lowered = text.lower stripped in
      if str_eq stripped ""
      then unknown
      else if any (λ pattern. text.search pattern stripped) destructive_patterns
      then destructive
      else if any (text.startswith lowered) read_only_prefixes
      then read_only
      else if any (text.startswith lowered) config_mode_prefixes
      then configuration
      else unknown
