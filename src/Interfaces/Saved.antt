-- ===== src/Interfaces/Saved.antt =====
-- The network's parameter, which is saved and loaded again.
use mathlib.Core.List.{append-nil}
use petitboot.CString.{codes, Lacks}
use petitboot.Talloc.{CStr}
use petitboot.ParamList.{ParamList, param_list_get_value, param_list_set, param_list_set_non_empty}
use petitboot.BootOrder.RoundTrip.{
  param_list_set_non_empty-param_list_set, param_list_get_value-param_list_set,
}
use petitboot.Types.{Config}
use petitboot.Base.{
  ℕ, ◌≡◌, refl, sym, ap, ◌∙◌, true, false, Option, none, some, List, [], ◌∷◌, ◌++◌, map, Bytes, All,
}
use petitboot.Interfaces.{
  interface_config_str, fields, tokens, interfaces_text, servers_text, dns_config_str, with_servers,
  network_text, first_overrides, params_update_network_values, take_tokens, config_populate_network,
}
use petitboot.Interfaces.Tokens.{IsPart, IsToken, tokens-IsToken, tokens-append}
use petitboot.Interfaces.RoundTrip.{ReadsHex, stored}
use petitboot.Interfaces.Network.{
  IsNetworkInterface, with_interfaces, Lacks-append, tokens-append_word, tokens-interfaces_text,
  take_tokens-append, take_tokens-interfaces,
}

-- A name server: not empty, without commas and without spaces.
abbrev pub IsServer : CStr → Type 0
IsServer none = ⊥
IsServer (some s) = IsToken s × Lacks 32 s

servers_text-Lacks : (servers : List CStr) → All IsServer servers → Lacks 32 (servers_text servers)
unfolding servers_text
servers_text-Lacks [] h = tt
servers_text-Lacks (none ∷ servers) h = absurd h.0
servers_text-Lacks (some s ∷ []) h = h.0.1
servers_text-Lacks (some s ∷ next ∷ servers) (h, hs) =
    Lacks-append 32 s (44 ∷ servers_text (next ∷ servers)) h.1
      (refl, servers_text-Lacks (next ∷ servers) hs)

tokens-servers_text :
    (servers : List CStr)
    → All IsServer servers
    → map some (tokens 44 (servers_text servers)) ≡ servers
unfolding servers_text tokens fields
tokens-servers_text [] h = refl
tokens-servers_text (none ∷ servers) h = absurd h.0
tokens-servers_text (some s ∷ []) h = ap (map some) (tokens-IsToken s h.0.0)
tokens-servers_text (some s ∷ next ∷ servers) (h, hs) =
    ap (map some) (tokens-append s (servers_text (next ∷ servers)) h.0)
    ∙ ap (some s ∷◌) (tokens-servers_text (next ∷ servers) hs)

dns_config_str-IsPart :
    (servers : List CStr) → All IsServer servers → IsPart 32 (dns_config_str servers)
unfolding dns_config_str
dns_config_str-IsPart servers h =
    Lacks-append 32 (codes "dns,") (servers_text servers) (search) (servers_text-Lacks servers h)

abbrev dns_token : List CStr → List Bytes
dns_token [] = []
dns_token (server ∷ servers) = dns_config_str (server ∷ servers) ∷ []

tokens-with_servers :
    (val : Bytes) (servers : List CStr)
    → All IsServer servers
    → tokens 32 (with_servers val servers) ≡ tokens 32 val ++ dns_token servers
tokens-with_servers val [] h = sym (append-nil (tokens 32 val))
tokens-with_servers val (s ∷ servers) h =
    tokens-append_word val (dns_config_str (s ∷ servers)) (dns_config_str-IsPart (s ∷ servers) h)

tokens-network_text :
    (config : Config)
    → All IsNetworkInterface config.interfaces
    → All IsServer config.dns_servers
    → tokens 32 (network_text config)
      ≡ map interface_config_str config.interfaces ++ dns_token config.dns_servers
unfolding tokens fields
tokens-network_text config hi hd =
    tokens-with_servers (interfaces_text [] config.interfaces) config.dns_servers hd
    ∙ ap (◌++ dns_token config.dns_servers) (tokens-interfaces_text [] config.interfaces hi)

abbrev with_dns : Config → List CStr → Config
with_dns config more = record config { dns_servers = config.dns_servers ++ more }

take_tokens-dns :
    (strtoul : ℕ → ℕ → Option ℕ) (config : Config) (servers : List CStr)
    → All IsServer servers
    → take_tokens strtoul config (dns_token servers) ≡ with_dns config servers
unfolding take_tokens dns_config_str
take_tokens-dns strtoul config [] h =
    ap (λ l. record config { dns_servers = l }) (sym (append-nil config.dns_servers))
take_tokens-dns strtoul config (s ∷ servers) h =
    ap (with_dns config) (tokens-servers_text (s ∷ servers) h)

config_populate_network-network_text :
    (strtoul : ℕ → ℕ → Option ℕ) (config saved : Config)
    → ReadsHex strtoul
    → All IsNetworkInterface saved.interfaces
    → All IsServer saved.dns_servers
    → config_populate_network strtoul config (some (network_text saved))
      ≡ with_dns (with_interfaces config (map stored saved.interfaces)) saved.dns_servers
unfolding config_populate_network
config_populate_network-network_text strtoul config saved reads hi hd =
    let texts = map interface_config_str saved.interfaces in
    ap (take_tokens strtoul config) (tokens-network_text saved hi hd)
    ∙ take_tokens-append strtoul config texts (dns_token saved.dns_servers)
    ∙ ap (λ c. take_tokens strtoul c (dns_token saved.dns_servers))
        (take_tokens-interfaces strtoul config saved.interfaces reads hi)
    ∙ take_tokens-dns strtoul (with_interfaces config (map stored saved.interfaces))
        saved.dns_servers hd

populate-none :
    (strtoul : ℕ → ℕ → Option ℕ) (config : Config)
    → config_populate_network strtoul config none ≡ config_populate_network strtoul config (some [])
unfolding config_populate_network take_tokens tokens fields
populate-none strtoul config = refl

-- An empty value that is not stored loads as nothing, like one that is.
populate-set_non_empty :
    (strtoul : ℕ → ℕ → Option ℕ) (config : Config) (pl : ParamList) (name value : Bytes)
    → config_populate_network strtoul config
        (param_list_get_value (param_list_set_non_empty pl name value true) name)
      ≡ config_populate_network strtoul config (some value)
populate-set_non_empty strtoul config pl name (c ∷ value) =
    ap (config_populate_network strtoul config) (
      ap (λ l. param_list_get_value l name)
        (param_list_set_non_empty-param_list_set pl name (c ∷ value) true (λ e. cc))
      ∙ param_list_get_value-param_list_set pl name (c ∷ value) true)
populate-set_non_empty strtoul config pl name [] = either (param_list_get_value pl name) refl
  where
    either :
        (old : Option Bytes)
        → param_list_get_value pl name ≡ old
        → config_populate_network strtoul config
            (param_list_get_value (param_list_set_non_empty pl name [] true) name)
          ≡ config_populate_network strtoul config (some [])
    either none e =
        let kept : param_list_set_non_empty pl name [] true ≡ pl =
          unfold param_list_set_non_empty in rw (param_list_set_non_empty, e) refl in
        ap (config_populate_network strtoul config) (ap (λ l. param_list_get_value l name) kept ∙ e)
        ∙ populate-none strtoul config
    either (some old) e =
        let set : param_list_set_non_empty pl name [] true ≡ param_list_set pl name [] true =
          unfold param_list_set_non_empty in rw (param_list_set_non_empty, e) refl in
        ap (config_populate_network strtoul config) (
          ap (λ l. param_list_get_value l name) set
          ∙ param_list_get_value-param_list_set pl name [] true)

-- The network settings that are saved in the platform's parameters are loaded from them behind
-- those of any configuration, whatever the parameters held: the interfaces without what is not
-- stored of them, and the name servers. The first interface is no override. Each has a hardware
-- address of six bytes and is ignored, of the method dhcp, or of the method static: then its
-- texts are not empty, have no commas, and one behind the address is a URL just when it is the
-- url and has no gateway in front of it. No text of an interface has spaces. The name servers are
-- not empty and have neither commas nor spaces. strtoul reads back what `%02x` prints of a byte.
pub config_populate_network-params_update_network_values :
    (strtoul : ℕ → ℕ → Option ℕ) (pl : ParamList) (name : Bytes) (saved config : Config)
    → ReadsHex strtoul
    → first_overrides saved.interfaces ≡ false
    → All IsNetworkInterface saved.interfaces
    → All IsServer saved.dns_servers
    → config_populate_network strtoul config
        (param_list_get_value (params_update_network_values pl name saved) name)
      ≡ record config {
        interfaces = config.interfaces ++ map stored saved.interfaces;
        dns_servers = config.dns_servers ++ saved.dns_servers;
      }
unfolding params_update_network_values
config_populate_network-params_update_network_values strtoul pl name saved config reads own hi hd =
    rw own (
      populate-set_non_empty strtoul config pl name (network_text saved)
      ∙ config_populate_network-network_text strtoul config saved reads hi hd)
