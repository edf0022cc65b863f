-- ===== src/Interfaces/Network.antt =====
-- The interfaces in the network's parameter: its tokens, and what the loop makes of them.
use mathlib.Core.List.{append-nil, append_assoc}
use petitboot.CString.{codes, Lacks, tolower, is_prefix_ignorecase}
use petitboot.Talloc.{CStr}
use petitboot.Types.{Config, InterfaceConfig}
use petitboot.Base.{
  ℕ, ◌/◌, ◌%◌, ◌≡◌, refl, sym, ap, ◌∙◌, false, Option, none, some, List, [], ◌∷◌, ◌++◌, ◌==◌, map,
  drop, Bytes, All, arith, inl, inr, Bool-cases,
}
use petitboot.Interfaces.{
  hex_digit, hwaddr_text, address_text, comma_text, method_text, interface_config_str, fields,
  tokens, append_word, interfaces_text, add_interface, take_token, take_tokens,
}
use petitboot.Interfaces.Tokens.{IsPart, tokens-IsPart, tokens-append-delim}
use petitboot.Interfaces.RoundTrip.{
  IsHwaddr, six, ReadsHex, IsSavable, stored, hwaddr_text-Lacks,
  config_parse_one_interface-interface_config_str,
}

pub Lacks-append : (c : ℕ) (s t : Bytes) → Lacks c s → Lacks c t → Lacks c (s ++ t)
Lacks-append c [] t h k = k
Lacks-append c (x ∷ s) t (h, hs) k = (h, Lacks-append c s t hs k)

hex_digit-no_space : (n : ℕ) → (hex_digit n == 32) ≡ false
hex_digit-no_space n = ground arith

-- Null, or without spaces.
abbrev pub IsUnspaced : CStr → Type 0
IsUnspaced none = Unit
IsUnspaced (some s) = Lacks 32 s

-- What is saved of an interface, and texts without spaces.
abbrev pub IsNetworkInterface : InterfaceConfig → Type 0
IsNetworkInterface config =
    IsHwaddr config.hwaddr
    × IsSavable config
    × IsUnspaced config.static_config.address
    × IsUnspaced config.static_config.gateway
    × IsUnspaced config.static_config.url

comma_text-Lacks : (s : CStr) → IsUnspaced s → Lacks 32 (comma_text s)
comma_text-Lacks none h = tt
comma_text-Lacks (some s) h = (refl, h)

pub address_text-Lacks : (s : CStr) → IsUnspaced s → Lacks 32 (address_text s)
address_text-Lacks none h = search
address_text-Lacks (some s) h = h

method_text-Lacks :
    (config : InterfaceConfig) → IsNetworkInterface config → Lacks 32 (method_text config)
unfolding method_text
method_text-Lacks config (hw, inl h, _, _, _) = rw h search
method_text-Lacks config (hw, inr (inl (h, m)), _, _, _) = rw (h, m) search
method_text-Lacks config (hw, inr (inr (h, m, _)), a, g, u) =
    rw (h, m)
      (Lacks-append 32 (codes "static,") _ (search) (
        Lacks-append 32 _ _ (address_text-Lacks config.static_config.address a) (
          Lacks-append 32 _ _ (comma_text-Lacks config.static_config.gateway g)
            (comma_text-Lacks config.static_config.url u))))

hwaddr_text-IsPart :
    (hwaddr rest : Bytes) → IsHwaddr hwaddr → Lacks 32 rest → IsPart 32 (hwaddr_text hwaddr ++ rest)
unfolding hwaddr_text
hwaddr_text-IsPart _ rest (six {u} {v} {w} {x} {y} {z} _ _ _ _ _ _) h =
    Lacks-append 32 (hwaddr_text (u ∷ v ∷ w ∷ x ∷ y ∷ z ∷ [])) rest
      (hwaddr_text-Lacks 32 (u ∷ v ∷ w ∷ x ∷ y ∷ z ∷ []) hex_digit-no_space refl) h

interface_config_str-IsPart :
    (config : InterfaceConfig) → IsNetworkInterface config → IsPart 32 (interface_config_str config)
unfolding interface_config_str
interface_config_str-IsPart config h =
    hwaddr_text-IsPart config.hwaddr (44 ∷ method_text config) h.0
      (refl, method_text-Lacks config h)

third_colon-no_dns :
    (a b : ℕ) (s : Bytes) → is_prefix_ignorecase (a ∷ b ∷ 58 ∷ s) (codes "dns,") ≡ false
third_colon-no_dns a b s = elim (Bool-cases (tolower a == 100)) [
  | inr e ↦ rw e refl
  | inl e ↦ elim (Bool-cases (tolower b == 110)) [ inr f ↦ rw (e, f) refl | inl f ↦ rw (e, f) refl ]
]

hwaddr_text-no_dns :
    (hwaddr rest : Bytes)
    → IsHwaddr hwaddr
    → is_prefix_ignorecase (hwaddr_text hwaddr ++ rest) (codes "dns,") ≡ false
unfolding hwaddr_text
hwaddr_text-no_dns _ rest (six {u} {v} {w} {x} {y} {z} _ _ _ _ _ _) =
    third_colon-no_dns (hex_digit (u / 16)) (hex_digit (u % 16))
      (drop 3 (hwaddr_text (u ∷ v ∷ w ∷ x ∷ y ∷ z ∷ []) ++ rest))

pub tokens-append_word :
    (val text : Bytes)
    → IsPart 32 text
    → tokens 32 (append_word val text) ≡ tokens 32 val ++ text ∷ []
unfolding tokens fields
tokens-append_word [] text h = tokens-IsPart 32 text h
tokens-append_word (c ∷ val) text h =
    tokens-append-delim 32 (c ∷ val) text ∙ ap (tokens 32 (c ∷ val) ++◌) (tokens-IsPart 32 text h)

pub tokens-interfaces_text :
    (val : Bytes) (configs : List InterfaceConfig)
    → All IsNetworkInterface configs
    → tokens 32 (interfaces_text val configs) ≡ tokens 32 val ++ map interface_config_str configs
unfolding interfaces_text
tokens-interfaces_text val [] h = sym (append-nil (tokens 32 val))
tokens-interfaces_text val (config ∷ configs) (h, hs) =
    tokens-interfaces_text (append_word val (interface_config_str config)) configs hs
    ∙ ap (◌++ map interface_config_str configs) (
        tokens-append_word val (interface_config_str config) (interface_config_str-IsPart config h))
    ∙ append_assoc (tokens 32 val) (interface_config_str config ∷ [])
        (map interface_config_str configs)

pub take_tokens-append :
    (strtoul : ℕ → ℕ → Option ℕ) (config : Config) (xs ys : List Bytes)
    → take_tokens strtoul config (xs ++ ys) ≡ take_tokens strtoul (take_tokens strtoul config xs) ys
unfolding take_tokens
take_tokens-append strtoul config [] ys = refl
take_tokens-append strtoul config (x ∷ xs) ys =
    take_tokens-append strtoul (take_token strtoul config x) xs ys

abbrev pub with_interfaces : Config → List InterfaceConfig → Config
with_interfaces config more = record config { interfaces = config.interfaces ++ more }

take_token-interface :
    (strtoul : ℕ → ℕ → Option ℕ) (config : Config) (interface : InterfaceConfig)
    → ReadsHex strtoul
    → IsNetworkInterface interface
    → take_token strtoul config (interface_config_str interface)
      ≡ with_interfaces config (stored interface ∷ [])
unfolding interface_config_str
take_token-interface strtoul config interface reads h =
    rw (hwaddr_text-no_dns interface.hwaddr (44 ∷ method_text interface) h.0) (
      ap (add_interface config)
        (config_parse_one_interface-interface_config_str strtoul interface reads h.0 h.1))

pub take_tokens-interfaces :
    (strtoul : ℕ → ℕ → Option ℕ) (config : Config) (interfaces : List InterfaceConfig)
    → ReadsHex strtoul
    → All IsNetworkInterface interfaces
    → take_tokens strtoul config (map interface_config_str interfaces)
      ≡ with_interfaces config (map stored interfaces)
unfolding take_tokens
take_tokens-interfaces strtoul config [] reads h =
    ap (λ l. record config { interfaces = l }) (sym (append-nil config.interfaces))
take_tokens-interfaces strtoul config (i ∷ is) reads (h, hs) =
    ap (λ c. take_tokens strtoul c (map interface_config_str is))
      (take_token-interface strtoul config i reads h)
    ∙ take_tokens-interfaces strtoul (with_interfaces config (stored i ∷ [])) is reads hs
    ∙ ap (λ l. record config { interfaces = l })
        (append_assoc config.interfaces (stored i ∷ []) (map stored is))
