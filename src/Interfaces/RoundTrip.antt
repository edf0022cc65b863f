-- ===== src/Interfaces/RoundTrip.antt =====
-- An interface that is saved and loaded again.
use mathlib.Core.List.{append-nil}
use petitboot.CString.{codes, Lacks}
use petitboot.Talloc.{CStr}
use petitboot.Types.{InterfaceConfig, StaticConfig, config_method_dhcp, config_method_static}
use petitboot.Url.{is_url}
use petitboot.Base.{
  ℕ, ◌/◌, ◌%◌, ◌<◌, ◌≡◌, refl, ap, ◌∙◌, true, false, Option, none, some, List, [], ◌∷◌, ◌++◌, ◌==◌,
  if◌then◌else◌, Bytes, arith, inl, inr, ◌⊎◌,
}
use petitboot.Interfaces.{
  hex_digit, hwaddr_text, comma_text, method_text, interface_config_str, fields, tokens,
  parse_hwaddr, zeroed_interface, with_static, parse_static, parse_method,
  config_parse_one_interface,
}
use petitboot.Interfaces.Tokens.{IsToken, tokens-IsToken, tokens-append}

hex_digit-no_comma : (n : ℕ) → (hex_digit n == 44) ≡ false
hex_digit-no_comma n = ground arith

-- strtoul reads back a byte that `%02x` printed.
abbrev pub ReadsHex : (ℕ → ℕ → Option ℕ) → Type 0
ReadsHex strtoul = (x : ℕ) → x < 256 → strtoul (hex_digit (x / 16)) (hex_digit (x % 16)) ≡ some x

-- Six bytes.
pub data IsHwaddr : Bytes → Type 0 where
  six :
      {u v w x y z : ℕ}
      → u < 256
      → v < 256
      → w < 256
      → x < 256
      → y < 256
      → z < 256
      → IsHwaddr (u ∷ v ∷ w ∷ x ∷ y ∷ z ∷ [])

mod_byte : (x : ℕ) → x < 256 → x % 256 ≡ x
mod_byte x h = omega arith

parse_hwaddr-hwaddr_text :
    (strtoul : ℕ → ℕ → Option ℕ) (hwaddr : Bytes)
    → ReadsHex strtoul
    → IsHwaddr hwaddr
    → parse_hwaddr strtoul (hwaddr_text hwaddr) ≡ some hwaddr
unfolding parse_hwaddr hwaddr_text
parse_hwaddr-hwaddr_text strtoul _ reads (six {u} {v} {w} {x} {y} {z} hu hv hw hx hy hz) =
    rw
      (
        reads u hu,
        reads v hv,
        reads w hw,
        reads x hx,
        reads y hy,
        reads z hz,
        mod_byte u hu,
        mod_byte v hv,
        mod_byte w hw,
        mod_byte x hx,
        mod_byte y hy,
        mod_byte z hz,
      )
      refl

pub hwaddr_text-Lacks :
    (delim : ℕ) (hwaddr : Bytes)
    → ((n : ℕ) → (hex_digit n == delim) ≡ false)
    → (58 == delim) ≡ false
    → Lacks delim (hwaddr_text hwaddr)
unfolding hwaddr_text
hwaddr_text-Lacks delim [] none_is colon = tt
hwaddr_text-Lacks delim (x ∷ []) none_is colon = (none_is (x / 16), (none_is (x % 16), tt))
hwaddr_text-Lacks delim (x ∷ y ∷ xs) none_is colon =
    (none_is (x / 16), (none_is (x % 16), (colon, hwaddr_text-Lacks delim (y ∷ xs) none_is colon)))

hwaddr_text-IsToken : (hwaddr : Bytes) → IsHwaddr hwaddr → IsToken (hwaddr_text hwaddr)
unfolding hwaddr_text
hwaddr_text-IsToken _ (six {u} {v} {w} {x} {y} {z} _ _ _ _ _ _) =
    hwaddr_text-Lacks 44 (u ∷ v ∷ w ∷ x ∷ y ∷ z ∷ []) hex_digit-no_comma refl

-- Null, or a token.
abbrev pub IsOptional : CStr → Type 0
IsOptional none = Unit
IsOptional (some s) = IsToken s

-- An only text behind the address is read as the kind that it was.
abbrev pub IsTold : CStr → CStr → Type 0
IsTold (some gateway) none = is_url gateway ≡ false
IsTold none (some url) = is_url url ≡ true
IsTold _ _ = Unit

-- What interface_config_str can tell of a static configuration.
abbrev pub IsPrintable : StaticConfig → Type 0
IsPrintable static =
    (address : Bytes) × (static.address ≡ some address)
    × IsToken address
    × IsOptional static.gateway
    × IsOptional static.url
    × IsTold static.gateway static.url

abbrev static_tokens : CStr → CStr → List Bytes
static_tokens none none = []
static_tokens (some gateway) none = gateway ∷ []
static_tokens none (some url) = url ∷ []
static_tokens (some gateway) (some url) = gateway ∷ url ∷ []

tokens-static :
    (address : Bytes) (gateway url : CStr)
    → IsToken address
    → IsOptional gateway
    → IsOptional url
    → tokens 44 (address ++ (comma_text gateway ++ comma_text url))
      ≡ address ∷ static_tokens gateway url
tokens-static address none none ha hg hu =
    ap (tokens 44) (append-nil address) ∙ tokens-IsToken address ha
tokens-static address (some gateway) none ha hg hu =
    ap (λ s. tokens 44 (address ++ 44 ∷ s)) (append-nil gateway)
    ∙ tokens-append address gateway ha
    ∙ ap (address ∷◌) (tokens-IsToken gateway hg)
tokens-static address none (some url) ha hg hu =
    tokens-append address url ha ∙ ap (address ∷◌) (tokens-IsToken url hu)
tokens-static address (some gateway) (some url) ha hg hu =
    tokens-append address (gateway ++ 44 ∷ url) ha
    ∙ ap (address ∷◌) (tokens-append gateway url hg ∙ ap (gateway ∷◌) (tokens-IsToken url hu))

parse_static-static_tokens :
    (hwaddr address : Bytes) (gateway url : CStr)
    → IsTold gateway url
    → parse_static hwaddr (address ∷ static_tokens gateway url)
      ≡ some (with_static hwaddr address gateway url)
parse_static-static_tokens hwaddr address none none h = refl
parse_static-static_tokens hwaddr address (some gateway) none h = rw h
parse_static-static_tokens hwaddr address none (some url) h = rw h
parse_static-static_tokens hwaddr address (some gateway) (some url) h = refl

-- What is left of an interface: the static configuration only where it is used, and no
-- override.
abbrev pub stored : InterfaceConfig → InterfaceConfig
stored config =
    if config.ignore
    then record (zeroed_interface config.hwaddr) { ignore = true }
    else if config.method == config_method_dhcp
    then zeroed_interface config.hwaddr
    else record (zeroed_interface config.hwaddr) {
      method = config_method_static;
      static_config = config.static_config;
    }

-- Ignored, of the method dhcp, or of the method static with texts that can be told apart.
abbrev pub IsSavable : InterfaceConfig → Type 0
IsSavable config =
    (config.ignore ≡ true)
    ⊎ ((config.ignore ≡ false) × (config.method ≡ config_method_dhcp))
    ⊎ ((config.ignore ≡ false)
        × (config.method ≡ config_method_static)
        × IsPrintable config.static_config)

parse_method-static :
    (hwaddr address : Bytes) (gateway url : CStr)
    → IsToken address
    → IsOptional gateway
    → IsOptional url
    → IsTold gateway url
    → parse_method hwaddr
        (tokens 44 (codes "static," ++ (address ++ (comma_text gateway ++ comma_text url))))
      ≡ some (with_static hwaddr address gateway url)
unfolding parse_method
parse_method-static hwaddr address gateway url ha hg hu ht =
    ap (parse_method hwaddr) (
      tokens-append (codes "static") (address ++ (comma_text gateway ++ comma_text url))
        (refl, (refl, (refl, (refl, (refl, (refl, tt))))))
      ∙ ap (codes "static" ∷◌) (tokens-static address gateway url ha hg hu))
    ∙ parse_static-static_tokens hwaddr address gateway url ht

parse_method-method_text :
    (config : InterfaceConfig)
    → IsSavable config
    → parse_method config.hwaddr (tokens 44 (method_text config)) ≡ some (stored config)
unfolding parse_method method_text tokens fields
parse_method-method_text config (inl h) = rw h refl
parse_method-method_text config (inr (inl (h, m))) = rw (h, m) refl
parse_method-method_text config (inr (inr (h, m, (address, a, ha, hg, hu, ht)))) =
    rw (h, m, a)
      (parse_method-static config.hwaddr address config.static_config.gateway
        config.static_config.url ha hg hu ht)

-- An ignored interface, one of the method dhcp and one of the method static whose texts are
-- not empty, have no commas and can be told apart are loaded from the text that they are saved
-- as, with the static configuration only where it is used and without an override. strtoul
-- reads back what `%02x` prints of a byte.
pub config_parse_one_interface-interface_config_str :
    (strtoul : ℕ → ℕ → Option ℕ) (config : InterfaceConfig)
    → ReadsHex strtoul
    → IsHwaddr config.hwaddr
    → IsSavable config
    → config_parse_one_interface strtoul (interface_config_str config) ≡ some (stored config)
unfolding config_parse_one_interface interface_config_str
config_parse_one_interface-interface_config_str strtoul config reads hw h =
    rw
      (
        tokens-append (hwaddr_text config.hwaddr) (method_text config)
            (hwaddr_text-IsToken config.hwaddr hw),
        parse_hwaddr-hwaddr_text strtoul config.hwaddr reads hw,
      )
      (parse_method-method_text config h)
