-- ===== src/Url/RoundTrip.antt =====
-- URLs that are printed and parsed again, and a colon in a path.
use mathlib.Core.Path.{ap₂}
use mathlib.Core.List.{append_assoc}
use petitboot.CString.{split_at, Lacks, split_at-append, split_at-none}
use petitboot.Talloc.{CStr}
use petitboot.Base.{
  ℕ, suc, ◌+◌, ◌-◌, ◌≡◌, refl, sym, ap, ◌∙◌, Bool, true, false, Option, none, some, [], ◌∷◌, ◌++◌,
  ◌==◌, ltb, if◌then◌else◌, Bytes, length, take, length-append, take-append, arith,
}
use petitboot.Url.{
  PbUrlScheme, file_scheme, ftp_scheme, http_scheme, https_scheme, nfs_scheme, sftp_scheme,
  tftp_scheme, UrlParts, scheme_name, has_host, separator, find_scheme, pb_url_find_scheme,
  split_last, pb_url_parse_path, kept_colon, find_colon, port_of, host_of, one_slash,
  parse_authority, parse_rest, pb_url_parse, pb_url_to_string,
}

-- A text behind the name of a scheme is parsed for that scheme.
pb_url_parse-scheme_name :
    (s : PbUrlScheme) (p : Bytes)
    → pb_url_parse (scheme_name s ++ (separator ++ p))
      ≡ parse_rest s (scheme_name s ++ (separator ++ p)) p
unfolding pb_url_parse pb_url_find_scheme find_scheme scheme_name
pb_url_parse-scheme_name file_scheme p = refl
pb_url_parse-scheme_name ftp_scheme p = refl
pb_url_parse-scheme_name http_scheme p = refl
pb_url_parse-scheme_name https_scheme p = refl
pb_url_parse-scheme_name nfs_scheme p = refl
pb_url_parse-scheme_name sftp_scheme p = refl
pb_url_parse-scheme_name tftp_scheme p = refl

split_last-none : (c : ℕ) (s : Bytes) → Lacks c s → split_last c s ≡ none
unfolding split_last
split_last-none c [] h = refl
split_last-none c (x ∷ s) (h, hs) = rw (split_last-none c s hs, h) refl

split_last-append :
    (c : ℕ) (s rest : Bytes) → Lacks c rest → split_last c (s ++ c ∷ rest) ≡ some (s, rest)
unfolding split_last
split_last-append c [] rest h = rw (split_last-none c rest h) (same c (some ([], rest)) none)
  where
    same : (c : ℕ) (x y : Option (Bytes × Bytes)) → (if c == c then x else y) ≡ x
    same c x y = ground arith
split_last-append c (x ∷ s) rest h = rw (split_last-append c s rest h) refl

Lacks-append : (c : ℕ) (s t : Bytes) → Lacks c s → Lacks c t → Lacks c (s ++ t)
Lacks-append c [] t h k = k
Lacks-append c (x ∷ s) t (h, hs) k = (h, Lacks-append c s t hs k)

-- Not empty, and without slash, colon and bracket.
abbrev pub IsHost : Bytes → Type 0
IsHost [] = ⊥
IsHost (c ∷ s) = Lacks 47 (c ∷ s) × Lacks 58 (c ∷ s) × Lacks 91 (c ∷ s)

-- Nothing, or a text that is not empty, without slash, colon and bracket.
abbrev pub IsPort : CStr → Type 0
IsPort none = Unit
IsPort (some []) = ⊥
IsPort (some (c ∷ s)) = Lacks 47 (c ∷ s) × Lacks 58 (c ∷ s) × Lacks 93 (c ∷ s)

-- A path behind its first slash: no second slash follows at once, and there is no colon and no
-- bracket.
abbrev pub IsPath : Bytes → Type 0
IsPath s = (one_slash (47 ∷ s) ≡ 47 ∷ s) × Lacks 58 s × Lacks 93 s

host_of-IsHost : (h : Bytes) → IsHost h → host_of h ≡ h
host_of-IsHost [] h = absurd h
host_of-IsHost (c ∷ s) (a, b, (bracket, d)) = rw bracket refl

-- The URL with these parts; the full text and the parts of the path are not printed.
abbrev pub network_url : PbUrlScheme → Bytes → CStr → Bytes → UrlParts
network_url scheme host port path = record {
  scheme = scheme;
  full = [];
  host = some host;
  port = port;
  path = 47 ∷ path;
  dir = none;
  file = [];
}

abbrev parts : PbUrlScheme → Bytes → Bytes → CStr → Bytes → UrlParts
parts scheme full host port path = record {
  scheme = scheme;
  full = full;
  host = some host;
  port = port;
  path = path;
  dir = none;
  file = [];
}

parse_authority-colon :
    (scheme : PbUrlScheme) (full p authority path before after : Bytes)
    → find_colon p ≡ some (before, after)
    → parse_authority scheme full p authority path
      ≡ parts scheme full
          (host_of (take (length before) p))
          (port_of (length authority) (length before) after)
          (one_slash (47 ∷ path))
unfolding parse_authority
parse_authority-colon scheme full p authority path before after e = rw (parse_authority, e) refl

parse_path-kept :
    (u : UrlParts) → ((pb_url_parse_path u).host ≡ u.host) × ((pb_url_parse_path u).port ≡ u.port)
unfolding pb_url_parse_path
parse_path-kept u = ground arith

module _ (scheme : PbUrlScheme) (full host path : Bytes) (h : IsHost host) (k : IsPath path) where
  -- The bytes that are found in front of the first slash.
  parse_rest-split :
      (authority : Bytes)
      → has_host scheme ≡ true
      → Lacks 47 authority
      → parse_rest scheme full (authority ++ 47 ∷ path)
        ≡ some (
            pb_url_parse_path (parse_authority scheme full (authority ++ 47 ∷ path) authority path))
  unfolding parse_rest
  parse_rest-split authority on plain = rw (on, split_at-append 47 authority path plain) refl

  host_plain : Lacks 47 host × Lacks 58 host
  host_plain = plain host h
    where
      plain : (s : Bytes) → IsHost s → Lacks 47 s × Lacks 58 s
      plain [] x = absurd x
      plain (c ∷ s) (a, b, d) = (a, b)

  no_port :
      parse_authority scheme full (host ++ 47 ∷ path) host path
      ≡ record (network_url scheme host none path) { full = full }
  unfolding parse_authority find_colon
  no_port =
      let colon : find_colon (host ++ 47 ∷ path) ≡ none = ap kept_colon (
        split_last-none 58 (host ++ 47 ∷ path)
          (Lacks-append 58 host (47 ∷ path) host_plain.1 (refl, k.1))) in
      rw (parse_authority, colon, take-append host (47 ∷ path), host_of-IsHost host h, k.0) refl

  with_port :
      (c : ℕ) (q : Bytes)
      → IsPort (some (c ∷ q))
      → parse_authority scheme full ((host ++ 58 ∷ c ∷ q) ++ 47 ∷ path) (host ++ 58 ∷ c ∷ q) path
        ≡ record (network_url scheme host (some (c ∷ q)) path) { full = full }
  unfolding parse_authority find_colon port_of
  with_port c q (p47, p58, p93) =
      let whole : (host ++ 58 ∷ c ∷ q) ++ 47 ∷ path ≡ host ++ 58 ∷ ((c ∷ q) ++ 47 ∷ path) =
        append_assoc host (58 ∷ c ∷ q) (47 ∷ path) in
      let last =
        split_last-append 58 host ((c ∷ q) ++ 47 ∷ path)
          (Lacks-append 58 (c ∷ q) (47 ∷ path) p58 (refl, k.1)) in
      let colon : find_colon (host ++ 58 ∷ ((c ∷ q) ++ 47 ∷ path))
          ≡ some (host, (c ∷ q) ++ 47 ∷ path) =
        ap kept_colon last
        ∙ kept host h (
            split_at-none 93 ((c ∷ q) ++ 47 ∷ path)
              (Lacks-append 93 (c ∷ q) (47 ∷ path) p93 (refl, k.2))) in
      let len : length (host ++ 58 ∷ c ∷ q) ≡ length host + suc (suc (length q)) =
        length-append host (58 ∷ c ∷ q) in
      let port = port_text (length (host ++ 58 ∷ c ∷ q)) len in
      ap (λ p. parse_authority scheme full p (host ++ 58 ∷ c ∷ q) path) whole
      ∙ parse_authority-colon scheme full _ (host ++ 58 ∷ c ∷ q) path host _ colon
      ∙ ap
          (λ t.
            parts scheme full (host_of t)
              (port_of (length (host ++ 58 ∷ c ∷ q)) (length host) ((c ∷ q) ++ 47 ∷ path))
              (one_slash (47 ∷ path)))
          (take-append host (58 ∷ ((c ∷ q) ++ 47 ∷ path)))
      ∙ ap
          (λ t.
            parts scheme full t
              (port_of (length (host ++ 58 ∷ c ∷ q)) (length host) ((c ∷ q) ++ 47 ∷ path))
              (one_slash (47 ∷ path)))
          (host_of-IsHost host h)
      ∙ ap₂ (parts scheme full host) port k.0
    where
      kept :
          (s : Bytes)
          → IsHost s
          → {after : Bytes} → split_at 93 after ≡ none
          → kept_colon (some (s, after)) ≡ some (s, after)
      kept [] x e = absurd x
      kept (y ∷ s) x e = rw (kept_colon, e) refl

      port_text :
          (n : ℕ)
          → n ≡ length host + suc (suc (length q))
          → port_of n (length host) ((c ∷ q) ++ 47 ∷ path) ≡ some (c ∷ q)
      port_text n e =
          let one : (n == length host + 1) ≡ false = ground arith in
          let two : ltb n (length host + 1) ≡ false = ground arith in
          let left : n - (length host + 1) ≡ suc (length q) = omega arith in
          rw (one, two, left) (ap some (take-append (c ∷ q) (47 ∷ path)))

-- A URL with a host and a path, and with a port or without, is parsed into the parts that it was
-- printed from, with the directory and the file of its path. The host is no IPv6 address; host,
-- port and path are free of the bytes that delimit them.
pub pb_url_parse-pb_url_to_string :
    (is_ipv6 : CStr → Bool) (scheme : PbUrlScheme) (host : Bytes) (port : CStr) (path : Bytes)
    → has_host scheme ≡ true
    → is_ipv6 (some host) ≡ false
    → IsHost host
    → IsPort port
    → IsPath path
    → pb_url_parse (pb_url_to_string is_ipv6 (network_url scheme host port path))
      ≡ some (
          pb_url_parse_path (record (network_url scheme host port path) {
            full = pb_url_to_string is_ipv6 (network_url scheme host port path);
          }))
unfolding pb_url_to_string
pb_url_parse-pb_url_to_string is_ipv6 scheme host none path on plain h p k =
    let printed = scheme_name scheme ++ (separator ++ (host ++ 47 ∷ path)) in
    rw (on, plain)
      (pb_url_parse-scheme_name scheme (host ++ 47 ∷ path)
        ∙ parse_rest-split scheme printed host path h k host on
            (host_plain scheme printed host path h k).0
        ∙ ap (λ u. some (pb_url_parse_path u)) (no_port scheme printed host path h k))
pb_url_parse-pb_url_to_string is_ipv6 scheme host (some []) path on plain h p k = absurd p
pb_url_parse-pb_url_to_string is_ipv6 scheme host (some (c ∷ q)) path on plain h p k =
    let printed = scheme_name scheme ++ (separator ++ (host ++ (58 ∷ c ∷ q ++ 47 ∷ path))) in
    let whole : (host ++ 58 ∷ c ∷ q) ++ 47 ∷ path ≡ host ++ (58 ∷ c ∷ q ++ 47 ∷ path) =
      append_assoc host (58 ∷ c ∷ q) (47 ∷ path) in
    rw (on, plain)
      (pb_url_parse-scheme_name scheme (host ++ (58 ∷ c ∷ q ++ 47 ∷ path))
        ∙ ap (parse_rest scheme printed) (sym whole)
        ∙ parse_rest-split scheme printed host path h k (host ++ 58 ∷ c ∷ q) on (
            Lacks-append 47 host (58 ∷ c ∷ q) (host_plain scheme printed host path h k).0
              (refl, p.0))
        ∙ ap (λ u. some (pb_url_parse_path u)) (with_port scheme printed host path h k c q p))

-- A colon in the path of a URL without a port is taken for that of a port, when no other colon and
-- no closing bracket is behind it: the host that the parser finds goes on to the colon, and the port
-- is the rest of the path. The scheme has hosts, and the host is not empty and has no slash, colon
-- or opening bracket.
pub pb_url_parse-path_colon :
    (scheme : PbUrlScheme) (host a b : Bytes)
    → has_host scheme ≡ true
    → IsHost host
    → Lacks 58 b
    → Lacks 93 b
    → (u : UrlParts) × (pb_url_parse
          (scheme_name scheme ++ (separator ++ (host ++ 47 ∷ (a ++ 58 ∷ b))))
        ≡ some u)
      × (u.host ≡ some (host ++ 47 ∷ a))
      × (u.port ≡ some b)
unfolding parse_rest one_slash
pb_url_parse-path_colon scheme host a b on h b58 b93 =
    let p = host ++ 47 ∷ (a ++ 58 ∷ b) in
    let full = scheme_name scheme ++ (separator ++ p) in
    let whole : p ≡ (host ++ 47 ∷ a) ++ 58 ∷ b = sym (append_assoc host (47 ∷ a) (58 ∷ b)) in
    let split =
      split_at-append 47 host (a ++ 58 ∷ b)
        (host_plain file_scheme [] host [] h (refl, tt, tt)).0 in
    let authority = parse_authority scheme full p host (a ++ 58 ∷ b) in
    let kept = parse_path-kept authority in
    let found =
      ap (λ q. parse_authority scheme full q host (a ++ 58 ∷ b)) whole
      ∙ parse_authority-colon scheme full _ host (a ++ 58 ∷ b) (host ++ 47 ∷ a) b (colon host h) in
    (
      pb_url_parse_path authority,
      pb_url_parse-scheme_name scheme p ∙ rw (on, split) refl,
      kept.0
          ∙ ap (λ u. u.host) found
          ∙ ap (λ t. some (host_of t)) (take-append (host ++ 47 ∷ a) (58 ∷ b))
          ∙ ap some (no_brackets host h),
      kept.1 ∙ ap (λ u. u.port) found ∙ behind _ (length-append host (47 ∷ a)),
    )
  where
    colon : (s : Bytes) → IsHost s → find_colon ((s ++ 47 ∷ a) ++ 58 ∷ b) ≡ some (s ++ 47 ∷ a, b)
    colon [] x = absurd x
    colon (y ∷ s) x =
        unfold find_colon in
        ap kept_colon (split_last-append 58 (y ∷ (s ++ 47 ∷ a)) b b58)
        ∙ rw (kept_colon, split_at-none 93 b b93) refl

    no_brackets : (s : Bytes) → IsHost s → host_of (s ++ 47 ∷ a) ≡ s ++ 47 ∷ a
    no_brackets [] x = absurd x
    no_brackets (y ∷ s) (x, z, (bracket, w)) = rw bracket refl

    behind : (n : ℕ) → n ≡ length host + suc (length a) → port_of (length host) n b ≡ some b
    behind n e =
        let one : (length host == n + 1) ≡ false = ground arith in
        let two : ltb (length host) (n + 1) ≡ true = ground arith in
        unfold port_of in rw (one, two) refl
