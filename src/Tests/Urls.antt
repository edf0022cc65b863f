-- ===== src/Tests/Urls.antt =====
-- Examples of lib/url/url.c.
use petitboot.CString.{codes}
use petitboot.Base.{◌≡◌, refl, false, some}
use petitboot.Url.{
  UrlParts, http_scheme, tftp_scheme, pb_url_parse, pb_url_to_string, scheme_name, one_slash,
  split_last, pb_url_parse_path,
}
use petitboot.Url.RoundTrip.{IsHost, pb_url_parse-pb_url_to_string, pb_url_parse-path_colon}
use petitboot.Tests.Data.{text}

server_parsed :
    pb_url_parse (codes "tftp://10.0.0.1:69/boot/vmlinux")
    ≡ some (record {
      scheme = tftp_scheme;
      full = codes "tftp://10.0.0.1:69/boot/vmlinux";
      host = text "10.0.0.1";
      port = text "69";
      path = codes "/boot/vmlinux";
      dir = text "/boot/";
      file = codes "vmlinux";
    })
unfolding pb_url_to_string scheme_name one_slash pb_url_parse_path split_last
server_parsed =
    pb_url_parse-pb_url_to_string (λ h. false) tftp_scheme (codes "10.0.0.1") (text "69")
      (codes "boot/vmlinux") refl refl (search, search, search) (search, search, search)
      (refl, search, search)

colon_taken :
    (u : UrlParts) × (pb_url_parse (codes "http://host/a:b") ≡ some u)
    × (u.host ≡ text "host/a")
    × (u.port ≡ text "b")
unfolding scheme_name
colon_taken =
    let h : IsHost (codes "host") = (search, search, search) in
    pb_url_parse-path_colon http_scheme (codes "host") (codes "a") (codes "b") refl h (refl, tt)
      (refl, tt)
