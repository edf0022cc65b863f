-- ===== src/Tests/Server.antt =====
-- Examples of discover/discover-server.c.
use petitboot.Base.{inr, List, All, ◌≡◌, refl, true, false, none, some, [], ◌∷◌}
use petitboot.Protocol.Words.{little, get_host32, put_host32, put_all}
use petitboot.Protocol.Fields.{put_string, put_bool, message_of, optional_strlen, strings_len}
use petitboot.Protocol.Reader.{Message, ◌>>=◌, pure, load_host32, read_string}
use petitboot.Protocol.Auth.{
  deserialise_authenticate, read_authenticate, read_auth_body, authenticate_len,
  serialise_authenticate, authenticate_bytes,
}
use petitboot.Protocol.Fields.{finish}
use petitboot.Protocol.Transport.{create_message}
use petitboot.Protocol.Config.{config_len, config_bytes, serialise_config}
use petitboot.Protocol.SystemInfo.{system_info_len, system_info_bytes, serialise_system_info}
use petitboot.Protocol.Config.Interface.{config_interface_bytes, interface_config_len}
use petitboot.Protocol.Autoboot.{autoboot_bytes, autoboot_opt_len}
use petitboot.DiscoverServer.Notices.{Notice, system_info, config, authenticated, notice_message}
use petitboot.DiscoverServer.Clients.{
  Client, DiscoverServer, World, process_connection, client_auth_timeout, find_client,
}
use petitboot.DiscoverServer.Requests.{serve, store_password, handled}
use petitboot.DiscoverServer.Permission.{AreHarmless, serve-AreHarmless}
use petitboot.DiscoverServer.Passwords.{AllMayModify, serve-wrong_password, store_password-timeout}
use petitboot.DiscoverServer.Connection.{Deliverable, process_connection-told}
use petitboot.Tests.Data.{plain, text}
use petitboot.Tests.Configurations.{settings, machine}

abbrev pub world : World
world = record {
  order = little;
  talloc = plain;
  write_message = λ fd m. true;
  gettext = λ s. s;
  crypt_check_password = λ p. false;
  crypt_set_password = λ p. true;
  uninitialised = false;
}

abbrev pub visitor : Client
visitor = record {
  fd = 7;
  waiter = true;
  remote_closed = false;
  can_modify = false;
  auth_waiter = true;
  sent = [];
}

abbrev pub restricted : DiscoverServer
restricted = record { clients = visitor ∷ []; status = []; restrict_clients = true }

reinit_refused : AreHarmless (serve world settings 7 (message_of 10 []) restricted)
unfolding find_client
reinit_refused = serve-AreHarmless world settings 7 (message_of 10 []) restricted visitor refl refl

abbrev wrong : Message
wrong = message_of 16 (0 ∷ 0 ∷ 0 ∷ 0 ∷ 0 ∷ 0 ∷ 0 ∷ 1 ∷ 120 ∷ [])

visitor_dropped :
    serve world settings 7 (message_of 7 []) (serve world settings 7 wrong restricted).server
    ≡ handled (serve world settings 7 wrong restricted).server [] true
unfolding find_client deserialise_authenticate read_authenticate ◌>>=◌ load_host32 get_host32
    read_auth_body read_string pure
visitor_dropped =
    serve-wrong_password world settings wrong (message_of 7 []) restricted visitor (text "x") _ refl
      refl refl refl refl refl

password_cleared :
    ((store_password world 7 none restricted).server.restrict_clients ≡ false)
    × AllMayModify (store_password world 7 none restricted).server.clients
    × ((c' : Client) × (find_client 7 (store_password world 7 none restricted).server.clients
          ≡ some c')
        × (c'.can_modify ≡ true)
        × (c'.auth_waiter ≡ true)
        × ((client_auth_timeout world c').can_modify ≡ false))
unfolding find_client
password_cleared = store_password-timeout world none restricted visitor refl refl refl

abbrev first_notices : List Notice
first_notices = authenticated true ∷ system_info machine ∷ config settings ∷ []

notices-Deliverable : All (Deliverable world 8) first_notices
unfolding notice_message serialise_authenticate serialise_config serialise_system_info
    authenticate_len config_len system_info_len create_message finish authenticate_bytes put_host32
    put_bool system_info_bytes put_string put_all optional_strlen strings_len config_bytes
    config_interface_bytes autoboot_bytes interface_config_len autoboot_opt_len
notices-Deliverable = ((_, refl, refl), ((_, refl, refl), ((_, refl, refl), tt)))

welcomed :
    (process_connection world machine settings [] [] 8 (some 0) restricted).clients
    ≡ record {
      fd = 8;
      waiter = true;
      remote_closed = false;
      can_modify = true;
      auth_waiter = false;
      sent = first_notices;
    }
      ∷ visitor
      ∷ []
welcomed =
    process_connection-told world machine settings [] [] 8 (some 0) restricted true
      (λ e. inr refl, λ t. refl) notices-Deliverable
