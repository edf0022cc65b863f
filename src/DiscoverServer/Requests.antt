-- ===== src/DiscoverServer/Requests.antt =====
-- discover/discover-server.c: discover_server_process_message and
-- discover_server_handle_auth_message, and the removal of a client's waiter by waiter_poll.
use petitboot.CString.{codes}
use petitboot.Base.{
  ℕ, Bool, true, false, not, none, some, List, [], ◌∷◌, ◌==◌, if◌then◌else◌, Bytes,
}
use petitboot.Talloc.{CStr}
use petitboot.Types.{BootCommand, Config, AutobootOption, status_info, status_error}
use petitboot.Protocol.Reader.{Message, Outcome, done, refused, fault}
use petitboot.Protocol.Fields.{deserialise_string}
use petitboot.Protocol.BootCommand.{deserialise_boot_command}
use petitboot.Protocol.Config.{deserialise_config}
use petitboot.Protocol.Autoboot.{deserialise_temp_autoboot}
use petitboot.Protocol.Auth.{
  AuthMessage, request, response, set_password, decrypt_dev, other, deserialise_authenticate,
}
use petitboot.DiscoverServer.Notices.{boot_status, authenticated}
use petitboot.DiscoverServer.Clients.{
  Client, DiscoverServer, World, client_write_message, write, set_auth_mode, find_client, on_client,
}

-- What the server asks of the device handler.
pub data HandlerCall : Type 0 where
  boot : Bool → BootCommand → HandlerCall
  cancel_default : HandlerCall
  reinit : HandlerCall
  update_config : Config → HandlerCall
  process_url : CStr → HandlerCall
  install_plugin : CStr → HandlerCall
  apply_temp_autoboot : AutobootOption → HandlerCall
  open_encrypted_dev : CStr → CStr → HandlerCall

-- The server after a message, the calls, whether the return is 0, and whether a load was outside
-- the message.
pub record Handled : Type 0 where
  pub server : DiscoverServer
  pub calls : List HandlerCall
  pub ok : Bool
  pub faulted : Bool

abbrev pub handled : DiscoverServer → List HandlerCall → Bool → Handled
handled s calls ok = record { server = s; calls = calls; ok = ok; faulted = false }

abbrev pub crashed : DiscoverServer → Handled
crashed s = record { server = s; calls = []; ok = false; faulted = true }

-- The status that discover_server_handle_auth_message writes at its end.
abbrev pub answer : World → ℕ → Bytes → ℕ → DiscoverServer → DiscoverServer
answer w type text fd s =
    on_client fd
      (write w (
        boot_status (record {
          type = type;
          message = some (w.gettext text);
          backlog = false;
          boot_active = false;
        })))
      s

-- The client that has given the password: what is written to it succeeds or fails, and its timer
-- starts anew.
unfoldable pub authenticate : World → Client → Client × Bool
authenticate w c =
    let (c', ok) = client_write_message w (authenticated true) (record c { can_modify = true }) in
    (record c' { auth_waiter = true }, ok)

abbrev pub empty_text : CStr → Bool
empty_text none = true
empty_text (some []) = true
empty_text (some (c ∷ s)) = false

-- AUTH_MSG_SET once the old password is checked.
unfoldable pub store_password : World → ℕ → CStr → DiscoverServer → Handled
store_password w fd new s =
    if w.crypt_set_password new
    then handled
        (answer w status_error (codes "Password updated successfully") fd
          (set_auth_mode w (not (empty_text new)) s))
        [] true
    else handled (answer w status_error (codes "Error setting password") fd s) [] false

unfoldable pub handle_auth_message : World → Client → AuthMessage → DiscoverServer → Handled
handle_auth_message w c (request password) s =
    if w.crypt_check_password password
    then handled
        (answer w status_info (codes "Authenticated successfully") c.fd
          (on_client c.fd (λ d. (authenticate w d).0) s))
        [] (authenticate w c).1
    else handled (answer w status_error (codes "Password incorrect") c.fd s) [] false
handle_auth_message w c (set_password old new) s =
    if s.restrict_clients
    then (if w.crypt_check_password old
        then store_password w c.fd new s
        else handled (answer w status_error (codes "Password incorrect") c.fd s) [] false)
    else store_password w c.fd new s
handle_auth_message w c (decrypt_dev password id) s =
    if c.can_modify
    then handled s (open_encrypted_dev password id ∷ []) true
    else handled
        (answer w status_error (codes "Must authenticate before opening encrypted device") c.fd s)
        [] false
handle_auth_message w c (response b) s = handled s [] false
handle_auth_message w c (other k) s = handled s [] false

-- A message's value to its handler; a refusal leaves the server as it is and returns `ok`.
unfoldable pub with_value :
    {A : Type 0} → Outcome A → DiscoverServer → Bool → (A → Handled) → Handled
with_value (done a c) s ok f = f a
with_value refused s ok f = handled s [] ok
with_value fault s ok f = crashed s

-- `pb_protocol_deserialise_string` gives a null pointer when it is refused.
unfoldable pub with_string : Outcome CStr → DiscoverServer → (CStr → HandlerCall) → Handled
with_string (done a c) s f = handled s (f a ∷ []) true
with_string refused s f = handled s (f none ∷ []) true
with_string fault s f = crashed s

-- The switch for a client that may not modify.
unfoldable pub process_restricted : World → Client → Message → DiscoverServer → Handled
process_restricted w c m s =
    if m.action == 5
    then with_value (deserialise_boot_command w.talloc m) s true
        (λ cmd. handled s (boot c.can_modify cmd ∷ []) true)
    else if m.action == 7
    then handled s (cancel_default ∷ []) true
    else if m.action == 16
    then with_value (deserialise_authenticate w.talloc w.order m) s false
        (λ auth. handle_auth_message w c auth s)
    else handled
        (on_client c.fd
          (write w (
            boot_status (record {
              type = status_error;
              message = some (codes "Client must run as root to make changes");
              backlog = false;
              boot_active = false;
            })))
          s)
        [] true

-- The other one, which returns 0 at its end.
abbrev pub always_ok : Handled → Handled
always_ok h = if h.faulted then h else record h { ok = true }

unfoldable pub process_unrestricted : World → Config → Client → Message → DiscoverServer → Handled
process_unrestricted w zeroed c m s =
    if m.action == 5
    then with_value (deserialise_boot_command w.talloc m) s true
        (λ cmd. handled s (boot c.can_modify cmd ∷ []) true)
    else if m.action == 7
    then handled s (cancel_default ∷ []) true
    else if m.action == 10
    then handled s (reinit ∷ []) true
    else if m.action == 9
    then with_value (deserialise_config w.talloc zeroed m) s true
        (λ conf. handled s (update_config conf ∷ []) true)
    else if m.action == 11
    then with_string (deserialise_string w.talloc m) s process_url
    else if m.action == 14
    then with_string (deserialise_string w.talloc m) s install_plugin
    else if m.action == 15
    then with_value (deserialise_temp_autoboot w.talloc m) s true
        (λ opt. handled s (apply_temp_autoboot opt ∷ []) true)
    else if m.action == 16
    then always_ok (
        with_value (deserialise_authenticate w.talloc w.order m) s true
          (λ auth. handle_auth_message w c auth s))
    else handled s [] true

-- `zeroed` is the configuration that talloc_zero gives.
unfoldable pub process_message : World → Config → Client → Message → DiscoverServer → Handled
process_message w zeroed c m s =
    if c.can_modify then process_unrestricted w zeroed c m s else process_restricted w c m s

-- A callback that does not return 0 loses its waiter.
abbrev pub drop_waiter : ℕ → Handled → Handled
drop_waiter fd h =
    if h.ok
    then h
    else record h { server = on_client fd (λ c. record c { waiter = false }) h.server }

-- waiter_poll for a message on the socket fd: without a waiter nothing is read.
unfoldable pub serve : World → Config → ℕ → Message → DiscoverServer → Handled
serve w zeroed fd m s = elim (find_client fd s.clients) [
  | none ↦ handled s [] true
  | some c ↦ if c.waiter then drop_waiter fd (process_message w zeroed c m s) else handled s [] true
]
