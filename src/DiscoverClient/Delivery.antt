-- ===== src/DiscoverClient/Delivery.antt =====
-- That the server carries out the requests of the client library.
use petitboot.Base.{
  ℕ, ◌+◌, ◌≤◌, ◌≡◌, refl, ap, ◌∙◌, Bool, true, false, Option, none, some, List, [], ◌∷◌, u32,
  length, length-append, arith, if◌then◌else◌,
}
use petitboot.Talloc.{CStr}
use petitboot.Types.{BootOption, Config}
use petitboot.Protocol.Words.{ByteOrder, length-put_host32}
use petitboot.Protocol.Reader.{Message, Outcome, done, refused, fault}
use petitboot.Protocol.Fields.{
  IsString, received, message_of, value, max_payload, put_string, optional_strlen,
  deserialise_string,
}
use petitboot.Protocol.Codec.Strings.{length-put_string, read_string-Decodes}
use petitboot.Protocol.Codec.Messages.{finish-written, Decodes-message}
use petitboot.Protocol.Transport.{create_message}
use petitboot.Protocol.BootCommand.{boot_command_bytes}
use petitboot.Protocol.BootCommand.RoundTrip.{
  IsBootCommand, received_boot_command, boot_len_lem,
  deserialise_boot_command-serialise_boot_command,
}
use petitboot.Protocol.Config.{config_bytes}
use petitboot.Protocol.Config.Sizes.{IsConfig, length-config_bytes}
use petitboot.Protocol.Config.RoundTrip.{received_config, deserialise_config-serialise_config}
use petitboot.Protocol.Auth.{
  AuthMessage, request, response, set_password, decrypt_dev, other, authenticate_len,
  authenticate_bytes,
}
use petitboot.Protocol.Auth.RoundTrip.{
  IsAuthMessage, received_auth, deserialise_authenticate-serialise_authenticate,
}
use petitboot.DiscoverServer.Clients.{Client, DiscoverServer, World, find_client}
use petitboot.DiscoverServer.Requests.{
  HandlerCall, boot, cancel_default, reinit, update_config, process_url, install_plugin,
  open_encrypted_dev, Handled, handled, with_value, with_string, store_password,
  handle_auth_message, process_unrestricted, process_message, serve, drop_waiter, always_ok,
}
use petitboot.DiscoverClient.Mirror.{build-written}
use petitboot.DiscoverClient.Requests.{
  Request, create_boot_command, send_boot, send_cancel_default, send_reinit, send_config, send_url,
  send_plugin_install, send_temp_autoboot, send_authenticate, send_set_password,
  send_open_luks_device, url_message, auth_request, request_message,
}

-- The texts of the request are C strings, and its message is not too long. A temporary autoboot
-- option is left out: its serialiser overruns its buffer.
unfoldable pub IsSendable : ByteOrder → Request → Type 0
IsSendable o (send_boot tty opt entered) =
    IsBootCommand (create_boot_command tty opt entered)
    × (length (boot_command_bytes (create_boot_command tty opt entered)) ≤ max_payload)
IsSendable o send_cancel_default = Unit
IsSendable o send_reinit = Unit
IsSendable o (send_config c) = IsConfig c × (length (config_bytes o c) ≤ max_payload)
IsSendable o (send_url url) = IsString url × (length (put_string url) ≤ max_payload)
IsSendable o (send_plugin_install file) = IsString file × (length (put_string file) ≤ max_payload)
IsSendable o (send_temp_autoboot opt) = ⊥
IsSendable o (send_authenticate password) =
    IsString password × (length (authenticate_bytes o (request password)) ≤ max_payload)
IsSendable o (send_set_password password new) =
    IsString password
    × IsString new
    × (length (authenticate_bytes o (set_password password new)) ≤ max_payload)
IsSendable o (send_open_luks_device password id) =
    IsString password
    × IsString id
    × (length (authenticate_bytes o (decrypt_dev password id)) ≤ max_payload)

-- An operation that the library asks for.
abbrev IsRequest : AuthMessage → Type 0
IsRequest (request p) = Unit
IsRequest (set_password p n) = Unit
IsRequest (decrypt_dev p d) = Unit
IsRequest (response b) = ⊥
IsRequest (other k) = ⊥

-- The option that the user has chosen.
abbrev pub chosen_id : Option BootOption → CStr
chosen_id none = none
chosen_id (some o) = o.id

-- The call of the device handler that the request stands for, over the configuration that the
-- server fills. Passwords are the server's own business.
unfoldable pub asked : Config → Request → List HandlerCall
asked zeroed (send_boot tty opt entered) =
    boot true (record {
      option_id = received (chosen_id opt);
      boot_image_file = received entered.image;
      initrd_file = received entered.initrd;
      dtb_file = received entered.dtb;
      boot_args = received entered.args;
      args_sig_file = received entered.args_sig_file;
      console = received tty;
    })
    ∷ []
asked zeroed send_cancel_default = cancel_default ∷ []
asked zeroed send_reinit = reinit ∷ []
asked zeroed (send_config c) = update_config (received_config zeroed c) ∷ []
asked zeroed (send_url url) = process_url (received url) ∷ []
asked zeroed (send_plugin_install file) = install_plugin (received file) ∷ []
asked zeroed (send_temp_autoboot opt) = []
asked zeroed (send_authenticate password) = []
asked zeroed (send_set_password password new) = []
asked zeroed (send_open_luks_device password id) =
    open_encrypted_dev (received password) (received id) ∷ []

with_value-value :
    {A : Type 0} (r : Outcome A) (a : A) (s : DiscoverServer) (ok : Bool) (f : A → Handled)
    → value r ≡ some a
    → with_value r s ok f ≡ f a
unfolding with_value
with_value-value {A = A} (done b k) a s ok f e = ap (λ r. called r) e
  where
    called : Option A → Handled
    called none = handled s [] ok
    called (some x) = f x
with_value-value refused a s ok f e = absurd cc
with_value-value fault a s ok f e = absurd cc

with_string-value :
    (r : Outcome CStr) (a : CStr) (s : DiscoverServer) (f : CStr → HandlerCall)
    → value r ≡ some a
    → with_string r s f ≡ handled s (f a ∷ []) true
unfolding with_string
with_string-value (done b k) a s f e = ap (λ r. called r) e
  where
    called : Option CStr → Handled
    called none = handled s [] true
    called (some x) = handled s (f x ∷ []) true
with_string-value refused a s f e = absurd cc
with_string-value fault a s f e = absurd cc

taken : (b : Bool) (x y : Handled) → b ≡ true → (if b then x else y) ≡ x
taken true x y e = refl
taken false x y e = absurd cc

-- What a client that may modify has done is what its message asks for.
serve-calls :
    (w : World) (zeroed : Config) (fd : ℕ) (m : Message) (s : DiscoverServer) (c : Client)
    → find_client fd s.clients ≡ some c
    → c.waiter ≡ true
    → c.can_modify ≡ true
    → (serve w zeroed fd m s).calls ≡ (process_unrestricted w zeroed c m s).calls
unfolding serve process_message
serve-calls w zeroed fd m s c found heard may =
    rw (serve, found)
      (ap (λ h. h.calls) (taken c.waiter _ (handled s [] true) heard)
        ∙ kept fd (process_message w zeroed c m s)
        ∙ ap (λ h. h.calls) (taken c.can_modify _ _ may))
  where
    kept : (fd : ℕ) (h : Handled) → (drop_waiter fd h).calls ≡ h.calls
    kept fd h = ground arith

store_password-silent :
    (w : World) (fd : ℕ) (new : CStr) (s : DiscoverServer) → (store_password w fd new s).calls ≡ []
unfolding store_password
store_password-silent w fd new s = ground arith

-- The calls of an authentication message of a client that may modify.
abbrev auth_calls : AuthMessage → List HandlerCall
auth_calls (decrypt_dev password id) = open_encrypted_dev password id ∷ []
auth_calls _ = []

handle_auth_message-calls :
    (w : World) (c : Client) (a : AuthMessage) (s : DiscoverServer)
    → c.can_modify ≡ true
    → (handle_auth_message w c a s).calls ≡ auth_calls a
unfolding handle_auth_message
handle_auth_message-calls w c (request p) s may = ground arith
handle_auth_message-calls w c (set_password old new) s may =
    ground (arith, store_password-silent w c.fd new s)
handle_auth_message-calls w c (decrypt_dev p d) s may = rw may refl
handle_auth_message-calls w c (response b) s may = refl
handle_auth_message-calls w c (other k) s may = refl

always_ok-calls : (h : Handled) → (always_ok h).calls ≡ h.calls
always_ok-calls h = ground arith

authenticate_len_lem :
    (o : ByteOrder) (a : AuthMessage)
    → IsRequest a
    → length (authenticate_bytes o a) ≤ max_payload
    → authenticate_len a ≡ length (authenticate_bytes o a)
unfolding authenticate_bytes authenticate_len
authenticate_len_lem o (request p) h small =
    omega (arith, length-append {0}, length-put_host32, length-put_string)
authenticate_len_lem o (set_password p n) h small =
    omega (arith, length-append {0}, length-put_host32, length-put_string)
authenticate_len_lem o (decrypt_dev p d) h small =
    omega (arith, length-append {0}, length-put_host32, length-put_string)
authenticate_len_lem o (response b) h small = absurd h
authenticate_len_lem o (other k) h small = absurd h

-- The message that carries the request, and the calls that it leads to.
abbrev pub Served :
    World → Config → Client → DiscoverServer → Option Message → List HandlerCall → Type 0
Served w zeroed c s sent calls =
    (m : Message) × (sent ≡ some m) × ((process_unrestricted w zeroed c m s).calls ≡ calls)

module _ (w : World) (zeroed : Config) (c : Client) (s : DiscoverServer) where
  url-Served :
      (url : CStr)
      → IsString url
      → length (put_string url) ≤ max_payload
      → Served w zeroed c s (url_message url 11) (process_url (received url) ∷ [])
        × Served w zeroed c s (url_message url 14) (install_plugin (received url) ∷ [])
  unfolding url_message process_unrestricted deserialise_string
  url-Served url text small =
      let len : u32 (4 + optional_strlen url) ≡ length (put_string url) =
        omega (arith, length-put_string url) in
      let fits =
        finish-written (put_string url) (u32 (4 + optional_strlen url)) (omega arith)
          (omega arith) in
      let read : (action : ℕ)
          → value (deserialise_string w.talloc (message_of action (put_string url)))
            ≡ some (received url) =
        λ action. Decodes-message _ action (read_string-Decodes w.talloc url text) (omega arith) in
      (
        (
          message_of 11 (put_string url),
          build-written _ _ 11 _ fits len small,
          ap (λ h. h.calls) (with_string-value _ _ s process_url (read 11)),
        ),
        (
          message_of 14 (put_string url),
          build-written _ _ 14 _ fits len small,
          ap (λ h. h.calls) (with_string-value _ _ s install_plugin (read 14)),
        ),
      )

  auth-Served :
      (a : AuthMessage)
      → c.can_modify ≡ true
      → IsRequest a
      → IsAuthMessage a
      → length (authenticate_bytes w.order a) ≤ max_payload
      → Served w zeroed c s (auth_request w.order a) (auth_calls (received_auth a))
  unfolding auth_request process_unrestricted
  auth-Served a may req text small =
      let both =
        deserialise_authenticate-serialise_authenticate w.talloc w.order 16 a text (omega arith) in
      (
        message_of 16 (authenticate_bytes w.order a),
        build-written _ _ 16 _ both.0 (authenticate_len_lem w.order a req small) small,
        always_ok-calls _
            ∙ ap (λ h. h.calls)
                (with_value-value _ _ s true (λ x. handle_auth_message w c x s) both.1)
            ∙ handle_auth_message-calls w c (received_auth a) s may,
      )

  request-Served :
      (r : Request)
      → c.can_modify ≡ true
      → IsSendable w.order r
      → Served w zeroed c s (request_message w.order r) (asked zeroed r)
  unfolding request_message IsSendable asked process_unrestricted create_message received_auth
      received_boot_command create_boot_command
  request-Served (send_boot tty opt entered) may (text, small) =
      let b = create_boot_command tty opt entered in
      let both = deserialise_boot_command-serialise_boot_command w.talloc 5 text (omega arith) in
      (
        message_of 5 (boot_command_bytes b),
        build-written _ _ 5 _ both.0 (boot_len_lem b (omega arith)) small,
        ap (λ h. h.calls) (with_value-value _ _ s true _ both.1)
            ∙ ap (λ change. boot change (received_boot_command b) ∷ []) may,
      )
  request-Served send_cancel_default may h = (message_of 7 [], refl, refl)
  request-Served send_reinit may h = (message_of 10 [], refl, refl)
  request-Served (send_config x) may (text, small) =
      let both =
        deserialise_config-serialise_config w.talloc w.order 9 zeroed x text (omega arith) in
      (
        message_of 9 (config_bytes w.order x),
        build-written _ _ 9 _ both.0 (length-config_bytes w.order x text (omega arith)).0 small,
        ap (λ h. h.calls) (with_value-value _ _ s true _ both.1),
      )
  request-Served (send_url url) may (text, small) = (url-Served url text small).0
  request-Served (send_plugin_install file) may (text, small) = (url-Served file text small).1
  request-Served (send_temp_autoboot opt) may h = absurd h
  request-Served (send_authenticate p) may (text, small) = auth-Served (request p) may tt text small
  request-Served (send_set_password p n) may (text, text', small) =
      auth-Served (set_password p n) may tt (text, text') small
  request-Served (send_open_luks_device p d) may (text, text', small) =
      auth-Served (decrypt_dev p d) may tt (text, text') small

-- A request of the client library reaches the device handler: the library makes a message, and
-- when the server reads it from a client that may modify and whose waiter is registered, it makes
-- the call that the request stands for, with each empty text as a null pointer, and no other.
-- Passwords lead to no call. The texts are C strings, the message is not too long, and the request
-- is not one for a temporary autoboot option.
pub serve-request_message :
    (w : World) (zeroed : Config) (fd : ℕ) (s : DiscoverServer) (c : Client) (r : Request)
    → find_client fd s.clients ≡ some c
    → c.waiter ≡ true
    → c.can_modify ≡ true
    → IsSendable w.order r
    → (m : Message) × (request_message w.order r ≡ some m)
      × ((serve w zeroed fd m s).calls ≡ asked zeroed r)
serve-request_message w zeroed fd s c r found heard may h =
    let (m, made, called) = request-Served w zeroed c s r may h in
    (m, made, serve-calls w zeroed fd m s c found heard may ∙ called)
