-- ===== src/DiscoverClient/Requests.antt =====
-- ui/common/discover-client.c: the requests of the client library.
use petitboot.Base.{ℕ, ◌+◌, Option, none, some, [], u32}
use petitboot.Talloc.{CStr}
use petitboot.Types.{BootCommand, BootOption, Config, AutobootOption}
use petitboot.Protocol.Words.{ByteOrder}
use petitboot.Protocol.Reader.{Message}
use petitboot.Protocol.Fields.{finish, put_string, optional_strlen}
use petitboot.Protocol.Transport.{create_message}
use petitboot.Protocol.BootCommand.{boot_len, serialise_boot_command}
use petitboot.Protocol.Config.{config_len, serialise_config}
use petitboot.Protocol.Autoboot.{temp_autoboot_len, serialise_temp_autoboot}
use petitboot.Protocol.Auth.{
  AuthMessage, request, set_password, decrypt_dev, authenticate_len, serialise_authenticate,
}
use petitboot.DiscoverServer.Notices.{build}

-- `struct pb_boot_data`: what the user has entered.
pub record BootData : Type 0 where
  pub image : CStr
  pub initrd : CStr
  pub dtb : CStr
  pub args : CStr
  pub args_sig_file : CStr

-- `tty` is the name of the terminal on standard input.
unfoldable pub create_boot_command : CStr → Option BootOption → BootData → BootCommand
create_boot_command tty opt entered = record {
  option_id = elim opt [ none ↦ none | some o ↦ o.id ];
  boot_image_file = entered.image;
  initrd_file = entered.initrd;
  dtb_file = entered.dtb;
  boot_args = entered.args;
  args_sig_file = entered.args_sig_file;
  console = tty;
}

-- A function of the library that sends a message, with its arguments.
pub data Request : Type 0 where
  send_boot : CStr → Option BootOption → BootData → Request
  send_cancel_default : Request
  send_reinit : Request
  send_config : Config → Request
  send_url : CStr → Request
  send_plugin_install : CStr → Request
  send_temp_autoboot : AutobootOption → Request
  send_authenticate : CStr → Request
  send_set_password : CStr → CStr → Request
  send_open_luks_device : CStr → CStr → Request

-- pb_protocol_url_len and pb_protocol_serialise_url, and the message around the text.
unfoldable pub url_message : CStr → ℕ → Option Message
url_message url action =
    build (finish (put_string url) (u32 (4 + optional_strlen url))) action
      (u32 (4 + optional_strlen url))

unfoldable pub auth_request : ByteOrder → AuthMessage → Option Message
auth_request o m = build (serialise_authenticate o m (authenticate_len m)) 16 (authenticate_len m)

-- The message that the function writes to the socket; none when a buffer is overrun, or the
-- message too long.
unfoldable pub request_message : ByteOrder → Request → Option Message
request_message o (send_boot tty opt entered) =
    let command = create_boot_command tty opt entered in
    build (serialise_boot_command command (boot_len command)) 5 (boot_len command)
request_message o send_cancel_default = create_message [] 7 0
request_message o send_reinit = create_message [] 10 0
request_message o (send_config c) = build (serialise_config o c (config_len c)) 9 (config_len c)
request_message o (send_url url) = url_message url 11
request_message o (send_plugin_install file) = url_message file 14
request_message o (send_temp_autoboot opt) =
    build (serialise_temp_autoboot opt (temp_autoboot_len opt)) 15 (temp_autoboot_len opt)
request_message o (send_authenticate password) = auth_request o (request password)
request_message o (send_set_password password new) = auth_request o (set_password password new)
request_message o (send_open_luks_device password id) = auth_request o (decrypt_dev password id)
