-- ===== src/Tests/Clients.antt =====
-- Examples of ui/common/discover-client.c.
use petitboot.Base.{List, ◌≡◌, refl, true, false, none, some, [], ◌∷◌, map, arith}
use petitboot.Protocol.Words.{put_be32, put_host32}
use petitboot.Protocol.Reader.{Message}
use petitboot.Protocol.Fields.{put_string, put_bool, received}
use petitboot.Protocol.Device.{device_bytes}
use petitboot.Protocol.Device.RoundTrip.{received_device}
use petitboot.Protocol.BootOption.{boot_option_bytes}
use petitboot.Protocol.BootOption.RoundTrip.{received_boot_option}
use petitboot.Protocol.BootCommand.{boot_command_bytes}
use petitboot.Protocol.BootCommand.RoundTrip.{received_boot_command}
use petitboot.DiscoverServer.Clients.{Known, DiscoverServer, find_client, device_notices}
use petitboot.DiscoverServer.Requests.{boot, serve}
use petitboot.DiscoverServer.Notices.{notice_message}
use petitboot.DiscoverClient.{ClientWorld, DiscoverClient, find_device, process_messages}
use petitboot.DiscoverClient.Mirror.{AreNew, newest_first, process_messages-device_notices}
use petitboot.DiscoverClient.Requests.{BootData, send_boot, create_boot_command, request_message}
use petitboot.DiscoverClient.Delivery.{IsSendable, asked, serve-request_message}
use petitboot.Tests.Data.{plain, text}
use petitboot.Tests.Messages.{disk, entry}
use petitboot.Tests.Configurations.{settings, machine}
use petitboot.Tests.Server.{world, visitor, restricted}

abbrev disk_known : Known
disk_known = record {
  device = disk;
  boot_options = record entry { description = text "first" } ∷ entry ∷ [];
}

abbrev client_world : ClientWorld
client_world = record {
  order = world.order;
  talloc = plain;
  zeroed_sysinfo = machine;
  zeroed_config = settings;
}

abbrev ui : DiscoverClient
ui = record {
  ops = record {
    has_device_add = true;
    has_boot_option_add = true;
    has_plugin_option_add = false;
    has_plugins_remove = false;
    has_update_status = true;
    has_update_sysinfo = true;
    has_update_config = true;
  };
  devices = [];
  authenticated = false;
  calls = [];
}

disk-AreNew : AreNew world.order [] (disk_known ∷ [])
unfolding AreNew device_bytes boot_option_bytes put_string put_be32 put_host32 put_bool received
    find_device
disk-AreNew = (
  (omega arith, omega arith, refl),
  ((omega arith, omega arith, refl), ((omega arith, omega arith, refl), tt)),
  refl,
  tt,
)

disk_mirrored :
    (ms : List Message) × (map (notice_message world.order) (device_notices (disk_known ∷ []))
      ≡ map some ms)
    × (c' : DiscoverClient) × (process_messages client_world ms ui ≡ some c')
    × (c'.devices
        ≡ record {
          device = record disk { description = none };
          boot_options = entry ∷ record entry { description = text "first" } ∷ [];
        }
          ∷ [])
unfolding received_device newest_first received_boot_option received
disk_mirrored = process_messages-device_notices client_world (disk_known ∷ []) ui disk-AreNew

abbrev allowed : DiscoverServer
allowed = record restricted { clients = record visitor { can_modify = true } ∷ [] }

abbrev entered : BootData
entered = record {
  image = text "/vmlinux";
  initrd = none;
  dtb = none;
  args = text "";
  args_sig_file = none;
}

boot_asked :
    (m : Message) × (request_message world.order (send_boot (text "/dev/tty1") (some entry) entered)
      ≡ some m)
    × ((serve world settings 7 m allowed).calls
        ≡ boot true (record {
          option_id = text "sda@linux";
          boot_image_file = text "/vmlinux";
          initrd_file = none;
          dtb_file = none;
          boot_args = none;
          args_sig_file = none;
          console = text "/dev/tty1";
        })
          ∷ [])
unfolding find_client IsSendable asked create_boot_command boot_command_bytes put_string put_be32
    received_boot_command received
boot_asked =
    serve-request_message world settings 7 allowed (record visitor { can_modify = true })
      (send_boot (text "/dev/tty1") (some entry) entered) refl refl refl (omega arith, omega arith)
