-- ===== src/DiscoverServer/Clients.antt =====
-- discover/discover-server.c: the clients, and what is written to them.
use petitboot.Base.{
  ℕ, Bool, true, false, not, Option, none, some, List, [], ◌∷◌, ◌++◌, ◌==◌, if◌then◌else◌, Bytes,
  map,
}
use petitboot.Talloc.{Talloc, CStr}
use petitboot.Types.{Device, BootOption, PluginOption, Status, SystemInfo, Config}
use petitboot.Protocol.Words.{ByteOrder}
use petitboot.Protocol.Reader.{Message}
use petitboot.DiscoverServer.Notices.{
  Notice, device_add, boot_option_add, boot_status, system_info, config, plugin_option_add,
  authenticated, notice_message,
}

-- `waiter` and `auth_waiter` say whether the client's waiters are registered. `sent` is what was
-- written to the client, in order.
pub record Client : Type 0 where
  pub fd : ℕ
  pub waiter : Bool
  pub remote_closed : Bool
  pub can_modify : Bool
  pub auth_waiter : Bool
  pub sent : List Notice

-- The newest client first.
pub record DiscoverServer : Type 0 where
  pub clients : List Client
  pub status : List Status
  pub restrict_clients : Bool

-- What the server finds around it: the byte order, talloc, whether a write to a socket succeeds,
-- translations of texts, the system's password, and whether a new password can be stored.
pub record World : Type 0 where
  pub order : ByteOrder
  pub talloc : Talloc
  pub write_message : ℕ → Message → Bool
  pub gettext : Bytes → Bytes
  pub crypt_check_password : CStr → Bool
  pub crypt_set_password : CStr → Bool
  -- What freshly allocated memory holds for a bool.
  pub uninitialised : Bool

-- client_write_message, once the message is made: the client, and whether it was written.
unfoldable pub client_write_message : World → Notice → Client → Client × Bool
client_write_message w n c = elim (notice_message w.order n) [
  | none ↦ (c, false)
  | some m ↦
      if c.remote_closed
      then (c, false)
      else if w.write_message c.fd m
      then (record c { sent = c.sent ++ n ∷ [] }, true)
      else (record c { remote_closed = true }, false)
]

abbrev pub write : World → Notice → Client → Client
write w n c = (client_write_message w n c).0

-- One write after the other, which ends at the first that fails.
unfoldable pub write_until : World → List Notice → Client → Client × Bool
write_until w [] c = (c, true)
write_until w (n ∷ ns) c =
    let (c', ok) = client_write_message w n c in
    let rest = write_until w ns c' in if ok then rest else (c', false)

-- One write after the other, whatever their results are.
unfoldable pub write_all : World → List Notice → Client → Client
write_all w [] c = c
write_all w (n ∷ ns) c = write_all w ns (write w n c)

-- A notification of every client, as in discover_server_notify_*.
unfoldable pub notify : World → Notice → DiscoverServer → DiscoverServer
notify w n s = record s { clients = map (write w n) s.clients }

-- The status is kept for later clients, marked as backlog.
unfoldable pub notify_boot_status : World → Status → DiscoverServer → DiscoverServer
notify_boot_status w st s = notify w (boot_status st) (record s {
  status =
      s.status
      ++ record {
        type = st.type;
        message = st.message;
        backlog = true;
        boot_active = w.uninitialised;
      }
        ∷ [];
})

unfoldable pub set_auth_mode : World → Bool → DiscoverServer → DiscoverServer
set_auth_mode w restrict s = record s {
  restrict_clients = restrict;
  clients =
      map (λ c. write w (authenticated (not restrict)) (record c { can_modify = not restrict }))
        s.clients;
}

unfoldable pub find_client : ℕ → List Client → Option Client
find_client fd [] = none
find_client fd (c ∷ cs) = if c.fd == fd then some c else find_client fd cs

unfoldable pub update_client : ℕ → (Client → Client) → List Client → List Client
update_client fd f [] = []
update_client fd f (c ∷ cs) = if c.fd == fd then f c ∷ cs else c ∷ update_client fd f cs

unfoldable pub on_client : ℕ → (Client → Client) → DiscoverServer → DiscoverServer
on_client fd f s = record s { clients = update_client fd f s.clients }

-- The timer that a client's authentication starts.
unfoldable pub client_auth_timeout : World → Client → Client
client_auth_timeout w c =
    write w (authenticated false) (record c { auth_waiter = false; can_modify = false })

-- A device with its options, as the device handler has them.
pub record Known : Type 0 where
  pub device : Device
  pub boot_options : List BootOption

unfoldable pub device_notices : List Known → List Notice
device_notices [] = []
device_notices (k ∷ ks) =
    device_add k.device ∷ (map boot_option_add k.boot_options ++ device_notices ks)

-- `getsockopt` gives the user of the connecting process, or fails.
unfoldable pub may_modify : Bool → Option ℕ → Bool
may_modify false user = true
may_modify true none = false
may_modify true (some uid) = uid == 0

-- What is written to a new client: a failure in the first part ends it.
unfoldable pub welcome :
    World → SystemInfo → Config → List Known → List PluginOption → List Status → Client → Client
welcome w sysinfo conf known plugins backlog c =
    let (c', ok) =
      write_until w
        (authenticated c.can_modify ∷ system_info sysinfo ∷ config conf ∷ device_notices known) c in
    if ok then write_all w (map boot_status backlog ++ map plugin_option_add plugins) c' else c'

abbrev pub new_client : ℕ → Bool → Client
new_client fd allowed = record {
  fd = fd;
  waiter = true;
  remote_closed = false;
  can_modify = allowed;
  auth_waiter = false;
  sent = [];
}

unfoldable pub process_connection :
    World
    → SystemInfo
    → Config
    → List Known
    → List PluginOption
    → ℕ
    → Option ℕ
    → DiscoverServer
    → DiscoverServer
process_connection w sysinfo conf known plugins fd user s = record s {
  clients =
      welcome w sysinfo conf known plugins s.status
        (new_client fd (may_modify s.restrict_clients user))
      ∷ s.clients;
}
