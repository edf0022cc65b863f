-- ===== src/DiscoverServer/Connection.antt =====
-- What a new client is told, and what notifications add.
use petitboot.Base.{
  ℕ, ◌≡◌, refl, sym, ap, ◌∙◌, Bool, true, false, Option, none, some, List, [], ◌∷◌, ◌++◌,
  if◌then◌else◌, All, arith, map, ◌⊎◌, inl, inr, ◌↔◌, ◌==◌, Bool-cases,
}
use mathlib.Core.Path.{ap₂}
use mathlib.Core.List.{append_assoc, append-nil}
use petitboot.Types.{Config, SystemInfo, PluginOption, Status}
use petitboot.Protocol.Reader.{Message}
use petitboot.DiscoverServer.Notices.{
  Notice, notice_message, device_add, boot_option_add, boot_status, system_info, config,
  plugin_option_add, authenticated,
}
use petitboot.DiscoverServer.Clients.{
  Client, DiscoverServer, World, client_write_message, write, write_until, write_all, Known,
  device_notices, may_modify, welcome, new_client, process_connection, notify,
}

-- The notice becomes a message, and its write to the socket succeeds.
abbrev pub Deliverable : World → ℕ → Notice → Type 0
Deliverable w fd n =
    (m : Message) × (notice_message w.order n ≡ some m) × (w.write_message fd m ≡ true)

abbrev pub told : Client → List Notice → Client
told c ns = record c { sent = c.sent ++ ns }

client_write_message-told :
    (w : World) (n : Notice) (c : Client)
    → c.remote_closed ≡ false
    → Deliverable w c.fd n
    → client_write_message w n c ≡ (told c (n ∷ []), true)
unfolding client_write_message
client_write_message-told w n c up (m, made, sent) = ground arith

write_until-told :
    (w : World) (ns : List Notice) (c : Client)
    → c.remote_closed ≡ false
    → All (Deliverable w c.fd) ns
    → write_until w ns c ≡ (told c ns, true)
unfolding write_until
write_until-told w [] c up h = ap (λ s. (record c { sent = s }, true)) (sym (append-nil c.sent))
write_until-told w (n ∷ ns) c up (h, hs) =
    ap (λ r. if r.1 then write_until w ns r.0 else (r.0, false))
      (client_write_message-told w n c up h)
    ∙ write_until-told w ns (told c (n ∷ [])) up hs
    ∙ ap (λ s. (record c { sent = s }, true)) (append_assoc c.sent (n ∷ []) ns)

write_all-told :
    (w : World) (ns : List Notice) (c : Client)
    → c.remote_closed ≡ false
    → All (Deliverable w c.fd) ns
    → write_all w ns c ≡ told c ns
unfolding write_all
write_all-told w [] c up h = ap (λ s. record c { sent = s }) (sym (append-nil c.sent))
write_all-told w (n ∷ ns) c up (h, hs) =
    ap (λ r. write_all w ns r.0) (client_write_message-told w n c up h)
    ∙ write_all-told w ns (told c (n ∷ [])) up hs
    ∙ ap (λ s. record c { sent = s }) (append_assoc c.sent (n ∷ []) ns)

-- A device, and its options in their order.
abbrev pub known_notices : Known → List Notice
known_notices k = device_add k.device ∷ map boot_option_add k.boot_options

abbrev pub flatten : List (List Notice) → List Notice
flatten [] = []
flatten (ns ∷ nss) = ns ++ flatten nss

device_notices-flatten :
    (known : List Known) → device_notices known ≡ flatten (map known_notices known)
unfolding device_notices
device_notices-flatten [] = refl
device_notices-flatten (k ∷ ks) = ap (λ ns. known_notices k ++ ns) (device_notices-flatten ks)

-- The notices for a new client, in order.
abbrev pub all_notices :
    Bool → SystemInfo → Config → List Known → List Status → List PluginOption → List Notice
all_notices allowed sysinfo conf known backlog plugins =
    (authenticated allowed ∷ system_info sysinfo ∷ config conf ∷ flatten (map known_notices known))
    ++ (map boot_status backlog ++ map plugin_option_add plugins)

-- Nobody is restricted, or the user is root.
abbrev pub IsTrusted : Bool → Option ℕ → Type 0
IsTrusted restricted user = (restricted ≡ false) ⊎ (user ≡ some 0)

may_modify-allowed :
    (restricted : Bool) (user : Option ℕ) (allowed : Bool)
    → ((allowed ≡ true) ↔ IsTrusted restricted user)
    → may_modify restricted user ≡ allowed
unfolding may_modify
may_modify-allowed false user allowed h = sym (h.1 (inl refl))
may_modify-allowed true user true h = elim (h.0 refl) [
  | inl e ↦ absurd cc
  | inr root ↦ rw root refl
]
may_modify-allowed true none false h = refl
may_modify-allowed true (some uid) false h = elim (Bool-cases (uid == 0)) [
  | inl root ↦ absurd (false_true (h.1 (inr (ap some (zero_of uid root)))))
  | inr other ↦ other
]
  where
    false_true : false ≡ true → ⊥
    false_true e = cc

    zero_of : (uid : ℕ) → (uid == 0) ≡ true → uid ≡ 0
    zero_of uid e = ground arith

All-split {ℓ} :
    (P : Notice → Type ℓ) (ns rest : List Notice) → All P (ns ++ rest) → All P ns × All P rest
All-split P [] rest h = (tt, h)
All-split P (n ∷ ns) rest (h, hs) = let (a, b) = All-split P ns rest hs in ((h, a), b)

welcome-told :
    (w : World) (sysinfo : SystemInfo) (conf : Config) (known : List Known)
    (plugins : List PluginOption) (backlog : List Status) (c : Client)
    → c.remote_closed ≡ false
    → All (Deliverable w c.fd) (all_notices c.can_modify sysinfo conf known backlog plugins)
    → welcome w sysinfo conf known plugins backlog c
      ≡ told c (all_notices c.can_modify sysinfo conf known backlog plugins)
unfolding welcome
welcome-told w sysinfo conf known plugins backlog c up h =
    let start =
      λ (ns : List Notice). authenticated c.can_modify ∷ system_info sysinfo ∷ config conf ∷ ns in
    let first = start (flatten (map known_notices known)) in
    let later = map boot_status backlog ++ map plugin_option_add plugins in
    let (now, then_) = All-split (Deliverable w c.fd) first later h in
    ap (λ ns. finish later (write_until w (start ns) c)) (device_notices-flatten known)
    ∙ ap (finish later) (write_until-told w first c up now)
    ∙ write_all-told w later (told c first) up then_
    ∙ ap (λ ns. record c { sent = ns }) (append_assoc c.sent first later)
  where
    finish : List Notice → Client × Bool → Client
    finish later r = if r.1 then write_all w later r.0 else r.0

-- When every notice can be delivered, a connecting process becomes the first of the clients: it is
-- allowed to modify exactly when the server does not restrict its clients or the process is known
-- to run as root, and it is told, in this order, what it is allowed, the system information, the
-- configuration, every device with its boot options, the backlog of statuses and the plugins. The
-- other clients are as they were. The new one is listened to, and no timer takes its permission
-- away.
pub process_connection-told :
    (w : World) (sysinfo : SystemInfo) (conf : Config) (known : List Known)
    (plugins : List PluginOption) (fd : ℕ) (user : Option ℕ) (s : DiscoverServer) (allowed : Bool)
    → ((allowed ≡ true) ↔ IsTrusted s.restrict_clients user)
    → All (Deliverable w fd) (all_notices allowed sysinfo conf known s.status plugins)
    → (process_connection w sysinfo conf known plugins fd user s).clients
      ≡ record {
        fd = fd;
        waiter = true;
        remote_closed = false;
        can_modify = allowed;
        auth_waiter = false;
        sent = all_notices allowed sysinfo conf known s.status plugins;
      }
        ∷ s.clients
unfolding process_connection
process_connection-told w sysinfo conf known plugins fd user s allowed trusted h =
    ap (λ b. welcome w sysinfo conf known plugins s.status (new_client fd b) ∷ s.clients)
      (may_modify-allowed s.restrict_clients user allowed trusted)
    ∙ ap (λ c. c ∷ s.clients)
        (welcome-told w sysinfo conf known plugins s.status (new_client fd allowed) refl h)

-- A notification reaches every client that can be written to, once and last.
notify-told :
    (w : World) (n : Notice) (s : DiscoverServer)
    → All (λ c. (c.remote_closed ≡ false) × Deliverable w c.fd n) s.clients
    → (notify w n s).clients ≡ map (λ c. told c (n ∷ [])) s.clients
unfolding notify
notify-told w n s h = each s.clients h
  where
    each :
        (cs : List Client)
        → All (λ c. (c.remote_closed ≡ false) × Deliverable w c.fd n) cs
        → map (write w n) cs ≡ map (λ c. told c (n ∷ [])) cs
    each [] k = refl
    each (c ∷ cs) ((up, d), k) =
        ap₂ ◌∷◌ (ap (λ r. r.0) (client_write_message-told w n c up d)) (each cs k)
