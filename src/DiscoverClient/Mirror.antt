-- ===== src/DiscoverClient/Mirror.antt =====
-- What the client library holds after the notices of the server.
use mathlib.Core.List.{append_assoc, map-append, append-nil}
use mathlib.Core.Path.{ap₂, subst}
use petitboot.Base.{
  ℕ, ◌-◌, ◌≤◌, ◌≡◌, refl, sym, ap, ◌∙◌, Bool, true, false, Option, none, some, List, [], ◌∷◌, ◌++◌,
  All, map, length, arith, Bool-cases, inl, inr, ltb,
}
use petitboot.Talloc.{CStr}
use petitboot.Types.{Device, BootOption}
use petitboot.Protocol.Words.{ByteOrder}
use petitboot.Protocol.Reader.{Message, Outcome, done, refused, fault}
use petitboot.Protocol.Fields.{received, message_of, value, max_payload, Written, written}
use petitboot.Protocol.Transport.{create_message}
use petitboot.Protocol.Device.{device_len, device_bytes}
use petitboot.Protocol.Device.RoundTrip.{
  IsDevice, received_device, device_len_lem, deserialise_device-serialise_device,
}
use petitboot.Protocol.BootOption.{boot_option_len, boot_option_bytes}
use petitboot.Protocol.BootOption.RoundTrip.{
  IsBootOption, received_boot_option, boot_option_len_lem,
  deserialise_boot_option-serialise_boot_option,
}
use petitboot.DiscoverServer.Notices.{Notice, device_add, boot_option_add, build, notice_message}
use petitboot.DiscoverServer.Clients.{Known, device_notices}
use petitboot.DiscoverClient.{
  ClientDevice, ClientWorld, DiscoverClient, UiCall, ui_device_add, ui_boot_option_add, tell,
  id_equal, find_device, add_to_device, with_payload, discover_client_process, process_messages,
}
use petitboot.DiscoverClient

pub build-written :
    (w : Written) (out : List ℕ) (action len : ℕ)
    → w ≡ written out
    → len ≡ length out
    → length out ≤ max_payload
    → build w action len ≡ some (message_of action out)
unfolding create_message
build-written w out action len e l h =
    let room : ltb max_payload (length out) ≡ false = ground arith in
    let filled : length out - length out ≡ 0 = omega arith in
    rw (e, l, create_message, room, filled)
      (ap (λ p. some (record { action = action; payload_len = length out; payload = p }))
        (append-nil out))

with_payload-value :
    {A : Type 0} (r : Outcome A) (a : A) (c : DiscoverClient) (f : A → Option DiscoverClient)
    → value r ≡ some a
    → with_payload r c f ≡ f a
unfolding with_payload
with_payload-value {A = A} (done b k) a c f e = ap (λ r. with_payload_of r) e
  where
    with_payload_of : Option A → Option DiscoverClient
    with_payload_of none = none
    with_payload_of (some x) = f x
with_payload-value refused a c f e = absurd cc
with_payload-value fault a c f e = absurd cc

tell-devices :
    (given : Bool) (call : UiCall) (c : DiscoverClient) → (tell given call c).devices ≡ c.devices
tell-devices true call c = refl
tell-devices false call c = refl

-- A device whose message fits, and whose id is neither null nor empty.
abbrev pub IsSendableDevice : ByteOrder → Device → Type 0
IsSendableDevice o d =
    IsDevice d
    × (length (device_bytes o d) ≤ max_payload)
    × (id_equal (received d.id) (received d.id) ≡ true)

-- A boot option of the device with this id, whose message fits.
abbrev pub IsSendableOption : CStr → BootOption → Type 0
IsSendableOption id b =
    IsBootOption b × (length (boot_option_bytes b) ≤ max_payload) × (b.device_id ≡ id)

-- A device of the client with its options, the newest first, after more have come.
unfoldable pub newest_first : List BootOption → List BootOption → List BootOption
newest_first held [] = held
newest_first held (b ∷ bs) = newest_first (received_boot_option b ∷ held) bs

-- The client's copy of a device of the server.
abbrev pub mirrored : Known → ClientDevice
mirrored k = record {
  device = received_device k.device;
  boot_options = newest_first [] k.boot_options;
}

module _ (w : ClientWorld) where
  device_message :
      (d : Device)
      → IsDevice d
      → length (device_bytes w.order d) ≤ max_payload
      → (notice_message w.order (device_add d) ≡ some (message_of 1 (device_bytes w.order d)))
        × ((c : DiscoverClient)
            → discover_client_process w (message_of 1 (device_bytes w.order d)) c
              ≡ some (DiscoverClient.device_add c (received_device d)))
  unfolding notice_message discover_client_process
  device_message d h small =
      let both = deserialise_device-serialise_device w.talloc w.order 1 h (omega arith) in
      (
        build-written _ _ 1 (device_len d) both.0 (device_len_lem w.order d (omega arith)) small,
        λ c. with_payload-value _ _ c _ both.1,
      )

  option_message :
      (b : BootOption)
      → IsBootOption b
      → length (boot_option_bytes b) ≤ max_payload
      → (notice_message w.order (boot_option_add b) ≡ some (message_of 2 (boot_option_bytes b)))
        × ((c : DiscoverClient)
            → discover_client_process w (message_of 2 (boot_option_bytes b)) c
              ≡ DiscoverClient.boot_option_add c (received_boot_option b))
  unfolding notice_message discover_client_process
  option_message b h small =
      let both = deserialise_boot_option-serialise_boot_option w.talloc 2 h (omega arith) in
      (
        build-written _ _ 2 (boot_option_len b) both.0 (boot_option_len_lem b (omega arith)) small,
        λ c. with_payload-value _ _ c _ both.1,
      )

  process_messages-append :
      (ms ms' : List Message) (c c' : DiscoverClient)
      → process_messages w ms c ≡ some c'
      → process_messages w (ms ++ ms') c ≡ process_messages w ms' c'
  unfolding process_messages
  process_messages-append [] ms' c c' e = ap (λ r. run r) e
    where
      run : Option DiscoverClient → Option DiscoverClient
      run none = none
      run (some x) = process_messages w ms' x
  process_messages-append (m ∷ ms) ms' c c' e =
      step (discover_client_process w m c) (λ x. process_messages-append ms ms' x c') e
    where
      step :
          (r : Option DiscoverClient)
          → ((x : DiscoverClient)
              → process_messages w ms x ≡ some c'
              → process_messages w (ms ++ ms') x ≡ process_messages w ms' c')
          → (elim r [ none ↦ none | some x ↦ process_messages w ms x ]) ≡ some c'
          → (elim r [ none ↦ none | some x ↦ process_messages w (ms ++ ms') x ])
            ≡ process_messages w ms' c'
      step none next h = absurd cc
      step (some x) next h = next x h

find_device-last :
    (ds : List ClientDevice) (d : ClientDevice) (id : CStr)
    → find_device ds id ≡ none
    → id_equal d.device.id id ≡ true
    → find_device (ds ++ d ∷ []) id ≡ some d
unfolding find_device
find_device-last [] d id fresh e = rw e refl
find_device-last (x ∷ ds) d id fresh e = elim (Bool-cases (id_equal x.device.id id)) [
  | inl hit ↦ absurd (clash hit)
  | inr miss ↦ rw miss (find_device-last ds d id (skip miss) e)
]
  where
    clash : id_equal x.device.id id ≡ true → ⊥
    clash hit = ground arith

    skip : id_equal x.device.id id ≡ false → find_device ds id ≡ none
    skip miss = ground arith

add_to_device-last :
    (ds : List ClientDevice) (d : ClientDevice) (b : BootOption)
    → find_device ds b.device_id ≡ none
    → id_equal d.device.id b.device_id ≡ true
    → add_to_device (ds ++ d ∷ []) b ≡ ds ++ record d { boot_options = b ∷ d.boot_options } ∷ []
unfolding find_device add_to_device
add_to_device-last [] d b fresh e = rw e refl
add_to_device-last (x ∷ ds) d b fresh e = elim (Bool-cases (id_equal x.device.id b.device_id)) [
  | inl hit ↦ absurd (clash hit)
  | inr miss ↦ rw miss (ap (◌∷◌ x) (add_to_device-last ds d b (skip miss) e))
]
  where
    clash : id_equal x.device.id b.device_id ≡ true → ⊥
    clash hit = ground arith

    skip : id_equal x.device.id b.device_id ≡ false → find_device ds b.device_id ≡ none
    skip miss = ground arith

-- What the messages of the notices do to the client's devices.
abbrev pub Mirrors : ClientWorld → List Notice → DiscoverClient → List ClientDevice → Type 0
Mirrors w ns c ds =
    (ms : List Message) × (map (notice_message w.order) ns ≡ map some ms)
    × (c' : DiscoverClient) × (process_messages w ms c ≡ some c')
    × (c'.devices ≡ ds)

module _ (w : ClientWorld) where
  Mirrors-append :
      (ns ns' : List Notice) (c c' : DiscoverClient) (ms : List Message) (ds : List ClientDevice)
      → map (notice_message w.order) ns ≡ map some ms
      → process_messages w ms c ≡ some c'
      → Mirrors w ns' c' ds
      → Mirrors w (ns ++ ns') c ds
  Mirrors-append ns ns' c c' ms ds made ran (ms', made', c'', ran', held) = (
    ms ++ ms',
    map-append (notice_message w.order) ns ns' ∙ ap₂ ◌++◌ made made' ∙ sym (map-append some ms ms'),
    c'',
    process_messages-append w ms ms' c c' ran ∙ ran',
    held,
  )

  boot_option_added :
      (c : DiscoverClient) (ds : List ClientDevice) (d : ClientDevice) (b : BootOption)
      → c.devices ≡ ds ++ d ∷ []
      → find_device ds b.device_id ≡ none
      → id_equal d.device.id b.device_id ≡ true
      → (c' : DiscoverClient) × (DiscoverClient.boot_option_add c b ≡ some c')
        × (c'.devices ≡ ds ++ record d { boot_options = b ∷ d.boot_options } ∷ [])
  unfolding DiscoverClient.boot_option_add
  boot_option_added c ds d b held fresh same =
      let found : find_device c.devices b.device_id ≡ some d =
        ap (λ x. find_device x b.device_id) held ∙ find_device-last ds d b.device_id fresh same in
      let told =
        tell c.ops.has_boot_option_add (ui_boot_option_add d.device b)
          (record c { devices = add_to_device c.devices b }) in
      (
        told,
        ap
            (λ r. elim r [
              | none ↦ none
              | some x ↦ some (
                  tell c.ops.has_boot_option_add (ui_boot_option_add x.device b)
                    (record c { devices = add_to_device c.devices b }))
            ])
            found,
        tell-devices c.ops.has_boot_option_add _ _
            ∙ ap (λ x. add_to_device x b) held
            ∙ add_to_device-last ds d b fresh same,
      )

  -- The options of one device, the last of the client's devices.
  boot_options_mirrored :
      (id : CStr) (bs held : List BootOption) (ds : List ClientDevice) (dev : Device)
      (c : DiscoverClient)
      → c.devices ≡ ds ++ record { device = dev; boot_options = held } ∷ []
      → find_device ds (received id) ≡ none
      → id_equal dev.id (received id) ≡ true
      → All (IsSendableOption id) bs
      → Mirrors w
          (map boot_option_add bs)
          c
          (ds ++ record { device = dev; boot_options = newest_first held bs } ∷ [])
  unfolding process_messages newest_first received_boot_option
  boot_options_mirrored id [] held ds dev c now fresh same h = ([], refl, c, refl, now)
  boot_options_mirrored id (b ∷ bs) held ds dev c now fresh same ((opt, small, of_device), h) =
      let (made, ran) = option_message w b opt small in
      let here : find_device ds (received b.device_id) ≡ none =
        ap (λ x. find_device ds (received x)) of_device ∙ fresh in
      let alike : id_equal dev.id (received b.device_id) ≡ true =
        ap (λ x. id_equal dev.id (received x)) of_device ∙ same in
      let (c', added, then_) =
        boot_option_added c ds (record { device = dev; boot_options = held })
          (received_boot_option b) now here alike in
      let (ms, made', c'', ran', end) =
        boot_options_mirrored id bs (received_boot_option b ∷ held) ds dev c' then_ fresh same h in
      (
        message_of 2 (boot_option_bytes b) ∷ ms,
        ap₂ ◌∷◌ made made',
        c'',
        ap (λ r. elim r [ none ↦ none | some x ↦ process_messages w ms x ]) (ran c ∙ added) ∙ ran',
        end,
      )

-- Devices whose messages fit, with options of their own, and whose ids the client does not have
-- before them.
unfoldable pub AreNew : ByteOrder → List ClientDevice → List Known → Type 0
AreNew o ds [] = Unit
AreNew o ds (k ∷ ks) =
    IsSendableDevice o k.device
    × All (IsSendableOption k.device.id) k.boot_options
    × (find_device ds (received k.device.id) ≡ none)
    × AreNew o (ds ++ mirrored k ∷ []) ks

-- The messages that the server makes of devices and their options leave a client of the library
-- with these devices in the same order behind those that it had, each with its options, the
-- newest first: no assertion fails. The texts are C strings, the messages are not too long, the
-- devices' ids are not empty and differ, and the options carry the ids of their devices.
pub process_messages-device_notices :
    (w : ClientWorld) (known : List Known) (c : DiscoverClient)
    → AreNew w.order c.devices known
    → Mirrors w (device_notices known) c (c.devices ++ map mirrored known)
unfolding device_notices process_messages AreNew received_device
process_messages-device_notices w [] c h = ([], refl, c, refl, sym (append-nil c.devices))
process_messages-device_notices w (k ∷ ks) c ((dev, small, same), opts, fresh, h) =
    let d = received_device k.device in
    let c₁ = DiscoverClient.device_add c d in
    let (made, ran) = device_message w k.device dev small in
    let now : c₁.devices ≡ c.devices ++ record { device = d; boot_options = [] } ∷ [] =
      unfold DiscoverClient.device_add in tell-devices c.ops.has_device_add (ui_device_add d) _ in
    let (ms, made', c₂, ran', held) =
      boot_options_mirrored w k.device.id k.boot_options [] c.devices d c₁ now fresh same opts in
    let later =
      process_messages-device_notices w ks c₂ (subst (λ ds. AreNew w.order ds ks) (sym held) h) in
    let behind =
      subst (Mirrors w (device_notices ks) c₂)
        (ap (λ ds. ds ++ map mirrored ks) held
          ∙ append_assoc c.devices (mirrored k ∷ []) (map mirrored ks))
        later in
    Mirrors-append w (device_add k.device ∷ map boot_option_add k.boot_options) (device_notices ks)
      c c₂ (message_of 1 (device_bytes w.order k.device) ∷ ms) _ (ap₂ ◌∷◌ made made')
      (ap (λ r. elim r [ none ↦ none | some x ↦ process_messages w ms x ]) (ran c) ∙ ran') behind
