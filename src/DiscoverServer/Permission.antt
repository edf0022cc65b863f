-- ===== src/DiscoverServer/Permission.antt =====
-- What a client without permission can have done.
use petitboot.Base.{ℕ, ◌≡◌, refl, Bool, true, false, some, [], ◌∷◌, ◌==◌, if◌then◌else◌, All}
use petitboot.Talloc.{CStr}
use petitboot.Types.{Config}
use petitboot.Protocol.Reader.{Message, Outcome, done, refused, fault}
use petitboot.Protocol.Auth.{
  AuthMessage, request, response, set_password, decrypt_dev, other, deserialise_authenticate,
}
use petitboot.Protocol.BootCommand.{deserialise_boot_command}
use petitboot.DiscoverServer.Clients.{Client, DiscoverServer, World, find_client, on_client}
use petitboot.DiscoverServer.Requests.{
  HandlerCall, boot, cancel_default, reinit, update_config, process_url, install_plugin,
  apply_temp_autoboot, open_encrypted_dev, Handled, handled, store_password, handle_auth_message,
  with_value, process_restricted, process_message, drop_waiter, serve,
}

-- A boot that does not change the default, or the end of the countdown.
abbrev pub IsHarmless : HandlerCall → Type 0
IsHarmless (boot change cmd) = change ≡ false
IsHarmless cancel_default = Unit
IsHarmless reinit = ⊥
IsHarmless (update_config c) = ⊥
IsHarmless (process_url u) = ⊥
IsHarmless (install_plugin u) = ⊥
IsHarmless (apply_temp_autoboot o) = ⊥
IsHarmless (open_encrypted_dev p d) = ⊥

abbrev pub AreHarmless : Handled → Type 0
AreHarmless h = All IsHarmless h.calls

if-AreHarmless :
    (b : Bool) (g h : Handled) → AreHarmless g → AreHarmless h → AreHarmless (if b then g else h)
if-AreHarmless true g h p q = p
if-AreHarmless false g h p q = q

guarded-AreHarmless :
    (b : Bool) (g h : Handled)
    → (b ≡ true → AreHarmless g)
    → (b ≡ false → AreHarmless h)
    → AreHarmless (if b then g else h)
guarded-AreHarmless true g h p q = p refl
guarded-AreHarmless false g h p q = q refl

contradiction : {b : Bool} → b ≡ true → b ≡ false → ⊥
contradiction p q = cc

with_value-AreHarmless :
    {A : Type 0} (o : Outcome A) (s : DiscoverServer) (ok : Bool) (f : A → Handled)
    → ((a : A) → AreHarmless (f a))
    → AreHarmless (with_value o s ok f)
unfolding with_value
with_value-AreHarmless (done a c) s ok f h = h a
with_value-AreHarmless refused s ok f h = tt
with_value-AreHarmless fault s ok f h = tt

store_password-AreHarmless :
    (w : World) (fd : ℕ) (new : CStr) (s : DiscoverServer) → AreHarmless (store_password w fd new s)
unfolding store_password
store_password-AreHarmless w fd new s = if-AreHarmless (w.crypt_set_password new) _ _ tt tt

handle_auth_message-AreHarmless :
    (w : World) (c : Client) (a : AuthMessage) (s : DiscoverServer)
    → c.can_modify ≡ false
    → AreHarmless (handle_auth_message w c a s)
unfolding handle_auth_message
handle_auth_message-AreHarmless w c (request p) s e =
    if-AreHarmless (w.crypt_check_password p) _ _ tt tt
handle_auth_message-AreHarmless w c (set_password old new) s e =
    if-AreHarmless s.restrict_clients _ _
      (if-AreHarmless (w.crypt_check_password old) _ _ (store_password-AreHarmless w c.fd new s) tt)
      (store_password-AreHarmless w c.fd new s)
handle_auth_message-AreHarmless w c (decrypt_dev p d) s e =
    guarded-AreHarmless c.can_modify _ _ (λ on. absurd (contradiction on e)) (λ off. tt)
handle_auth_message-AreHarmless w c (response b) s e = tt
handle_auth_message-AreHarmless w c (other k) s e = tt

process_restricted-AreHarmless :
    (w : World) (c : Client) (m : Message) (s : DiscoverServer)
    → c.can_modify ≡ false
    → AreHarmless (process_restricted w c m s)
unfolding process_restricted
process_restricted-AreHarmless w c m s e =
    if-AreHarmless (m.action == 5) _ _
      (with_value-AreHarmless (deserialise_boot_command w.talloc m) s true
        (λ cmd. handled s (boot c.can_modify cmd ∷ []) true) (λ cmd. (e, tt)))
      (if-AreHarmless (m.action == 7) _ _ (tt, tt)
        (if-AreHarmless (m.action == 16) _ _
          (with_value-AreHarmless (deserialise_authenticate w.talloc w.order m) s false
            (λ auth. handle_auth_message w c auth s)
            (λ auth. handle_auth_message-AreHarmless w c auth s e))
          tt))

drop_waiter-AreHarmless : (fd : ℕ) (h : Handled) → AreHarmless h → AreHarmless (drop_waiter fd h)
drop_waiter-AreHarmless fd h p =
    if-AreHarmless h.ok h
      (record h { server = on_client fd (λ c. record c { waiter = false }) h.server }) p p

process_message-AreHarmless :
    (w : World) (zeroed : Config) (c : Client) (m : Message) (s : DiscoverServer)
    → c.can_modify ≡ false
    → AreHarmless (process_message w zeroed c m s)
unfolding process_message
process_message-AreHarmless w zeroed c m s e =
    guarded-AreHarmless c.can_modify _ _ (λ on. absurd (contradiction on e))
      (λ off. process_restricted-AreHarmless w c m s e)

-- Whatever message a client without permission sends, well formed or not, the device handler is
-- asked for nothing but a boot that does not change the default, or the end of the countdown.
pub serve-AreHarmless :
    (w : World) (zeroed : Config) (fd : ℕ) (m : Message) (s : DiscoverServer) (c : Client)
    → find_client fd s.clients ≡ some c
    → c.can_modify ≡ false
    → AreHarmless (serve w zeroed fd m s)
unfolding serve
serve-AreHarmless w zeroed fd m s c found e =
    rw (serve, found)
      (if-AreHarmless c.waiter _ _
        (drop_waiter-AreHarmless fd _ (process_message-AreHarmless w zeroed c m s e)) tt)
