-- ===== src/DiscoverServer/Passwords.antt =====
-- What giving and setting the password does to the clients.
use petitboot.CString.{codes}
use petitboot.Base.{
  ℕ, ◌≡◌, refl, ap, ◌∙◌, Bool, true, false, not, none, some, List, [], ◌∷◌, inl, inr, ◌==◌,
  if◌then◌else◌, All, Bool-cases, arith, map,
}
use petitboot.Talloc.{CStr}
use petitboot.Types.{Config, status_error}
use petitboot.Protocol.Reader.{Message, Cursor, done}
use petitboot.Protocol.Auth.{request, deserialise_authenticate}
use petitboot.DiscoverServer.Notices.{Notice, boot_status}
use petitboot.DiscoverServer.Clients.{
  Client, DiscoverServer, World, client_write_message, write, find_client, update_client, on_client,
  set_auth_mode, client_auth_timeout,
}
use petitboot.DiscoverServer.Requests.{
  Handled, handled, empty_text, store_password, handle_auth_message, with_value, process_restricted,
  process_message, serve, answer, drop_waiter,
}

-- What a write leaves of a client.
write-kept :
    (w : World) (n : Notice) (c : Client)
    → ((write w n c).fd ≡ c.fd)
      × ((write w n c).can_modify ≡ c.can_modify)
      × ((write w n c).waiter ≡ c.waiter)
      × ((write w n c).auth_waiter ≡ c.auth_waiter)
unfolding client_write_message
write-kept w n c = ground arith

find_client-update_client :
    (fd : ℕ) (f : Client → Client) (cs : List Client) (c : Client)
    → find_client fd cs ≡ some c
    → ((d : Client) → (f d).fd ≡ d.fd)
    → find_client fd (update_client fd f cs) ≡ some (f c)
unfolding find_client update_client
find_client-update_client fd f [] c e h = absurd cc
find_client-update_client fd f (d ∷ cs) c e h = elim (Bool-cases (d.fd == fd)) [
  | inl hit ↦ ground (arith, h d)
  | inr miss ↦ ground (arith, find_client-update_client fd f cs c)
]

-- A client that has no waiter is not served.
serve-idle :
    (w : World) (zeroed : Config) (fd : ℕ) (m : Message) (s : DiscoverServer) (c : Client)
    → find_client fd s.clients ≡ some c
    → c.waiter ≡ false
    → serve w zeroed fd m s ≡ handled s [] true
unfolding serve
serve-idle w zeroed fd m s c found off = ground arith

-- A server whose client fd lost its waiter.
abbrev pub Deaf : ℕ → DiscoverServer → Type 0
Deaf fd s = (c : Client) × (find_client fd s.clients ≡ some c) × (c.waiter ≡ false)

drop_waiter-Deaf :
    (fd : ℕ) (h : Handled) (c : Client)
    → h.ok ≡ false
    → find_client fd h.server.clients ≡ some c
    → Deaf fd (drop_waiter fd h).server
unfolding on_client
drop_waiter-Deaf fd h c failed found = rw failed (
  record c { waiter = false },
  find_client-update_client fd (λ d. record d { waiter = false }) h.server.clients c found
      (λ d. refl),
  refl,
)

answer-found :
    (w : World) (type : ℕ) (text : List ℕ) (fd : ℕ) (s : DiscoverServer) (c : Client)
    → find_client fd s.clients ≡ some c
    → (c' : Client) × (find_client fd (answer w type text fd s).clients ≡ some c')
unfolding on_client
answer-found w type text fd s c found = (
  write w _ c,
  find_client-update_client fd (write w _) s.clients c found (λ d. (write-kept w _ d).0),
)

-- A wrong password is answered, and the return is not 0.
wrong_password :
    (w : World) (c : Client) (p : CStr) (s : DiscoverServer)
    → w.crypt_check_password p ≡ false
    → find_client c.fd s.clients ≡ some c
    → ((handle_auth_message w c (request p) s).ok ≡ false)
      × ((c' : Client) × (find_client c.fd (handle_auth_message w c (request p) s).server.clients
            ≡ some c'))
unfolding handle_auth_message
wrong_password w c p s wrong found = (
  rw (handle_auth_message, wrong) refl,
  rw (handle_auth_message, wrong) (answer-found w _ _ c.fd s c found),
)

request-handled :
    (w : World) (zeroed : Config) (c : Client) (m : Message) (s : DiscoverServer) (p : CStr)
    (k : Cursor)
    → c.can_modify ≡ false
    → (m.action == 16) ≡ true
    → deserialise_authenticate w.talloc w.order m ≡ done (request p) k
    → process_message w zeroed c m s ≡ handle_auth_message w c (request p) s
unfolding process_message process_restricted with_value
request-handled w zeroed c m s p k off sixteen read =
    let a5 : (m.action == 5) ≡ false = ground arith in
    let a7 : (m.action == 7) ≡ false = ground arith in ground arith

chosen {ℓ} : {A : Type ℓ} (b : Bool) → b ≡ true → (x y : A) → (if b then x else y) ≡ x
chosen true e x y = refl
chosen false e x y = absurd cc

abbrev serve_or_not : World → Config → ℕ → Message → DiscoverServer → Client → Handled
serve_or_not w zeroed fd m s c =
    if c.waiter then drop_waiter fd (process_message w zeroed c m s) else handled s [] true

-- A client without permission that sends a wrong password is not heard again: no later message of
-- it changes the server or reaches the device handler.
pub serve-wrong_password :
    (w : World) (zeroed : Config) (m later : Message) (s : DiscoverServer) (c : Client) (p : CStr)
    (k : Cursor)
    → find_client c.fd s.clients ≡ some c
    → c.can_modify ≡ false
    → c.waiter ≡ true
    → m.action ≡ 16
    → deserialise_authenticate w.talloc w.order m ≡ done (request p) k
    → w.crypt_check_password p ≡ false
    → serve w zeroed c.fd later (serve w zeroed c.fd m s).server
      ≡ handled (serve w zeroed c.fd m s).server [] true
unfolding serve
serve-wrong_password w zeroed m later s c p k found off heard act read wrong =
    let (failed, (c', found')) = wrong_password w c p s wrong found in
    let h = handle_auth_message w c (request p) s in
    let now : serve w zeroed c.fd m s ≡ drop_waiter c.fd h =
      served (request-handled w zeroed c m s p k off (ground arith) read) in
    let (d, seen, deaf) = drop_waiter-Deaf c.fd h c' failed found' in
    rw now (serve-idle w zeroed c.fd later (drop_waiter c.fd h).server d seen deaf)
  where
    served :
        process_message w zeroed c m s ≡ handle_auth_message w c (request p) s
        → serve w zeroed c.fd m s ≡ drop_waiter c.fd (handle_auth_message w c (request p) s)
    served e =
        ap
          (λ o. elim o as (λ x. Handled) [
            | none ↦ handled s [] true
            | some d ↦ serve_or_not w zeroed c.fd m s d
          ])
          found
        ∙ chosen c.waiter heard (drop_waiter c.fd (process_message w zeroed c m s))
            (handled s [] true)
        ∙ ap (drop_waiter c.fd) e

-- Every client has the permission.
abbrev pub AllMayModify : List Client → Type 0
AllMayModify cs = All (λ c. c.can_modify ≡ true) cs

map-write-AllMayModify :
    (w : World) (n : Notice) (b : Bool) (cs : List Client)
    → b ≡ true
    → AllMayModify (map (λ c. write w n (record c { can_modify = b })) cs)
map-write-AllMayModify w n b [] e = tt
map-write-AllMayModify w n b (c ∷ cs) e =
    ((write-kept w n (record c { can_modify = b })).1 ∙ e, map-write-AllMayModify w n b cs e)

-- When the restriction is lifted, every client may modify.
set_auth_mode-AllMayModify :
    (w : World) (s : DiscoverServer) → AllMayModify (set_auth_mode w false s).clients
unfolding set_auth_mode
set_auth_mode-AllMayModify w s = map-write-AllMayModify w _ true s.clients refl

-- A write to one client takes no permission away.
update_client-AllMayModify :
    (w : World) (n : Notice) (fd : ℕ) (cs : List Client)
    → AllMayModify cs
    → AllMayModify (update_client fd (write w n) cs)
unfolding update_client
update_client-AllMayModify w n fd [] h = tt
update_client-AllMayModify w n fd (c ∷ cs) (h, hs) = elim (Bool-cases (c.fd == fd)) [
  | inl hit ↦ rw hit ((write-kept w n c).1 ∙ h, hs)
  | inr miss ↦ rw miss (h, update_client-AllMayModify w n fd cs hs)
]

find_client-map :
    (fd : ℕ) (f : Client → Client) (cs : List Client) (c : Client)
    → find_client fd cs ≡ some c
    → ((d : Client) → (f d).fd ≡ d.fd)
    → find_client fd (map f cs) ≡ some (f c)
unfolding find_client
find_client-map fd f [] c e h = absurd cc
find_client-map fd f (d ∷ cs) c e h = elim (Bool-cases (d.fd == fd)) [
  | inl hit ↦ ground (arith, h d)
  | inr miss ↦ ground (arith, h d, find_client-map fd f cs c)
]

-- A client found before is found when the restriction is lifted, may modify, and keeps its timer.
lifted :
    (w : World) (s : DiscoverServer) (c : Client)
    → find_client c.fd s.clients ≡ some c
    → (c' : Client) × (find_client c.fd (set_auth_mode w false s).clients ≡ some c')
      × (c'.can_modify ≡ true)
      × (c'.auth_waiter ≡ c.auth_waiter)
unfolding set_auth_mode
lifted w s c found =
    let d = record c { can_modify = true } in
    let (same, may, heard, timer) = write-kept w _ d in
    (
      write w _ d,
      find_client-map c.fd (λ e. write w _ (record e { can_modify = true })) s.clients c found
          (λ e. (write-kept w _ (record e { can_modify = true })).0),
      may,
      timer,
    )

-- The answer to a password that was stored.
abbrev password_updated : World → Notice
password_updated w = boot_status (record {
  type = status_error;
  message = some (w.gettext (codes "Password updated successfully"));
  backlog = false;
  boot_active = false;
})

store_password-cleared :
    (w : World) (fd : ℕ) (new : CStr) (s : DiscoverServer)
    → empty_text new ≡ true
    → w.crypt_set_password new ≡ true
    → store_password w fd new s
      ≡ handled (on_client fd (write w (password_updated w)) (set_auth_mode w false s)) [] true
unfolding store_password
store_password-cleared w fd new s empty stored =
    chosen (w.crypt_set_password new) stored _ _
    ∙ ap
        (λ b.
          handled (on_client fd (write w (password_updated w)) (set_auth_mode w (not b) s)) [] true)
        empty

set_auth_mode-lifts :
    (w : World) (s : DiscoverServer) → (set_auth_mode w false s).restrict_clients ≡ false
unfolding set_auth_mode
set_auth_mode-lifts w s = refl

timeout-denies : (w : World) (c : Client) → (client_auth_timeout w c).can_modify ≡ false
unfolding client_auth_timeout
timeout-denies w c = (write-kept w _ (record c { auth_waiter = false; can_modify = false })).1

-- When a client clears the password, the restriction is lifted, every client may modify, and the
-- client's own timer stays as it was; if it fires, the client may not modify although the server
-- restricts nobody.
pub store_password-timeout :
    (w : World) (new : CStr) (s : DiscoverServer) (c : Client)
    → find_client c.fd s.clients ≡ some c
    → empty_text new ≡ true
    → w.crypt_set_password new ≡ true
    → ((store_password w c.fd new s).server.restrict_clients ≡ false)
      × AllMayModify (store_password w c.fd new s).server.clients
      × ((c' : Client) × (find_client c.fd (store_password w c.fd new s).server.clients ≡ some c')
          × (c'.can_modify ≡ true)
          × (c'.auth_waiter ≡ c.auth_waiter)
          × ((client_auth_timeout w c').can_modify ≡ false))
unfolding on_client
store_password-timeout w new s c found empty stored =
    let after = set_auth_mode w false s in
    let (c', seen, may, timer) = lifted w s c found in
    let (same, may', heard, timer') = write-kept w (password_updated w) c' in
    rw (store_password-cleared w c.fd new s empty stored) (
      set_auth_mode-lifts w s,
      update_client-AllMayModify w (password_updated w) c.fd after.clients
          (set_auth_mode-AllMayModify w s),
      (
        write w (password_updated w) c',
        find_client-update_client c.fd (write w (password_updated w)) after.clients c' seen
            (λ d. (write-kept w (password_updated w) d).0),
        may' ∙ may,
        timer' ∙ timer,
        timeout-denies w (write w (password_updated w) c'),
      ),
    )
