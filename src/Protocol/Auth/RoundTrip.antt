-- ===== src/Protocol/Auth/RoundTrip.antt =====
-- What the receiver makes of an authentication message.
use petitboot.Protocol.Auth.{
  AuthMessage, request, response, set_password, decrypt_dev, other, auth_msg_request,
  auth_msg_response, auth_msg_set, auth_msg_decrypt, authenticate_len, authenticate_bytes,
  serialise_authenticate, read_auth_body, read_authenticate, deserialise_authenticate,
}
use petitboot.Talloc.{IsText}
use petitboot.Base.{
  ℕ, ◌+◌, ◌^◌, ◌<◌, ◌≤◌, ◌≡◌, ◌≢◌, refl, ◌∙◌, some, [], ◌++◌, arith, Bytes, length, length-append,
}
use petitboot.Talloc.{Talloc}
use petitboot.Protocol.Words.{ByteOrder, put_host32, put_be32, length-put_host32, length-put_be32}
use petitboot.Protocol.Reader.{fault, pure, read_string, load_host32}
use petitboot.Protocol.Fields.{IsString, received, put_bool, written, finish, message_of, value}
use petitboot.Protocol.Codec.{Reads, Decodes-Reads, Reads-seq, Reads-last, >>=-done, >>=-fault}
use petitboot.Protocol.Codec.Fields.{
  load_bool-Reads, load_host32-Reads, load_host32_lem, cut_shorter,
}
use petitboot.Protocol.Codec.Strings.{length-put_string, read_string-Decodes, read_string_past}
use petitboot.Protocol.Codec.Messages.{finish-written, Reads-message}

-- A message whose tag the enum names, with C strings.
abbrev pub IsAuthMessage : AuthMessage → Type 0
IsAuthMessage (request p) = IsString p
IsAuthMessage (response b) = Unit
IsAuthMessage (set_password p n) = IsString p × IsString n
IsAuthMessage (decrypt_dev p d) = IsString p × IsString d
IsAuthMessage (other k) = ⊥

unfoldable pub received_auth : AuthMessage → AuthMessage
received_auth (request p) = request (received p)
received_auth (response b) = response b
received_auth (set_password p n) = set_password (received p) (received n)
received_auth (decrypt_dev p d) = decrypt_dev (received p) (received d)
received_auth (other k) = other k

-- How far the counter is behind at the end: the tag, and the flag of a response.
abbrev slack : AuthMessage → ℕ
slack (response b) = 5
slack _ = 4

module _ (t : Talloc) (o : ByteOrder) where
  read_authenticate-Reads :
      (m : AuthMessage)
      → IsAuthMessage m
      → Reads (slack m) (read_authenticate t o) (authenticate_bytes o m) (received_auth m)
  unfolding read_authenticate authenticate_bytes received_auth read_auth_body
  read_authenticate-Reads (request p) h =
      Reads-seq _ (load_host32-Reads o auth_msg_request (omega arith))
        (Reads-last _ (Decodes-Reads (read_string-Decodes t p h)))
  read_authenticate-Reads (response b) h =
      Reads-seq _ (load_host32-Reads o auth_msg_response (omega arith))
        (Reads-last _ (load_bool-Reads b))
  read_authenticate-Reads (set_password p n) h =
      Reads-seq _ (load_host32-Reads o auth_msg_set (omega arith)) (
        Reads-seq _ (Decodes-Reads (read_string-Decodes t p h.0))
          (Reads-last _ (Decodes-Reads (read_string-Decodes t n h.1))))
  read_authenticate-Reads (decrypt_dev p d) h =
      Reads-seq _ (load_host32-Reads o auth_msg_decrypt (omega arith)) (
        Reads-seq _ (Decodes-Reads (read_string-Decodes t p h.0))
          (Reads-last _ (Decodes-Reads (read_string-Decodes t d h.1))))
  read_authenticate-Reads (other k) h = absurd h

authenticate_fits :
    (o : ByteOrder) (m : AuthMessage)
    → IsAuthMessage m
    → length (authenticate_bytes o m) + 3 < 2 ^ 31
    → (authenticate_len m < 2 ^ 31) × (length (authenticate_bytes o m) ≤ authenticate_len m)
unfolding authenticate_bytes authenticate_len put_bool
authenticate_fits o (other k) h b = absurd h
authenticate_fits o m h b = (
  omega (arith, length-append {0}, length-put_host32, length-put_string),
  omega (arith, length-append {0}, length-put_host32, length-put_string),
)

serialise_authenticate-finish :
    (o : ByteOrder) (m : AuthMessage) (n : ℕ)
    → IsAuthMessage m
    → serialise_authenticate o m n ≡ finish (authenticate_bytes o m) n
unfolding serialise_authenticate
serialise_authenticate-finish o (other k) n h = absurd h
serialise_authenticate-finish o m n h = refl

-- An authentication message that is written into a buffer of `pb_protocol_authenticate_len` bytes
-- fits, and a receiver of the same byte order reads the same message from it, with each empty
-- string read as a null pointer. Its tag is one of the enum's, its strings are C strings and it is
-- shorter than 2 ^ 31 - 5 bytes.
pub deserialise_authenticate-serialise_authenticate :
    (t : Talloc) (o : ByteOrder) (action : ℕ) (m : AuthMessage)
    → IsAuthMessage m
    → length (authenticate_bytes o m) + 5 < 2 ^ 31
    → (serialise_authenticate o m (authenticate_len m) ≡ written (authenticate_bytes o m))
      × (value (deserialise_authenticate t o (message_of action (authenticate_bytes o m)))
          ≡ some (received_auth m))
unfolding deserialise_authenticate
deserialise_authenticate-serialise_authenticate t o action m h b = (
  serialise_authenticate-finish o m _ h
      ∙ finish-written _ _ (authenticate_fits o m h (omega arith)).0
          (authenticate_fits o m h (omega arith)).1,
  Reads-message _ action (read_authenticate-Reads t o m h) (slack_bound m),
)
  where
    slack_bound : (x : AuthMessage) → length (authenticate_bytes o m) + slack x < 2 ^ 32
    slack_bound (request p) = omega arith
    slack_bound _ = omega arith

-- A request whose password lacks its last bytes, at most four of them, is not refused: the counter
-- still holds the four bytes of the tag, so the copy of the password runs behind the message.
deserialise_authenticate-cut_password :
    (t : Talloc) (o : ByteOrder) (action : ℕ) (p q : Bytes)
    → IsText p
    → q ≢ []
    → length q ≤ 4
    → 12 + length p < 2 ^ 32
    → deserialise_authenticate t o
        (message_of action (put_host32 o auth_msg_request ++ (put_be32 (length (p ++ q)) ++ p)))
      ≡ fault
unfolding deserialise_authenticate read_authenticate read_auth_body
deserialise_authenticate-cut_password t o action p q v ne k b =
    let l = length-append p q in
    let w = length-append (put_be32 (length (p ++ q))) p in
    let h = length-append (put_host32 o auth_msg_request) (put_be32 (length (p ++ q)) ++ p) in
    let z = length-put_host32 o auth_msg_request in
    let y = length-put_be32 (length (p ++ q)) in
    let x = cut_shorter p q (p ++ q) refl ne in
    >>=-done (load_host32 o) _
      (load_host32_lem o auth_msg_request (put_be32 (length (p ++ q)) ++ p) _ (omega arith))
    ∙ >>=-fault (read_string t) (λ s. pure (request s))
        (read_string_past t (length (p ++ q)) p _ (omega arith) (omega arith) (omega arith)
          (omega arith) v x)
