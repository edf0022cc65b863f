-- ===== src/Protocol/Auth.antt =====
-- Authentication messages: lib/pb-protocol/pb-protocol.h, `struct auth_message`, and
-- lib/pb-protocol/pb-protocol.c, `pb_protocol_authenticate_len`,
-- `pb_protocol_serialise_authenticate` and `pb_protocol_deserialise_authenticate`.
pub mod RoundTrip
use petitboot.Base.{ℕ, ◌+◌, ◌++◌, ◌==◌, if◌then◌else◌, u32, Bool, Bytes}
use petitboot.Talloc.{Talloc, CStr}
use petitboot.Protocol.Words.{ByteOrder, put_host32}
use petitboot.Protocol.Reader.{
  Reader, Outcome, ◌>>=◌, pure, read_string, load_bool, load_host32, Message, start, fail,
}
use petitboot.Protocol.Fields.{optional_strlen, put_string, put_bool, Written, finish, invalid}

-- The union by its tag; `other` is a tag that the enum does not name.
pub data AuthMessage : Type 0 where
  request : CStr → AuthMessage
  response : Bool → AuthMessage
  set_password : CStr → CStr → AuthMessage
  decrypt_dev : CStr → CStr → AuthMessage
  other : ℕ → AuthMessage

abbrev pub auth_msg_request : ℕ
auth_msg_request = 0

abbrev pub auth_msg_response : ℕ
auth_msg_response = 1

abbrev pub auth_msg_set : ℕ
auth_msg_set = 2

abbrev pub auth_msg_decrypt : ℕ
auth_msg_decrypt = 3

unfoldable pub authenticate_len : AuthMessage → ℕ
authenticate_len (request p) = u32 (4 + 4 + optional_strlen p)
authenticate_len (response b) = 4 + 4
authenticate_len (set_password p n) = u32 (4 + 4 + optional_strlen p + 4 + optional_strlen n)
authenticate_len (decrypt_dev p d) = u32 (4 + 4 + optional_strlen p + 4 + optional_strlen d)
authenticate_len (other k) = 0

unfoldable pub authenticate_bytes : ByteOrder → AuthMessage → Bytes
authenticate_bytes o (request p) = put_host32 o auth_msg_request ++ put_string p
authenticate_bytes o (response b) = put_host32 o auth_msg_response ++ put_bool b
authenticate_bytes o (set_password p n) =
    put_host32 o auth_msg_set ++ (put_string p ++ put_string n)
authenticate_bytes o (decrypt_dev p d) =
    put_host32 o auth_msg_decrypt ++ (put_string p ++ put_string d)
authenticate_bytes o (other k) = put_host32 o k

unfoldable pub serialise_authenticate : ByteOrder → AuthMessage → ℕ → Written
serialise_authenticate o (other k) buf_len = invalid
serialise_authenticate o m buf_len = finish (authenticate_bytes o m) buf_len

read_request : Talloc → Reader AuthMessage
read_request t = do p ← read_string t; pure (request p)

read_response : Reader AuthMessage
read_response = do b ← load_bool; pure (response b)

read_set : Talloc → Reader AuthMessage
read_set t = do p ← read_string t; n ← read_string t; pure (set_password p n)

read_decrypt : Talloc → Reader AuthMessage
read_decrypt t = do p ← read_string t; d ← read_string t; pure (decrypt_dev p d)

-- The switch on `msg->op`.
unfoldable pub read_auth_body : Talloc → ℕ → Reader AuthMessage
unfolding read_request read_response read_set read_decrypt
read_auth_body t op =
    if op == auth_msg_request
    then read_request t
    else if op == auth_msg_response
    then read_response
    else if op == auth_msg_set
    then read_set t
    else if op == auth_msg_decrypt
    then read_decrypt t
    else fail

-- The tag is loaded with no look at `len`, and not taken off it.
unfoldable pub read_authenticate : Talloc → ByteOrder → Reader AuthMessage
read_authenticate t o = do op ← load_host32 o; read_auth_body t op

unfoldable pub deserialise_authenticate : Talloc → ByteOrder → Message → Outcome AuthMessage
deserialise_authenticate t o m = read_authenticate t o (start m)
