-- ===== src/Event.antt =====
-- discover/event.c: events as messages, `action@device` and parameters `name=value`, each ended by
-- a zero byte. utils/pb-event.c: the message that the command line tool makes of its arguments.
-- A buffer is its bytes up to `len`; the server puts a zero byte behind them.
pub mod RoundTrip
pub mod Lookup
use petitboot.CString.{codes, strcasecmp_equal, split_at}
use petitboot.Base.{
  ℕ, zero, suc, ◌+◌, Bool, true, false, Option, none, some, List, [], ◌∷◌, ◌++◌, ◌==◌, ltb,
  if◌then◌else◌, Bytes, length, drop,
}

pub record EventParam : Type 0 where
  pub name : Bytes
  pub value : Bytes

-- `enum event_action`.
pub data EventAction : Type 0 where
  add remove url dhcp boot sync plugin : EventAction

pub record Event : Type 0 where
  pub action : EventAction
  pub device : Bytes
  pub params : List EventParam

-- The bytes that strnlen counts.
unfoldable pub text_of : Bytes → Bytes
text_of [] = []
text_of (zero ∷ buf) = []
text_of (suc c ∷ buf) = suc c ∷ text_of buf

-- The names that the header's action is compared with, in the order of the tests.
abbrev pub actions : List (Bytes × EventAction)
actions =
    (codes "add", add)
    ∷ (codes "remove", remove)
    ∷ (codes "url", url)
    ∷ (codes "dhcp", dhcp)
    ∷ (codes "boot", boot)
    ∷ (codes "sync", sync)
    ∷ (codes "plugin", plugin)
    ∷ []

unfoldable pub find_action : List (Bytes × EventAction) → Bytes → Option EventAction
find_action [] name = none
find_action ((known, action) ∷ rest) name =
    if strcasecmp_equal name known then some action else find_action rest name

-- The device is not empty.
abbrev pub with_device : Option EventAction → Bytes → Option (EventAction × Bytes)
with_device none device = none
with_device (some action) [] = none
with_device (some action) (c ∷ device) = some (action, c ∷ device)

-- The header's text. It is refused when it is empty, too: it holds no separator then.
unfoldable pub event_parse_ad_header : Bytes → Option (EventAction × Bytes)
event_parse_ad_header header = elim (split_at 64 header) [
  | none ↦ none
  | some (name, device) ↦ with_device (find_action actions name) device
]

-- One parameter's text.
unfoldable pub parse_param : Bytes → EventParam
parse_param text = elim (split_at 61 text) [
  | none ↦ record { name = text; value = [] }
  | some (name, value) ↦ record { name = name; value = value }
]

-- The loop of event_parse_params. Each round takes two bytes at least, or the rest.
unfoldable pub parse_params : ℕ → Bytes → List EventParam
parse_params zero buf = []
parse_params (suc fuel) [] = []
parse_params (suc fuel) (zero ∷ buf) = parse_params fuel (drop 1 buf)
parse_params (suc fuel) (suc c ∷ buf) =
    parse_param (text_of (suc c ∷ buf))
    ∷ parse_params fuel (drop (length (text_of (suc c ∷ buf)) + 1) (suc c ∷ buf))

unfoldable pub event_parse_params : Bytes → List EventParam
event_parse_params buf = parse_params (length buf) buf

-- The event, from the parsed header and the bytes behind it.
abbrev pub with_params : Option (EventAction × Bytes) → Bytes → Option Event
with_params none buf = none
with_params (some (action, device)) buf =
    some (record { action = action; device = device; params = event_parse_params buf })

-- `none` is the return of -1.
unfoldable pub event_parse_ad_message : Bytes → Option Event
event_parse_ad_message buf =
    with_params (event_parse_ad_header (text_of buf)) (drop (length (text_of buf) + 1) buf)

unfoldable pub get_param : List EventParam → Bytes → Option Bytes
get_param [] name = none
get_param (p ∷ ps) name = if strcasecmp_equal p.name name then some p.value else get_param ps name

unfoldable pub event_get_param : Event → Bytes → Option Bytes
event_get_param event name = get_param event.params name

unfoldable pub set_param : List EventParam → Bytes → Bytes → List EventParam
set_param [] name value = record { name = name; value = value } ∷ []
set_param (p ∷ ps) name value =
    if strcasecmp_equal p.name name
    then record p { value = value } ∷ ps
    else p ∷ set_param ps name value

unfoldable pub event_set_param : Event → Bytes → Bytes → Event
event_set_param event name value = record event { params = set_param event.params name value }

-- The loop of parse_event_args over the arguments that are left, the i-th first, with total_len
-- bytes written: what it writes, or `none` for its -1.
unfoldable pub copy_args : ℕ → ℕ → ℕ → List Bytes → Option Bytes
copy_args max_len i total_len [] = some []
copy_args max_len i total_len (arg ∷ args) =
    if ltb max_len (total_len + i + 1)
    then none
    else elim (copy_args max_len (i + 1) (total_len + length arg + 1) args) [
      | none ↦ none
      | some later ↦ some (arg ++ 0 ∷ later)
    ]

unfoldable pub parse_event_args : ℕ → List Bytes → Option Bytes
parse_event_args max_len args = copy_args max_len 0 0 args
