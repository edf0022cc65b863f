-- ===== src/Tests/Events.antt =====
-- Examples of lib/param_list, discover/event.c and utils/pb-event.c.
use petitboot.CString.{codes}
use petitboot.Base.{◌≡◌, refl, true, false, some, [], ◌∷◌, ◌++◌, ◌<◌, Bytes, length, arith}
use petitboot.ParamList.{ParamList, param_list_set, param_list_get_param, find_param}
use petitboot.ParamList.Lookup.{param_list_get_param-param_list_set}
use petitboot.Event.{
  EventParam, add, find_action, event_parse_ad_message, parse_event_args, event_parse_params,
}
use petitboot.Event.RoundTrip.{
  event_parse_ad_message-parse_event_args, event_parse_params-skip, parse_event_args-overrun,
  joined, all_printed,
}
use petitboot.Tests.Data.{is_text-IsText}

abbrev pub nvram : ParamList
nvram = record {
  params = record { name = codes "auto-boot?"; value = codes "true"; modified = false } ∷ [];
  known_params = codes "auto-boot?" ∷ [];
}

nvram_set :
    param_list_get_param
      (param_list_set nvram (codes "auto-boot?") (codes "false") true)
      (codes "auto-boot?")
    ≡ some (record { name = codes "auto-boot?"; value = codes "false"; modified = true })
unfolding param_list_get_param find_param
nvram_set =
    param_list_get_param-param_list_set nvram (codes "auto-boot?") (codes "false") true
      (codes "auto-boot?")

abbrev name_x : EventParam
name_x = record { name = codes "name"; value = codes "x" }

added_parsed :
    (message : Bytes) × (parse_event_args 64 (codes "ADD@sda" ∷ codes "name=x" ∷ []) ≡ some message)
    × (event_parse_ad_message message
        ≡ some (record { action = add; device = codes "sda"; params = name_x ∷ [] }))
unfolding joined find_action
added_parsed =
    event_parse_ad_message-parse_event_args 64 (codes "ADD") (codes "da") 115 add (name_x ∷ [])
      (search) (is_text-IsText (codes "ADD@sda") refl) refl
      ((search, is_text-IsText (codes "name=x") refl), tt) (omega arith)

param_skipped :
    event_parse_params (codes "" ++ 0 ∷ all_printed (name_x ∷ []))
    ≡ record { name = codes "ame"; value = codes "x" } ∷ []
param_skipped =
    event_parse_params-skip 110 96 (codes "me") (codes "x")
      (search, is_text-IsText (codes "name=x") refl)

long_argument :
    (written : Bytes) × (parse_event_args 3 (codes "url@net" ∷ []) ≡ some written)
    × (3 < length written)
long_argument = parse_event_args-overrun 3 (codes "url@net") (omega arith) (omega arith)
