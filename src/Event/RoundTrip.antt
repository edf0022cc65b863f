-- ===== src/Event/RoundTrip.antt =====
-- Events that pb-event sends and the server parses.
use mathlib.Core.Path.{ap₂}
use petitboot.CString.{Lacks, split_at-append}
use petitboot.Talloc.{IsText}
use petitboot.Base.{
  ℕ, zero, suc, ◌+◌, ◌≤◌, ◌<◌, ◌≡◌, ◌≢◌, refl, ap, ◌∙◌, false, some, List, [], ◌∷◌, ◌++◌, ltb,
  Bytes, length, drop, All, length-append, arith, map,
}
use petitboot.Event.{
  EventParam, EventAction, text_of, actions, find_action, event_parse_ad_header, parse_param,
  with_params, parse_params, event_parse_params, event_parse_ad_message, copy_args,
  parse_event_args,
}

-- A parameter as an argument of pb-event.
abbrev pub printed : EventParam → Bytes
printed p = p.name ++ 61 ∷ p.value

-- Parameters one after the other, each ended by a zero byte.
unfoldable pub all_printed : List EventParam → Bytes
all_printed [] = []
all_printed (p ∷ ps) = printed p ++ 0 ∷ all_printed ps

-- A name without an equals sign, and no zero bytes.
abbrev pub IsPlain : EventParam → Type 0
IsPlain p = Lacks 61 p.name × IsText (printed p)

text_of-append : (s rest : Bytes) → IsText s → text_of (s ++ 0 ∷ rest) ≡ s
unfolding text_of
text_of-append [] rest h = refl
text_of-append (zero ∷ s) rest (h, hs) = absurd (h refl)
text_of-append (suc c ∷ s) rest (h, hs) = ap (◌∷◌ (suc c)) (text_of-append s rest hs)

drop_past : (s rest : Bytes) (c : ℕ) → drop (suc (length s)) (s ++ c ∷ rest) ≡ rest
drop_past [] rest c = refl
drop_past (x ∷ s) rest c = drop_past s rest c

behind_text :
    (s rest : Bytes) → IsText s → drop (length (text_of (s ++ 0 ∷ rest)) + 1) (s ++ 0 ∷ rest) ≡ rest
behind_text s rest h =
    rw (text_of-append s rest h)
      (ap (λ n. drop n (s ++ 0 ∷ rest)) (next (length s)) ∙ drop_past s rest 0)
  where
    next : (n : ℕ) → n + 1 ≡ suc n
    next n = omega arith

parse_params_step :
    (fuel : ℕ) (t rest : Bytes)
    → IsText t
    → t ≢ []
    → parse_params (suc fuel) (t ++ 0 ∷ rest) ≡ parse_param t ∷ parse_params fuel rest
unfolding parse_params
parse_params_step fuel [] rest h ne = absurd (ne refl)
parse_params_step fuel (zero ∷ t) rest (h, hs) ne = absurd (h refl)
parse_params_step fuel (suc c ∷ t) rest h ne =
    ap
      (λ s.
        parse_param s
        ∷ parse_params fuel
            (drop (length (text_of (suc c ∷ (t ++ 0 ∷ rest))) + 1) (suc c ∷ (t ++ 0 ∷ rest))))
      (text_of-append (suc c ∷ t) rest h)
    ∙ ap (λ s. parse_param (suc c ∷ t) ∷ parse_params fuel s) (behind_text (suc c ∷ t) rest h)

printed-ne-nil : (p : EventParam) → printed p ≢ []
printed-ne-nil p = shape p.name p.value
  where
    shape : (name value : Bytes) → (name ++ 61 ∷ value) ≢ []
    shape [] value e = cc
    shape (c ∷ name) value e = cc

parse_param-printed : (p : EventParam) → Lacks 61 p.name → parse_param (printed p) ≡ p
unfolding parse_param
parse_param-printed p h = rw (parse_param, split_at-append 61 p.name p.value h) refl

parse_params-printed :
    (ps : List EventParam) (fuel : ℕ)
    → length (all_printed ps) ≤ fuel
    → All IsPlain ps
    → parse_params fuel (all_printed ps) ≡ ps
unfolding all_printed
parse_params-printed [] zero f h = unfold parse_params in refl
parse_params-printed [] (suc fuel) f h = unfold parse_params in refl
parse_params-printed (p ∷ ps) zero f h =
    absurd (omega (arith, length-append (printed p) (0 ∷ all_printed ps)))
parse_params-printed (p ∷ ps) (suc fuel) f ((lacks, plain), hs) =
    parse_params_step fuel (printed p) (all_printed ps) plain (printed-ne-nil p)
    ∙ ap (λ q. q ∷ parse_params fuel (all_printed ps)) (parse_param-printed p lacks)
    ∙ ap (◌∷◌ p) (
        parse_params-printed ps fuel (omega (arith, length-append (printed p) (0 ∷ all_printed ps)))
          hs)

-- The header's argument.
abbrev pub ad_header : Bytes → Bytes → Bytes
ad_header name device = name ++ 64 ∷ device

header-parsed :
    (name device : Bytes) (action : EventAction) (c : ℕ)
    → Lacks 64 name
    → find_action actions name ≡ some action
    → event_parse_ad_header (ad_header name (c ∷ device)) ≡ some (action, c ∷ device)
unfolding event_parse_ad_header
header-parsed name device action c lacks known =
    rw (event_parse_ad_header, split_at-append 64 name (c ∷ device) lacks, known) refl

-- The bytes that pb-event writes for arguments.
unfoldable pub joined : List Bytes → Bytes
joined [] = []
joined (a ∷ args) = a ++ 0 ∷ joined args

-- While every argument starts within the limit, all of them are written.
copy_args-joined :
    (max i total : ℕ) (args : List Bytes)
    → total + i + length (joined args) + length args ≤ max
    → copy_args max i total args ≡ some (joined args)
unfolding copy_args joined
copy_args-joined max i total [] h = refl
copy_args-joined max i total (a ∷ args) h =
    let rest =
      copy_args-joined max (i + 1) (total + length a + 1) args
        (omega (arith, length-append a (0 ∷ joined args))) in
    let here : ltb max (total + i + 1) ≡ false =
      ground (arith, length-append a (0 ∷ joined args)) in
    rw (copy_args, here, rest) refl

joined-printed : (ps : List EventParam) → joined (map printed ps) ≡ all_printed ps
unfolding joined all_printed
joined-printed [] = refl
joined-printed (p ∷ ps) = ap (λ r. printed p ++ 0 ∷ r) (joined-printed ps)

-- The server's view of a message that starts with a header.
message-parsed :
    (name device : Bytes) (c : ℕ) (action : EventAction) (ps : List EventParam)
    → Lacks 64 name
    → IsText (ad_header name (c ∷ device))
    → find_action actions name ≡ some action
    → All IsPlain ps
    → event_parse_ad_message (ad_header name (c ∷ device) ++ 0 ∷ all_printed ps)
      ≡ some (record { action = action; device = c ∷ device; params = ps })
unfolding event_parse_ad_message event_parse_params
message-parsed name device c action ps lacks plain known hs =
    let h = ad_header name (c ∷ device) in
    ap₂ with_params
      (ap event_parse_ad_header (text_of-append h (all_printed ps) plain)
        ∙ header-parsed name device action c lacks known)
      (behind_text h (all_printed ps) plain)
    ∙ ap (λ q. some (record { action = action; device = c ∷ device; params = q }))
        (parse_params-printed ps (length (all_printed ps)) (omega arith) hs)

-- pb-event with the arguments ACTION@DEVICE and NAME=VALUE for each parameter makes a message that
-- the server parses as that event: if the action's name, in any case of its letters, is known,
-- the device is not empty, no text has a zero byte and no parameter's name an equals sign, and
-- the message with one byte more for each argument fits in the buffer.
pub event_parse_ad_message-parse_event_args :
    (max_len : ℕ) (name device : Bytes) (c : ℕ) (action : EventAction) (ps : List EventParam)
    → Lacks 64 name
    → IsText (ad_header name (c ∷ device))
    → find_action actions name ≡ some action
    → All IsPlain ps
    → length (joined (ad_header name (c ∷ device) ∷ map printed ps)) + length (map printed ps) + 1
      ≤ max_len
    → (message : Bytes) × (parse_event_args max_len (ad_header name (c ∷ device) ∷ map printed ps)
        ≡ some message)
      × (event_parse_ad_message message
          ≡ some (record { action = action; device = c ∷ device; params = ps }))
unfolding parse_event_args joined
event_parse_ad_message-parse_event_args max name device c action ps lacks plain known hs fits =
    let h = ad_header name (c ∷ device) in
    (
      h ++ 0 ∷ all_printed ps,
      copy_args-joined max 0 0 (h ∷ map printed ps) (omega arith)
          ∙ ap (λ r. some (h ++ 0 ∷ r)) (joined-printed ps),
      message-parsed name device c action ps lacks plain known hs,
    )

-- A parameter behind a second zero byte loses the first byte of its name.
pub event_parse_params-skip :
    (b c : ℕ) (name value : Bytes)
    → IsPlain (record { name = b ∷ suc c ∷ name; value = value })
    → event_parse_params (0 ∷ all_printed (record { name = b ∷ suc c ∷ name; value = value } ∷ []))
      ≡ record { name = suc c ∷ name; value = value } ∷ []
unfolding event_parse_params all_printed parse_params
event_parse_params-skip b c name value ((lb, lacks), (nb, plain)) =
    let q : EventParam = record { name = suc c ∷ name; value = value } in
    parse_params-printed (q ∷ []) (suc (length (all_printed (q ∷ [])))) (omega arith)
      ((lacks, plain), tt)

-- pb-event compares no argument's length with the buffer: one argument of any length is written.
pub parse_event_args-overrun :
    (max_len : ℕ) (arg : Bytes)
    → 0 < max_len
    → max_len ≤ length arg
    → (written : Bytes) × (parse_event_args max_len (arg ∷ []) ≡ some written)
      × (max_len < length written)
unfolding parse_event_args copy_args
parse_event_args-overrun max arg some_room long =
    let fits : ltb max (0 + 0 + 1) ≡ false = ground arith in
    (
      arg ++ 0 ∷ [],
      rw (parse_event_args, copy_args, fits) refl,
      omega (arith, length-append arg (0 ∷ [])),
    )
