-- ===== src/Vt/Osc.antt =====
-- `_dispatch_osc` and its helpers, over the whole raw sequence from ESC to the terminator.
use corehost.Base.{
  ℕ, zero, suc, ◌+◌, ◌-◌, ◌*◌, ◌%◌, Bool, true, false, ◌&&◌, ◌||◌, List, [], ◌∷◌, Option, none,
  some, leb, ◌==◌, within, if◌then◌else◌,
}
use corehost.Vt.Message.{MessageId, Payload}
use corehost.Vt.Csi.{Answer, answer, unknown}

abbrev pub is_digit : ℕ → Bool
is_digit c = within b'0' b'9' c

-- `while (digit) code = static_cast<short>(code * 10 + …)`, and what follows the digits.
unfoldable pub take_code : ℕ → List ℕ → ℕ × List ℕ
take_code code [] = (code, [])
take_code code (c ∷ cs) =
    let rest = take_code ((code * 10 + (c - b'0')) % 65536) cs in
    if is_digit c then rest else (code, c ∷ cs)

abbrev pub starts : ℕ → List ℕ → Bool
starts c [] = false
starts c (x ∷ xs) = x == c

abbrev map_some {ℓ κ} : {A : Type ℓ} {B : Type κ} → (A → B) → Option A → Option B
map_some f none = none
map_some f (some a) = some (f a)

-- What stands before the first BEL or ESC \.
unfoldable pub until_terminator : List ℕ → Option (List ℕ)
until_terminator [] = none
until_terminator (c ∷ cs) =
    if c == 0x07 || (c == 0x1b && starts b'\\' cs)
    then some []
    else map_some (◌∷◌ c) (until_terminator cs)

unfoldable pub skip : ℕ → List ℕ → List ℕ
skip c [] = []
skip c (x ∷ xs) = if x == c then skip c xs else x ∷ xs

-- At most `n` digits: the number so far, whether any was read, and the rest.
unfoldable pub decimal_digits : ℕ → ℕ → List ℕ → ℕ × List ℕ
decimal_digits zero value cs = (value, cs)
decimal_digits (suc n) value [] = (value, [])
decimal_digits (suc n) value (c ∷ cs) =
    let rest = decimal_digits n (value * 10 + (c - b'0')) cs in
    if is_digit c then rest else (value, c ∷ cs)

-- `std::from_chars` leaves a `short` that the number does not fit at its initial 0.
unfoldable pub parse_osc_decimal : List ℕ → ℕ × List ℕ
unfolding decimal_digits skip
parse_osc_decimal s =
    let (value, rest) = decimal_digits 5 0 (skip b' ' s) in
    ((if leb value 32767 then value else 0), rest)

unfoldable pub hex_value : ℕ → Option ℕ
hex_value c =
    if is_digit c
    then some (c - b'0')
    else if within b'A' b'F' c
    then some (c - b'A' + 10)
    else if within b'a' b'f' c
    then some (c - b'a' + 10)
    else none

-- One color component: up to two hexadecimal digits and the slashes behind them.
unfoldable pub parse_osc_hex : List ℕ → ℕ × List ℕ
unfolding hex_value skip
parse_osc_hex [] = (0, [])
parse_osc_hex (c ∷ []) = elim (hex_value c) [ none ↦ (0, c ∷ []) | some h ↦ (h, []) ]
parse_osc_hex (c ∷ d ∷ cs) = elim (hex_value c) [
  | none ↦ (0, c ∷ d ∷ cs)
  | some h ↦ elim (hex_value d) [
    | none ↦ (h, skip b'/' (d ∷ cs))
    | some l ↦ (h * 16 + l, skip b'/' cs)
  ]
]

-- Behind "rgb:", in either case of its letters.
unfoldable pub after_rgb : List ℕ → Option (List ℕ)
after_rgb (r ∷ g ∷ b ∷ colon ∷ cs) =
    if (r == b'r' || r == b'R')
      && (g == b'g' || g == b'G')
      && (b == b'b' || b == b'B')
      && colon == b':'
    then some cs
    else none
after_rgb _ = none

abbrev drop_one : ℕ → List ℕ → List ℕ
drop_one c [] = []
drop_one c (x ∷ xs) = if x == c then xs else x ∷ xs

abbrev no_text : MessageId → Answer
no_text id = answer id (Payload.text [])

-- `p == p_before`: none of the three components had a digit.
abbrev has_hex : List ℕ → Bool
has_hex [] = false
has_hex (c ∷ cs) = elim (hex_value c) [ none ↦ false | some h ↦ true ]

unfoldable pub osc_palette : List ℕ → Answer
unfolding parse_osc_decimal after_rgb parse_osc_hex
osc_palette payload =
    let (index, s) = parse_osc_decimal payload in
    elim (after_rgb (drop_one b';' s)) [
      | none ↦ no_text MessageId.unknown_sequence
      | some cs ↦
          let (r, rest) = parse_osc_hex cs in
          let (g, rest') = parse_osc_hex rest in
          let (b, rest'') = parse_osc_hex rest' in
          if has_hex cs
          then answer MessageId.set_palette_color (Payload.palette index r g b)
          else no_text MessageId.unknown_sequence
    ]

unfoldable pub osc_command : ℕ → List ℕ → Answer
unfolding osc_palette
osc_command code payload =
    if code == 8
    then no_text MessageId.osc8_hyperlink
    else if code == 0
    then answer MessageId.set_window_title (Payload.title payload)
    else if code == 2
    then answer MessageId.set_window_title (Payload.title payload)
    else if code == 4
    then osc_palette payload
    else no_text MessageId.unknown_sequence

-- From the ';' behind the code on.
unfoldable pub osc_payload : Payload → ℕ → List ℕ → Answer
unfolding until_terminator osc_command
osc_payload old code [] = unknown old
osc_payload old code (c ∷ cs) =
    if c == b';'
    then elim (until_terminator cs) [ none ↦ unknown old | some payload ↦ osc_command code payload ]
    else unknown old

-- Code and payload behind ESC ].
unfoldable pub osc_body : Payload → List ℕ → Answer
unfolding take_code osc_payload
osc_body old cs = let (code, rest) = take_code 0 cs in osc_payload old code rest

unfoldable pub dispatch_osc : Payload → List ℕ → Answer
unfolding osc_body
dispatch_osc old (e ∷ b ∷ c ∷ cs) =
    if e == 0x1b && b == b']' then osc_body old (c ∷ cs) else unknown old
dispatch_osc old _ = unknown old
