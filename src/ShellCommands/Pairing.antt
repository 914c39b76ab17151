-- ===== src/ShellCommands/Pairing.antt =====
-- The shell commands under `matter` and `reboot` of src/shell_commands.cpp. The SDK's codes and the
-- QR generator are arguments; what else they call is the SDK's and the kernel's.
use shirokumakun_matter.Common.{
  ℕ, ◌≤◌, ◌<◌, ◌≡◌, refl, Bool, Option, none, some, List, [], ◌∷◌, ◌++◌, map, length, ltb,
  if◌then◌else◌, arith,
}
use shirokumakun_matter.Common.Int.{ℤ, pos, negsuc}
use shirokumakun_matter.IdentifyLed.{Led, identify_led_trigger}
use shirokumakun_matter.Scd40Manager.{eio}
use shirokumakun_matter.ShellCommands.QrCode.{draw}
use shirokumakun_matter.ShellCommands.QrPicture.{qr_picture, draw-qr_picture}

-- What the commands print.
pub data Line : Type 0 where
  failed_to_get_qr_code qr_encode_failed blinking clearing rebooting : Line
  row qr manual : List ℕ → Line
  blank : Line

abbrev enomem : ℤ
enomem = negsuc 11

-- `qrcodegen_getSize` and `qrcodegen_getModule` of an encoded text.
pub record Code : Type 0 where
  pub size : ℕ
  pub get_module : ℕ → ℕ → Bool

-- `str[span.size()] = '\0'` in an array of a size; `none` is past the end.
unfoldable pub terminate : ℕ → List ℕ → Option (List ℕ)
terminate size text = if ltb (length text) size then some text else none

-- The manual code stays empty if the SDK has none.
unfoldable pub manual_str : Option (List ℕ) → Option (List ℕ)
unfolding terminate
manual_str none = some []
manual_str (some text) = terminate 32 text

-- The drawing, and what follows it.
unfoldable pub show_code : Code → List ℕ → List ℕ → Option (List Line × ℤ)
show_code code qr_text manual_text = elim (draw code.size code.get_module) [
  | none ↦ none
  | some rows ↦ some (map row rows ++ blank ∷ qr qr_text ∷ manual manual_text ∷ [], pos 0)
]

unfoldable pub encode_and_show : (List ℕ → Option Code) → List ℕ → List ℕ → Option (List Line × ℤ)
unfolding show_code
encode_and_show encode qr_text manual_text = elim (encode qr_text) [
  | none ↦ some (qr_encode_failed ∷ [], enomem)
  | some code ↦ show_code code qr_text manual_text
]

-- `cmd_qr`, on the answers of `GetQRCode` and `GetManualPairingCode`: what it prints and returns.
unfoldable pub cmd_qr :
    Option (List ℕ) → Option (List ℕ) → (List ℕ → Option Code) → Option (List Line × ℤ)
unfolding terminate manual_str encode_and_show
cmd_qr none manual_code encode = some (failed_to_get_qr_code ∷ [], eio)
cmd_qr (some qr_code) manual_code encode = elim (terminate 64 qr_code) [
  | none ↦ none
  | some qr_text ↦ elim (manual_str manual_code) [
    | none ↦ none
    | some manual_text ↦ encode_and_show encode qr_text manual_text
  ]
]

-- A text that the SDK writes into a span of `size` characters is no longer than that.
abbrev pub FitsSpan : ℕ → Option (List ℕ) → Type 0
FitsSpan size none = Unit
FitsSpan size (some text) = length text ≤ size

-- A code of version 9 or less has at most 53 modules a side.
abbrev pub IsSmall : Option Code → Type 0
IsSmall none = Unit
IsSmall (some code) = code.size ≤ 53

abbrev text_of : Option (List ℕ) → List ℕ
text_of none = []
text_of (some text) = text

-- What `matter qr` shows: the picture, then both codes, or why there is none.
abbrev pub shown : Option (List ℕ) → Option (List ℕ) → Option Code → List Line × ℤ
shown none manual_code code = (failed_to_get_qr_code ∷ [], eio)
shown (some qr_code) manual_code none = (qr_encode_failed ∷ [], enomem)
shown (some qr_code) manual_code (some code) = (
  map row (qr_picture code.size code.get_module)
      ++ blank ∷ qr qr_code ∷ manual (text_of manual_code) ∷ [],
  pos 0,
)

-- `encode` of the text, if there is one.
abbrev encoded : (List ℕ → Option Code) → Option (List ℕ) → Option Code
encoded encode none = none
encoded encode (some text) = encode text

terminate-fits : (size : ℕ) (text : List ℕ) → length text < size → terminate size text ≡ some text
unfolding terminate
terminate-fits size text h = ground arith

manual_str-fits :
    (manual_code : Option (List ℕ))
    → FitsSpan 31 manual_code
    → manual_str manual_code ≡ some (text_of manual_code)
unfolding manual_str
manual_str-fits none h = refl
manual_str-fits (some text) h = terminate-fits 32 text (omega arith)

show_code-shown :
    (code : Code) (text manual_text : List ℕ)
    → code.size ≤ 53
    → show_code code text manual_text
      ≡ some (
        map row (qr_picture code.size code.get_module) ++ blank ∷ qr text ∷ manual manual_text ∷ [],
        pos 0,
      )
unfolding show_code
show_code-shown code text manual_text h =
    rw (draw-qr_picture code.size code.get_module (omega arith), show_code) refl

encode_and_show-shown :
    (encode : List ℕ → Option Code) (text : List ℕ) (manual_code : Option (List ℕ))
    (o : Option Code)
    → encode text ≡ o
    → IsSmall o
    → encode_and_show encode text (text_of manual_code) ≡ some (shown (some text) manual_code o)
unfolding encode_and_show
encode_and_show-shown encode text manual_code none e small = rw (e, encode_and_show) refl
encode_and_show-shown encode text manual_code (some code) e small =
    rw (e, encode_and_show) (show_code-shown code text (text_of manual_code) small)

-- If the SDK keeps to the spans of 63 and 31 characters that it is given and the generator to
-- version 9, then cmd_qr never writes past the end of an array. It prints the picture of the code
-- (two columns and rows of '#' around it, two spaces for a dark module and "##" for a light one,
-- row by row), its text and the manual code, empty if the SDK gives none, and returns 0; without a QR code it
-- prints that and returns -EIO, and if the encoding fails it prints that and returns -ENOMEM.
pub cmd_qr-shown :
    (qr_code manual_code : Option (List ℕ)) (encode : List ℕ → Option Code)
    → FitsSpan 63 qr_code
    → FitsSpan 31 manual_code
    → IsSmall (encoded encode qr_code)
    → cmd_qr qr_code manual_code encode ≡ some (shown qr_code manual_code (encoded encode qr_code))
unfolding cmd_qr
cmd_qr-shown none manual_code encode q m small = refl
cmd_qr-shown (some text) manual_code encode q m small =
    rw (cmd_qr, terminate-fits 64 text (omega arith), manual_str-fits manual_code m)
      (encode_and_show-shown encode text manual_code (encode text) refl small)

-- `cmd_identify`, on the LED.
unfoldable pub cmd_identify : Led → Led × List Line
cmd_identify s = (identify_led_trigger s, blinking ∷ [])

-- What the other two commands ask of the SDK and the kernel, in order.
pub data Request : Type 0 where
  lock_chip_stack schedule_factory_reset unlock_chip_stack : Request
  warm_reboot : Request

abbrev pub cmd_reset : List Line × List Request
cmd_reset = (clearing ∷ [], lock_chip_stack ∷ schedule_factory_reset ∷ unlock_chip_stack ∷ [])

abbrev pub cmd_reboot : List Line × List Request
cmd_reboot = (rebooting ∷ [], warm_reboot ∷ [])
