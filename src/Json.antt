-- ===== src/Json.antt =====
-- `json.dumps` of the standard library, with the default `ensure_ascii`, for the values that the
-- program digests. The fields of an object are given in the order of their keys (`sort_keys`).
pub mod Value
pub mod Reading
pub mod Loading
pub mod Printing
use Prim.Native.Char.{Char, code}
use adversarial_cognition.Prelude.{
  ℕ, suc, ◌-◌, ◌+◌, ◌/◌, ◌%◌, String, ◌<>◌, ◌&&◌, List, [], ◌∷◌, leb, ltb, eqb, if◌then◌else◌, show,
  digit, ◌≡◌, refl,
}
use adversarial_cognition.Prelude.Int.{ℤ, pos, negsuc}

mutual
  pub data Json : Type 0 where
    text : String → Json
    number : ℤ → Json
    array : Items → Json
    object : Fields → Json

  pub data Items : Type 0 where
    done : Items
    item : Json → Items → Items

  pub data Fields : Type 0 where
    end : Fields
    field : String → Json → Fields → Fields

unfoldable pub hex_digit : ℕ → String
hex_digit n =
    if ltb n 10
    then digit n
    else if eqb n 10
    then "a"
    else if eqb n 11
    then "b"
    else if eqb n 12
    then "c"
    else if eqb n 13
    then "d"
    else if eqb n 14
    then "e"
    else "f"

-- "\u" and four hexadecimal digits
unfoldable pub unicode_escape : ℕ → String
unfolding hex_digit
unicode_escape n =
    "\\u"
    <> (hex_digit (n / 4096 % 16)
        <> (hex_digit (n / 256 % 16) <> (hex_digit (n / 16 % 16) <> hex_digit (n % 16))))

-- A character above U+FFFF is written as two surrogates.
unfoldable pub escape : Char → String
unfolding unicode_escape
escape c =
    let n = code c in
    if eqb n 34
    then "\\\""
    else if eqb n 92
    then "\\\\"
    else if eqb n 10
    then "\\n"
    else if eqb n 13
    then "\\r"
    else if eqb n 9
    then "\\t"
    else if eqb n 12
    then "\\f"
    else if eqb n 8
    then "\\b"
    else if leb 32 n && leb n 126
    then String.◌∷◌ c String.[]
    else if ltb n 0x10000
    then unicode_escape n
    else unicode_escape (0xd800 + (n - 0x10000) / 1024 % 1024)
      <> unicode_escape (0xdc00 + (n - 0x10000) % 1024)

unfoldable pub escape_all : String → String
unfolding escape
escape_all String.[] = ""
escape_all (String.◌∷◌ c s) = escape c <> escape_all s

unfoldable pub quote : String → String
unfolding escape_all
quote s = "\"" <> (escape_all s <> "\"")

unfoldable pub show_int : ℤ → String
show_int (pos n) = show n
show_int (negsuc n) = "-" <> show (suc n)

-- `comma` and `colon` are the separators.
module _ (comma colon : String) where
  unfoldable mutual
    unfolding quote show_int

    pub dumps : Json → String
    dumps (text s) = quote s
    dumps (number n) = show_int n
    dumps (array items) = "[" <> dumps_items items
    dumps (object fields) = "{" <> dumps_fields fields

    pub dumps_items : Items → String
    dumps_items done = "]"
    dumps_items (item j done) = dumps j <> "]"
    dumps_items (item j (item k rest)) = dumps j <> (comma <> dumps_items (item k rest))

    pub dumps_fields : Fields → String
    dumps_fields end = "}"
    dumps_fields (field k j end) = quote k <> (colon <> (dumps j <> "}"))
    dumps_fields (field k j (field l m rest)) =
        quote k <> (colon <> (dumps j <> (comma <> dumps_fields (field l m rest))))

-- Arrays of texts.
abbrev pub texts : List String → Items
texts [] = done
texts (s ∷ ss) = item (text s) (texts ss)

dumps_example :
    dumps ", " ": " (
      array (
        item
          (text "a\"é😀")
          (item (number (negsuc 11)) (item (object (field "k" (text "v") end)) done))))
    ≡ "[\"a\\\"\\u00e9\\ud83d\\ude00\", -12, {\"k\": \"v\"}]"
unfolding dumps dumps_items dumps_fields show digit
dumps_example = refl
