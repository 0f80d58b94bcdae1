-- ===== src/Protocol.antt =====
-- internal/protocol/protocol.go: canonical JSON, and the signing of an event. A value is what
-- json.Unmarshal makes of the payload's JSON text; a float64 is given by its shortest decimal text,
-- which is what strconv.FormatFloat(v, 'f', -1, 64) returns.
pub mod Canonical
pub mod Message
use codex_monitor_group.Base.{
  ◌≡◌, refl, ℕ, ◌+◌, ◌/◌, ◌%◌, ◌==◌, ltb, Bool, true, false, ◌||◌, List, [], ◌∷◌, ◌++◌, String,
  if◌then◌else◌, Option, ◌-◌, ◌≡◌,
}
use codex_monitor_group.Base.Sort.{sort_by, text_ltb}
use codex_monitor_group.Base.Text.{Text, codes, decimal, utf8}

mutual
  pub data Value : Type 0 where
    null : Value
    bool : Bool → Value
    text : Text → Value
    number : Text → Value
    array : Items → Value
    object : Fields → Value

  pub data Items : Type 0 where
    nil : Items
    cons : Value → Items → Items

  -- A map[string]any in the order of some iteration; no key occurs twice.
  pub data Fields : Type 0 where
    end : Fields
    field : Text → Value → Fields → Fields

hex_digit : ℕ → ℕ
hex_digit n = if ltb n 10 then b'0' + n else b'a' + (n - 10)

-- One character of a string as encoding/json writes it, with its escapes for HTML.
unfoldable pub quote_char : ℕ → Text
unfolding hex_digit
quote_char c =
    if c == b'"' || c == 0x5c
    then 0x5c ∷ c ∷ []
    else if c == 8
    then codes "\\b"
    else if c == 12
    then codes "\\f"
    else if c == 10
    then codes "\\n"
    else if c == 13
    then codes "\\r"
    else if c == 9
    then codes "\\t"
    else if ltb c 32 || c == b'<' || c == b'>' || c == b'&'
    then codes "\\u00" ++ hex_digit (c / 16) ∷ hex_digit (c % 16) ∷ []
    else if c == 0x2028
    then codes "\\u2028"
    else if c == 0x2029
    then codes "\\u2029"
    else c ∷ []

unfoldable pub quote_chars : Text → Text
quote_chars [] = []
quote_chars (c ∷ cs) = quote_char c ++ quote_chars cs

-- json.Marshal of a string
unfoldable pub quote : Text → Text
quote s = b'"' ∷ quote_chars s ++ b'"' ∷ []

-- The test `i > 0` before a comma.
abbrev comma : Bool → Text
comma true = []
comma false = b',' ∷ []

-- sort.Strings(keys), each key with what is written for its value
abbrev pub by_key : Text × Text → Text × Text → Bool
by_key a b = text_ltb a.0 b.0

unfoldable pub write_members : Bool → List (Text × Text) → Text
unfolding quote
write_members first [] = []
write_members first ((key, value) ∷ rest) =
    comma first ++ (quote key ++ (b':' ∷ (value ++ write_members false rest)))

unfoldable mutual
  unfolding quote write_members

  pub write_canonical : Value → Text
  write_canonical null = codes "null"
  write_canonical (bool true) = codes "true"
  write_canonical (bool false) = codes "false"
  write_canonical (text s) = quote s
  write_canonical (number digits) = digits
  write_canonical (array items) = b'[' ∷ (write_items true items ++ b']' ∷ [])
  write_canonical (object fields) =
      b'{' ∷ (write_members true (sort_by by_key (written fields)) ++ b'}' ∷ [])

  pub write_items : Bool → Items → Text
  write_items first nil = []
  write_items first (cons item rest) =
      comma first ++ (write_canonical item ++ write_items false rest)

  -- The canonical text of each member's value.
  pub written : Fields → List (Text × Text)
  written end = []
  written (field key value rest) = (key, write_canonical value) ∷ written rest

pub record Envelope : Type 0 where
  pub device_id : Text
  pub sequence : ℕ
  pub timestamp : Text
  pub event_id : Text
  pub payload : Value
  pub signature : Text

-- Of bytes: crypto/sha256 with encoding/hex, crypto/ed25519 with encoding/base64, and the private key as the
-- configuration's text gives it, `none` where that is no base64.
pub record Crypto : Type 1 where
  pub Key : Type 0
  pub read_key : String → Option Key
  pub sha256_hex : List ℕ → String
  pub sign : Key → List ℕ → Text

-- The message that is signed.
unfoldable pub message : Text → ℕ → Text → Text → Text → Text
message device_id sequence timestamp event_id digest =
    device_id
    ++ b'\n' ∷ (decimal sequence ++ b'\n' ∷ (timestamp ++ b'\n' ∷ (event_id ++ b'\n' ∷ digest)))

module _ (crypto : Crypto) where
  -- `timestamp` is the time in UTC as RFC 3339 with nanoseconds.
  unfoldable pub sign : Text → ℕ → Text → Value → crypto.Key → Text → Envelope
  sign device_id sequence event_id payload key timestamp =
      let digest = codes (crypto.sha256_hex (utf8 (write_canonical payload))) in
      record {
        device_id = device_id;
        sequence = sequence;
        timestamp = timestamp;
        event_id = event_id;
        payload = payload;
        signature = crypto.sign key (utf8 (message device_id sequence timestamp event_id digest));
      }

quoted : quote (codes "a\"<") ≡ codes "\"a\\\"\\u003c\""
unfolding quote quote_chars quote_char
quoted = refl
