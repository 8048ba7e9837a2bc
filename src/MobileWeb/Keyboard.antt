-- ===== src/MobileWeb/Keyboard.antt =====
-- apps/mobile-web/src/lib/keyboard.ts. A text is the list of its UTF-16 code units.
pub mod Chunks
use Prim.Native.Nat.{min}
use remotetab.Prelude.{
  ℕ, zero, suc, ◌+◌, ◌-◌, String, Bool, true, false, not, ◌&&◌, ◌||◌, Option, none, some, List, [],
  ◌∷◌, leb, ltb, ◌==◌, length, take, drop, str_eq, if◌then◌else◌,
}
use remotetab.Protocol.Errors.{max_text_length}
use remotetab.Protocol.Control.{RemoteKey}

-- `KeyInput`; a flag that is left out is false.
pub record KeyInput : Type 0 where
  pub key : String
  pub code : String
  pub ctrl_key : Bool
  pub alt_key : Bool
  pub shift_key : Bool
  pub meta_key : Bool

abbrev bit : Bool → ℕ → ℕ
bit true n = n
bit false n = 0

-- `modifiersOf(e)`: an `|` of different bits is their sum.
unfoldable pub modifiers_of : KeyInput → ℕ
modifiers_of e = bit e.ctrl_key 1 + bit e.alt_key 2 + bit e.shift_key 4 + bit e.meta_key 8

unfoldable pub is_one_of : String → List String → Bool
is_one_of key [] = false
is_one_of key (k ∷ ks) = if str_eq k key then true else is_one_of key ks

-- `CONTROL_KEYS`.
unfoldable pub control_keys : List String
control_keys =
    "Enter" ∷ "Backspace" ∷ "Delete" ∷ "Tab" ∷ "Escape" ∷ "ArrowUp" ∷ "ArrowDown" ∷ "ArrowLeft"
    ∷ "ArrowRight" ∷ "Home" ∷ "End" ∷ "PageUp" ∷ "PageDown" ∷ []

-- `mapControlKey(e)`.
unfoldable pub map_control_key : KeyInput → Option RemoteKey
unfolding is_one_of control_keys modifiers_of
map_control_key e =
    if is_one_of e.key control_keys
    then some (record {
      key = e.key;
      code = if str_eq e.code "" then e.key else e.code;
      modifiers = modifiers_of e;
    })
    else none

abbrev pub is_high : ℕ → Bool
is_high c = leb 0xd800 c && leb c 0xdbff

abbrev pub is_low : ℕ → Bool
is_low c = leb 0xdc00 c && leb c 0xdfff

-- Whether the unit before a position is a high surrogate; before the start there is none.
abbrev pub high_before : ℕ → List ℕ → Bool
high_before zero units = false
high_before (suc n) [] = false
high_before (suc zero) (c ∷ units) = is_high c
high_before (suc (suc n)) (c ∷ units) = high_before (suc n) units

-- The end of the chunk that starts a rest of the text.
unfoldable pub chunk_end : ℕ → List ℕ → ℕ
chunk_end max rest =
    let end = min max (length rest) in
    if ltb end (length rest) && high_before end rest then end - 1 else end

-- The loop, on what the text still holds; a round takes a unit at least, or breaks.
unfoldable pub split_loop : ℕ → ℕ → List ℕ → List (List ℕ)
split_loop zero max rest = []
split_loop (suc fuel) max [] = []
split_loop (suc fuel) max (c ∷ rest) =
    let end = chunk_end max (c ∷ rest) in
    let more = split_loop fuel max (drop end (c ∷ rest)) in
    if end == 0 then [] else take end (c ∷ rest) ∷ more

-- `splitTextChunks(text, max)`.
unfoldable pub split_text_chunks : ℕ → List ℕ → List (List ℕ)
unfolding split_loop chunk_end
split_text_chunks max text = split_loop (length text) max text

abbrev pub default_max : ℕ
default_max = min max_text_length 500
