-- ===== src/MobileWeb/KeyboardBridge/Typed.antt =====
-- apps/mobile-web/src/lib/keyboard-bridge.ts: the text that is committed and the text that is queued.
use remotetab.Prelude.{
  ℕ, ◌≡◌, Bool, true, false, ◌||◌, Option, some, List, [], ◌∷◌, ◌++◌, if◌then◌else◌,
}
use remotetab.MobileWeb.Keyboard.Chunks.{is_well_formed}
use remotetab.MobileWeb.KeyboardBridge.{
  KeyCall, inserts, InputType, insert_text, insert_composition_text, KeyboardEvent, before_inputs,
  composition_starts, composition_ends, sends_text,
}

-- The texts among the calls.
unfoldable pub inserted : List KeyCall → List (List ℕ)
inserted [] = []
inserted (inserts chunk ∷ calls) = chunk ∷ inserted calls
inserted (_ ∷ calls) = inserted calls

-- The text of an input event that inserts.
unfoldable pub input_text : InputType → Option (List ℕ) → List ℕ
input_text insert_text (some text) = text
input_text insert_composition_text (some text) = text
input_text _ _ = []

-- The text that the events commit, in a field that is composing or not.
unfoldable pub committed : Bool → List KeyboardEvent → List ℕ
committed composing [] = []
committed composing (before_inputs kind text is_composing ∷ es) =
    (if composing || is_composing then [] else input_text kind text) ++ committed composing es
committed composing (composition_starts ∷ es) = committed true es
committed composing (composition_ends text ∷ es) = text ++ committed false es
committed composing (sends_text text ∷ es) = text ++ committed composing es
committed composing (_ ∷ es) = committed composing es

-- The text that an event brings is well formed.
unfoldable pub IsWellFormed : KeyboardEvent → Type 0
IsWellFormed (before_inputs kind text is_composing) = is_well_formed (input_text kind text) ≡ true
IsWellFormed (composition_ends text) = is_well_formed text ≡ true
IsWellFormed (sends_text text) = is_well_formed text ≡ true
IsWellFormed _ = Unit {0}

module _ {S : Type 0} (send_urgent : KeyCall → S → S × Bool) where
  -- The call throws in no state of the sender.
  abbrev pub IsCalm : KeyCall → Type 0
  IsCalm c = (env : S) → (send_urgent c env).1 ≡ false
