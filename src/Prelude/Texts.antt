-- ===== src/Prelude/Texts.antt =====
-- Python's `in` and slicing on texts, by characters.
use Prim.Native.Nat.{ℕ, zero, suc}
use Prim.Native.String.{String}
use Prim.Native.Char.{code}
use mathlib.Core.Bool.{Bool, true, false, ◌&&◌, ◌||◌}
use turtle_chat.Prelude.Tests.{eqb}

-- text.startswith(prefix)
unfoldable pub starts_with : String → String → Bool
starts_with String.[] text = true
starts_with (String.◌∷◌ c prefix) String.[] = false
starts_with (String.◌∷◌ c prefix) (String.◌∷◌ d text) =
    eqb (code c) (code d) && starts_with prefix text

-- piece in text
unfoldable pub contains : String → String → Bool
contains piece String.[] = starts_with piece String.[]
contains piece (String.◌∷◌ c text) = starts_with piece (String.◌∷◌ c text) || contains piece text

-- text[:n]
unfoldable pub take_text : ℕ → String → String
take_text zero text = ""
take_text (suc n) String.[] = ""
take_text (suc n) (String.◌∷◌ c text) = String.◌∷◌ c (take_text n text)
