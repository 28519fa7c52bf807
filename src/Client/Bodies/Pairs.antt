-- ===== src/Client/Bodies/Pairs.antt =====
-- A form's body has each field's texts under the field's key.
use integr8s_code.Base.{
  ◌≡◌, true, Option, none, some, List, [], ◌∷◌, Text, text_eq, if◌then◌else◌, lookup,
}
use integr8s_code.Client.Values.{Value}
use integr8s_code.Client.Bodies.{texts_of, pairs_of}

-- `getAll`
abbrev pub get_all : Text → List (Text × Text) → List Text
get_all key [] = []
get_all key ((k, t) ∷ ps) = if text_eq k key then t ∷ get_all key ps else get_all key ps

-- The keys of an object are distinct.
abbrev pub IsDistinct : List (Text × Value) → Type 0
IsDistinct [] = (true ≡ true)
IsDistinct ((k, v) ∷ es) = (lookup k es ≡ none) × IsDistinct es

module _ (text : Value → Option Text) where
  -- The pairs are there, and hold nothing under a key that the body lacks.
  record HasFields (es : List (Text × Value)) (ps : List (Text × Text)) : Type 0 where
    pub given : pairs_of text es ≡ some ps
    pub absent : (key : Text) → lookup key es ≡ none → get_all key ps ≡ []
    pub present :
        (key : Text) (v : Value) → lookup key es ≡ some v → texts_of text v ≡ some (get_all key ps)

  -- Where each value has its texts, which is all but an exception of JSON.stringify.
  abbrev pub HasTexts : Value → Type 0
  HasTexts v = (ts : List Text) × (texts_of text v ≡ some ts)

  -- The texts of a field, and none for a field that the body lacks.
  abbrev pub field_texts : Option Value → Option (List Text)
  field_texts none = some []
  field_texts (some v) = texts_of text v
