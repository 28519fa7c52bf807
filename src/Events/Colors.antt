-- ===== src/Events/Colors.antt =====
-- What colour an event type has: by its last word.
use Prim.Native.String.{String}
use integr8s_code.Base.{◌≡◌, refl, ◌||◌, [], ◌∷◌, if◌then◌else◌, ◌==◌, Text, codes, text_eq}
use integr8s_code.Api.{EventType, value}
use integr8s_code.Events.{get_event_type_color}

-- The part of a text behind its last underscore, after the word read so far.
abbrev pub last_word_from : (word : Text) → Text → Text
last_word_from word [] = word
last_word_from word (c ∷ s) = if c == b'_' then last_word_from s s else last_word_from word s

abbrev pub last_word : Text → Text
last_word s = last_word_from s s

-- The colour of an outcome.
unfoldable pub color_of_word : Text → String
unfolding text_eq
color_of_word w =
    if text_eq w (codes "completed") || text_eq w (codes "succeeded")
    then "text-success"
    else if text_eq w (codes "failed") || text_eq w (codes "timeout")
    then "text-danger"
    else if text_eq w (codes "started") || text_eq w (codes "running")
    then "text-info"
    else if text_eq w (codes "requested")
    then "text-purple"
    else if text_eq w (codes "created")
    then "text-indigo"
    else if text_eq w (codes "terminated")
    then "text-orange"
    else "text-fg-muted"

-- The colour of every event type is that of its last word: none of the words that the code searches
-- for stands inside the name of an event whose last word is another one.
pub get_event_type_color-last_word :
    (e : EventType) → get_event_type_color (value e) ≡ color_of_word (last_word (value e))
unfolding get_event_type_color value color_of_word
get_event_type_color-last_word EventType.execution_requested = refl
get_event_type_color-last_word _ = refl
