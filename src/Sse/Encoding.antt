-- ===== src/Sse/Encoding.antt =====
-- Messages in the server's form are read back as they were written.
use integr8s_code.Base.{
  ◌≡◌, ◌≢◌, false, Option, none, some, List, [], ◌∷◌, ◌++◌, Text, codes, Lacks, All, map,
  skip_spaces,
}
use integr8s_code.Sse.{lf, cr, join_lines, Memory, Fields}
use integr8s_code.Sse.Connection.{Decoder, Progress, before, event_of}
use integr8s_code.Sse.Framing.{IsLine}

-- One event as the server has it.
pub record Message : Type 0 where
  pub id : Option Text
  pub event : Option Text
  pub lines : List Text

abbrev field : Text → Option Text → List Text
field key none = []
field key (some v) = (key ++ b' ' ∷ v) ∷ []

abbrev pub lines_of : Message → List Text
lines_of msg =
    field (codes "id:") msg.id
    ++ (field (codes "event:") msg.event ++ map (λ v. codes "data: " ++ v) msg.lines)

-- The message's lines, and the blank line that ends it.
abbrev pub encode : Message → Text
encode msg = join_lines (lines_of msg) ++ lf ∷ lf ∷ []

abbrev pub encode_all : List Message → Text
encode_all [] = []
encode_all (x ∷ xs) = encode x ++ encode_all xs

-- A value on one line that begins with no space.
abbrev pub IsPlain : Text → Type 0
IsPlain v = Lacks lf v × Lacks cr v × (skip_spaces v ≡ v)

abbrev pub IsPlainField : Option Text → Type 0
IsPlainField none = Unit
IsPlainField (some v) = IsPlain v

abbrev pub IsPlainMessage : Message → Type 0
IsPlainMessage msg =
    IsPlainField msg.id × IsPlainField msg.event × All IsPlain msg.lines × (lines_of msg ≢ [])

abbrev IsClean : Text → Type 0
IsClean l = IsLine l × Lacks cr l

abbrev with_id : Option Text → Memory → Memory
with_id none m = m
with_id (some v) m = record m { last_event_id = some v }

abbrev received : Message → Memory → Fields
received msg m = record {
  data_lines = msg.lines;
  event_name = msg.event;
  memory = with_id msg.id m;
}

module _ (d : Decoder) where
  -- The events of messages that arrive whole and in order, over what is remembered from before.
  abbrev pub expected : List Message → Memory → Progress d.J
  expected [] m = record { events = []; memory = m; thrown = false }
  expected (x ∷ xs) m =
      let f = received x m in before d (event_of d f) f.memory (expected xs f.memory)
