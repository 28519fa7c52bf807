-- ===== src/Sse/Connection.antt =====
-- The reads of one connection: how frontend/src/lib/api/core/serverSentEvents.gen.ts buffers text,
-- cuts it into chunks and makes an event of each.
use integr8s_code.Base.{
  Bool, true, false, Option, none, some, List, [], ◌∷◌, ◌++◌, if◌then◌else◌, Text, is_empty, ℤ,
}
use integr8s_code.Sse.{
  normalize, split_chunks, split_lines, Memory, Fields, apply_lines, join_lines,
}

-- `data` of an event: parsed JSON, or the text that is no JSON.
pub data Payload (J : Type 0) : Type 0 where
  json : J → Payload J
  raw : Text → Payload J

pub record StreamEvent (J : Type 0) : Type 0 where
  pub payload : Option (Payload J)
  pub event : Option Text
  pub id : Option Text
  pub retry : ℤ

-- `JSON.parse`, whose `none` is its exception, and what the caller asks to be done with a parsed
-- value: the response validator and then the response transformer, whose exception is `none`.
pub record Decoder : Type 1 where
  pub J : Type 0
  pub parse : Text → Option J
  pub deliver : J → Option J

-- What a stretch of the stream gave: its events, what is remembered behind it, and whether an
-- exception ended it.
pub record Progress (J : Type 0) : Type 0 where
  pub events : List (StreamEvent J)
  pub memory : Memory
  pub thrown : Bool

-- The fields of a chunk, over what is remembered from before.
unfoldable pub fields_of : Text → Memory → Fields
unfolding apply_lines split_lines
fields_of chunk m =
    apply_lines (split_lines chunk) (record { data_lines = []; event_name = none; memory = m })

module _ (d : Decoder) where
  -- The value of a chunk's data lines; `none` is an exception of `deliver`.
  delivered : Option d.J → Text → Option (Payload d.J)
  delivered none text = some (raw text)
  delivered (some parsed) text = elim (d.deliver parsed) [ some j ↦ some (json j) | none ↦ none ]

  event_with : Option (Payload d.J) → Fields → StreamEvent d.J
  event_with payload f = record {
    payload = payload;
    event = f.event_name;
    id = f.memory.last_event_id;
    retry = f.memory.retry_delay;
  }

  unfoldable pub event_of : Fields → Option (StreamEvent d.J)
  unfolding delivered join_lines event_with
  event_of f =
      let text = join_lines f.data_lines in
      if is_empty f.data_lines
      then some (event_with none f)
      else elim (delivered (d.parse text) text) [
        | some p ↦ some (event_with (some p) f)
        | none ↦ none
      ]

  unfoldable pub before : Option (StreamEvent d.J) → Memory → Progress d.J → Progress d.J
  before none m rest = record { events = []; memory = m; thrown = true }
  before (some e) m rest = record rest { events = e ∷ rest.events }

  -- `for (const chunk of chunks)`
  unfoldable pub process : List Text → Memory → Progress d.J
  unfolding fields_of event_of before
  process [] m = record { events = []; memory = m; thrown = false }
  process (chunk ∷ chunks) m =
      let f = fields_of chunk m in before (event_of f) f.memory (process chunks f.memory)

  unfoldable pub and_then : Progress d.J → Progress d.J → Progress d.J
  and_then p q = if p.thrown then p else record q { events = p.events ++ q.events }

  -- The reads until `done`, over a buffer.
  unfoldable pub read_all : List Text → (buffer : Text) → Memory → Progress d.J
  unfolding process normalize split_chunks and_then
  read_all [] buffer m = record { events = []; memory = m; thrown = false }
  read_all (value ∷ values) buffer m =
      let (chunks, rest) = split_chunks (normalize (buffer ++ value)) in
      let p = process chunks m in and_then p (read_all values rest p.memory)

  -- What the generator yields: the data of the events that have some.
  unfoldable pub yielded : List (StreamEvent d.J) → List (Payload d.J)
  yielded [] = []
  yielded (e ∷ es) = let rest = yielded es in elim e.payload [ some p ↦ p ∷ rest | none ↦ rest ]
