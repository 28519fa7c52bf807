-- ===== src/Sse/Examples.antt =====
-- The theorems on streams like those of the backend; `JSON.parse` is replaced by the reader of whole
-- numbers.
use integr8s_code.Base.{
  ◌≡◌, ◌≤◌, ◌+◌, ◌*◌, refl, arith, true, false, none, some, List, [], ◌∷◌, ◌++◌, Text, codes, ℤ,
  pos, length,
}
use integr8s_code.Sse.{lf, cr, Memory, parse_int}
use integr8s_code.Sse.Connection.{Decoder, json, read_all, yielded}
use integr8s_code.Sse.Splitting.{concat, read_all-concat}
use integr8s_code.Sse.Encoding.{Message}
use integr8s_code.Sse.Reconnect.{Options, Round, refused, streamed, gave_up, stream}
use integr8s_code.Sse.Bounds.{connects, failures, sleeps, is_ended, is_gave_up, stream-Accounts}

abbrev numbers : Decoder
numbers = record { J = ℤ; parse = parse_int; deliver = λ j. some j }

abbrev blank : Memory
blank = record { last_event_id = none; retry_delay = pos 3000 }

-- One event, cut in the middle of its data.
abbrev reads : List Text
reads = (codes "id: 7" ++ lf ∷ codes "data: 4") ∷ (codes "2" ++ lf ∷ lf ∷ codes "data") ∷ []

read_all-concat_example :
    read_all numbers reads [] blank ≡ read_all numbers (concat reads ∷ []) [] blank
read_all-concat_example = read_all-concat numbers reads blank (omega arith)

reads_give_42 : yielded numbers (read_all numbers reads [] blank).events ≡ json (pos 42) ∷ []
unfolding read_all yielded parse_int
reads_give_42 = refl

-- Whole, the stream is one event; cut in the `\r\n` it is two.
cut_in_two :
    (length
        (read_all numbers
          ((codes "event: a" ++ cr ∷ lf ∷ codes "data: 1" ++ lf ∷ lf ∷ []) ∷ [])
          []
          blank).events
      ≡ 1)
    × (length
          (read_all numbers
            ((codes "event: a" ++ cr ∷ []) ∷ (lf ∷ codes "data: 1" ++ lf ∷ lf ∷ []) ∷ [])
            []
            blank).events
        ≡ 2)
unfolding read_all parse_int
cut_in_two = (refl, refl)

abbrev messages : List Message
messages =
    record {
      id = some (codes "7");
      event = some (codes "status");
      lines = codes "1" ∷ codes "2" ∷ [];
    }
    ∷ record { id = none; event = none; lines = codes "3" ∷ [] }
    ∷ []

-- The options of the notification stream.
abbrev options : Options
options = record {
  default_retry_delay = some 5000;
  max_retry_attempts = some 3;
  max_retry_delay = some 20000;
}

abbrev rounds : List Round
rounds =
    record { aborted = false; attempt = streamed reads true }
    ∷ record { aborted = false; attempt = refused }
    ∷ record { aborted = false; attempt = refused }
    ∷ []

rounds_give_up : (stream numbers options rounds).1 ≡ gave_up
unfolding stream read_all
rounds_give_up = refl

stream-Accounts_example :
    let (acts, status) = stream numbers options rounds in
    (connects acts ≤ 3)
    × (is_gave_up status * 3 ≤ connects acts)
    × (failures acts + is_ended status ≡ connects acts)
    × (length (sleeps acts) + is_gave_up status ≡ failures acts)
stream-Accounts_example = stream-Accounts numbers options 3 rounds refl (omega arith)
