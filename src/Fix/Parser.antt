-- ===== src/Fix/Parser.antt =====
-- `GroupDefs` and `FixMessage::parse` (core/Parser.hpp, core/Parser.cpp). The stream is the list of the
-- bytes that it still has to give. The message buffer is cut at `start`, `cp` and `end`: `before` is
-- what lies before `start`, `token` from there to `cp`, `ahead` from `cp` to `end`. What the parser
-- writes behind `max_message_size` bytes is a fault, also where the arena goes on behind them, and so is
-- the use of a null map.
pub mod Scan
pub mod Groups
pub mod Scanning
pub mod Rounds
pub mod Body
pub mod Fields
pub mod Steps
pub mod Values
pub mod Fresh
pub mod Overrun
pub mod Closing
pub mod Whole
pub mod Meaning
pub mod Framed
pub mod Knowing
pub mod Members
pub mod Counting
pub mod GroupTexts
pub mod Filling
pub mod Opening
pub mod GroupMessage
pub mod Grouped
pub mod Progress
pub mod Ends
pub mod Termination
mod Tests
mod GroupTests
mod FramedTests
use fast_little_market.Common.{
  ℕ, zero, suc, ◌+◌, ◌-◌, ◌*◌, ◌%◌, ◌^◌, min, Bool, true, false, ◌&&◌, ltb, leb, ◌==◌,
  if◌then◌else◌, List, [], ◌∷◌, ◌++◌, length, take, drop, Option, none, some,
}
use fast_little_market.Common.Outcome.{Outcome, value, fault, ◌>>=◌}
use fast_little_market.Fix.Alloc.{Buffer, new_buffer, allocate}
use fast_little_market.Fix.Alloc.{reset as reset_buffer}
use fast_little_market.Fix.Decimal.{Bytes}
use fast_little_market.Fix.FieldList.{Field, new_field}
use fast_little_market.Fix.FieldMap.{FieldMap, Maps, new_map, update, set}
use fast_little_market.Fix.FieldMap.Access.{get_int}
use fast_little_market.Fix.Tags.Convert.{stoft}
use fast_little_market.Fix.Tags.Fields.{
  body_length_tag, check_sum_tag, msg_type_tag, invalid_field_tag,
}
use fast_little_market.Fix.Parser.Scan.{Position, Scanned, found, ended, overrun, scan, skip}
use fast_little_market.Fix.Parser.Groups.{GroupDefs, Session, on_groups}

-- What a `FixMessage` holds: the arena with the map at `root`, and the bytes that were read.
pub record Message : Type 0 where
  pub maps : Maps
  pub stored : Bytes

-- `FixMessage::reset`: the address of the map, and the arena with it; `none` is `std::bad_alloc`. The
-- maps of the message before are gone.
unfoldable pub reset : ℕ → ℕ → Buffer → Option (ℕ × Maps)
reset map_size max buf = elim (allocate map_size (reset_buffer buf)) [
  | none ↦ none
  | some (root, b) ↦ elim (allocate max b) [
    | none ↦ none
    | some (_, c) ↦ some (root, record { buf = c; objects = update root new_map (λ _. none) })
  ]
]

-- The constructor, which multiplies an int.
unfoldable pub new_message : ℕ → ℕ → Outcome (Option (ℕ × Maps))
new_message map_size max =
    if ltb (max * 4) (2 ^ 31) then value (reset map_size max (new_buffer (max * 4))) else fault

-- `stoft(sv).value_or(FieldTag::INVALID)`
unfoldable pub tag_of : Bytes → ℕ
tag_of s = elim (stoft s) [ none ↦ invalid_field_tag | some t ↦ t ]

-- `(body_length + 7) - static_cast<int>(end - cp)` in an int.
abbrev pub to_read : ℕ → ℕ → ℕ
to_read body_length ahead = (body_length + 7 + (2 ^ 32 - ahead % 2 ^ 32)) % 2 ^ 32

-- `in.read(end, n)`: it stores what there is, and fails where that is less than `n`.
unfoldable pub read_block : ℕ → ℕ → Position → Scanned
read_block max n p =
    let size = length p.before + length p.token + length p.ahead in
    if ltb max (size + min n (length p.input))
    then overrun
    else if ltb (length p.input) n
    then ended (p.before ++ (p.token ++ (p.ahead ++ p.input)))
    else found (record p { ahead = p.ahead ++ take n p.input; input = drop n p.input })

-- What happens at the field BodyLength: the rest of the message is read.
unfoldable pub read_body : ℕ → ℕ → Position → Scanned
read_body max body_length p =
    let n = to_read body_length (length p.ahead) in
    if ltb 0 n && ltb n (2 ^ 31) then read_block max n p else found p

pub data Round : Type 0 where
  more : Session → Position → Round
  done : Message → Round
  out_of_fuel : Round

-- The end of a round: the message type, the skip over the end of the field, the groups.
unfoldable pub end_field : ℕ → GroupDefs → ℕ → Session → Position → Outcome Round
end_field map_size defs tag s p =
    let typed = if tag == msg_type_tag then record s { msg_groups = defs p.token } else s in
    let q = skip p in
    on_groups map_size (q.before ++ q.ahead) tag typed.msg_groups typed >>= λ o.
    value (elim o [ none ↦ out_of_fuel | some t ↦ more t q ])

-- At the end of a value, with the tag in hand: the field is stored in the current map.
unfoldable pub take_field : ℕ → ℕ → GroupDefs → ℕ → Session → Position → Outcome Round
take_field map_size max defs tag s p =
    if tag == check_sum_tag
    then value (done (record { maps = s.maps; stored = p.before ++ (p.token ++ p.ahead) }))
    else elim s.map [
      | none ↦ fault
      | some this ↦
          set this (new_field tag (length p.before % 2 ^ 16) (length p.token % 2 ^ 16) none) s.maps
          >>= λ maps.
              let t = record s { maps = maps } in
              if tag == body_length_tag
              then (get_int (p.before ++ (p.token ++ p.ahead)) this tag maps >>= λ body_length.
                  elim (read_body max (elim body_length [ none ↦ 0 | some n ↦ n ]) p) [
                    | ended stored ↦ value (done (record { maps = maps; stored = stored }))
                    | overrun ↦ fault
                    | found q ↦ end_field map_size defs tag t q
                  ])
              else end_field map_size defs tag t p
    ]

-- One round of the outer loop: a tag up to '=', a value up to SOH.
unfoldable pub round : ℕ → ℕ → GroupDefs → Session → Position → Outcome Round
round map_size max defs s p = elim (scan b'=' max p.before p.token p.ahead p.input) [
  | ended stored ↦ value (done (record { maps = s.maps; stored = stored }))
  | overrun ↦ fault
  | found q ↦
      let r = skip q in
      elim (scan 1 max r.before r.token r.ahead r.input) [
        | ended stored ↦ value (done (record { maps = s.maps; stored = stored }))
        | overrun ↦ fault
        | found v ↦ take_field map_size max defs (tag_of q.token) s v
      ]
]

-- The outer loop, on fuel; `none` is out of fuel.
unfoldable pub parse_loop : ℕ → ℕ → ℕ → GroupDefs → Session → Position → Outcome (Option Message)
parse_loop map_size max zero defs s p = value none
parse_loop map_size max (suc fuel) defs s p = round map_size max defs s p >>= λ r. elim r [
  | more t q ↦ parse_loop map_size max fuel defs t q
  | done m ↦ value (some m)
  | out_of_fuel ↦ value none
]

-- `FixMessage::parse` of a message whose arena is `buf`, with the address of the map that `reset` made;
-- `none` is `std::bad_alloc`. Each round reads two bytes of the stream at least.
unfoldable pub parse : ℕ → ℕ → GroupDefs → Buffer → Bytes → Option (ℕ × Outcome (Option Message))
parse map_size max defs buf input = elim (reset map_size max buf) [
  | none ↦ none
  | some (root, maps) ↦ some (
    root,
    parse_loop map_size max (suc (length input)) defs
        (record { maps = maps; map = some root; stack = []; msg_groups = none })
        (record { before = []; token = []; ahead = []; input = input }),
  )
]
