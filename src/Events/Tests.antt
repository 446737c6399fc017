-- ===== src/Events/Tests.antt =====
-- Events on a line, written and read back.
use columbo.Base.{
  ℕ, ◌≡◌, ◌↔◌, refl, true, false, Option, none, some, List, [], ◌∷◌, ◌++◌, length, inl, arith,
}
use columbo.Chars.{is_space, is_alnum, is_num, strtoul}
use columbo.LineHandler.{
  LineHandler, MayFault, extract_and_substr_until, extract_and_substr_until_into, trim_l,
  consume_and_trim_string, parse_uint_trim, parse_int,
}
use columbo.LineHandler.View.{At}
use columbo.Events.{codes, Event, nic_mmio_w, nic_rx, host_instr, host_call, display, print_events}
use columbo.Events.Parse.{parse_event}
use columbo.Events.Equal.{equal}
use columbo.Events.Same.{is_call, equal_lem}
use columbo.Events.RoundTrip.{parse_event-display}

-- A line in a buffer, with its line feed.
abbrev line_of : List ℕ → LineHandler
line_of xs = record { memory = xs ++ 10 ∷ []; size = length xs; pos = 0 }

abbrev write : Event
write = record {
  kind = nic_mmio_w 31 4 255 true;
  timestamp = 1000;
  parser_identifier = 12;
  parser_name = codes "NicBM-1";
}

abbrev write_line : List ℕ
write_line =
    codes
      "NicMmioW: source_id=12, source_name=NicBM-1, timestamp=1000, off=1f, len=4, val=ff, posted=true"

displayed : display false write [] ≡ write_line
unfolding display
displayed = refl

write_line-At : At (line_of write_line) (display false write [])
unfolding display is_alnum
write_line-At = record {
  valid = record { in_line = omega arith; in_memory = omega arith; small = omega arith };
  behind = omega arith;
  ends = refl;
  left = refl;
}

parse_event-display_example :
    (h' : LineHandler) × (parse_event (line_of write_line) ≡ some (h', some write)) × At h' []
unfolding is_alnum
parse_event-display_example =
    parse_event-display false write [] (line_of write_line)
      (record {
        ident_small = omega arith;
        ident_decimal = inl refl;
        named = (refl, (refl, (refl, (refl, (refl, (refl, (refl, tt)))))));
        ts_small = omega arith;
      })
      (omega arith) tt write_line-At

abbrev event_of_line : MayFault (Option Event) → Option Event
event_of_line none = none
event_of_line (some (h, e)) = e

abbrev instr : ℕ → Event
instr ident = record {
  kind = host_instr 31;
  timestamp = 5;
  parser_identifier = ident;
  parser_name = codes "gem5";
}

-- The second event of a stream is in base 16 from its source on, which is read in base 10.
second_line :
    print_events false (instr 1 ∷ instr 16 ∷ [])
    ≡ codes "HostInstr: source_id=1, source_name=gem5, timestamp=5, pc=1f"
      ++ (10 ∷ codes "HostInstr: source_id=10, source_name=gem5, timestamp=5, pc=1f" ++ 10 ∷ [])
unfolding print_events
second_line = refl

wrong_source : event_of_line (parse_event (line_of (display true (instr 16) []))) ≡ some (instr 10)
unfolding display parse_event is_space is_alnum is_num strtoul extract_and_substr_until
    extract_and_substr_until_into trim_l consume_and_trim_string parse_uint_trim parse_int
wrong_source = refl

no_source : event_of_line (parse_event (line_of (display true (instr 10) []))) ≡ none
unfolding display parse_event is_space is_alnum is_num strtoul extract_and_substr_until
    extract_and_substr_until_into trim_l consume_and_trim_string parse_uint_trim parse_int
no_source = refl

abbrev received : Event
received = record {
  kind = nic_rx 2 64;
  timestamp = 5;
  parser_identifier = 1;
  parser_name = codes "NicBM";
}

-- The port and the length of what is received are mixed up.
wrong_port :
    event_of_line (parse_event (line_of (display true received [])))
    ≡ some (record received { kind = nic_rx 64 0 })
unfolding display parse_event is_space is_alnum is_num strtoul extract_and_substr_until
    extract_and_substr_until_into trim_l consume_and_trim_string parse_uint_trim parse_int
wrong_port = refl

equal_example :
    (equal write (record write { timestamp = 1001 }) ≡ true)
    ↔ ((write ≡ record write { timestamp = 1001 }) × (is_call write.kind ≡ false))
equal_example = equal_lem write (record write { timestamp = 1001 })

abbrev called : Event
called = record {
  kind = host_call 31 (codes "f") (codes "linux");
  timestamp = 5;
  parser_identifier = 1;
  parser_name = codes "gem5";
}

not_equal_to_itself : equal called called ≡ false
unfolding equal
not_equal_to_itself = refl
