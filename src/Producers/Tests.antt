-- ===== src/Producers/Tests.antt =====
-- producers.rs: the theorems at a concrete window.
use event_stream.Prelude.{◌+◌, refl, [], ◌∷◌, some, arith}
use event_stream.Producers.{
  PartitionWindow, zero_sequence, check_window, empty_window, record_window,
}
use event_stream.Producers.Window.{
  IsWindow, Answer, record_window-IsWindow, first_window-IsWindow, check_window_lem,
}

-- The sequences 0 to 2, at the offsets 50, 51 and 60.
abbrev three : PartitionWindow
three = record {
  last_seen = zero_sequence + 2;
  last_offset = 60;
  recent = (zero_sequence, 50) ∷ (zero_sequence + 1, 51) ∷ (zero_sequence + 2, 60) ∷ [];
}

three-IsWindow : IsWindow three
three-IsWindow = record {
  from = zero_sequence;
  runs = (refl, (refl, (refl, tt)));
  ends = refl;
  some_recent = omega arith;
  bounded = omega arith;
}

record_window-IsWindow_example : IsWindow (record_window three (three.last_seen + 1) 61)
record_window-IsWindow_example = record_window-IsWindow three 61 three-IsWindow (omega arith)

first_window-IsWindow_example : IsWindow (record_window empty_window 7 50)
first_window-IsWindow_example = first_window-IsWindow 7 50

check_window_lem_example :
    Answer three three-IsWindow.from
      (zero_sequence + 1)
      (check_window (some three) (zero_sequence + 1))
check_window_lem_example = check_window_lem three (zero_sequence + 1) three-IsWindow (omega arith)
