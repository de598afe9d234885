-- ===== src/Progress/Witnesses.antt =====
-- core/progress_compact.go: the theorem on the writer, applied to two entries and an end.
use echo_client.Prelude.{true, false, List, [], ◌∷◌, arith}
use echo_client.Progress.{CompactProgressWriter, compact, Call, appends, finalizes, calls}
use echo_client.Progress.Limits.{Within, calls-Within}

abbrev new_writer : CompactProgressWriter
new_writer = record {
  style = compact;
  has_handle = false;
  entries = [];
  last_sent = "";
  enabled = true;
  failed = false;
  closed = false;
  sent = [];
}

abbrev two_entries : List Call
two_entries = appends "read" true ∷ appends "write" true ∷ finalizes "done" true ∷ []

calls-Within_example : Within (calls new_writer two_entries)
calls-Within_example =
    calls-Within new_writer two_entries (record { few = omega arith; short = tt })
