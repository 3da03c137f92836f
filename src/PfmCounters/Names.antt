-- ===== src/PfmCounters/Names.antt =====
-- The names that the settings file gives to probes/pfmcounters/pfmcounters.c.
use lpowerprobe.Common.{◌≢◌, Option, none, List}
use lpowerprobe.Text.{Text}

-- The bytes of a name, where one has been written.
abbrev pub IsNamed : Option Text → Type 0
IsNamed name = name ≢ none
