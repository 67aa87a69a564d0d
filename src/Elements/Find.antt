-- ===== src/Elements/Find.antt =====
-- Which element the search for a key finds.
use k2hash.Elements.Holds.{Holds}
