-- ===== src/FileIds/Tests.antt =====
-- Test data for internal/spcserver/fileids: a table with one file, and the property on it.
use boox_bridge.Prelude.{refl, [], ◌∷◌}
use boox_bridge.Prelude.Int.{pos}
use boox_bridge.Prelude.Lists.{any}
use boox_bridge.FileIds.{FileTable, file_is, id_for}
use boox_bridge.FileIds.Stable.{IsRegistry, IsAssigned, id_for_lem}

abbrev one_file : FileTable
one_file = record {
  rows = record { id = 3; path = "/a"; md5 = "5d41"; md5_size = pos 5; md5_mtime = pos 9 } ∷ [];
  sequence = 4;
}

one_file-IsRegistry : IsRegistry one_file
unfolding any file_is
one_file-IsRegistry = record { within = refl; apart = (refl, tt) }

id_for_lem_example : IsAssigned "/b" one_file (id_for (λ p. p) "/b" one_file)
id_for_lem_example = id_for_lem (λ p. p) "/b" one_file one_file-IsRegistry
