-- ===== src/Handlers/Tests/Downloads.antt =====
-- A download from the cloud, of a key that the bucket holds.
use caviar_hacker_grid.Base.{ℕ, none, if◌then◌else◌, drop}
use caviar_hacker_grid.Base.Text.{Bytes, codes, equal, starts_with}
use caviar_hacker_grid.Handlers.Cloud.{Host}
use caviar_hacker_grid.Handlers.Cloud.Downloads.{with_file, without_file}
use caviar_hacker_grid.Handlers.Files.{FileSystem}
use caviar_hacker_grid.Base.StdMap.Keys.{text_order}

abbrev host : Host
host = record { files = λ path. none; downloads = 6 }

-- `rm` removes the file that it is given; the script writes the same text to the seventh download.
abbrev system : Bytes → FileSystem → ℕ × FileSystem
unfolding equal starts_with
system command files =
    if starts_with (codes "rm ") command
    then (0, without_file (drop 3 command) files)
    else (0, with_file (codes "remote_file7md") (codes "hi") files)
