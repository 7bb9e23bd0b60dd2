-- ===== src/Console/Xmodem/Stores.antt =====
-- A file that goes over the line stands in the file system of the console.
use zephyr_zyx_modem.Base.{ℕ, some, List}
use zephyr_zyx_modem.Io.{Io}
use zephyr_zyx_modem.Console.{Settings}
use zephyr_zyx_modem.Console.Files.{Context, context_for, full_path}
use zephyr_zyx_modem.Console.Stored.{Stored}

-- the context behind the opening of the file
abbrev opened : Settings → List ℕ → Context
opened settings name = record (context_for name) { zfile = some (full_path settings name) }
