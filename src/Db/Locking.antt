-- ===== src/Db/Locking.antt =====
-- src/db.rs: how a mount locks its container.
use coffer_fs.Base.{String, Bool, true, false, Option, none, some, if◌then◌else◌}
use coffer_fs.Base.Words.{trim, is_word}

pub data Locking : Type 0 where
  automatic exclusive normal : Locking

unfoldable pub as_str : Locking → String
as_str automatic = "auto"
as_str exclusive = "exclusive"
as_str normal = "normal"

-- `match s.trim().to_ascii_lowercase().as_str()`
unfoldable pub parse_locking : String → Option Locking
unfolding trim is_word
parse_locking s =
    if is_word (trim s) "auto"
    then some automatic
    else if is_word (trim s) "exclusive"
    then some exclusive
    else if is_word (trim s) "normal"
    then some normal
    else none

-- The argument is what `on_network_fs` says of the container.
unfoldable pub exclusive_for : Locking → Bool → Bool
exclusive_for automatic on_network_fs = on_network_fs
exclusive_for exclusive on_network_fs = true
exclusive_for normal on_network_fs = false
