-- ===== src/Fs/Tests/Files.antt =====
-- The file `a` of the small container, written and cut, beside an array.
use coffer_fs.Base.{◌≡◌, refl, List, [], ◌∷◌, ok, arith}
use coffer_fs.Db.Blocks.{byte_at}
use coffer_fs.Db.Rows.{find_inode}
use coffer_fs.Fs.Schema.{CofferFs}
use coffer_fs.Fs.Content.Calls.{read}
use coffer_fs.Fs.Content.Effects.{size_of}
use coffer_fs.Fs.Content.Refinement.{
  File, Change, writes, cuts, Holds, all_changed, all_called, bytes_read, all_called-read,
}
use coffer_fs.Fs.Tests.{small_db, mount, conn}

abbrev no_limit : CofferFs
no_limit = record mount { max_size = 0 }

abbrev changes : List Change
changes = writes 131070 (1 ∷ 2 ∷ 3 ∷ 4 ∷ []) ∷ cuts 131072 ∷ writes 1 (5 ∷ []) ∷ []

abbrev file : File
file = record { size = 3; byte_of = byte_at small_db.blocks 2 }

file-Holds : Holds 2 file small_db
unfolding size_of find_inode
file-Holds = record {
  sized = refl;
  bytes = λ q. refl;
  small = omega arith;
  attributes = ([], refl);
}

all_called-read_example :
    ((all_called no_limit 2 changes conn).0 ≡ ok tt)
    × ((read 2 0 10 (all_called no_limit 2 changes conn).1).0
        ≡ ok (bytes_read 0 10 (all_changed changes file)))
all_called-read_example =
    all_called-read no_limit 2 changes file conn 0 10 (λ n. refl) refl refl
      (omega arith, (omega arith, (omega arith, tt))) file-Holds (omega arith) (omega arith)
