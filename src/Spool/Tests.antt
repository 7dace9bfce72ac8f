-- ===== src/Spool/Tests.antt =====
-- server/spool.go on a stream of three reads.
use sdk_api.Base.{◌≡◌, refl, inl, inr, true, false, some, List, [], ◌∷◌, nat_eq, string_eq, length}
use sdk_api.Base.Bytes.{Bytes, codes}
use sdk_api.Spool.{
  SpoolConfig, ReadEnd, more, at_end, FileSystem, SpooledFile, close_failed, new_spooler, spill,
  append_chunk, write_chunk, ingest, close_file, finish, spool_to_file,
}
use sdk_api.Spool.Taken.{stream_bytes}
use sdk_api.Spool.Content.{spool_to_file_content}

abbrev disk : FileSystem
disk = record { temp_dir = "/tmp"; creates = λ dir. true; writes = λ n. true; closes = true }

abbrev small : SpoolConfig
small = record { mode = ""; memory_limit = 4; dir = "" }

abbrev reads : List (Bytes × ReadEnd)
reads = (codes "abc", more) ∷ (codes "", more) ∷ (codes "de", at_end) ∷ []

abbrev spooled_file : SpooledFile
spooled_file = record { content = codes "abcde"; size = 5 }

spool_test : (spool_to_file disk small reads).result ≡ inl spooled_file
unfolding spool_to_file finish close_file ingest write_chunk append_chunk spill new_spooler
spool_test = refl

-- A file that cannot be closed is left on the disk.
leaves_file :
    ((spool_to_file (record disk { closes = false }) small reads).result ≡ inr close_failed)
    × ((spool_to_file (record disk { closes = false }) small reads).left ≡ some (codes "abcde"))
unfolding spool_to_file finish close_file ingest write_chunk append_chunk spill new_spooler
leaves_file = (refl, refl)

spool_to_file_content_example :
    (spooled_file.content ≡ stream_bytes reads)
    × (spooled_file.size ≡ length (stream_bytes reads))
    × ((spool_to_file disk small reads).left ≡ some spooled_file.content)
spool_to_file_content_example = spool_to_file_content disk small reads spooled_file spool_test
