-- ===== src/Spool.antt =====
-- server/spool.go: SpoolToFile and its spooler. The stream and the file system are parameters: the
-- chunks that the reads give, and which calls fail. A temporary file is the bytes written to it.
pub mod Taken
pub mod Content
pub mod Memory
mod Tests
use sdk_api.Base.{
  ℕ, subst, zero, suc, ◌+◌, ◌-◌, ◌*◌, ◌≤◌, ◌<◌, ◌/◌, ◌%◌, String, ◌≡◌, refl, sym, ap, ◌∙◌, ◌≢◌, ◌↔◌,
  ◌⊎◌, inl, inr, Bool, true, false, not, ◌&&◌, ◌||◌, Option, none, some, List, [], ◌∷◌, ◌++◌, map,
  arith, ltb, leb, nat_beq, nat_beq_iff, Eq, ◌==◌, ==_iff, nat_eq, string_eq, if◌then◌else◌,
  Bool-cases, Option-cases, is_some, length, get_elem?, set, take, length-append, length-set,
  get_elem?-append_last, get_elem?-append_left, get_elem?-set_ne, get_elem?-set_self, All, Map,
  lookup, insert, delete, lookup-insert, lookup-delete, contains, contains-cons_self,
  contains-cons_of_contains, contains-cons_cases, IsMap, retain, kept, insert-IsMap, delete-IsMap,
  lookup-retain, retain-IsMap,
}
use sdk_api.Base.Bytes.{Bytes}

-- SpoolConfig, as SpoolToFile uses it; a limit that is not positive is 0 here.
pub record SpoolConfig : Type 0 where
  pub mode : String
  pub memory_limit : ℕ
  pub dir : String

-- What one `stream.Read` gives: bytes, perhaps none, then how it ends.
pub data ReadEnd : Type 0 where
  more at_end broken : ReadEnd

-- The calls of the file system that fail, the writes by the number of bytes that the file holds.
pub record FileSystem : Type 0 where
  pub temp_dir : String
  pub creates : String → Bool
  pub writes : ℕ → Bool
  pub closes : Bool

-- The spooler: `file` is the content of the temporary file, where there is one.
pub record Spooler : Type 0 where
  pub mem : Bytes
  pub file : Option Bytes
  pub size : ℕ
  pub limit : ℕ
  pub dir : String
  pub mode : String

-- SpooledFile, through the content of the file at its path.
pub record SpooledFile : Type 0 where
  pub content : Bytes
  pub size : ℕ

pub data SpoolError : Type 0 where
  read_failed create_failed write_failed close_failed : SpoolError

-- The result, and the temporary file that is left on the disk.
pub record Spooled : Type 0 where
  pub result : SpooledFile ⊎ SpoolError
  pub left : Option Bytes

-- The beginning of SpoolToFile.
unfoldable pub new_spooler : FileSystem → SpoolConfig → Spooler
new_spooler fs cfg = record {
  mem = [];
  file = none;
  size = 0;
  limit = if cfg.memory_limit == 0 then 4_194_304 else cfg.memory_limit;
  dir = if cfg.dir == "" then fs.temp_dir else cfg.dir;
  mode = if cfg.mode == "" then "auto" else cfg.mode;
}

-- `spill`: the spooler, and whether it failed.
unfoldable pub spill : FileSystem → Spooler → Spooler × Option SpoolError
spill fs sp =
    let opened = record sp { file = some [] } in
    if not (fs.creates sp.dir)
    then (sp, some create_failed)
    else if not (fs.writes 0)
    then (opened, some write_failed)
    else (record sp { file = some sp.mem; mem = [] }, none)

-- `useDisk`.
abbrev pub use_disk : Spooler → Bytes → Bool
use_disk sp chunk =
    sp.mode == "disk"
    || (not (sp.mode == "memory")
        && not (is_some sp.file)
        && ltb sp.limit (length sp.mem + length chunk))

-- The second half of `writeChunk`: to the file where there is one, to memory otherwise.
unfoldable pub append_chunk : FileSystem → Spooler → Bytes → Spooler × Option SpoolError
append_chunk fs sp chunk = elim sp.file [
  | none ↦ (record sp { mem = sp.mem ++ chunk; size = sp.size + length chunk }, none)
  | some written ↦
      if fs.writes (length written)
      then (record sp { file = some (written ++ chunk); size = sp.size + length chunk }, none)
      else (sp, some write_failed)
]

-- `writeChunk`.
unfoldable pub write_chunk : FileSystem → Spooler → Bytes → Spooler × Option SpoolError
write_chunk fs sp chunk =
    if use_disk sp chunk && not (is_some sp.file)
    then elim (spill fs sp).1 [
      | none ↦ append_chunk fs (spill fs sp).0 chunk
      | some e ↦ ((spill fs sp).0, some e)
    ]
    else append_chunk fs sp chunk

-- `if n > 0 { writeChunk }`.
abbrev pub write_read : FileSystem → Spooler → Bytes → Spooler × Option SpoolError
write_read fs sp [] = (sp, none)
write_read fs sp (b ∷ bs) = write_chunk fs sp (b ∷ bs)

-- `ingest`, on the reads of the stream; a stream whose reads have run out is at its end.
unfoldable pub ingest : FileSystem → Spooler → List (Bytes × ReadEnd) → Spooler × Option SpoolError
ingest fs sp [] = (sp, none)
ingest fs sp ((chunk, end) ∷ reads) = elim (write_read fs sp chunk).1 [
  | some e ↦ ((write_read fs sp chunk).0, some e)
  | none ↦ elim end [
    | more ↦ ingest fs (write_read fs sp chunk).0 reads
    | at_end ↦ ((write_read fs sp chunk).0, none)
    | broken ↦ ((write_read fs sp chunk).0, some read_failed)
  ]
]

-- The end of `finish`, once there is a file.
unfoldable pub close_file : FileSystem → Spooler → Spooled
close_file fs sp = elim sp.file [
  | none ↦ record { result = inr create_failed; left = none }
  | some written ↦ record {
    result =
        if fs.closes then inl (record { content = written; size = sp.size }) else inr close_failed;
    left = some written;
  }
]

-- `finish`.
unfoldable pub finish : FileSystem → Spooler → Spooled
finish fs sp = if is_some sp.file then close_file fs sp else elim (spill fs sp).1 [
  | none ↦ close_file fs (spill fs sp).0
  | some e ↦ record { result = inr e; left = (spill fs sp).0.file }
]

-- `SpoolToFile`: an error of `ingest` removes the temporary file.
unfoldable pub spool_to_file : FileSystem → SpoolConfig → List (Bytes × ReadEnd) → Spooled
spool_to_file fs cfg reads = elim (ingest fs (new_spooler fs cfg) reads).1 [
  | none ↦ finish fs (ingest fs (new_spooler fs cfg) reads).0
  | some e ↦ record { result = inr e; left = none }
]
