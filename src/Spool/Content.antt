-- ===== src/Spool/Content.antt =====
-- server/spool.go: what the spooled file holds.
use sdk_api.Base.{
  ◌≡◌, refl, sym, ap, ◌∙◌, inl, inr, some, List, [], arith, nat_eq, string_eq, Option-cases, length,
}
use sdk_api.Base.Bytes.{Bytes}
use sdk_api.Spool.{
  SpoolConfig, ReadEnd, FileSystem, Spooler, SpooledFile, new_spooler, spill, ingest, close_file,
  finish, spool_to_file,
}
use sdk_api.Spool.Taken.{stream_bytes, taken, IsConsistent, append-nil, ingest-Took, spill-Took}

module _ (fs : FileSystem) where
  new_spooler-IsConsistent : (cfg : SpoolConfig) → IsConsistent (new_spooler fs cfg)
  unfolding new_spooler
  new_spooler-IsConsistent cfg = ground arith

  -- `f` is what `close_file` gives of a spooler with a file.
  close_file_result :
      (sp : Spooler) (f : SpooledFile)
      → IsConsistent sp
      → (close_file fs sp).result ≡ inl f
      → (f.content ≡ taken sp)
        × (f.size ≡ length (taken sp))
        × ((close_file fs sp).left ≡ some f.content)
  unfolding close_file
  close_file_result sp f v e = elim (Option-cases sp.file) [
    | inl none_yet ↦ absurd (ground arith)
    | inr (written, open_file) ↦
        let empty : sp.mem ≡ [] = v.one_place (rw open_file refl) in
        let now : taken sp ≡ written = rw (open_file, empty) (append-nil written) in
        let is : f ≡ record { content = written; size = sp.size } = ground arith in
        (rw is (sym now), rw is v.size_is, rw is (ground arith))
  ]

  finish_result :
      (sp : Spooler) (f : SpooledFile)
      → IsConsistent sp
      → (finish fs sp).result ≡ inl f
      → (f.content ≡ taken sp)
        × (f.size ≡ length (taken sp))
        × ((finish fs sp).left ≡ some f.content)
  unfolding finish
  finish_result sp f v e = elim (Option-cases sp.file) [
    | inr (written, open_file) ↦
        let same : finish fs sp ≡ close_file fs sp = ground arith in
        rw same (close_file_result sp f v (rw same at e))
    | inl none_yet ↦ elim (Option-cases (spill fs sp).1) [
      | inr (failure, failed) ↦ absurd (ground arith)
      | inl fine ↦
          let r = (spill fs sp).0 in
          let same : finish fs sp ≡ close_file fs r = ground arith in
          let ((moved, v'), _) = spill-Took fs sp v none_yet fine in
          let whole : taken r ≡ taken sp = moved ∙ append-nil (taken sp) in
          let (content, size, left) = close_file_result r f v' (rw same at e) in
          (content ∙ whole, size ∙ ap length whole, rw same left)
    ]
  ]

  -- Where SpoolToFile succeeds, the file on the disk holds the bytes of the stream, all of them in
  -- order, whatever the mode and the limit, and the size is their number.
  pub spool_to_file_content :
      (cfg : SpoolConfig) (reads : List (Bytes × ReadEnd)) (f : SpooledFile)
      → (spool_to_file fs cfg reads).result ≡ inl f
      → (f.content ≡ stream_bytes reads)
        × (f.size ≡ length (stream_bytes reads))
        × ((spool_to_file fs cfg reads).left ≡ some f.content)
  unfolding spool_to_file
  spool_to_file_content cfg reads f e =
      let sp = new_spooler fs cfg in
      let r = (ingest fs sp reads).0 in
      elim (Option-cases (ingest fs sp reads).1) [
        | inr (failure, failed) ↦ absurd (ground arith)
        | inl fine ↦
            let same : spool_to_file fs cfg reads ≡ finish fs r = ground arith in
            let (moved, v) = ingest-Took fs sp reads (new_spooler-IsConsistent cfg) fine in
            let whole : taken r ≡ stream_bytes reads = unfold new_spooler in moved in
            let (content, size, left) = finish_result r f v (rw same at e) in
            (content ∙ whole, size ∙ ap length whole, rw same left)
      ]
