-- ===== src/Spool/Memory.antt =====
-- server/spool.go: what the spooler keeps in memory while it takes in a stream.
use sdk_api.Base.{
  subst, ◌+◌, ◌≤◌, ◌≡◌, refl, sym, ◌∙◌, ◌≢◌, inl, inr, true, not, ◌&&◌, Option, none, some, List,
  [], ◌∷◌, ◌++◌, arith, ==_iff, nat_eq, string_eq, Bool-cases, Option-cases, is_some, length,
  length-append,
}
use sdk_api.Base.Bytes.{Bytes}
use sdk_api.Spool.{
  ReadEnd, more, at_end, broken, FileSystem, Spooler, SpoolError, read_failed, spill, use_disk,
  append_chunk, write_chunk, write_read, ingest,
}

-- The mode and the limit of `sp`, and no more in memory than the limit.
pub record Bounded (sp r : Spooler) : Type 0 where
  pub mode_kept : r.mode ≡ sp.mode
  pub limit_kept : r.limit ≡ sp.limit
  pub within : length r.mem ≤ sp.limit

module _ (fs : FileSystem) where
  spill-Bounded : (sp : Spooler) → Bounded sp sp → Bounded sp (spill fs sp).0
  unfolding spill
  spill-Bounded sp v = elim (Bool-cases (fs.creates sp.dir)) [
    | inl made ↦ elim (Bool-cases (fs.writes 0)) [
      | inl fine ↦ ground arith
      | inr full ↦ ground arith
    ]
    | inr failed ↦ ground arith
  ]

  append_chunk-Bounded :
      (sp : Spooler) (chunk : Bytes)
      → length sp.mem ≤ sp.limit
      → (sp.file ≡ none → length sp.mem + length chunk ≤ sp.limit)
      → Bounded sp (append_chunk fs sp chunk).0
  unfolding append_chunk
  append_chunk-Bounded sp chunk v room = elim (Option-cases sp.file) [
    | inl none_yet ↦
        let e : append_chunk fs sp chunk
            ≡ (record sp { mem = sp.mem ++ chunk; size = sp.size + length chunk }, none) =
          ground arith in
        subst (λ r. Bounded sp r.0) (sym e)
          (record {
            mode_kept = refl;
            limit_kept = refl;
            within = omega (arith, length-append sp.mem chunk, room none_yet);
          })
    | inr (written, open_file) ↦ ground arith
  ]

  spill_file : (sp : Spooler) → (spill fs sp).1 ≡ none → is_some (spill fs sp).0.file ≡ true
  unfolding spill
  spill_file sp ok = ground arith

  write_chunk-Bounded :
      (sp : Spooler) (chunk : Bytes)
      → sp.mode ≢ "memory"
      → length sp.mem ≤ sp.limit
      → Bounded sp (write_chunk fs sp chunk).0
  unfolding write_chunk
  write_chunk-Bounded sp chunk spills v =
      elim (Bool-cases (use_disk sp chunk && not (is_some sp.file))) [
        | inr direct ↦ rw direct (
            append_chunk-Bounded sp chunk v
              (λ e. ground (arith, direct, e, ==_iff sp.mode "memory")))
        | inl spilled ↦
            let s = spill-Bounded sp (record { mode_kept = refl; limit_kept = refl; within = v }) in
            elim (Option-cases (spill fs sp).1) [
              | inr (failure, failed) ↦ rw spilled (rw failed s)
              | inl fine ↦
                  let e : write_chunk fs sp chunk ≡ append_chunk fs (spill fs sp).0 chunk =
                    rw (spilled, write_chunk) (rw fine refl) in
                  let a =
                    append_chunk-Bounded (spill fs sp).0 chunk
                      (omega (arith, s.within, s.limit_kept))
                      (λ none_yet. absurd (ground (arith, none_yet, spill_file sp fine))) in
                  subst (λ r. Bounded sp r.0) (sym e)
                    (record {
                      mode_kept = a.mode_kept ∙ s.mode_kept;
                      limit_kept = a.limit_kept ∙ s.limit_kept;
                      within = omega (arith, a.within, s.limit_kept);
                    })
            ]
      ]

  write_read-Bounded :
      (sp : Spooler) (chunk : Bytes)
      → sp.mode ≢ "memory"
      → length sp.mem ≤ sp.limit
      → Bounded sp (write_read fs sp chunk).0
  write_read-Bounded sp [] spills v = record { mode_kept = refl; limit_kept = refl; within = v }
  write_read-Bounded sp (b ∷ bs) spills v = write_chunk-Bounded sp (b ∷ bs) spills v

  -- In every mode but memory, a spooler that holds at most `limit` bytes in memory still does after
  -- any reads of a stream, whether they end well or not.
  pub ingest-Bounded :
      (sp : Spooler) (reads : List (Bytes × ReadEnd))
      → sp.mode ≢ "memory"
      → length sp.mem ≤ sp.limit
      → Bounded sp (ingest fs sp reads).0
  unfolding ingest
  ingest-Bounded sp [] spills v = record { mode_kept = refl; limit_kept = refl; within = v }
  ingest-Bounded sp ((chunk, end) ∷ reads) spills v =
      let w = write_read-Bounded sp chunk spills v in
      let r = (write_read fs sp chunk).0 in
      elim (Option-cases (write_read fs sp chunk).1) [
        | inr (failure, failed) ↦ rw (failed, ingest) w
        | inl fine ↦
            let rest =
              ingest-Bounded r reads (λ e. spills (sym w.mode_kept ∙ e))
                (omega (arith, w.within, w.limit_kept)) in
            let all : Bounded sp (ingest fs r reads).0 = record {
              mode_kept = rest.mode_kept ∙ w.mode_kept;
              limit_kept = rest.limit_kept ∙ w.limit_kept;
              within = omega (arith, rest.within, w.limit_kept);
            } in
            rw (fine, ingest) (after_read end w all)
      ]
    where
      after_read :
          (end : ReadEnd)
          → Bounded sp (write_read fs sp chunk).0
          → Bounded sp (ingest fs (write_read fs sp chunk).0 reads).0
          → Bounded sp
              (elim end as (λ _. Spooler × Option SpoolError) [
                | more ↦ ingest fs (write_read fs sp chunk).0 reads
                | at_end ↦ ((write_read fs sp chunk).0, none)
                | broken ↦ ((write_read fs sp chunk).0, some read_failed)
              ]).0
      after_read more w all = all
      after_read at_end w all = w
      after_read broken w all = w
