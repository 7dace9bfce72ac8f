-- ===== src/Spool/Taken.antt =====
-- server/spool.go: what the spooler has taken in after each of its operations.
use sdk_api.Base.{
  subst, ◌+◌, ◌≡◌, refl, sym, ap, ◌∙◌, inl, inr, true, not, ◌&&◌, Option, none, some, List, [], ◌∷◌,
  ◌++◌, arith, nat_eq, string_eq, Bool-cases, Option-cases, is_some, length, length-append,
}
use sdk_api.Base.Bytes.{Bytes}
use sdk_api.Spool.{
  ReadEnd, more, at_end, broken, FileSystem, Spooler, spill, use_disk, append_chunk, write_chunk,
  write_read, ingest,
}

-- The bytes of the reads, up to the end of the stream.
unfoldable pub stream_bytes : List (Bytes × ReadEnd) → Bytes
stream_bytes [] = []
stream_bytes ((chunk, more) ∷ reads) = chunk ++ stream_bytes reads
stream_bytes ((chunk, at_end) ∷ reads) = chunk
stream_bytes ((chunk, broken) ∷ reads) = chunk

abbrev pub in_file : Option Bytes → Bytes
in_file none = []
in_file (some written) = written

-- What a spooler has taken in: the file, then the memory.
abbrev pub taken : Spooler → Bytes
taken sp = in_file sp.file ++ sp.mem

-- The size is that of what was taken in, and memory is not used beside a file.
pub record IsConsistent (sp : Spooler) : Type 0 where
  pub size_is : sp.size ≡ length (taken sp)
  pub one_place : is_some sp.file ≡ true → sp.mem ≡ []

pub append-nil : (s : Bytes) → s ++ [] ≡ s
append-nil [] = refl
append-nil (c ∷ s) = ap (λ (t : Bytes). c ∷ t) (append-nil s)

append_assoc : (r s t : Bytes) → (r ++ s) ++ t ≡ r ++ (s ++ t)
append_assoc [] s t = refl
append_assoc (c ∷ r) s t = ap (λ (u : Bytes). c ∷ u) (append_assoc r s t)

-- `r` is `sp` after it has taken in `chunk`.
abbrev pub Took : Spooler → Bytes → Spooler → Type 0
Took sp chunk r = (taken r ≡ taken sp ++ chunk) × IsConsistent r

module _ (fs : FileSystem) where
  to_memory :
      (sp : Spooler) (chunk : Bytes)
      → IsConsistent sp
      → sp.file ≡ none
      → Took sp chunk (record sp { mem = sp.mem ++ chunk; size = sp.size + length chunk })
  to_memory sp chunk v e = (
    sym (append_assoc (in_file sp.file) sp.mem chunk),
    record {
      size_is =
          rw
            (
              v.size_is,
              ← append_assoc (in_file sp.file) sp.mem chunk,
              length-append (in_file sp.file ++ sp.mem) chunk,
            )
            refl;
      one_place = λ f. ground (arith, e, f);
    },
  )

  to_file :
      (sp : Spooler) (chunk written : Bytes)
      → IsConsistent sp
      → sp.file ≡ some written
      → Took sp chunk (record sp { file = some (written ++ chunk); size = sp.size + length chunk })
  to_file sp chunk written v e =
      let empty : sp.mem ≡ [] = v.one_place (rw e refl) in
      let now : taken sp ≡ written = rw (e, empty) (append-nil written) in
      let size : sp.size ≡ length written = v.size_is ∙ ap length now in
      (
        rw (now, empty) (append-nil (written ++ chunk)),
        record {
          size_is =
              rw (empty, append-nil (written ++ chunk), size, length-append written chunk) refl;
          one_place = λ f. empty;
        },
      )

  append_chunk-Took :
      (sp : Spooler) (chunk : Bytes)
      → IsConsistent sp
      → (append_chunk fs sp chunk).1 ≡ none
      → Took sp chunk (append_chunk fs sp chunk).0
  unfolding append_chunk
  append_chunk-Took sp chunk v ok = elim (Option-cases sp.file) [
    | inl none_yet ↦
        let e : append_chunk fs sp chunk
            ≡ (record sp { mem = sp.mem ++ chunk; size = sp.size + length chunk }, none) =
          ground arith in
        subst (λ r. Took sp chunk r.0) (sym e) (to_memory sp chunk v none_yet)
    | inr (written, open_file) ↦ elim (Bool-cases (fs.writes (length written))) [
      | inl fine ↦
          let e : append_chunk fs sp chunk ≡ (
            record sp { file = some (written ++ chunk); size = sp.size + length chunk },
            none,
          ) =
            ground arith in
          subst (λ r. Took sp chunk r.0) (sym e) (to_file sp chunk written v open_file)
      | inr full ↦ absurd (ground arith)
    ]
  ]

  pub spill-Took :
      (sp : Spooler)
      → IsConsistent sp
      → sp.file ≡ none
      → (spill fs sp).1 ≡ none
      → Took sp [] (spill fs sp).0 × (is_some (spill fs sp).0.file ≡ true)
  unfolding spill
  spill-Took sp v none_yet ok =
      let e : spill fs sp ≡ (record sp { file = some sp.mem; mem = [] }, none) = ground arith in
      let same : taken sp ≡ sp.mem = rw none_yet refl in
      subst (λ r. Took sp [] r.0 × (is_some r.0.file ≡ true)) (sym e)
        (
          (
            ap (λ (s : Bytes). s ++ []) (sym same),
            record {
              size_is = v.size_is ∙ ap length (same ∙ sym (append-nil sp.mem));
              one_place = λ f. refl;
            },
          ),
          refl,
        )

  write_chunk-Took :
      (sp : Spooler) (chunk : Bytes)
      → IsConsistent sp
      → (write_chunk fs sp chunk).1 ≡ none
      → Took sp chunk (write_chunk fs sp chunk).0
  unfolding write_chunk
  write_chunk-Took sp chunk v ok = elim (Bool-cases (use_disk sp chunk && not (is_some sp.file))) [
    | inr direct ↦ rw direct (append_chunk-Took sp chunk v (rw (direct, write_chunk) at ok))
    | inl spilled ↦ elim (Option-cases (spill fs sp).1) [
      | inr (failure, failed) ↦ absurd (ground arith)
      | inl fine ↦
          let none_yet : sp.file ≡ none = ground arith in
          let ((moved, v'), _) = spill-Took sp v none_yet fine in
          let e : write_chunk fs sp chunk ≡ append_chunk fs (spill fs sp).0 chunk =
            rw (spilled, write_chunk) (rw fine refl) in
          let (took, v'') =
            append_chunk-Took (spill fs sp).0 chunk v' (ap (λ r. r.1) (sym e) ∙ ok) in
          subst (λ r. Took sp chunk r.0) (sym e)
            (took ∙ ap (λ (s : Bytes). s ++ chunk) (moved ∙ append-nil (taken sp)), v'')
    ]
  ]

  Took-trans : (sp r q : Spooler) (s t : Bytes) → Took sp s r → Took r t q → Took sp (s ++ t) q
  Took-trans sp r q s t (moved, v) (moved', v') =
      (moved' ∙ (ap (λ (u : Bytes). u ++ t) moved ∙ append_assoc (taken sp) s t), v')

  Took-refl : (sp : Spooler) → IsConsistent sp → Took sp [] sp
  Took-refl sp v = (sym (append-nil (taken sp)), v)

  write_read-Took :
      (sp : Spooler) (chunk : Bytes)
      → IsConsistent sp
      → (write_read fs sp chunk).1 ≡ none
      → Took sp chunk (write_read fs sp chunk).0
  write_read-Took sp [] v ok = Took-refl sp v
  write_read-Took sp (b ∷ bs) v ok = write_chunk-Took sp (b ∷ bs) v ok

  -- A read that was written, and how it ends.
  pub ingest-Took :
      (sp : Spooler) (reads : List (Bytes × ReadEnd))
      → IsConsistent sp
      → (ingest fs sp reads).1 ≡ none
      → Took sp (stream_bytes reads) (ingest fs sp reads).0
  unfolding ingest stream_bytes
  ingest-Took sp [] v ok = Took-refl sp v
  ingest-Took sp ((chunk, at_end) ∷ reads) v ok = elim (Option-cases (write_read fs sp chunk).1) [
    | inr (failure, failed) ↦ absurd (ground arith)
    | inl fine ↦ rw (fine, ingest) (write_read-Took sp chunk v fine)
  ]
  ingest-Took sp ((chunk, broken) ∷ reads) v ok = elim (Option-cases (write_read fs sp chunk).1) [
    | inr (failure, failed) ↦ absurd (ground arith)
    | inl fine ↦ absurd (ground arith)
  ]
  ingest-Took sp ((chunk, more) ∷ reads) v ok = elim (Option-cases (write_read fs sp chunk).1) [
    | inr (failure, failed) ↦ absurd (ground arith)
    | inl fine ↦
        let r = (write_read fs sp chunk).0 in
        let took = write_read-Took sp chunk v fine in
        let e : ingest fs sp ((chunk, more) ∷ reads) ≡ ingest fs r reads = ground arith in
        subst (λ q. Took sp (chunk ++ stream_bytes reads) q.0) (sym e)
          (Took-trans sp r (ingest fs r reads).0 chunk (stream_bytes reads) took
            (ingest-Took r reads took.1 (ap (λ q. q.1) (sym e) ∙ ok)))
  ]
