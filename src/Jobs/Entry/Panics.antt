-- ===== src/Jobs/Entry/Panics.antt =====
-- runtime/entry_async.go: when the registration of an entry panics.
use sdk_api.Base.{
  String, ◌≡◌, refl, sym, ap, ◌∙◌, ◌≢◌, ◌↔◌, ◌⊎◌, inl, inr, Bool, true, false, not, ◌&&◌, Option,
  none, some, List, arith, ◌==◌, ==_iff, nat_eq, string_eq, Bool-cases, Option-cases, contains,
}
use sdk_api.Base.Decimal.{ℤ}
use sdk_api.Jobs.Entry.{
  AsyncReassignConf, AsyncStoreConf, EntryDef, ManagerConf, registered, no_path, no_handler,
  panicked, resolve_async_path, manager_of, register_async,
}

-- The entry has a section for its store, but none for reassigning.
abbrev pub MissesReassign : EntryDef → Type 0
MissesReassign entry =
    (conf : AsyncStoreConf) × (entry.async_store ≡ some conf) × (conf.reassign ≡ none)

pub some-injective {ℓ} : {A : Type ℓ} (a b : A) → some a ≡ some b → a ≡ b
some-injective a b e = cc

pub some_not_none {ℓ} : {A : Type ℓ} (a : A) → some a ≢ none
some_not_none a e = cc

pub registered_not_panicked : (m : ManagerConf) → registered m ≢ panicked
registered_not_panicked m e = cc

not_panicked_path : no_path ≢ panicked
not_panicked_path e = cc

not_panicked_handler : no_handler ≢ panicked
not_panicked_handler e = cc

known_handler :
    (empty has : Bool) (handler : String)
    → (empty ≡ true → handler ≡ "")
    → (not empty && not has) ≡ false
    → (handler ≡ "") ⊎ (has ≡ true)
known_handler true has handler named known = inl (named refl)
known_handler false true handler named known = inr refl
known_handler false false handler named known = absurd (cc)

module _ (parse_duration : String → Option ℤ) where
  has_reassign :
      (entry : EntryDef) (conf : AsyncStoreConf) (reassign : AsyncReassignConf)
      → entry.async_store ≡ some conf
      → conf.reassign ≡ some reassign
      → ¬ MissesReassign entry
  has_reassign entry conf reassign is found (conf', is', missing) =
      let same : conf ≡ conf' = some-injective conf conf' (sym is ∙ is') in
      some_not_none reassign (sym found ∙ ap (λ (c : AsyncStoreConf). c.reassign) same ∙ missing)

  manager_of_panics :
      (path : String) (has : Bool) (entry : EntryDef)
      → (manager_of parse_duration path has entry ≡ panicked) ↔ MissesReassign entry
  unfolding manager_of
  manager_of_panics path has entry = elim (Option-cases entry.async_store) [
    | inl nothing ↦ (
      λ e. absurd (registered_not_panicked _ (rw (manager_of, nothing) at e)),
      λ (conf, is, missing). absurd (some_not_none conf (sym is ∙ nothing)),
    )
    | inr (conf, is) ↦ elim (Option-cases conf.reassign) [
      | inl missing ↦ (λ e. (conf, is, missing), λ m. rw (manager_of, is, missing) refl)
      | inr (reassign, found) ↦ (
        λ e. absurd (registered_not_panicked _ (rw (manager_of, is, found) at e)),
        λ m. absurd (has_reassign entry conf reassign is found m),
      )
    ]
  ]

  -- Registering an asynchronous entry panics exactly where it has a path or a resource, names no
  -- handler or one that is there, and has a section for its store without one for reassigning.
  pub register_async_panics_iff :
      (handlers : List String) (prefix : String) (entry : EntryDef)
      → (register_async parse_duration handlers prefix entry ≡ panicked) ↔ (
          (resolve_async_path prefix entry ≢ "")
          × ((entry.handler ≡ "") ⊎ (contains handlers entry.handler ≡ true))
          × MissesReassign entry)
  unfolding register_async
  register_async_panics_iff handlers prefix entry =
      let path = resolve_async_path prefix entry in
      let has = contains handlers entry.handler in
      elim (Bool-cases (path == "")) [
        | inl empty ↦ (
          λ e. absurd (not_panicked_path (rw (register_async, empty) at e)),
          λ (given, _, _). absurd (given ((==_iff path "").0 empty)),
        )
        | inr given ↦ elim (Bool-cases (not (entry.handler == "") && not has)) [
          | inl unknown ↦ (
            λ e. absurd (not_panicked_handler (rw (register_async, given, unknown) at e)),
            λ (_, known, _). absurd (ground (arith, unknown, known, ==_iff entry.handler "")),
          )
          | inr known ↦ (
            λ e. (
              (λ p. ground (arith, given, p, ==_iff path "")),
              known_handler (entry.handler == "") has entry.handler (==_iff entry.handler "").0
                  known,
              (manager_of_panics path has entry).0 (rw (register_async, given, known) at e),
            ),
            λ (_, _, missing).
                rw (register_async, given, known) ((manager_of_panics path has entry).1 missing),
          )
        ]
      ]
