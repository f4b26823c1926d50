-- ===== src/Ingestion/Moves.antt =====
-- What `mark_processed` does to the folder of a local mailbox.
use invoice_to_payment_agent.Prelude.{
  not, ◌&&◌, ℕ, ◌+◌, ◌≡◌, refl, Bool, true, false, ◌||◌, Option, none, some, List, [], ◌∷◌, length,
  select, In, All, inl, inr, Bool-cases, arith,
}
use invoice_to_payment_agent.Prelude.Text.{Text, text_eq, text_eq_refl, text_or}
use invoice_to_payment_agent.Ingestion.Folder.{
  Entry, Folder, Paths, message_of, without, is_id, has_id, finds, move_entry, mark_processed,
}

-- How many entries of a folder pass a test, processed or not.
abbrev pub count_entries : (Entry → Bool) → List Entry → List Entry → ℕ
count_entries test left moved = length (select test left) + length (select test moved)

-- No entry has the name.
abbrev pub is_new : Text → List Entry → Bool
is_new name [] = true
is_new name (entry ∷ es) = not (text_eq entry.name name) && is_new name es

without-new : (name : Text) (es : List Entry) → is_new name es ≡ true → without name es ≡ es
unfolding without
without-new name [] h = refl
without-new name (entry ∷ es) h = elim (Bool-cases (text_eq entry.name name)) [
  | inl t ↦ cc (rw t at h)
  | inr f ↦ rw (f, without-new name es (rw f at h)) refl
]

module _ (paths : Paths) where
  own_id :
      (id digest : Text) (sidecar_id : Option Text)
      → id ≡ text_or sidecar_id digest
      → (text_eq id digest || is_id paths id sidecar_id) ≡ true
  own_id id digest none e = rw (e, text_eq_refl digest) refl
  own_id id digest (some []) e = rw (e, text_eq_refl digest) refl
  own_id id digest (some (c ∷ t)) e = rw (e, text_eq_refl (c ∷ t)) (ground arith)

  has_own_id :
      (entry : Entry)
      → entry.is_dir ≡ false
      → has_id paths (message_of paths entry).message_id entry ≡ true
  unfolding has_id
  has_own_id entry e = rw (e, own_id _ (paths.digest entry.name) entry.sidecar.message_id refl) refl

  finds-In :
      (id : Text) (entry : Entry) (es : List Entry)
      → In entry es
      → has_id paths id entry ≡ true
      → finds paths id es ≡ true
  unfolding finds
  finds-In id entry [] h own = elim h [ ]
  finds-In id entry (e ∷ es) (inl same) own =
      let here : has_id paths id e ≡ true = rw same at own in rw here refl
  finds-In id entry (e ∷ es) (inr later) own =
      let rest = finds-In id entry es later own in ground arith

  move_entry-length :
      (id : Text) (entry : Entry) (es moved : List Entry)
      → In entry es
      → has_id paths id entry ≡ true
      → length (move_entry paths id es moved).0 + 1 ≡ length es
  unfolding move_entry
  move_entry-length id entry [] moved h own = elim h [ ]
  move_entry-length id entry (e ∷ es) moved (inl same) own =
      let here : has_id paths id e ≡ true = rw same at own in rw here (omega arith)
  move_entry-length id entry (e ∷ es) moved (inr later) own =
      let rest = move_entry-length id entry es moved later own in
      elim (Bool-cases (has_id paths id e)) [
        | inl t ↦ rw t (omega arith)
        | inr f ↦ rw f (omega (arith, rest))
      ]

  move_entry-count :
      (id : Text) (test : Entry → Bool) (es moved : List Entry)
      → All (λ (entry : Entry). is_new entry.name moved ≡ true) es
      → let (left, moved') = move_entry paths id es moved in
        count_entries test left moved' ≡ count_entries test es moved
  unfolding move_entry
  move_entry-count id test [] moved new = refl
  move_entry-count id test (e ∷ es) moved (here, there) =
      let rest = move_entry-count id test es moved there in
      elim (Bool-cases (has_id paths id e)) [
        | inl t ↦ rw (t, without-new e.name moved here) (ground arith)
        | inr f ↦ rw f (ground arith)
      ]

  -- Where no processed file has the name of an entry of the folder: when the message of a file in
  -- the folder is marked as processed, exactly one entry leaves the folder, the directory
  -- `processed` not counted, and none is lost or doubled: of every kind there are as many as before
  -- in the folder and among the processed ones together. The directory `processed` is then there.
  pub mark_processed-moves_one :
      (entry : Entry) (folder : Folder) (test : Entry → Bool)
      → In entry folder.entries
      → All (λ (e : Entry). is_new e.name folder.processed ≡ true) folder.entries
      → entry.is_dir ≡ false
      → let after = mark_processed paths (message_of paths entry).message_id folder in
        (length after.entries + 1 ≡ length folder.entries)
        × (count_entries test after.entries after.processed
            ≡ count_entries test folder.entries folder.processed)
        × (after.has_processed_dir ≡ true)
  unfolding mark_processed
  mark_processed-moves_one entry folder test listed new file =
      let id = (message_of paths entry).message_id in
      (
        move_entry-length id entry folder.entries folder.processed listed (has_own_id entry file),
        move_entry-count id test folder.entries folder.processed new,
        rw (finds-In id entry folder.entries listed (has_own_id entry file)) (ground arith),
      )
