-- ===== src/Ingestion/Folder.antt =====
-- `LocalFolderMailbox` of ingestion/mailbox/local.py: a mailbox in a folder.
use invoice_to_payment_agent.Prelude.{
  ℕ, Bool, true, false, not, ◌||◌, ◌&&◌, Option, none, some, List, [], ◌∷◌, ◌++◌, length, ltb, leb,
  ◌==◌, if◌then◌else◌, or_else,
}
use invoice_to_payment_agent.Prelude.Text.{Text, codes, text_eq, lower, text_or}
use invoice_to_payment_agent.Service.Poll.{EmailAttachment, EmailMessage, MailboxClient}
use invoice_to_payment_agent.Ingestion.Suffixes.{supported_suffixes, has_text}

-- What `_read_sidecar` reads for a file: the keys of its sidecar, if it has one.
pub record Sidecar : Type 0 where
  pub message_id : Option Text
  pub subject : Option Text
  pub sender : Option Text
  pub body : Option Text

pub record Entry : Type 0 where
  pub name : Text
  pub is_dir : Bool
  pub size_bytes : ℕ
  pub sidecar : Sidecar

-- The folder: whether it is there and has the directory `processed`, its other entries in the order
-- of `iterdir`, and the entries of that directory. Both loops skip `processed` as they skip every
-- directory, so it does not stand among the entries.
pub record Folder : Type 0 where
  pub is_there : Bool
  pub has_processed_dir : Bool
  pub entries : List Entry
  pub processed : List Entry

-- `pathlib`, `mimetypes` and the first 24 digits of SHA-256.
pub record Paths : Type 0 where
  pub root : Text
  pub join : Text → Text → Text
  pub suffix : Text → Text
  pub stem : Text → Text
  pub guess_type : Text → Option Text
  pub digest : Text → Text

-- `s <= t`, by code points
unfoldable pub text_leb : Text → Text → Bool
text_leb [] t = true
text_leb (a ∷ s) [] = false
text_leb (a ∷ s) (b ∷ t) = ltb a b || (a == b && text_leb s t)

unfoldable pub insert_entry : Entry → List Entry → List Entry
unfolding text_leb
insert_entry entry [] = entry ∷ []
insert_entry entry (e ∷ es) =
    let rest = insert_entry entry es in
    if text_leb entry.name e.name then entry ∷ e ∷ es else e ∷ rest

-- `sorted(self.root.iterdir())`
unfoldable pub sorted_entries : List Entry → List Entry
unfolding insert_entry
sorted_entries [] = []
sorted_entries (entry ∷ es) = insert_entry entry (sorted_entries es)

abbrev is_hidden : Text → Bool
is_hidden [] = false
is_hidden (c ∷ _) = c == b'.'

-- The entries of other names.
unfoldable pub without : Text → List Entry → List Entry
unfolding text_eq
without name [] = []
without name (entry ∷ es) =
    let rest = without name es in if text_eq entry.name name then rest else entry ∷ rest

module _ (paths : Paths) where
  -- The two tests that skip an entry.
  unfoldable pub is_message : Entry → Bool
  unfolding lower text_eq
  is_message entry =
      not
        (entry.is_dir || is_hidden entry.name || text_eq (paths.suffix entry.name) (codes ".json"))
      && has_text (lower (paths.suffix entry.name)) supported_suffixes

  abbrev attachment_of : Entry → EmailAttachment
  attachment_of entry = record {
    filename = entry.name;
    content_type = text_or (paths.guess_type entry.name) (codes "application/octet-stream");
    size_bytes = entry.size_bytes;
    local_path = paths.join paths.root entry.name;
  }

  abbrev pub message_of : Entry → EmailMessage
  message_of entry = record {
    message_id = text_or entry.sidecar.message_id (paths.digest entry.name);
    subject = or_else entry.sidecar.subject (codes "Invoice: " ++ paths.stem entry.name);
    sender = or_else entry.sidecar.sender (codes "ap-inbox@example.com");
    body_text = or_else entry.sidecar.body [];
    mailbox = paths.root;
    attachments = attachment_of entry ∷ [];
  }

  -- The loop over the sorted entries.
  unfoldable pub fetch_from : ℕ → List EmailMessage → List Entry → List EmailMessage
  unfolding is_message
  fetch_from limit messages [] = messages
  fetch_from limit messages (entry ∷ es) =
      let more = fetch_from limit (messages ++ (message_of entry ∷ [])) es in
      let rest = fetch_from limit messages es in
      if leb limit (length messages) then messages else (if is_message entry then more else rest)

  unfoldable pub fetch_messages : ℕ → Folder → List EmailMessage
  unfolding fetch_from sorted_entries
  fetch_messages limit folder =
      if folder.is_there then fetch_from limit [] (sorted_entries folder.entries) else []

  abbrev pub is_id : Text → Option Text → Bool
  is_id id none = false
  is_id id (some other) = text_eq id other

  -- The test of `mark_processed`.
  unfoldable pub has_id : Text → Entry → Bool
  unfolding text_eq
  has_id id entry =
      not entry.is_dir
      && (text_eq id (paths.digest entry.name) || is_id id entry.sidecar.message_id)

  -- The first entry of the identifier is moved; a processed file of its name is overwritten, as
  -- `shutil.move` does on POSIX systems.
  unfoldable pub move_entry : Text → List Entry → List Entry → List Entry × List Entry
  unfolding has_id without
  move_entry id [] moved = ([], moved)
  move_entry id (entry ∷ es) moved =
      let (rest, moved') = move_entry id es moved in
      if has_id id entry then (es, entry ∷ without entry.name moved) else (entry ∷ rest, moved')

  -- Whether some entry has the identifier.
  unfoldable pub finds : Text → List Entry → Bool
  unfolding has_id
  finds id [] = false
  finds id (entry ∷ es) = has_id id entry || finds id es

  -- `processed` is made when an entry is moved, if it is not there.
  unfoldable pub mark_processed : Text → Folder → Folder
  unfolding move_entry finds
  mark_processed id folder =
      let (left, moved) = move_entry id folder.entries folder.processed in
      record folder {
        has_processed_dir = folder.has_processed_dir || finds id folder.entries;
        entries = left;
        processed = moved;
      }

  -- `self.processed_dir.mkdir(parents=True, exist_ok=True)` of `fetch_messages`
  abbrev pub make_processed_dir : Folder → Folder
  make_processed_dir folder = record folder {
    has_processed_dir = folder.has_processed_dir || folder.is_there;
  }

  -- The folder as a mailbox.
  abbrev pub folder_mailbox : MailboxClient Folder
  folder_mailbox = record {
    fetch_messages = λ limit folder. (fetch_messages limit folder, make_processed_dir folder);
    mark_processed = mark_processed;
  }
