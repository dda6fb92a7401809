-- ===== src/Sftp/Handlers/Logging.antt =====
-- What the handlers of src/sftp_handlers.cpp that change directories enter in the activity log.
use mock_services.Base.{
  ℕ, ◌+◌, ◌≡◌, refl, inl, inr, Bool, Bool-cases, if_split, true, false, Option, none, some, List,
  [], ◌∷◌, Text, text, text_eq, if◌then◌else◌,
}
use mock_services.Sftp.Messages.{
  System, Context, Message, Status, no_such_file, no_such_path, Effect, logged, made, removed,
  unlinked, renamed, can_write,
}
use mock_services.Sftp.Changes.{
  change_at, guarded, sftp_do_mkdir, sftp_do_rmdir, sftp_do_remove, rename_over, rename_to,
  rename_from, sftp_do_rename,
}
use mock_services.Sftp.Handlers.{
  handle_message, PacketType, open_, close, read, write, opendir, readdir, stat_, lstat, fstat,
  setstat, fsetstat, mkdir, rmdir, remove, rename, realpath_, unknown,
}

-- A directory entry is made, removed or renamed.
abbrev pub is_entry_change : Effect → Bool
is_entry_change (made path) = true
is_entry_change (removed path) = true
is_entry_change (unlinked path) = true
is_entry_change (renamed src dst) = true
is_entry_change _ = false

-- An entry of the log with the given result.
abbrev pub logs : Text → Effect → Bool
logs wanted (logged operation path result) = text_eq result wanted
logs wanted _ = false

abbrev pub how_many : (Effect → Bool) → List Effect → ℕ
how_many p [] = 0
how_many p (effect ∷ effects) = if p effect then how_many p effects + 1 else how_many p effects

abbrev pub changes_entries : PacketType → Bool
changes_entries mkdir = true
changes_entries rmdir = true
changes_entries remove = true
changes_entries rename = true
changes_entries _ = false

module _ (os : System) (ctx : Context) (msg : Message) where
  -- A change is logged as done, and nothing else is; none is logged as denied.
  abbrev Records : List Effect → Type 0
  Records effects =
      (how_many is_entry_change effects ≡ how_many (logs (text "OK")) effects)
      × (how_many (logs (text "DENIED")) effects ≡ 0)

  called-Records :
      (operation result : Text) (code : Status) (done : Bool) (call : Effect) (full : Text)
      → is_entry_change call ≡ true
      → logs (text "OK") call ≡ false
      → logs (text "DENIED") call ≡ false
      → text_eq result (text "OK") ≡ false
      → text_eq result (text "DENIED") ≡ false
      → Records (change_at os ctx msg operation result code done (call ∷ []) full)
  unfolding change_at text text_eq
  called-Records operation result code done call [] c l d r s = rw (r, s) (refl, refl)
  called-Records operation result code false call (b ∷ full) c l d r s = (refl, refl)
  called-Records operation result code true call (b ∷ full) c l d r s = rw (c, l, d) (refl, refl)

  rename_over-Records :
      (full_src dst full : Text) → Records (rename_over os ctx msg full_src dst full)
  unfolding rename_over text text_eq
  rename_over-Records full_src dst [] = (refl, refl)
  rename_over-Records full_src dst (b ∷ full) =
      if_split Records (os.can_rename full_src (b ∷ full)) _ _ (λ e. (refl, refl))
        (λ e. (refl, refl))

  rename_from-Records :
      (dst : Option Text) (full : Text) → Records (rename_from os ctx msg dst full)
  unfolding rename_from rename_to text text_eq
  rename_from-Records dst [] = (refl, refl)
  rename_from-Records none (b ∷ full) = (refl, refl)
  rename_from-Records (some dst) (b ∷ full) = rename_over-Records (b ∷ full) dst _

  -- What `handle_message` does, with the refusal of a user who may not write.
  abbrev pub LogsChanges : List Effect → Type 0
  LogsChanges effects =
      (how_many is_entry_change effects ≡ how_many (logs (text "OK")) effects)
      × (how_many (logs (text "DENIED")) effects ≡ (if can_write ctx.perm then 0 else 1))

  guarded-LogsChanges :
      (operation : Text) (rest : List Effect)
      → Records rest
      → LogsChanges (guarded os ctx msg operation rest)
  unfolding guarded text text_eq
  guarded-LogsChanges operation rest (same, not_denied) = elim (Bool-cases (can_write ctx.perm)) [
    | inl e ↦ rw (guarded, e) (same, not_denied)
    | inr e ↦ rw (guarded, e) (refl, refl)
  ]

  -- For MKDIR, RMDIR, REMOVE and RENAME, whatever the system answers: the activity log gets as many
  -- entries with the result OK as directory entries have been made, removed or renamed, and one entry
  -- with the result DENIED where the user may not write, and none where the user may.
  pub handle_message-LogsChanges :
      (type : PacketType)
      → changes_entries type ≡ true
      → LogsChanges (handle_message type os ctx msg)
  unfolding handle_message sftp_do_mkdir sftp_do_rmdir sftp_do_remove sftp_do_rename text text_eq
  handle_message-LogsChanges mkdir h =
      guarded-LogsChanges _ _
        (called-Records _ (text "NO_SUCH_PATH") no_such_path _ (made _) _ refl refl refl refl refl)
  handle_message-LogsChanges rmdir h =
      guarded-LogsChanges _ _ (
        called-Records _ (text "NO_SUCH_FILE") no_such_file _ (removed _) _ refl refl refl refl
          refl)
  handle_message-LogsChanges remove h = guarded-LogsChanges _ _ (
      called-Records _ (text "NO_SUCH_FILE") no_such_file _ (unlinked _) _ refl refl refl refl refl)
  handle_message-LogsChanges rename h = guarded-LogsChanges _ _ (rename_from-Records _ _)
  handle_message-LogsChanges open_ h = cc
  handle_message-LogsChanges close h = cc
  handle_message-LogsChanges read h = cc
  handle_message-LogsChanges write h = cc
  handle_message-LogsChanges opendir h = cc
  handle_message-LogsChanges readdir h = cc
  handle_message-LogsChanges stat_ h = cc
  handle_message-LogsChanges lstat h = cc
  handle_message-LogsChanges fstat h = cc
  handle_message-LogsChanges setstat h = cc
  handle_message-LogsChanges fsetstat h = cc
  handle_message-LogsChanges realpath_ h = cc
  handle_message-LogsChanges unknown h = cc
