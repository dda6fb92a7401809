-- ===== src/Sftp/Handlers/Kinds.antt =====
-- The handlers of src/sftp_handlers.cpp for a message whose handle is of the kind that they take it for.
use mock_services.Base.{
  ◌≡◌, refl, inl, inr, Bool, true, false, not, ◌||◌, Option, Option-cases, none, some, List, [],
  ◌∷◌, any, any-append, arith, ltb, ℕ, Text, text, if◌then◌else◌,
}
use mock_services.Sftp.Path.{resolve_path}
use mock_services.Sftp.Messages.{
  System, Context, Message, HandleData, file, directory, Attr, Status, eof, failure, no_such_file,
  Effect, status, sent_data, confused, can_write, has_flag, reply_or_fail,
}
use mock_services.Sftp.Files.{
  grant_handle, open_at, sftp_do_open, with_handle, sftp_do_close, read_from, sftp_do_read,
  write_to, sftp_do_write, opendir_at, sftp_do_opendir, read_entry, sftp_do_readdir, reply_attr,
  stat_at, sftp_do_stat, stat_handle, sftp_do_fstat, sftp_do_fsetstat,
}
use mock_services.Sftp.Changes.{
  change_at, guarded, sftp_do_setstat, sftp_do_mkdir, sftp_do_rmdir, sftp_do_remove, rename_over,
  rename_to, rename_from, sftp_do_rename, reply_name, realpath_of, sftp_do_realpath,
}
use mock_services.Sftp.Handlers.{
  handle_message, PacketType, open_, close, read, write, opendir, readdir, stat_, lstat, fstat,
  setstat, fsetstat, mkdir, rmdir, remove, rename, realpath_, unknown,
}
use mock_services.Sftp.Handlers.Replies.{fits}
use mock_services.Sftp.Handlers.Permissions.{is_change, handle_message-harmless}
use mock_services.Sftp.Handlers.Confinement.{escapes, names_inside, handle_message-stays_inside}

abbrev pub is_confused : Effect → Bool
is_confused confused = true
is_confused _ = false

-- The effects that change the file system, and what the language leaves open.
abbrev pub may_change : Effect → Bool
may_change e = is_change e || is_confused e

-- The effects on a path outside, and what the language leaves open.
abbrev pub may_escape : Text → Effect → Bool
may_escape root e = escapes root e || is_confused e

any-or {ℓ} :
    {A : Type ℓ} (p q : A → Bool) (xs : List A)
    → any p xs ≡ false
    → any q xs ≡ false
    → any (λ x. p x || q x) xs ≡ false
any-or p q [] h k = refl
any-or p q (x ∷ xs) h k = ground (arith, any-or p q xs)

module _ (os : System) (ctx : Context) (msg : Message) where
  -- No handle is taken for one of the other kind.
  abbrev Knows : List Effect → Type 0
  Knows effects = any is_confused effects ≡ false

  grant-Knows : (operation : Text) (h : HandleData) → Knows (grant_handle os ctx msg operation h)
  unfolding grant_handle
  grant-Knows operation h = ground arith

  open_at-Knows : (full : Text) → Knows (open_at os ctx msg full)
  unfolding open_at
  open_at-Knows [] = refl
  open_at-Knows (b ∷ full) = ground (arith, grant-Knows (text "OPEN") (file (b ∷ full) true))

  open-Knows : Knows (sftp_do_open os ctx msg)
  unfolding sftp_do_open
  open-Knows = ground (
    arith,
    open_at-Knows (resolve_path os.realpath ctx.root msg.filename (not (has_flag msg.flags 8))),
  )

  change-Knows :
      (operation result : Text) (code : Status) (done : Bool) (effects : List Effect) (full : Text)
      → Knows effects
      → Knows (change_at os ctx msg operation result code done effects full)
  unfolding change_at
  change-Knows operation result code done effects [] h = refl
  change-Knows operation result code false effects (b ∷ full) h = refl
  change-Knows operation result code true effects (b ∷ full) h =
      rw (any-append is_confused effects, h) refl

  guarded-Knows :
      (operation : Text) (rest : List Effect)
      → Knows rest
      → Knows (guarded os ctx msg operation rest)
  unfolding guarded
  guarded-Knows operation rest h = ground arith

  opendir_at-Knows : (full : Text) → Knows (opendir_at os ctx msg full)
  unfolding opendir_at
  opendir_at-Knows [] = refl
  opendir_at-Knows (b ∷ full) = ground (arith, grant-Knows (text "OPENDIR") (directory (b ∷ full)))

  opendir-Knows : Knows (sftp_do_opendir os ctx msg)
  unfolding sftp_do_opendir
  opendir-Knows =
      ground (arith, opendir_at-Knows (resolve_path os.realpath ctx.root msg.filename true))

  reply_attr-Knows : (code : Status) (attr : Option Attr) → Knows (reply_attr os ctx msg code attr)
  unfolding reply_attr
  reply_attr-Knows code none = refl
  reply_attr-Knows code (some attr) = ground arith

  stat_at-Knows : (full : Text) → Knows (stat_at os ctx msg full)
  unfolding stat_at
  stat_at-Knows [] = refl
  stat_at-Knows (b ∷ full) = reply_attr-Knows no_such_file _

  stat-Knows : Knows (sftp_do_stat os ctx msg)
  unfolding sftp_do_stat
  stat-Knows = stat_at-Knows _

  rename_over-Knows : (full_src dst full : Text) → Knows (rename_over os ctx msg full_src dst full)
  unfolding rename_over
  rename_over-Knows full_src dst [] = refl
  rename_over-Knows full_src dst (b ∷ full) = ground arith

  rename_from-Knows : (dst : Option Text) (full : Text) → Knows (rename_from os ctx msg dst full)
  unfolding rename_from rename_to
  rename_from-Knows dst [] = refl
  rename_from-Knows none (b ∷ full) = refl
  rename_from-Knows (some dst) (b ∷ full) = rename_over-Knows (b ∷ full) dst _

  realpath_of-Knows : (path : Text) → Knows (realpath_of os ctx msg path)
  unfolding realpath_of reply_name
  realpath_of-Knows [] = refl
  realpath_of-Knows (b ∷ path) = ground arith

  realpath-Knows : Knows (sftp_do_realpath os ctx msg)
  unfolding sftp_do_realpath
  realpath-Knows = ground (arith, realpath_of-Knows msg.filename)

  with_handle-Knows :
      (rest : HandleData → List Effect) (type : PacketType)
      → fits type msg.info ≡ true
      → ((h : HandleData) → fits type (some h) ≡ true → Knows (rest h))
      → Knows (with_handle os ctx msg rest)
  unfolding with_handle
  with_handle-Knows rest type fit h = elim (Option-cases msg.info) [
    | inl e ↦ rw e refl
    | inr (handle, e) ↦ rw (with_handle, e) (h handle (rw e at fit))
  ]

  read_from-Knows : (h : HandleData) → fits read (some h) ≡ true → Knows (read_from os ctx msg h)
  unfolding read_from
  read_from-Knows (directory path) fit = cc
  read_from-Knows (file path false) fit = refl
  read_from-Knows (file path true) fit =
      split (os.contents msg.offset (if ltb 65536 msg.len then 65536 else msg.len))
    where
      split :
          (bytes : List ℕ)
          → Knows (
              if os.can_seek msg.offset
              then (elim bytes [
                | [] ↦ status eof ∷ []
                | b ∷ bs ↦ reply_or_fail os (sent_data (b ∷ bs))
              ])
              else status failure ∷ [])
      split [] = ground arith
      split (b ∷ bs) = ground arith

  write_to-Knows : (h : HandleData) → fits write (some h) ≡ true → Knows (write_to os ctx msg h)
  unfolding write_to
  write_to-Knows (directory path) fit = cc
  write_to-Knows (file path false) fit = refl
  write_to-Knows (file path true) fit = ground arith

  read_entry-Knows :
      (h : HandleData) → fits readdir (some h) ≡ true → Knows (read_entry os ctx msg h)
  unfolding read_entry
  read_entry-Knows (file path fp) fit = cc
  read_entry-Knows (directory path) fit = ground arith

  stat_handle-Knows :
      (h : HandleData) → fits fstat (some h) ≡ true → Knows (stat_handle os ctx msg h)
  unfolding stat_handle
  stat_handle-Knows (directory path) fit = cc
  stat_handle-Knows (file path fp) fit = reply_attr-Knows failure _

  -- No handler takes a handle for one of the other kind where the message's is of the right one.
  handle_message-Knows :
      (type : PacketType) → fits type msg.info ≡ true → Knows (handle_message type os ctx msg)
  unfolding handle_message sftp_do_read sftp_do_readdir sftp_do_fstat sftp_do_fsetstat sftp_do_close
      sftp_do_setstat sftp_do_mkdir sftp_do_rmdir sftp_do_remove sftp_do_rename sftp_do_write
  handle_message-Knows open_ fit = open-Knows
  handle_message-Knows close fit = with_handle-Knows _ close fit λ h _. ground arith
  handle_message-Knows read fit = with_handle-Knows _ read fit read_from-Knows
  handle_message-Knows write fit =
      ground (arith, with_handle-Knows (write_to os ctx msg) write fit write_to-Knows)
  handle_message-Knows opendir fit = opendir-Knows
  handle_message-Knows readdir fit = with_handle-Knows _ readdir fit read_entry-Knows
  handle_message-Knows stat_ fit = stat-Knows
  handle_message-Knows lstat fit = stat-Knows
  handle_message-Knows fstat fit = with_handle-Knows _ fstat fit stat_handle-Knows
  handle_message-Knows setstat fit = guarded-Knows _ _ (change-Knows _ _ _ _ _ _ refl)
  handle_message-Knows fsetstat fit = with_handle-Knows _ fsetstat fit λ h _. ground arith
  handle_message-Knows mkdir fit = guarded-Knows _ _ (change-Knows _ _ _ _ _ _ refl)
  handle_message-Knows rmdir fit = guarded-Knows _ _ (change-Knows _ _ _ _ _ _ refl)
  handle_message-Knows remove fit = guarded-Knows _ _ (change-Knows _ _ _ _ _ _ refl)
  handle_message-Knows rename fit = guarded-Knows _ _ (rename_from-Knows _ _)
  handle_message-Knows realpath_ fit = realpath-Knows
  handle_message-Knows unknown fit = refl

  -- A user without the permission to write changes nothing on the file system by a message whose
  -- handle, if it has one, is of the kind that its handler takes it for, whatever the system answers:
  -- no file is written, made, removed or renamed, none is opened for writing, and nothing is done
  -- whose outcome the language leaves open.
  pub handle_message-changes_nothing :
      (type : PacketType)
      → can_write ctx.perm ≡ false
      → fits type msg.info ≡ true
      → any may_change (handle_message type os ctx msg) ≡ false
  handle_message-changes_nothing type refused fit =
      any-or is_change is_confused (handle_message type os ctx msg)
        (handle_message-harmless os ctx msg refused type) (handle_message-Knows type fit)

  -- Where the handle that a message names is of the kind that its handler takes it for and its path
  -- begins with the text of the user's root, so does every path that the handler opens, lists,
  -- writes to, makes, removes or renames and that of every handle that it gives out or closes, and
  -- nothing is done whose outcome the language leaves open. A path in a directory beside the root
  -- whose name begins with the root's name begins with that text too. A message without a handle
  -- needs no condition.
  pub handle_message-keeps_prefix :
      (type : PacketType)
      → names_inside ctx.root msg.info ≡ true
      → fits type msg.info ≡ true
      → any (may_escape ctx.root) (handle_message type os ctx msg) ≡ false
  handle_message-keeps_prefix type named fit =
      any-or (escapes ctx.root) is_confused (handle_message type os ctx msg)
        (handle_message-stays_inside os ctx msg type named) (handle_message-Knows type fit)
