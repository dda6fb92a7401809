-- ===== src/Sftp/Handlers/Permissions.antt =====
-- What the handlers of src/sftp_handlers.cpp do for a user without the permission to write.
use mock_services.Base.{
  ◌≡◌, refl, inl, inr, Bool, true, false, not, Option, none, some, List, [], ◌∷◌, any, arith, ltb,
  ℕ, Option-cases, Text, text, text_eq, text_eq_refl, if◌then◌else◌,
}
use mock_services.Sftp.Path.{resolve_path}
use mock_services.Sftp.Messages.{
  System, Context, Message, HandleData, file, directory, Attr, Status, eof, failure, no_such_file,
  Effect, status, sent_data, opened, wrote, made, removed, unlinked, renamed, can_write, has_flag,
  sftp_flags_to_mode, reply_or_fail,
}
use mock_services.Sftp.Files.{
  grant_handle, open_at, sftp_do_open, with_handle, sftp_do_close, read_from, sftp_do_read,
  sftp_do_write, opendir_at, sftp_do_opendir, read_entry, sftp_do_readdir, reply_attr, stat_at,
  sftp_do_stat, stat_handle, sftp_do_fstat, sftp_do_fsetstat,
}
use mock_services.Sftp.Changes.{
  guarded, sftp_do_setstat, sftp_do_mkdir, sftp_do_rmdir, sftp_do_remove, sftp_do_rename,
  reply_name, realpath_of, sftp_do_realpath,
}
use mock_services.Sftp.Handlers.{
  handle_message, PacketType, open_, close, read, write, opendir, readdir, stat_, lstat, fstat,
  setstat, fsetstat, mkdir, rmdir, remove, rename, realpath_, unknown,
}

-- The effects that change the file system; opening for anything but reading counts as one.
abbrev pub is_change : Effect → Bool
is_change (opened path mode) = not (text_eq mode (text "rb"))
is_change (wrote path offset bytes) = true
is_change (made path) = true
is_change (removed path) = true
is_change (unlinked path) = true
is_change (renamed src dst) = true
is_change _ = false

module _ (os : System) (ctx : Context) (msg : Message) (refused : can_write ctx.perm ≡ false) where
  grant-harmless :
      (operation : Text) (h : HandleData)
      → any is_change (grant_handle os ctx msg operation h) ≡ false
  unfolding grant_handle
  grant-harmless operation h = ground arith

  open_at-harmless :
      (full : Text) → has_flag msg.flags 2 ≡ false → any is_change (open_at os ctx msg full) ≡ false
  unfolding open_at sftp_flags_to_mode
  open_at-harmless [] h = refl
  open_at-harmless (b ∷ full) h =
      ground (arith, text_eq_refl (text "rb"), grant-harmless (text "OPEN") (file (b ∷ full) true))

  open-harmless : any is_change (sftp_do_open os ctx msg) ≡ false
  unfolding sftp_do_open
  open-harmless = ground (
    arith,
    refused,
    open_at-harmless (resolve_path os.realpath ctx.root msg.filename (not (has_flag msg.flags 8))),
  )

  guarded-harmless :
      (operation : Text) (rest : List Effect)
      → any is_change (guarded os ctx msg operation rest) ≡ false
  unfolding guarded
  guarded-harmless operation rest = rw refused refl

  read-harmless : any is_change (sftp_do_read os ctx msg) ≡ false
  unfolding sftp_do_read with_handle read_from
  read-harmless = elim (Option-cases msg.info) [
    | inl e ↦ rw e refl
    | inr (directory path, e) ↦ rw e refl
    | inr (file path false, e) ↦ rw e refl
    | inr (file path true, e) ↦
        rw e (split (os.contents msg.offset (if ltb 65536 msg.len then 65536 else msg.len)))
  ]
    where
      split :
          (bytes : List ℕ)
          → any is_change (
              if os.can_seek msg.offset
              then (elim bytes [
                | [] ↦ status eof ∷ []
                | b ∷ bs ↦ reply_or_fail os (sent_data (b ∷ bs))
              ])
              else status failure ∷ [])
            ≡ false
      split [] = ground arith
      split (b ∷ bs) = ground arith

  close-harmless : any is_change (sftp_do_close os ctx msg) ≡ false
  unfolding sftp_do_close with_handle
  close-harmless = ground arith

  opendir_at-harmless : (full : Text) → any is_change (opendir_at os ctx msg full) ≡ false
  unfolding opendir_at
  opendir_at-harmless [] = refl
  opendir_at-harmless (b ∷ full) =
      ground (arith, grant-harmless (text "OPENDIR") (directory (b ∷ full)))

  opendir-harmless : any is_change (sftp_do_opendir os ctx msg) ≡ false
  unfolding sftp_do_opendir
  opendir-harmless =
      ground (arith, opendir_at-harmless (resolve_path os.realpath ctx.root msg.filename true))

  readdir-harmless : any is_change (sftp_do_readdir os ctx msg) ≡ false
  unfolding sftp_do_readdir with_handle read_entry
  readdir-harmless = ground arith

  reply_attr-harmless :
      (code : Status) (attr : Option Attr) → any is_change (reply_attr os ctx msg code attr) ≡ false
  unfolding reply_attr
  reply_attr-harmless code none = refl
  reply_attr-harmless code (some attr) = ground arith

  stat_at-harmless : (full : Text) → any is_change (stat_at os ctx msg full) ≡ false
  unfolding stat_at
  stat_at-harmless [] = refl
  stat_at-harmless (b ∷ full) = reply_attr-harmless no_such_file _

  stat-harmless : any is_change (sftp_do_stat os ctx msg) ≡ false
  unfolding sftp_do_stat
  stat-harmless = stat_at-harmless _

  stat_handle-harmless : (h : HandleData) → any is_change (stat_handle os ctx msg h) ≡ false
  unfolding stat_handle
  stat_handle-harmless (directory path) = refl
  stat_handle-harmless (file path fp) = reply_attr-harmless failure _

  with_handle-harmless :
      (rest : HandleData → List Effect)
      → ((h : HandleData) → any is_change (rest h) ≡ false)
      → any is_change (with_handle os ctx msg rest) ≡ false
  unfolding with_handle
  with_handle-harmless rest h = elim (Option-cases msg.info) [
    | inl e ↦ rw e refl
    | inr (handle, e) ↦ rw (with_handle, e) (h handle)
  ]

  fstat-harmless : any is_change (sftp_do_fstat os ctx msg) ≡ false
  unfolding sftp_do_fstat
  fstat-harmless = with_handle-harmless _ stat_handle-harmless

  write-harmless : any is_change (sftp_do_write os ctx msg) ≡ false
  unfolding sftp_do_write
  write-harmless = rw refused refl

  fsetstat-harmless : any is_change (sftp_do_fsetstat os ctx msg) ≡ false
  unfolding sftp_do_fsetstat
  fsetstat-harmless = with_handle-harmless _ λ h. ground arith

  setstat-harmless : any is_change (sftp_do_setstat os ctx msg) ≡ false
  unfolding sftp_do_setstat
  setstat-harmless = guarded-harmless _ _

  mkdir-harmless : any is_change (sftp_do_mkdir os ctx msg) ≡ false
  unfolding sftp_do_mkdir
  mkdir-harmless = guarded-harmless _ _

  rmdir-harmless : any is_change (sftp_do_rmdir os ctx msg) ≡ false
  unfolding sftp_do_rmdir
  rmdir-harmless = guarded-harmless _ _

  remove-harmless : any is_change (sftp_do_remove os ctx msg) ≡ false
  unfolding sftp_do_remove
  remove-harmless = guarded-harmless _ _

  rename-harmless : any is_change (sftp_do_rename os ctx msg) ≡ false
  unfolding sftp_do_rename
  rename-harmless = guarded-harmless _ _

  realpath_of-harmless : (path : Text) → any is_change (realpath_of os ctx msg path) ≡ false
  unfolding realpath_of reply_name
  realpath_of-harmless [] = refl
  realpath_of-harmless (b ∷ path) = ground arith

  realpath-harmless : any is_change (sftp_do_realpath os ctx msg) ≡ false
  unfolding sftp_do_realpath
  realpath-harmless = ground (arith, realpath_of-harmless msg.filename)

  -- A user without the permission to write makes no call that changes the file system. What the
  -- language leaves open is not counted here.
  pub handle_message-harmless :
      (type : PacketType) → any is_change (handle_message type os ctx msg) ≡ false
  unfolding handle_message
  handle_message-harmless open_ = open-harmless
  handle_message-harmless close = close-harmless
  handle_message-harmless read = read-harmless
  handle_message-harmless write = write-harmless
  handle_message-harmless opendir = opendir-harmless
  handle_message-harmless readdir = readdir-harmless
  handle_message-harmless stat_ = stat-harmless
  handle_message-harmless lstat = stat-harmless
  handle_message-harmless fstat = fstat-harmless
  handle_message-harmless setstat = setstat-harmless
  handle_message-harmless fsetstat = fsetstat-harmless
  handle_message-harmless mkdir = mkdir-harmless
  handle_message-harmless rmdir = rmdir-harmless
  handle_message-harmless remove = remove-harmless
  handle_message-harmless rename = rename-harmless
  handle_message-harmless realpath_ = realpath-harmless
  handle_message-harmless unknown = refl
