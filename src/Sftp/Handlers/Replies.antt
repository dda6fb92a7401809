-- ===== src/Sftp/Handlers/Replies.antt =====
-- How the handlers of src/sftp_handlers.cpp answer the client.
use mock_services.Base.{
  ℕ, ◌+◌, ◌≡◌, refl, inl, inr, Bool, true, false, not, Option, Option-cases, none, some, List, [],
  ◌∷◌, ◌++◌, arith, ltb, if◌then◌else◌, Text, text,
}
use mock_services.Sftp.Path.{resolve_path}
use mock_services.Sftp.Messages.{
  System, Context, Message, HandleData, file, directory, Attr, Status, eof, failure, no_such_file,
  fx_ok, Effect, status, sent_handle, sent_data, sent_name, sent_attr, logged, has_flag,
  reply_or_fail,
}
use mock_services.Sftp.Files.{
  grant_handle, open_at, sftp_do_open, with_handle, sftp_do_close, read_from, sftp_do_read,
  write_to, sftp_do_write, opendir_at, sftp_do_opendir, read_entry, sftp_do_readdir, reply_attr,
  stat_at, sftp_do_stat, stat_handle, sftp_do_fstat, sftp_do_fsetstat,
}
use mock_services.Sftp.Changes.{
  change_at, guarded, sftp_do_setstat, sftp_do_mkdir, sftp_do_rmdir, sftp_do_remove, rename_over,
  rename_to, rename_from, realpath_of, sftp_do_rename, reply_name, sftp_do_realpath,
}
use mock_services.Sftp.Handlers.{
  handle_message, PacketType, open_, close, read, write, opendir, readdir, stat_, lstat, fstat,
  setstat, fsetstat, mkdir, rmdir, remove, rename, realpath_, unknown,
}

-- How many of the effects are messages to the client.
abbrev pub replies : List Effect → ℕ
replies [] = 0
replies (status code ∷ effects) = replies effects + 1
replies (sent_handle h ∷ effects) = replies effects + 1
replies (sent_data bytes ∷ effects) = replies effects + 1
replies (sent_name name attr ∷ effects) = replies effects + 1
replies (sent_attr attr ∷ effects) = replies effects + 1
replies (_ ∷ effects) = replies effects

-- The handle, if there is one, is of the kind that the handler takes it for.
abbrev pub fits : PacketType → Option HandleData → Bool
fits read (some (directory path)) = false
fits write (some (directory path)) = false
fits fstat (some (directory path)) = false
fits readdir (some (file path fp)) = false
fits _ _ = true

module _ (os : System) (ctx : Context) (msg : Message) (can_reply : os.can_reply ≡ true) where
  refuse-replies :
      (operation path result : Text) (code : Status)
      → replies (logged operation path result ∷ status code ∷ []) ≡ 1
  refuse-replies operation path result code = refl

  grant-replies :
      (operation : Text) (h : HandleData) → replies (grant_handle os ctx msg operation h) ≡ 1
  unfolding grant_handle
  grant-replies operation h = ground arith

  open_at-replies : (full : Text) → replies (open_at os ctx msg full) ≡ 1
  unfolding open_at
  open_at-replies [] = refl
  open_at-replies (b ∷ full) = ground (arith, grant-replies (text "OPEN") (file (b ∷ full) true))

  open-replies : replies (sftp_do_open os ctx msg) ≡ 1
  unfolding sftp_do_open
  open-replies = ground (
    arith,
    open_at-replies (resolve_path os.realpath ctx.root msg.filename (not (has_flag msg.flags 8))),
  )

  with_handle-replies :
      (rest : HandleData → List Effect) (type : PacketType)
      → fits type msg.info ≡ true
      → ((h : HandleData) → fits type (some h) ≡ true → replies (rest h) ≡ 1)
      → replies (with_handle os ctx msg rest) ≡ 1
  unfolding with_handle
  with_handle-replies rest type fit h = elim (Option-cases msg.info) [
    | inl e ↦ rw e refl
    | inr (handle, e) ↦ rw (with_handle, e) (h handle (rw e at fit))
  ]

  close-replies : replies (sftp_do_close os ctx msg) ≡ 1
  unfolding sftp_do_close
  close-replies = with_handle-replies _ close refl λ h _. refl

  send-replies : (reply : Effect) → replies (reply ∷ []) ≡ 1 → replies (reply_or_fail os reply) ≡ 1
  send-replies reply h = rw can_reply h

  read_from-replies :
      (h : HandleData) → fits read (some h) ≡ true → replies (read_from os ctx msg h) ≡ 1
  unfolding read_from
  read_from-replies (directory path) h = cc
  read_from-replies (file path false) h = refl
  read_from-replies (file path true) h =
      split (os.contents msg.offset (if ltb 65536 msg.len then 65536 else msg.len))
    where
      split :
          (bytes : List ℕ)
          → replies (
              if os.can_seek msg.offset
              then (elim bytes [
                | [] ↦ status eof ∷ []
                | b ∷ bs ↦ reply_or_fail os (sent_data (b ∷ bs))
              ])
              else status failure ∷ [])
            ≡ 1
      split [] = ground arith
      split (b ∷ bs) = ground arith

  write_to-replies :
      (h : HandleData) → fits write (some h) ≡ true → replies (write_to os ctx msg h) ≡ 1
  unfolding write_to
  write_to-replies (directory path) h = cc
  write_to-replies (file path false) h = refl
  write_to-replies (file path true) h = ground arith

  write-replies : fits write msg.info ≡ true → replies (sftp_do_write os ctx msg) ≡ 1
  unfolding sftp_do_write
  write-replies fit =
      ground (arith, with_handle-replies (write_to os ctx msg) write fit write_to-replies)

  opendir_at-replies : (full : Text) → replies (opendir_at os ctx msg full) ≡ 1
  unfolding opendir_at
  opendir_at-replies [] = refl
  opendir_at-replies (b ∷ full) =
      ground (arith, grant-replies (text "OPENDIR") (directory (b ∷ full)))

  opendir-replies : replies (sftp_do_opendir os ctx msg) ≡ 1
  unfolding sftp_do_opendir
  opendir-replies =
      ground (arith, opendir_at-replies (resolve_path os.realpath ctx.root msg.filename true))

  read_entry-replies :
      (h : HandleData) → fits readdir (some h) ≡ true → replies (read_entry os ctx msg h) ≡ 1
  unfolding read_entry
  read_entry-replies (file path fp) h = cc
  read_entry-replies (directory path) h = ground arith

  reply_attr-replies :
      (code : Status) (attr : Option Attr) → replies (reply_attr os ctx msg code attr) ≡ 1
  unfolding reply_attr
  reply_attr-replies code none = refl
  reply_attr-replies code (some attr) = ground arith

  stat_at-replies : (full : Text) → replies (stat_at os ctx msg full) ≡ 1
  unfolding stat_at
  stat_at-replies [] = refl
  stat_at-replies (b ∷ full) = reply_attr-replies no_such_file _

  stat-replies : replies (sftp_do_stat os ctx msg) ≡ 1
  unfolding sftp_do_stat
  stat-replies = stat_at-replies _

  stat_handle-replies :
      (h : HandleData) → fits fstat (some h) ≡ true → replies (stat_handle os ctx msg h) ≡ 1
  unfolding stat_handle
  stat_handle-replies (directory path) h = cc
  stat_handle-replies (file path fp) h = reply_attr-replies failure _

  change-replies :
      (operation result : Text) (code : Status) (done : Bool) (effects : List Effect) (full : Text)
      → replies (effects ++ (status fx_ok ∷ logged operation msg.filename (text "OK") ∷ [])) ≡ 1
      → replies (change_at os ctx msg operation result code done effects full) ≡ 1
  unfolding change_at
  change-replies operation result code done effects [] h = refl
  change-replies operation result code true effects (b ∷ full) h = h
  change-replies operation result code false effects (b ∷ full) h = refl

  guarded-replies :
      (operation : Text) (rest : List Effect)
      → replies rest ≡ 1
      → replies (guarded os ctx msg operation rest) ≡ 1
  unfolding guarded
  guarded-replies operation rest h = ground arith

  setstat-replies : replies (sftp_do_setstat os ctx msg) ≡ 1
  unfolding sftp_do_setstat
  setstat-replies = guarded-replies _ _ (change-replies _ _ _ _ _ _ refl)

  fsetstat-replies : replies (sftp_do_fsetstat os ctx msg) ≡ 1
  unfolding sftp_do_fsetstat
  fsetstat-replies = with_handle-replies _ fsetstat refl λ h _. ground arith

  mkdir-replies : replies (sftp_do_mkdir os ctx msg) ≡ 1
  unfolding sftp_do_mkdir
  mkdir-replies = guarded-replies _ _ (change-replies _ _ _ _ _ _ refl)

  rmdir-replies : replies (sftp_do_rmdir os ctx msg) ≡ 1
  unfolding sftp_do_rmdir
  rmdir-replies = guarded-replies _ _ (change-replies _ _ _ _ _ _ refl)

  remove-replies : replies (sftp_do_remove os ctx msg) ≡ 1
  unfolding sftp_do_remove
  remove-replies = guarded-replies _ _ (change-replies _ _ _ _ _ _ refl)

  rename_over-replies :
      (full_src dst full : Text) → replies (rename_over os ctx msg full_src dst full) ≡ 1
  unfolding rename_over
  rename_over-replies full_src dst [] = refl
  rename_over-replies full_src dst (b ∷ full) = ground arith

  rename_to-replies :
      (full_src : Text) (dst : Option Text) → replies (rename_to os ctx msg full_src dst) ≡ 1
  unfolding rename_to
  rename_to-replies full_src none = refl
  rename_to-replies full_src (some dst) = rename_over-replies full_src dst _

  rename_from-replies :
      (dst : Option Text) (full : Text) → replies (rename_from os ctx msg dst full) ≡ 1
  unfolding rename_from
  rename_from-replies dst [] = refl
  rename_from-replies dst (b ∷ full) = rename_to-replies (b ∷ full) dst

  rename-replies : replies (sftp_do_rename os ctx msg) ≡ 1
  unfolding sftp_do_rename
  rename-replies = guarded-replies _ _ (rename_from-replies _ _)

  reply_name-replies : (display : Text) → replies (reply_name os ctx msg display) ≡ 1
  unfolding reply_name
  reply_name-replies display = ground arith

  realpath_of-replies : (path : Text) → replies (realpath_of os ctx msg path) ≡ 1
  unfolding realpath_of
  realpath_of-replies [] = refl
  realpath_of-replies (b ∷ path) = reply_name-replies _

  realpath-replies : replies (sftp_do_realpath os ctx msg) ≡ 1
  unfolding sftp_do_realpath
  realpath-replies = ground (arith, realpath_of-replies msg.filename)

  -- Where the replies can be sent and the client's handle is of the kind that the request asks
  -- for, every message gets exactly one reply.
  pub handle_message-replies :
      (type : PacketType) → fits type msg.info ≡ true → replies (handle_message type os ctx msg) ≡ 1
  unfolding handle_message sftp_do_read sftp_do_readdir sftp_do_fstat
  handle_message-replies open_ fit = open-replies
  handle_message-replies close fit = close-replies
  handle_message-replies read fit = with_handle-replies _ read fit read_from-replies
  handle_message-replies write fit = write-replies fit
  handle_message-replies opendir fit = opendir-replies
  handle_message-replies readdir fit = with_handle-replies _ readdir fit read_entry-replies
  handle_message-replies stat_ fit = stat-replies
  handle_message-replies lstat fit = stat-replies
  handle_message-replies fstat fit = with_handle-replies _ fstat fit stat_handle-replies
  handle_message-replies setstat fit = setstat-replies
  handle_message-replies fsetstat fit = fsetstat-replies
  handle_message-replies mkdir fit = mkdir-replies
  handle_message-replies rmdir fit = rmdir-replies
  handle_message-replies remove fit = remove-replies
  handle_message-replies rename fit = rename-replies
  handle_message-replies realpath_ fit = realpath-replies
  handle_message-replies unknown fit = refl
