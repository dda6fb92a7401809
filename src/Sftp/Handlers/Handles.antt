-- ===== src/Sftp/Handlers/Handles.antt =====
-- Which handles the handlers of src/sftp_handlers.cpp make, give out and close.
use mock_services.Base.{
  ℕ, ◌≡◌, refl, inl, inr, Bool, true, false, not, Option, Option-cases, some, List, [], ◌∷◌, ◌++◌,
  arith, ltb, Text, text, text_key, if◌then◌else◌,
}
use mock_services.Sftp.Path.{resolve_path}
use mock_services.Sftp.Messages.{
  has_flag, System, Context, Message, HandleData, file, directory, Attr, Status, eof, failure,
  no_such_file, fx_ok, Effect, status, sent_data, sent_handle, opened, listed, dropped, logged,
  reply_or_fail,
}
use mock_services.Sftp.Files.{
  grant_handle, open_at, sftp_do_open, with_handle, sftp_do_close, read_from, sftp_do_read,
  write_to, sftp_do_write, opendir_at, sftp_do_opendir, read_entry, sftp_do_readdir, reply_attr,
  stat_at, sftp_do_stat, stat_handle, sftp_do_fstat, sftp_do_fsetstat,
}
use mock_services.Sftp.Changes.{
  change_at, guarded, sftp_do_setstat, sftp_do_mkdir, sftp_do_rmdir, sftp_do_remove, rename_over,
  rename_to, rename_from, sftp_do_rename, reply_name, realpath_of, sftp_do_realpath,
}
use mock_services.Sftp.Handlers.{
  handle_message, PacketType, open_, close, read, write, opendir, readdir, stat_, lstat, fstat,
  setstat, fsetstat, mkdir, rmdir, remove, rename, realpath_, unknown,
}

-- The handles that the effects make by opening a file or a directory, send to the client, and close.
abbrev pub opens : List Effect → List HandleData
opens [] = []
opens (opened path mode ∷ effects) = file path true ∷ opens effects
opens (listed path ∷ effects) = directory path ∷ opens effects
opens (_ ∷ effects) = opens effects

abbrev pub grants : List Effect → List HandleData
grants [] = []
grants (sent_handle h ∷ effects) = h ∷ grants effects
grants (_ ∷ effects) = grants effects

abbrev pub drops : List Effect → List HandleData
drops [] = []
drops (dropped h ∷ effects) = h ∷ drops effects
drops (_ ∷ effects) = drops effects

-- The handle that a CLOSE names.
abbrev pub closing : PacketType → Option HandleData → List HandleData
closing close (some h) = h ∷ []
closing type info = []

-- What a handler opens is what it sends to the client or closes again, and a CLOSE closes what it
-- names.
abbrev pub Settles : List HandleData → List Effect → Type 0
Settles closed effects = closed ++ opens effects ≡ drops effects ++ grants effects

-- Nothing is opened, given out or closed.
record IsPlain (effects : List Effect) : Type 0 where
  none_opened : opens effects ≡ []
  none_granted : grants effects ≡ []
  none_dropped : drops effects ≡ []

IsPlain-Settles : (effects : List Effect) → IsPlain effects → Settles [] effects
IsPlain-Settles effects h = rw (h.none_opened, h.none_granted, h.none_dropped) refl

module _ (os : System) (ctx : Context) (msg : Message) where
  open_at-Settles : (full : Text) → Settles [] (open_at os ctx msg full)
  unfolding open_at grant_handle
  open_at-Settles [] = refl
  open_at-Settles (b ∷ full) = ground arith

  open-Settles : Settles [] (sftp_do_open os ctx msg)
  unfolding sftp_do_open
  open-Settles = ground (
    arith,
    open_at-Settles (resolve_path os.realpath ctx.root msg.filename (not (has_flag msg.flags 8))),
  )

  opendir_at-Settles : (full : Text) → Settles [] (opendir_at os ctx msg full)
  unfolding opendir_at grant_handle
  opendir_at-Settles [] = refl
  opendir_at-Settles (b ∷ full) = ground arith

  opendir-Settles : Settles [] (sftp_do_opendir os ctx msg)
  unfolding sftp_do_opendir
  opendir-Settles =
      ground (arith, opendir_at-Settles (resolve_path os.realpath ctx.root msg.filename true))

  with_handle-IsPlain :
      (rest : HandleData → List Effect)
      → ((h : HandleData) → IsPlain (rest h))
      → IsPlain (with_handle os ctx msg rest)
  unfolding with_handle
  with_handle-IsPlain rest h = elim (Option-cases msg.info) [
    | inl e ↦
        rw (with_handle, e)
          (record { none_opened = refl; none_granted = refl; none_dropped = refl })
    | inr (handle, e) ↦ rw (with_handle, e) (h handle)
  ]

  close-Settles : Settles (closing close msg.info) (sftp_do_close os ctx msg)
  unfolding sftp_do_close with_handle
  close-Settles = elim (Option-cases msg.info) [ inl e ↦ rw e refl | inr (handle, e) ↦ rw e refl ]

  read_from-IsPlain : (h : HandleData) → IsPlain (read_from os ctx msg h)
  unfolding read_from
  read_from-IsPlain (directory path) = (record {
    none_opened = refl;
    none_granted = refl;
    none_dropped = refl;
  })
  read_from-IsPlain (file path false) = (record {
    none_opened = refl;
    none_granted = refl;
    none_dropped = refl;
  })
  read_from-IsPlain (file path true) =
      split (os.contents msg.offset (if ltb 65536 msg.len then 65536 else msg.len))
    where
      split :
          (bytes : List ℕ)
          → IsPlain (
              if os.can_seek msg.offset
              then (elim bytes [
                | [] ↦ status eof ∷ []
                | b ∷ bs ↦ reply_or_fail os (sent_data (b ∷ bs))
              ])
              else status failure ∷ [])
      split [] = ground arith
      split (b ∷ bs) = ground arith

  write_to-IsPlain : (h : HandleData) → IsPlain (write_to os ctx msg h)
  unfolding write_to
  write_to-IsPlain h = ground arith

  write-IsPlain : IsPlain (sftp_do_write os ctx msg)
  unfolding sftp_do_write
  write-IsPlain = ground (arith, with_handle-IsPlain (write_to os ctx msg) write_to-IsPlain)

  fsetstat-IsPlain : IsPlain (sftp_do_fsetstat os ctx msg)
  unfolding sftp_do_fsetstat
  fsetstat-IsPlain = with_handle-IsPlain _ λ h. ground arith

  read_entry-IsPlain : (h : HandleData) → IsPlain (read_entry os ctx msg h)
  unfolding read_entry
  read_entry-IsPlain h = ground arith

  reply_attr-IsPlain :
      (code : Status) (attr : Option Attr) → IsPlain (reply_attr os ctx msg code attr)
  unfolding reply_attr
  reply_attr-IsPlain code attr = ground arith

  stat_at-IsPlain : (full : Text) → IsPlain (stat_at os ctx msg full)
  unfolding stat_at
  stat_at-IsPlain [] = (record { none_opened = refl; none_granted = refl; none_dropped = refl })
  stat_at-IsPlain (b ∷ full) = reply_attr-IsPlain no_such_file _

  stat-IsPlain : IsPlain (sftp_do_stat os ctx msg)
  unfolding sftp_do_stat
  stat-IsPlain = stat_at-IsPlain _

  stat_handle-IsPlain : (h : HandleData) → IsPlain (stat_handle os ctx msg h)
  unfolding stat_handle
  stat_handle-IsPlain (directory path) = (record {
    none_opened = refl;
    none_granted = refl;
    none_dropped = refl;
  })
  stat_handle-IsPlain (file path fp) = reply_attr-IsPlain failure _

  guarded-IsPlain :
      (operation : Text) (rest : List Effect)
      → IsPlain rest
      → IsPlain (guarded os ctx msg operation rest)
  unfolding guarded
  guarded-IsPlain operation rest h = ground arith

  change-IsPlain :
      (operation result : Text) (code : Status) (done : Bool) (effects : List Effect) (full : Text)
      → IsPlain (effects ++ (status fx_ok ∷ logged operation msg.filename (text "OK") ∷ []))
      → IsPlain (change_at os ctx msg operation result code done effects full)
  unfolding change_at
  change-IsPlain operation result code done effects [] h = (record {
    none_opened = refl;
    none_granted = refl;
    none_dropped = refl;
  })
  change-IsPlain operation result code false effects (b ∷ full) h = (record {
    none_opened = refl;
    none_granted = refl;
    none_dropped = refl;
  })
  change-IsPlain operation result code true effects (b ∷ full) h = h

  changed-IsPlain :
      (operation result : Text) (code : Status) (done : Bool) (effects : List Effect) (full : Text)
      → IsPlain (effects ++ (status fx_ok ∷ logged operation msg.filename (text "OK") ∷ []))
      → IsPlain (
          guarded os ctx msg operation
            (change_at os ctx msg operation result code done effects full))
  changed-IsPlain operation result code done effects full h =
      guarded-IsPlain _ _ (change-IsPlain operation result code done effects full h)

  rename-IsPlain : IsPlain (sftp_do_rename os ctx msg)
  unfolding sftp_do_rename rename_from rename_to rename_over
  rename-IsPlain = guarded-IsPlain _ _ (ground arith)

  realpath-IsPlain : IsPlain (sftp_do_realpath os ctx msg)
  unfolding sftp_do_realpath realpath_of reply_name
  realpath-IsPlain = ground arith

  -- Whatever the message and the answers of the system, the files and directories that a handler
  -- opens are the ones that it gives the client a handle for or closes again before it returns, and
  -- the only other handle that is closed is the one that a CLOSE names.
  pub handle_message-Settles :
      (type : PacketType) → Settles (closing type msg.info) (handle_message type os ctx msg)
  unfolding handle_message sftp_do_read sftp_do_readdir sftp_do_fstat sftp_do_setstat sftp_do_mkdir
      sftp_do_rmdir sftp_do_remove
  handle_message-Settles open_ = open-Settles
  handle_message-Settles close = close-Settles
  handle_message-Settles read = IsPlain-Settles _ (with_handle-IsPlain _ read_from-IsPlain)
  handle_message-Settles write = IsPlain-Settles _ write-IsPlain
  handle_message-Settles opendir = opendir-Settles
  handle_message-Settles readdir = IsPlain-Settles _ (with_handle-IsPlain _ read_entry-IsPlain)
  handle_message-Settles stat_ = IsPlain-Settles _ stat-IsPlain
  handle_message-Settles lstat = IsPlain-Settles _ stat-IsPlain
  handle_message-Settles fstat = IsPlain-Settles _ (with_handle-IsPlain _ stat_handle-IsPlain)
  handle_message-Settles setstat = IsPlain-Settles _ (changed-IsPlain _ _ _ _ _ _ (ground arith))
  handle_message-Settles fsetstat = IsPlain-Settles _ fsetstat-IsPlain
  handle_message-Settles mkdir = IsPlain-Settles _ (changed-IsPlain _ _ _ _ _ _ (ground arith))
  handle_message-Settles rmdir = IsPlain-Settles _ (changed-IsPlain _ _ _ _ _ _ (ground arith))
  handle_message-Settles remove = IsPlain-Settles _ (changed-IsPlain _ _ _ _ _ _ (ground arith))
  handle_message-Settles rename = IsPlain-Settles _ rename-IsPlain
  handle_message-Settles realpath_ = IsPlain-Settles _ realpath-IsPlain
  handle_message-Settles unknown = refl
