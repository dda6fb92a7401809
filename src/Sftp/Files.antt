-- ===== src/Sftp/Files.antt =====
-- src/sftp_handlers.cpp as it is built for POSIX: the handlers that give out a handle or work on one,
-- and STAT.
use mock_services.Base.{
  true, false, not, ◌&&◌, ◌||◌, Option, none, some, List, [], ◌∷◌, ◌++◌, nat_eq, ltb, if◌then◌else◌,
  length, take, Text, text, ◌==◌, text_key,
}
use mock_services.Sftp.Path.{split_last_slash}
use mock_services.Sftp.Messages.{
  Attr, HandleData, file, directory, Status, fx_ok, eof, no_such_file, permission_denied, failure,
  invalid_handle, Effect, status, sent_handle, sent_data, sent_name, sent_attr, logged, opened,
  listed, wrote, dropped, confused, System, Message, Context, make_attr, stat_to_attr, has_flag,
  can_read, can_write, sftp_flags_to_mode, ok_text, refuse, reply_or_fail, resolve_for,
}

module _ (os : System) (ctx : Context) (msg : Message) where
  -- A new handle, and the reply that carries it. A reply that fails takes the handle back.
  unfoldable pub grant_handle : Text → HandleData → List Effect
  grant_handle operation handle =
      let done = logged operation msg.filename ok_text in
      if os.can_alloc
      then (if os.can_reply then sent_handle handle ∷ done ∷ [] else dropped handle ∷ done ∷ [])
      else dropped handle ∷ status failure ∷ []

  unfoldable pub open_at : Text → List Effect
  open_at [] = refuse (text "OPEN") msg.filename (text "NO_SUCH_FILE") no_such_file
  open_at (b ∷ full) =
      let mode = sftp_flags_to_mode msg.flags in
      if os.can_open (b ∷ full) mode
      then opened (b ∷ full) mode ∷ grant_handle (text "OPEN") (file (b ∷ full) true)
      else refuse (text "OPEN") msg.filename (text "FAILURE") failure

  unfoldable pub sftp_do_open : List Effect
  sftp_do_open =
      let denied = refuse (text "OPEN") msg.filename (text "DENIED") permission_denied in
      let writing = has_flag msg.flags 2 || has_flag msg.flags 8 || has_flag msg.flags 16 in
      if writing && not (can_write ctx.perm)
      then denied
      else if has_flag msg.flags 1 && not (can_read ctx.perm)
      then denied
      else open_at (resolve_for os ctx msg.filename (not (has_flag msg.flags 8)))

  -- `if (!info) { ...; return; }`
  unfoldable pub with_handle : (HandleData → List Effect) → List Effect
  with_handle rest = elim msg.info [ none ↦ status invalid_handle ∷ [] | some h ↦ rest h ]

  unfoldable pub sftp_do_close : List Effect
  sftp_do_close =
      with_handle (λ h. dropped h ∷ status fx_ok ∷ logged (text "CLOSE") [] ok_text ∷ [])

  unfoldable pub read_from : HandleData → List Effect
  read_from (directory path) = confused ∷ []
  read_from (file path false) = status failure ∷ []
  read_from (file path true) =
      let bytes = os.contents msg.offset (if ltb 65536 msg.len then 65536 else msg.len) in
      if os.can_seek msg.offset
      then (elim bytes [ [] ↦ status eof ∷ [] | b ∷ bs ↦ reply_or_fail os (sent_data (b ∷ bs)) ])
      else status failure ∷ []

  unfoldable pub sftp_do_read : List Effect
  sftp_do_read = with_handle read_from

  unfoldable pub write_to : HandleData → List Effect
  write_to (directory path) = confused ∷ []
  write_to (file path false) = status failure ∷ []
  write_to (file path true) =
      let size = length msg.data_ in
      let written = os.accepted size in
      let effect = wrote path msg.offset (take written msg.data_) in
      if os.can_seek msg.offset
      then (if nat_eq written size
          then effect ∷ status fx_ok ∷ logged (text "WRITE") path ok_text ∷ []
          else effect ∷ status failure ∷ [])
      else status failure ∷ []

  unfoldable pub sftp_do_write : List Effect
  sftp_do_write = if can_write ctx.perm then with_handle write_to else status permission_denied ∷ []

  unfoldable pub opendir_at : Text → List Effect
  opendir_at [] = refuse (text "OPENDIR") msg.filename (text "NO_SUCH_FILE") no_such_file
  opendir_at (b ∷ full) =
      if os.can_list (b ∷ full)
      then listed (b ∷ full) ∷ grant_handle (text "OPENDIR") (directory (b ∷ full))
      else refuse (text "OPENDIR") msg.filename (text "FAILURE") failure

  unfoldable pub sftp_do_opendir : List Effect
  sftp_do_opendir =
      if can_read ctx.perm
      then opendir_at (resolve_for os ctx msg.filename true)
      else refuse (text "OPENDIR") msg.filename (text "DENIED") permission_denied

  -- The next entry that is neither "." nor "..".
  unfoldable pub next_entry : List Text → Option Text
  next_entry [] = none
  next_entry (entry ∷ entries) =
      let later = next_entry entries in
      if entry == text "." || entry == text ".." then later else some entry

  -- The attributes of an entry that `stat` fails on are made up; `sftp_reply_name` gets whatever
  -- `make_attr` gives, and `none` is its null pointer.
  unfoldable pub entry_attr : Text → Text → Option Attr
  entry_attr path entry = elim (stat_to_attr os (path ++ (b'/' ∷ entry)) entry) [
    | some attr ↦ some attr
    | none ↦ make_attr os entry 0 0x81a4 0 0
  ]

  unfoldable pub read_entry : HandleData → List Effect
  read_entry (file path fp) = confused ∷ []
  read_entry (directory path) = elim (next_entry os.entries) [
    | none ↦ status eof ∷ []
    | some entry ↦ reply_or_fail os (sent_name entry (entry_attr path entry))
  ]

  unfoldable pub sftp_do_readdir : List Effect
  sftp_do_readdir = with_handle read_entry

  -- The name behind the last slash.
  unfoldable pub display_name : Text → Text
  display_name path = elim (split_last_slash path) [ none ↦ path | some (dir, base) ↦ base ]

  unfoldable pub reply_attr : Status → Option Attr → List Effect
  reply_attr code none = status code ∷ []
  reply_attr code (some attr) = reply_or_fail os (sent_attr attr)

  unfoldable pub stat_at : Text → List Effect
  stat_at [] = refuse (text "STAT") msg.filename (text "NO_SUCH_FILE") no_such_file
  stat_at (b ∷ full) =
      reply_attr no_such_file (stat_to_attr os (b ∷ full) (display_name msg.filename))

  unfoldable pub sftp_do_stat : List Effect
  sftp_do_stat = stat_at (resolve_for os ctx msg.filename true)

  unfoldable pub stat_handle : HandleData → List Effect
  stat_handle (directory path) = confused ∷ []
  stat_handle (file path fp) = reply_attr failure (stat_to_attr os path (display_name path))

  unfoldable pub sftp_do_fstat : List Effect
  sftp_do_fstat = with_handle stat_handle

  unfoldable pub sftp_do_fsetstat : List Effect
  sftp_do_fsetstat =
      with_handle
        (λ _. if can_write ctx.perm then status fx_ok ∷ [] else status permission_denied ∷ [])
