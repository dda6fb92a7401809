-- ===== src/Sftp/Changes.antt =====
-- src/sftp_handlers.cpp as it is built for POSIX: the handlers that work on paths.
use mock_services.Base.{
  Bool, true, false, ◌&&◌, ◌||◌, Option, none, some, List, [], ◌∷◌, ◌++◌, nat_eq, if◌then◌else◌,
  length, drop, Text, text, ◌==◌, text_key,
}
use mock_services.Sftp.Path.{normalize_separators, has_case_insensitive_prefix, drop_slashes}
use mock_services.Sftp.Messages.{
  Status, fx_ok, no_such_file, permission_denied, failure, no_such_path, Effect, status, sent_name,
  logged, made, removed, unlinked, renamed, System, Message, Context, make_attr, can_read,
  can_write, ok_text, refuse, reply_or_fail, resolve_for,
}

module _ (os : System) (ctx : Context) (msg : Message) where
  -- The shape that SETSTAT, MKDIR, RMDIR and REMOVE share: the permission, the path, then the call.
  unfoldable pub change_at : Text → Text → Status → Bool → List Effect → Text → List Effect
  change_at operation result code done effects [] = refuse operation msg.filename result code
  change_at operation result code done effects (b ∷ full) =
      if done
      then effects ++ (status fx_ok ∷ logged operation msg.filename ok_text ∷ [])
      else refuse operation msg.filename (text "FAILURE") failure

  unfoldable pub guarded : Text → List Effect → List Effect
  guarded operation rest =
      if can_write ctx.perm
      then rest
      else refuse operation msg.filename (text "DENIED") permission_denied

  unfoldable pub sftp_do_setstat : List Effect
  sftp_do_setstat = guarded (text "SETSTAT") (
      change_at (text "SETSTAT") (text "NO_SUCH_FILE") no_such_file true []
        (resolve_for os ctx msg.filename true))

  unfoldable pub sftp_do_mkdir : List Effect
  sftp_do_mkdir =
      let full = resolve_for os ctx msg.filename false in
      guarded (text "MKDIR") (
        change_at (text "MKDIR") (text "NO_SUCH_PATH") no_such_path (os.can_make full)
          (made full ∷ []) full)

  unfoldable pub sftp_do_rmdir : List Effect
  sftp_do_rmdir =
      let full = resolve_for os ctx msg.filename true in
      guarded (text "RMDIR") (
        change_at (text "RMDIR") (text "NO_SUCH_FILE") no_such_file (os.can_remove full)
          (removed full ∷ []) full)

  unfoldable pub sftp_do_remove : List Effect
  sftp_do_remove =
      let full = resolve_for os ctx msg.filename true in
      guarded (text "REMOVE") (
        change_at (text "REMOVE") (text "NO_SUCH_FILE") no_such_file (os.can_unlink full)
          (unlinked full ∷ []) full)

  unfoldable pub rename_over : Text → Text → Text → List Effect
  rename_over full_src dst_path [] =
      refuse (text "RENAME") dst_path (text "NO_SUCH_PATH") no_such_path
  rename_over full_src dst_path (b ∷ full) =
      let names = msg.filename ++ (text " -> " ++ dst_path) in
      if os.can_rename full_src (b ∷ full)
      then renamed full_src (b ∷ full) ∷ status fx_ok ∷ logged (text "RENAME") names ok_text ∷ []
      else refuse (text "RENAME") msg.filename (text "FAILURE") failure

  unfoldable pub rename_to : Text → Option Text → List Effect
  rename_to full_src none = status failure ∷ []
  rename_to full_src (some dst_path) =
      rename_over full_src dst_path (resolve_for os ctx dst_path false)

  unfoldable pub rename_from : Option Text → Text → List Effect
  rename_from dst_path [] = refuse (text "RENAME") msg.filename (text "NO_SUCH_FILE") no_such_file
  rename_from dst_path (b ∷ full) = rename_to (b ∷ full) dst_path

  unfoldable pub sftp_do_rename : List Effect
  sftp_do_rename =
      let dst_path : Option Text = elim msg.submessage [
        | some dst ↦ some dst
        | none ↦ msg.str_data
      ] in
      guarded (text "RENAME") (rename_from dst_path (resolve_for os ctx msg.filename true))

  -- The loop that drops a slash behind a slash.
  unfoldable pub cleaned : Text → Text
  cleaned [] = []
  cleaned (b ∷ []) = b ∷ []
  cleaned (b ∷ next ∷ path) =
      let rest = cleaned (next ∷ path) in
      if nat_eq b b'/' && nat_eq next b'/' then rest else b ∷ rest

  unfoldable pub full_name : Text → Text
  full_name [] = cleaned (normalize_separators ctx.root ++ (b'/' ∷ msg.filename))
  full_name (b ∷ full) = b ∷ full

  -- The path as the client is to see it, without the root.
  unfoldable pub shown_path : Text → Text
  shown_path full =
      let nroot = normalize_separators ctx.root in
      let nfull = normalize_separators full in
      if has_case_insensitive_prefix nfull nroot
      then b'/' ∷ drop_slashes (drop (length nroot) nfull)
      else full

  unfoldable pub reply_name : Text → List Effect
  reply_name display = elim (make_attr os display 0 0x41ed 0 0) [
    | none ↦ status failure ∷ []
    | some attr ↦ reply_or_fail os (sent_name display (some attr))
  ]

  unfoldable pub realpath_of : Text → List Effect
  realpath_of [] = status failure ∷ []
  realpath_of (b ∷ client_path) =
      let at_root = (b ∷ client_path) == text "/" || (b ∷ client_path) == text "." in
      let full =
        if at_root then ctx.root else full_name (resolve_for os ctx (b ∷ client_path) false) in
      reply_name (shown_path full)

  unfoldable pub sftp_do_realpath : List Effect
  sftp_do_realpath =
      if can_read ctx.perm
      then realpath_of msg.filename
      else refuse (text "REALPATH") msg.filename (text "DENIED") permission_denied
