-- ===== src/Sftp/Handlers/Confinement.antt =====
-- Which paths the handlers of src/sftp_handlers.cpp touch.
use mock_services.Base.{
  ℕ, ◌≡◌, ◌≢◌, refl, inl, inr, Bool, true, false, not, ◌||◌, Option, Option-cases, none, some, List,
  [], ◌∷◌, ◌++◌, any, arith, ltb, Text, text, text_key, if◌then◌else◌, any-append,
}
use mock_services.Sftp.Path.{has_case_insensitive_prefix, normalize_separators, resolve_path}
use mock_services.Sftp.Path.Confined.{IsBelow, prefix_rest, rest_prefix, resolve_path_iff}
use mock_services.Sftp.Messages.{
  System, Context, Message, HandleData, file, directory, Attr, Status, eof, failure, no_such_file,
  Effect, status, sent_data, sent_handle, opened, listed, wrote, made, removed, unlinked, renamed,
  dropped, has_flag, reply_or_fail,
}
use mock_services.Sftp.Files.{
  grant_handle, open_at, sftp_do_open, with_handle, sftp_do_close, read_from, sftp_do_read,
  write_to, sftp_do_write, opendir_at, sftp_do_opendir, read_entry, sftp_do_readdir, reply_attr,
  stat_at, sftp_do_stat, stat_handle, sftp_do_fstat, sftp_do_fsetstat,
}
use mock_services.Sftp.Changes.{
  change_at, guarded, sftp_do_setstat, sftp_do_mkdir, sftp_do_rmdir, sftp_do_remove, rename_over,
  rename_to, rename_from, sftp_do_rename, reply_name, realpath_of, sftp_do_realpath,
}
use mock_services.Sftp.Handlers.{
  handle_message, PacketType, open_, close, read, write, opendir, readdir, stat_, lstat, fstat,
  setstat, fsetstat, mkdir, rmdir, remove, rename, realpath_, unknown,
}

-- There is no root, or the path does not begin with it.
abbrev pub is_outside : Text → Text → Bool
is_outside [] path = true
is_outside (b ∷ root) path =
    not (has_case_insensitive_prefix (normalize_separators path) (normalize_separators (b ∷ root)))

abbrev pub path_of : HandleData → Text
path_of (file path fp) = path
path_of (directory path) = path

-- The effects on the file system and on handles whose path is outside; `confused` is not counted.
abbrev pub escapes : Text → Effect → Bool
escapes root (opened path mode) = is_outside root path
escapes root (listed path) = is_outside root path
escapes root (wrote path offset bytes) = is_outside root path
escapes root (made path) = is_outside root path
escapes root (removed path) = is_outside root path
escapes root (unlinked path) = is_outside root path
escapes root (renamed src dst) = is_outside root src || is_outside root dst
escapes root (sent_handle h) = is_outside root (path_of h)
escapes root (dropped h) = is_outside root (path_of h)
escapes root _ = false

-- The path of the handle that a message names, if it names one, begins with the root.
abbrev pub names_inside : Text → Option HandleData → Bool
names_inside root none = true
names_inside root (some h) = not (is_outside root (path_of h))

pub inside-IsBelow :
    (root path : Text)
    → is_outside root path ≡ false
    → (root ≢ []) × IsBelow (normalize_separators root) (normalize_separators path)
inside-IsBelow [] path h = cc
inside-IsBelow (b ∷ root) path h =
    (λ e. cc, prefix_rest _ (normalize_separators (b ∷ root)) (ground arith))

resolve-inside :
    (realpath : Text → Option Text) (root client_path : Text) (must_exist : Bool)
    → resolve_path realpath root client_path must_exist ≢ []
    → is_outside root (resolve_path realpath root client_path must_exist) ≡ false
resolve-inside realpath root client_path must_exist ne =
    let path = resolve_path realpath root client_path must_exist in
    let (some_root, _, (rest, e)) =
      (resolve_path_iff realpath root client_path path must_exist ne).0 refl in
    go root path rest some_root e
  where
    go :
        (root path rest : Text)
        → root ≢ []
        → normalize_separators path ≡ normalize_separators root ++ rest
        → is_outside root path ≡ false
    go [] path rest h e = absurd (h refl)
    go (b ∷ root) path rest h e = rw (e, rest_prefix (normalize_separators (b ∷ root)) rest) refl

module _ (os : System) (ctx : Context) (msg : Message) where
  -- The path is the empty refusal or inside.
  abbrev Granted : Text → Type 0
  Granted full = full ≢ [] → is_outside ctx.root full ≡ false

  abbrev Stays : List Effect → Type 0
  Stays effects = any (escapes ctx.root) effects ≡ false

  resolved-Granted :
      (client_path : Text) (must_exist : Bool)
      → Granted (resolve_path os.realpath ctx.root client_path must_exist)
  resolved-Granted client_path must_exist =
      resolve-inside os.realpath ctx.root client_path must_exist

  grant-Stays :
      (operation : Text) (h : HandleData)
      → is_outside ctx.root (path_of h) ≡ false
      → Stays (grant_handle os ctx msg operation h)
  unfolding grant_handle
  grant-Stays operation h inside = ground arith

  open_at-Stays : (full : Text) → Granted full → Stays (open_at os ctx msg full)
  unfolding open_at
  open_at-Stays [] g = refl
  open_at-Stays (b ∷ full) g =
      let inside = g λ e. cc in
      ground (arith, inside, grant-Stays (text "OPEN") (file (b ∷ full) true) inside)

  open-Stays : Stays (sftp_do_open os ctx msg)
  unfolding sftp_do_open
  open-Stays =
      ground (arith, open_at-Stays _ (resolved-Granted msg.filename (not (has_flag msg.flags 8))))

  change-Stays :
      (operation result : Text) (code : Status) (done : Bool) (effects : List Effect) (full : Text)
      → (full ≢ [] → Stays effects)
      → Stays (change_at os ctx msg operation result code done effects full)
  unfolding change_at
  change-Stays operation result code done effects [] h = refl
  change-Stays operation result code false effects (b ∷ full) h = refl
  change-Stays operation result code true effects (b ∷ full) h =
      rw (any-append (escapes ctx.root) effects, h λ e. cc) refl

  -- The same for a call on the path that the message resolves to.
  called-Stays :
      (operation result : Text) (code : Status) (done must_exist : Bool) (call : Text → Effect)
      → ((path : Text) → escapes ctx.root (call path) ≡ is_outside ctx.root path)
      → let full = resolve_path os.realpath ctx.root msg.filename must_exist in
        Stays (change_at os ctx msg operation result code done (call full ∷ []) full)
  called-Stays operation result code done must_exist call same =
      let full = resolve_path os.realpath ctx.root msg.filename must_exist in
      change-Stays operation result code done (call full ∷ []) full
        λ ne. rw (same full, resolved-Granted msg.filename must_exist ne) refl

  guarded-Stays :
      (operation : Text) (rest : List Effect)
      → Stays rest
      → Stays (guarded os ctx msg operation rest)
  unfolding guarded
  guarded-Stays operation rest h = ground arith

  opendir_at-Stays : (full : Text) → Granted full → Stays (opendir_at os ctx msg full)
  unfolding opendir_at
  opendir_at-Stays [] g = refl
  opendir_at-Stays (b ∷ full) g =
      let inside = g λ e. cc in
      ground (arith, inside, grant-Stays (text "OPENDIR") (directory (b ∷ full)) inside)

  opendir-Stays : Stays (sftp_do_opendir os ctx msg)
  unfolding sftp_do_opendir
  opendir-Stays = ground (arith, opendir_at-Stays _ (resolved-Granted msg.filename true))

  reply_attr-Stays : (code : Status) (attr : Option Attr) → Stays (reply_attr os ctx msg code attr)
  unfolding reply_attr
  reply_attr-Stays code none = refl
  reply_attr-Stays code (some attr) = ground arith

  stat_at-Stays : (full : Text) → Stays (stat_at os ctx msg full)
  unfolding stat_at
  stat_at-Stays [] = refl
  stat_at-Stays (b ∷ full) = reply_attr-Stays no_such_file _

  stat-Stays : Stays (sftp_do_stat os ctx msg)
  unfolding sftp_do_stat
  stat-Stays = stat_at-Stays _

  rename_over-Stays :
      (full_src dst full : Text)
      → is_outside ctx.root full_src ≡ false
      → Granted full
      → Stays (rename_over os ctx msg full_src dst full)
  unfolding rename_over
  rename_over-Stays full_src dst [] h g = refl
  rename_over-Stays full_src dst (b ∷ full) h g =
      let inside = g λ e. cc in ground (arith, h, inside)

  rename_to-Stays :
      (full_src : Text) (dst : Option Text)
      → is_outside ctx.root full_src ≡ false
      → Stays (rename_to os ctx msg full_src dst)
  unfolding rename_to
  rename_to-Stays full_src none h = refl
  rename_to-Stays full_src (some dst) h =
      rename_over-Stays full_src dst _ h (resolved-Granted dst false)

  rename_from-Stays :
      (dst : Option Text) (full : Text) → Granted full → Stays (rename_from os ctx msg dst full)
  unfolding rename_from
  rename_from-Stays dst [] g = refl
  rename_from-Stays dst (b ∷ full) g = rename_to-Stays (b ∷ full) dst (g λ e. cc)

  realpath_of-Stays : (path : Text) → Stays (realpath_of os ctx msg path)
  unfolding realpath_of reply_name
  realpath_of-Stays [] = refl
  realpath_of-Stays (b ∷ path) = ground arith

  realpath-Stays : Stays (sftp_do_realpath os ctx msg)
  unfolding sftp_do_realpath
  realpath-Stays = ground (arith, realpath_of-Stays msg.filename)

  with_handle-Stays :
      (rest : HandleData → List Effect)
      → names_inside ctx.root msg.info ≡ true
      → ((h : HandleData) → is_outside ctx.root (path_of h) ≡ false → Stays (rest h))
      → Stays (with_handle os ctx msg rest)
  unfolding with_handle
  with_handle-Stays rest named h = elim (Option-cases msg.info) [
    | inl e ↦ rw e refl
    | inr (handle, e) ↦
        let inside : not (is_outside ctx.root (path_of handle)) ≡ true = rw e at named in
        rw (with_handle, e) (h handle (ground arith))
  ]

  read_from-Stays : (h : HandleData) → Stays (read_from os ctx msg h)
  unfolding read_from
  read_from-Stays (directory path) = refl
  read_from-Stays (file path false) = refl
  read_from-Stays (file path true) =
      split (os.contents msg.offset (if ltb 65536 msg.len then 65536 else msg.len))
    where
      split :
          (bytes : List ℕ)
          → Stays (
              if os.can_seek msg.offset
              then (elim bytes [
                | [] ↦ status eof ∷ []
                | b ∷ bs ↦ reply_or_fail os (sent_data (b ∷ bs))
              ])
              else status failure ∷ [])
      split [] = ground arith
      split (b ∷ bs) = ground arith

  write_to-Stays :
      (h : HandleData) → is_outside ctx.root (path_of h) ≡ false → Stays (write_to os ctx msg h)
  unfolding write_to
  write_to-Stays (directory path) h = refl
  write_to-Stays (file path false) h = refl
  write_to-Stays (file path true) h = ground (arith, h)

  read_entry-Stays : (h : HandleData) → Stays (read_entry os ctx msg h)
  unfolding read_entry
  read_entry-Stays (file path fp) = refl
  read_entry-Stays (directory path) = ground arith

  stat_handle-Stays : (h : HandleData) → Stays (stat_handle os ctx msg h)
  unfolding stat_handle
  stat_handle-Stays (directory path) = refl
  stat_handle-Stays (file path fp) = reply_attr-Stays failure _

  -- Where the path of the handle that a message names begins with the text of the user's root, so does
  -- every path that its handler works on. What the language leaves open is not counted here.
  pub handle_message-stays_inside :
      (type : PacketType)
      → names_inside ctx.root msg.info ≡ true
      → any (escapes ctx.root) (handle_message type os ctx msg) ≡ false
  unfolding handle_message sftp_do_read sftp_do_readdir sftp_do_fstat sftp_do_fsetstat sftp_do_close
      sftp_do_setstat sftp_do_mkdir sftp_do_rmdir sftp_do_remove sftp_do_rename sftp_do_write
  handle_message-stays_inside open_ n = open-Stays
  handle_message-stays_inside close n = with_handle-Stays _ n λ h inside. ground arith
  handle_message-stays_inside read n = with_handle-Stays _ n λ h _. read_from-Stays h
  handle_message-stays_inside write n =
      ground (arith, with_handle-Stays (write_to os ctx msg) n write_to-Stays)
  handle_message-stays_inside opendir n = opendir-Stays
  handle_message-stays_inside readdir n = with_handle-Stays _ n λ h _. read_entry-Stays h
  handle_message-stays_inside stat_ n = stat-Stays
  handle_message-stays_inside lstat n = stat-Stays
  handle_message-stays_inside fstat n = with_handle-Stays _ n λ h _. stat_handle-Stays h
  handle_message-stays_inside setstat n = guarded-Stays _ _ (change-Stays _ _ _ _ _ _ λ ne. refl)
  handle_message-stays_inside fsetstat n = with_handle-Stays _ n λ h _. ground arith
  handle_message-stays_inside mkdir n =
      guarded-Stays _ _ (called-Stays _ _ _ _ false made λ path. refl)
  handle_message-stays_inside rmdir n =
      guarded-Stays _ _ (called-Stays _ _ _ _ true removed λ path. refl)
  handle_message-stays_inside remove n =
      guarded-Stays _ _ (called-Stays _ _ _ _ true unlinked λ path. refl)
  handle_message-stays_inside rename n =
      guarded-Stays _ _ (rename_from-Stays _ _ (resolved-Granted msg.filename true))
  handle_message-stays_inside realpath_ n = realpath-Stays
  handle_message-stays_inside unknown n = refl
